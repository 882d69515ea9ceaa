-- ===== src/Scenario/Network/Completes.antt =====
-- examples/create_onion.rs runs to its end.
use eror.Prelude.{
  ℕ, suc, ◌+◌, ◌-◌, ◌<◌, ◌≤◌, ◌^◌, ◌≡◌, ap, ◌∙◌, List, [], ◌∷◌, ◌++◌, map, some, length, take, drop,
  All, arith,
}
use eror.Prelude.Outcome.{ok, index}
use eror.Prelude.Rand.{run_bind, run_lift, lift}
use eror.Prelude.Index.{index-get_or}
use eror.Bytes.{Byte, byte, zero_array}
use eror.Serde.{Bincode, IsBincode, IsSmall}
use eror.Primitives.{Primitives, IsPrimitives}
use eror.Pki.{Address, Pki}
use eror.Onion.{Onion}
use eror.Format
use eror.Format.{OnionFormat}
use eror.Process.{ExpectedResponse, form_onion}
use eror.Process.Route.{hop_at, IsReachable}
use eror.Process.Delivery.{form_onion_delivers}
use eror.Scenario.{slice, HasKey}
use eror.Scenario.Members.{
  slice-ok, length-slice, hop_at-take, IsMember, members-IsReachable, members_have_keys,
  members_slice,
}
use eror.Scenario.Network.{Line, requesting, simulate, create_onion}
use eror.Scenario.Network.Rounds.{story, simulate-IsDelivered}

-- The example's messages
abbrev pub example_payload : List Byte
example_payload = map byte (99 ∷ 114 ∷ 121 ∷ 112 ∷ 116 ∷ 111 ∷ [])

abbrev pub example_reply : List Byte
example_reply = map byte (114 ∷ 101 ∷ 112 ∷ 108 ∷ 121 ∷ 121 ∷ [])

module _ (b : Bincode) (p : Primitives) (hb : IsBincode b) (hp : IsPrimitives p) where
  -- Under the conditions of `form_onion_delivers`, and with the private key of every hop at hand:
  -- `form_onion` succeeds, and the loop that hands its onion from node to node ends. It takes one
  -- round for each hop of the two paths, however much more fuel there is, and prints all hops of the
  -- forward path, the payload, all hops of the backward path and the reply, in this order.
  pub simulate_completes :
      (f : OnionFormat p) (private_keys : List (Address × p.PrivateKey))
      (sk : Address → p.PrivateKey) (pk : Address → p.PublicKey)
      (hops_forward hops_backward : List Address) (n m : ℕ) (payload reply : List Byte) (fuel : ℕ)
      (log : List Line) (r : p.Rng)
      → p.symmetric_key_length < 2 ^ 32
      → f.max_path_length < 2 ^ 32
      → IsSmall payload
      → length hops_forward ≡ suc n
      → length hops_backward ≡ suc m
      → n < f.max_path_length
      → m < f.max_path_length
      → All (IsReachable b p hb hp f sk pk) hops_forward
      → All (IsReachable b p hb hp f sk pk) hops_backward
      → All (HasKey private_keys sk) hops_forward
      → All (HasKey private_keys sk) hops_backward
      → length hops_forward + length hops_backward ≤ fuel
      → (onion : Onion p) × (response : ExpectedResponse p) × (r' : p.Rng) × (form_onion b p f
            hops_forward hops_backward payload r
          ≡ ok ((onion, response), r'))
        × (simulate b p f private_keys response reply fuel log (hop_at hops_forward 0) onion
            ≡ ok (some (log ++ story hops_forward hops_backward payload reply)))
  simulate_completes f private_keys sk pk hops_forward hops_backward n m payload reply fuel log r
        short max small lf lb hn hm reach_f reach_b keys_f keys_b enough =
      let (onion, response, r', run, delivered) =
        form_onion_delivers b p hb hp f sk pk hops_forward hops_backward payload n m r short max
          small lf lb hn hm reach_f reach_b in
      let rounds : fuel ≡ n + suc (m + suc (fuel - (n + m + 2))) = omega arith in
      (
        onion,
        response,
        r',
        run,
        ap
              (λ (k : ℕ).
                simulate b p f private_keys response reply k log (hop_at hops_forward 0) onion)
              rounds
            ∙ simulate-IsDelivered b p hb hp f private_keys sk hops_forward hops_backward n m
                payload reply (fuel - (n + m + 2)) log onion response lf lb keys_f keys_b delivered,
      )

  -- With ten addresses or more, all of nodes in the key store that can decrypt what is encrypted for
  -- them and whose private keys are at hand (and symmetric keys shorter than 2^32), the example runs
  -- to its end within ten rounds, in every state of the generator: it prints the paths, the first
  -- five addresses, "crypto", the second five addresses, and "replyy".
  pub create_onion_completes :
      (pki : Pki p.PublicKey) (private_keys : List (Address × p.PrivateKey))
      (sk : Address → p.PrivateKey) (pk : Address → p.PublicKey) (addresses : List Address)
      (fuel : ℕ) (r : p.Rng)
      → p.symmetric_key_length < 2 ^ 32
      → 10 ≤ length addresses
      → 10 ≤ fuel
      → All (IsMember b p hb hp pki private_keys sk pk) addresses
      → (r' : p.Rng) × (create_onion b p fuel pki private_keys addresses r
          ≡ ok (
            some (
                requesting (take 5 addresses) (take 5 (drop 5 addresses))
                ∷ story
                    (take 5 addresses)
                    (take 5 (drop 5 addresses))
                    example_payload
                    example_reply),
            r',
          ))
  unfolding create_onion Format.new
  create_onion_completes pki private_keys sk pk addresses fuel r short enough rounds members =
      let members_f = members_slice b p hb hp pki private_keys sk pk addresses 0 5 members in
      let members_b = members_slice b p hb hp pki private_keys sk pk addresses 5 5 members in
      let hops_f = take 5 addresses in
      let hops_b = take 5 (drop 5 addresses) in
      let lf : length hops_f ≡ 5 = length-slice addresses 0 5 (omega arith) (omega arith) in
      let lb : length hops_b ≡ 5 = length-slice addresses 5 10 (omega arith) (omega arith) in
      let (onion, response, r', run, ends) =
        simulate_completes (Format.new p pki 5) private_keys sk pk hops_f hops_b 4 4 example_payload
          example_reply fuel (requesting hops_f hops_b ∷ []) r short (omega arith) (omega arith) lf
          lb (omega arith) (omega arith)
          (members-IsReachable b p hb hp pki private_keys sk pk 5 hops_f members_f)
          (members-IsReachable b p hb hp pki private_keys sk pk 5 hops_b members_b)
          (members_have_keys b p hb hp pki private_keys sk pk hops_f members_f)
          (members_have_keys b p hb hp pki private_keys sk pk hops_b members_b) (omega arith) in
      (
        r',
        run_lift (slice addresses 0 5) _ r (slice-ok addresses 0 5 (omega arith) (omega arith))
            ∙ run_lift (slice addresses 5 10) _ r
                (slice-ok addresses 5 10 (omega arith) (omega arith))
            ∙ run_bind (form_onion b p (Format.new p pki 5) hops_f hops_b example_payload) _ r run
            ∙ run_lift (index addresses 0) _ r'
                (index-get_or addresses 0 (zero_array 32) (omega arith))
            ∙ ap (λ o. lift o r')
                (ap
                    (λ (a : Address).
                      simulate b p (Format.new p pki 5) private_keys response example_reply fuel
                        (requesting hops_f hops_b ∷ []) a onion)
                    (hop_at-take addresses 4)
                  ∙ ends),
      )
