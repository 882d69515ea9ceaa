-- ===== src/Scenario/Network/Passing.antt =====
-- src/lib.rs: `test_long_path_between` and `test_final_onion_as_expected` pass.
use eror.Prelude.{
  ℕ, zero, suc, ◌+◌, ◌-◌, ◌<◌, ◌≤◌, ◌^◌, ◌≡◌, refl, sym, ap, ◌∙◌, true, List, Option, none, some,
  length, take, drop, All, arith,
}
use eror.Prelude.Outcome.{ok, index}
use eror.Prelude.Rand.{run_bind, run_lift, lift}
use eror.Prelude.Index.{index-get_or}
use eror.Bytes.{Byte, zero_array, bytes_eq}
use eror.Bytes.Laws.{bytes_eq_refl}
use eror.Serde.{Bincode, IsBincode}
use eror.Primitives.{Primitives, IsPrimitives}
use eror.Pki.{Address, Pki}
use eror.Onion.{Onion, headers_eq}
use eror.Format
use eror.Format.{OnionFormat}
use eror.Process.{
  hop, receiver, sender, ExpectedResponse, proc_onion, proc_onion_without_reply, reply_onion,
}
use eror.Process.Route.{hop_at, owner}
use eror.Process.Way.{Way, proc_hop}
use eror.Process.Return.{expects}
use eror.Process.Delivery.{IsDelivered}
use eror.Process.Delivered.{receives, replies, replied, sends_back, expects_found}
use eror.Scenario.{payload, reply_payload, HasKey, key_of}
use eror.Scenario.Members.{length-slice, hop_at-take, IsMember, members_have_keys, members_slice}
use eror.Scenario.Network.{
  long_path_loop, final_onion_loop, long_path_between, final_onion_as_expected,
}
use eror.Scenario.Network.Rounds.{key_of-HasKey}
use eror.Scenario.Formed.{formed, formed_lem}

module _ (b : Bincode) (p : Primitives) where
  -- A loop that passes an onion on as long as its nodes are hops.
  loop_way :
      {R : Type 0} (loop : ℕ → Address → Onion p → R) (f : OnionFormat p)
      (private_keys : List (Address × p.PrivateKey)) (sk : Address → p.PrivateKey)
      (hops : List Address) (i fuel : ℕ) (onion arrived : Onion p)
      → ((fuel : ℕ) (address next : Address) (onion onion' : Onion p) (k : p.PrivateKey)
          → key_of private_keys address ≡ ok k
          → ((ex : List Byte → Option p.Tag) → proc_onion b p f k ex onion ≡ ok (hop next onion'))
          → loop (suc fuel) address onion ≡ loop fuel next onion')
      → All (HasKey private_keys sk) hops
      → i < length hops
      → Way b p f (owner sk hops) (hop_at hops) i onion arrived
      → loop (i + fuel) (hop_at hops 0) onion ≡ loop fuel (hop_at hops i) arrived
  unfolding Way
  loop_way loop f private_keys sk hops zero fuel onion arrived pass keys h way =
      ap (λ (k : ℕ). loop k (hop_at hops 0) onion) (omega arith)
      ∙ ap (loop fuel (hop_at hops 0)) way
  loop_way loop f private_keys sk hops (suc i) fuel onion arrived pass keys h (mid, key, way, e) =
      ap (λ (k : ℕ). loop k (hop_at hops 0) onion) (omega arith)
      ∙ loop_way loop f private_keys sk hops i (suc fuel) onion mid pass keys (omega arith) way
      ∙ pass fuel (hop_at hops i) (hop_at hops (suc i)) mid arrived (owner sk hops i)
          (key_of-HasKey private_keys sk hops i keys (omega arith))
          (λ ex. proc_hop b p f (owner sk hops i) ex mid arrived key (hop_at hops (suc i)) e)

  module _ (f : OnionFormat p) (private_keys : List (Address × p.PrivateKey)) where
    long_path_hop :
        (expected : ExpectedResponse p) (fuel : ℕ) (address next : Address) (onion onion' : Onion p)
        (k : p.PrivateKey)
        → key_of private_keys address ≡ ok k
        → ((ex : List Byte → Option p.Tag) → proc_onion b p f k ex onion ≡ ok (hop next onion'))
        → long_path_loop b p f private_keys expected (suc fuel) address onion
          ≡ long_path_loop b p f private_keys expected fuel next onion'
    unfolding long_path_loop
    long_path_hop expected fuel address next onion onion' k e e' =
        rw (e, e' (expects expected.identifier expected.tag)) refl

    final_onion_hop :
        (final : Onion p) (fuel : ℕ) (address next : Address) (onion onion' : Onion p)
        (k : p.PrivateKey)
        → key_of private_keys address ≡ ok k
        → ((ex : List Byte → Option p.Tag) → proc_onion b p f k ex onion ≡ ok (hop next onion'))
        → final_onion_loop b p f private_keys final (suc fuel) address onion
          ≡ final_onion_loop b p f private_keys final fuel next onion'
    unfolding final_onion_loop proc_onion_without_reply
    final_onion_hop final fuel address next onion onion' k e e' = rw (e, e' (λ _. none)) refl

    long_path_receiver :
        (expected : ExpectedResponse p) (fuel : ℕ) (address next : Address) (onion onion' : Onion p)
        (k : p.PrivateKey)
        → key_of private_keys address ≡ ok k
        → proc_onion b p f k (expects expected.identifier expected.tag) onion
          ≡ ok (receiver payload)
        → reply_onion b p f k onion reply_payload ≡ ok (onion', next)
        → long_path_loop b p f private_keys expected (suc fuel) address onion
          ≡ long_path_loop b p f private_keys expected fuel next onion'
    unfolding long_path_loop
    long_path_receiver expected fuel address next onion onion' k e e' e'' =
        rw (e, e') (rw (bytes_eq_refl payload, e'') refl)

    long_path_sender :
        (expected : ExpectedResponse p) (fuel : ℕ) (address : Address) (onion : Onion p)
        (k : p.PrivateKey)
        → key_of private_keys address ≡ ok k
        → proc_onion b p f k (expects expected.identifier expected.tag) onion
          ≡ ok (sender reply_payload)
        → long_path_loop b p f private_keys expected (suc fuel) address onion ≡ ok (some tt)
    unfolding long_path_loop
    long_path_sender expected fuel address onion k e e' =
        rw (e, e') (rw (bytes_eq_refl reply_payload) refl)

    final_onion_receiver :
        (final : Onion p) (fuel : ℕ) (address : Address) (onion : Onion p) (k : p.PrivateKey)
        (message : List Byte)
        → IsPrimitives p
        → key_of private_keys address ≡ ok k
        → proc_onion b p f k (λ _. none) onion ≡ ok (receiver message)
        → headers_eq b p onion.header final.header ≡ true
        → onion.forward ≡ final.forward
        → onion.backward ≡ final.backward
        → final_onion_loop b p f private_keys final (suc fuel) address onion ≡ ok (some tt)
    unfolding final_onion_loop proc_onion_without_reply
    final_onion_receiver final fuel address onion k message hp e e' heads fwd bwd =
        let back : bytes_eq onion.backward.0 final.backward.0 ≡ true =
          ap (λ (x : List Byte × p.Tag). bytes_eq onion.backward.0 x.0) (sym bwd)
          ∙ bytes_eq_refl onion.backward.0 in
        let tags : p.tag_eq onion.backward.1 final.backward.1 ≡ true =
          ap (λ (x : List Byte × p.Tag). p.tag_eq onion.backward.1 x.1) (sym bwd)
          ∙ hp.tag_eq_refl onion.backward.1 in
        let forth : bytes_eq onion.forward final.forward ≡ true =
          ap (bytes_eq onion.forward) (sym fwd) ∙ bytes_eq_refl onion.forward in
        rw (e, e') (rw (heads, forth) (rw (back, tags) refl))

module _ (b : Bincode) (p : Primitives) (hb : IsBincode b) (hp : IsPrimitives p) where
  module _ (f : OnionFormat p) (private_keys : List (Address × p.PrivateKey))
      (sk : Address → p.PrivateKey) (hops_forward hops_backward : List Address) (n m fuel : ℕ)
      (onion : Onion p) (response : ExpectedResponse p) where
    long_path_loop-IsDelivered :
        length hops_forward ≡ suc n
        → length hops_backward ≡ suc m
        → All (HasKey private_keys sk) hops_forward
        → All (HasKey private_keys sk) hops_backward
        → IsDelivered b p hb hp f sk hops_forward hops_backward n m payload onion response
        → long_path_loop b p f private_keys response
            (n + suc (m + suc fuel))
            (hop_at hops_forward 0)
            onion
          ≡ ok (some tt)
    long_path_loop-IsDelivered lf lb keys_f keys_b d =
        let loop = long_path_loop b p f private_keys response in
        let expected_tag = expects response.identifier response.tag in
        let (returned, way_back, opens) =
          sends_back b p hb hp f sk hops_forward hops_backward n m payload d reply_payload
            expected_tag (expects_found response.identifier response.tag) in
        loop_way b p loop f private_keys sk hops_forward n (suc (m + suc fuel)) onion d.arrived
          (long_path_hop b p f private_keys response) keys_f (omega arith) d.forth
        ∙ long_path_receiver b p f private_keys response (m + suc fuel) (hop_at hops_forward n)
            (hop_at hops_backward 0) d.arrived
            (replied b p hb hp f sk hops_forward hops_backward n m payload d reply_payload)
            (owner sk hops_forward n)
            (key_of-HasKey private_keys sk hops_forward n keys_f (omega arith))
            (receives b p hb hp f sk hops_forward hops_backward n m payload d expected_tag)
            (replies b p hb hp f sk hops_forward hops_backward n m payload d reply_payload)
        ∙ loop_way b p loop f private_keys sk hops_backward m (suc fuel) _ returned
            (long_path_hop b p f private_keys response) keys_b (omega arith) way_back
        ∙ long_path_sender b p f private_keys response fuel (hop_at hops_backward m) returned
            (owner sk hops_backward m)
            (key_of-HasKey private_keys sk hops_backward m keys_b (omega arith)) opens

    final_onion_loop-IsDelivered :
        length hops_forward ≡ suc n
        → All (HasKey private_keys sk) hops_forward
        → IsDelivered b p hb hp f sk hops_forward hops_backward n m payload onion response
        → final_onion_loop b p f private_keys response.onion
            (n + suc fuel)
            (hop_at hops_forward 0)
            onion
          ≡ ok (some tt)
    final_onion_loop-IsDelivered lf keys_f d =
        loop_way b p (final_onion_loop b p f private_keys response.onion) f private_keys sk
          hops_forward n (suc fuel) onion d.arrived
          (final_onion_hop b p f private_keys response.onion) keys_f (omega arith) d.forth
        ∙ final_onion_receiver b p f private_keys response.onion fuel (hop_at hops_forward n)
            d.arrived (owner sk hops_forward n) payload hp
            (key_of-HasKey private_keys sk hops_forward n keys_f (omega arith))
            (receives b p hb hp f sk hops_forward hops_backward n m payload d (λ _. none))
            d.same_headers d.same_forward d.same_backward

  module _ (pki : Pki p.PublicKey) (private_keys : List (Address × p.PrivateKey))
      (sk : Address → p.PrivateKey) (pk : Address → p.PublicKey) (addresses : List Address)
      (fuel : ℕ) (r : p.Rng) where
    -- With twenty addresses or more, all of nodes in the key store that can decrypt what is encrypted
    -- for them and whose private keys are at hand (and symmetric keys shorter than 2^32),
    -- the loops of `test_long_path_between` and `test_final_onion_as_expected` end within twenty rounds,
    -- and the tests pass, in every state of the generator.
    pub long_paths_pass :
        p.symmetric_key_length < 2 ^ 32
        → 20 ≤ length addresses
        → 20 ≤ fuel
        → All (IsMember b p hb hp pki private_keys sk pk) addresses
        → (r' : p.Rng) × (long_path_between b p fuel pki private_keys addresses r
            ≡ ok (some tt, r'))
          × (final_onion_as_expected b p fuel pki private_keys addresses r ≡ ok (some tt, r'))
    unfolding long_path_between final_onion_as_expected
    long_paths_pass short enough rounds members =
        let f = Format.new p pki 10 in
        let hops_f = take 10 addresses in
        let hops_b = take 10 (drop 10 addresses) in
        let lf : length hops_f ≡ 10 = length-slice addresses 0 10 (omega arith) (omega arith) in
        let lb : length hops_b ≡ 10 = length-slice addresses 10 20 (omega arith) (omega arith) in
        let keys = λ (from count : ℕ).
          members_have_keys b p hb hp pki private_keys sk pk (take count (drop from addresses))
            (members_slice b p hb hp pki private_keys sk pk addresses from count members) in
        let (onion, response, r', run, d) =
          formed_lem b p hb hp 10 0 10 10 20 9 9 pki private_keys sk pk addresses r short
            (omega arith) (omega arith) (omega arith) refl refl (omega arith) (omega arith)
            (omega arith) (omega arith) members in
        let at_first = index-get_or addresses 0 (zero_array 32) (omega arith) in
        let first = hop_at-take addresses 9 in
        let rounds_long : fuel ≡ 9 + suc (9 + suc (fuel - 20)) = omega arith in
        let rounds_final : fuel ≡ 9 + suc (fuel - 10) = omega arith in
        (
          r',
          run_bind (formed b p 10 0 10 10 20 pki addresses) _ r run
              ∙ run_lift (index addresses 0) _ r' at_first
              ∙ ap (λ o. lift o r')
                  (ap
                      (λ (k : ℕ).
                        long_path_loop b p f private_keys response k (hop_at addresses 0) onion)
                      rounds_long
                    ∙ ap
                        (λ (a : Address).
                          long_path_loop b p f private_keys response (9 + suc (9 + suc (fuel - 20)))
                            a onion)
                        first
                    ∙ long_path_loop-IsDelivered f private_keys sk hops_f hops_b 9 9 (fuel - 20)
                        onion response lf lb (keys 0 10) (keys 10 10) d),
          run_bind (formed b p 10 0 10 10 20 pki addresses) _ r run
              ∙ run_lift (index addresses 0) _ r' at_first
              ∙ ap (λ o. lift o r')
                  (ap
                      (λ (k : ℕ).
                        final_onion_loop b p f private_keys response.onion k (hop_at addresses 0)
                          onion)
                      rounds_final
                    ∙ ap
                        (λ (a : Address).
                          final_onion_loop b p f private_keys response.onion (9 + suc (fuel - 10)) a
                            onion)
                        first
                    ∙ final_onion_loop-IsDelivered f private_keys sk hops_f hops_b 9 9 (fuel - 10)
                        onion response lf (keys 0 10) d),
        )
