-- ===== src/Scenario/Formed.antt =====
-- The onion with which a test of src/lib.rs starts.
use eror.Prelude.{ℕ, suc, ◌-◌, ◌<◌, ◌≤◌, ◌^◌, ◌≡◌, ap, ◌∙◌, List, length, take, drop, All, arith}
use eror.Prelude.Outcome.{ok}
use eror.Prelude.Rand.{Rand, lift, ◌>>=◌, run_lift}
use eror.Serde.{Bincode, IsBincode}
use eror.Primitives.{Primitives, IsPrimitives}
use eror.Pki.{Address, Pki}
use eror.Onion.{Onion}
use eror.Format
use eror.Process.{ExpectedResponse, form_onion}
use eror.Process.Delivery.{IsDelivered, form_onion_delivers}
use eror.Scenario.{payload, slice, unwrap_result, unwrap_rand}
use eror.Scenario.Members.{slice-ok, length-slice, IsMember, members-IsReachable, members_slice}

module _ (b : Bincode) (p : Primitives) where
  -- `TestFormat::new(EcPrimitives, pki, max)`, then
  -- `form_onion(&mut rng, &addresses[i..j], &addresses[k..l], PAYLOAD).unwrap()`
  unfoldable pub formed :
      (max i j k l : ℕ) → Pki p.PublicKey → List Address → Rand p.Rng (Onion p × ExpectedResponse p)
  unfolding Format.new slice form_onion
  formed max i j k l pki addresses = do
    hops_forward ← lift (slice addresses i j)
    hops_backward ← lift (slice addresses k l)
    unwrap_rand (form_onion b p (Format.new p pki max) hops_forward hops_backward payload)

-- `&addresses[i..j]`
abbrev pub part : List Address → ℕ → ℕ → List Address
part addresses i j = take (j - i) (drop i addresses)

module _ (b : Bincode) (p : Primitives) (hb : IsBincode b) (hp : IsPrimitives p) where
  -- It is delivered.
  pub formed_lem :
      (max i j k l n m : ℕ) (pki : Pki p.PublicKey) (private_keys : List (Address × p.PrivateKey))
      (sk : Address → p.PrivateKey) (pk : Address → p.PublicKey) (addresses : List Address)
      (r : p.Rng)
      → p.symmetric_key_length < 2 ^ 32
      → max < 2 ^ 32
      → n < max
      → m < max
      → j - i ≡ suc n
      → l - k ≡ suc m
      → i ≤ j
      → k ≤ l
      → j ≤ length addresses
      → l ≤ length addresses
      → All (IsMember b p hb hp pki private_keys sk pk) addresses
      → (onion : Onion p) × (response : ExpectedResponse p) × (r' : p.Rng) × (formed b p max i j k l
            pki addresses r
          ≡ ok ((onion, response), r'))
        × IsDelivered b p hb hp
            (Format.new p pki max)
            sk
            (part addresses i j)
            (part addresses k l)
            n
            m
            payload
            onion
            response
  unfolding formed Format.new
  formed_lem max i j k l n m pki private_keys sk pk addresses r short small hn hm en em hi hk hj hl
        members =
      let reach = λ (from count : ℕ).
        members-IsReachable b p hb hp pki private_keys sk pk max (take count (drop from addresses))
          (members_slice b p hb hp pki private_keys sk pk addresses from count members) in
      let (onion, response, r', run, delivered) =
        form_onion_delivers b p hb hp (Format.new p pki max) sk pk (part addresses i j)
          (part addresses k l) payload n m r short small (omega arith)
          (length-slice addresses i j hi hj ∙ en) (length-slice addresses k l hk hl ∙ em) hn hm
          (reach i (j - i)) (reach k (l - k)) in
      (
        onion,
        response,
        r',
        run_lift (slice addresses i j) _ r (slice-ok addresses i j hi hj)
            ∙ run_lift (slice addresses k l) _ r (slice-ok addresses k l hk hl)
            ∙ ap unwrap_result run,
        delivered,
      )
