-- ===== src/Scenario/Sizes/Generated.antt =====
-- examples/onion_sizes.rs: the onion for a line of the table.
use eror.Prelude.{
  ℕ, suc, ◌*◌, ◌-◌, ◌<◌, ◌^◌, ◌≡◌, ap, ◌∙◌, List, length, length-replicate, take, drop, All, arith,
}
use eror.Prelude.Outcome.{ok}
use eror.Prelude.Rand.{run_lift, run_bind}
use eror.Bytes.{zeros, byte}
use eror.Serde.{Bincode, IsBincode}
use eror.Primitives.{Primitives, IsPrimitives}
use eror.Pki.{Address, Pki}
use eror.Onion.{Onion}
use eror.Format
use eror.Process.{form_onion}
use eror.Process.Route.{IsReachable}
use eror.Scenario.{slice, unwrap_result, unwrap_rand}
use eror.Scenario.Members.{slice-ok, length-slice, All-take, All-drop}
use eror.Scenario.Steps.{onion_size}
use eror.Scenario.Sizes.{onion_for}
use eror.Scenario.Sizes.Same.{size_for, form_onion_size}

module _ (b : Bincode) (p : Primitives) (hb : IsBincode b) (hp : IsPrimitives p) where
  -- `generate_onion` of examples/onion_sizes.rs behind its keys: for at least one hop on each way, with
  -- twice as many addresses as hops, all of them in the key store and able to decrypt what is encrypted
  -- for them (with symmetric keys shorter than 2^32, fewer than 2^32 hops and a payload below 2^64
  -- bytes), it makes an onion in every state of the generator, and the size in the table is that of the
  -- format for this number of hops and this payload.
  pub onion_for_size :
      (pki : Pki p.PublicKey) (sk : Address → p.PrivateKey) (pk : Address → p.PublicKey)
      (addresses : List Address) (n payload_size : ℕ) (r : p.Rng)
      → p.symmetric_key_length < 2 ^ 32
      → suc n < 2 ^ 32
      → payload_size < 2 ^ 64
      → length addresses ≡ 2 * suc n
      → All (IsReachable b p hb hp (Format.new p pki (suc n)) sk pk) addresses
      → (onion : Onion p) × (r' : p.Rng) × (onion_for b p (suc n) payload_size pki addresses r
          ≡ ok (onion, r'))
        × (onion_size b p onion ≡ size_for b p hb hp (Format.new p pki (suc n)) payload_size)
  unfolding onion_for Format.new zeros
  onion_for_size pki sk pk addresses n payload_size r short small small' enough reachable =
      let f = Format.new p pki (suc n) in
      let l = length addresses in
      let payload_length : length (zeros payload_size) ≡ payload_size =
        length-replicate payload_size (byte 0) in
      let part = λ (count from : ℕ).
        All-take (IsReachable b p hb hp f sk pk) count (drop from addresses)
          (All-drop (IsReachable b p hb hp f sk pk) from addresses reachable) in
      let (onion, response, r', run, sized) =
        form_onion_size b p hb hp f sk pk (take (suc n - 0) (drop 0 addresses))
          (take (l - suc n) (drop (suc n) addresses)) (zeros payload_size) n n r short small
          (omega (arith, payload_length))
          (length-slice addresses 0 (suc n) (omega arith) (omega arith) ∙ omega arith)
          (length-slice addresses (suc n) l (omega arith) (omega arith) ∙ omega arith) (omega arith)
          (omega arith) (part (suc n - 0) 0) (part (l - suc n) (suc n)) in
      (
        onion,
        r',
        run_lift (slice addresses 0 (suc n)) _ r
              (slice-ok addresses 0 (suc n) (omega arith) (omega arith))
            ∙ run_lift (slice addresses (suc n) l) _ r
                (slice-ok addresses (suc n) l (omega arith) (omega arith))
            ∙ run_bind
                (unwrap_rand (
                  form_onion b p f (take (suc n - 0) (drop 0 addresses))
                    (take (l - suc n) (drop (suc n) addresses)) (zeros payload_size)))
                _ r (ap unwrap_result run),
        sized ∙ ap (size_for b p hb hp f) payload_length,
      )
