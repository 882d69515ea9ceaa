-- ===== src/Process/Limits.antt =====
-- When `form_onion` succeeds, and when it refuses the paths.
use eror.Prelude.{
  ℕ, suc, ◌<◌, ◌≤◌, ◌^◌, ◌≡◌, ◌⊎◌, ◌↔◌, inl, inr, Bool-cases, leb, List, length, All, arith,
}
use eror.Prelude.Outcome.{ok, err, path_too_long}
use eror.Bytes.{Byte}
use eror.Serde.{Bincode, IsBincode, IsSmall}
use eror.Primitives.{Primitives, IsPrimitives}
use eror.Pki.{Address}
use eror.Onion.{Onion}
use eror.Format.{OnionFormat}
use eror.Process.{form_onion, ExpectedResponse}
use eror.Process.Branches.{form_onion_too_long}
use eror.Process.Route.{IsReachable}
use eror.Process.Delivery.{form_onion_delivers}

fits_or_not : (n m max : ℕ) → ((n ≤ max) × (m ≤ max)) ⊎ ((max < n) ⊎ (max < m))
fits_or_not n m max = elim (Bool-cases (leb n max)) [
  | inr e ↦ inr (inl (ground arith))
  | inl e ↦ elim (Bool-cases (leb m max)) [
    | inr e' ↦ inr (inr (ground arith))
    | inl e' ↦ inl (ground arith, ground arith)
  ]
]

not_both : (n m max : ℕ) → (n ≤ max) × (m ≤ max) → (max < n) ⊎ (max < m) → ⊥
not_both n m max h h' = ground arith

module _ (b : Bincode) (p : Primitives) (hb : IsBincode b) (hp : IsPrimitives p) (f : OnionFormat p)
    (sk : Address → p.PrivateKey) (pk : Address → p.PublicKey)
    (hops_forward hops_backward : List Address) (payload : List Byte) (r : p.Rng) where
  -- It returns an onion.
  abbrev pub Forms : Type 0
  Forms =
      (onion : Onion p) × (response : ExpectedResponse p) × (r' : p.Rng) × (form_onion b p f
          hops_forward hops_backward payload r
        ≡ ok ((onion, response), r'))

  -- For two paths of at least one hop each, whose hops are in the key store and can decrypt what is
  -- encrypted for them (with symmetric keys shorter than 2^32, a longest path below 2^32 and a payload
  -- below 2^64 bytes), in every state of the generator: `form_onion` returns an onion exactly if
  -- neither path has more hops than the format allows, and `PathTooLong` exactly if one of them has.
  pub form_onion_outcome :
      (n m : ℕ)
      → p.symmetric_key_length < 2 ^ 32
      → f.max_path_length < 2 ^ 32
      → IsSmall payload
      → length hops_forward ≡ suc n
      → length hops_backward ≡ suc m
      → All (IsReachable b p hb hp f sk pk) hops_forward
      → All (IsReachable b p hb hp f sk pk) hops_backward
      → (Forms
          ↔ (length hops_forward ≤ f.max_path_length) × (length hops_backward ≤ f.max_path_length))
        × ((form_onion b p f hops_forward hops_backward payload r ≡ err path_too_long)
            ↔ (f.max_path_length < length hops_forward)
              ⊎ (f.max_path_length < length hops_backward))
  form_onion_outcome n m short max small lf lb reach_f reach_b =
      let refuses = form_onion_too_long b p f hops_forward hops_backward payload r in
      elim (fits_or_not (length hops_forward) (length hops_backward) f.max_path_length) [
        | inl fits ↦
            let (onion, response, r', run, _) =
              form_onion_delivers b p hb hp f sk pk hops_forward hops_backward payload n m r short
                max small lf lb (omega (arith, fits.0)) (omega (arith, fits.1)) reach_f reach_b in
            (
              (λ h. fits, λ h. (onion, response, r', run)),
              (λ e. cc (e, run), λ long. absurd (not_both _ _ _ fits long)),
            )
        | inr long ↦ (
          (
            λ h. let (_, _, _, run) = h in cc (refuses long, run),
            λ fits. absurd (not_both _ _ _ fits long),
          ),
          (λ e. long, λ h. refuses h),
        )
      ]
