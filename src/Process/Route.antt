-- ===== src/Process/Route.antt =====
-- The keys that `form_onion` derives for its two paths, and the paths with them.
use eror.Prelude.{
  ℕ, zero, suc, ◌+◌, ◌<◌, ◌≡◌, refl, sym, ap, ◌∙◌, inl, inr, Bool-cases, ==_iff, ==_refl, false,
  ◌==◌, if◌then◌else◌, List, [], ◌∷◌, ◌++◌, some, length, length-append, last?, All, arith,
}
use eror.Prelude.Outcome.{ok, index}
use eror.Prelude.Index.{get_or, index-get_or, index-append, index-append_left, last?-index}
use eror.Bytes.{zero_array}
use eror.Serde.{Bincode, IsBincode}
use eror.Primitives.{Primitives, IsPrimitives, KeyRole}
use eror.Pki
use eror.Pki.{Address}
use eror.Format.{OnionFormat}
use eror.Onionize.Ciphers.{IsRoute, Opens}
use eror.Process.{derive_keys}

pub All-get_or {ℓ κ} :
    {A : Type ℓ} (P : A → Type κ) (xs : List A) (i : ℕ) (d : A)
    → All P xs
    → i < length xs
    → P (get_or xs i d)
All-get_or P [] i d h l = absurd (omega arith)
All-get_or P (x ∷ xs) zero d h l = h.0
All-get_or P (x ∷ xs) (suc i) d h l = All-get_or P xs i d h.1 (omega arith)

-- `hops[i]`
abbrev pub hop_at : List Address → ℕ → Address
hop_at hops i = get_or hops i (zero_array 32)

-- What belongs to hop `i`.
abbrev pub owner : {K : Type 0} → (Address → K) → List Address → ℕ → K
owner of hops i = of (hop_at hops i)

module _ (b : Bincode) (p : Primitives) where
  length-derive_keys :
      (role : ℕ → KeyRole) (master : p.SymmetricKey) (i count : ℕ)
      → length (derive_keys b p role master i count) ≡ count
  unfolding derive_keys
  length-derive_keys role master i zero = refl
  length-derive_keys role master i (suc count) =
      ap suc (length-derive_keys role master (i + 1) count)

  index-derive_keys :
      (role : ℕ → KeyRole) (master : p.SymmetricKey) (i count j : ℕ)
      → j < count
      → index (derive_keys b p role master i count) j ≡ ok (p.derive_key (role (i + j)) master)
  unfolding derive_keys
  index-derive_keys role master i zero j h = absurd (omega arith)
  index-derive_keys role master i (suc count) zero h =
      ap (λ (k : ℕ). ok (p.derive_key (role k) master)) (omega arith)
  index-derive_keys role master i (suc count) (suc j) h =
      index-derive_keys role master (i + 1) count j (omega arith)
      ∙ ap (λ (k : ℕ). ok (p.derive_key (role k) master)) (omega arith)

  -- The key of hop `i` of the forward path, and of the backward path that ends with hop `m`.
  abbrev pub forward_key : p.SymmetricKey → ℕ → p.SymmetricKey
  forward_key master i = p.derive_key (KeyRole.forward i) master

  abbrev pub way_back_key : p.SymmetricKey → ℕ → ℕ → p.SymmetricKey
  way_back_key master m i = if i == m then master else p.derive_key (KeyRole.backward i) master

  abbrev pub forward_keys : p.SymmetricKey → ℕ → List p.SymmetricKey
  forward_keys master count = derive_keys b p KeyRole.forward master 0 count

  abbrev pub backward_keys : p.SymmetricKey → ℕ → List p.SymmetricKey
  backward_keys master m = derive_keys b p KeyRole.backward master 0 m ++ (master ∷ [])

  pub last-forward_keys :
      (master : p.SymmetricKey) (n : ℕ)
      → last? (forward_keys master (suc n)) ≡ some (forward_key master n)
  last-forward_keys master n =
      last?-index (forward_keys master (suc n)) n
        (length-derive_keys KeyRole.forward master 0 (suc n))
        (index-derive_keys KeyRole.forward master 0 (suc n) n (omega arith)
          ∙ ap (λ (k : ℕ). ok (p.derive_key (KeyRole.forward k) master)) (omega arith))

  index-forward_keys :
      (master : p.SymmetricKey) (count i : ℕ)
      → i < count
      → index (forward_keys master count) i ≡ ok (forward_key master i)
  index-forward_keys master count i h =
      index-derive_keys KeyRole.forward master 0 count i h
      ∙ ap (λ (k : ℕ). ok (p.derive_key (KeyRole.forward k) master)) (omega arith)

  pub way_back_key_before :
      (master : p.SymmetricKey) (m i : ℕ)
      → i < m
      → way_back_key master m i ≡ p.derive_key (KeyRole.backward i) master
  way_back_key_before master m i h = elim (Bool-cases (i == m)) [
    | inl e ↦ absurd (not_last ((==_iff i m).0 e) h)
    | inr e ↦ rw e refl
  ]
    where
      not_last : i ≡ m → i < m → ⊥
      not_last e h = omega arith

  pub way_back_key_last : (master : p.SymmetricKey) (m : ℕ) → way_back_key master m m ≡ master
  way_back_key_last master m = rw (==_refl m) refl

  index-backward_keys :
      (master : p.SymmetricKey) (m i : ℕ)
      → i < suc m
      → index (backward_keys master m) i ≡ ok (way_back_key master m i)
  index-backward_keys master m i h = elim (Bool-cases (i == m)) [
    | inl e ↦
        let derived = derive_keys b p KeyRole.backward master 0 m in
        let at_end : i ≡ length derived =
          (==_iff i m).0 e ∙ sym (length-derive_keys KeyRole.backward master 0 m) in
        ap (index (backward_keys master m)) at_end ∙ index-append derived master [] ∙ rw e refl
    | inr e ↦
        let before = lt_of_not_last i m h e in
        index-append_left (derive_keys b p KeyRole.backward master 0 m) (master ∷ []) i
          (omega (arith, length-derive_keys KeyRole.backward master 0 m, before))
        ∙ index-derive_keys KeyRole.backward master 0 m i before
        ∙ not_last e
  ]
    where
      not_last :
          (i == m) ≡ false
          → ok (p.derive_key (KeyRole.backward (0 + i)) master) ≡ ok (way_back_key master m i)
      not_last e =
          rw e (ap (λ (k : ℕ). ok (p.derive_key (KeyRole.backward k) master)) (omega arith))

      lt_of_not_last : (i n : ℕ) → i < suc n → (i == n) ≡ false → i < n
      lt_of_not_last i n h e = ground arith

module _ (b : Bincode) (p : Primitives) (hb : IsBincode b) (hp : IsPrimitives p) where
  module _ (f : OnionFormat p) (sk : Address → p.PrivateKey) (pk : Address → p.PublicKey) where
    -- An address in the key store whose owner can decrypt what is encrypted for it.
    abbrev pub IsReachable : Address → Type 0
    IsReachable a = (Pki.get f.pki a ≡ some (pk a)) × Opens b p hb hp (sk a) (pk a)

    pub forward-IsRoute :
        (master : p.SymmetricKey) (hops : List Address)
        → All IsReachable hops
        → IsRoute b p hb hp f
            (forward_keys b p master (length hops))
            hops
            (forward_key b p master)
            (hop_at hops)
            (λ i. sk (hop_at hops i))
            (λ i. pk (hop_at hops i))
    forward-IsRoute master hops reach = record {
      same_length = length-derive_keys b p KeyRole.forward master 0 (length hops);
      key_at = λ i h. index-forward_keys b p master (length hops) i h;
      addr_at = λ i h. index-get_or hops i (zero_array 32) h;
      known = λ i h. (All-get_or IsReachable hops i (zero_array 32) reach h).0;
      opens = λ i h. (All-get_or IsReachable hops i (zero_array 32) reach h).1;
    }

    pub backward-IsRoute :
        (master : p.SymmetricKey) (hops : List Address) (m : ℕ)
        → length hops ≡ suc m
        → All IsReachable hops
        → IsRoute b p hb hp f
            (backward_keys b p master m)
            hops
            (way_back_key b p master m)
            (hop_at hops)
            (λ i. sk (hop_at hops i))
            (λ i. pk (hop_at hops i))
    backward-IsRoute master hops m l reach = record {
      same_length = omega (
        arith,
        length-append (derive_keys b p KeyRole.backward master 0 m) (master ∷ []),
        length-derive_keys b p KeyRole.backward master 0 m,
      );
      key_at = λ i h. index-backward_keys b p master m i (omega arith);
      addr_at = λ i h. index-get_or hops i (zero_array 32) h;
      known = λ i h. (All-get_or IsReachable hops i (zero_array 32) reach h).0;
      opens = λ i h. (All-get_or IsReachable hops i (zero_array 32) reach h).1;
    }
