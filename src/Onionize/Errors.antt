-- ===== src/Onionize/Errors.antt =====
-- The paths that `onionize` refuses.
use eror.Prelude.{
  ℕ, zero, suc, ◌<◌, ◌≤◌, ◌≡◌, ◌⊎◌, inl, inr, refl, ap, ◌∙◌, List, [], ◌∷◌, ◌++◌, none, some,
  Option-cases, last?, length, le→leb, lt→not_leb, ==_refl, arith,
}
use eror.Prelude.Outcome.{
  Outcome, ok, err, index, or_panic, ok-injective, key_not_found, path_too_long,
}
use eror.Prelude.Rand.{Rand, ◌>>=◌, lift, pure, run_bind, run_lift, run_bind_err}
use eror.Prelude.Index.{last?-index, index-get_or, get_or}
use eror.Bytes.{Byte}
use eror.Serde.{Bincode}
use eror.Primitives.{Primitives}
use eror.Pki
use eror.Pki.{Address}
use eror.Onion.{Role, Meta}
use eror.Format.{OnionFormat}
use eror.Layer.{layer_codec}
use eror.Onionize.{Payload, encrypt_meta, hop_ciphers, meta_ciphers, onionize}

before_or_last : (i n : ℕ) → i < n → (suc i < n) ⊎ (n ≡ suc i)
before_or_last i zero h = absurd (omega arith)
before_or_last zero (suc zero) h = inr refl
before_or_last zero (suc (suc n)) h = inl (omega arith)
before_or_last (suc i) (suc n) h = elim (before_or_last i n (omega arith)) [
  | inl lt ↦ inl (omega arith)
  | inr e ↦ inr (ap suc e)
]

module _ (b : Bincode) (p : Primitives) where
  -- `onionize` refuses a path with more hops than the format allows.
  pub onionize_too_long :
      (f : OnionFormat p) (keys : List p.SymmetricKey) (hops : List Address) (meta : Meta)
      (payload : Payload) (backward_length : ℕ) (r : p.Rng)
      → length keys ≡ length hops
      → f.max_path_length < length hops
      → onionize b p f keys hops meta payload backward_length r ≡ err path_too_long
  unfolding onionize
  onionize_too_long f keys hops meta payload backward_length r l h =
      rw (l, lt→not_leb (length hops) f.max_path_length h) (rw (==_refl (length hops)) refl)

  module _ (f : OnionFormat p) where
    encrypt_unknown :
        (key : p.SymmetricKey) (a : Address) (meta : Meta) (r : p.Rng)
        → Pki.get f.pki a ≡ none
        → encrypt_meta b p f key a meta r ≡ err key_not_found
    unfolding encrypt_meta
    encrypt_unknown key a meta r e = rw e refl

    encrypt_known :
        (key : p.SymmetricKey) (a : Address) (meta : Meta) (r : p.Rng) {pk : p.PublicKey}
        → Pki.get f.pki a ≡ some pk
        → (c : List Byte) × (r' : p.Rng) × (encrypt_meta b p f key a meta r ≡ ok (c, r'))
    unfolding encrypt_meta
    encrypt_known key a meta r {pk} e =
        let (c, r') = p.asymmetric_encrypt pk ((layer_codec b p).write (key, meta)) r in
        (c, r', rw e refl)

    -- A call that goes through or does not find a key.
    abbrev Goes : {A : Type 0} → Outcome (A × p.Rng) → Type 0
    Goes {A} o = ((a : A) × (r' : p.Rng) × (o ≡ ok (a, r'))) ⊎ (o ≡ err key_not_found)

    encrypt-Goes :
        (key : p.SymmetricKey) (a : Address) (meta : Meta) (r : p.Rng)
        → Goes (encrypt_meta b p f key a meta r)
    encrypt-Goes key a meta r = elim (Option-cases (Pki.get f.pki a)) [
      | inl e ↦ inr (encrypt_unknown key a meta r e)
      | inr (pk, e) ↦ inl (encrypt_known key a meta r e)
    ]

    -- One round of the loop.
    abbrev rest_of :
        List p.SymmetricKey → Address → List Address → List Byte → Rand p.Rng (List (List Byte))
    rest_of keys next hops c = hop_ciphers b p f keys (next ∷ hops) >>= λ cs. pure (c ∷ cs)

    abbrev first_of : p.SymmetricKey → Address → Address → Rand p.Rng (List Byte)
    first_of k a next = encrypt_meta b p f k a (record { role = Role.hop; next = next })

    hop_ciphers-Goes :
        (keys : List p.SymmetricKey) (hops : List Address) (r : p.Rng)
        → Goes (hop_ciphers b p f keys hops r)
    unfolding hop_ciphers
    hop_ciphers-Goes [] hops r = inl ([], r, refl)
    hop_ciphers-Goes (k ∷ keys) [] r = inl ([], r, refl)
    hop_ciphers-Goes (k ∷ keys) (a ∷ []) r = inl ([], r, refl)
    hop_ciphers-Goes (k ∷ keys) (a ∷ next ∷ hops) r =
        elim (encrypt-Goes k a (record { role = Role.hop; next = next }) r) [
          | inr e ↦ inr (run_bind_err (first_of k a next) (rest_of keys next hops) r e)
          | inl (c, r1, e) ↦ elim (hop_ciphers-Goes keys (next ∷ hops) r1) [
            | inr e' ↦ inr (
                run_bind (first_of k a next) (rest_of keys next hops) r e
                ∙ run_bind_err (hop_ciphers b p f keys (next ∷ hops)) (λ cs. pure (c ∷ cs)) r1 e')
            | inl (cs, r2, e') ↦ inl (
              c ∷ cs,
              r2,
              run_bind (first_of k a next) (rest_of keys next hops) r e
                  ∙ run_bind (hop_ciphers b p f keys (next ∷ hops)) (λ cs. pure (c ∷ cs)) r1 e',
            )
          ]
        ]

    hop_ciphers_unknown :
        (keys : List p.SymmetricKey) (hops : List Address) (i : ℕ) (r : p.Rng) {a : Address}
        → length keys ≡ length hops
        → suc i < length hops
        → index hops i ≡ ok a
        → Pki.get f.pki a ≡ none
        → hop_ciphers b p f keys hops r ≡ err key_not_found
    unfolding hop_ciphers
    hop_ciphers_unknown [] hops i r l h at e = absurd (omega arith)
    hop_ciphers_unknown (k ∷ keys) [] i r l h at e = absurd (omega arith)
    hop_ciphers_unknown (k ∷ keys) (a ∷ []) i r l h at e = absurd (omega arith)
    hop_ciphers_unknown (k ∷ keys) (a ∷ next ∷ hops) zero r l h at e =
        run_bind_err (first_of k a next) (rest_of keys next hops) r (
          encrypt_unknown k a (record { role = Role.hop; next = next }) r
            (ap (Pki.get f.pki) (ok-injective at) ∙ e))
    hop_ciphers_unknown (k ∷ keys) (a ∷ next ∷ hops) (suc i) r l h at e =
        elim (encrypt-Goes k a (record { role = Role.hop; next = next }) r) [
          | inr e' ↦ run_bind_err (first_of k a next) (rest_of keys next hops) r e'
          | inl (c, r1, e') ↦
              run_bind (first_of k a next) (rest_of keys next hops) r e'
              ∙ run_bind_err (hop_ciphers b p f keys (next ∷ hops)) (λ cs. pure (c ∷ cs)) r1
                  (hop_ciphers_unknown keys (next ∷ hops) i r1 (omega arith) (omega arith) at e)
        ]

    -- What follows the loop, for the last hop.
    abbrev last_of :
        List p.SymmetricKey → List Address → Meta → List (List Byte) → Rand p.Rng (List (List Byte))
    last_of keys hops meta cs = lift (or_panic (last? hops)) >>= λ a.
        lift (or_panic (last? keys)) >>= λ k.
        encrypt_meta b p f k a meta >>= λ c. pure (cs ++ (c ∷ []))

    last_unknown :
        (keys : List p.SymmetricKey) (hops : List Address) (meta : Meta) (i : ℕ)
        (cs : List (List Byte)) (r : p.Rng) (k : p.SymmetricKey) (a : Address)
        → last? hops ≡ some a
        → last? keys ≡ some k
        → Pki.get f.pki a ≡ none
        → last_of keys hops meta cs r ≡ err key_not_found
    last_unknown keys hops meta i cs r k a ea ek e =
        run_lift (or_panic (last? hops)) _ r (ap or_panic ea)
        ∙ run_lift (or_panic (last? keys)) _ r (ap or_panic ek)
        ∙ run_bind_err (encrypt_meta b p f k a meta) _ r (encrypt_unknown k a meta r e)

    meta_ciphers_unknown :
        (keys : List p.SymmetricKey) (hops : List Address) (meta : Meta) (i : ℕ) (r : p.Rng)
        (a : Address)
        → length keys ≡ length hops
        → i < length hops
        → index hops i ≡ ok a
        → Pki.get f.pki a ≡ none
        → meta_ciphers b p f keys hops meta r ≡ err key_not_found
    unfolding meta_ciphers
    meta_ciphers_unknown keys hops meta i r a l h at e =
        let loop = hop_ciphers b p f keys hops in
        elim (before_or_last i (length hops) h) [
          | inl lt ↦
              run_bind_err loop (last_of keys hops meta) r
                (hop_ciphers_unknown keys hops i r l lt at e)
          | inr n ↦ elim (hop_ciphers-Goes keys hops r) [
            | inr e' ↦ run_bind_err loop (last_of keys hops meta) r e'
            | inl (cs, r1, e') ↦
                run_bind loop (last_of keys hops meta) r e'
                ∙ last_unknown keys hops meta i cs r1 (some_key keys i (l ∙ n)).0 a
                    (last?-index hops i n at) (some_key keys i (l ∙ n)).1 e
          ]
        ]
      where
        some_key :
            (keys : List p.SymmetricKey) (i : ℕ)
            → length keys ≡ suc i
            → (k : p.SymmetricKey) × (last? keys ≡ some k)
        some_key [] i e = absurd (omega arith)
        some_key (k ∷ keys) i e =
            let at = index-get_or (k ∷ keys) i k (omega arith) in
            (get_or (k ∷ keys) i k, last?-index (k ∷ keys) i e at)

    -- `onionize` refuses a path, of a length that the format allows and with a key for each hop, if
    -- any of its hops is not in the key store.
    pub onionize_unknown_hop :
        (keys : List p.SymmetricKey) (hops : List Address) (meta : Meta) (payload : Payload)
        (backward_length : ℕ) (i : ℕ) (r : p.Rng) (a : Address)
        → length keys ≡ length hops
        → length hops ≤ f.max_path_length
        → i < length hops
        → index hops i ≡ ok a
        → Pki.get f.pki a ≡ none
        → onionize b p f keys hops meta payload backward_length r ≡ err key_not_found
    unfolding onionize
    onionize_unknown_hop keys hops meta payload backward_length i r a l short h at e =
        rw (l, le→leb (length hops) f.max_path_length short)
          (rw (==_refl (length hops)) (
            run_bind_err (meta_ciphers b p f keys hops meta) _ r
              (meta_ciphers_unknown keys hops meta i r a l h at e)))
