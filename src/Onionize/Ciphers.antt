-- ===== src/Onionize/Ciphers.antt =====
-- The ciphertexts of `meta^i` that `OnionFormat::onionize` computes first: each hop of the path can
-- read its own.
use eror.Prelude.{
  ==_iff, false, inl, inr, ◌==◌, if◌then◌else◌, ==_refl, Bool-cases, ℕ, zero, suc, ◌+◌, ◌-◌, ◌<◌,
  ◌^◌, ◌≡◌, refl, sym, ap, ap₂, ◌∙◌, subst, List, [], ◌∷◌, ◌++◌, some, length, length-append, last?,
  arith,
}
use eror.Prelude.Rand.{run_bind, ◌>>=◌, pure, lift}
use eror.Prelude.Outcome.{ok, index, ok-injective, or_panic}
use eror.Prelude.Index.{get_or-append, get_or-append_left, last?-index, get_or}
use eror.Bytes.{Byte}
use eror.Serde.{Bincode, IsBincode, IsSmall}
use eror.Primitives.{Primitives, IsPrimitives}
use eror.Pki
use eror.Pki.{Address}
use eror.Onion.{Role, Meta, meta_codec}
use eror.Onion.Serialize.{size-meta}
use eror.Format.{OnionFormat}
use eror.Layer.{layer_codec}
use eror.Layer.Peel.{Holds}
use eror.Onionize.{encrypt_meta, hop_ciphers, meta_ciphers}

-- The meta data for a hop that is not the last.
abbrev pub hop_meta : Address → Meta
hop_meta next = record { role = Role.hop; next = next }

-- What hop `i` finds on a path whose last hop is `n`.
abbrev pub stop_meta : (ℕ → Address) → ℕ → Meta → ℕ → Meta
stop_meta addr n meta i = if i == n then meta else hop_meta (addr (suc i))

pub stop_meta_last : (addr : ℕ → Address) (n : ℕ) (meta : Meta) → stop_meta addr n meta n ≡ meta
stop_meta_last addr n meta = rw (==_refl n) refl

stop_meta_before :
    (addr : ℕ → Address) (n : ℕ) (meta : Meta) (i : ℕ)
    → (i == n) ≡ false
    → stop_meta addr n meta i ≡ hop_meta (addr (suc i))
stop_meta_before addr n meta i e = rw e refl

lt_of_not_last : (i n : ℕ) → i < suc n → (i == n) ≡ false → i < n
lt_of_not_last i n h e = ground arith

module _ (b : Bincode) (p : Primitives) (hb : IsBincode b) (hp : IsPrimitives p) where
  -- The private key decrypts whatever is encrypted for the public key.
  abbrev pub Opens : p.PrivateKey → p.PublicKey → Type 0
  Opens sk pk =
      (d : List Byte) (r : p.Rng)
      → IsSmall d
      → p.asymmetric_decrypt sk (p.asymmetric_encrypt pk d r).0 ≡ ok d

  -- A path: as many keys as hops, and for each hop a public key in the store whose private key the
  -- hop has. The lists are read through functions from positions.
  pub record IsRoute (f : OnionFormat p) (keys : List p.SymmetricKey) (hops : List Address)
      (key : ℕ → p.SymmetricKey) (addr : ℕ → Address) (sk : ℕ → p.PrivateKey) (pk : ℕ → p.PublicKey)
      : Type 0 where
    pub same_length : length keys ≡ length hops
    pub key_at : (i : ℕ) → i < length hops → index keys i ≡ ok (key i)
    pub addr_at : (i : ℕ) → i < length hops → index hops i ≡ ok (addr i)
    pub known : (i : ℕ) → i < length hops → Pki.get f.pki (addr i) ≡ some (pk i)
    pub opens : (i : ℕ) → i < length hops → Opens (sk i) (pk i)

  -- The path behind its first hop.
  behind :
      (f : OnionFormat p) (k : p.SymmetricKey) (a : Address) (keys : List p.SymmetricKey)
      (hops : List Address) (key : ℕ → p.SymmetricKey) (addr : ℕ → Address) (sk : ℕ → p.PrivateKey)
      (pk : ℕ → p.PublicKey)
      → IsRoute f (k ∷ keys) (a ∷ hops) key addr sk pk
      → IsRoute f keys hops
          (λ i. key (suc i))
          (λ i. addr (suc i))
          (λ i. sk (suc i))
          (λ i. pk (suc i))
  behind f k a keys hops key addr sk pk route = record {
    same_length = suc-injective route.same_length;
    key_at = λ i h. route.key_at (suc i) (omega arith);
    addr_at = λ i h. route.addr_at (suc i) (omega arith);
    known = λ i h. route.known (suc i) (omega arith);
    opens = λ i h. route.opens (suc i) (omega arith);
  }
    where
      suc-injective : {m n : ℕ} → suc m ≡ suc n → m ≡ n
      suc-injective e = omega arith

  -- A ciphertext that a hop can read, of the length that `single_header_length` reckons with.
  abbrev pub Readable : p.PrivateKey → List Byte → p.SymmetricKey → Meta → Type 0
  Readable sk c key meta =
      Holds b p hb hp sk c key meta × IsSmall c × (length c ≡ p.symmetric_key_length + 76)

  size-layer :
      (key : p.SymmetricKey) (meta : Meta)
      → length ((layer_codec b p).write (key, meta)) ≡ p.symmetric_key_length + 36
  unfolding layer_codec
  size-layer key meta = omega (
    arith,
    hb.size-pair p.key_codec (meta_codec b) (key, meta),
    hp.size-key key,
    size-meta b hb meta,
  )

  module _ (f : OnionFormat p) (short : p.symmetric_key_length < 2 ^ 32) where
    plain-IsSmall :
        (key : p.SymmetricKey) (meta : Meta) → length ((layer_codec b p).write (key, meta)) < 2 ^ 33
    plain-IsSmall key meta = omega (arith, size-layer key meta, short)

    encrypt_meta_lem :
        (key : p.SymmetricKey) (address : Address) (meta : Meta) (sk : p.PrivateKey)
        (pk : p.PublicKey) (r : p.Rng)
        → Pki.get f.pki address ≡ some pk
        → Opens sk pk
        → (c : List Byte) × (r' : p.Rng) × (encrypt_meta b p f key address meta r ≡ ok (c, r'))
          × Readable sk c key meta
    unfolding encrypt_meta
    encrypt_meta_lem key address meta sk pk r e opens =
        let plain = (layer_codec b p).write (key, meta) in
        let (c, r') = p.asymmetric_encrypt pk plain r in
        (
          c,
          r',
          rw e refl,
          (
            opens plain r (omega (arith, plain-IsSmall key meta)),
            omega (arith, hp.size-asymmetric pk plain r, plain-IsSmall key meta),
            omega (arith, hp.size-asymmetric pk plain r, size-layer key meta),
          ),
        )

    hop_ciphers_step :
        (keys : List p.SymmetricKey) (hops : List Address) (k : p.SymmetricKey) (a a' : Address)
        (r : p.Rng) {c : List Byte} {cs : List (List Byte)} {r1 r2 : p.Rng}
        → encrypt_meta b p f k a (hop_meta a') r ≡ ok (c, r1)
        → hop_ciphers b p f keys (a' ∷ hops) r1 ≡ ok (cs, r2)
        → hop_ciphers b p f (k ∷ keys) (a ∷ a' ∷ hops) r ≡ ok (c ∷ cs, r2)
    unfolding hop_ciphers
    hop_ciphers_step keys hops k a a' r {c} {cs} {r1} e1 e2 =
        run_bind (encrypt_meta b p f k a (hop_meta a'))
          (λ c. hop_ciphers b p f keys (a' ∷ hops) >>= λ cs. pure (c ∷ cs)) r e1
        ∙ run_bind (hop_ciphers b p f keys (a' ∷ hops)) (λ cs. pure (c ∷ cs)) r1 e2

    -- The ciphertexts of the hops before the last.
    hop_ciphers_lem :
        (keys : List p.SymmetricKey) (hops : List Address) (key : ℕ → p.SymmetricKey)
        (addr : ℕ → Address) (sk : ℕ → p.PrivateKey) (pk : ℕ → p.PublicKey) (r : p.Rng)
        → IsRoute f keys hops key addr sk pk
        → (cs : List (List Byte)) × (r' : p.Rng) × (hop_ciphers b p f keys hops r ≡ ok (cs, r'))
          × (length cs ≡ length hops - 1)
          × ((i : ℕ)
              → suc i < length hops
              → Readable (sk i) (get_or cs i []) (key i) (hop_meta (addr (suc i))))
    unfolding hop_ciphers
    hop_ciphers_lem [] hops key addr sk pk r route =
        let empty = route.same_length in ([], r, refl, omega arith, λ i h. absurd (omega arith))
    hop_ciphers_lem (k ∷ keys) [] key addr sk pk r route =
        let empty = route.same_length in absurd (omega arith)
    hop_ciphers_lem (k ∷ keys) (a ∷ []) key addr sk pk r route =
        ([], r, refl, refl, λ i h. absurd (omega arith))
    hop_ciphers_lem (k ∷ keys) (a ∷ a' ∷ hops) key addr sk pk r route =
        let (c, r1, run, mine) =
          encrypt_meta_lem (key 0) (addr 0) (hop_meta (addr 1)) (sk 0) (pk 0) r
            (route.known 0 (omega arith)) (route.opens 0 (omega arith)) in
        let (cs, r2, run', count, theirs) =
          hop_ciphers_lem keys (a' ∷ hops) (λ i. key (suc i)) (λ i. addr (suc i)) (λ i. sk (suc i))
            (λ i. pk (suc i)) r1 (behind f k a keys (a' ∷ hops) key addr sk pk route) in
        let first =
          same_call k a a' r (ok-injective (route.key_at 0 (omega arith)))
            (ok-injective (route.addr_at 0 (omega arith)))
            (ok-injective (route.addr_at 1 (omega arith))) in
        (
          c ∷ cs,
          r2,
          hop_ciphers_step keys hops k a a' r (first ∙ run) run',
          omega arith,
          all c cs mine theirs,
        )
      where
        same_call :
            {k' : p.SymmetricKey} {b0 b1 : Address} (k : p.SymmetricKey) (a a' : Address)
            (r : p.Rng)
            → k ≡ k'
            → a ≡ b0
            → a' ≡ b1
            → encrypt_meta b p f k a (hop_meta a') r ≡ encrypt_meta b p f k' b0 (hop_meta b1) r
        same_call {k'} {b0} k a a' r ek ea ea' =
            ap (λ x. encrypt_meta b p f x a (hop_meta a') r) ek
            ∙ ap₂ (λ x y. encrypt_meta b p f k' x (hop_meta y) r) ea ea'

        all :
            (c : List Byte) (cs : List (List Byte))
            → Readable (sk 0) c (key 0) (hop_meta (addr 1))
            → ((i : ℕ)
                → suc i < suc (length hops)
                → Readable
                    (sk (suc i))
                    (get_or cs i [])
                    (key (suc i))
                    (hop_meta (addr (suc (suc i)))))
            → (i : ℕ) → suc i < suc (suc (length hops))
            → Readable (sk i) (get_or (c ∷ cs) i []) (key i) (hop_meta (addr (suc i)))
        all c cs mine theirs zero h = mine
        all c cs mine theirs (suc i) h = theirs i (omega arith)

    meta_ciphers_step :
        (keys : List p.SymmetricKey) (hops : List Address) (k : p.SymmetricKey) (a : Address)
        (meta : Meta) (r : p.Rng) {c : List Byte} {cs : List (List Byte)} {r1 r2 : p.Rng}
        → hop_ciphers b p f keys hops r ≡ ok (cs, r1)
        → last? hops ≡ some a
        → last? keys ≡ some k
        → encrypt_meta b p f k a meta r1 ≡ ok (c, r2)
        → meta_ciphers b p f keys hops meta r ≡ ok (cs ++ (c ∷ []), r2)
    unfolding meta_ciphers
    meta_ciphers_step keys hops k a meta r {c} {cs} {r1} e1 ea ek e2 =
        run_bind (hop_ciphers b p f keys hops)
          (λ cs. lift (or_panic (last? hops)) >>= λ a. lift (or_panic (last? keys)) >>= λ k.
            encrypt_meta b p f k a meta >>= λ c. pure (cs ++ (c ∷ [])))
          r e1
        ∙ rw (ea, ek) (run_bind (encrypt_meta b p f k a meta) (λ c. pure (cs ++ (c ∷ []))) r1 e2)

    -- All ciphertexts of a path of `suc n` hops: each hop can read its own, which holds its key and
    -- its meta data.
    pub meta_ciphers_lem :
        (keys : List p.SymmetricKey) (hops : List Address) (meta : Meta) (key : ℕ → p.SymmetricKey)
        (addr : ℕ → Address) (sk : ℕ → p.PrivateKey) (pk : ℕ → p.PublicKey) (n : ℕ) (r : p.Rng)
        → IsRoute f keys hops key addr sk pk
        → length hops ≡ suc n
        → (cs : List (List Byte)) × (r' : p.Rng) × (meta_ciphers b p f keys hops meta r
            ≡ ok (cs, r'))
          × (length cs ≡ suc n)
          × ((i : ℕ)
              → i < suc n
              → Readable (sk i) (get_or cs i []) (key i) (stop_meta addr n meta i))
    meta_ciphers_lem keys hops meta key addr sk pk n r route l =
        let (cs, r1, run, count, theirs) = hop_ciphers_lem keys hops key addr sk pk r route in
        let (c, r2, run', mine) =
          encrypt_meta_lem (key n) (addr n) meta (sk n) (pk n) r1 (route.known n (omega arith))
            (route.opens n (omega arith)) in
        (
          cs ++ (c ∷ []),
          r2,
          meta_ciphers_step keys hops (key n) (addr n) meta r run
              (last?-index hops n l (route.addr_at n (omega arith)))
              (last?-index keys n (route.same_length ∙ l) (route.key_at n (omega arith))) run',
          omega (arith, length-append cs (c ∷ [])),
          all c cs (omega arith) mine (λ i h. theirs i (omega arith)),
        )
      where
        At : List Byte → List (List Byte) → ℕ → Type 0
        At c cs j = Readable (sk j) (get_or (cs ++ (c ∷ [])) j []) (key j) (stop_meta addr n meta j)

        all :
            (c : List Byte) (cs : List (List Byte))
            → length cs ≡ n
            → Readable (sk n) c (key n) meta
            → ((i : ℕ) → i < n → Readable (sk i) (get_or cs i []) (key i) (hop_meta (addr (suc i))))
            → (i : ℕ) → i < suc n
            → Readable (sk i) (get_or (cs ++ (c ∷ [])) i []) (key i) (stop_meta addr n meta i)
        all c cs count mine theirs i h = elim (Bool-cases (i == n)) [
          | inl e ↦
              subst (λ (j : ℕ). At c cs j) (sym ((==_iff i n).0 e))
                (subst (λ (x : List Byte). Readable (sk n) x (key n) (stop_meta addr n meta n))
                  (sym (
                    ap (λ (j : ℕ). get_or (cs ++ (c ∷ [])) j []) (sym count)
                    ∙ get_or-append cs c []))
                  (subst (λ (m : Meta). Readable (sk n) c (key n) m)
                    (sym (stop_meta_last addr n meta)) mine))
          | inr e ↦
              let before = lt_of_not_last i n h e in
              subst (λ (x : List Byte). Readable (sk i) x (key i) (stop_meta addr n meta i))
                (sym (get_or-append_left cs (c ∷ []) i [] (omega arith)))
                (subst (λ (m : Meta). Readable (sk i) (get_or cs i []) (key i) m)
                  (sym (stop_meta_before addr n meta i e)) (theirs i before))
        ]
