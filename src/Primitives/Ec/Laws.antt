-- ===== src/Primitives/Ec/Laws.antt =====
-- `EcPrimitives` keeps the promises of the trait, on top of what its dependencies document.
use eror.Prelude.{
  ℕ, ◌+◌, ◌<◌, ◌^◌, ◌≡◌, ◌≢◌, refl, sym, ap, ◌∙◌, List, [], ◌∷◌, append-nil, none, some, length,
  arith, ◌≡⟨◌⟩◌, ◌∎, ◌≤◌, Option, leb, true, false, Bool-cases, ◌⊎◌, inl, inr, take, drop,
}
use eror.Prelude.Outcome.{Outcome, ok, panic}
use eror.Bytes.{Byte, Array, array_of}
use eror.Bytes.Laws.{array_eq_refl, array_eq_sound, xor_array-cancel, xor_array_comm}
use eror.Serde.{RoundTrips, AnyValue, Bincode, IsBincode}
use eror.Primitives.{IsPrimitives}
use eror.Primitives.Ec.{
  Crates, hash_edwards, hash_to_scalar, symmetric_encrypt, symmetric_decrypt, nonce_iv, prng_fill,
  asymmetric_encrypt, asymmetric_decrypt, ciphertext_decrypt, ciphertext_codec, mauled_decrypt,
  ec_primitives, first_half, slice_to, slice_from,
}

-- The scalars are a field and the points a vector space over it, generated by the base point; AEZ
-- is a length-preserving permutation for each key and tweak (no tag is asked for); ChaCha20 fills
-- the buffer; a point is serialised as 32 bytes.
pub record IsCrates (c : Crates) : Type 0 where
  pub zero_scalar : c.Scalar
  pub one_scalar : c.Scalar
  pub scalar_mul : c.Scalar → c.Scalar → c.Scalar
  pub mul_comm : (x y : c.Scalar) → scalar_mul x y ≡ scalar_mul y x
  pub mul_assoc : (x y z : c.Scalar) → scalar_mul (scalar_mul x y) z ≡ scalar_mul x (scalar_mul y z)
  pub mul-one : (x : c.Scalar) → scalar_mul x one_scalar ≡ x
  pub mul-invert : (x : c.Scalar) → x ≢ zero_scalar → scalar_mul x (c.invert x) ≡ one_scalar
  pub basepoint-add :
      (x y : c.Scalar)
      → c.point_add (c.basepoint_mul x) (c.basepoint_mul y) ≡ c.basepoint_mul (c.scalar_add x y)
  pub basepoint-mul :
      (x y : c.Scalar) → c.point_mul (c.basepoint_mul x) y ≡ c.basepoint_mul (scalar_mul x y)
  pub aez_decrypt-encrypt :
      (k iv : Array 16) (d : List Byte) → c.aez_decrypt k iv (c.aez_encrypt k iv d) ≡ d
  pub aez_encrypt-decrypt :
      (k iv : Array 16) (d : List Byte) → c.aez_encrypt k iv (c.aez_decrypt k iv d) ≡ d
  pub length-aez_encrypt :
      (k iv : Array 16) (d : List Byte) → length (c.aez_encrypt k iv d) ≡ length d
  pub length-aez_decrypt :
      (k iv : Array 16) (d : List Byte) → length (c.aez_decrypt k iv d) ≡ length d
  pub length-chacha20 : (seed : Array 32) (n : ℕ) → length (c.chacha20_fill seed n) ≡ n
  pub read-point : RoundTrips c.point_codec AnyValue
  pub size-point : (x : c.EdwardsPoint) → length (c.point_codec.write x) ≡ 32

module _ (b : Bincode) (c : Crates) (hb : IsBincode b) (hc : IsCrates c) where
  length-symmetric_encrypt :
      (k : Array 16) (nonce : ℕ) (d : List Byte)
      → length (symmetric_encrypt b c k nonce d) ≡ length d
  unfolding symmetric_encrypt
  length-symmetric_encrypt k nonce [] = refl
  length-symmetric_encrypt k nonce (x ∷ xs) = hc.length-aez_encrypt k _ (x ∷ xs)

  length-symmetric_decrypt :
      (k : Array 16) (nonce : ℕ) (d : List Byte)
      → length (symmetric_decrypt b c k nonce d) ≡ length d
  unfolding symmetric_decrypt
  length-symmetric_decrypt k nonce [] = refl
  length-symmetric_decrypt k nonce (x ∷ xs) = hc.length-aez_decrypt k _ (x ∷ xs)

  -- On data that is not empty the early return is not taken.
  decrypt_nonempty :
      (k : Array 16) (nonce : ℕ) (d : List Byte)
      → 0 < length d
      → symmetric_decrypt b c k nonce d ≡ c.aez_decrypt k (nonce_iv b c nonce) d
  unfolding symmetric_decrypt
  decrypt_nonempty k nonce [] h = absurd (omega arith)
  decrypt_nonempty k nonce (x ∷ xs) h = refl

  encrypt_nonempty :
      (k : Array 16) (nonce : ℕ) (d : List Byte)
      → 0 < length d
      → symmetric_encrypt b c k nonce d ≡ c.aez_encrypt k (nonce_iv b c nonce) d
  unfolding symmetric_encrypt
  encrypt_nonempty k nonce [] h = absurd (omega arith)
  encrypt_nonempty k nonce (x ∷ xs) h = refl

  pub symmetric_decrypt-encrypt :
      (k : Array 16) (nonce : ℕ) (d : List Byte)
      → symmetric_decrypt b c k nonce (symmetric_encrypt b c k nonce d) ≡ d
  symmetric_decrypt-encrypt k nonce [] = unfold symmetric_decrypt symmetric_encrypt in refl
  symmetric_decrypt-encrypt k nonce (x ∷ xs) =
      decrypt_nonempty k nonce _ (omega (arith, length-symmetric_encrypt k nonce (x ∷ xs)))
      ∙ ap (c.aez_decrypt k (nonce_iv b c nonce)) (encrypt_nonempty k nonce (x ∷ xs) (omega arith))
      ∙ hc.aez_decrypt-encrypt k (nonce_iv b c nonce) (x ∷ xs)

  symmetric_encrypt-decrypt :
      (k : Array 16) (nonce : ℕ) (d : List Byte)
      → symmetric_encrypt b c k nonce (symmetric_decrypt b c k nonce d) ≡ d
  symmetric_encrypt-decrypt k nonce [] = unfold symmetric_decrypt symmetric_encrypt in refl
  symmetric_encrypt-decrypt k nonce (x ∷ xs) =
      encrypt_nonempty k nonce _ (omega (arith, length-symmetric_decrypt k nonce (x ∷ xs)))
      ∙ ap (c.aez_encrypt k (nonce_iv b c nonce)) (decrypt_nonempty k nonce (x ∷ xs) (omega arith))
      ∙ hc.aez_encrypt-decrypt k (nonce_iv b c nonce) (x ∷ xs)

  pub size-asymmetric_encrypt :
      (k : c.EdwardsPoint) (d : List Byte) (r : c.Rng)
      → length (asymmetric_encrypt b c k d r).0 ≡ 40 + length d
  unfolding asymmetric_encrypt ciphertext_codec
  size-asymmetric_encrypt k d r =
      let (u, payload) = sent in
      omega (
        arith,
        hb.size-pair c.point_codec b.byte_vec (u, payload),
        hc.size-point u,
        hb.size-byte_vec payload,
        length-symmetric_encrypt (hash_edwards b c (c.basepoint_mul (c.random_scalar r).0)) 0 d,
      )
    where
      sent : c.EdwardsPoint × List Byte
      sent =
          let x = (c.random_scalar r).0 in
          let payload = symmetric_encrypt b c (hash_edwards b c (c.basepoint_mul x)) 0 d in
          (c.point_mul (c.point_add (c.basepoint_mul (hash_to_scalar b c payload)) k) x, payload)

  size-array : (a : Array 16) → length ((b.array 16).write a) ≡ 16
  size-array a = ap length (hb.write-array 16 a) ∙ a.sized

  write-array_of : (bs : List Byte) (e : length bs ≡ 16) → (b.array 16).write (array_of bs e) ≡ bs
  unfolding array_of
  write-array_of bs e = hb.write-array 16 (array_of bs e)

  -- `EcPrimitives`, over crates that behave as documented (`IsCrates`) and with a `bincode` that does
  -- (`IsBincode`), has the laws that the format needs of its primitives (`IsPrimitives`).
  pub ec_primitives-IsPrimitives : IsPrimitives (ec_primitives b c)
  unfolding ec_primitives prng_fill
  ec_primitives-IsPrimitives = record {
    tag_eq_refl = array_eq_refl;
    tag_eq_sound = array_eq_sound;
    xor_tag_comm = λ t u. xor_array_comm t u;
    xor_tag-cancel = λ t u v e. xor_array-cancel t u v e;
    decrypt-encrypt = symmetric_decrypt-encrypt;
    encrypt-decrypt = symmetric_encrypt-decrypt;
    length-encrypt = length-symmetric_encrypt;
    length-decrypt = length-symmetric_decrypt;
    length-prng = λ k n. hc.length-chacha20 _ n;
    read-tag = hb.read-array 16;
    read-key = hb.read-array 16;
    tag_of_bytes = λ bs e. (array_of bs e, write-array_of bs e);
    size-tag = size-array;
    size-key = size-array;
    size-asymmetric = size-asymmetric_encrypt;
  }

  -- The point that the recipient computes is the one that the sender hashed.
  shared_point :
      (h sk r : c.Scalar)
      → c.scalar_add h sk ≢ hc.zero_scalar
      → c.point_mul
          (c.point_mul (c.point_add (c.basepoint_mul h) (c.basepoint_mul sk)) r)
          (c.invert (c.scalar_add h sk))
        ≡ c.basepoint_mul r
  shared_point h sk r ne =
      let s = c.scalar_add h sk in
      c.point_mul (c.point_mul (c.point_add (c.basepoint_mul h) (c.basepoint_mul sk)) r)
        (c.invert s)
      ≡⟨ rw (hc.basepoint-add h sk, hc.basepoint-mul s r) (hc.basepoint-mul _ (c.invert s)) ⟩
        c.basepoint_mul (hc.scalar_mul (hc.scalar_mul s r) (c.invert s))
      ≡⟨ ap c.basepoint_mul (cancel s r ne) ⟩ c.basepoint_mul r ∎
    where
      cancel :
          (s r : c.Scalar) → s ≢ hc.zero_scalar → hc.scalar_mul (hc.scalar_mul s r) (c.invert s) ≡ r
      cancel s r ne =
          rw (hc.mul_comm s r, hc.mul_assoc r s (c.invert s), hc.mul-invert s ne) (hc.mul-one r)

  -- What `asymmetric_encrypt` sends for a message: the key of its cipher, and the payload.
  pub sent_payload : List Byte → c.Rng → List Byte
  sent_payload d r =
      symmetric_encrypt b c (hash_edwards b c (c.basepoint_mul (c.random_scalar r).0)) 0 d

  read-ciphertext :
      (u : c.EdwardsPoint) (payload : List Byte)
      → length payload < 2 ^ 64
      → (ciphertext_codec b c).read ((ciphertext_codec b c).write (u, payload))
        ≡ some ((u, payload), [])
  unfolding ciphertext_codec
  read-ciphertext u payload small =
      ap (ciphertext_codec b c).read (sym (append-nil _))
      ∙ hb.read-pair c.point_codec b.byte_vec _ _ hc.read-point hb.read-byte_vec (u, payload) []
          (tt, small)

  asymmetric_decrypt_read :
      (sk : c.Scalar) (bs : List Byte) {u : c.EdwardsPoint} {payload rest : List Byte}
      → (ciphertext_codec b c).read bs ≡ some ((u, payload), rest)
      → asymmetric_decrypt b c sk bs ≡ ok (ciphertext_decrypt b c sk u payload)
  unfolding asymmetric_decrypt
  asymmetric_decrypt_read sk bs e = rw (e, asymmetric_decrypt)

  ciphertext_decrypt-payload :
      (sk : c.Scalar) (d : List Byte) (r : c.Rng)
      → c.scalar_add (hash_to_scalar b c (sent_payload d r)) sk ≢ hc.zero_scalar
      → ciphertext_decrypt b c sk
          (c.point_mul
            (c.point_add
              (c.basepoint_mul (hash_to_scalar b c (sent_payload d r)))
              (c.basepoint_mul sk))
            (c.random_scalar r).0)
          (sent_payload d r)
        ≡ d
  unfolding ciphertext_decrypt
  ciphertext_decrypt-payload sk d r ne =
      rw (shared_point (hash_to_scalar b c (sent_payload d r)) sk (c.random_scalar r).0 ne)
        (unfold sent_payload in symmetric_decrypt-encrypt _ 0 d)

  -- A private key `sk` decrypts what was encrypted for the public key `sk * B`, unless the hash of
  -- the payload is `-sk` (or the message has 2^64 bytes).
  pub asymmetric_decrypt-encrypt :
      (sk : c.Scalar) (d : List Byte) (r : c.Rng)
      → length d < 2 ^ 64
      → c.scalar_add (hash_to_scalar b c (sent_payload d r)) sk ≢ hc.zero_scalar
      → asymmetric_decrypt b c sk (asymmetric_encrypt b c (c.basepoint_mul sk) d r).0 ≡ ok d
  unfolding asymmetric_encrypt sent_payload
  asymmetric_decrypt-encrypt sk d r small ne =
      asymmetric_decrypt_read sk _
        (read-ciphertext _ (sent_payload d r) (length-sent_payload small))
      ∙ ap ok (ciphertext_decrypt-payload sk d r ne)
    where
      length-sent_payload : length d < 2 ^ 64 → length (sent_payload d r) < 2 ^ 64
      length-sent_payload small = unfold sent_payload in rw length-symmetric_encrypt small

  -- Both slices of `mauled_decrypt` are in range, or the second one is not.
  mauled_decrypt-ok :
      (bs : List Byte) → 40 ≤ length bs → (plain : List Byte) × (mauled_decrypt b c bs ≡ ok plain)
  unfolding mauled_decrypt slice_to slice_from
  mauled_decrypt-ok bs h = (
    symmetric_decrypt b c (first_half (c.sha3_256 (take 32 bs))) 0 (drop 40 bs),
    rw (in_range 32 (length bs) (omega arith), in_range 40 (length bs) h) refl,
  )
    where
      in_range : (n m : ℕ) → n ≤ m → leb n m ≡ true
      in_range n m h = ground arith

  mauled_decrypt-panic : (bs : List Byte) → length bs < 40 → mauled_decrypt b c bs ≡ panic
  unfolding mauled_decrypt slice_to slice_from
  mauled_decrypt-panic bs h = elim (Bool-cases (leb 32 (length bs))) [
    | inl e ↦ rw (e, out_of_range 40 (length bs) h) refl
    | inr e ↦ rw e refl
  ]
    where
      out_of_range : (n m : ℕ) → m < n → leb n m ≡ false
      out_of_range n m h = ground arith

  -- Forty bytes or more always decrypt to something.
  pub asymmetric_decrypt-ok :
      (sk : c.Scalar) (bs : List Byte)
      → 40 ≤ length bs
      → (plain : List Byte) × (asymmetric_decrypt b c sk bs ≡ ok plain)
  unfolding asymmetric_decrypt
  asymmetric_decrypt-ok sk bs h = by_read ((ciphertext_codec b c).read bs)
    where
      by_read :
          (o : Option ((c.EdwardsPoint × List Byte) × List Byte))
          → (plain : List Byte) × (elim o [
            | some ((u, payload), _) ↦ ok (ciphertext_decrypt b c sk u payload)
            | none ↦ mauled_decrypt b c bs
          ]
              ≡ ok plain)
      by_read none = mauled_decrypt-ok bs h
      by_read (some ((u, payload), left)) = (ciphertext_decrypt b c sk u payload, refl)

  -- Bytes that are no ciphertext and shorter than 40 make `asymmetric_decrypt` panic, and all others
  -- decrypt to something.
  pub asymmetric_decrypt-cases :
      (sk : c.Scalar) (bs : List Byte)
      → ((plain : List Byte) × (asymmetric_decrypt b c sk bs ≡ ok plain)
          × (((ciphertext_codec b c).read bs ≡ none) × (length bs < 40) → ⊥))
        ⊎ ((asymmetric_decrypt b c sk bs ≡ panic)
            × ((ciphertext_codec b c).read bs ≡ none)
            × (length bs < 40))
  unfolding asymmetric_decrypt
  asymmetric_decrypt-cases sk bs = by_read ((ciphertext_codec b c).read bs)
    where
      by_read :
          (o : Option ((c.EdwardsPoint × List Byte) × List Byte))
          → let out : Outcome (List Byte) = elim o [
            | some ((u, payload), _) ↦ ok (ciphertext_decrypt b c sk u payload)
            | none ↦ mauled_decrypt b c bs
          ] in
            ((plain : List Byte) × (out ≡ ok plain) × ((o ≡ none) × (length bs < 40) → ⊥))
            ⊎ ((out ≡ panic) × (o ≡ none) × (length bs < 40))
      by_read (some ((u, payload), left)) =
          inl (ciphertext_decrypt b c sk u payload, refl, λ h. let e = h.0 in cc)
      by_read none = elim (Bool-cases (leb 40 (length bs))) [
        | inl e ↦
            let (plain, run) = mauled_decrypt-ok bs (ground arith) in
            inl (plain, run, λ h. ground arith)
        | inr e ↦ inr (mauled_decrypt-panic bs (ground arith), refl, ground arith)
      ]
