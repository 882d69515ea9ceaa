-- ===== src/Primitives/Ec.antt =====
-- src/primitives.rs: `EcPrimitives`, ElGamal on Curve25519 with AEZ, SHA3, HMAC and ChaCha20.
-- The curve, the cipher, the hashes and the generators are dependencies: a record of parameters,
-- with the laws that their documentation gives.
pub mod Laws
use eror.Prelude.{
  ℕ, ◌≡◌, List, [], ◌∷◌, ◌++◌, none, some, length, length-append, take, drop, length-take, arith,
  leb, if◌then◌else◌,
}
use eror.Prelude.Outcome.{Outcome, ok, panic, ◌>>=◌}
use eror.Bytes.{Byte, Array, array_of, array_eq, xor_array, zero_array, zeros, le_bytes}
use eror.Serde.{Codec, Bincode, deserialize}
use eror.Primitives.{KeyRole, discriminant, Primitives}

pub record Crates : Type 1 where
  pub Rng : Type 0
  pub gen_u8 : Rng → Byte × Rng
  pub gen_array : (n : ℕ) → Rng → Array n × Rng
  -- curve25519-dalek
  pub Scalar : Type 0
  pub EdwardsPoint : Type 0
  pub random_scalar : Rng → Scalar × Rng
  pub scalar_add : Scalar → Scalar → Scalar
  pub invert : Scalar → Scalar
  pub basepoint_mul : Scalar → EdwardsPoint
  pub point_add : EdwardsPoint → EdwardsPoint → EdwardsPoint
  pub point_mul : EdwardsPoint → Scalar → EdwardsPoint
  pub compress : EdwardsPoint → Array 32
  pub hash_from_bytes_sha3_512 : List Byte → Scalar
  pub point_codec : Codec EdwardsPoint
  -- sha3, hmac, aez, rand_chacha
  pub sha3_256 : List Byte → Array 32
  pub hmac_sha3_256 : Array 16 → List Byte → Array 32
  pub aez_encrypt : Array 16 → Array 16 → List Byte → List Byte
  pub aez_decrypt : Array 16 → Array 16 → List Byte → List Byte
  pub chacha20_fill : Array 32 → ℕ → List Byte

-- `x[..16].try_into().unwrap()` of 32 bytes
unfoldable pub first_half : Array 32 → Array 16
unfolding array_of
first_half a = array_of (take 16 a.bytes) (omega (arith, length-take 16 a.bytes, a.sized))

pub length-seed : (k : Array 16) → length (k.bytes ++ zeros 16) ≡ 32
unfolding zeros
length-seed k = omega (arith, length-append k.bytes (zeros 16), k.sized)

-- `&data[..n]` and `&data[n..]`
unfoldable pub slice_to : List Byte → ℕ → Outcome (List Byte)
slice_to bs n = if leb n (length bs) then ok (take n bs) else panic

unfoldable pub slice_from : List Byte → ℕ → Outcome (List Byte)
slice_from bs n = if leb n (length bs) then ok (drop n bs) else panic

module _ (b : Bincode) (c : Crates) where
  open c use {
    Rng, gen_array, Scalar, EdwardsPoint, random_scalar, scalar_add, invert, basepoint_mul,
    point_add, point_mul, compress, hash_from_bytes_sha3_512, point_codec, sha3_256, hmac_sha3_256,
    aez_encrypt, aez_decrypt, chacha20_fill,
  }

  unfoldable pub hash_edwards : EdwardsPoint → Array 16
  unfolding first_half
  hash_edwards point = first_half (sha3_256 (compress point).bytes)

  unfoldable pub hash_to_scalar : List Byte → Scalar
  hash_to_scalar bs = hash_from_bytes_sha3_512 bs

  -- The private key is drawn, and the public key is the base point times it.
  unfoldable pub generate_keypair : Rng → (Scalar × EdwardsPoint) × Rng
  generate_keypair r = let (sk, r') = random_scalar r in ((sk, basepoint_mul sk), r')

  unfoldable pub tag : Array 16 → List Byte → Array 16
  unfolding first_half
  tag key bs = first_half (hmac_sha3_256 key bs)

  unfoldable pub nonce_iv : ℕ → Array 16
  unfolding first_half
  nonce_iv nonce = first_half (sha3_256 (le_bytes 4 nonce))

  -- The cipher is not called on an empty slice.
  unfoldable pub symmetric_encrypt : Array 16 → ℕ → List Byte → List Byte
  unfolding nonce_iv
  symmetric_encrypt key nonce [] = []
  symmetric_encrypt key nonce (x ∷ xs) = aez_encrypt key (nonce_iv nonce) (x ∷ xs)

  unfoldable pub symmetric_decrypt : Array 16 → ℕ → List Byte → List Byte
  unfolding nonce_iv
  symmetric_decrypt key nonce [] = []
  symmetric_decrypt key nonce (x ∷ xs) = aez_decrypt key (nonce_iv nonce) (x ∷ xs)

  unfoldable pub ciphertext_codec : Codec (EdwardsPoint × List Byte)
  ciphertext_codec = b.pair point_codec b.byte_vec

  unfoldable pub asymmetric_encrypt : EdwardsPoint → List Byte → Rng → List Byte × Rng
  unfolding hash_edwards hash_to_scalar symmetric_encrypt ciphertext_codec
  asymmetric_encrypt key bs rng =
      let (r, rng') = random_scalar rng in
      let symmetric_key = hash_edwards (basepoint_mul r) in
      let payload = symmetric_encrypt symmetric_key 0 bs in
      let u = point_mul (point_add (basepoint_mul (hash_to_scalar payload)) key) r in
      (ciphertext_codec.write (u, payload), rng')

  -- The bytes that are no ciphertext are taken for a mauled one.
  unfoldable pub mauled_decrypt : List Byte → Outcome (List Byte)
  unfolding first_half symmetric_decrypt slice_to slice_from
  mauled_decrypt bs = do
    point_bytes ← slice_to bs 32
    data_bytes ← slice_from bs 40
    ok (symmetric_decrypt (first_half (sha3_256 point_bytes)) 0 data_bytes)

  unfoldable pub ciphertext_decrypt : Scalar → EdwardsPoint → List Byte → List Byte
  unfolding hash_edwards hash_to_scalar symmetric_decrypt
  ciphertext_decrypt key u payload =
      let point = point_mul u (invert (scalar_add (hash_to_scalar payload) key)) in
      symmetric_decrypt (hash_edwards point) 0 payload

  unfoldable pub asymmetric_decrypt : Scalar → List Byte → Outcome (List Byte)
  unfolding ciphertext_codec ciphertext_decrypt mauled_decrypt
  asymmetric_decrypt key bs = elim (ciphertext_codec.read bs) [
    | some ((u, payload), _) ↦ ok (ciphertext_decrypt key u payload)
    | none ↦ mauled_decrypt bs
  ]

  unfoldable pub derive_key : KeyRole → Array 16 → Array 16
  unfolding first_half discriminant
  derive_key role key = first_half (sha3_256 ((discriminant role).bytes ++ key.bytes))

  -- The seed is the key, then sixteen zero bytes.
  unfoldable pub prng_fill : Array 16 → ℕ → List Byte
  unfolding array_of
  prng_fill seed n = chacha20_fill (array_of (seed.bytes ++ zeros 16) (length-seed seed)) n

  -- `impl Primitives for EcPrimitives`
  unfoldable pub ec_primitives : Primitives
  unfolding tag symmetric_encrypt symmetric_decrypt asymmetric_encrypt asymmetric_decrypt derive_key
      prng_fill array_eq xor_array zero_array
  ec_primitives = record {
    Rng = Rng;
    gen_u8 = c.gen_u8;
    Tag = Array 16;
    PublicKey = EdwardsPoint;
    PrivateKey = Scalar;
    SymmetricKey = Array 16;
    tag_eq = array_eq;
    default_tag = zero_array 16;
    tag_codec = b.array 16;
    key_codec = b.array 16;
    symmetric_key_length = 16;
    random_key = gen_array 16;
    random_tag = gen_array 16;
    tag = tag;
    xor_tag = xor_array;
    asymmetric_encrypt = asymmetric_encrypt;
    asymmetric_decrypt = asymmetric_decrypt;
    derive_key = derive_key;
    symmetric_encrypt = symmetric_encrypt;
    symmetric_decrypt = symmetric_decrypt;
    prng_fill = prng_fill;
  }
