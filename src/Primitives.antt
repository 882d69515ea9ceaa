-- ===== src/Primitives.antt =====
-- src/primitives.rs: the roles of keys and the trait `Primitives`.
pub mod KeyRoles
pub mod Ec
use eror.Prelude.{ℕ, zero, suc, ◌+◌, ◌<◌, ◌^◌, ◌≡◌, refl, Bool, true, List, [], ◌∷◌, length, arith}
use eror.Prelude.Outcome.{Outcome}
use eror.Bytes.{Byte, byte, le_bytes, Array, array_of, zeros}
use eror.Bytes.Laws.{length-le_bytes}
use eror.Serde.{Codec, RoundTrips, AnyValue}

pub data KeyRole : Type 0 where
  sym_enc mac auth_enc end_to_end prng : KeyRole
  forward backward : ℕ → KeyRole
  uhf : KeyRole

-- `[kind, 0, 0, 0, 0]` with the `u32` written over the last four bytes.
unfoldable pub role_bytes : ℕ → ℕ → List Byte
role_bytes kind i = byte kind ∷ le_bytes 4 i

pub length-role_bytes : (kind i : ℕ) → length (role_bytes kind i) ≡ 5
unfolding role_bytes
length-role_bytes kind i = omega (arith, length-le_bytes 4 i)

-- `KeyRole::discriminant`
unfoldable pub discriminant : KeyRole → Array 5
unfolding role_bytes array_of
discriminant sym_enc = array_of (role_bytes 1 0) (length-role_bytes 1 0)
discriminant mac = array_of (role_bytes 2 0) (length-role_bytes 2 0)
discriminant auth_enc = array_of (role_bytes 3 0) (length-role_bytes 3 0)
discriminant end_to_end = array_of (role_bytes 4 0) (length-role_bytes 4 0)
discriminant prng = array_of (role_bytes 5 0) (length-role_bytes 5 0)
discriminant (forward i) = array_of (role_bytes 6 i) (length-role_bytes 6 i)
discriminant (backward i) = array_of (role_bytes 7 i) (length-role_bytes 7 i)
discriminant uhf = array_of (role_bytes 8 0) (length-role_bytes 8 0)

-- The trait, with the serialisation of its types. Its methods take a generator of any type `R`,
-- which is `Rng` here; as in the one implementation, the methods that do not draw from it leave it
-- alone, and the model does not pass it to them.
pub record Primitives : Type 1 where
  pub Rng : Type 0
  pub gen_u8 : Rng → Byte × Rng
  pub Tag : Type 0
  pub PublicKey : Type 0
  pub PrivateKey : Type 0
  pub SymmetricKey : Type 0
  pub tag_eq : Tag → Tag → Bool
  pub default_tag : Tag
  pub tag_codec : Codec Tag
  pub key_codec : Codec SymmetricKey
  pub symmetric_key_length : ℕ
  pub random_key : Rng → SymmetricKey × Rng
  pub random_tag : Rng → Tag × Rng
  pub tag : SymmetricKey → List Byte → Tag
  pub xor_tag : Tag → Tag → Tag
  pub asymmetric_encrypt : PublicKey → List Byte → Rng → List Byte × Rng
  pub asymmetric_decrypt : PrivateKey → List Byte → Outcome (List Byte)
  pub derive_key : KeyRole → SymmetricKey → SymmetricKey
  -- the data is replaced by the result, a slice of the same length
  pub symmetric_encrypt : SymmetricKey → ℕ → List Byte → List Byte
  pub symmetric_decrypt : SymmetricKey → ℕ → List Byte → List Byte
  -- fills a buffer of the given length
  pub prng_fill : SymmetricKey → ℕ → List Byte

-- What the trait's documentation and the length constants of `OnionFormat` promise: decryption is
-- the inverse of encryption, slices keep their lengths, and keys, tags and ciphertexts have the
-- sizes that `single_header_length` adds up.
pub record IsPrimitives (p : Primitives) : Type 1 where
  pub tag_eq_refl : (t : p.Tag) → p.tag_eq t t ≡ true
  pub tag_eq_sound : (t u : p.Tag) → p.tag_eq t u ≡ true → t ≡ u
  pub xor_tag_comm : (t u : p.Tag) → p.xor_tag t u ≡ p.xor_tag u t
  pub xor_tag-cancel : (t u v : p.Tag) → p.xor_tag v t ≡ p.xor_tag v u → t ≡ u
  pub decrypt-encrypt :
      (k : p.SymmetricKey) (nonce : ℕ) (d : List Byte)
      → p.symmetric_decrypt k nonce (p.symmetric_encrypt k nonce d) ≡ d
  pub encrypt-decrypt :
      (k : p.SymmetricKey) (nonce : ℕ) (d : List Byte)
      → p.symmetric_encrypt k nonce (p.symmetric_decrypt k nonce d) ≡ d
  pub length-encrypt :
      (k : p.SymmetricKey) (nonce : ℕ) (d : List Byte)
      → length (p.symmetric_encrypt k nonce d) ≡ length d
  pub length-decrypt :
      (k : p.SymmetricKey) (nonce : ℕ) (d : List Byte)
      → length (p.symmetric_decrypt k nonce d) ≡ length d
  pub length-prng : (k : p.SymmetricKey) (n : ℕ) → length (p.prng_fill k n) ≡ n
  pub read-tag : RoundTrips p.tag_codec AnyValue
  pub read-key : RoundTrips p.key_codec AnyValue
  pub tag_of_bytes : (bs : List Byte) → length bs ≡ 16 → (t : p.Tag) × (p.tag_codec.write t ≡ bs)
  pub size-tag : (t : p.Tag) → length (p.tag_codec.write t) ≡ 16
  pub size-key : (k : p.SymmetricKey) → length (p.key_codec.write k) ≡ p.symmetric_key_length
  pub size-asymmetric :
      (k : p.PublicKey) (d : List Byte) (r : p.Rng)
      → length (p.asymmetric_encrypt k d r).0 ≡ 40 + length d
