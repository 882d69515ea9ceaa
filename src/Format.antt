-- ===== src/Format.antt =====
-- src/lib.rs: `OnionFormat`, its constants and lengths, and the authenticated encryption of the
-- backward payload.
pub mod Ae
use eror.Prelude.{
  ℕ, zero, suc, ◌+◌, ◌*◌, Bool, not, List, [], ◌∷◌, ◌++◌, Option, none, some, length, take, drop,
  if◌then◌else◌,
}
use eror.Prelude.Outcome.{Outcome, ok, panic}
use eror.Bytes.{Byte, zeros}
use eror.Serde.{Codec, Bincode, deserialize}
use eror.Primitives.{Primitives, sym_enc, mac}
use eror.Pki.{Pki}
use eror.Onion.{Header, raw}

abbrev pub nonce_bwd : ℕ
nonce_bwd = 0xFFAAFFAA

abbrev pub nonce_fwd : ℕ
nonce_fwd = 0xAAFFAAFF

abbrev pub nonce_ae : ℕ
nonce_ae = 0xFAFAFAFA

abbrev pub address_length : ℕ
address_length = 32

-- The primitives that the struct also holds are a parameter of each function.
pub record OnionFormat (p : Primitives) : Type 0 where
  pub max_path_length : ℕ
  pub pki : Pki p.PublicKey

module _ (p : Primitives) where
  -- `OnionFormat::new`
  unfoldable pub new : Pki p.PublicKey → ℕ → OnionFormat p
  new pki max_path_length = record { max_path_length = max_path_length; pki = pki }

  -- tag, symmetric key, address, role, point, length inside the encryption, length in the block
  unfoldable pub single_header_length : ℕ
  single_header_length = 16 + p.symmetric_key_length + address_length + 4 + 32 + 8 + 8

  unfoldable pub total_header_length : OnionFormat p → ℕ
  unfolding single_header_length
  total_header_length f = 8 + f.max_path_length * (8 + single_header_length)

  unfoldable pub zero_header : Header p
  unfolding single_header_length zeros
  zero_header = raw (zeros single_header_length)

  -- `(0..n).map(|_| rng.gen()).collect()`
  unfoldable pub random_bytes : ℕ → p.Rng → List Byte × p.Rng
  random_bytes zero r = ([], r)
  random_bytes (suc n) r =
      let (x, r') = p.gen_u8 r in let (xs, r'') = random_bytes n r' in (x ∷ xs, r'')

  unfoldable pub random_header : p.Rng → Header p × p.Rng
  unfolding single_header_length random_bytes
  random_header r = let (xs, r') = random_bytes single_header_length r in (raw xs, r')

  unfoldable pub ae_enc : p.SymmetricKey → p.Tag → List Byte → List Byte × p.Tag
  ae_enc key ad payload =
      let key_symmetric = p.derive_key sym_enc key in
      let key_mac = p.derive_key mac key in
      let ciphertext = p.symmetric_encrypt key_symmetric nonce_ae payload in
      (ciphertext, p.xor_tag (p.tag key_mac ciphertext) ad)

  unfoldable pub ae_dec : p.SymmetricKey → p.Tag → List Byte × p.Tag → Option (List Byte)
  ae_dec key ad bwd =
      let key_symmetric = p.derive_key sym_enc key in
      let key_mac = p.derive_key mac key in
      let tag = p.xor_tag (p.tag key_mac bwd.0) ad in
      if not (p.tag_eq tag bwd.1)
      then none
      else some (p.symmetric_decrypt key_symmetric nonce_ae bwd.0)

  -- `(buffer[tag_len..].into(), bincode::deserialize(&buffer[..tag_len]).unwrap())`
  unfoldable pub cut_buffer : ℕ → List Byte → Outcome (List Byte × p.Tag)
  cut_buffer tag_len buffer = elim (p.tag_codec.read (take tag_len buffer)) [
    | none ↦ panic
    | some (tag, _) ↦ ok (drop tag_len buffer, tag)
  ]

  -- The tag and the bytes go through the cipher as one buffer, and are cut apart again.
  unfoldable pub through_buffer :
      (List Byte → List Byte) → List Byte × p.Tag → Outcome (List Byte × p.Tag)
  unfolding cut_buffer
  through_buffer cipher bwd =
      let front = p.tag_codec.write bwd.1 in cut_buffer (length front) (cipher (front ++ bwd.0))

  unfoldable pub ae_unwrap : p.SymmetricKey → List Byte × p.Tag → Outcome (List Byte × p.Tag)
  unfolding through_buffer
  ae_unwrap key bwd = through_buffer (p.symmetric_decrypt (p.derive_key sym_enc key) nonce_bwd) bwd

  unfoldable pub ae_wrap : p.SymmetricKey → List Byte × p.Tag → Outcome (List Byte × p.Tag)
  unfolding through_buffer
  ae_wrap key bwd = through_buffer (p.symmetric_encrypt (p.derive_key sym_enc key) nonce_bwd) bwd
