-- ===== src/Scenario/Crypto.antt =====
-- The tests of src/primitives.rs.
pub mod Passing
pub mod Mauled
use eror.Prelude.{
  ℕ, ◌≡◌, ◌↔◌, refl, sym, ap, ◌∙◌, ◌≢◌, ◌<◌, ◌^◌, Bool, true, false, not, List, [], ◌∷◌, map,
  length, arith, inl, inr, Bool-cases,
}
use eror.Prelude.Outcome
use eror.Prelude.Outcome.{Outcome, ok, panic, assert}
use eror.Prelude.Rand.{Rand, lift, draw, ◌>>=◌, ◌>>◌}
use eror.Bytes.{Byte, byte, xor_byte, bytes_eq, array_eq}
use eror.Bytes.Laws.{bytes_eq_refl, bytes_eq_sound, array_eq_refl, array_eq_sound}
use eror.Serde.{Bincode, IsBincode}
use eror.Primitives.Ec.{
  Crates, generate_keypair, asymmetric_encrypt, asymmetric_decrypt, tag, symmetric_encrypt,
  symmetric_decrypt, hash_to_scalar,
}
use eror.Primitives.Ec.Laws.{IsCrates, sent_payload, asymmetric_decrypt-encrypt}

-- b"Hello, world!" and b"Hello, w0rld!"
abbrev pub greeting : List Byte
greeting = map byte (72 ∷ 101 ∷ 108 ∷ 108 ∷ 111 ∷ 44 ∷ 32 ∷ 119 ∷ 111 ∷ 114 ∷ 108 ∷ 100 ∷ 33 ∷ [])

abbrev pub other_greeting : List Byte
other_greeting =
    map byte (72 ∷ 101 ∷ 108 ∷ 108 ∷ 111 ∷ 44 ∷ 32 ∷ 119 ∷ 48 ∷ 114 ∷ 108 ∷ 100 ∷ 33 ∷ [])

-- `encrypted[0] ^= 0xFF`
unfoldable pub maul : List Byte → Outcome (List Byte)
unfolding xor_byte byte
maul [] = panic
maul (x ∷ bytes) = ok (xor_byte x (byte 255) ∷ bytes)

module _ (b : Bincode) (c : Crates) where
  unfoldable pub test_asymmetric_encrypt_decrypt : Rand c.Rng (Unit {0})
  unfolding generate_keypair asymmetric_encrypt asymmetric_decrypt bytes_eq
  test_asymmetric_encrypt_decrypt = do
    (privkey, pubkey) ← draw (generate_keypair b c)
    encrypted ← draw (asymmetric_encrypt b c pubkey greeting)
    decrypted ← lift (asymmetric_decrypt b c privkey encrypted)
    lift (assert (bytes_eq decrypted greeting))

  unfoldable pub test_asymmetric_ciphertext_mauled : Rand c.Rng (Unit {0})
  unfolding generate_keypair asymmetric_encrypt asymmetric_decrypt maul bytes_eq
  test_asymmetric_ciphertext_mauled = do
    (privkey, pubkey) ← draw (generate_keypair b c)
    encrypted ← draw (asymmetric_encrypt b c pubkey greeting)
    mauled ← lift (maul encrypted)
    decrypted ← lift (asymmetric_decrypt b c privkey mauled)
    lift (assert (not (bytes_eq decrypted greeting)))

  unfoldable pub test_mac : Rand c.Rng (Unit {0})
  unfolding tag array_eq
  test_mac = do
    key ← draw (c.gen_array 16)
    let tag1 = tag b c key greeting
    let tag2 = tag b c key greeting
    lift (assert (array_eq tag1 tag2))
    let tag3 = tag b c key other_greeting
    lift (assert (not (array_eq tag1 tag3)))

  unfoldable pub test_encrypt_decrypt : Rand c.Rng (Unit {0})
  unfolding symmetric_encrypt symmetric_decrypt bytes_eq
  test_encrypt_decrypt = do
    key ← draw (c.gen_array 16)
    let message = symmetric_decrypt b c key 42 (symmetric_encrypt b c key 42 greeting)
    lift (assert (bytes_eq message greeting))
    let message' = symmetric_decrypt b c key 43 (symmetric_encrypt b c key 42 message)
    lift (assert (not (bytes_eq message' greeting)))
