-- ===== src/Scenario/Crypto/Mauled.antt =====
-- src/primitives.rs: what `test_asymmetric_ciphertext_mauled` comes to.
use eror.Prelude.{
  ◌<◌, ◌≡◌, ◌≢◌, ◌↔◌, refl, sym, ap, ◌∙◌, not, inl, inr, Bool-cases, List, [], ◌∷◌, length, arith,
}
use eror.Prelude.Outcome.{ok, assert}
use eror.Prelude.Rand.{run_lift, lift}
use eror.Bytes.{Byte, byte, xor_byte, bytes_eq}
use eror.Bytes.Laws.{bytes_eq_refl, bytes_eq_sound}
use eror.Serde.{Bincode, IsBincode}
use eror.Primitives.Ec.{Crates, generate_keypair, asymmetric_encrypt, asymmetric_decrypt}
use eror.Primitives.Ec.Laws.{IsCrates, size-asymmetric_encrypt, asymmetric_decrypt-ok}
use eror.Scenario.Crypto.{greeting, maul, test_asymmetric_ciphertext_mauled}

maul-ok :
    (bs : List Byte)
    → 0 < length bs
    → (mauled : List Byte) × (maul bs ≡ ok mauled) × (length mauled ≡ length bs)
unfolding maul
maul-ok [] h = absurd (omega arith)
maul-ok (x ∷ bs) h = (xor_byte x (byte 255) ∷ bs, refl, refl)

-- `assert_ne!` goes on exactly if the bytes differ.
assert_differs :
    {S : Type 0} (xs ys : List Byte) (s : S)
    → (lift (assert (not (bytes_eq xs ys))) s ≡ ok (tt, s)) ↔ (xs ≢ ys)
assert_differs xs ys s = elim (Bool-cases (bytes_eq xs ys)) [
  | inl e ↦ (λ passes same. cc (e, passes), λ differs. absurd (differs (bytes_eq_sound xs ys e)))
  | inr e ↦
      (λ passes same. cc (e, ap (λ t. bytes_eq t ys) same, bytes_eq_refl ys), λ differs. rw e refl)
]

module _ (b : Bincode) (c : Crates) (hb : IsBincode b) (hc : IsCrates c) where
  -- In every state of the generator, the mauled ciphertext of `test_asymmetric_ciphertext_mauled`
  -- decrypts to something, without a panic, and the test passes exactly if that is not the greeting.
  pub mauled_lem :
      (r : c.Rng)
      → let (sk, r1) = c.random_scalar r in
        let encrypted = asymmetric_encrypt b c (c.basepoint_mul sk) greeting r1 in
        (mauled decrypted : List Byte) × (maul encrypted.0 ≡ ok mauled)
        × (asymmetric_decrypt b c sk mauled ≡ ok decrypted)
        × ((test_asymmetric_ciphertext_mauled b c r ≡ ok (tt, encrypted.1))
            ↔ (decrypted ≢ greeting))
  unfolding test_asymmetric_ciphertext_mauled generate_keypair
  mauled_lem r =
      let (sk, r1) = c.random_scalar r in
      let (encrypted, r2) = asymmetric_encrypt b c (c.basepoint_mul sk) greeting r1 in
      let size = size-asymmetric_encrypt b c hb hc (c.basepoint_mul sk) greeting r1 in
      let (mauled, mauls, same) = maul-ok encrypted (omega (arith, size)) in
      let (decrypted, decrypts) =
        asymmetric_decrypt-ok b c hb hc sk mauled (omega (arith, same, size)) in
      let run : test_asymmetric_ciphertext_mauled b c r
          ≡ lift (assert (not (bytes_eq decrypted greeting))) r2 =
        run_lift (maul encrypted) _ r2 mauls
        ∙ run_lift (asymmetric_decrypt b c sk mauled) _ r2 decrypts in
      let (there, back) = assert_differs decrypted greeting r2 in
      (mauled, decrypted, mauls, decrypts, ((λ e. there (sym run ∙ e)), (λ e. run ∙ back e)))
