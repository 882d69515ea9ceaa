-- ===== src/Scenario/Crypto/Passing.antt =====
-- When the tests of src/primitives.rs pass.
use eror.Prelude.{◌≡◌, ◌↔◌, ◌≢◌, refl, sym, ap, ◌∙◌, Bool, true, false, not, List, arith}
use eror.Prelude.Outcome.{ok, panic, assert}
use eror.Prelude.Rand.{lift, run_lift, ◌>>◌}
use eror.Bytes.{Byte, bytes_eq, array_eq}
use eror.Bytes.Laws.{bytes_eq_refl, bytes_eq_sound, array_eq_refl, array_eq_sound}
use eror.Serde.{Bincode, IsBincode}
use eror.Primitives.Ec.{
  Crates, generate_keypair, asymmetric_encrypt, asymmetric_decrypt, tag, symmetric_encrypt,
  symmetric_decrypt, hash_to_scalar,
}
use eror.Primitives.Ec.Laws.{
  IsCrates, sent_payload, asymmetric_decrypt-encrypt, symmetric_decrypt-encrypt,
}
use eror.Scenario.Crypto.{
  greeting, other_greeting, test_asymmetric_encrypt_decrypt, test_mac, test_encrypt_decrypt,
}

assert-not : {S : Type 0} (t : Bool) (s : S) → (lift (assert (not t)) s ≡ panic) ↔ (t ≡ true)
assert-not true s = (λ e. refl, λ e. refl)
assert-not false s = (λ e. cc, λ e. cc)

module _ (b : Bincode) (c : Crates) (hb : IsBincode b) (hc : IsCrates c) where
  test_asymmetric_lem :
      (r : c.Rng)
      → c.scalar_add
          (hash_to_scalar b c (sent_payload b c hb hc greeting (c.random_scalar r).1))
          (c.random_scalar r).0
        ≢ hc.zero_scalar
      → (r' : c.Rng) × (test_asymmetric_encrypt_decrypt b c r ≡ ok (tt, r'))
  unfolding test_asymmetric_encrypt_decrypt generate_keypair
  test_asymmetric_lem r ne =
      let (sk, r1) = c.random_scalar r in
      let (encrypted, r2) = asymmetric_encrypt b c (c.basepoint_mul sk) greeting r1 in
      (
        r2,
        run_lift (asymmetric_decrypt b c sk encrypted) _ r2
              (asymmetric_decrypt-encrypt b c hb hc sk greeting r1 (omega arith) ne)
            ∙ ap (λ (t : Bool). lift (assert t) r2) (bytes_eq_refl greeting),
      )

  test_mac_lem :
      (r : c.Rng)
      → test_mac b c r
        ≡ lift
            (assert (
              not (
                array_eq
                  (tag b c (c.gen_array 16 r).0 greeting)
                  (tag b c (c.gen_array 16 r).0 other_greeting))))
            (c.gen_array 16 r).1
  unfolding test_mac
  test_mac_lem r =
      let (key, r') = c.gen_array 16 r in rw (array_eq_refl (tag b c key greeting)) refl

  test_encrypt_lem :
      (r : c.Rng)
      → let key = (c.gen_array 16 r).0 in
        test_encrypt_decrypt b c r
        ≡ lift
            (assert (
              not (
                bytes_eq
                  (symmetric_decrypt b c key 43 (symmetric_encrypt b c key 42 greeting))
                  greeting)))
            (c.gen_array 16 r).1
  unfolding test_encrypt_decrypt
  test_encrypt_lem r =
      let (key, r') = c.gen_array 16 r in
      ap
        (λ (m : List Byte).
          (lift (assert (bytes_eq m greeting))
              >> lift (
                  assert (
                    not (
                      bytes_eq (symmetric_decrypt b c key 43 (symmetric_encrypt b c key 42 m))
                        greeting))))
            r')
        (symmetric_decrypt-encrypt b c hb hc key 42 greeting)
      ∙ rw (bytes_eq_refl greeting) refl

  -- `test_asymmetric_encrypt_decrypt` passes in every state of the generator in which the hash of the
  -- encrypted greeting is not minus the private key. `test_mac` fails exactly if the drawn key gives
  -- the two greetings the same tag, and `test_encrypt_decrypt` exactly if decryption under the other
  -- nonce gives the greeting back.
  pub primitives_tests_lem :
      (r : c.Rng)
      → c.scalar_add
          (hash_to_scalar b c (sent_payload b c hb hc greeting (c.random_scalar r).1))
          (c.random_scalar r).0
        ≢ hc.zero_scalar
      → let key = (c.gen_array 16 r).0 in
        (r' : c.Rng) × (test_asymmetric_encrypt_decrypt b c r ≡ ok (tt, r'))
        × ((test_mac b c r ≡ panic) ↔ (tag b c key greeting ≡ tag b c key other_greeting))
        × ((test_encrypt_decrypt b c r ≡ panic)
            ↔ (symmetric_decrypt b c key 43 (symmetric_encrypt b c key 42 greeting) ≡ greeting))
  primitives_tests_lem r ne =
      let (key, r1) = c.gen_array 16 r in
      let (r', passes) = test_asymmetric_lem r ne in
      let back = symmetric_decrypt b c key 43 (symmetric_encrypt b c key 42 greeting) in
      let (mac_fails, mac_same) =
        assert-not (array_eq (tag b c key greeting) (tag b c key other_greeting)) r1 in
      let (enc_fails, enc_same) = assert-not (bytes_eq back greeting) r1 in
      (
        r',
        passes,
        (
          λ e. array_eq_sound _ _ (mac_fails (sym (test_mac_lem r) ∙ e)),
          λ e.
              test_mac_lem r
              ∙ mac_same (
                  ap (array_eq (tag b c key greeting)) (sym e)
                  ∙ array_eq_refl (tag b c key greeting)),
        ),
        (
          λ e. bytes_eq_sound back greeting (enc_fails (sym (test_encrypt_lem r) ∙ e)),
          λ e.
              test_encrypt_lem r
              ∙ enc_same (ap (λ (x : List Byte). bytes_eq x greeting) e ∙ bytes_eq_refl greeting),
        ),
      )
