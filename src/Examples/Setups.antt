-- ===== src/Examples/Setups.antt =====
-- Runs of the key setup and of the tests of the primitives, and an onion as `onionize` shapes it.
use eror.Prelude.{◌≡◌, ◌≢◌, ◌↔◌}
use eror.Prelude.Outcome.{ok, panic}
use eror.Primitives.Ec.{tag, symmetric_encrypt, symmetric_decrypt, hash_to_scalar}
use eror.Primitives.Ec.Laws.{sent_payload}
use eror.Bytes.{Byte}
use eror.Scenario.Crypto.{maul, test_asymmetric_ciphertext_mauled}
use eror.Scenario.Crypto.Mauled.{mauled_lem}
use eror.Primitives.Ec.{asymmetric_encrypt, asymmetric_decrypt}
use eror.Prelude.{◌≢◌, List}
use eror.Scenario.Setup.{add_nodes, no_nodes, keysetup}
use eror.Scenario.Setup.Laws.{ArePaired, keysetup-ArePaired}
use eror.Scenario.Crypto.{
  greeting, other_greeting, test_asymmetric_encrypt_decrypt, test_mac, test_encrypt_decrypt,
}
use eror.Scenario.Crypto.Passing.{primitives_tests_lem}
use eror.Examples.Data.{b, hb, c, hc, generator}
use eror.Examples.ToyCrates.{toy_crates, toy_crates-IsCrates}

keysetup-ArePaired_example :
    ArePaired b c (add_nodes b c 3 (no_nodes b c) generator).0
    × ArePaired b c (keysetup b c generator).0
keysetup-ArePaired_example = keysetup-ArePaired b c 3 generator

-- The private key is drawn as the scalar for which the hash is never minus the key.
drawn_lucky :
    c.scalar_add
      (hash_to_scalar b c (sent_payload b c hb hc greeting (c.random_scalar generator).1))
      (c.random_scalar generator).0
    ≢ hc.zero_scalar
unfolding toy_crates toy_crates-IsCrates hash_to_scalar
drawn_lucky e = cc

primitives_tests_lem_example :
    let key = (c.gen_array 16 generator).0 in
    (r' : c.Rng) × (test_asymmetric_encrypt_decrypt b c generator ≡ ok (tt, r'))
    × ((test_mac b c generator ≡ panic) ↔ (tag b c key greeting ≡ tag b c key other_greeting))
    × ((test_encrypt_decrypt b c generator ≡ panic)
        ↔ (symmetric_decrypt b c key 43 (symmetric_encrypt b c key 42 greeting) ≡ greeting))
primitives_tests_lem_example = primitives_tests_lem b c hb hc generator drawn_lucky

mauled_lem_example :
    let (sk, r1) = c.random_scalar generator in
    let encrypted = asymmetric_encrypt b c (c.basepoint_mul sk) greeting r1 in
    (mauled decrypted : List Byte) × (maul encrypted.0 ≡ ok mauled)
    × (asymmetric_decrypt b c sk mauled ≡ ok decrypted)
    × ((test_asymmetric_ciphertext_mauled b c generator ≡ ok (tt, encrypted.1))
        ↔ (decrypted ≢ greeting))
mauled_lem_example = mauled_lem b c hb hc generator
