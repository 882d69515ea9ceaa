-- ===== src/Scenario/Attacks.antt =====
-- src/lib.rs: the tests with a wrong key and with flipped bits, `test_wrong_key`,
-- `test_header_tagging_foiled`, `test_forward_payload_tagging_foiled` and
-- `test_backward_payload_tagging`, behind `keysetup`.
pub mod Tagged
pub mod Foiled
pub mod Noticed
pub mod Stranger
use eror.Prelude.{ℕ, List, [], ◌∷◌}
use eror.Prelude.Outcome.{Outcome, ok, panic, index, write, ◌>>=◌, ◌>>◌}
use eror.Prelude.Rand
use eror.Prelude.Rand.{Rand, lift}
use eror.Bytes.{Byte, byte, xor_byte}
use eror.Serde.{Bincode}
use eror.Primitives.{Primitives}
use eror.Pki.{Address, Pki}
use eror.Onion.{Onion, into_bytes, force_pack}
use eror.Format
use eror.Format.{OnionFormat}
use eror.Process.{ExpectedResponse, proc_onion, proc_onion_without_reply}
use eror.Scenario.{key_at}
use eror.Scenario.Formed.{formed}
use eror.Scenario.Steps.{through_hop, at_receiver, reply_from, assert_mac_mismatch, assert_ae_error}
use eror.Prelude.{some}

-- `bytes[0] ^= 1`
unfoldable pub flip_first : List Byte → Outcome (List Byte)
unfolding xor_byte byte
flip_first [] = panic
flip_first (x ∷ bytes) = ok (xor_byte x (byte 1) ∷ bytes)

module _ (b : Bincode) (p : Primitives) where
  -- `onion.header[1].force_pack().unwrap()[0] ^= 1`
  unfoldable pub tag_header : Onion p → Outcome (Onion p)
  unfolding flip_first into_bytes force_pack
  tag_header onion = do
    block ← index onion.header 1
    bytes ← flip_first (into_bytes b p block)
    header ← write onion.header 1 (force_pack b p block (λ _. bytes))
    ok (record onion { header = header })

  -- `onion.forward[0] ^= 1`
  unfoldable pub tag_forward : Onion p → Outcome (Onion p)
  unfolding flip_first
  tag_forward onion = do forward ← flip_first onion.forward; ok (record onion { forward = forward })

  -- `onion.backward.0[0] ^= 1`
  unfoldable pub tag_backward : Onion p → Outcome (Onion p)
  unfolding flip_first
  tag_backward onion = do
    bytes ← flip_first onion.backward.0
    ok (record onion { backward = (bytes, onion.backward.1) })

  module _ (f : OnionFormat p) (private_keys : List (Address × p.PrivateKey))
      (addresses : List Address) where
    -- The node with address `addresses[i]` has to refuse the onion.
    unfoldable pub refused_by : ℕ → Onion p → Outcome (Unit {0})
    unfolding key_at proc_onion_without_reply assert_mac_mismatch
    refused_by i onion = do
      private_key ← key_at private_keys addresses i
      assert_mac_mismatch (proc_onion_without_reply b p f private_key onion)

    -- The reply is tagged behind the receiver, and the next hop does not notice.
    unfoldable pub backward_tagging_trip : Onion p → ExpectedResponse p → Outcome (Unit {0})
    unfolding through_hop at_receiver reply_from tag_backward key_at proc_onion assert_ae_error
    backward_tagging_trip onion expected = do
      (_, onion1) ← through_hop b p f private_keys addresses 0 onion
      _ ← at_receiver b p f private_keys addresses 1 onion1
      (onion2, _) ← reply_from b p f private_keys addresses 1 onion1
      tagged ← tag_backward onion2
      (_, onion3) ← through_hop b p f private_keys addresses 2 tagged
      private_key ← key_at private_keys addresses 3
      assert_ae_error (proc_onion b p f private_key (λ _. some expected.tag) onion3)

  module _ (pki : Pki p.PublicKey) (private_keys : List (Address × p.PrivateKey))
      (addresses : List Address) where
    unfoldable pub wrong_key : Rand p.Rng (Unit {0})
    unfolding formed Format.new refused_by
    wrong_key =
        Rand.◌>>=◌ (formed b p 2 0 2 2 4 pki addresses)
          λ (onion, _). lift (refused_by (Format.new p pki 2) private_keys addresses 1 onion)

    unfoldable pub header_tagging_foiled : Rand p.Rng (Unit {0})
    unfolding formed Format.new tag_header refused_by
    header_tagging_foiled = Rand.◌>>=◌ (formed b p 2 0 2 2 4 pki addresses) λ (onion, _).
        Rand.◌>>=◌ (lift (tag_header onion))
          λ tagged. lift (refused_by (Format.new p pki 2) private_keys addresses 0 tagged)

    unfoldable pub forward_tagging_foiled : Rand p.Rng (Unit {0})
    unfolding formed Format.new tag_forward refused_by
    forward_tagging_foiled = Rand.◌>>=◌ (formed b p 2 0 2 2 4 pki addresses) λ (onion, _).
        Rand.◌>>=◌ (lift (tag_forward onion))
          λ tagged. lift (refused_by (Format.new p pki 2) private_keys addresses 0 tagged)

    unfoldable pub backward_tagging : Rand p.Rng (Unit {0})
    unfolding formed Format.new backward_tagging_trip
    backward_tagging = Rand.◌>>=◌ (formed b p 2 0 2 2 4 pki addresses) λ (onion, expected).
        lift (backward_tagging_trip (Format.new p pki 2) private_keys addresses onion expected)
