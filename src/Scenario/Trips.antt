-- ===== src/Scenario/Trips.antt =====
-- src/lib.rs: `test_direct`, `test_single_between` and `test_serialize_deserialize`, behind
-- `keysetup`.

pub mod AtOnce
pub mod Wire
pub mod Passing
use eror.Prelude.{ℕ, Bool, not, List, Option}
use eror.Prelude.Outcome.{Outcome, ok, index, assert, ◌>>=◌, ◌>>◌}
use eror.Prelude.Rand
use eror.Prelude.Rand.{Rand, lift}
use eror.Bytes.{bytes_eq, array_eq}
use eror.Serde.{Bincode}
use eror.Primitives.{Primitives}
use eror.Pki.{Address, Pki}
use eror.Onion.{Onion, onion_eq}
use eror.Format
use eror.Format.{OnionFormat}
use eror.Process.{ExpectedResponse}
use eror.Scenario.{payload, reply_payload}
use eror.Scenario.Formed.{formed}
use eror.Scenario.Steps.{through_hop, at_receiver, reply_from, at_sender, over_wire}

module _ (b : Bincode) (p : Primitives) where
  module _ (f : OnionFormat p) (private_keys : List (Address × p.PrivateKey))
      (addresses : List Address) (onion : Onion p) (expected : ExpectedResponse p) where
    unfoldable pub direct_trip : Outcome (Unit {0})
    unfolding at_receiver reply_from at_sender bytes_eq array_eq
    direct_trip = do
      assert (not (bytes_eq onion.forward payload))
      message ← at_receiver b p f private_keys addresses 0 onion
      assert (bytes_eq message payload)
      (onion1, next_hop) ← reply_from b p f private_keys addresses 0 onion
      address ← index addresses 1
      assert (array_eq next_hop address)
      answer ← at_sender b p f private_keys addresses 1 expected.tag onion1
      assert (bytes_eq answer reply_payload)

    unfoldable pub single_between_trip : Outcome (Unit {0})
    unfolding through_hop at_receiver reply_from at_sender bytes_eq array_eq
    single_between_trip = do
      assert (not (bytes_eq onion.forward payload))
      (next, onion1) ← through_hop b p f private_keys addresses 0 onion
      address_1 ← index addresses 1
      assert (array_eq next address_1)
      message ← at_receiver b p f private_keys addresses 1 onion1
      assert (bytes_eq message payload)
      (onion2, next_hop) ← reply_from b p f private_keys addresses 1 onion1
      address_2 ← index addresses 2
      assert (array_eq next_hop address_2)
      (next', onion3) ← through_hop b p f private_keys addresses 2 onion2
      address_3 ← index addresses 3
      assert (array_eq next' address_3)
      answer ← at_sender b p f private_keys addresses 3 expected.tag onion3
      assert (bytes_eq answer reply_payload)

    -- Both onions go over the wire.
    unfoldable pub wire_trip : Outcome (Unit {0})
    unfolding over_wire onion_eq at_receiver reply_from at_sender bytes_eq array_eq
    wire_trip = do
      onion0 ← over_wire b p onion
      assert (onion_eq b p onion0 onion)
      message ← at_receiver b p f private_keys addresses 0 onion0
      assert (bytes_eq message payload)
      (onion1, next_hop) ← reply_from b p f private_keys addresses 0 onion0
      address ← index addresses 1
      assert (array_eq next_hop address)
      onion2 ← over_wire b p onion1
      answer ← at_sender b p f private_keys addresses 1 expected.tag onion2
      assert (bytes_eq answer reply_payload)

  module _ (pki : Pki p.PublicKey) (private_keys : List (Address × p.PrivateKey))
      (addresses : List Address) where
    unfoldable pub direct : Rand p.Rng (Unit {0})
    unfolding formed Format.new direct_trip
    direct = Rand.◌>>=◌ (formed b p 1 0 1 1 2 pki addresses) λ (onion, expected).
        lift (direct_trip (Format.new p pki 1) private_keys addresses onion expected)

    unfoldable pub single_between : Rand p.Rng (Unit {0})
    unfolding formed Format.new single_between_trip
    single_between = Rand.◌>>=◌ (formed b p 2 0 2 2 4 pki addresses) λ (onion, expected).
        lift (single_between_trip (Format.new p pki 2) private_keys addresses onion expected)

    unfoldable pub serialize_deserialize : Rand p.Rng (Unit {0})
    unfolding formed Format.new wire_trip
    serialize_deserialize = Rand.◌>>=◌ (formed b p 1 0 1 1 2 pki addresses) λ (onion, expected).
        lift (wire_trip (Format.new p pki 1) private_keys addresses onion expected)
