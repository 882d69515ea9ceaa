-- ===== src/Scenario/Suite.antt =====
-- src/lib.rs: the tests as a whole, each with its own keys from `keysetup`. In which order a hash map
-- lists its keys is not specified: `order` is any. (The two tests with a loop are in
-- `Scenario.Network`.)
use eror.Prelude.{List}
use eror.Prelude.Rand.{Rand, draw, ◌>>=◌}
use eror.Serde.{Bincode}
use eror.Primitives.Ec.{Crates, ec_primitives}
use eror.Pki.{Address, Pki}
use eror.Scenario.{map_keys}
use eror.Scenario.Setup.{keysetup}
use eror.Scenario.Trips.{direct, single_between, serialize_deserialize}
use eror.Scenario.Attacks.{
  wrong_key, header_tagging_foiled, forward_tagging_foiled, backward_tagging,
}
use eror.Scenario.Sizes.{size_independent_of_path, reply_same_size}

module _ (b : Bincode) (c : Crates) (order : List Address → List Address) where
  -- `let (pki, private_keys) = keysetup()` and `private_keys.keys()`
  unfoldable pub with_keys :
      (Pki c.EdwardsPoint → List (Address × c.Scalar) → List Address → Rand c.Rng (Unit {0}))
      → Rand c.Rng (Unit {0})
  unfolding keysetup map_keys
  with_keys body = draw (keysetup b c) >>= λ (pki, private_keys).
      body pki private_keys (order (map_keys private_keys))

  unfoldable pub test_direct : Rand c.Rng (Unit {0})
  unfolding with_keys direct ec_primitives
  test_direct = with_keys (direct b (ec_primitives b c))

  unfoldable pub test_single_between : Rand c.Rng (Unit {0})
  unfolding with_keys single_between ec_primitives
  test_single_between = with_keys (single_between b (ec_primitives b c))

  unfoldable pub test_wrong_key : Rand c.Rng (Unit {0})
  unfolding with_keys wrong_key ec_primitives
  test_wrong_key = with_keys (wrong_key b (ec_primitives b c))

  unfoldable pub test_header_tagging_foiled : Rand c.Rng (Unit {0})
  unfolding with_keys header_tagging_foiled ec_primitives
  test_header_tagging_foiled = with_keys (header_tagging_foiled b (ec_primitives b c))

  unfoldable pub test_forward_payload_tagging_foiled : Rand c.Rng (Unit {0})
  unfolding with_keys forward_tagging_foiled ec_primitives
  test_forward_payload_tagging_foiled = with_keys (forward_tagging_foiled b (ec_primitives b c))

  unfoldable pub test_backward_payload_tagging : Rand c.Rng (Unit {0})
  unfolding with_keys backward_tagging ec_primitives
  test_backward_payload_tagging = with_keys (backward_tagging b (ec_primitives b c))

  unfoldable pub test_size_independent_of_path : Rand c.Rng (Unit {0})
  unfolding with_keys size_independent_of_path ec_primitives
  test_size_independent_of_path = with_keys (size_independent_of_path b (ec_primitives b c))

  unfoldable pub test_serialize_deserialize : Rand c.Rng (Unit {0})
  unfolding with_keys serialize_deserialize ec_primitives
  test_serialize_deserialize = with_keys (serialize_deserialize b (ec_primitives b c))

  unfoldable pub test_reply_same_size : Rand c.Rng (Unit {0})
  unfolding with_keys reply_same_size ec_primitives
  test_reply_same_size = with_keys (reply_same_size b (ec_primitives b c))
