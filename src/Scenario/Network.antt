-- ===== src/Scenario/Network.antt =====
-- The loops in which an onion is handed from node to node until its reply is back:
-- examples/create_onion.rs (`main`), and src/lib.rs (`test_long_path_between`,
-- `test_final_onion_as_expected`). A round is bounded by fuel, and `none` says that it ran out.

pub mod Rounds
pub mod Completes
pub mod Passing
use eror.Prelude.{
  ℕ, zero, suc, Bool, true, false, ◌&&◌, List, [], ◌∷◌, ◌++◌, Option, none, some, map,
}
use eror.Prelude.Outcome
use eror.Prelude.Outcome.{Outcome, ok, panic, assert, index, or_panic}
use eror.Prelude.Rand.{Rand, lift, draw, pure, ◌>>=◌, ◌>>◌}
use eror.Bytes.{Byte, byte, bytes_eq}
use eror.Serde.{Bincode}
use eror.Primitives.{Primitives}
use eror.Primitives.Ec.{Crates, ec_primitives}
use eror.Pki.{Address, Pki}
use eror.Onion.{Onion, headers_eq}
use eror.Format
use eror.Format.{OnionFormat}
use eror.Process.{
  ProcessedOnion, hop, receiver, sender, ExpectedResponse, proc_onion, proc_onion_without_reply,
  reply_onion, form_onion,
}
use eror.Process.Return.{expects}
use eror.Scenario.{payload, reply_payload, slice, unwrap_result, unwrap_rand, key_of, map_keys}
use eror.Scenario.Formed.{formed}
use eror.Scenario.Setup.{Keys, add_nodes, no_nodes, keysetup}

-- A line of output of the example.
pub data Line : Type 0 where
  requesting : List Address → List Address → Line
  simulating : Address → Line
  sender_received receiver_received : List Byte → Line

module _ (b : Bincode) (p : Primitives) where
  -- The loop of the example; an error of a call ends it.
  unfoldable pub simulate :
      OnionFormat p
      → List (Address × p.PrivateKey)
      → ExpectedResponse p
      → List Byte
      → ℕ
      → List Line
      → Address
      → Onion p
      → Outcome (Option (List Line))
  unfolding key_of proc_onion reply_onion bytes_eq
  simulate f private_keys expected reply zero log address onion = ok none
  simulate f private_keys expected reply (suc fuel) log address onion =
      let log' = log ++ (simulating address ∷ []) in
      Outcome.◌>>=◌ (key_of private_keys address) λ private_key.
        Outcome.◌>>=◌
          (proc_onion b p f private_key (expects expected.identifier expected.tag) onion)
          λ proc. elim proc [
            | hop next onion' ↦ simulate f private_keys expected reply fuel log' next onion'
            | sender message ↦ ok (some (log' ++ (sender_received message ∷ [])))
            | receiver message ↦
                Outcome.◌>>=◌ (reply_onion b p f private_key onion reply) λ (onion', next).
                  simulate f private_keys expected reply fuel
                    (log' ++ (receiver_received message ∷ [])) next onion'
          ]

  -- The loop of `test_long_path_between`.
  unfoldable pub long_path_loop :
      OnionFormat p
      → List (Address × p.PrivateKey)
      → ExpectedResponse p
      → ℕ
      → Address
      → Onion p
      → Outcome (Option (Unit {0}))
  unfolding key_of proc_onion reply_onion bytes_eq
  long_path_loop f private_keys expected zero address onion = ok none
  long_path_loop f private_keys expected (suc fuel) address onion =
      Outcome.◌>>=◌ (key_of private_keys address) λ private_key.
        Outcome.◌>>=◌
          (unwrap_result
            (proc_onion b p f private_key (expects expected.identifier expected.tag) onion))
          λ proc. elim proc [
            | hop next onion' ↦ long_path_loop f private_keys expected fuel next onion'
            | sender message ↦ Outcome.◌>>◌ (assert (bytes_eq message reply_payload)) (ok (some tt))
            | receiver message ↦ Outcome.◌>>◌ (assert (bytes_eq message payload)) (
                Outcome.◌>>=◌ (unwrap_result (reply_onion b p f private_key onion reply_payload))
                  λ (onion', next). long_path_loop f private_keys expected fuel next onion')
          ]

  -- The loop of `test_final_onion_as_expected`, with its assertions on the onion that arrives.
  unfoldable pub final_onion_loop :
      OnionFormat p
      → List (Address × p.PrivateKey)
      → Onion p
      → ℕ
      → Address
      → Onion p
      → Outcome (Option (Unit {0}))
  unfolding key_of proc_onion_without_reply headers_eq bytes_eq
  final_onion_loop f private_keys final zero address onion = ok none
  final_onion_loop f private_keys final (suc fuel) address onion =
      Outcome.◌>>=◌ (key_of private_keys address) λ private_key.
        Outcome.◌>>=◌ (unwrap_result (proc_onion_without_reply b p f private_key onion)) λ proc.
          elim proc [
            | hop next onion' ↦ final_onion_loop f private_keys final fuel next onion'
            | sender _ ↦ panic
            | receiver _ ↦ Outcome.◌>>◌ (assert (headers_eq b p onion.header final.header)) (
                Outcome.◌>>◌ (assert (bytes_eq onion.forward final.forward)) (
                  Outcome.◌>>◌
                    (assert (
                      bytes_eq onion.backward.0 final.backward.0
                      && p.tag_eq onion.backward.1 final.backward.1))
                    (ok (some tt))))
          ]

  -- `test_long_path_between` and `test_final_onion_as_expected` behind `keysetup`.
  unfoldable pub long_path_between :
      ℕ
      → Pki p.PublicKey
      → List (Address × p.PrivateKey)
      → List Address
      → Rand p.Rng (Option (Unit {0}))
  unfolding formed long_path_loop Format.new
  long_path_between fuel pki private_keys addresses = do
    (onion, expected_reply) ← formed b p 10 0 10 10 20 pki addresses
    address ← lift (index addresses 0)
    lift (long_path_loop (Format.new p pki 10) private_keys expected_reply fuel address onion)

  unfoldable pub final_onion_as_expected :
      ℕ
      → Pki p.PublicKey
      → List (Address × p.PrivateKey)
      → List Address
      → Rand p.Rng (Option (Unit {0}))
  unfolding formed final_onion_loop Format.new
  final_onion_as_expected fuel pki private_keys addresses = do
    (onion, final_expectation) ← formed b p 10 0 10 10 20 pki addresses
    address ← lift (index addresses 0)
    lift (
        final_onion_loop (Format.new p pki 10) private_keys final_expectation.onion fuel address
          onion)

  -- `main` of the example behind its key setup, with the addresses in the order of its key store.
  unfoldable pub create_onion :
      ℕ
      → Pki p.PublicKey
      → List (Address × p.PrivateKey)
      → List Address
      → Rand p.Rng (Option (List Line))
  unfolding Format.new slice form_onion simulate
  create_onion fuel pki private_keys addresses = do
    let f = Format.new p pki 5
    hops_forward ← lift (slice addresses 0 5)
    hops_backward ← lift (slice addresses 5 10)
    let log = requesting hops_forward hops_backward ∷ []
    (onion, expected_reply) ←
        form_onion b p f hops_forward hops_backward
          (map byte (99 ∷ 114 ∷ 121 ∷ 112 ∷ 116 ∷ 111 ∷ []))
    address ← lift (index addresses 0)
    lift (
        simulate f private_keys expected_reply (map byte (114 ∷ 101 ∷ 112 ∷ 108 ∷ 121 ∷ 121 ∷ []))
          fuel log address onion)

module _ (b : Bincode) (c : Crates) where
  -- The whole programs. In which order a hash map lists its keys is not specified: `order` is any.
  unfoldable pub test_long_path_between :
      (List Address → List Address) → ℕ → Rand c.Rng (Option (Unit {0}))
  unfolding keysetup map_keys long_path_between ec_primitives
  test_long_path_between order fuel = do
    (pki, private_keys) ← draw (keysetup b c)
    long_path_between b (ec_primitives b c) fuel pki private_keys (order (map_keys private_keys))

  unfoldable pub test_final_onion_as_expected :
      (List Address → List Address) → ℕ → Rand c.Rng (Option (Unit {0}))
  unfolding keysetup map_keys final_onion_as_expected ec_primitives
  test_final_onion_as_expected order fuel = do
    (pki, private_keys) ← draw (keysetup b c)
    final_onion_as_expected b (ec_primitives b c) fuel pki private_keys
        (order (map_keys private_keys))

  unfoldable pub create_onion_main :
      (List Address → List Address) → ℕ → Rand c.Rng (Option (List Line))
  unfolding add_nodes no_nodes map_keys create_onion ec_primitives
  create_onion_main order fuel = do
    (pki, private_keys) ← draw (add_nodes b c 10 (no_nodes b c))
    create_onion b (ec_primitives b c) fuel pki private_keys (order (map_keys pki.keys))
