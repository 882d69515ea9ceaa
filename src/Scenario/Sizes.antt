-- ===== src/Scenario/Sizes.antt =====
-- src/lib.rs: `test_size_independent_of_path` and `test_reply_same_size`, behind `keysetup`, and
-- examples/onion_sizes.rs.
pub mod Same
pub mod Passing
pub mod Generated
use eror.Prelude.{
  ℕ, zero, suc, ◌+◌, ◌*◌, ◌-◌, ◌==◌, List, [], ◌∷◌, Option, none, some, length, leb, if◌then◌else◌,
}
use eror.Prelude.Outcome
use eror.Prelude.Outcome.{Outcome, ok, assert}
use eror.Prelude.Rand
use eror.Prelude.Rand.{Rand, lift, draw, pure}
use eror.Bytes.{Byte, zeros}
use eror.Serde.{Bincode}
use eror.Primitives.{Primitives}
use eror.Primitives.Ec.{Crates, ec_primitives}
use eror.Pki.{Address, Pki}
use eror.Onion.{Onion}
use eror.Format
use eror.Format.{OnionFormat}
use eror.Process.{form_onion}
use eror.Scenario.{slice, unwrap_rand, map_keys}
use eror.Scenario.Setup.{add_nodes, no_nodes}
use eror.Scenario.Sphinx.{Sphinx, sphinx_column}
use eror.Scenario.Formed.{formed}
use eror.Scenario.Steps.{through_hop, at_receiver, reply_from, onion_size}

module _ (b : Bincode) (p : Primitives) where
  module _ (pki : Pki p.PublicKey) (private_keys : List (Address × p.PrivateKey))
      (addresses : List Address) where
    unfoldable pub size_independent_of_path : Rand p.Rng (Unit {0})
    unfolding formed onion_size
    size_independent_of_path = Rand.◌>>=◌ (formed b p 10 0 1 1 2 pki addresses) λ (onion_1_1, _).
        Rand.◌>>=◌ (formed b p 10 0 5 5 10 pki addresses) λ (onion_5_5, _).
          Rand.◌>>=◌ (formed b p 10 0 1 2 7 pki addresses) λ (onion_1_5, _).
            Rand.◌>>=◌ (formed b p 10 0 5 5 6 pki addresses) λ (onion_5_1, _). lift (
              Outcome.◌>>◌ (assert (onion_size b p onion_1_1 == onion_size b p onion_5_5)) (
                Outcome.◌>>◌ (assert (onion_size b p onion_1_1 == onion_size b p onion_1_5))
                  (assert (onion_size b p onion_1_1 == onion_size b p onion_5_1))))

    unfoldable pub same_size_trip : OnionFormat p → Onion p → Outcome (Unit {0})
    unfolding through_hop at_receiver reply_from onion_size
    same_size_trip f onion =
        let first_size = onion_size b p onion in
        Outcome.◌>>=◌ (through_hop b p f private_keys addresses 0 onion) λ (_, onion1).
          Outcome.◌>>◌ (assert (onion_size b p onion1 == first_size)) (
            Outcome.◌>>=◌ (at_receiver b p f private_keys addresses 1 onion1) λ _.
              Outcome.◌>>=◌ (reply_from b p f private_keys addresses 1 onion1) λ (onion2, _).
                Outcome.◌>>◌ (assert (onion_size b p onion2 == first_size)) (
                  Outcome.◌>>=◌ (through_hop b p f private_keys addresses 2 onion2)
                    λ (_, onion3). assert (onion_size b p onion3 == first_size)))

    unfoldable pub reply_same_size : Rand p.Rng (Unit {0})
    unfolding formed Format.new same_size_trip
    reply_same_size =
        Rand.◌>>=◌ (formed b p 2 0 2 2 4 pki addresses)
          λ (onion, _). lift (same_size_trip (Format.new p pki 2) onion)

  -- `generate_onion` of the example behind its key setup; `&addresses[path_lengths..]` goes to the
  -- end.
  unfoldable pub onion_for : ℕ → ℕ → Pki p.PublicKey → List Address → Rand p.Rng (Onion p)
  unfolding Format.new slice form_onion zeros
  onion_for path_lengths payload_size pki addresses =
      Rand.◌>>=◌ (lift (slice addresses 0 path_lengths)) λ hops_forward.
        Rand.◌>>=◌ (lift (slice addresses path_lengths (length addresses))) λ hops_backward.
          Rand.◌>>=◌
            (unwrap_rand (
              form_onion b p (Format.new p pki path_lengths) hops_forward hops_backward
                (zeros payload_size)))
            λ (onion, _). pure onion

module _ (b : Bincode) (c : Crates) where
  unfoldable pub generate_onion :
      (List Address → List Address) → ℕ → ℕ → Rand c.Rng (Onion (ec_primitives b c))
  unfolding add_nodes no_nodes map_keys onion_for ec_primitives
  generate_onion order path_lengths payload_size =
      Rand.◌>>=◌ (draw (add_nodes b c (2 * path_lengths) (no_nodes b c))) λ (pki, _).
        onion_for b (ec_primitives b c) path_lengths payload_size pki (order (map_keys pki.keys))

  -- A line of the table: path length, payload size, size of the onion, size of the Sphinx packet.
  abbrev pub Row : Type 0
  Row = ℕ × ℕ × ℕ × Option ℕ

  -- The loop of `main`; the Sphinx crate is a parameter.
  unfoldable pub onion_sizes :
      (List Address → List Address) → Sphinx c.Rng → ℕ → List ℕ → Rand c.Rng (List Row)
  unfolding generate_onion onion_size sphinx_column
  onion_sizes order s path_length [] = pure []
  onion_sizes order s path_length (payload_size ∷ payload_sizes) =
      Rand.◌>>=◌ (generate_onion order path_length payload_size) λ onion.
        Rand.◌>>=◌ (sphinx_column c s path_length payload_size) λ sphinx.
          Rand.◌>>=◌ (onion_sizes order s path_length payload_sizes) λ rows.
            pure
              ((path_length, payload_size, onion_size b (ec_primitives b c) onion, sphinx) ∷ rows)

  unfoldable pub onion_sizes_main :
      (List Address → List Address) → Sphinx c.Rng → ℕ → Rand c.Rng (List Row)
  unfolding onion_sizes
  onion_sizes_main order s path_length =
      onion_sizes order s path_length (0 ∷ 128 ∷ 256 ∷ 512 ∷ 1024 ∷ 2048 ∷ 4096 ∷ [])
