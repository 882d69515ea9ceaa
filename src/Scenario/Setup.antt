-- ===== src/Scenario/Setup.antt =====
-- The keys of the tests and examples: src/lib.rs (`keysetup`), and the same loop in
-- examples/create_onion.rs and examples/onion_sizes.rs.
pub mod Laws
use eror.Prelude.{ℕ, zero, suc, List, [], ◌∷◌}
use eror.Bytes.{Byte}
use eror.Serde.{Bincode}
use eror.Primitives.Ec.{Crates, generate_keypair}
use eror.Pki
use eror.Pki.{Address, Pki, map_insert}

module _ (b : Bincode) (c : Crates) where
  -- The key store, and the private keys by address.
  abbrev pub Keys : Type 0
  Keys = Pki c.EdwardsPoint × List (Address × c.Scalar)

  -- One round: an address and a key pair are drawn, and both maps get an entry.
  unfoldable pub add_node : Keys → c.Rng → Keys × c.Rng
  unfolding generate_keypair Pki.insert map_insert
  add_node (pki, private_keys) r =
      let (address, r1) = c.gen_array 32 r in
      let ((sk, pk), r2) = generate_keypair b c r1 in
      (((Pki.insert pki address pk).1, map_insert private_keys address sk), r2)

  unfoldable pub add_nodes : ℕ → Keys → c.Rng → Keys × c.Rng
  unfolding add_node
  add_nodes zero keys r = (keys, r)
  add_nodes (suc n) keys r = let (keys', r') = add_node keys r in add_nodes n keys' r'

  unfoldable pub no_nodes : Keys
  unfolding Pki.new
  no_nodes = (Pki.new, [])

  unfoldable pub keysetup : c.Rng → Keys × c.Rng
  unfolding add_nodes no_nodes
  keysetup r = add_nodes 20 no_nodes r
