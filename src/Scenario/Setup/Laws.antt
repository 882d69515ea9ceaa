-- ===== src/Scenario/Setup/Laws.antt =====
-- The two maps of `keysetup` belong together.
use eror.Prelude.{
  ℕ, zero, suc, ◌≡◌, refl, ap, ◌∙◌, Bool, true, false, Option, some, if◌then◌else◌, sym,
}
use eror.Bytes.{array_eq}
use eror.Serde.{Bincode}
use eror.Primitives.Ec.{Crates, generate_keypair}
use eror.Pki
use eror.Pki.{Address, Pki, map_get, map_insert}
use eror.Pki.Laws.{get-insert, get-new, map_get-map_insert}
use eror.Scenario.Setup.{Keys, add_node, add_nodes, no_nodes, keysetup}
use mathlib.Core.Option

module _ (b : Bincode) (c : Crates) where
  -- Every public key in the store belongs to the private key of the same address, and there are no
  -- others.
  abbrev pub ArePaired : Keys b c → Type 0
  ArePaired (pki, private_keys) =
      (a : Address) → Pki.get pki a ≡ Option.map c.basepoint_mul (map_get private_keys a)

  map_branches :
      {o : Option c.EdwardsPoint} (here : Bool) (o' : Option c.Scalar) (sk : c.Scalar)
      → o ≡ Option.map c.basepoint_mul o'
      → (if here then some (c.basepoint_mul sk) else o)
        ≡ Option.map c.basepoint_mul (if here then some sk else o')
  map_branches true o' sk e = refl
  map_branches false o' sk e = e

  add_node-ArePaired :
      (keys : Keys b c) (r : c.Rng) → ArePaired keys → ArePaired (add_node b c keys r).0
  unfolding add_node generate_keypair
  add_node-ArePaired (pki, private_keys) r paired a =
      let address = (c.gen_array 32 r).0 in
      let sk = (c.random_scalar (c.gen_array 32 r).1).0 in
      (get-insert pki address (c.basepoint_mul sk)).1 a
      ∙ map_branches (array_eq address a) (map_get private_keys a) sk (paired a)
      ∙ ap (Option.map c.basepoint_mul) (sym (map_get-map_insert private_keys address a sk))

  add_nodes-ArePaired :
      (n : ℕ) (keys : Keys b c) (r : c.Rng) → ArePaired keys → ArePaired (add_nodes b c n keys r).0
  unfolding add_nodes
  add_nodes-ArePaired zero keys r paired = paired
  add_nodes-ArePaired (suc n) keys r paired =
      let (keys', r') = add_node b c keys r in
      add_nodes-ArePaired n keys' r' (add_node-ArePaired keys r paired)

  -- After any number of rounds, from no entries on, the key store holds for each address the public
  -- key that belongs to the private key of that address, and nothing for any other address; so does
  -- the one of `keysetup`.
  pub keysetup-ArePaired :
      (n : ℕ) (r : c.Rng)
      → ArePaired (add_nodes b c n (no_nodes b c) r).0 × ArePaired (keysetup b c r).0
  unfolding keysetup no_nodes map_get
  keysetup-ArePaired n r = (
    add_nodes-ArePaired n (no_nodes b c) r (λ a. get-new a),
    add_nodes-ArePaired 20 (no_nodes b c) r (λ a. get-new a),
  )
