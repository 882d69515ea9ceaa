-- ===== src/Pki.antt =====
-- src/pki.rs: the mock public key infrastructure, a hash map from addresses to public keys. The
-- map is the standard library's, kept as an association list with one entry for each address.
pub mod Laws
use eror.Prelude.{Bool, Option, none, some, List, [], ◌∷◌, if◌then◌else◌}
use eror.Bytes.{Array, array_eq}

-- `type Address = [u8; 32]`, src/lib.rs.
abbrev pub Address : Type 0
Address = Array 32

pub record Pki (PublicKey : Type 0) : Type 0 where
  pub keys : List (Address × PublicKey)

module _ {PublicKey : Type 0} where
  -- `HashMap::get` and `HashMap::insert`, the latter with the value that it replaces.
  unfoldable pub map_get : List (Address × PublicKey) → Address → Option PublicKey
  map_get [] a = none
  map_get ((j, k) ∷ m) a = if array_eq j a then some k else map_get m a

  unfoldable pub map_insert :
      List (Address × PublicKey) → Address → PublicKey → List (Address × PublicKey)
  map_insert [] a key = (a, key) ∷ []
  map_insert ((j, k) ∷ m) a key = if array_eq j a then (a, key) ∷ m else (j, k) ∷ map_insert m a key

  unfoldable pub new : Pki PublicKey
  new = record { keys = [] }

  unfoldable pub insert : Pki PublicKey → Address → PublicKey → Option PublicKey × Pki PublicKey
  unfolding map_get map_insert
  insert pki address key =
      (map_get pki.keys address, record { keys = map_insert pki.keys address key })

  unfoldable pub get : Pki PublicKey → Address → Option PublicKey
  unfolding map_get
  get pki address = map_get pki.keys address
