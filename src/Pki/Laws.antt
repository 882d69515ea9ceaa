-- ===== src/Pki/Laws.antt =====
-- The key store as a partial function from addresses to keys.
use eror.Prelude.{none, some, List, [], ◌∷◌, if◌then◌else◌, ◌≡◌, refl, arith}
use eror.Bytes.{array_eq}
use eror.Bytes.Laws.{array_eq_refl, array_eq_sound}
use eror.Pki.{Address, Pki, map_get, map_insert, new, insert, get}

module _ {K : Type 0} where
  -- `ground` is given what the comparison of each pair of addresses means.
  pub map_get-map_insert :
      (m : List (Address × K)) (a b : Address) (key : K)
      → map_get (map_insert m a key) b ≡ (if array_eq a b then some key else map_get m b)
  unfolding map_get map_insert
  map_get-map_insert [] a b key = refl
  map_get-map_insert ((j, k) ∷ m) a b key = ground (
    arith,
    array_eq_sound j a,
    array_eq_sound a b,
    array_eq_sound j b,
    array_eq_refl a,
    map_get-map_insert m a b key,
  )

  -- After an insertion the address reads back the key just given and every other address reads as
  -- before, and the call returns the key that the address had until then.
  pub get-insert :
      (pki : Pki K) (a : Address) (key : K)
      → ((insert pki a key).0 ≡ get pki a)
        × ((b : Address)
            → get (insert pki a key).1 b ≡ (if array_eq a b then some key else get pki b))
  unfolding insert get
  get-insert pki a key = (refl, λ b. map_get-map_insert pki.keys a b key)

  pub get-new : (a : Address) → get {PublicKey = K} new a ≡ none
  unfolding new get map_get
  get-new a = refl
