-- ===== src/Scenario.antt =====
-- The tests of src/lib.rs and src/primitives.rs and the examples as programs over the modelled
-- operations: what they share. A failed assertion and an `unwrap` of an error are panics.
pub mod Setup
pub mod Members
pub mod Formed
pub mod Network
pub mod Steps
pub mod Between
pub mod Trips
pub mod Attacks
pub mod Sphinx
pub mod Sizes
pub mod Suite
pub mod Crypto
use eror.Prelude.{
  ℕ, zero, suc, ◌+◌, ◌-◌, ◌≡◌, Bool, true, false, ◌&&◌, List, [], ◌∷◌, Option, none, some, map,
  length, take, drop, leb, if◌then◌else◌,
}
use eror.Prelude.Outcome.{Outcome, ok, err, panic, index, or_panic, ◌>>=◌}
use eror.Prelude.Rand.{Rand}
use eror.Bytes.{Byte, byte}
use eror.Primitives.{Primitives}
use eror.Pki.{Address, map_get}
use eror.Onion.{Onion}
use eror.Process.{ProcessedOnion, hop, receiver, sender}

-- `const PAYLOAD: &[u8] = b"foo bar"` and `const REPLY_PAYLOAD: &[u8] = b"rab oof"`
abbrev pub payload : List Byte
payload = map byte (102 ∷ 111 ∷ 111 ∷ 32 ∷ 98 ∷ 97 ∷ 114 ∷ [])

abbrev pub reply_payload : List Byte
reply_payload = map byte (114 ∷ 97 ∷ 98 ∷ 32 ∷ 111 ∷ 111 ∷ 102 ∷ [])

module _ {A : Type 0} where
  -- `r.unwrap()` of a result
  abbrev pub unwrap_result : Outcome A → Outcome A
  unwrap_result (ok a) = ok a
  unwrap_result (err _) = panic
  unwrap_result panic = panic

  -- `&xs[i..j]`
  unfoldable pub slice : List A → ℕ → ℕ → Outcome (List A)
  slice xs i j = if leb i j && leb j (length xs) then ok (take (j - i) (drop i xs)) else panic

-- `m.unwrap()` of a call that draws
abbrev pub unwrap_rand : {S A : Type 0} → Rand S A → Rand S A
unwrap_rand m s = unwrap_result (m s)

module _ {K : Type 0} where
  -- `&private_keys[&address]`
  unfoldable pub key_of : List (Address × K) → Address → Outcome K
  unfolding map_get
  key_of private_keys address = or_panic (map_get private_keys address)

  -- `&private_keys[&addresses[i]]`
  unfoldable pub key_at : List (Address × K) → List Address → ℕ → Outcome K
  unfolding key_of
  key_at private_keys addresses i = index addresses i >>= key_of private_keys

  -- The private key of every address is at hand.
  abbrev pub HasKey : List (Address × K) → (Address → K) → Address → Type 0
  HasKey private_keys sk a = map_get private_keys a ≡ some (sk a)

  -- `private_keys.keys()`, in the order of insertion
  unfoldable pub map_keys : List (Address × K) → List Address
  map_keys [] = []
  map_keys ((a, k) ∷ m) = a ∷ map_keys m

module _ {p : Primitives} where
  -- `if let ProcessedOnion::Hop { .. } = proc { .. } else { panic!(..) }`, and the other variants
  unfoldable pub as_hop : ProcessedOnion p → Outcome (Address × Onion p)
  as_hop (hop next onion) = ok (next, onion)
  as_hop _ = panic

  unfoldable pub as_receiver : ProcessedOnion p → Outcome (List Byte)
  as_receiver (receiver message) = ok message
  as_receiver _ = panic

  unfoldable pub as_sender : ProcessedOnion p → Outcome (List Byte)
  as_sender (sender message) = ok message
  as_sender _ = panic
