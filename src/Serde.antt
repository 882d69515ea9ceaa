-- ===== src/Serde.antt =====
-- How values become bytes: `Serialize` and `Deserialize` as one codec for a type, and `bincode`,
-- the format that every `bincode::serialize` and `bincode::deserialize` of the crate goes through.
-- `bincode` is a dependency, so its encodings of the basic shapes are a parameter; what its
-- documentation promises (each value reads back, with the bytes that follow left over, and the
-- fixed sizes) is the record `IsBincode`.
pub mod Laws
use eror.Prelude.{ℕ, ◌+◌, ◌*◌, ◌^◌, ◌<◌, ◌≡◌, ◌++◌, List, Option, none, some, length, map, All}
use eror.Prelude.Outcome.{Outcome, ok, err, serialization_error}
use eror.Bytes.{Byte, Array}

-- `read` returns the value and the bytes behind it.
pub record Codec (A : Type 0) : Type 0 where
  pub write : A → List Byte
  pub read : List Byte → Option (A × List Byte)

-- Every valid value reads back, whatever follows it.
abbrev pub RoundTrips : {A : Type 0} → Codec A → (A → Type 0) → Type 0
RoundTrips {A} c Valid =
    (a : A) (rest : List Byte) → Valid a → c.read (c.write a ++ rest) ≡ some (a, rest)

abbrev pub AnyValue : {A : Type 0} → A → Type 0
AnyValue a = Unit {0}

-- Shorter than an address space.
abbrev pub IsSmall : List Byte → Type 0
IsSmall bs = length bs < 2 ^ 64

-- The shapes of the serde data model that the crate uses.
pub record Bincode : Type 1 where
  pub u64 : Codec ℕ
  pub variant : Codec ℕ
  pub array : (n : ℕ) → Codec (Array n)
  pub byte_vec : Codec (List Byte)
  pub vec : {A : Type 0} → Codec A → Codec (List A)
  pub pair : {A B : Type 0} → Codec A → Codec B → Codec (A × B)

pub record IsBincode (b : Bincode) : Type 1 where
  pub read-u64 : RoundTrips b.u64 (λ n. n < 2 ^ 64)
  pub read-variant : RoundTrips b.variant (λ n. n < 2 ^ 32)
  pub read-array : (n : ℕ) → RoundTrips (b.array n) AnyValue
  pub read-byte_vec : RoundTrips b.byte_vec (λ xs. length xs < 2 ^ 64)
  pub read-vec :
      {A : Type 0} (c : Codec A) (Valid : A → Type 0)
      → RoundTrips c Valid
      → RoundTrips (b.vec c) (λ xs. All Valid xs × (length xs < 2 ^ 64))
  pub read-pair :
      {A B : Type 0} (c : Codec A) (d : Codec B) (Valid : A → Type 0) (Valid' : B → Type 0)
      → RoundTrips c Valid
      → RoundTrips d Valid'
      → RoundTrips (b.pair c d) (λ p. Valid p.0 × Valid' p.1)
  pub size-u64 : (n : ℕ) → length (b.u64.write n) ≡ 8
  pub size-variant : (n : ℕ) → length (b.variant.write n) ≡ 4
  -- a byte is written as itself, and a fixed size has no prefix
  pub write-array : (n : ℕ) (a : Array n) → (b.array n).write a ≡ a.bytes
  -- a pair is its parts, and a vector its length and then its values, each as its type writes it
  pub write-pair :
      {A B : Type 0} (c : Codec A) (d : Codec B) (p : A × B)
      → (b.pair c d).write p ≡ c.write p.0 ++ d.write p.1
  pub write-vec-map :
      {A : Type 0} (c : Codec A) (g : A → A) (xs : List A)
      → ((a : A) → c.write (g a) ≡ c.write a)
      → (b.vec c).write (map g xs) ≡ (b.vec c).write xs
  pub size-byte_vec : (xs : List Byte) → length (b.byte_vec.write xs) ≡ 8 + length xs
  pub size-vec :
      {A : Type 0} (c : Codec A) (n : ℕ) (xs : List A)
      → All (λ a. length (c.write a) ≡ n) xs
      → length ((b.vec c).write xs) ≡ 8 + length xs * n
  pub size-pair :
      {A B : Type 0} (c : Codec A) (d : Codec B) (p : A × B)
      → length ((b.pair c d).write p) ≡ length (c.write p.0) + length (d.write p.1)

-- A type that is serialised as another one: `to` goes out, `from` comes back and may refuse.
unfoldable pub via : {A B : Type 0} → Codec B → (A → B) → (B → Option A) → Codec A
via c to from = record {
  write = λ a. c.write (to a);
  read = λ bs. elim (c.read bs) [
    | none ↦ none
    | some (b, rest) ↦ elim (from b) [ none ↦ none | some a ↦ some (a, rest) ]
  ];
}

-- `bincode::deserialize(data)`: trailing bytes are allowed.
unfoldable pub deserialize : {A : Type 0} → Codec A → List Byte → Outcome A
deserialize c bs = elim (c.read bs) [ none ↦ err serialization_error | some (a, _) ↦ ok a ]
