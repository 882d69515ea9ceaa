-- ===== src/Bytes.antt =====
-- `u8`, `[u8; N]` and `to_le_bytes`: the byte types of the standard language, which every part of
-- the crate uses. A byte is its eight bits, lowest first.
pub mod Laws
use eror.Prelude.{
  ℕ, zero, suc, ◌+◌, ◌*◌, ◌/◌, ◌%◌, ◌≡◌, Bool, true, false, List, [], ◌∷◌, arith, ◌==◌, length,
  replicate, length-replicate, min, ◌&&◌,
}
use mathlib.Core.Bool.{xor, decide}

pub data Byte : Type 0 where
  bits : (b0 b1 b2 b3 b4 b5 b6 b7 : Bool) → Byte

-- `n as u8`
unfoldable pub byte : ℕ → Byte
byte n =
    bits (n % 2 == 1) (n / 2 % 2 == 1) (n / 4 % 2 == 1) (n / 8 % 2 == 1) (n / 16 % 2 == 1)
      (n / 32 % 2 == 1) (n / 64 % 2 == 1) (n / 128 % 2 == 1)

abbrev pub bit_value : Bool → ℕ
bit_value true = 1
bit_value false = 0

unfoldable pub value : Byte → ℕ
value (bits b0 b1 b2 b3 b4 b5 b6 b7) =
    bit_value b0
    + 2 * bit_value b1
    + 4 * bit_value b2
    + 8 * bit_value b3
    + 16 * bit_value b4
    + 32 * bit_value b5
    + 64 * bit_value b6
    + 128 * bit_value b7

-- `a ^ b`
unfoldable pub xor_byte : Byte → Byte → Byte
xor_byte (bits a0 a1 a2 a3 a4 a5 a6 a7) (bits b0 b1 b2 b3 b4 b5 b6 b7) =
    bits (xor a0 b0) (xor a1 b1) (xor a2 b2) (xor a3 b3) (xor a4 b4) (xor a5 b5) (xor a6 b6)
      (xor a7 b7)

pub Byte-discrete : Discrete Byte
Byte-discrete = hlevel

-- `n.to_le_bytes()` for a word of `w` bytes
unfoldable pub le_bytes : ℕ → ℕ → List Byte
le_bytes zero n = []
le_bytes (suc w) n = byte (n % 256) ∷ le_bytes w (n / 256)

-- `vec![0; n]`
unfoldable pub zeros : ℕ → List Byte
unfolding byte
zeros n = replicate n (byte 0)

-- `[u8; n]`
pub record Array (n : ℕ) : Type 0 where
  pub bytes : List Byte
  pub sized : length bytes ≡ n

unfoldable pub zero_array : (n : ℕ) → Array n
unfolding zeros
zero_array n = record { bytes = zeros n; sized = length-replicate n (byte 0) }

-- `slice.try_into()` for an array type: the length has to be right.
unfoldable pub array_of : {n : ℕ} (xs : List Byte) → length xs ≡ n → Array n
array_of xs e = record { bytes = xs; sized = e }

-- `a == b`
unfoldable pub bytes_eq : List Byte → List Byte → Bool
unfolding Byte-discrete
bytes_eq [] [] = true
bytes_eq [] (b ∷ bs) = false
bytes_eq (a ∷ as') [] = false
bytes_eq (a ∷ as') (b ∷ bs) = decide (Byte-discrete a b) && bytes_eq as' bs

unfoldable pub array_eq : {n : ℕ} → Array n → Array n → Bool
unfolding bytes_eq
array_eq a b = bytes_eq a.bytes b.bytes

-- `a.iter().zip(b.iter()).map(|(a, b)| a ^ b)`: as long as the shorter one.
unfoldable pub xor_list : List Byte → List Byte → List Byte
unfolding xor_byte
xor_list [] bs = []
xor_list (a ∷ as') [] = []
xor_list (a ∷ as') (b ∷ bs) = xor_byte a b ∷ xor_list as' bs

length-xor_list : (xs ys : List Byte) → length (xor_list xs ys) ≡ min (length xs) (length ys)
unfolding xor_list
length-xor_list [] ys = omega arith
length-xor_list (x ∷ xs) [] = omega arith
length-xor_list (x ∷ xs) (y ∷ ys) = omega (arith, length-xor_list xs ys)

pub length-xor_array : {n : ℕ} (a b : Array n) → length (xor_list a.bytes b.bytes) ≡ n
length-xor_array a b = omega (arith, length-xor_list a.bytes b.bytes, a.sized, b.sized)

-- The xor of two arrays, collected and converted back.
unfoldable pub xor_array : {n : ℕ} → Array n → Array n → Array n
unfolding xor_list
xor_array a b = array_of (xor_list a.bytes b.bytes) (length-xor_array a b)
