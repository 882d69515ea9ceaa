-- ===== src/Bytes/Laws.antt =====
-- Laws of bytes, arrays and little-endian words.
use eror.Bytes.{
  Byte, bits, byte, value, xor_byte, Byte-discrete, le_bytes, Array, array_of, bytes_eq, array_eq,
  xor_list, xor_array,
}
use eror.Prelude.{
  ℕ, zero, suc, ◌/◌, ◌%◌, ◌^◌, ◌<◌, ◌≡◌, refl, ap, ap₂, ◌∙◌, sym, Bool, true, List, [], ◌∷◌, arith,
  length, ◌&&◌, ◌==◌, ==_iff,
}
use native.Mathlib.Nat.{ℕ_set, pow-suc}
use mathlib.Core.Bool.{xor, decide_iff}
use mathlib.Core.HLevel.{is_prop→PathP}

has_value : ℕ → Bool
has_value n = value (byte n) == n

-- Every byte below `n` has its own value.
values_below : ℕ → Bool
values_below zero = true
values_below (suc n) = values_below n && has_value n

has_value_below : (n m : ℕ) → values_below n ≡ true → m < n → has_value m ≡ true
unfolding values_below
has_value_below zero m table small = absurd (omega arith)
has_value_below (suc n) m table small = ground (arith, has_value_below n m)

bytes_have_values : values_below 256 ≡ true
unfolding values_below has_value value byte
bytes_have_values = refl

pub value-byte : (n : ℕ) → n < 256 → value (byte n) ≡ n
unfolding has_value
value-byte n small = (==_iff _ n).0 (has_value_below 256 n bytes_have_values small)

pub byte-injective : (m n : ℕ) → m < 256 → n < 256 → byte m ≡ byte n → m ≡ n
byte-injective m n hm hn e = sym (value-byte m hm) ∙ ap value e ∙ value-byte n hn

pub cons-head : {a b : Byte} {as' bs : List Byte} → (a ∷ as') ≡ (b ∷ bs) → a ≡ b
cons-head e = cc

pub cons-tail : {a b : Byte} {as' bs : List Byte} → (a ∷ as') ≡ (b ∷ bs) → as' ≡ bs
cons-tail e = cc

-- Two words of `w` bytes with the same little-endian bytes are the same word.
pub le_bytes-injective :
    (w m n : ℕ) → m < 256 ^ w → n < 256 ^ w → le_bytes w m ≡ le_bytes w n → m ≡ n
unfolding le_bytes
le_bytes-injective zero m n hm hn e = omega arith
le_bytes-injective (suc w) m n hm hn e =
    let low : m % 256 ≡ n % 256 = byte-injective _ _ (omega arith) (omega arith) (cons-head e) in
    let high : m / 256 ≡ n / 256 =
      le_bytes-injective w (m / 256) (n / 256) (omega (arith, pow-suc 256 w))
        (omega (arith, pow-suc 256 w)) (cons-tail e) in
    omega arith

pub length-le_bytes : (w n : ℕ) → length (le_bytes w n) ≡ w
unfolding le_bytes
length-le_bytes zero n = refl
length-le_bytes (suc w) n = ap suc (length-le_bytes w (n / 256))

-- Arrays are equal when their bytes are.
pub Array-eq : {n : ℕ} (a b : Array n) → a.bytes ≡ b.bytes → a ≡ b
Array-eq {n} a b e = λ i. record {
  bytes = e i;
  sized = is_prop→PathP (λ j. length (e j) ≡ n) (λ j. ℕ_set _ _) a.sized b.sized i;
}

pub bytes_eq_refl : (xs : List Byte) → bytes_eq xs xs ≡ true
unfolding bytes_eq
bytes_eq_refl [] = refl
bytes_eq_refl (x ∷ xs) = ground (arith, (decide_iff (Byte-discrete x x)).1 refl, bytes_eq_refl xs)

pub bytes_eq_sound : (xs ys : List Byte) → bytes_eq xs ys ≡ true → xs ≡ ys
unfolding bytes_eq
bytes_eq_sound [] [] h = refl
bytes_eq_sound [] (y ∷ ys) h = cc
bytes_eq_sound (x ∷ xs) [] h = cc
bytes_eq_sound (x ∷ xs) (y ∷ ys) h =
    ground (arith, (decide_iff (Byte-discrete x y)).0, bytes_eq_sound xs ys)

xor_cancel_bit : (a b c : Bool) → xor c a ≡ xor c b → a ≡ b
unfolding xor
xor_cancel_bit a b c = ground arith

xor_byte-cancel : (a b c : Byte) → xor_byte c a ≡ xor_byte c b → a ≡ b
unfolding xor_byte
xor_byte-cancel (bits a0 a1 a2 a3 a4 a5 a6 a7) (bits b0 b1 b2 b3 b4 b5 b6 b7)
      (bits c0 c1 c2 c3 c4 c5 c6 c7) h =
    cc (
      xor_cancel_bit a0 b0 c0 (cc),
      xor_cancel_bit a1 b1 c1 (cc),
      xor_cancel_bit a2 b2 c2 (cc),
      xor_cancel_bit a3 b3 c3 (cc),
      xor_cancel_bit a4 b4 c4 (cc),
      xor_cancel_bit a5 b5 c5 (cc),
      xor_cancel_bit a6 b6 c6 (cc),
      xor_cancel_bit a7 b7 c7 (cc),
    )

xor_list-cancel :
    (xs ys zs : List Byte)
    → length xs ≡ length zs
    → length ys ≡ length zs
    → xor_list zs xs ≡ xor_list zs ys
    → xs ≡ ys
unfolding xor_list
xor_list-cancel [] [] zs hx hy h = refl
xor_list-cancel [] (y ∷ ys) zs hx hy h = absurd (omega arith)
xor_list-cancel (x ∷ xs) [] zs hx hy h = absurd (omega arith)
xor_list-cancel (x ∷ xs) (y ∷ ys) [] hx hy h = absurd (omega arith)
xor_list-cancel (x ∷ xs) (y ∷ ys) (z ∷ zs) hx hy h =
    ap₂ ◌∷◌ (xor_byte-cancel x y z (cons-head h))
      (xor_list-cancel xs ys zs (omega arith) (omega arith) (cons-tail h))

-- The xor with a fixed array loses nothing.
pub xor_array-cancel : {n : ℕ} (a b c : Array n) → xor_array c a ≡ xor_array c b → a ≡ b
unfolding xor_array array_of
xor_array-cancel a b c h = Array-eq a b (
    xor_list-cancel a.bytes b.bytes c.bytes (a.sized ∙ sym c.sized) (b.sized ∙ sym c.sized)
      (ap (λ t. t.bytes) h))

xor_comm_bit : (a b : Bool) → xor a b ≡ xor b a
unfolding xor
xor_comm_bit a b = ground arith

xor_byte_comm : (a b : Byte) → xor_byte a b ≡ xor_byte b a
unfolding xor_byte
xor_byte_comm (bits a0 a1 a2 a3 a4 a5 a6 a7) (bits b0 b1 b2 b3 b4 b5 b6 b7) = cc (
  xor_comm_bit a0 b0,
  xor_comm_bit a1 b1,
  xor_comm_bit a2 b2,
  xor_comm_bit a3 b3,
  xor_comm_bit a4 b4,
  xor_comm_bit a5 b5,
  xor_comm_bit a6 b6,
  xor_comm_bit a7 b7,
)

xor_list_comm : (xs ys : List Byte) → xor_list xs ys ≡ xor_list ys xs
unfolding xor_list
xor_list_comm [] [] = refl
xor_list_comm [] (y ∷ ys) = refl
xor_list_comm (x ∷ xs) [] = refl
xor_list_comm (x ∷ xs) (y ∷ ys) = ap₂ ◌∷◌ (xor_byte_comm x y) (xor_list_comm xs ys)

pub xor_array_comm : {n : ℕ} (a b : Array n) → xor_array a b ≡ xor_array b a
unfolding xor_array array_of
xor_array_comm a b = Array-eq _ _ (xor_list_comm a.bytes b.bytes)

pub array_eq_refl : {n : ℕ} (a : Array n) → array_eq a a ≡ true
unfolding array_eq
array_eq_refl a = bytes_eq_refl a.bytes

pub array_eq_sound : {n : ℕ} (a b : Array n) → array_eq a b ≡ true → a ≡ b
unfolding array_eq
array_eq_sound a b h = Array-eq a b (bytes_eq_sound a.bytes b.bytes h)
