-- ===== src/Examples/FixedInt.antt =====
-- A `Bincode` written out: the fixed-width little-endian encoding that `bincode::serialize` uses by
-- default. It shows that the laws of `IsBincode` can hold.
use eror.Prelude.{
  ℕ, zero, suc, ◌+◌, ◌*◌, ◌/◌, ◌%◌, ◌^◌, ◌<◌, ◌≡◌, refl, ap, ◌∙◌, List, [], ◌∷◌, ◌++◌, append_assoc,
  Option, none, some, length, length-append, map, length-map, All, arith,
}
use eror.Bytes.{Byte, value, le_bytes, Array}
use eror.Bytes.Laws.{value-byte, length-le_bytes, Array-eq}
use eror.Serde.{Codec, RoundTrips, AnyValue, Bincode, IsBincode}
use native.Mathlib.Nat.{pow-suc, suc-mul}

-- A word of `w` bytes.
unfoldable pub read_word : ℕ → List Byte → Option (ℕ × List Byte)
unfolding value
read_word zero bs = some (0, bs)
read_word (suc w) [] = none
read_word (suc w) (x ∷ bs) = elim (read_word w bs) [
  | none ↦ none
  | some (n, rest) ↦ some (value x + 256 * n, rest)
]

pub read_word-le_bytes :
    (w n : ℕ) (rest : List Byte) → n < 256 ^ w → read_word w (le_bytes w n ++ rest) ≡ some (n, rest)
unfolding read_word le_bytes
read_word-le_bytes zero n rest h = ap (λ (k : ℕ). some (k, rest)) (omega (arith, h))
read_word-le_bytes (suc w) n rest h =
    rw (read_word-le_bytes w (n / 256) rest (omega (arith, pow-suc 256 w)))
      (ap (λ (k : ℕ). some (k, rest)) (omega (arith, value-byte (n % 256) (omega arith))))

abbrev pub word_codec : ℕ → Codec ℕ
word_codec w = record { write = le_bytes w; read = read_word w }

-- As many bytes as the type says, if they are there.
unfoldable pub read_array : (n : ℕ) → List Byte → Option (Array n × List Byte)
read_array zero bs = some (record { bytes = []; sized = refl }, bs)
read_array (suc n) [] = none
read_array (suc n) (x ∷ bs) = elim (read_array n bs) [
  | none ↦ none
  | some (a, rest) ↦ some (record { bytes = x ∷ a.bytes; sized = ap suc a.sized }, rest)
]

read_array-bytes :
    (n : ℕ) (xs rest : List Byte) (e : length xs ≡ n)
    → read_array n (xs ++ rest) ≡ some (record { bytes = xs; sized = e }, rest)
unfolding read_array
read_array-bytes zero [] rest e = ap (λ (a : Array 0). some (a, rest)) (Array-eq _ _ refl)
read_array-bytes zero (x ∷ xs) rest e = absurd (omega arith)
read_array-bytes (suc n) [] rest e = absurd (omega arith)
read_array-bytes (suc n) (x ∷ xs) rest e =
    let e' : length xs ≡ n = omega arith in
    rw (read_array-bytes n xs rest e')
      (ap (λ (a : Array (suc n)). some (a, rest)) (Array-eq _ _ refl))

-- `n` values one after another.
unfoldable pub read_many : {A : Type 0} → Codec A → ℕ → List Byte → Option (List A × List Byte)
read_many c zero bs = some ([], bs)
read_many c (suc n) bs = elim (c.read bs) [
  | none ↦ none
  | some (a, rest) ↦ elim (read_many c n rest) [
    | none ↦ none
    | some (as', rest') ↦ some (a ∷ as', rest')
  ]
]

unfoldable pub write_many : {A : Type 0} → Codec A → List A → List Byte
write_many c [] = []
write_many c (a ∷ as') = c.write a ++ write_many c as'

read_many-write_many :
    {A : Type 0} (c : Codec A) (Valid : A → Type 0) (xs : List A) (rest : List Byte)
    → RoundTrips c Valid
    → All Valid xs
    → read_many c (length xs) (write_many c xs ++ rest) ≡ some (xs, rest)
unfolding read_many write_many
read_many-write_many c Valid [] rest rt h = refl
read_many-write_many c Valid (a ∷ as') rest rt h = rw append_assoc (
    rw (rt a (write_many c as' ++ rest) h.0)
      (rw (read_many-write_many c Valid as' rest rt h.1) refl))

length-write_many :
    {A : Type 0} (c : Codec A) (n : ℕ) (xs : List A)
    → All (λ a. length (c.write a) ≡ n) xs
    → length (write_many c xs) ≡ length xs * n
unfolding write_many
length-write_many c n [] h = omega arith
length-write_many c n (a ∷ as') h = omega (
  arith,
  length-append (c.write a) (write_many c as'),
  h.0,
  length-write_many c n as' h.1,
  suc-mul (length as') n,
)

unfoldable pub pair_codec : {A B : Type 0} → Codec A → Codec B → Codec (A × B)
pair_codec c d = record {
  write = λ p. c.write p.0 ++ d.write p.1;
  read = λ bs. elim (c.read bs) [
    | none ↦ none
    | some (a, rest) ↦ elim (d.read rest) [ none ↦ none | some (b, rest') ↦ some ((a, b), rest') ]
  ];
}

-- A length in eight bytes, then the values.
unfoldable pub vec_codec : {A : Type 0} → Codec A → Codec (List A)
unfolding write_many read_many read_word le_bytes
vec_codec c = record {
  write = λ xs. le_bytes 8 (length xs) ++ write_many c xs;
  read = λ bs. elim (read_word 8 bs) [ none ↦ none | some (n, rest) ↦ read_many c n rest ];
}

abbrev pub array_codec : (n : ℕ) → Codec (Array n)
array_codec n = record { write = λ a. a.bytes; read = read_array n }

abbrev pub byte_codec : Codec Byte
byte_codec = record {
  write = λ x. x ∷ [];
  read = λ bs. elim bs [ [] ↦ none | x ∷ rest ↦ some (x, rest) ];
}

abbrev pub fixed_int : Bincode
fixed_int = record {
  u64 = word_codec 8;
  variant = word_codec 4;
  array = array_codec;
  byte_vec = vec_codec byte_codec;
  vec = vec_codec;
  pair = pair_codec;
}

read-pair_codec :
    {A B : Type 0} (c : Codec A) (d : Codec B) (Valid : A → Type 0) (Valid' : B → Type 0)
    → RoundTrips c Valid
    → RoundTrips d Valid'
    → RoundTrips (pair_codec c d) (λ p. Valid p.0 × Valid' p.1)
unfolding pair_codec
read-pair_codec c d Valid Valid' hc hd p rest h =
    rw append_assoc (rw (hc p.0 (d.write p.1 ++ rest) h.0) (rw (hd p.1 rest h.1) refl))

read_after_length :
    {A : Type 0} (c : Codec A) (bs : List Byte) {n : ℕ} {rest : List Byte}
    → read_word 8 bs ≡ some (n, rest)
    → (vec_codec c).read bs ≡ read_many c n rest
unfolding vec_codec
read_after_length c bs e = rw (e, vec_codec) refl

read-vec_codec :
    {A : Type 0} (c : Codec A) (Valid : A → Type 0)
    → RoundTrips c Valid
    → RoundTrips (vec_codec c) (λ xs. All Valid xs × (length xs < 2 ^ 64))
unfolding vec_codec
read-vec_codec c Valid hc xs rest h =
    let n = length xs in
    ap (vec_codec c).read (append_assoc (le_bytes 8 n) (write_many c xs) rest)
    ∙ read_after_length c (le_bytes 8 n ++ (write_many c xs ++ rest))
        (read_word-le_bytes 8 n (write_many c xs ++ rest) h.1)
    ∙ read_many-write_many c Valid xs rest hc h.0

All-any : (xs : List Byte) → All {A = Byte} AnyValue xs
All-any [] = tt
All-any (x ∷ xs) = (tt, All-any xs)

All-one : (xs : List Byte) → All (λ (a : Byte). length (byte_codec.write a) ≡ 1) xs
All-one [] = tt
All-one (x ∷ xs) = (refl, All-one xs)

size-vec_codec :
    {A : Type 0} (c : Codec A) (n : ℕ) (xs : List A)
    → All (λ a. length (c.write a) ≡ n) xs
    → length ((vec_codec c).write xs) ≡ 8 + length xs * n
unfolding vec_codec
size-vec_codec c n xs h = omega (
  arith,
  length-append (le_bytes 8 (length xs)) (write_many c xs),
  length-le_bytes 8 (length xs),
  length-write_many c n xs h,
)

write_many-map :
    {A : Type 0} (c : Codec A) (g : A → A) (xs : List A)
    → ((a : A) → c.write (g a) ≡ c.write a)
    → write_many c (map g xs) ≡ write_many c xs
unfolding write_many
write_many-map c g [] same = refl
write_many-map c g (x ∷ xs) same = rw (same x, write_many-map c g xs same)

write-vec_codec-map :
    {A : Type 0} (c : Codec A) (g : A → A) (xs : List A)
    → ((a : A) → c.write (g a) ≡ c.write a)
    → (vec_codec c).write (map g xs) ≡ (vec_codec c).write xs
unfolding vec_codec
write-vec_codec-map c g xs same = rw (length-map g xs, write_many-map c g xs same)

pub fixed_int-IsBincode : IsBincode fixed_int
fixed_int-IsBincode = record {
  read-u64 = λ n rest h. read_word-le_bytes 8 n rest h;
  read-variant = λ n rest h. read_word-le_bytes 4 n rest h;
  read-array = λ n a rest h. read_array-bytes n a.bytes rest a.sized;
  read-byte_vec =
      λ xs rest h. read-vec_codec byte_codec AnyValue (λ a rest h. refl) xs rest (All-any xs, h);
  read-vec = read-vec_codec;
  read-pair = read-pair_codec;
  size-u64 = length-le_bytes 8;
  size-variant = length-le_bytes 4;
  write-array = λ n a. refl;
  write-pair = λ c d p. unfold pair_codec in refl;
  write-vec-map = write-vec_codec-map;
  size-byte_vec = λ xs. size-vec_codec byte_codec 1 xs (All-one xs) ∙ omega arith;
  size-vec = size-vec_codec;
  size-pair = λ c d p. unfold pair_codec in length-append (c.write p.0) (d.write p.1);
}
