-- ===== src/Examples/ToyCrates.antt =====
-- Stand-ins for the curve, the cipher, the hashes and the generators, small enough to run. They
-- show that the laws of `IsCrates` can hold: the field of two elements is its own curve, and the
-- cipher xors every byte with the first byte of the key, and the MAC is the length of the data.
use eror.Prelude.{
  ℕ, suc, ◌≡◌, ◌≢◌, refl, ap₂, Bool, true, false, ◌&&◌, List, [], ◌∷◌, ◌++◌, map, Option, none,
  some, length, length-append, length-take, length-replicate, length-map, take, drop, arith,
}
use eror.Bytes.{le_bytes, Byte, bits, byte, zeros, xor_byte, Array}
use eror.Primitives.Ec.{Crates}
use eror.Primitives.Ec.Laws.{IsCrates}
use mathlib.Core.Bool.{xor}

xor_bit-twice : (a c : Bool) → xor c (xor c a) ≡ a
unfolding xor
xor_bit-twice a c = ground arith

xor_byte-twice : (a c : Byte) → xor_byte c (xor_byte c a) ≡ a
unfolding xor_byte
xor_byte-twice (bits a0 a1 a2 a3 a4 a5 a6 a7) (bits c0 c1 c2 c3 c4 c5 c6 c7) =
    rw
      (
        xor_bit-twice a0 c0,
        xor_bit-twice a1 c1,
        xor_bit-twice a2 c2,
        xor_bit-twice a3 c3,
        xor_bit-twice a4 c4,
        xor_bit-twice a5 c5,
        xor_bit-twice a6 c6,
        xor_bit-twice a7 c7,
      )
      refl

-- Cut or padded with zeros to `n` bytes.
unfoldable pub fit : ℕ → List Byte → List Byte
unfolding zeros
fit n bs = take n (bs ++ zeros n)

pub length-fit : (n : ℕ) (bs : List Byte) → length (fit n bs) ≡ n
unfolding fit zeros
length-fit n bs =
    omega (
      arith,
      length-take n (bs ++ zeros n),
      length-append bs (zeros n),
      length-replicate n (byte 0),
    )

unfoldable pub fit_array : (n : ℕ) → List Byte → Array n
unfolding fit
fit_array n bs = record { bytes = fit n bs; sized = length-fit n bs }

unfoldable pub first_byte : List Byte → Byte
unfolding byte
first_byte [] = byte 0
first_byte (x ∷ bs) = x

unfoldable pub toy_cipher : Array 16 → Array 16 → List Byte → List Byte
unfolding first_byte xor_byte
toy_cipher key iv bs = map (xor_byte (first_byte key.bytes)) bs

pub toy_cipher-twice :
    (key iv : Array 16) (bs : List Byte) → toy_cipher key iv (toy_cipher key iv bs) ≡ bs
unfolding toy_cipher
toy_cipher-twice key iv [] = refl
toy_cipher-twice key iv (x ∷ bs) =
    ap₂ ◌∷◌ (xor_byte-twice x (first_byte key.bytes)) (toy_cipher-twice key iv bs)

-- A point is sent in 32 bytes.
abbrev pub point_bytes : Bool → List Byte
point_bytes false = zeros 32
point_bytes true = byte 1 ∷ zeros 31

unfoldable pub read_point : List Byte → Option (Bool × List Byte)
read_point [] = none
read_point (bits b0 b1 b2 b3 b4 b5 b6 b7 ∷ bs) = some (b0, drop 31 bs)

pub read_point-point_bytes :
    (x : Bool) (rest : List Byte) → read_point (point_bytes x ++ rest) ≡ some (x, rest)
unfolding read_point zeros byte
read_point-point_bytes false rest = refl
read_point-point_bytes true rest = refl

pub length-point_bytes : (x : Bool) → length (point_bytes x) ≡ 32
unfolding zeros
length-point_bytes false = refl
length-point_bytes true = refl

-- The generator counts the draws.
unfoldable pub toy_crates : Crates
unfolding xor le_bytes fit_array toy_cipher read_point zeros byte
toy_crates = record {
  Rng = ℕ;
  gen_u8 = λ r. (byte r, suc r);
  gen_array = λ n r. (fit_array n (byte r ∷ []), suc r);
  Scalar = Bool;
  EdwardsPoint = Bool;
  random_scalar = λ r. (true, suc r);
  scalar_add = xor;
  invert = λ x. x;
  basepoint_mul = λ x. x;
  point_add = xor;
  point_mul = λ x y. x && y;
  compress = λ x. fit_array 32 (point_bytes x);
  hash_from_bytes_sha3_512 = λ bs. false;
  point_codec = record { write = point_bytes; read = read_point };
  sha3_256 = fit_array 32;
  hmac_sha3_256 = λ key bs. fit_array 32 (le_bytes 8 (length bs) ++ key.bytes);
  aez_encrypt = toy_cipher;
  aez_decrypt = toy_cipher;
  chacha20_fill = λ seed n. fit n seed.bytes;
}

pub and_comm : (x y : Bool) → (x && y) ≡ (y && x)
and_comm x y = ground arith

pub and_assoc : (x y z : Bool) → ((x && y) && z) ≡ (x && (y && z))
and_assoc x y z = ground arith

pub and_true : (x : Bool) → (x && true) ≡ x
and_true x = ground arith

pub and_invert : (x : Bool) → x ≢ false → (x && x) ≡ true
and_invert x h = ground arith

unfoldable pub toy_crates-IsCrates : IsCrates toy_crates
unfolding toy_crates
toy_crates-IsCrates = record {
  zero_scalar = false;
  one_scalar = true;
  scalar_mul = λ x y. x && y;
  mul_comm = and_comm;
  mul_assoc = and_assoc;
  mul-one = and_true;
  mul-invert = and_invert;
  basepoint-add = λ x y. refl;
  basepoint-mul = λ x y. refl;
  aez_decrypt-encrypt = toy_cipher-twice;
  aez_encrypt-decrypt = toy_cipher-twice;
  length-aez_encrypt = length-toy_cipher;
  length-aez_decrypt = length-toy_cipher;
  length-chacha20 = λ seed n. length-fit n seed.bytes;
  read-point = λ x rest h. read_point-point_bytes x rest;
  size-point = length-point_bytes;
}
  where
    length-toy_cipher : (k iv : Array 16) (d : List Byte) → length (toy_cipher k iv d) ≡ length d
    length-toy_cipher k iv d = unfold toy_cipher in length-map (xor_byte (first_byte k.bytes)) d
