-- ===== src/Examples/Data.antt =====
-- Data for the runs: two hops, their keys, and a ciphertext that the first can read.
use eror.Prelude.{take, ap, ℕ, ◌+◌, ◌<◌, ◌^◌, ◌≡◌, ◌≢◌, true, List, [], ◌∷◌, length, arith}
use eror.Bytes.{array_of, Byte, byte, Array}
use eror.Bytes.Laws.{le_bytes-injective}
use eror.Serde.{via, Bincode, IsBincode, IsSmall}
use eror.Primitives.{Primitives, IsPrimitives}
use eror.Primitives.Ec.{first_half, Crates, ec_primitives, hash_to_scalar}
use eror.Primitives.Ec.Laws.{
  IsCrates, ec_primitives-IsPrimitives, asymmetric_decrypt-encrypt, sent_payload,
}
use eror.Pki
use eror.Pki.{Address, Pki}
use eror.Onion.{Role, Meta, meta_codec, header_codec, raw, into_bytes}
use eror.Onion.Serialize.{size-meta}
use eror.Format.{OnionFormat}
use eror.Layer.{layer_codec, mac_codec, mac_input}
use eror.Layer.Peel.{Holds}
use eror.Onionize.Ciphers.{Opens}
use eror.Examples.FixedInt.{fixed_int, fixed_int-IsBincode}
use eror.Primitives.Ec
use eror.Examples.ToyCrates.{fit, toy_crates, toy_crates-IsCrates, fit_array}

abbrev pub b : Bincode
b = fixed_int

abbrev pub hb : IsBincode b
hb = fixed_int-IsBincode

abbrev pub c : Crates
c = toy_crates

abbrev pub hc : IsCrates c
hc = toy_crates-IsCrates

abbrev pub p : Primitives
p = ec_primitives b c

abbrev pub hp : IsPrimitives p
hp = ec_primitives-IsPrimitives b c hb hc

abbrev pub key_of : ℕ → Array 16
key_of n = fit_array 16 (byte n ∷ [])

unfoldable pub key : p.SymmetricKey
unfolding ec_primitives
key = key_of 5

unfoldable pub tag : p.Tag
unfolding ec_primitives
tag = key_of 9

unfoldable pub scalar : c.Scalar
unfolding toy_crates
scalar = true

unfoldable pub generator : c.Rng
unfolding toy_crates
generator = 0

unfoldable pub secret : p.PrivateKey
unfolding ec_primitives
secret = scalar

unfoldable pub public : p.PublicKey
unfolding ec_primitives
public = c.basepoint_mul scalar

unfoldable pub start : p.Rng
unfolding ec_primitives
start = generator

abbrev pub here : Address
here = fit_array 32 (byte 7 ∷ [])

abbrev pub there : Address
there = fit_array 32 (byte 8 ∷ [])

abbrev pub hop_meta : Meta
hop_meta = record { role = Role.hop; next = there }

abbrev pub receiver_meta : Meta
receiver_meta = record { role = Role.receiver; next = there }

abbrev pub format : OnionFormat p
format = record {
  max_path_length = 2;
  pki = (Pki.insert (Pki.insert Pki.new here public).1 there public).1;
}

abbrev pub plain : Meta → List Byte
plain meta = (layer_codec b p).write (key, meta)

pub length-plain : (meta : Meta) → length (plain meta) ≡ 52
unfolding layer_codec ec_primitives
length-plain meta = omega (
  arith,
  hb.size-pair p.key_codec (meta_codec b) (key, meta),
  hp.size-key key,
  size-meta b hb meta,
)

abbrev pub cipher : Meta → List Byte
cipher meta = (p.asymmetric_encrypt public (plain meta) start).0

pub cipher-IsSmall : (meta : Meta) → IsSmall (cipher meta)
cipher-IsSmall meta = omega (arith, hp.size-asymmetric public (plain meta) start, length-plain meta)

pub plain-IsSmall : (meta : Meta) → IsSmall (plain meta)
plain-IsSmall meta = omega (arith, length-plain meta)

-- The hash is never minus the private key.
pub lucky :
    (bs : List Byte) (r : c.Rng)
    → c.scalar_add (hash_to_scalar b c (sent_payload b c hb hc bs r)) scalar ≢ hc.zero_scalar
unfolding toy_crates toy_crates-IsCrates hash_to_scalar scalar
lucky bs r e = cc

pub key_pair : Opens b p hb hp secret public
unfolding ec_primitives secret public
key_pair bs r small = asymmetric_decrypt-encrypt b c hb hc scalar bs r small (lucky bs r)

pub cipher-Holds : (meta : Meta) → Holds b p hb hp secret (cipher meta) key meta
cipher-Holds meta = key_pair (plain meta) start (plain-IsSmall meta)

-- The tag tells data of different lengths apart.
pub tag-length :
    (k : p.SymmetricKey) (xs ys : List Byte)
    → length xs < 256 ^ 8
    → length ys < 256 ^ 8
    → p.tag k xs ≡ p.tag k ys
    → length xs ≡ length ys
unfolding ec_primitives Ec.tag first_half toy_crates array_of fit_array fit
tag-length k xs ys hx hy e =
    le_bytes-injective 8 (length xs) (length ys) hx hy (ap (λ (t : Array 16). take 8 t.bytes) e)

pub length-mac_input :
    (body xs fwd : List Byte)
    → length (mac_input b p body (raw xs ∷ []) fwd) ≡ 32 + length body + length xs + length fwd
unfolding mac_input mac_codec header_codec via into_bytes
length-mac_input body xs fwd = omega (
  arith,
  hb.size-pair b.byte_vec (b.pair (b.vec (header_codec b p)) b.byte_vec) (body, (raw xs ∷ [], fwd)),
  hb.size-pair (b.vec (header_codec b p)) b.byte_vec (raw xs ∷ [], fwd),
  hb.size-vec (header_codec b p) (8 + length xs) (raw xs ∷ []) (hb.size-byte_vec xs, tt),
  hb.size-byte_vec body,
  hb.size-byte_vec fwd,
)
