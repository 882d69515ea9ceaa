-- ===== src/Examples/Layers.antt =====
-- A layer put on for the first hop and taken off again, and what follows from its checks.
use eror.Prelude.{
  ℕ, ◌+◌, ◌<◌, ◌≡◌, ◌≢◌, refl, ap, inr, List, [], ◌∷◌, ◌++◌, map, length, length-replicate, arith,
}
use eror.Prelude.Outcome.{ok, err, mac_mismatch, index}
use eror.Bytes.{Byte, byte, zeros}
use eror.Primitives.{mac}
use eror.Onion.{Header, raw, parsed, Onion}
use eror.Format.{ae_wrap}
use eror.Format.Ae.{ae_wrap-ae_unwrap}
use eror.Layer.{wrap, unwrap, mac_input}
use eror.Layer.Headers.{header_bytes, header_bytes-raw}
use eror.Layer.Peel.{unwrap-wrap, inner_onion}
use eror.Layer.Tamper.{unwrap_checks, unwrap_tampered, layer_tag, IsAccepted, AreSmall}
use eror.Onionize.{wrap_layers}
use eror.Onionize.Chain.{AreServed, travel, unwrap_upto, onion_of, pads, learned}
use eror.Onionize.Layers.{travel_layers}
use eror.Examples.Data.{
  public, start, plain, length-plain, tag-length, length-mac_input, b, p, hb, hp, key, tag, secret,
  hop_meta, format, cipher, cipher-IsSmall, cipher-Holds,
}

abbrev headers : List (Header p)
headers = raw (zeros 3) ∷ []

abbrev backward_part : List Byte × p.Tag
backward_part = (zeros 5, tag)

abbrev layer : List (Header p) × List Byte
layer = wrap b p key (cipher hop_meta) headers (zeros 4)

abbrev onion : Onion p
onion = record { header = layer.0; forward = layer.1; backward = backward_part }

-- The backward part without a layer.
abbrev back : List Byte × p.Tag
back = (ae_wrap-ae_unwrap p hp key backward_part).0

unwrap-wrap_example :
    (back : List Byte × p.Tag) × (unwrap b p format secret onion
      ≡ ok (key, hop_meta, inner_onion b p hb hp key headers (zeros 4) back))
    × (ae_wrap p key back ≡ ok backward_part)
unwrap-wrap_example =
    unwrap-wrap b p hb hp format secret key hop_meta (cipher hop_meta) headers (zeros 4)
      backward_part refl (cipher-IsSmall hop_meta) (cipher-Holds hop_meta)

abbrev trip :
    (back : List Byte × p.Tag) × (unwrap b p format secret onion
      ≡ ok (key, hop_meta, inner_onion b p hb hp key headers (zeros 4) back))
    × (ae_wrap p key back ≡ ok backward_part)
trip =
    unwrap-wrap b p hb hp format secret key hop_meta (cipher hop_meta) headers (zeros 4)
      backward_part refl (cipher-IsSmall hop_meta) (cipher-Holds hop_meta)

unwrap_checks_example :
    IsAccepted b p format secret onion key hop_meta
      (inner_onion b p hb hp key headers (zeros 4) trip.0)
unwrap_checks_example = unwrap_checks b p hp format secret onion trip.1

-- The forward payload is one byte longer than the tag says.
abbrev forged : Onion p
forged = record {
  header =
      parsed (record {
        tag = layer_tag b p key (cipher hop_meta) (map raw (zeros 3 ∷ [])) (zeros 4);
        body = cipher hop_meta;
      })
      ∷ map raw (zeros 3 ∷ []);
  forward = zeros 5;
  backward = backward_part;
}

length-zeros : (n : ℕ) → length (zeros n) ≡ n
unfolding zeros
length-zeros n = length-replicate n (byte 0)

abbrev input_length : ℕ → ℕ
input_length n = length (mac_input b p (cipher hop_meta) (raw (zeros 3) ∷ []) (zeros n))

input_length_lem : (n : ℕ) → input_length n ≡ 127 + n
input_length_lem n = omega (
  arith,
  length-mac_input (cipher hop_meta) (zeros 3) (zeros n),
  hp.size-asymmetric public (plain hop_meta) start,
  length-plain hop_meta,
  length-zeros 3,
  length-zeros n,
)

-- The two tags differ.
no_collision :
    layer_tag b p key (cipher hop_meta) (map raw (zeros 3 ∷ [])) (zeros 5)
      ≡ layer_tag b p key (cipher hop_meta) (map raw (zeros 3 ∷ [])) (zeros 4)
    → mac_input b p (cipher hop_meta) (map raw (zeros 3 ∷ [])) (zeros 5)
      ≡ mac_input b p (cipher hop_meta) (map raw (zeros 3 ∷ [])) (zeros 4)
no_collision e =
    let same : input_length 5 ≡ input_length 4 =
      tag-length (p.derive_key mac key) _ _ (omega (arith, input_length_lem 5))
        (omega (arith, input_length_lem 4)) e in
    absurd (omega (arith, input_length_lem 5, input_length_lem 4))

headers-IsSmall : AreSmall b p hb hp (zeros 3 ∷ [])
headers-IsSmall = ((omega (arith, length-zeros 3), tt), omega arith)

longer : zeros 5 ≢ zeros 4
longer e = absurd (omega (arith, ap length e, length-zeros 4, length-zeros 5))

unwrap_tampered_example : unwrap b p format secret forged ≡ err mac_mismatch
unwrap_tampered_example =
    unwrap_tampered b p hb hp format secret key hop_meta (cipher hop_meta) (zeros 4) (zeros 5)
      (zeros 3 ∷ []) (zeros 3 ∷ []) backward_part (cipher-IsSmall hop_meta) headers-IsSmall
      headers-IsSmall (omega (arith, length-zeros 4)) (omega (arith, length-zeros 5))
      (cipher-Holds hop_meta) no_collision (inr longer)

one_hop :
    AreServed b p hb hp format
      (λ i. secret)
      (λ i. key)
      (λ i. hop_meta)
      (λ i. cipher hop_meta)
      (key ∷ [])
      (cipher hop_meta ∷ [])
      1
one_hop = record {
  has_key = λ i h. ap (index (key ∷ [])) (first i h);
  has_cipher = λ i h. ap (index (cipher hop_meta ∷ [])) (first i h);
  small = λ i h. cipher-IsSmall hop_meta;
  holds = λ i h. cipher-Holds hop_meta;
}
  where
    first : (i : ℕ) → i < 1 → i ≡ 0
    first i h = omega arith

-- The headers of the onion for the second hop: one of its own, and the padding.
abbrev inner_headers : List (List Byte)
inner_headers = (zeros 3 ∷ []) ++ pads b p hb hp format (λ i. key) 1 1

abbrev inner : List (Header p)
inner = map raw inner_headers

travel_layers_example :
    (hs' : List (Header p)) × (fwd' : List Byte) × (back : List Byte × p.Tag) × (wrap_layers b p 1
        (key ∷ [])
        (cipher hop_meta ∷ [])
        inner
        (zeros 4)
      ≡ ok (hs', fwd'))
    × (unwrap_upto b p (λ i. key) 1 backward_part ≡ ok back)
    × (length back.0 ≡ length backward_part.0)
    × (travel b p format
          (λ i. secret)
          1
          (onion_of b p hb hp (header_bytes b p hs') fwd' backward_part)
        ≡ ok (
          learned b p hb hp format
              (λ i. secret)
              (λ i. key)
              (λ i. hop_meta)
              (λ i. cipher hop_meta)
              (key ∷ [])
              (cipher hop_meta ∷ [])
              1,
          onion_of b p hb hp (header_bytes b p inner) (zeros 4) back,
        ))
travel_layers_example =
    travel_layers b p hb hp format (λ i. secret) (λ i. key) (λ i. hop_meta) (λ i. cipher hop_meta)
      (key ∷ []) (cipher hop_meta ∷ []) 1 inner (zeros 3 ∷ []) (zeros 4) backward_part one_hop
      (omega arith) refl (header_bytes-raw b p inner_headers)
