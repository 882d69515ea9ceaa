-- ===== src/Examples/Parts.antt =====
-- Runs of single operations: onions over the wire, the authenticated encryption, the table, the
-- primitives.
use eror.Prelude.{
  ℕ, zero, suc, ◌<◌, ◌≡◌, ◌≢◌, ◌↔◌, refl, none, some, true, List, [], ◌∷◌, map, length, arith,
  get_elem?, replicate, All,
}
use eror.Prelude.Outcome.{ok, panic, index}
use eror.Bytes.{Byte, byte, zeros}
use eror.Serde.{deserialize}
use eror.Primitives.{forward, IsPrimitives}
use eror.Primitives.KeyRoles.{discriminant-injective}
use eror.Primitives.Ec.{ec_primitives, asymmetric_encrypt, asymmetric_decrypt}
use eror.Primitives.Ec.Laws.{ec_primitives-IsPrimitives, asymmetric_decrypt-encrypt}
use eror.Onion.{Header, raw, parsed, Onion, HeaderBlock, into_bytes, onion_codec, onion_eq}
use eror.Onion.Serialize.{IsOnion, unparsed, onion_over_wire, size-block}
use eror.Layer.{unwrap}
use eror.Layer.Panics.{IsCutShort, unwrap_panics}
use eror.Examples.Data.{format, secret}
use eror.Format.{ae_enc, ae_dec}
use eror.Format.Ae.{ae_dec-ae_enc, ae_dec-ae_enc_iff}
use eror.Onionize.Table.{fill_rows}
use eror.Onionize.Table.Fill.{fill_rows-blank, filled_row}
use eror.Examples.Data.{
  b, hb, c, hc, p, hp, key, tag, scalar, generator, plain, plain-IsSmall, lucky, hop_meta,
}

-- An onion with one header of each form.
abbrev block : HeaderBlock p
block = record { tag = tag; body = byte 1 ∷ byte 2 ∷ [] }

abbrev onion : Onion p
onion = record {
  header = parsed block ∷ raw (byte 3 ∷ []) ∷ [];
  forward = byte 4 ∷ [];
  backward = (byte 5 ∷ [], tag);
}

onion-IsOnion : IsOnion b p hb hp onion
unfolding into_bytes
onion-IsOnion = record {
  headers_small = (omega (arith, size-block b p hb hp block), (omega arith, tt));
  header_count = omega arith;
  forward_small = omega arith;
  backward_small = omega arith;
}

onion_over_wire_example :
    (deserialize (onion_codec b p) ((onion_codec b p).write onion) ≡ ok (unparsed b p hb hp onion))
    × (onion_eq b p (unparsed b p hb hp onion) onion ≡ true)
onion_over_wire_example = onion_over_wire b p hb hp onion onion-IsOnion

-- Two raw headers of three bytes.
abbrev even_onion : Onion p
even_onion = record {
  header = raw (byte 1 ∷ byte 2 ∷ byte 3 ∷ []) ∷ raw (byte 4 ∷ byte 5 ∷ byte 6 ∷ []) ∷ [];
  forward = byte 7 ∷ [];
  backward = ([], tag);
}

even_headers : All (λ h. length h ≡ 3) (map (into_bytes b p) even_onion.header)
unfolding into_bytes
even_headers = (refl, (refl, tt))

abbrev sealed : List Byte × p.Tag
sealed = (byte 1 ∷ byte 2 ∷ [], tag)

ae_dec-ae_enc_example : ae_dec p key tag (ae_enc p key tag sealed.0) ≡ some sealed.0
ae_dec-ae_enc_example = ae_dec-ae_enc p hp key tag sealed.0

ae_dec-ae_enc_iff_example :
    (ae_dec p key p.default_tag (ae_enc p key tag sealed.0) ≡ none) ↔ (p.default_tag ≢ tag)
ae_dec-ae_enc_iff_example = ae_dec-ae_enc_iff p hp key tag p.default_tag sealed.0

two_keys : (r : ℕ) → r < 2 → index (key ∷ key ∷ []) r ≡ ok key
two_keys zero h = refl
two_keys (suc zero) h = refl
two_keys (suc (suc r)) h = absurd (omega arith)

fill_rows-blank_example :
    (t : List (List (Header p))) × (fill_rows b p 3 2 0
        (key ∷ key ∷ [])
        (replicate 3 (replicate 3 (raw [])))
      ≡ ok t)
    × (get_elem? t 2 ≡ some (filled_row b p 3 (λ i. key) 2))
fill_rows-blank_example = fill_rows-blank b p 3 (λ i. key) 2 (key ∷ key ∷ []) (omega arith) two_keys

discriminant-injective_example : forward 3 ≡ forward 3
discriminant-injective_example =
    discriminant-injective (forward 3) (forward 3) (omega arith) (omega arith) refl

ec_primitives-IsPrimitives_example : IsPrimitives (ec_primitives b c)
ec_primitives-IsPrimitives_example = ec_primitives-IsPrimitives b c hb hc

asymmetric_decrypt-encrypt_example :
    asymmetric_decrypt b c scalar
      (asymmetric_encrypt b c (c.basepoint_mul scalar) (plain hop_meta) generator).0
    ≡ ok (plain hop_meta)
asymmetric_decrypt-encrypt_example =
    asymmetric_decrypt-encrypt b c hb hc scalar (plain hop_meta) generator (plain-IsSmall hop_meta)
      (lucky (plain hop_meta) generator)

-- Its first header has 39 bytes of data.
abbrev cut_short : Onion p
cut_short = record {
  header = raw (into_bytes b p (parsed (record { tag = tag; body = zeros 39 }))) ∷ raw [] ∷ [];
  forward = [];
  backward = ([], tag);
}

unwrap_panics_example :
    (unwrap b p format secret cut_short ≡ panic) ↔ IsCutShort b c hb hc cut_short
unwrap_panics_example = unwrap_panics b c hb hc format secret cut_short (omega arith) refl
