-- ===== src/Examples/Sizes.antt =====
-- An onion with headers of full size, before and after a hop.
use eror.Prelude.{◌≡◌, refl, List, [], ◌∷◌, length, length-replicate, arith}
use eror.Prelude.Outcome.{ok}
use eror.Bytes.{Byte, byte, zeros}
use eror.Primitives.{sym_enc}
use eror.Primitives.Ec.{ec_primitives}
use eror.Onion.{Header, raw, parsed, into_bytes, onion_codec}
use eror.Onion.Serialize.{size-block, unpack-pack}
use eror.Format.{single_header_length, nonce_fwd}
use eror.Format.Ae.{ae_wrap-ae_unwrap}
use eror.Layer.{wrap, encrypt_headers, unwrap}
use eror.Layer.Headers.{header_bytes}
use eror.Layer.Peel.{unwrap-wrap_first, wrap_block, inner_onion}
use eror.Layer.Sizes.{AreSized, unwrap_size, wrap_size, layer_cipher}
use eror.Examples.Data.{
  b, p, hb, hp, key, tag, secret, public, start, hop_meta, format, plain, length-plain, cipher,
  cipher-IsSmall, cipher-Holds,
}

abbrev payload : List Byte
payload = zeros 4

abbrev backward_part : List Byte × p.Tag
backward_part = (zeros 5, tag)

abbrev inner_headers : List (Header p)
inner_headers = raw (zeros 116) ∷ []

abbrev first : Header p
first = parsed (wrap_block b p hb hp key (cipher hop_meta) inner_headers payload)

abbrev others : List (Header p)
others = raw (p.symmetric_encrypt (p.derive_key sym_enc key) 2 (zeros 116)) ∷ []

abbrev fwd : List Byte
fwd = p.symmetric_encrypt (p.derive_key sym_enc key) nonce_fwd payload

abbrev back : List Byte × p.Tag
back = (ae_wrap-ae_unwrap p hp key backward_part).0

header_length : single_header_length p ≡ 116
unfolding single_header_length ec_primitives
header_length = refl

sized : AreSized b p hb hp (header_bytes b p (first ∷ others))
unfolding into_bytes zeros
sized = (
  omega (
    arith,
    header_length,
    size-block b p hb hp (wrap_block b p hb hp key (cipher hop_meta) inner_headers payload),
    hp.size-asymmetric public (plain hop_meta) start,
    length-plain hop_meta,
  ),
  (
    omega (
      arith,
      header_length,
      hp.length-encrypt (p.derive_key sym_enc key) 2 (zeros 116),
      length-replicate 116 (byte 0),
    ),
    tt,
  ),
)

unwraps :
    unwrap b p format secret
      (record { header = first ∷ others; forward = fwd; backward = backward_part })
    ≡ ok (key, hop_meta, inner_onion b p hb hp key inner_headers payload back)
unfolding encrypt_headers into_bytes
unwraps =
    unwrap-wrap_first b p hb hp format secret key hop_meta (cipher hop_meta) first inner_headers
      payload backward_part back refl
      (unpack-pack b p hb hp (wrap_block b p hb hp key (cipher hop_meta) inner_headers payload)
        (cipher-IsSmall hop_meta)).0
      (cipher-Holds hop_meta) (ae_wrap-ae_unwrap p hp key backward_part).1

unwrap_size_example :
    length ((onion_codec b p).write (inner_onion b p hb hp key inner_headers payload back))
    ≡ length (
        (onion_codec b p).write
          (record { header = first ∷ others; forward = fwd; backward = backward_part }))
unwrap_size_example =
    unwrap_size b p hb hp format secret first others fwd backward_part refl sized unwraps

one_sized : AreSized b p hb hp (header_bytes b p inner_headers)
unfolding into_bytes zeros
one_sized = (omega (arith, header_length, length-replicate 116 (byte 0)), tt)

wrap_size_example :
    let (hs', payload') =
      wrap b p key (layer_cipher b p hb hp public key hop_meta start) inner_headers payload in
    AreSized b p hb hp (header_bytes b p hs')
    × (length hs' ≡ 2)
    × (length payload' ≡ length payload)
wrap_size_example = wrap_size b p hb hp public key hop_meta start inner_headers payload one_sized
