-- ===== src/Layer.antt =====
-- src/lib.rs: one layer of an onion, put on by `OnionFormat::wrap` and taken off by
-- `OnionFormat::unwrap`.
pub mod Headers
pub mod Peel
pub mod Tamper
pub mod Panics
pub mod Sizes
use eror.Prelude.{ℕ, zero, suc, ◌+◌, Bool, List, [], ◌∷◌, length, drop}
use eror.Prelude.Outcome.{
  Outcome, ok, mac_mismatch, index, write, write_last, minus_one, require, or_else_err, ◌>>=◌, ◌>>◌,
}
use eror.Bytes.{Byte}
use eror.Serde.{Codec, Bincode, deserialize}
use eror.Primitives.{Primitives, sym_enc, mac}
use eror.Onion.{
  Meta, Header, raw, parsed, Onion, header_codec, into_bytes, into_parsed, force_pack, meta_codec,
}
use eror.Format.{OnionFormat, nonce_fwd, zero_header, ae_unwrap}

module _ (b : Bincode) (p : Primitives) where
  -- What is encrypted for a hop, `(key, meta)`.
  unfoldable pub layer_codec : Codec (p.SymmetricKey × Meta)
  unfolding meta_codec
  layer_codec = b.pair p.key_codec (meta_codec b)

  -- What the tag of a layer is over: `pack((&data, &headers, &payload))`.
  unfoldable pub mac_codec : Codec (List Byte × (List (Header p) × List Byte))
  unfolding header_codec
  mac_codec = b.pair b.byte_vec (b.pair (b.vec (header_codec b p)) b.byte_vec)

  unfoldable pub mac_input : List Byte → List (Header p) → List Byte → List Byte
  unfolding mac_codec
  mac_input body headers payload = mac_codec.write (body, (headers, payload))

  -- `headers.iter().enumerate().map(…)` from index `i` on.
  unfoldable pub encrypt_headers : p.SymmetricKey → ℕ → List (Header p) → List (Header p)
  unfolding into_bytes
  encrypt_headers key i [] = []
  encrypt_headers key i (h ∷ hs) =
      raw (p.symmetric_encrypt key (i + 2) (into_bytes b p h)) ∷ encrypt_headers key (i + 1) hs

  unfoldable pub wrap :
      p.SymmetricKey → List Byte → List (Header p) → List Byte → List (Header p) × List Byte
  unfolding encrypt_headers mac_input
  wrap key ciphertext headers payload =
      let key_symmetric = p.derive_key sym_enc key in
      let key_mac = p.derive_key mac key in
      let new_headers = encrypt_headers key_symmetric 0 headers in
      let payload' = p.symmetric_encrypt key_symmetric nonce_fwd payload in
      let tag = p.tag key_mac (mac_input ciphertext new_headers payload') in
      (parsed (record { tag = tag; body = ciphertext }) ∷ new_headers, payload')

  -- The loop of `unwrap`, for `count` rounds from `i` on: each header is decrypted one place down.
  unfoldable pub shift_headers :
      ℕ → ℕ → p.SymmetricKey → List (Header p) → Outcome (List (Header p))
  unfolding into_bytes
  shift_headers zero i key hs = ok hs
  shift_headers (suc count) i key hs = do
    h ← index hs (i + 1)
    hs' ← write hs i (raw (p.symmetric_decrypt key (i + 2) (into_bytes b p h)))
    shift_headers count (i + 1) key hs'

  -- The part of `unwrap` behind the check of the tag.
  unfoldable pub peel : OnionFormat p → p.SymmetricKey → Onion p → Outcome (Onion p)
  unfolding shift_headers force_pack zero_header ae_unwrap
  peel f key onion = do
    let key_symmetric = p.derive_key sym_enc key
    count ← minus_one f.max_path_length
    shifted ← shift_headers count 0 key_symmetric onion.header
    header ←
        write_last shifted (
          force_pack b p (zero_header p)
            (p.symmetric_decrypt key_symmetric (f.max_path_length + 1)))
    let forward = p.symmetric_decrypt key_symmetric nonce_fwd onion.forward
    backward ← ae_unwrap p key onion.backward
    ok (record { header = header; forward = forward; backward = backward })

  unfoldable pub unwrap :
      OnionFormat p → p.PrivateKey → Onion p → Outcome (p.SymmetricKey × Meta × Onion p)
  unfolding layer_codec mac_input into_parsed deserialize peel
  unwrap f private_key onion = do
    first ← index onion.header 0
    header ← into_parsed b p first
    decrypted_meta ← p.asymmetric_decrypt private_key header.body
    (key, meta) ← or_else_err (deserialize layer_codec decrypted_meta) mac_mismatch
    let tag =
        p.tag (p.derive_key mac key) (mac_input header.body (drop 1 onion.header) onion.forward)
    require (p.tag_eq tag header.tag) mac_mismatch
    onion' ← peel f key onion
    ok (key, meta, onion')
