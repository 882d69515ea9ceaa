-- ===== src/Onionize.antt =====
-- src/lib.rs: `OnionFormat::onionize`, which builds an onion for a path, and `Payload`.
pub mod Table
pub mod Chain
pub mod Layers
pub mod Ciphers
pub mod Random
pub mod Payloads
pub mod Steps
pub mod Errors
pub mod Fresh
pub mod Journey
pub mod Backward
use eror.Prelude.{
  ℕ, zero, suc, ◌+◌, ◌-◌, Bool, List, [], ◌∷◌, ◌++◌, Option, none, some, map, length, take, drop,
  init, last?, replicate, leb, ◌==◌,
}
use eror.Prelude.Outcome
use eror.Prelude.Outcome.{
  Outcome, ok, or_panic, or_err, index, write, require, assert, path_too_long, key_not_found,
}
use eror.Prelude.Rand.{Rand, pure, lift, draw, ◌>>=◌, ◌>>◌}
use eror.Bytes.{Byte}
use eror.Serde.{Codec, Bincode}
use eror.Primitives.{Primitives, sym_enc, mac}
use eror.Pki
use eror.Pki.{Address}
use eror.Onion.{Role, Meta, Header, raw, Onion, into_bytes, force_pack, structured}
use eror.Format.{OnionFormat, nonce_fwd, zero_header, random_header, random_bytes, ae_unwrap}
use eror.Layer.{layer_codec, mac_input, wrap}
use eror.Onionize.Table.{fill_rows, write2}

-- `enum Payload`
pub data Payload : Type 0 where
  forward backward : List Byte → Payload

module _ (b : Bincode) (p : Primitives) where
  -- `Header::Raw(Vec::new())`
  abbrev pub blank_header : Header p
  blank_header = raw []

  -- `pki.get(address).ok_or(KeyNotFound)?`, then the ciphertext of the key and the meta data.
  unfoldable pub encrypt_meta :
      OnionFormat p → p.SymmetricKey → Address → Meta → Rand p.Rng (List Byte)
  unfolding layer_codec Pki.get
  encrypt_meta f key address meta = do
    pubkey ← lift (or_err (Pki.get f.pki address) key_not_found)
    draw (p.asymmetric_encrypt pubkey ((layer_codec b p).write (key, meta)))

  -- The loop over the keys, the hops and the hops that follow them.
  unfoldable pub hop_ciphers :
      OnionFormat p → List p.SymmetricKey → List Address → Rand p.Rng (List (List Byte))
  unfolding encrypt_meta
  hop_ciphers f (key ∷ keys) (address ∷ next ∷ hops) = do
    c ← encrypt_meta f key address (record { role = Role.hop; next = next })
    cs ← hop_ciphers f keys (next ∷ hops)
    pure (c ∷ cs)
  hop_ciphers f _ _ = pure []

  -- All ciphertexts of `meta^i`: the last one holds the meta data of the caller.
  unfoldable pub meta_ciphers :
      OnionFormat p → List p.SymmetricKey → List Address → Meta → Rand p.Rng (List (List Byte))
  unfolding hop_ciphers
  meta_ciphers f keys hops meta = do
    cs ← hop_ciphers f keys hops
    address ← lift (or_panic (last? hops))
    key ← lift (or_panic (last? keys))
    c ← encrypt_meta f key address meta
    pure (cs ++ (c ∷ []))

  -- `header_blocks[n - 1][j] = self.random_header(&mut rng)` for `count` columns from `j` on.
  unfoldable pub fill_random :
      ℕ → ℕ → ℕ → List (List (Header p)) → Rand p.Rng (List (List (Header p)))
  unfolding random_header write2
  fill_random zero j row t = pure t
  fill_random (suc count) j row t = do
    h ← draw (random_header p)
    t' ← lift (write2 t row j h)
    fill_random count (j + 1) row t'

  -- `for key in keys { bwd = self.ae_unwrap(key, bwd) }`
  unfoldable pub unwrap_all : List p.SymmetricKey → List Byte × p.Tag → Outcome (List Byte × p.Tag)
  unfolding ae_unwrap
  unwrap_all [] bwd = ok bwd
  unwrap_all (key ∷ keys) bwd = Outcome.◌>>=◌ (ae_unwrap p key bwd) (unwrap_all keys)

  -- `for key in keys { self.symmetric_decrypt(key, NONCE_FWD, &mut data) }`
  unfoldable pub decrypt_all : List p.SymmetricKey → List Byte → List Byte
  decrypt_all [] bs = bs
  decrypt_all (key ∷ keys) bs = decrypt_all keys (p.symmetric_decrypt key nonce_fwd bs)

  -- `(fwd_n, bwd, bwd_n, expected_tag)`
  unfoldable pub prepare :
      List p.SymmetricKey
      → List p.SymmetricKey
      → Payload
      → ℕ
      → Rand p.Rng (List Byte × (List Byte × p.Tag) × (List Byte × p.Tag) × p.Tag)
  unfolding random_bytes unwrap_all decrypt_all ae_unwrap
  prepare keys keys_symmetric (forward bs) backward_payload_length = do
    key ← lift (index keys_symmetric (length keys - 1))
    garbage ← draw (random_bytes p backward_payload_length)
    garbage_tag ← draw p.random_tag
    bwd_n ← lift (unwrap_all (init keys) (garbage, garbage_tag))
    last ← lift (or_panic (last? keys))
    final ← lift (ae_unwrap p last bwd_n)
    pure (p.symmetric_encrypt key nonce_fwd bs, (garbage, garbage_tag), bwd_n, final.1)
  prepare keys keys_symmetric (backward bs) backward_payload_length = pure (
    decrypt_all (take (length keys - 1) keys_symmetric) bs,
    ([], p.default_tag),
    ([], p.default_tag),
    p.default_tag,
  )

  -- `for i in (0..n - 1).rev()`: the last header goes, and a layer comes on top.
  unfoldable pub wrap_layers :
      ℕ
      → List p.SymmetricKey
      → List (List Byte)
      → List (Header p)
      → List Byte
      → Outcome (List (Header p) × List Byte)
  unfolding wrap
  wrap_layers zero keys ciphers headers fwd = ok (headers, fwd)
  wrap_layers (suc i) keys ciphers headers fwd = Outcome.◌>>=◌ (index keys i) λ key.
      Outcome.◌>>=◌ (index ciphers i) λ c.
        let (headers', fwd') = wrap b p key c (init headers) fwd in
        wrap_layers i keys ciphers headers' fwd'

  -- The onion for the first hop, the onion as the last hop receives it, and the expected tag.
  -- The lengths that are subtracted from are at least the numbers subtracted: from `meta_ciphers`
  -- on there is a hop, and there are at most `max_path_length` of them.
  unfoldable pub onionize :
      OnionFormat p
      → List p.SymmetricKey
      → List Address
      → Meta
      → Payload
      → ℕ
      → Rand p.Rng (Onion p × Onion p × p.Tag)
  unfolding meta_ciphers fill_rows fill_random prepare mac_input structured wrap_layers
  onionize f keys hops meta payload backward_payload_length = do
    lift (assert (length keys == length hops))
    lift (require (leb (length hops) f.max_path_length) path_too_long)
    let n = length keys
    let keys_symmetric = map (p.derive_key sym_enc) keys
    let keys_mac = map (p.derive_key mac) keys
    ciphers ← meta_ciphers f keys hops meta
    let blank = replicate f.max_path_length (replicate f.max_path_length blank_header)
    filled ← lift (fill_rows b p f.max_path_length (n - 1) 0 keys_symmetric blank)
    header_blocks ← fill_random (f.max_path_length - n) 1 (n - 1) filled
    (fwd_n, bwd, bwd_n, expected_tag) ← prepare keys keys_symmetric payload backward_payload_length
    key_mac ← lift (index keys_mac (n - 1))
    cipher ← lift (index ciphers (n - 1))
    row ← lift (index header_blocks (n - 1))
    let tag = p.tag key_mac (mac_input b p cipher (drop 1 row) fwd_n)
    let headers_n = structured b p tag cipher ∷ drop 1 row
    (headers, fwd) ← lift (wrap_layers (n - 1) keys ciphers headers_n fwd_n)
    pure (
      record { header = headers; forward = fwd; backward = bwd },
      record { header = headers_n; forward = fwd_n; backward = bwd_n },
      expected_tag,
    )
