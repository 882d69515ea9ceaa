-- ===== src/Layer/Sizes.antt =====
-- The size of an onion on its way: `unwrap` keeps it.
use eror.Prelude.{
  ℕ, suc, ◌+◌, ◌*◌, ◌≡◌, sym, ap, ◌∙◌, subst, List, [], ◌∷◌, ◌++◌, map, length, length-append,
  length-map, length-replicate, All, arith,
}
use eror.Prelude.Outcome.{ok, ok-injective}
use eror.Bytes.{Byte, byte, zeros}
use eror.Serde.{Bincode, IsBincode}
use eror.Primitives.{Primitives, IsPrimitives, sym_enc}
use eror.Onion.{pack, meta_codec, Meta, Header, raw, Onion, into_bytes, onion_codec}
use eror.Onion.Serialize.{size-block, size-meta, size-onion}
use eror.Format.{nonce_fwd, OnionFormat, single_header_length}
use eror.Format.Ae.{ae_wrap-ae_unwrap}
use eror.Layer.{unwrap, wrap, layer_codec}
use eror.Layer.Headers.{
  encrypt_from, length-encrypt_from, encrypt_headers-raw, zero_bytes, decrypt_from,
  length-decrypt_from, header_bytes, header_bytes-raw,
}
use eror.Layer.Peel.{wrap_block, shifted, peel_lem}
use eror.Layer.Tamper.{unwrap_checks}

module _ (b : Bincode) (p : Primitives) (hb : IsBincode b) (hp : IsPrimitives p) where
  -- Headers of the size that `single_header_length` computes.
  abbrev pub AreSized : List (List Byte) → Type 0
  AreSized hs = All (λ h. length h ≡ single_header_length p) hs

  length-zero_bytes : length (zero_bytes p) ≡ single_header_length p
  unfolding zeros
  length-zero_bytes = length-replicate (single_header_length p) (byte 0)

  pub decrypt_from-AreSized :
      (k : p.SymmetricKey) (i : ℕ) (hs : List (List Byte))
      → AreSized hs
      → AreSized (decrypt_from p k i hs)
  unfolding decrypt_from
  decrypt_from-AreSized k i [] h = tt
  decrypt_from-AreSized k i (x ∷ hs) h =
      (hp.length-decrypt k (i + 2) x ∙ h.0, decrypt_from-AreSized k (i + 1) hs h.1)

  pub append-AreSized : (hs : List (List Byte)) → AreSized hs → AreSized (hs ++ (zero_bytes p ∷ []))
  append-AreSized [] h = (length-zero_bytes, tt)
  append-AreSized (x ∷ hs) h = (h.0, append-AreSized hs h.1)

  -- The onion that a hop sends on has as many bytes as the one that it received, if this one has as
  -- many headers as the longest path has hops, all of the size that `single_header_length` computes.
  pub unwrap_size :
      (f : OnionFormat p) (sk : p.PrivateKey) (x : Header p) (rest : List (Header p))
      (fwd : List Byte) (bwd : List Byte × p.Tag) {key : p.SymmetricKey} {meta : Meta}
      {onion' : Onion p}
      → f.max_path_length ≡ suc (length rest)
      → AreSized (header_bytes b p (x ∷ rest))
      → unwrap b p f sk (record { header = x ∷ rest; forward = fwd; backward = bwd })
        ≡ ok (key, meta, onion')
      → length ((onion_codec b p).write onion')
        ≡ length
            ((onion_codec b p).write (record { header = x ∷ rest; forward = fwd; backward = bwd }))
  unwrap_size f sk x rest fwd bwd {key} {meta} {onion'} l sized e =
      let (_, _, _, _, _, _, (_, _, peeled)) = unwrap_checks b p hp f sk _ e in
      let (back, e', _, same) = ae_wrap-ae_unwrap p hp key bwd in
      let k = p.derive_key sym_enc key in
      let heads = shifted b p key (header_bytes b p rest) in
      let out = inner key rest fwd back in
      let is_out : out ≡ onion' =
        ok-injective (sym (peel_lem b p f key x rest fwd bwd back l e') ∙ peeled) in
      let n = single_header_length p in
      let count : length heads ≡ suc (length rest) = omega (
        arith,
        length-decrypt_from p k 0 (header_bytes b p rest ++ (zero_bytes p ∷ [])),
        length-append (header_bytes b p rest) (zero_bytes p ∷ []),
        length-map (into_bytes b p) rest,
      ) in
      let sized_out : AreSized (header_bytes b p (map raw heads)) =
        subst AreSized (sym (header_bytes-raw b p heads))
          (decrypt_from-AreSized k 0 _ (append-AreSized (header_bytes b p rest) sized.1)) in
      ap (λ (o : Onion p). length ((onion_codec b p).write o)) (sym is_out)
      ∙ size-onion b p hb hp out n sized_out
      ∙ same_size n (omega (arith, length-map raw heads, count)) (hp.length-decrypt k _ fwd) same
      ∙ sym (
          size-onion b p hb hp (record { header = x ∷ rest; forward = fwd; backward = bwd }) n
            sized)
    where
      inner : p.SymmetricKey → List (Header p) → List Byte → List Byte × p.Tag → Onion p
      inner key rest fwd back = record {
        header = map raw (shifted b p key (header_bytes b p rest));
        forward = p.symmetric_decrypt (p.derive_key sym_enc key) nonce_fwd fwd;
        backward = back;
      }

      same_size :
          (n : ℕ) {a a' c c' d d' : ℕ}
          → a ≡ a'
          → c ≡ c'
          → d ≡ d'
          → (8 + a * (8 + n)) + (8 + c) + (8 + d + 16)
            ≡ (8 + a' * (8 + n)) + (8 + c') + (8 + d' + 16)
      same_size n {a} {a'} ea ec ed = omega (arith, ap (λ (k : ℕ). k * (8 + n)) ea, ec, ed)

  pub encrypt_from-AreSized :
      (k : p.SymmetricKey) (i : ℕ) (hs : List (List Byte))
      → AreSized hs
      → AreSized (encrypt_from p k i hs)
  unfolding encrypt_from
  encrypt_from-AreSized k i [] h = tt
  encrypt_from-AreSized k i (x ∷ hs) h =
      (hp.length-encrypt k (i + 2) x ∙ h.0, encrypt_from-AreSized k (i + 1) hs h.1)

  -- What `onionize` encrypts a layer's key and meta data to.
  abbrev pub layer_cipher : p.PublicKey → p.SymmetricKey → Meta → p.Rng → List Byte
  layer_cipher pk key meta r = (p.asymmetric_encrypt pk ((layer_codec b p).write (key, meta)) r).0

  block_size :
      (pk : p.PublicKey) (key : p.SymmetricKey) (meta : Meta) (r : p.Rng) (hs : List (Header p))
      (payload : List Byte)
      → length (pack b p (wrap_block b p hb hp key (layer_cipher pk key meta r) hs payload))
        ≡ single_header_length p
  unfolding layer_codec single_header_length
  block_size pk key meta r hs payload = omega (
    arith,
    size-block b p hb hp (wrap_block b p hb hp key (layer_cipher pk key meta r) hs payload),
    hp.size-asymmetric pk ((layer_codec b p).write (key, meta)) r,
    hb.size-pair p.key_codec (meta_codec b) (key, meta),
    hp.size-key key,
    size-meta b hb meta,
  )

  -- Around a ciphertext of `onionize`, `wrap` makes a header of exactly the size that
  -- `single_header_length` computes, and the headers that it encrypts keep that size; there is one
  -- more of them, and the payload keeps its length.
  pub wrap_size :
      (pk : p.PublicKey) (key : p.SymmetricKey) (meta : Meta) (r : p.Rng) (hs : List (Header p))
      (payload : List Byte)
      → AreSized (header_bytes b p hs)
      → let (hs', payload') = wrap b p key (layer_cipher pk key meta r) hs payload in
        AreSized (header_bytes b p hs')
        × (length hs' ≡ suc (length hs))
        × (length payload' ≡ length payload)
  unfolding wrap into_bytes
  wrap_size pk key meta r hs payload sized =
      let k = p.derive_key sym_enc key in
      let enc = encrypt_from p k 0 (header_bytes b p hs) in
      (
        (
          block_size pk key meta r hs payload,
          subst (λ (t : List (Header p)). AreSized (header_bytes b p t))
              (sym (encrypt_headers-raw b p k 0 hs))
              (subst AreSized (sym (header_bytes-raw b p enc))
                (encrypt_from-AreSized k 0 (header_bytes b p hs) sized)),
        ),
        ap suc (
            ap length (encrypt_headers-raw b p k 0 hs)
            ∙ length-map raw enc
            ∙ length-encrypt_from p k 0 (header_bytes b p hs)
            ∙ length-map (into_bytes b p) hs),
        hp.length-encrypt k nonce_fwd payload,
      )
