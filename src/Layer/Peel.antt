-- ===== src/Layer/Peel.antt =====
-- `OnionFormat::unwrap` takes off the layer that `OnionFormat::wrap` put on.
use eror.Prelude.{
  ℕ, suc, ◌+◌, ◌≡◌, refl, sym, ap, ap₂, ◌∙◌, true, List, [], ◌∷◌, ◌++◌, map, map-append, length,
  length-map, arith,
}
use eror.Prelude.Outcome.{ok}
use eror.Prelude.Index.{write_last-append}
use eror.Bytes.{Byte}
use eror.Serde.{Bincode, IsBincode, AnyValue, IsSmall, deserialize}
use eror.Serde.Laws.{deserialize-write_all}
use eror.Primitives.{Primitives, IsPrimitives, sym_enc, mac}
use eror.Onion.{Meta, HeaderBlock, Header, raw, parsed, Onion, into_bytes, into_parsed}
use eror.Onion.Serialize.{read-meta, unpack-pack}
use eror.Format.{OnionFormat, nonce_fwd, ae_unwrap, ae_wrap}
use eror.Format.Ae.{ae_wrap-ae_unwrap}
use eror.Layer.{layer_codec, mac_input, encrypt_headers, wrap, peel, unwrap}
use eror.Layer.Headers.{
  zero_bytes, decrypt_from, encrypt_from, header_bytes, header_bytes-raw, encrypt_headers-raw,
  shift_headers_lem, decrypt_from-append, decrypt_from-encrypt_from, length-encrypt_from,
}

module _ (b : Bincode) (p : Primitives) where
  -- The headers that `unwrap` leaves: those behind the first with one of zeros at the end, all
  -- decrypted.
  abbrev pub shifted : p.SymmetricKey → List (List Byte) → List (List Byte)
  shifted key rest = decrypt_from p (p.derive_key sym_enc key) 0 (rest ++ (zero_bytes p ∷ []))

  shifted-eq :
      (key : p.SymmetricKey) (rest : List (Header p))
      → ◌++◌ {A = Header p}
          (map raw (decrypt_from p (p.derive_key sym_enc key) 0 (header_bytes b p rest)))
          (raw (
              p.symmetric_decrypt (p.derive_key sym_enc key) (suc (length rest) + 1) (zero_bytes p))
            ∷ [])
        ≡ map raw (shifted key (header_bytes b p rest))
  unfolding decrypt_from
  shifted-eq key rest =
      let k = p.derive_key sym_enc key in
      let front : List (Header p) = map raw (decrypt_from p k 0 (header_bytes b p rest)) in
      let nonce : suc (length rest) + 1 ≡ 0 + length (header_bytes b p rest) + 2 =
        omega (arith, length-map (into_bytes b p) rest) in
      ap (λ (n : ℕ). front ++ (raw (p.symmetric_decrypt k n (zero_bytes p)) ∷ [])) nonce
      ∙ sym (
          ap (map raw) (decrypt_from-append p k 0 (header_bytes b p rest) (zero_bytes p ∷ []))
          ∙ map-append raw (decrypt_from p k 0 (header_bytes b p rest)) _)

  -- The part of `unwrap` behind the check, on an onion of the right number of headers.
  pub peel_lem :
      (f : OnionFormat p) (key : p.SymmetricKey) (x : Header p) (rest : List (Header p))
      (fwd : List Byte) (bwd back : List Byte × p.Tag)
      → f.max_path_length ≡ suc (length rest)
      → ae_unwrap p key bwd ≡ ok back
      → peel b p f key (record { header = x ∷ rest; forward = fwd; backward = bwd })
        ≡ ok (record {
          header = map raw (shifted key (header_bytes b p rest));
          forward = p.symmetric_decrypt (p.derive_key sym_enc key) nonce_fwd fwd;
          backward = back;
        })
  unfolding peel
  peel_lem f key x rest fwd bwd back l e =
      rw (l, shift_headers_lem b p (p.derive_key sym_enc key) [] x rest)
        (rw (write_last-append, e)
          (ap
            (λ (hs : List (Header p)). ok (record {
              header = hs;
              forward = p.symmetric_decrypt (p.derive_key sym_enc key) nonce_fwd fwd;
              backward = back;
            }))
            (shifted-eq key rest)))

  -- `unwrap` where every check passes.
  pub unwrap_lem :
      (f : OnionFormat p) (sk : p.PrivateKey) (x : Header p) (rest : List (Header p))
      (fwd plain : List Byte) (bwd back : List Byte × p.Tag) (block : HeaderBlock p)
      (key : p.SymmetricKey) (meta : Meta)
      → f.max_path_length ≡ suc (length rest)
      → into_parsed b p x ≡ ok block
      → p.asymmetric_decrypt sk block.body ≡ ok plain
      → deserialize (layer_codec b p) plain ≡ ok (key, meta)
      → p.tag_eq (p.tag (p.derive_key mac key) (mac_input b p block.body rest fwd)) block.tag ≡ true
      → ae_unwrap p key bwd ≡ ok back
      → unwrap b p f sk (record { header = x ∷ rest; forward = fwd; backward = bwd })
        ≡ ok (
          key,
          meta,
          record {
            header = map raw (shifted key (header_bytes b p rest));
            forward = p.symmetric_decrypt (p.derive_key sym_enc key) nonce_fwd fwd;
            backward = back;
          },
        )
  unfolding unwrap
  unwrap_lem f sk x rest fwd plain bwd back block key meta l e1 e2 e3 e4 e5 =
      rw (e1, e2) (rw (e3, e4) (rw (peel_lem f key x rest fwd bwd back l e5) refl))

module _ (b : Bincode) (p : Primitives) (hb : IsBincode b) (hp : IsPrimitives p) where
  pub read-layer :
      (key : p.SymmetricKey) (meta : Meta)
      → deserialize (layer_codec b p) ((layer_codec b p).write (key, meta)) ≡ ok (key, meta)
  unfolding layer_codec
  read-layer key meta =
      deserialize-write_all (layer_codec b p) (λ x. AnyValue x.0 × AnyValue x.1) (key, meta)
        (hb.read-pair p.key_codec _ AnyValue AnyValue hp.read-key (read-meta b hb)) (tt, tt)

  -- What the holder of a private key finds in a ciphertext.
  abbrev pub Holds : p.PrivateKey → List Byte → p.SymmetricKey → Meta → Type 0
  Holds sk c key meta = p.asymmetric_decrypt sk c ≡ ok ((layer_codec b p).write (key, meta))

  -- The onion that is left when a layer is taken off.
  abbrev pub inner_onion :
      p.SymmetricKey → List (Header p) → List Byte → List Byte × p.Tag → Onion p
  inner_onion key hs payload back = record {
    header = map raw (
        header_bytes b p hs
        ++ (p.symmetric_decrypt (p.derive_key sym_enc key) (length hs + 2) (zero_bytes p) ∷ []));
    forward = payload;
    backward = back;
  }

  length-encrypt_headers :
      (k : p.SymmetricKey) (hs : List (Header p)) → length (encrypt_headers b p k 0 hs) ≡ length hs
  length-encrypt_headers k hs =
      ap length (encrypt_headers-raw b p k 0 hs)
      ∙ length-map raw (encrypt_from p k 0 (header_bytes b p hs))
      ∙ length-encrypt_from p k 0 (header_bytes b p hs)
      ∙ length-map (into_bytes b p) hs

  encrypt_headers-unparsed :
      (k : p.SymmetricKey) (hs : List (Header p))
      → map raw (header_bytes b p (encrypt_headers b p k 0 hs)) ≡ encrypt_headers b p k 0 hs
  encrypt_headers-unparsed k hs =
      let enc = encrypt_from p k 0 (header_bytes b p hs) in
      ap (λ (t : List (Header p)). map raw (header_bytes b p t)) (encrypt_headers-raw b p k 0 hs)
      ∙ ap (map raw) (header_bytes-raw b p enc)
      ∙ sym (encrypt_headers-raw b p k 0 hs)

  shifted-encrypt_headers :
      (key : p.SymmetricKey) (hs : List (Header p))
      → shifted b p key (header_bytes b p (encrypt_headers b p (p.derive_key sym_enc key) 0 hs))
        ≡ header_bytes b p hs
          ++ (p.symmetric_decrypt (p.derive_key sym_enc key) (length hs + 2) (zero_bytes p) ∷ [])
  unfolding decrypt_from
  shifted-encrypt_headers key hs =
      let k = p.derive_key sym_enc key in
      let bs = header_bytes b p hs in
      let enc = encrypt_from p k 0 bs in
      let n : 0 + length enc + 2 ≡ length hs + 2 =
        omega (arith, length-encrypt_from p k 0 bs, length-map (into_bytes b p) hs) in
      rw (encrypt_headers-raw b p k 0 hs, header_bytes-raw b p enc)
        (decrypt_from-append p k 0 enc (zero_bytes p ∷ [])
          ∙ ap₂
              (λ (front : List (List Byte)) (m : ℕ).
                front ++ (p.symmetric_decrypt k m (zero_bytes p) ∷ []))
              (decrypt_from-encrypt_from p hp k 0 bs) n)

  -- The block that `wrap` puts in front.
  abbrev pub wrap_block : p.SymmetricKey → List Byte → List (Header p) → List Byte → HeaderBlock p
  wrap_block key c hs payload = record {
    tag = p.tag (p.derive_key mac key) (
        mac_input b p c (encrypt_headers b p (p.derive_key sym_enc key) 0 hs)
          (p.symmetric_encrypt (p.derive_key sym_enc key) nonce_fwd payload));
    body = c;
  }

  -- The same for any first header that parses to that block.
  pub unwrap-wrap_first :
      (f : OnionFormat p) (sk : p.PrivateKey) (key : p.SymmetricKey) (meta : Meta) (c : List Byte)
      (x : Header p) (hs : List (Header p)) (payload : List Byte) (bwd back : List Byte × p.Tag)
      → f.max_path_length ≡ length hs + 1
      → into_parsed b p x ≡ ok (wrap_block key c hs payload)
      → Holds sk c key meta
      → ae_unwrap p key bwd ≡ ok back
      → unwrap b p f sk (record {
        header = x ∷ encrypt_headers b p (p.derive_key sym_enc key) 0 hs;
        forward = p.symmetric_encrypt (p.derive_key sym_enc key) nonce_fwd payload;
        backward = bwd;
      })
        ≡ ok (key, meta, inner_onion key hs payload back)
  unwrap-wrap_first f sk key meta c x hs payload bwd back l e holds e' =
      let k = p.derive_key sym_enc key in
      unwrap_lem b p f sk x (encrypt_headers b p k 0 hs) (p.symmetric_encrypt k nonce_fwd payload) _
        bwd back (wrap_block key c hs payload) key meta
        (l ∙ omega (arith, length-encrypt_headers k hs)) e holds (read-layer key meta)
        (hp.tag_eq_refl _) e'
      ∙ ap₂
          (λ (headers : List (List Byte)) (fwd : List Byte).
            ok (key, meta, record { header = map raw headers; forward = fwd; backward = back }))
          (shifted-encrypt_headers key hs) (hp.decrypt-encrypt k nonce_fwd payload)

  -- A hop that can read the ciphertext of a layer takes off exactly the layer that `wrap` put on:
  -- it learns the key and the meta data, the headers and the payload are those from before `wrap`,
  -- with one deterministic header at the end, and the backward part loses a layer, which `ae_wrap`
  -- puts on again. The number of headers has to be one less than the longest path, and the
  -- ciphertext shorter than 2^64 bytes.
  pub unwrap-wrap :
      (f : OnionFormat p) (sk : p.PrivateKey) (key : p.SymmetricKey) (meta : Meta) (c : List Byte)
      (hs : List (Header p)) (payload : List Byte) (bwd : List Byte × p.Tag)
      → f.max_path_length ≡ length hs + 1
      → IsSmall c
      → Holds sk c key meta
      → let (hs', payload') = wrap b p key c hs payload in
        (back : List Byte × p.Tag) × (unwrap b p f sk
            (record { header = hs'; forward = payload'; backward = bwd })
          ≡ ok (key, meta, inner_onion key hs payload back))
        × (ae_wrap p key back ≡ ok bwd)
  unfolding wrap
  unwrap-wrap f sk key meta c hs payload bwd l small holds =
      let (back, e, e', _) = ae_wrap-ae_unwrap p hp key bwd in
      (
        back,
        unwrap-wrap_first f sk key meta c (parsed (wrap_block key c hs payload)) hs payload bwd back
            l (unpack-pack b p hb hp (wrap_block key c hs payload) small).0 holds e,
        e',
      )

  -- The same when the wrapped onion has been sent over the wire, which leaves all headers raw.
  pub unwrap-wrap_raw :
      (f : OnionFormat p) (sk : p.PrivateKey) (key : p.SymmetricKey) (meta : Meta) (c : List Byte)
      (hs : List (Header p)) (payload : List Byte) (bwd back : List Byte × p.Tag)
      → f.max_path_length ≡ length hs + 1
      → IsSmall c
      → Holds sk c key meta
      → ae_unwrap p key bwd ≡ ok back
      → let (hs', payload') = wrap b p key c hs payload in
        unwrap b p f sk
          (record { header = map raw (header_bytes b p hs'); forward = payload'; backward = bwd })
        ≡ ok (key, meta, inner_onion key hs payload back)
  unfolding wrap
  unwrap-wrap_raw f sk key meta c hs payload bwd back l small holds e =
      let k = p.derive_key sym_enc key in
      let block = wrap_block key c hs payload in
      ap
        (λ (rest : List (Header p)). unwrap b p f sk (record {
          header = raw (into_bytes b p (parsed block)) ∷ rest;
          forward = p.symmetric_encrypt k nonce_fwd payload;
          backward = bwd;
        }))
        (encrypt_headers-unparsed k hs)
      ∙ unwrap-wrap_first f sk key meta c (raw (into_bytes b p (parsed block))) hs payload bwd back
          l (unpack-pack b p hb hp block small).1 holds e
