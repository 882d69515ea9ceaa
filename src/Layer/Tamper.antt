-- ===== src/Layer/Tamper.antt =====
-- What `OnionFormat::unwrap` checks: a changed header block or forward payload is refused.
use eror.Prelude.{
  ◌<◌, ◌^◌, ◌≡◌, ◌≢◌, ◌⊎◌, refl, sym, ap, subst, ◌∙◌, false, Bool-cases, inl, inr, List, [], ◌∷◌,
  map, length, length-map, All, get_elem?, drop, some,
}
use eror.Prelude.Outcome.{
  ok, err, mac_mismatch, index, require, or_else_err, >>=-eq-ok, or_panic-eq-ok, or_else_err-eq-ok,
  require-eq-ok,
}
use eror.Bytes.{Byte}
use eror.Serde.{RoundTrips, IsSmall, Bincode, IsBincode, deserialize}
use eror.Serde.Laws.{write-injective}
use eror.Primitives.{Primitives, IsPrimitives, mac}
use eror.Onion.{
  Meta, HeaderBlock, Header, raw, parsed, Onion, into_bytes, into_parsed, header_codec,
}
use eror.Onion.Serialize.{read-header, unpack-pack}
use eror.Layer.Peel.{read-layer}
use eror.Layer.Headers.{header_bytes, header_bytes-raw}
use eror.Format.{OnionFormat}
use eror.Layer.{layer_codec, mac_codec, mac_input, unwrap, peel}

module _ (b : Bincode) (p : Primitives) where
  -- The tag that `unwrap` computes for a layer with this key and data.
  abbrev pub layer_tag : p.SymmetricKey → List Byte → List (Header p) → List Byte → p.Tag
  layer_tag key body rest fwd = p.tag (p.derive_key mac key) (mac_input b p body rest fwd)

  abbrev pub Checked :
      OnionFormat p → Onion p → HeaderBlock p → List Byte → p.SymmetricKey → Meta → Onion p → Type 0
  Checked f onion block plain key meta onion' =
      (deserialize (layer_codec b p) plain ≡ ok (key, meta))
      × (layer_tag key block.body (drop 1 onion.header) onion.forward ≡ block.tag)
      × (peel b p f key onion ≡ ok onion')

  -- The checks of `unwrap`, passed by an onion with this result.
  abbrev pub IsAccepted :
      OnionFormat p → p.PrivateKey → Onion p → p.SymmetricKey → Meta → Onion p → Type 0
  IsAccepted f sk onion key meta onion' =
      (x : Header p) × (block : HeaderBlock p) × (plain : List Byte) × (get_elem? onion.header 0
        ≡ some x)
      × (into_parsed b p x ≡ ok block)
      × (p.asymmetric_decrypt sk block.body ≡ ok plain)
      × Checked f onion block plain key meta onion'

  -- `unwrap` succeeds only on an onion whose first header parses, whose data decrypts to the key and
  -- the meta data that are returned, and whose tag is the one computed with that key over the data,
  -- the other headers and the forward payload.
  pub unwrap_checks :
      IsPrimitives p
      → (f : OnionFormat p) (sk : p.PrivateKey) (onion : Onion p) {key : p.SymmetricKey}
        {meta : Meta} {onion' : Onion p}
      → unwrap b p f sk onion ≡ ok (key, meta, onion')
      → IsAccepted f sk onion key meta onion'
  unfolding unwrap
  unwrap_checks hp f sk onion {key} {meta} {onion'} h =
      let (x, e0, h0) = >>=-eq-ok (index onion.header 0) _ h in
      let (block, e1, h1) = >>=-eq-ok (into_parsed b p x) _ h0 in
      let (plain, e2, h2) = >>=-eq-ok (p.asymmetric_decrypt sk block.body) _ h1 in
      let (km, e3, h3) =
        >>=-eq-ok (or_else_err (deserialize (layer_codec b p) plain) mac_mismatch) _ h2 in
      let test =
        p.tag_eq (layer_tag km.0 block.body (drop 1 onion.header) onion.forward) block.tag in
      let (u, e4, h4) = >>=-eq-ok (require test mac_mismatch) _ h3 in
      let (o, e5, h5) = >>=-eq-ok (peel b p f km.0 onion) _ h4 in
      let same : ◌≡◌ {A = p.SymmetricKey × Meta × Onion p} (km.0, km.1, o) (key, meta, onion') =
        cc in
      let (d, t, q) =
        subst (λ (r : p.SymmetricKey × Meta × Onion p). Checked f onion block plain r.0 r.1 r.2)
          same
          (
            or_else_err-eq-ok _ mac_mismatch e3,
            hp.tag_eq_sound _ _ (require-eq-ok test mac_mismatch e4),
            e5,
          ) in
      (x, block, plain, or_panic-eq-ok _ e0, e1, e2, (d, t, q))

  -- An onion whose tag is another than the one computed is refused.
  pub unwrap_refuses :
      (f : OnionFormat p) (sk : p.PrivateKey) (x : Header p) (rest : List (Header p))
      (fwd plain : List Byte) (bwd : List Byte × p.Tag) (block : HeaderBlock p)
      (key : p.SymmetricKey) (meta : Meta)
      → into_parsed b p x ≡ ok block
      → p.asymmetric_decrypt sk block.body ≡ ok plain
      → deserialize (layer_codec b p) plain ≡ ok (key, meta)
      → p.tag_eq (layer_tag key block.body rest fwd) block.tag ≡ false
      → unwrap b p f sk (record { header = x ∷ rest; forward = fwd; backward = bwd })
        ≡ err mac_mismatch
  unfolding unwrap
  unwrap_refuses f sk x rest fwd plain bwd block key meta e1 e2 e3 e4 = rw (e1, e2) (rw (e3, e4))

module _ (b : Bincode) (p : Primitives) (hb : IsBincode b) (hp : IsPrimitives p) where
  -- Headers as they come from the wire: raw, and each shorter than 2^64 bytes.
  abbrev pub AreSmall : List (List Byte) → Type 0
  AreSmall hs = All IsSmall hs × (length hs < 2 ^ 64)

  abbrev pub IsRaw : Header p → Type 0
  IsRaw h = (h ≡ raw (into_bytes b p h)) × (length (into_bytes b p h) < 2 ^ 64)

  pub read-header_codec : RoundTrips (header_codec b p) IsRaw
  read-header_codec h rest e = read-header b p hb hp h rest e.1 ∙ ap (λ x. some (x, rest)) (sym e.0)

  pub All-IsRaw : (hs : List (List Byte)) → All IsSmall hs → All IsRaw (map raw hs)
  unfolding into_bytes
  All-IsRaw [] h = tt
  All-IsRaw (x ∷ xs) h = ((refl, h.0), All-IsRaw xs h.1)

  map-raw-injective :
      (hs gs : List (List Byte)) → ◌≡◌ {A = List (Header p)} (map raw hs) (map raw gs) → hs ≡ gs
  map-raw-injective hs gs e =
      sym (header_bytes-raw b p hs) ∙ ap (header_bytes b p) e ∙ header_bytes-raw b p gs

  -- The bytes under the tag determine the other headers and the forward payload.
  pub mac_input-injective :
      (c : List Byte) (hs gs : List (List Byte)) (fwd fwd' : List Byte)
      → IsSmall c
      → AreSmall hs
      → AreSmall gs
      → IsSmall fwd
      → IsSmall fwd'
      → mac_input b p c (map raw hs) fwd ≡ mac_input b p c (map raw gs) fwd'
      → (hs ≡ gs) × (fwd ≡ fwd')
  unfolding mac_input
  mac_input-injective c hs gs fwd fwd' hc hh hg hf hf' e =
      let same =
        write-injective (mac_codec b p) _ (c, (map raw hs, fwd)) (c, (map raw gs, fwd'))
          (unfold mac_codec in
            hb.read-pair b.byte_vec (b.pair (b.vec (header_codec b p)) b.byte_vec) IsSmall _
              hb.read-byte_vec
              (hb.read-pair (b.vec (header_codec b p)) b.byte_vec _ IsSmall
                (hb.read-vec (header_codec b p) IsRaw read-header_codec) hb.read-byte_vec))
          (hc, ((All-IsRaw hs hh.0, rw length-map hh.1), hf))
          (hc, ((All-IsRaw gs hg.0, rw length-map hg.1), hf')) e in
      (map-raw-injective hs gs (ap (λ t. (t.1).0) same), ap (λ t. (t.1).1) same)

  -- If the MAC under the layer's key has no collision between the two inputs, then any change of a
  -- header block behind the first or of the forward payload is refused with `MacMismatch`.
  pub unwrap_tampered :
      (f : OnionFormat p) (sk : p.PrivateKey) (key : p.SymmetricKey) (meta : Meta)
      (c fwd fwd' : List Byte) (hs gs : List (List Byte)) (bwd : List Byte × p.Tag)
      → IsSmall c
      → AreSmall hs
      → AreSmall gs
      → IsSmall fwd
      → IsSmall fwd'
      → p.asymmetric_decrypt sk c ≡ ok ((layer_codec b p).write (key, meta))
      → (layer_tag b p key c (map raw gs) fwd' ≡ layer_tag b p key c (map raw hs) fwd
          → mac_input b p c (map raw gs) fwd' ≡ mac_input b p c (map raw hs) fwd)
      → (gs ≢ hs) ⊎ (fwd' ≢ fwd)
      → unwrap b p f sk (record {
        header =
            parsed (record { tag = layer_tag b p key c (map raw hs) fwd; body = c }) ∷ map raw gs;
        forward = fwd';
        backward = bwd;
      })
        ≡ err mac_mismatch
  unwrap_tampered f sk key meta c fwd fwd' hs gs bwd hc hh hg hf hf' holds no_collision changed =
      elim (Bool-cases
        (p.tag_eq (layer_tag b p key c (map raw gs) fwd') (layer_tag b p key c (map raw hs) fwd))) [
          | inl e ↦ absurd (
              unchanged
                (mac_input-injective c gs hs fwd' fwd hc hg hh hf' hf
                  (no_collision (hp.tag_eq_sound _ _ e)))
                changed)
          | inr e ↦
              unwrap_refuses b p f sk _ (map raw gs) fwd' _ bwd
                (record { tag = layer_tag b p key c (map raw hs) fwd; body = c }) key meta
                (unpack-pack b p hb hp _ hc).0 holds (read-layer b p hb hp key meta) e
        ]
    where
      unchanged : (gs ≡ hs) × (fwd' ≡ fwd) → (gs ≢ hs) ⊎ (fwd' ≢ fwd) → ⊥
      unchanged same (inl ne) = ne same.0
      unchanged same (inr ne) = ne same.1
