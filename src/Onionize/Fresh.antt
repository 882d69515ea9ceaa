-- ===== src/Onionize/Fresh.antt =====
-- The shape of the headers that `onionize` makes: a parsed block in front, then raw headers, as many
-- as the longest path has hops, all of the same size.
use eror.Prelude.{
  ℕ, zero, suc, ◌+◌, ◌-◌, ◌<◌, ◌^◌, ◌≡◌, refl, sym, ap, ◌∙◌, subst, fun_ext, List, [], ◌∷◌, ◌++◌,
  map, length, length-map, init, arith, length-append,
}
use eror.Prelude.Outcome.{
  Outcome, ok, index, ok-injective, >>=-eq-ok, ◌>>=◌, ◌>>◌, require, or_else_err, mac_mismatch,
}
use eror.Prelude.Index.{get_or, index-get_or}
use eror.Bytes.{Byte}
use eror.Serde.{Bincode, IsBincode, deserialize}
use eror.Primitives.{Primitives, IsPrimitives, sym_enc, mac}
use eror.Onion.{Meta, HeaderBlock, Header, raw, parsed, Onion, into_bytes, into_parsed}
use eror.Onion.Serialize.{unparsed, unpack-pack, size-block}
use eror.Format.{OnionFormat, single_header_length}
use eror.Format.Ae.{ae_wrap-ae_unwrap}
use eror.Layer.{wrap, unwrap, peel, layer_codec, mac_input}
use eror.Layer.Headers.{
  zero_bytes, encrypt_from, length-encrypt_from, encrypt_headers-raw, header_bytes,
  header_bytes-raw,
}
use eror.Layer.Peel.{wrap_block, peel_lem}
use eror.Layer.Sizes.{AreSized, encrypt_from-AreSized, decrypt_from-AreSized, append-AreSized}
use eror.Onionize.{wrap_layers}
use eror.Onionize.Chain.{header_bytes-init}
use eror.Onionize.Table.Fill.{pad, length-pad}
use eror.Onionize.Steps.{last_block, last_headers}

length-init {ℓ} : {A : Type ℓ} (x : A) (xs : List A) → length (init (x ∷ xs)) ≡ length xs
length-init x [] = refl
length-init x (y ∷ ys) = ap suc (length-init y ys)

module _ (b : Bincode) (p : Primitives) (hb : IsBincode b) (hp : IsPrimitives p) where
  pub record IsFresh (f : OnionFormat p) (hs : List (Header p)) : Type 0 where
    pub block : HeaderBlock p
    pub rest : List (List Byte)
    pub shape : hs ≡ parsed block ∷ map raw rest
    pub body_length : length block.body ≡ p.symmetric_key_length + 76
    pub count : f.max_path_length ≡ suc (length rest)
    pub sized : AreSized b p hb hp rest

  init-AreSized : (hs : List (List Byte)) → AreSized b p hb hp hs → AreSized b p hb hp (init hs)
  init-AreSized [] h = tt
  init-AreSized (x ∷ []) h = tt
  init-AreSized (x ∷ y ∷ hs) h = (h.0, init-AreSized (y ∷ hs) h.1)

  pub header_bytes-IsFresh :
      (f : OnionFormat p) (hs : List (Header p))
      → IsFresh f hs
      → AreSized b p hb hp (header_bytes b p hs) × (length hs ≡ f.max_path_length)
  unfolding into_bytes single_header_length
  header_bytes-IsFresh f hs h = (
    subst (λ (t : List (Header p)). AreSized b p hb hp (header_bytes b p t)) (sym h.shape)
        (
          omega (arith, size-block b p hb hp h.block, h.body_length),
          subst (AreSized b p hb hp) (sym (header_bytes-raw b p h.rest)) h.sized,
        ),
    ap length h.shape ∙ omega (arith, length-map {B = Header p} raw h.rest, h.count),
  )

  wrap-IsFresh :
      (f : OnionFormat p) (key : p.SymmetricKey) (c : List Byte) (hs : List (Header p))
      (fwd : List Byte)
      → IsFresh f hs
      → length c ≡ p.symmetric_key_length + 76
      → IsFresh f (wrap b p key c (init hs) fwd).0
        × (length (wrap b p key c (init hs) fwd).1 ≡ length fwd)
  unfolding wrap
  wrap-IsFresh f key c hs fwd h l =
      let k = p.derive_key sym_enc key in
      let bytes = header_bytes b p (init hs) in
      (
        record {
          block = wrap_block b p hb hp key c (init hs) fwd;
          rest = encrypt_from p k 0 bytes;
          shape =
              ap (λ (t : List (Header p)). parsed (wrap_block b p hb hp key c (init hs) fwd) ∷ t)
                (encrypt_headers-raw b p k 0 (init hs));
          body_length = l;
          count = omega (
            arith,
            h.count,
            length-encrypt_from p k 0 bytes,
            length-map (into_bytes b p) (init hs),
            ap (λ (t : List (Header p)). length (init t)) h.shape,
            length-init (parsed h.block) (map raw h.rest),
            length-map {B = Header p} raw h.rest,
          );
          sized = encrypt_from-AreSized b p hb hp k 0 bytes (
              subst (AreSized b p hb hp) (sym (header_bytes-init b p hs))
                (init-AreSized (header_bytes b p hs) (header_bytes-IsFresh f hs h).0));
        },
        hp.length-encrypt k _ fwd,
      )

  -- Every layer leaves that shape, and the length of the payload.
  pub wrap_layers-IsFresh :
      (f : OnionFormat p) (i : ℕ) (keys : List p.SymmetricKey) (cs : List (List Byte))
      (hs : List (Header p)) (fwd : List Byte) {hs' : List (Header p)} {fwd' : List Byte}
      → IsFresh f hs
      → i < suc (length cs)
      → ((j : ℕ) → j < i → length (get_or cs j []) ≡ p.symmetric_key_length + 76)
      → wrap_layers b p i keys cs hs fwd ≡ ok (hs', fwd')
      → IsFresh f hs' × (length fwd' ≡ length fwd)
  unfolding wrap_layers
  wrap_layers-IsFresh f zero keys cs hs fwd h l sizes e = (
    subst (IsFresh f) (ap (λ t. t.0) (ok-injective e)) h,
    ap (λ t. length t.1) (sym (ok-injective e)),
  )
  wrap_layers-IsFresh f (suc i) keys cs hs fwd {hs'} {fwd'} h l sizes e =
      let (k, ek, e1) = >>=-eq-ok (index keys i) _ e in
      let (c, ec, e2) = >>=-eq-ok (index cs i) _ e1 in
      let same : get_or cs i [] ≡ c =
        ok-injective (sym (index-get_or cs i [] (omega arith)) ∙ ec) in
      let outer = wrap b p k c (init hs) fwd in
      let (fresh, kept) =
        wrap-IsFresh f k c hs fwd h (ap length (sym same) ∙ sizes i (omega arith)) in
      let (fresh', kept') =
        wrap_layers-IsFresh f i keys cs outer.0 outer.1 fresh (omega arith)
          (λ j hj. sizes j (omega arith)) e2 in
      (fresh', kept' ∙ kept)

  -- What `unwrap` does with an onion does not depend on the form of the first header.
  unwrap_first :
      (f : OnionFormat p) (sk : p.PrivateKey) (x y : Header p) (rest : List (Header p))
      (fwd : List Byte) (bwd : List Byte × p.Tag) (block : HeaderBlock p)
      → f.max_path_length ≡ suc (length rest)
      → into_parsed b p x ≡ ok block
      → into_parsed b p y ≡ ok block
      → unwrap b p f sk (record { header = x ∷ rest; forward = fwd; backward = bwd })
        ≡ unwrap b p f sk (record { header = y ∷ rest; forward = fwd; backward = bwd })
  unfolding unwrap
  unwrap_first f sk x y rest fwd bwd block l ex ey = rw (ex, ey) (ap opened (fun_ext peeled))
    where
      opened : (p.SymmetricKey → Outcome (Onion p)) → Outcome (p.SymmetricKey × Meta × Onion p)
      opened rest_of = p.asymmetric_decrypt sk block.body >>= λ plain.
          or_else_err (deserialize (layer_codec b p) plain) mac_mismatch >>= λ (key, meta).
          require
            (p.tag_eq (p.tag (p.derive_key mac key) (mac_input b p block.body rest fwd)) block.tag)
            mac_mismatch
          >> (rest_of key >>= λ onion'. ok (key, meta, onion'))

      peeled :
          (key : p.SymmetricKey)
          → peel b p f key (record { header = x ∷ rest; forward = fwd; backward = bwd })
            ≡ peel b p f key (record { header = y ∷ rest; forward = fwd; backward = bwd })
      peeled key =
          let (back, e, _, _) = ae_wrap-ae_unwrap p hp key bwd in
          peel_lem b p f key x rest fwd bwd back l e
          ∙ sym (peel_lem b p f key y rest fwd bwd back l e)

  -- An onion of that shape is unwrapped in the same way with its headers parsed and raw (for symmetric
  -- keys shorter than 2^32).
  pub unwrap_fresh :
      (f : OnionFormat p) (sk : p.PrivateKey) (onion : Onion p)
      → p.symmetric_key_length < 2 ^ 32
      → IsFresh f onion.header
      → unwrap b p f sk onion ≡ unwrap b p f sk (unparsed b p hb hp onion)
  unfolding into_bytes
  unwrap_fresh f sk onion short h =
      let small : length h.block.body < 2 ^ 64 = omega (arith, h.body_length, short) in
      let (as_parsed, as_raw) = unpack-pack b p hb hp h.block small in
      let with_header = λ (hs : List (Header p)). record onion { header = hs } in
      ap (λ (hs : List (Header p)). unwrap b p f sk (with_header hs)) h.shape
      ∙ unwrap_first f sk (parsed h.block) (raw (into_bytes b p (parsed h.block))) (map raw h.rest)
          onion.forward onion.backward h.block
          (omega (arith, h.count, length-map {B = Header p} raw h.rest)) as_parsed as_raw
      ∙ ap
          (λ (t : List (List Byte)).
            unwrap b p f sk (with_header (map raw (into_bytes b p (parsed h.block) ∷ t))))
          (sym (header_bytes-raw b p h.rest))
      ∙ ap (λ (hs : List (Header p)). unwrap b p f sk (with_header (map raw (header_bytes b p hs))))
          (sym h.shape)

  append-sized :
      (hs hs' : List (List Byte))
      → AreSized b p hb hp hs
      → AreSized b p hb hp hs'
      → AreSized b p hb hp (hs ++ hs')
  append-sized [] hs' h h' = h'
  append-sized (x ∷ hs) hs' h h' = (h.0, append-sized hs hs' h.1 h')

  pad-AreSized :
      (size : ℕ) (key : ℕ → p.SymmetricKey) (i : ℕ) → AreSized b p hb hp (pad b p size key i)
  unfolding pad
  pad-AreSized size key zero = tt
  pad-AreSized size key (suc i) =
      decrypt_from-AreSized b p hb hp (key i) (size - i - 1)
        (pad b p size key i ++ (zero_bytes p ∷ []))
        (append-AreSized b p hb hp (pad b p size key i) (pad-AreSized size key i))

  -- The headers for the last hop: random ones, then the padding.
  pub last_headers-IsFresh :
      (f : OnionFormat p) (key : p.SymmetricKey) (sym_of : ℕ → p.SymmetricKey) (c : List Byte)
      (hs : List (List Byte)) (fwd : List Byte) (n : ℕ)
      → n < f.max_path_length
      → length hs ≡ f.max_path_length - suc n
      → AreSized b p hb hp hs
      → length c ≡ p.symmetric_key_length + 76
      → IsFresh f (last_headers b p key c (hs ++ pad b p f.max_path_length sym_of n) fwd)
  last_headers-IsFresh f key sym_of c hs fwd n h l sized lc = record {
    block = last_block b p key c (hs ++ pad b p f.max_path_length sym_of n) fwd;
    rest = hs ++ pad b p f.max_path_length sym_of n;
    shape = refl;
    body_length = lc;
    count = omega (
      arith,
      length-append hs (pad b p f.max_path_length sym_of n),
      length-pad b p f.max_path_length sym_of n,
    );
    sized =
        append-sized hs (pad b p f.max_path_length sym_of n) sized
          (pad-AreSized f.max_path_length sym_of n);
  }
