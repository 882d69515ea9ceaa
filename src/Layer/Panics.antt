-- ===== src/Layer/Panics.antt =====
-- `OnionFormat::unwrap` with `EcPrimitives` on onions from the network: when it panics.
use eror.Prelude.{Option}
use eror.Prelude.{
  suc, ◌<◌, ◌≡◌, ◌≢◌, ◌↔◌, ◌⊎◌, inl, inr, refl, sym, ap, ◌∙◌, subst, Bool, true, false, List, [],
  ◌∷◌, none, some, length, get_elem?, arith,
}
use eror.Prelude.Outcome.{
  Outcome, ok, err, panic, Error, serialization_error, mac_mismatch, require, or_else_err,
  ok-injective, ◌>>=◌,
}
use eror.Bytes.{Byte}
use eror.Serde.{Codec, Bincode, IsBincode, deserialize}
use eror.Primitives.{Primitives, IsPrimitives}
use eror.Primitives.Ec.{Crates, ec_primitives, ciphertext_codec}
use eror.Primitives.Ec.Laws.{IsCrates, ec_primitives-IsPrimitives, asymmetric_decrypt-cases}
use eror.Onion.{HeaderBlock, Header, raw, parsed, Onion, block_codec, pack, into_parsed, unpack}
use eror.Format.{OnionFormat}
use eror.Format.Ae.{ae_wrap-ae_unwrap}
use eror.Layer.{unwrap, peel, layer_codec}
use eror.Layer.Peel.{peel_lem}

-- A call that does not panic.
abbrev Returns {ℓ} : {A : Type ℓ} → Outcome A → Type ℓ
Returns m = m ≢ panic

Returns-bind :
    {A B : Type 0} (m : Outcome A) (f : A → Outcome B)
    → Returns m
    → ((a : A) → Returns (f a))
    → Returns (m >>= f)
Returns-bind (ok a) f h h' = h' a
Returns-bind (err e) f h h' = λ e. cc
Returns-bind panic f h h' = absurd (h refl)

or_mismatch-Returns :
    {A : Type 0} (c : Codec A) (bs : List Byte)
    → Returns (or_else_err (deserialize c bs) mac_mismatch)
unfolding deserialize
or_mismatch-Returns {A} c bs = by_read (c.read bs)
  where
    by_read :
        (o : Option (A × List Byte))
        → Returns (
            or_else_err
              (elim o [ none ↦ err serialization_error | some (a, _) ↦ ok a ])
              mac_mismatch)
    by_read none e = cc
    by_read (some (a, left)) e = cc

require-Returns : (t : Bool) → Returns (require t mac_mismatch)
require-Returns true = λ e. cc
require-Returns false = λ e. cc

read-cases :
    {A : Type 0} (o : Option (A × List Byte))
    → let out : Outcome A = elim o [ none ↦ err serialization_error | some (a, _) ↦ ok a ] in
      ((a : A) × (out ≡ ok a)) ⊎ ((why : Error) × (out ≡ err why))
read-cases none = inr (serialization_error, refl)
read-cases (some (a, left)) = inl (a, refl)

module _ (b : Bincode) (p : Primitives) (hp : IsPrimitives p) where
  -- Behind the decryption nothing panics, if there are as many headers as the longest path has hops.
  opened-Returns :
      (f : OnionFormat p) (sk : p.PrivateKey) (x : Header p) (rest : List (Header p))
      (fwd plain : List Byte) (bwd : List Byte × p.Tag) (block : HeaderBlock p)
      → f.max_path_length ≡ suc (length rest)
      → into_parsed b p x ≡ ok block
      → p.asymmetric_decrypt sk block.body ≡ ok plain
      → Returns (unwrap b p f sk (record { header = x ∷ rest; forward = fwd; backward = bwd }))
  unfolding unwrap
  opened-Returns f sk x rest fwd plain bwd block l e e' =
      rw (e, e')
        (Returns-bind (or_else_err (deserialize (layer_codec b p) plain) mac_mismatch) _
          (or_mismatch-Returns (layer_codec b p) plain)
          (λ km.
            Returns-bind (require _ mac_mismatch) _ (require-Returns _)
              (λ u. Returns-bind (peel b p f km.0 _) _ (peel-Returns km.0) (λ o e. cc))))
    where
      peel-Returns :
          (key : p.SymmetricKey)
          → Returns (peel b p f key (record { header = x ∷ rest; forward = fwd; backward = bwd }))
      peel-Returns key e =
          let (back, undone, _, _) = ae_wrap-ae_unwrap p hp key bwd in
          cc (e, peel_lem b p f key x rest fwd bwd back l undone)

  -- A decryption that panics makes `unwrap` panic.
  unwrap-panic :
      (f : OnionFormat p) (sk : p.PrivateKey) (x : Header p) (rest : List (Header p))
      (fwd : List Byte) (bwd : List Byte × p.Tag) (block : HeaderBlock p)
      → into_parsed b p x ≡ ok block
      → p.asymmetric_decrypt sk block.body ≡ panic
      → unwrap b p f sk (record { header = x ∷ rest; forward = fwd; backward = bwd }) ≡ panic
  unfolding unwrap
  unwrap-panic f sk x rest fwd bwd block e e' = rw (e, e') refl

  -- A header that does not parse is an error.
  unparsable-Returns :
      (f : OnionFormat p) (sk : p.PrivateKey) (x : Header p) (rest : List (Header p))
      (fwd : List Byte) (bwd : List Byte × p.Tag) (why : Error)
      → into_parsed b p x ≡ err why
      → Returns (unwrap b p f sk (record { header = x ∷ rest; forward = fwd; backward = bwd }))
  unfolding unwrap
  unparsable-Returns f sk x rest fwd bwd why e = rw e (λ e. cc)

  into_parsed-cases :
      (x : Header p)
      → ((block : HeaderBlock p) × (into_parsed b p x ≡ ok block))
        ⊎ ((why : Error) × (into_parsed b p x ≡ err why))
  unfolding into_parsed unpack deserialize
  into_parsed-cases (raw v) = read-cases ((block_codec b p).read v)
  into_parsed-cases (parsed block) = read-cases ((block_codec b p).read (pack b p block))

module _ (b : Bincode) (c : Crates) (hb : IsBincode b) (hc : IsCrates c) where
  abbrev p : Primitives
  p = ec_primitives b c

  hp : IsPrimitives p
  hp = ec_primitives-IsPrimitives b c hb hc

  -- The first header parses, to a block whose data are no ciphertext and shorter than 40 bytes.
  abbrev pub IsCutShort : Onion p → Type 0
  IsCutShort onion =
      (x : Header p) × (block : HeaderBlock p) × (get_elem? onion.header 0 ≡ some x)
      × (into_parsed b p x ≡ ok block)
      × ((ciphertext_codec b c).read block.body ≡ none)
      × (length block.body < 40)

  same_block :
      (x x' : Header p) (block block' : HeaderBlock p)
      → ◌≡◌ {A = Option (Header p)} (some x) (some x')
      → into_parsed b p x ≡ ok block
      → into_parsed b p x' ≡ ok block'
      → block' ≡ block
  same_block x x' block block' at_0 e e' =
      let same : x ≡ x' = cc in ok-injective (sym e' ∙ ap (into_parsed b p) (sym same) ∙ e)

  by_header :
      (f : OnionFormat p) (sk : p.PrivateKey) (hs : List (Header p)) (fwd : List Byte)
      (bwd : List Byte × p.Tag)
      → 0 < f.max_path_length
      → length hs ≡ f.max_path_length
      → let onion : Onion p = record { header = hs; forward = fwd; backward = bwd } in
        (unwrap b p f sk onion ≡ panic) ↔ IsCutShort onion
  unfolding ec_primitives
  by_header f sk [] fwd bwd some_hop count = absurd (omega arith)
  by_header f sk (x ∷ rest) fwd bwd some_hop count = elim (into_parsed-cases b p hp x) [
    | inr (why, e) ↦ (
      λ panics. absurd (unparsable-Returns b p hp f sk x rest fwd bwd why e panics),
      λ (x', block, at_0, is_block, _, _).
          let same : x ≡ x' = cc in cc (e, is_block, ap (into_parsed b p) same),
    )
    | inl (block, e) ↦ elim (asymmetric_decrypt-cases b c hb hc sk block.body) [
      | inl (plain, opens, whole) ↦ (
        λ panics.
            absurd
              (opened-Returns b p hp f sk x rest fwd plain bwd block (sym count) e opens panics),
        λ (x', block', at_0, is_block, no_read, short). absurd (
            whole (
              subst
                (λ (y : HeaderBlock p).
                  ((ciphertext_codec b c).read y.body ≡ none) × (length y.body < 40))
                (same_block x x' block block' at_0 e is_block) (no_read, short))),
      )
      | inr (panics, no_read, short) ↦ (
        λ h. (x, block, refl, e, no_read, short),
        λ h. unwrap-panic b p hp f sk x rest fwd bwd block e panics,
      )
    ]
  ]

  -- With `EcPrimitives`, an onion with as many headers as the longest path has hops, and at least one,
  -- makes `unwrap` panic, with any private key, exactly if its first header parses to a block whose
  -- data are no ciphertext and shorter than 40 bytes. On every other onion of that shape `unwrap`
  -- returns an onion or an error.
  pub unwrap_panics :
      (f : OnionFormat p) (sk : p.PrivateKey) (onion : Onion p)
      → 0 < f.max_path_length
      → length onion.header ≡ f.max_path_length
      → (unwrap b p f sk onion ≡ panic) ↔ IsCutShort onion
  unwrap_panics f sk onion some_hop count =
      by_header f sk onion.header onion.forward onion.backward some_hop count
