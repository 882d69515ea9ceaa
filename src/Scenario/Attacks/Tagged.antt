-- ===== src/Scenario/Attacks/Tagged.antt =====
-- A changed onion with the first header of another one is refused by the node that accepts that one,
-- unless the MAC collides.
use mathlib.Core.Bool.{xor}
use eror.Prelude.{
  ℕ, ◌+◌, ◌<◌, ◌^◌, ◌≡◌, ◌≢◌, refl, sym, ap, ◌∙◌, subst, Bool, true, false, inl, inr, Bool-cases,
  ◌⊎◌, List, [], ◌∷◌, map, some, length, drop, get_elem?, arith,
}
use eror.Prelude.Outcome.{ok, err, mac_mismatch, ok-injective}
use eror.Bytes.{Byte, bits, byte, xor_byte}
use eror.Bytes.Laws.{cons-head}
use eror.Serde.{Bincode, IsBincode, IsSmall}
use eror.Primitives.{Primitives, IsPrimitives}
use eror.Pki.{Address}
use eror.Onion.{Meta, HeaderBlock, Header, raw, parsed, Onion, into_parsed}
use eror.Onion.Serialize.{unpack-pack}
use eror.Format.{OnionFormat}
use eror.Layer.{unwrap, mac_input}
use eror.Layer.Tamper.{layer_tag, unwrap_checks, unwrap_refuses, mac_input-injective, AreSmall}
use eror.Process.{proc_onion, proc_onion_without_reply}
use eror.Scenario.{key_at}
use eror.Scenario.Steps.{assert_mac_mismatch}
use eror.Scenario.Attacks.{flip_first, refused_by}

first_bit : Byte → Bool
first_bit (bits b0 b1 b2 b3 b4 b5 b6 b7) = b0

flipped_differs : (x : Byte) → xor_byte x (byte 1) ≢ x
unfolding xor_byte byte first_bit xor
flipped_differs (bits true b1 b2 b3 b4 b5 b6 b7) e = let same : false ≡ true = ap first_bit e in cc
flipped_differs (bits false b1 b2 b3 b4 b5 b6 b7) e = let same : true ≡ false = ap first_bit e in cc

-- A flip in a list that is not empty changes it and keeps its length.
pub flip_first-ok :
    (xs : List Byte)
    → 0 < length xs
    → (ys : List Byte) × (flip_first xs ≡ ok ys) × (ys ≢ xs) × (length ys ≡ length xs)
unfolding flip_first
flip_first-ok [] h = absurd (omega arith)
flip_first-ok (x ∷ xs) h =
    (xor_byte x (byte 1) ∷ xs, refl, λ e. flipped_differs x (cons-head e), refl)

module _ (b : Bincode) (p : Primitives) where
  -- The layer that the owner of a private key takes off has the same tag over other data: those of
  -- another onion with the same first header.
  abbrev pub Collides : OnionFormat p → p.PrivateKey → Onion p → Onion p → Type 0
  Collides f sk onion onion' =
      (key : p.SymmetricKey) × (meta : Meta) × (inside : Onion p) × (block : HeaderBlock p)
      × (unwrap b p f sk onion ≡ ok (key, meta, inside))
      × (get_elem? onion.header 0 ≡ some (parsed block))
      × (mac_input b p block.body (drop 1 onion'.header) onion'.forward
          ≢ mac_input b p block.body (drop 1 onion.header) onion.forward)
      × (layer_tag b p key block.body (drop 1 onion'.header) onion'.forward
          ≡ layer_tag b p key block.body (drop 1 onion.header) onion.forward)

  -- A changed onion with the first header of an accepted one is refused, unless the tag is the same.
  refused_or_same_tag :
      IsPrimitives p
      → (f : OnionFormat p) (sk : p.PrivateKey) (onion : Onion p) (x : Header p)
        (rest : List (Header p)) (forward : List Byte) (backward : List Byte × p.Tag)
        (block : HeaderBlock p) {key : p.SymmetricKey} {meta : Meta} {inside : Onion p}
      → unwrap b p f sk onion ≡ ok (key, meta, inside)
      → get_elem? onion.header 0 ≡ some x
      → into_parsed b p x ≡ ok block
      → (unwrap b p f sk (record { header = x ∷ rest; forward = forward; backward = backward })
          ≡ err mac_mismatch)
        ⊎ (layer_tag b p key block.body rest forward
            ≡ layer_tag b p key block.body (drop 1 onion.header) onion.forward)
  refused_or_same_tag hp f sk onion x rest forward backward block {key} e at_0 is_block =
      let (x', block', plain, at_0', is_block', opens, (reads, tagged, _)) =
        unwrap_checks b p hp f sk onion e in
      let same_x : x' ≡ x = or_first x' x (sym at_0' ∙ at_0) in
      let same : block' ≡ block =
        ok-injective (sym is_block' ∙ ap (into_parsed b p) same_x ∙ is_block) in
      let opens' = ap (λ (y : HeaderBlock p). p.asymmetric_decrypt sk y.body) (sym same) ∙ opens in
      let tagged' =
        subst
          (λ (y : HeaderBlock p).
            layer_tag b p key y.body (drop 1 onion.header) onion.forward ≡ y.tag)
          same tagged in
      elim (Bool-cases (p.tag_eq (layer_tag b p key block.body rest forward) block.tag)) [
        | inl t ↦ inr (hp.tag_eq_sound _ _ t ∙ sym tagged')
        | inr t ↦ inl (
            unwrap_refuses b p f sk x rest forward plain backward block key _ is_block opens' reads
              t)
      ]
    where
      or_first : (x y : Header p) → some x ≡ some y → x ≡ y
      or_first x y e = cc

  pub refuses :
      (f : OnionFormat p) (private_keys : List (Address × p.PrivateKey)) (addresses : List Address)
      (i : ℕ) (sk : p.PrivateKey) (onion : Onion p)
      → key_at private_keys addresses i ≡ ok sk
      → unwrap b p f sk onion ≡ err mac_mismatch
      → refused_by b p f private_keys addresses i onion ≡ ok tt
  unfolding refused_by assert_mac_mismatch proc_onion_without_reply proc_onion
  refuses f private_keys addresses i sk onion e e' = rw (e, e') refl

module _ (b : Bincode) (p : Primitives) (hb : IsBincode b) (hp : IsPrimitives p) where
  module _ (f : OnionFormat p) (private_keys : List (Address × p.PrivateKey))
      (addresses : List Address) (sk : p.PrivateKey)
      (has_key : key_at private_keys addresses 0 ≡ ok sk) (onion : Onion p) (block : HeaderBlock p)
      (rest : List (List Byte)) (short : p.symmetric_key_length < 2 ^ 32)
      (shape : onion.header ≡ parsed block ∷ map raw rest)
      (body_length : length block.body ≡ p.symmetric_key_length + 76) where
    -- Either the node refuses the changed onion, or the MAC collides.
    pub foiled :
        (rest' : List (List Byte)) (forward : List Byte) {key : p.SymmetricKey} {meta : Meta}
        {inside : Onion p}
        → unwrap b p f sk onion ≡ ok (key, meta, inside)
        → AreSmall b p hb hp rest
        → AreSmall b p hb hp rest'
        → IsSmall onion.forward
        → IsSmall forward
        → (rest' ≢ rest) ⊎ (forward ≢ onion.forward)
        → let onion' : Onion p = record {
          header = parsed block ∷ map raw rest';
          forward = forward;
          backward = onion.backward;
        } in
          (refused_by b p f private_keys addresses 0 onion' ≡ ok tt)
          ⊎ Collides b p f sk onion onion'
    foiled rest' forward {key} {meta} {inside} e small small' small_f small_f' changed =
        let small_body : IsSmall block.body = omega (arith, body_length, short) in
        let onion' : Onion p = record {
          header = parsed block ∷ map raw rest';
          forward = forward;
          backward = onion.backward;
        } in
        let behind : drop 1 onion.header ≡ map raw rest = ap (drop 1) shape in
        elim (refused_or_same_tag b p hp f sk onion (parsed block) (map raw rest') forward
          onion.backward block e (ap (λ (hs : List (Header p)). get_elem? hs 0) shape)
          (unpack-pack b p hb hp block small_body).0) [
            | inl refused ↦ inl (refuses b p f private_keys addresses 0 sk onion' has_key refused)
            | inr same ↦ inr (
              key,
              meta,
              inside,
              block,
              e,
              ap (λ (hs : List (Header p)). get_elem? hs 0) shape,
              λ inputs. differ rest' forward changed (
                  mac_input-injective b p hb hp block.body rest' rest forward onion.forward
                    small_body small' small small_f' small_f
                    (inputs
                      ∙ ap (λ (hs : List (Header p)). mac_input b p block.body hs onion.forward)
                          behind)),
              same,
            )
          ]
      where
        differ :
            (rest' : List (List Byte)) (forward : List Byte)
            → (rest' ≢ rest) ⊎ (forward ≢ onion.forward)
            → (rest' ≡ rest) × (forward ≡ onion.forward)
            → ⊥
        differ rest' forward (inl ne) both = ne both.0
        differ rest' forward (inr ne) both = ne both.1
