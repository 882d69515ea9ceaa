-- ===== src/Process/Message.antt =====
-- What `form_onion` puts into an onion: the message for the receiver with the headers for its reply,
-- and the path lengths in the sender's own address field.
use eror.Prelude.{
  ℕ, ◌+◌, ◌*◌, ◌<◌, ◌^◌, ◌≡◌, refl, sym, ap, ◌∙◌, List, [], ◌∷◌, ◌++◌, map, length, length-map,
  take, take-append_self, drop, All, All-imp, arith,
}
use eror.Prelude.Outcome.{ok, panic}
use eror.Bytes.{Byte, array_of}
use eror.Serde.{Bincode, IsBincode, IsSmall, deserialize}
use eror.Serde.Laws.{deserialize-write_all}
use eror.Primitives.{Primitives, IsPrimitives}
use eror.Pki.{Address}
use eror.Onion.{Header, raw, into_bytes, header_codec}
use eror.Format.{OnionFormat, single_header_length, total_header_length}
use eror.Layer.Headers.{header_bytes}
use eror.Layer.Tamper.{IsRaw, read-header_codec, All-IsRaw}
use eror.Layer.Sizes.{AreSized}
use eror.Process.{overwrite_16, length-overwrite, message_codec, lengths_codec}
use native.Mathlib.Decide.{ℕ_discrete}
use mathlib.Core.Logic.{dite}

-- Sixteen bytes fit.
pub overwrite_16-ok :
    (a : Address) (bs : List Byte)
    → length bs ≡ 16
    → (next : Address) × (overwrite_16 a bs ≡ ok next) × (take 16 next.bytes ≡ bs)
unfolding overwrite_16 array_of
overwrite_16-ok a bs e = cases (ℕ_discrete (length bs) 16)
  where
    written : length bs ≡ 16 → Address
    written l = array_of (bs ++ drop 16 a.bytes) (length-overwrite bs a l)

    cases :
        (d : Dec (length bs ≡ 16))
        → (next : Address) × (dite d (λ l. ok (written l)) (λ _. panic) ≡ ok next)
          × (take 16 next.bytes ≡ bs)
    cases (yes l) = (
      written l,
      refl,
      ap (λ (n : ℕ). take n (bs ++ drop 16 a.bytes)) (sym e)
          ∙ take-append_self bs (drop 16 a.bytes),
    )
    cases (no different) = absurd (different e)

module _ (b : Bincode) (p : Primitives) (hb : IsBincode b) (hp : IsPrimitives p) where
  pub size-lengths : (n m : ℕ) → length ((lengths_codec b p).write (n, m)) ≡ 16
  unfolding lengths_codec
  size-lengths n m = omega (arith, hb.size-pair b.u64 b.u64 (n, m), hb.size-u64 n, hb.size-u64 m)

  unparse : Header p → Header p
  unparse h = raw (into_bytes b p h)

  write-unparse : (h : Header p) → (header_codec b p).write (unparse h) ≡ (header_codec b p).write h
  unfolding unparse header_codec into_bytes
  write-unparse h = refl

  map-unparse : (hs : List (Header p)) → map unparse hs ≡ map raw (header_bytes b p hs)
  unfolding unparse
  map-unparse [] = refl
  map-unparse (h ∷ hs) = ap (λ (t : List (Header p)). raw (into_bytes b p h) ∷ t) (map-unparse hs)

  module _ (f : OnionFormat p) (hs : List (Header p)) (payload : List Byte) where
    -- Headers are written alike before and after they have been read.
    write-message :
        (message_codec b p).write (map raw (header_bytes b p hs), payload)
        ≡ (message_codec b p).write (hs, payload)
    unfolding message_codec
    write-message =
        let c = b.vec (header_codec b p) in
        hb.write-pair c b.byte_vec (map raw (header_bytes b p hs), payload)
        ∙ ap (λ (t : List Byte). t ++ b.byte_vec.write payload)
            (ap c.write (sym (map-unparse hs))
              ∙ hb.write-vec-map (header_codec b p) unparse hs write-unparse)
        ∙ sym (hb.write-pair c b.byte_vec (hs, payload))

    headers-IsSmall :
        p.symmetric_key_length < 2 ^ 32
        → AreSized b p hb hp (header_bytes b p hs)
        → All IsSmall (header_bytes b p hs)
    unfolding single_header_length
    headers-IsSmall short sized = All-imp (λ h e. omega (arith, short)) _ sized

    -- The receiver reads the headers, in their raw form, and the payload.
    pub read-message :
        p.symmetric_key_length < 2 ^ 32
        → AreSized b p hb hp (header_bytes b p hs)
        → length hs < 2 ^ 64
        → IsSmall payload
        → deserialize (message_codec b p) ((message_codec b p).write (hs, payload))
          ≡ ok (map raw (header_bytes b p hs), payload)
    unfolding message_codec
    read-message short sized count small =
        ap (deserialize (message_codec b p)) (sym write-message)
        ∙ deserialize-write_all (b.pair (b.vec (header_codec b p)) b.byte_vec) _
            (map raw (header_bytes b p hs), payload)
            (hb.read-pair (b.vec (header_codec b p)) b.byte_vec _ IsSmall
              (hb.read-vec (header_codec b p) (IsRaw b p hb hp) (read-header_codec b p hb hp))
              hb.read-byte_vec)
            (
              (
                All-IsRaw b p hb hp (header_bytes b p hs) (headers-IsSmall short sized),
                rw (length-map, length-map) count,
              ),
              small,
            )

    header_sizes :
        (gs : List (Header p))
        → AreSized b p hb hp (header_bytes b p gs)
        → All (λ h. length ((header_codec b p).write h) ≡ 8 + single_header_length p) gs
    unfolding header_codec into_bytes
    header_sizes [] sized = tt
    header_sizes (g ∷ gs) sized = (
      hb.size-byte_vec (into_bytes b p g) ∙ ap (λ (n : ℕ). 8 + n) sized.0,
      header_sizes gs sized.1,
    )

    -- The message is as long as `total_header_length` reckons.
    pub size-message :
        AreSized b p hb hp (header_bytes b p hs)
        → length hs ≡ f.max_path_length
        → length ((message_codec b p).write (hs, payload))
          ≡ total_header_length p f + 8 + length payload
    unfolding message_codec total_header_length
    size-message sized count = omega (
      arith,
      hb.size-pair (b.vec (header_codec b p)) b.byte_vec (hs, payload),
      hb.size-vec (header_codec b p) (8 + single_header_length p) hs (header_sizes hs sized),
      ap (λ (n : ℕ). n * (8 + single_header_length p)) count,
      hb.size-byte_vec payload,
    )
