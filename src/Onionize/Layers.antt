-- ===== src/Onionize/Layers.antt =====
-- An onion travels along a path: every hop takes off the layer that the loop of `onionize` put on
-- for it, in the forward part and in the backward part.
use eror.Prelude.{ℕ, zero, suc, ◌+◌, ◌<◌, ◌≡◌, refl, List, ◌++◌, length, arith}
use eror.Prelude.Outcome.{ok}
use eror.Bytes.{Byte}
use eror.Serde.{Bincode, IsBincode}
use eror.Primitives.{Primitives, IsPrimitives}
use eror.Onion.{Meta, Header}
use eror.Format.{OnionFormat}
use eror.Format.Ae.{ae_wrap-ae_unwrap}
use eror.Layer.Headers.{header_bytes}
use eror.Onionize.{wrap_layers}
use eror.Onionize.Chain.{
  travel, unwrap_upto, onion_of, pads, AreServed, learned, travel-wrap_layers,
}

module _ (b : Bincode) (p : Primitives) (hb : IsBincode b) (hp : IsPrimitives p) where
  -- Hops can always take off their layers of the backward part, which keeps its length.
  pub unwrap_upto-ok :
      (key : ℕ → p.SymmetricKey) (i : ℕ) (bwd : List Byte × p.Tag)
      → (back : List Byte × p.Tag) × (unwrap_upto b p key i bwd ≡ ok back)
        × (length back.0 ≡ length bwd.0)
  unfolding unwrap_upto
  unwrap_upto-ok key zero bwd = (bwd, refl, refl)
  unwrap_upto-ok key (suc i) bwd =
      let (mid, e, l) = unwrap_upto-ok key i bwd in
      let (back, e', _, l') = ae_wrap-ae_unwrap p hp (key i) mid in
      (back, rw (e, unwrap_upto) e', omega arith)

  -- If the first `i` hops have the keys that open their ciphertexts, and the headers of the onion
  -- for the hop behind them end in the padding of row `i`, then the loop over the layers succeeds,
  -- and the onion it builds travels through the `i` hops: each learns its own key and meta data, and
  -- behind the last of them stands the onion that the loop started from, its headers unparsed and
  -- its backward part, of the same length, without the layers of those hops.
  pub travel_layers :
      (f : OnionFormat p) (sk : ℕ → p.PrivateKey) (key : ℕ → p.SymmetricKey) (meta : ℕ → Meta)
      (cipher : ℕ → List Byte) (keys : List p.SymmetricKey) (ciphers : List (List Byte)) (i : ℕ)
      (hs : List (Header p)) (front : List (List Byte)) (fwd : List Byte) (bwd : List Byte × p.Tag)
      → AreServed b p hb hp f sk key meta cipher keys ciphers i
      → i < f.max_path_length
      → length front + i ≡ f.max_path_length
      → header_bytes b p hs ≡ front ++ pads b p hb hp f key i i
      → (hs' : List (Header p)) × (fwd' : List Byte) × (back : List Byte × p.Tag) × (wrap_layers b p
            i keys ciphers hs fwd
          ≡ ok (hs', fwd'))
        × (unwrap_upto b p key i bwd ≡ ok back)
        × (length back.0 ≡ length bwd.0)
        × (travel b p f sk i (onion_of b p hb hp (header_bytes b p hs') fwd' bwd)
            ≡ ok (
              learned b p hb hp f sk key meta cipher keys ciphers i,
              onion_of b p hb hp (header_bytes b p hs) fwd back,
            ))
  travel_layers f sk key meta cipher keys ciphers i hs front fwd bwd served h sized e =
      let (hs', fwd', run, trip) =
        travel-wrap_layers b p hb hp f sk key meta cipher keys ciphers i hs front fwd served h sized
          e in
      let (back, e', l) = unwrap_upto-ok key i bwd in
      (hs', fwd', back, run, e', l, trip bwd back e')
