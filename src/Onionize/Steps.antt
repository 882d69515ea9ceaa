-- ===== src/Onionize/Steps.antt =====
-- `onionize` from the results of its loops, and the last hop of the onion that it makes.
use eror.Prelude.{
  ℕ, suc, ◌-◌, ◌<◌, ◌≡◌, refl, sym, ap, ◌∙◌, List, ◌∷◌, ◌++◌, map, length, length-map, replicate,
  le→leb, ==_refl, arith,
}
use eror.Prelude.Outcome.{ok, index}
use eror.Prelude.Rand.{run_bind, run_lift}
use eror.Prelude.Index.{index-map}
use eror.Bytes.{Byte}
use eror.Serde.{Bincode, IsBincode, IsSmall}
use eror.Primitives.{Primitives, IsPrimitives, sym_enc, mac}
use eror.Pki.{Address}
use eror.Onion.{Meta, Header, HeaderBlock, raw, parsed, Onion, into_bytes, structured}
use eror.Onion.Serialize.{unparsed, unpack-pack}
use eror.Format.{OnionFormat, nonce_fwd, ae_unwrap}
use eror.Layer.{mac_input, unwrap, layer_codec}
use eror.Layer.Headers.{header_bytes-raw}
use eror.Layer.Peel.{Holds, unwrap_lem, read-layer}
use eror.Onionize.{Payload, onionize, meta_ciphers, fill_random, prepare, wrap_layers, blank_header}
use eror.Onionize.Table.{fill_rows}

before : (n : ℕ) → suc n - 1 ≡ n
before n = omega arith

module _ (b : Bincode) (p : Primitives) where
  -- The header that `onionize` writes for the last hop.
  abbrev pub last_block : p.SymmetricKey → List Byte → List (List Byte) → List Byte → HeaderBlock p
  last_block key c others fwd = record {
    tag = p.tag (p.derive_key mac key) (mac_input b p c (map raw others) fwd);
    body = c;
  }

  abbrev pub last_headers :
      p.SymmetricKey → List Byte → List (List Byte) → List Byte → List (Header p)
  last_headers key c others fwd = parsed (last_block key c others fwd) ∷ map raw others

  pub blank_first :
      (size n : ℕ) (padding : List (List Byte))
      → n < size
      → (replicate (size - n) (blank_header b p) ++ map raw padding)
        ≡ (blank_header b p ∷ (replicate (size - suc n) (blank_header b p) ++ map raw padding))
  blank_first size n padding h =
      ap (λ (m : ℕ). replicate m (blank_header b p) ++ map raw padding) (one_more size n h)
    where
      one_more : (size n : ℕ) → n < size → size - n ≡ suc (size - suc n)
      one_more size n h = omega arith

  -- The steps of `onionize`, each with its result.
  pub onionize_steps :
      (f : OnionFormat p) (keys : List p.SymmetricKey) (hops : List Address) (meta : Meta)
      (payload : Payload) (backward_length : ℕ) (n : ℕ) (key : p.SymmetricKey) (c : List Byte)
      (others : List (List Byte)) (r : p.Rng) {cs : List (List Byte)}
      {t t' : List (List (Header p))} {first : Header p} {fwd : List Byte}
      {bwd bwd_n : List Byte × p.Tag} {expected : p.Tag} {hs : List (Header p)} {fwd_1 : List Byte}
      {r1 r2 r3 : p.Rng}
      → length keys ≡ suc n
      → length hops ≡ suc n
      → n < f.max_path_length
      → meta_ciphers b p f keys hops meta r ≡ ok (cs, r1)
      → fill_rows b p f.max_path_length n 0
          (map (p.derive_key sym_enc) keys)
          (replicate f.max_path_length (replicate f.max_path_length (blank_header b p)))
        ≡ ok t
      → fill_random b p (f.max_path_length - suc n) 1 n t r1 ≡ ok (t', r2)
      → prepare b p keys (map (p.derive_key sym_enc) keys) payload backward_length r2
        ≡ ok ((fwd, bwd, bwd_n, expected), r3)
      → index keys n ≡ ok key
      → index cs n ≡ ok c
      → index t' n ≡ ok (first ∷ map raw others)
      → wrap_layers b p n keys cs (last_headers key c others fwd) fwd ≡ ok (hs, fwd_1)
      → onionize b p f keys hops meta payload backward_length r
        ≡ ok (
          (
            record { header = hs; forward = fwd_1; backward = bwd },
            record { header = last_headers key c others fwd; forward = fwd; backward = bwd_n },
            expected,
          ),
          r3,
        )
  unfolding onionize structured
  onionize_steps f keys hops meta payload backward_length n key c others r {cs} {t} {t'} {fwd = fwd}
        {r1 = r1} {r2 = r2} {r3 = r3} lk lh short e1 e2 e3 e4 ek ec er ew =
      let syms = map (p.derive_key sym_enc) keys in
      rw (lk, lh)
        (rw (==_refl (suc n), le→leb (suc n) f.max_path_length short, before n)
          (run_bind (meta_ciphers b p f keys hops meta) _ r e1
            ∙ run_lift (fill_rows b p f.max_path_length n 0 syms _) _ r1 e2
            ∙ run_bind (fill_random b p (f.max_path_length - suc n) 1 n t) _ r1 e3
            ∙ run_bind (prepare b p keys syms payload backward_length) _ r2 e4
            ∙ run_lift (index (map (p.derive_key mac) keys) n) _ r3
                (index-map (p.derive_key mac) keys n ek)
            ∙ run_lift (index cs n) _ r3 ec
            ∙ run_lift (index t' n) _ r3 er
            ∙ run_lift (wrap_layers b p n keys cs (last_headers key c others fwd) fwd) _ r3 ew))

module _ (b : Bincode) (p : Primitives) (hb : IsBincode b) (hp : IsPrimitives p) where
  -- The onion as the last hop receives it.
  abbrev pub last_onion :
      p.SymmetricKey → List Byte → List (List Byte) → List Byte → List Byte × p.Tag → Onion p
  last_onion key c others fwd bwd = record {
    header = last_headers b p key c others fwd;
    forward = fwd;
    backward = bwd;
  }

  -- The last hop takes off its layer too.
  pub last_hop_lem :
      (f : OnionFormat p) (sk : p.PrivateKey) (key : p.SymmetricKey) (meta : Meta) (c : List Byte)
      (others : List (List Byte)) (fwd : List Byte) (bwd final : List Byte × p.Tag)
      → f.max_path_length ≡ suc (length others)
      → IsSmall c
      → Holds b p hb hp sk c key meta
      → ae_unwrap p key bwd ≡ ok final
      → (inside : Onion p) × (unwrap b p f sk (unparsed b p hb hp (last_onion key c others fwd bwd))
          ≡ ok (key, meta, inside))
        × (inside.forward ≡ p.symmetric_decrypt (p.derive_key sym_enc key) nonce_fwd fwd)
        × (inside.backward ≡ final)
  last_hop_lem f sk key meta c others fwd bwd final l small holds e =
      let block = last_block b p key c others fwd in
      let rest : List (Header p) = map raw others in
      let x : Header p = raw (into_bytes b p (parsed block)) in
      (
        _,
        ap
              (λ (hs : List (List Byte)).
                unwrap b p f sk (record { header = x ∷ map raw hs; forward = fwd; backward = bwd }))
              (header_bytes-raw b p others)
            ∙ unwrap_lem b p f sk x rest fwd ((layer_codec b p).write (key, meta)) bwd final block
                key meta (l ∙ ap suc (sym (length-map raw others)))
                (unpack-pack b p hb hp block small).1 holds (read-layer b p hb hp key meta)
                (hp.tag_eq_refl _) e,
        refl,
        refl,
      )
