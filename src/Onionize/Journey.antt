-- ===== src/Onionize/Journey.antt =====
-- The onion of `onionize` for a forward payload, on its way along the whole path.
use eror.Prelude.{
  ℕ, suc, ◌+◌, ◌-◌, ◌<◌, ◌^◌, ◌≡◌, sym, ap, ◌∙◌, subst, List, [], ◌∷◌, ◌++◌, map, map-append, some,
  length, length-append, arith,
}
use eror.Prelude.Outcome.{ok, index}
use eror.Prelude.Index.{get_or, index-get_or, index-map, index_lem}
use eror.Bytes.{Byte}
use eror.Serde.{Bincode, IsBincode}
use eror.Primitives.{Primitives, IsPrimitives, sym_enc}
use eror.Pki.{Address}
use eror.Onion.{Meta, Header, raw, parsed, Onion, into_bytes}
use eror.Onion.Serialize.{unparsed}
use eror.Format.{OnionFormat, nonce_fwd, ae_unwrap}
use eror.Layer.{unwrap}
use eror.Layer.Headers.{header_bytes, header_bytes-raw}
use eror.Layer.Peel.{Holds}
use eror.Layer.Sizes.{AreSized}
use eror.Onionize.{Payload, onionize, prepare, wrap_layers, blank_header}
use eror.Onionize.Table.Fill.{pad, length-pad, fill_rows-blank}
use eror.Onionize.Chain.{unwrap_upto, onion_of, upto, travel, AreServed, travel-wrap_layers}
use eror.Onionize.Ciphers.{IsRoute, stop_meta, stop_meta_last, Readable, meta_ciphers_lem}
use eror.Onionize.Random.{fill_random_lem}
use eror.Onionize.Fresh.{IsFresh, wrap_layers-IsFresh, last_headers-IsFresh}
use eror.Onionize.Steps.{
  last_block, last_headers, last_onion, last_hop_lem, onionize_steps, blank_first,
}
use eror.Onionize.Payloads.{prepare_forward}

module _ (b : Bincode) (p : Primitives) (hb : IsBincode b) (hp : IsPrimitives p) where
  module _ (f : OnionFormat p) (key : ℕ → p.SymmetricKey) (addr : ℕ → Address)
      (sk : ℕ → p.PrivateKey) (pk : ℕ → p.PublicKey) where
    -- What the first `n` hops of a path learn that has one hop more.
    abbrev pub stops : ℕ → Meta → List (p.SymmetricKey × Meta)
    stops n meta = upto n (λ i. (key i, stop_meta addr n meta i))

    sized_front : (n max count : ℕ) → n < max → count ≡ max - suc n → suc count + n ≡ max
    sized_front n max count h e = omega arith

    served :
        (n : ℕ) (meta : Meta) (keys : List p.SymmetricKey) (cs : List (List Byte))
        → length cs ≡ suc n
        → ((i : ℕ) → i < suc n → index keys i ≡ ok (key i))
        → ((i : ℕ)
            → i < suc n
            → Readable b p hb hp (sk i) (get_or cs i []) (key i) (stop_meta addr n meta i))
        → AreServed b p hb hp f sk key (stop_meta addr n meta) (λ i. get_or cs i []) keys cs n
    served n meta keys cs count at reads = record {
      has_key = λ i h. at i (omega arith);
      has_cipher = λ i h. index-get_or cs i [] (omega arith);
      small = λ i h. (reads i (omega arith)).1;
      holds = λ i h. (reads i (omega arith)).0;
    }

    abbrev pub padding : ℕ → List (List Byte)
    padding n = pad b p f.max_path_length (λ i. p.derive_key sym_enc (key i)) n

    -- The ciphertexts, of which every hop can read its own.
    abbrev pub AreReadable : ℕ → Meta → List (List Byte) → Type 0
    AreReadable n meta cs =
        (i : ℕ)
        → i < suc n
        → Readable b p hb hp (sk i) (get_or cs i []) (key i) (stop_meta addr n meta i)

    -- The headers for the last hop, whatever the payload is: random ones, then the padding.
    pub headers_lem :
        (keys : List p.SymmetricKey) (hops : List Address) (meta : Meta) (n : ℕ) (r : p.Rng)
        → p.symmetric_key_length < 2 ^ 32
        → IsRoute b p hb hp f keys hops key addr sk pk
        → length hops ≡ suc n
        → n < f.max_path_length
        → (cs hs : List (List Byte)) × (r2 : p.Rng) × (length cs ≡ suc n)
          × AreReadable n meta cs
          × (length hs ≡ f.max_path_length - suc n)
          × AreSized b p hb hp hs
          × ((payload : Payload) (backward_length : ℕ) (fwd : List Byte)
                (bwd bwd_n : List Byte × p.Tag) (expected : p.Tag) (hs' : List (Header p))
                (fwd_1 : List Byte) (r3 : p.Rng)
              → prepare b p keys (map (p.derive_key sym_enc) keys) payload backward_length r2
                ≡ ok ((fwd, bwd, bwd_n, expected), r3)
              → wrap_layers b p n keys cs
                  (last_headers b p (key n) (get_or cs n []) (hs ++ padding n) fwd)
                  fwd
                ≡ ok (hs', fwd_1)
              → onionize b p f keys hops meta payload backward_length r
                ≡ ok (
                  (
                    record { header = hs'; forward = fwd_1; backward = bwd },
                    last_onion b p hb hp (key n) (get_or cs n []) (hs ++ padding n) fwd bwd_n,
                    expected,
                  ),
                  r3,
                ))
    headers_lem keys hops meta n r short route l h =
        let (cs, r1, e1, count, reads) =
          meta_ciphers_lem b p hb hp f short keys hops meta key addr sk pk n r route l in
        let lk : length keys ≡ suc n = route.same_length ∙ l in
        let at = λ (i : ℕ) (hi : i < suc n). route.key_at i (omega arith) in
        let (t, e2, row) =
          fill_rows-blank b p f.max_path_length (λ i. p.derive_key sym_enc (key i)) n
            (map (p.derive_key sym_enc) keys) h
            (λ i hi. index-map (p.derive_key sym_enc) keys i (at i (omega arith))) in
        let (hs, t', r2, e3, row', drawn_count, drawn_sized) =
          fill_random_lem b p (f.max_path_length - suc n) n (blank_header b p ∷ [])
            (map raw (padding n)) t r1
            (row ∙ ap some (blank_first b p f.max_path_length n (padding n) h)) in
        let er : index t' n ≡ ok (blank_header b p ∷ map raw (hs ++ padding n)) = index_lem t' n (
          row'
          ∙ ap (λ (x : List (Header p)). some (blank_header b p ∷ x))
              (sym (map-append raw hs (padding n)))) in
        (
          cs,
          hs,
          r2,
          count,
          reads,
          drawn_count,
          drawn_sized,
          λ payload backward_length fwd bwd bwd_n expected hs' fwd_1 r3 e4 ew.
              onionize_steps b p f keys hops meta payload backward_length n (key n) (get_or cs n [])
                (hs ++ padding n) r lk l h e1 e2 e3 e4 (at n (omega arith))
                (index-get_or cs n [] (omega arith)) er ew,
        )

    -- The layers over these headers come off again along the path.
    pub layers_lem :
        (keys : List p.SymmetricKey) (hops : List Address) (meta : Meta) (n : ℕ)
        (cs hs : List (List Byte)) (fwd : List Byte)
        → IsRoute b p hb hp f keys hops key addr sk pk
        → length hops ≡ suc n
        → n < f.max_path_length
        → length cs ≡ suc n
        → AreReadable n meta cs
        → length hs ≡ f.max_path_length - suc n
        → let heads = last_headers b p (key n) (get_or cs n []) (hs ++ padding n) fwd in
          (hs' : List (Header p)) × (fwd' : List Byte) × (wrap_layers b p n keys cs heads fwd
            ≡ ok (hs', fwd'))
          × ((bwd back : List Byte × p.Tag)
              → unwrap_upto b p key n bwd ≡ ok back
              → travel b p f sk n (onion_of b p hb hp (header_bytes b p hs') fwd' bwd)
                ≡ ok (stops n meta, onion_of b p hb hp (header_bytes b p heads) fwd back))
    layers_lem keys hops meta n cs hs fwd route l h count reads drawn_count =
        let c = get_or cs n [] in
        let others = hs ++ padding n in
        let head = into_bytes b p (parsed (last_block b p (key n) c others fwd)) in
        travel-wrap_layers b p hb hp f sk key (stop_meta addr n meta) (λ i. get_or cs i []) keys cs
          n (last_headers b p (key n) c others fwd) (head ∷ hs) fwd
          (served n meta keys cs count (λ i hi. route.key_at i (omega arith)) reads) h
          (sized_front n f.max_path_length (length hs) h drawn_count)
          (ap (λ (x : List (List Byte)). head ∷ x) (header_bytes-raw b p others))

    -- And they leave headers of the right number and size.
    pub layers-IsFresh :
        (meta : Meta) (n : ℕ) (keys : List p.SymmetricKey) (cs hs : List (List Byte))
        (fwd : List Byte) {hs' : List (Header p)} {fwd' : List Byte}
        → n < f.max_path_length
        → length cs ≡ suc n
        → AreReadable n meta cs
        → length hs ≡ f.max_path_length - suc n
        → AreSized b p hb hp hs
        → wrap_layers b p n keys cs
            (last_headers b p (key n) (get_or cs n []) (hs ++ padding n) fwd)
            fwd
          ≡ ok (hs', fwd')
        → IsFresh b p hb hp f hs' × (length fwd' ≡ length fwd)
    layers-IsFresh meta n keys cs hs fwd h count reads drawn_count sized run =
        wrap_layers-IsFresh b p hb hp f n keys cs _ fwd
          (last_headers-IsFresh b p hb hp f (key n) (λ i. p.derive_key sym_enc (key i))
            (get_or cs n []) hs fwd n h drawn_count sized (reads n (omega arith)).2)
          (omega arith) (λ j hj. (reads j (omega arith)).2) run

    -- The last hop of such an onion.
    pub end_lem :
        (meta : Meta) (n : ℕ) (cs hs : List (List Byte)) (fwd : List Byte)
        (bwd final : List Byte × p.Tag)
        → n < f.max_path_length
        → AreReadable n meta cs
        → length hs ≡ f.max_path_length - suc n
        → ae_unwrap p (key n) bwd ≡ ok final
        → (inside : Onion p) × (unwrap b p f (sk n) (
              unparsed b p hb hp
                (last_onion b p hb hp (key n) (get_or cs n []) (hs ++ padding n) fwd bwd))
            ≡ ok (key n, meta, inside))
          × (inside.forward ≡ p.symmetric_decrypt (p.derive_key sym_enc (key n)) nonce_fwd fwd)
          × (inside.backward ≡ final)
    end_lem meta n cs hs fwd bwd final h reads drawn_count e =
        last_hop_lem b p hb hp f (sk n) (key n) meta (get_or cs n []) (hs ++ padding n) fwd bwd
          final
          (omega (
            arith,
            length-append hs (padding n),
            length-pad b p f.max_path_length (λ i. p.derive_key sym_enc (key i)) n,
            drawn_count,
          ))
          (reads n (omega arith)).1
          (subst (λ (m : Meta). Holds b p hb hp (sk n) (get_or cs n []) (key n) m)
            (stop_meta_last addr n meta) (reads n (omega arith)).0)
          e

    -- On a path of `suc n` hops that is not longer than the format allows, with a key for each hop,
    -- all hops in the key store and with private keys that decrypt every message encrypted for them
    -- (and symmetric keys shorter than
    -- 2^32), `onionize` succeeds for every forward payload, meta data and state of the generator.
    -- Sent over the wire, the onion for the first hop travels through the first `n` hops, each of
    -- which learns its key and the address of the next, and arrives as the onion for the last hop
    -- that `onionize` returns. The last hop learns its key and the given meta data and finds the
    -- payload, and the tag of the backward part is then the expected tag that `onionize` returns.
    -- The onion for the first hop has as many headers as the longest path has hops, all of the same
    -- size, a forward part as long as the payload, and a backward part of the requested length.
    pub onionize_forward :
        (keys : List p.SymmetricKey) (hops : List Address) (meta : Meta) (n : ℕ)
        (message : List Byte) (backward_length : ℕ) (r : p.Rng)
        → p.symmetric_key_length < 2 ^ 32
        → IsRoute b p hb hp f keys hops key addr sk pk
        → length hops ≡ suc n
        → n < f.max_path_length
        → (first last inside : Onion p) × (expected : p.Tag) × (r' : p.Rng) × (onionize b p f keys
              hops meta
              (Payload.forward message)
              backward_length
              r
            ≡ ok ((first, last, expected), r'))
          × (travel b p f sk n (unparsed b p hb hp first)
              ≡ ok (stops n meta, unparsed b p hb hp last))
          × (unwrap b p f (sk n) (unparsed b p hb hp last) ≡ ok (key n, meta, inside))
          × (inside.forward ≡ message)
          × (inside.backward.1 ≡ expected)
          × (length first.backward.0 ≡ backward_length)
          × IsFresh b p hb hp f first.header
          × (length first.forward ≡ length message)
    onionize_forward keys hops meta n message backward_length r short route l h =
        let (cs, hs, r2, count, reads, drawn_count, drawn_sized, finish) =
          headers_lem keys hops meta n r short route l h in
        let (bwd, bwd_n, final, r3, prepared, back, last_back, sized) =
          prepare_forward b p hb hp keys key n message backward_length r2 (route.same_length ∙ l)
            (λ i hi. route.key_at i (omega arith)) in
        let k = p.derive_key sym_enc (key n) in
        let fwd = p.symmetric_encrypt k nonce_fwd message in
        let (hs', fwd', run, trip) =
          layers_lem keys hops meta n cs hs fwd route l h count reads drawn_count in
        let (fresh, kept) =
          layers-IsFresh meta n keys cs hs fwd h count reads drawn_count drawn_sized run in
        let (inside, un, inside_forward, inside_backward) =
          end_lem meta n cs hs fwd bwd_n final h reads drawn_count last_back in
        (
          record { header = hs'; forward = fwd'; backward = bwd },
          last_onion b p hb hp (key n) (get_or cs n []) (hs ++ padding n) fwd bwd_n,
          inside,
          final.1,
          r3,
          finish (Payload.forward message) backward_length fwd bwd bwd_n final.1 hs' fwd' r3
              prepared run,
          trip bwd bwd_n back,
          un,
          inside_forward ∙ hp.decrypt-encrypt k nonce_fwd message,
          ap (λ (x : List Byte × p.Tag). x.1) inside_backward,
          sized,
          fresh,
          kept ∙ hp.length-encrypt k nonce_fwd message,
        )
