-- ===== src/Onionize/Chain.antt =====
-- The layers of an onion on a path: `wrap_layers` puts them on, and the hops take them off one by
-- one.
use eror.Prelude.{
  ℕ, zero, suc, ◌+◌, ◌-◌, ◌<◌, ◌≡◌, refl, sym, ap, ◌∙◌, List, [], ◌∷◌, ◌++◌, append_assoc, map,
  length, length-append, length-map, init, arith,
}
use eror.Prelude.Outcome.{Outcome, ok, index, ok-injective, >>=-eq-ok, ◌>>=◌}
use eror.Prelude.Index.{init-append}
use eror.Bytes.{Byte}
use eror.Serde.{Bincode, IsBincode, IsSmall}
use eror.Primitives.{Primitives, IsPrimitives, sym_enc}
use eror.Onion.{Meta, Header, raw, parsed, Onion, into_bytes}
use eror.Format.{OnionFormat, ae_unwrap}
use eror.Layer.{wrap, unwrap}
use eror.Layer.Headers.{
  zero_bytes, decrypt_from, length-decrypt_from, encrypt_from, encrypt_from-append,
  length-encrypt_from, encrypt_from-decrypt_from, header_bytes, header_bytes-raw,
  encrypt_headers-raw,
}
use eror.Layer.Peel.{unwrap-wrap_raw, wrap_block, Holds}
use eror.Onionize.{wrap_layers}
use eror.Onionize.Table.Fill.{pad, length-pad, pad-suc}

-- `[g(0), …, g(n - 1)]`
unfoldable pub upto {ℓ} : {A : Type ℓ} → ℕ → (ℕ → A) → List A
upto zero g = []
upto (suc i) g = upto i g ++ (g i ∷ [])

module _ (b : Bincode) (p : Primitives) where
  -- What the first `i` hops of a path learn, and the onion as it leaves the last of them.
  unfoldable pub travel :
      OnionFormat p
      → (ℕ → p.PrivateKey)
      → ℕ
      → Onion p
      → Outcome (List (p.SymmetricKey × Meta) × Onion p)
  travel f sk zero onion = ok ([], onion)
  travel f sk (suc i) onion = do
    (log, arrived) ← travel f sk i onion
    (key, meta, onion') ← unwrap b p f (sk i) arrived
    ok (log ++ ((key, meta) ∷ []), onion')

  -- The first `i` hops take off their layers of the backward part.
  unfoldable pub unwrap_upto :
      (ℕ → p.SymmetricKey) → ℕ → List Byte × p.Tag → Outcome (List Byte × p.Tag)
  unwrap_upto key zero bwd = ok bwd
  unwrap_upto key (suc i) bwd = unwrap_upto key i bwd >>= ae_unwrap p (key i)

  abbrev pub unparsed_headers : List (Header p) → List (Header p)
  unparsed_headers hs = map raw (header_bytes b p hs)

  pub header_bytes-init :
      (hs : List (Header p)) → header_bytes b p (init hs) ≡ init (header_bytes b p hs)
  header_bytes-init [] = refl
  header_bytes-init (x ∷ []) = refl
  header_bytes-init (x ∷ y ∷ hs) =
      ap (λ (t : List (List Byte)). into_bytes b p x ∷ t) (header_bytes-init (y ∷ hs))

module _ (b : Bincode) (p : Primitives) (hb : IsBincode b) (hp : IsPrimitives p) where
  abbrev pub onion_of : List (List Byte) → List Byte → List Byte × p.Tag → Onion p
  onion_of hs fwd bwd = record { header = map raw hs; forward = fwd; backward = bwd }

  -- One more layer: its headers end in the `pad` of the row above, and a hop that takes it off
  -- finds the headers that were there before.
  module _ (f : OnionFormat p) (key : ℕ → p.SymmetricKey) (i : ℕ) where
    abbrev sym_key : ℕ → p.SymmetricKey
    sym_key j = p.derive_key sym_enc (key j)

    abbrev pub pads : ℕ → List (List Byte)
    pads = pad b p f.max_path_length sym_key

    abbrev dec : List (List Byte)
    dec = decrypt_from p (sym_key i) (f.max_path_length - i - 1) (pads i)

    abbrev end : ℕ → List (List Byte)
    end nonce = p.symmetric_decrypt (sym_key i) nonce (zero_bytes p) ∷ []

    front-pad :
        (front : List (List Byte))
        → i < f.max_path_length
        → front ++ pads (suc i) ≡ (front ++ dec) ++ end (f.max_path_length + 1)
    front-pad front h =
        ap (λ (t : List (List Byte)). front ++ t) (pad-suc b p f.max_path_length sym_key i h)
        ∙ sym (append_assoc front dec (end (f.max_path_length + 1)))

    init-front-pad :
        (front : List (List Byte))
        → i < f.max_path_length
        → init (front ++ pads (suc i)) ≡ front ++ dec
    init-front-pad front h = ap init (front-pad front h) ∙ init-append (front ++ dec) _

    encrypt-init :
        (front : List (List Byte))
        → i < f.max_path_length
        → length front + suc i ≡ f.max_path_length
        → encrypt_from p (sym_key i) 0 (init (front ++ pads (suc i)))
          ≡ encrypt_from p (sym_key i) 0 front ++ pads i
    encrypt-init front h sized =
        let k = sym_key i in
        let start : 0 + length front ≡ f.max_path_length - i - 1 = omega arith in
        ap (encrypt_from p k 0) (init-front-pad front h)
        ∙ encrypt_from-append p k 0 front dec
        ∙ ap (λ (j : ℕ). encrypt_from p k 0 front ++ encrypt_from p k j dec) start
        ∙ ap (λ (t : List (List Byte)). encrypt_from p k 0 front ++ t)
            (encrypt_from-decrypt_from p hp k (f.max_path_length - i - 1) (pads i))

    append-last :
        (front : List (List Byte))
        → i < f.max_path_length
        → length front + suc i ≡ f.max_path_length
        → init (front ++ pads (suc i)) ++ end (length (init (front ++ pads (suc i))) + 2)
          ≡ front ++ pads (suc i)
    append-last front h sized =
        let nonce : length (front ++ dec) + 2 ≡ f.max_path_length + 1 = omega (
          arith,
          length-append front dec,
          length-decrypt_from p (sym_key i) (f.max_path_length - i - 1) (pads i),
          length-pad b p f.max_path_length sym_key i,
        ) in
        ap (λ (t : List (List Byte)). t ++ end (length t + 2)) (init-front-pad front h)
        ∙ ap (λ (n : ℕ). (front ++ dec) ++ end n) nonce
        ∙ sym (front-pad front h)

  module _ (f : OnionFormat p) (sk : ℕ → p.PrivateKey) (key : ℕ → p.SymmetricKey) (meta : ℕ → Meta)
      (cipher : ℕ → List Byte) (keys : List p.SymmetricKey) (ciphers : List (List Byte)) where
    -- The hops below `n` are served: their keys and ciphertexts are in the lists, and each can read
    -- its own.
    pub record AreServed (n : ℕ) : Type 0 where
      pub has_key : (i : ℕ) → i < n → index keys i ≡ ok (key i)
      pub has_cipher : (i : ℕ) → i < n → index ciphers i ≡ ok (cipher i)
      pub small : (i : ℕ) → i < n → IsSmall (cipher i)
      pub holds : (i : ℕ) → i < n → Holds b p hb hp (sk i) (cipher i) (key i) (meta i)

    length-init :
        (i : ℕ) (hs : List (Header p)) (front : List (List Byte))
        → i < f.max_path_length
        → length front + suc i ≡ f.max_path_length
        → header_bytes b p hs ≡ front ++ pads f key i (suc i)
        → f.max_path_length ≡ length (init hs) + 1
    length-init i hs front h sized e = omega (
      arith,
      length-map (into_bytes b p) (init hs),
      ap length (header_bytes-init b p hs ∙ ap init e ∙ init-front-pad f key i front h),
      length-append front (dec f key i),
      length-decrypt_from p (sym_key f key i i) (f.max_path_length - i - 1) (pads f key i i),
      length-pad b p f.max_path_length (sym_key f key i) i,
    )

    -- One layer put on and taken off again.
    layer_step :
        (i : ℕ) (hs : List (Header p)) (front : List (List Byte)) (fwd : List Byte)
        (bwd back : List Byte × p.Tag)
        → AreServed (suc i)
        → i < f.max_path_length
        → length front + suc i ≡ f.max_path_length
        → header_bytes b p hs ≡ front ++ pads f key i (suc i)
        → ae_unwrap p (key i) bwd ≡ ok back
        → let (hs', fwd') = wrap b p (key i) (cipher i) (init hs) fwd in
          unwrap b p f (sk i) (onion_of (header_bytes b p hs') fwd' bwd)
          ≡ ok (key i, meta i, onion_of (header_bytes b p hs) fwd back)
    layer_step i hs front fwd bwd back served h sized e e' =
        let inits = header_bytes-init b p hs ∙ ap init e in
        let count : length (header_bytes b p (init hs)) ≡ length (init hs) =
          length-map (into_bytes b p) (init hs) in
        unwrap-wrap_raw b p hb hp f (sk i) (key i) (meta i) (cipher i) (init hs) fwd bwd back
          (length-init i hs front h sized e) (served.small i (omega arith))
          (served.holds i (omega arith)) e'
        ∙ ap (λ (t : List (List Byte)). ok (key i, meta i, onion_of t fwd back))
            (ap (λ (n : ℕ). header_bytes b p (init hs) ++ end f key i (n + 2)) (sym count)
              ∙ ap (λ (t : List (List Byte)). t ++ end f key i (length t + 2)) inits
              ∙ append-last f key i front h sized
              ∙ sym e)

    -- The headers of one layer more.
    layer_headers :
        (i : ℕ) (hs : List (Header p)) (front : List (List Byte)) (fwd : List Byte)
        → i < f.max_path_length
        → length front + suc i ≡ f.max_path_length
        → header_bytes b p hs ≡ front ++ pads f key i (suc i)
        → (first : List Byte) × (header_bytes b p (wrap b p (key i) (cipher i) (init hs) fwd).0
            ≡ (first ∷ encrypt_from p (sym_key f key i i) 0 front) ++ pads f key i i)
    unfolding wrap
    layer_headers i hs front fwd h sized e =
        let k = sym_key f key i i in
        (
          into_bytes b p (parsed (wrap_block b p hb hp (key i) (cipher i) (init hs) fwd)),
          ap
              (λ (t : List (List Byte)).
                into_bytes b p (parsed (wrap_block b p hb hp (key i) (cipher i) (init hs) fwd)) ∷ t)
              (ap (header_bytes b p) (encrypt_headers-raw b p k 0 (init hs))
                ∙ header_bytes-raw b p (encrypt_from p k 0 (header_bytes b p (init hs)))
                ∙ ap (encrypt_from p k 0) (header_bytes-init b p hs ∙ ap init e)
                ∙ encrypt-init f key i front h sized),
        )

    fewer : (i : ℕ) → AreServed (suc i) → AreServed i
    fewer i served = record {
      has_key = λ j h. served.has_key j (omega arith);
      has_cipher = λ j h. served.has_cipher j (omega arith);
      small = λ j h. served.small j (omega arith);
      holds = λ j h. served.holds j (omega arith);
    }

    -- What the hops below `i` learn.
    abbrev pub learned : ℕ → List (p.SymmetricKey × Meta)
    learned i = upto i (λ j. (key j, meta j))

    -- The hops below `i` take off the layers that the loop put on for them, in its order, and each
    -- learns its key and its meta data.
    pub travel-wrap_layers :
        (i : ℕ) (hs : List (Header p)) (front : List (List Byte)) (fwd : List Byte)
        → AreServed i
        → i < f.max_path_length
        → length front + i ≡ f.max_path_length
        → header_bytes b p hs ≡ front ++ pads f key i i
        → (hs' : List (Header p)) × (fwd' : List Byte) × (wrap_layers b p i keys ciphers hs fwd
            ≡ ok (hs', fwd'))
          × ((bwd back : List Byte × p.Tag)
              → unwrap_upto b p key i bwd ≡ ok back
              → travel b p f sk i (onion_of (header_bytes b p hs') fwd' bwd)
                ≡ ok (learned i, onion_of (header_bytes b p hs) fwd back))
    unfolding wrap_layers travel unwrap_upto upto
    travel-wrap_layers zero hs front fwd served h sized e = (
      hs,
      fwd,
      refl,
      λ bwd back e'. ap (λ x. ok ([], onion_of (header_bytes b p hs) fwd x)) (ok-injective e'),
    )
    travel-wrap_layers (suc i) hs front fwd served h sized e =
        let w = wrap b p (key i) (cipher i) (init hs) fwd in
        let (first, heads) = layer_headers i hs front fwd (omega arith) sized e in
        let (hs', fwd', run, trip) =
          travel-wrap_layers i w.0 (first ∷ encrypt_from p (sym_key f key i i) 0 front) w.1
            (fewer i served) (omega arith)
            (omega (arith, length-encrypt_from p (sym_key f key i i) 0 front)) heads in
        (
          hs',
          fwd',
          rw (served.has_key i (omega arith), served.has_cipher i (omega arith)) run,
          λ bwd back e'.
              let (mid, e1, e2) = >>=-eq-ok (unwrap_upto b p key i bwd) (ae_unwrap p (key i)) e' in
              rw
                (
                  trip bwd mid e1,
                  layer_step i hs front fwd mid back served (omega arith) sized e e2,
                )
                refl,
        )
