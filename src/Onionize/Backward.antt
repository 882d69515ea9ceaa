-- ===== src/Onionize/Backward.antt =====
-- The onion of `onionize` for a backward payload: the headers that a reply uses.
use eror.Prelude.{
  subst, init, ℕ, zero, suc, ◌-◌, ◌<◌, ◌^◌, ◌≡◌, refl, sym, ap, ◌∙◌, List, [], ◌∷◌, ◌++◌, map, take,
  length, length-append, take-append_self, length-map, ap₂, arith,
}
use eror.Prelude.Outcome.{ok, index, ok-injective, >>=-eq-ok}
use eror.Prelude.Index.{get_or, index-map}
use eror.Bytes.{Byte}
use eror.Serde.{Bincode, IsBincode}
use eror.Primitives.{Primitives, IsPrimitives, sym_enc}
use eror.Pki.{Address}
use eror.Onion.{Meta, Header, Onion}
use eror.Onion.Serialize.{unparsed}
use eror.Format.{OnionFormat, nonce_fwd}
use eror.Format.Ae.{ae_wrap-ae_unwrap}
use eror.Layer.{wrap, unwrap}
use eror.Onionize.{Payload, onionize, prepare, wrap_layers, decrypt_all}
use eror.Onionize.Chain.{upto, travel, unwrap_upto}
use eror.Onionize.Ciphers.{IsRoute}
use eror.Onionize.Layers.{unwrap_upto-ok}
use eror.Onionize.Payloads.{list-upto}
use eror.Onionize.Fresh.{IsFresh}
use eror.Onionize.Steps.{last_onion}
use eror.Onionize.Journey.{headers_lem, layers_lem, layers-IsFresh, end_lem, stops, padding}

length-upto : {A : Type 0} (n : ℕ) (g : ℕ → A) → length (upto n g) ≡ n
unfolding upto
length-upto zero g = refl
length-upto (suc n) g = omega (arith, length-append (upto n g) (g n ∷ []), length-upto n g)

take-upto : {A : Type 0} (n : ℕ) (g : ℕ → A) → take n (upto (suc n) g) ≡ upto n g
unfolding upto
take-upto n g =
    ap (λ (m : ℕ). take m (upto n g ++ (g n ∷ []))) (sym (length-upto n g))
    ∙ take-append_self (upto n g) (g n ∷ [])

module _ (b : Bincode) (p : Primitives) where
  -- The first `i` hops take off their layers of a forward payload.
  pub decrypt_upto : (ℕ → p.SymmetricKey) → ℕ → List Byte → List Byte
  decrypt_upto key zero bs = bs
  decrypt_upto key (suc i) bs =
      p.symmetric_decrypt (p.derive_key sym_enc (key i)) nonce_fwd (decrypt_upto key i bs)

  decrypt_all-append :
      (keys : List p.SymmetricKey) (k : p.SymmetricKey) (bs : List Byte)
      → decrypt_all b p (keys ++ (k ∷ [])) bs
        ≡ p.symmetric_decrypt k nonce_fwd (decrypt_all b p keys bs)
  unfolding decrypt_all
  decrypt_all-append [] k bs = refl
  decrypt_all-append (x ∷ keys) k bs =
      decrypt_all-append keys k (p.symmetric_decrypt x nonce_fwd bs)

  decrypt_all-upto :
      (key : ℕ → p.SymmetricKey) (n : ℕ) (bs : List Byte)
      → decrypt_all b p (upto n (λ i. p.derive_key sym_enc (key i))) bs ≡ decrypt_upto key n bs
  unfolding upto decrypt_upto decrypt_all
  decrypt_all-upto key zero bs = refl
  decrypt_all-upto key (suc n) bs =
      decrypt_all-append (upto n (λ i. p.derive_key sym_enc (key i))) (p.derive_key sym_enc (key n))
        bs
      ∙ ap (p.symmetric_decrypt (p.derive_key sym_enc (key n)) nonce_fwd)
          (decrypt_all-upto key n bs)

  wrap_forward :
      (k : p.SymmetricKey) (c : List Byte) (hs : List (Header p)) (fwd : List Byte)
      → (wrap b p k c hs fwd).1 ≡ p.symmetric_encrypt (p.derive_key sym_enc k) nonce_fwd fwd
  unfolding wrap
  wrap_forward k c hs fwd = refl

  -- The loop over the layers encrypts what these decryptions took off.
  wrap_layers-decrypt_upto :
      IsPrimitives p
      → (key : ℕ → p.SymmetricKey) (i : ℕ) (keys : List p.SymmetricKey) (cs : List (List Byte))
        (hs : List (Header p)) (bs : List Byte) {hs' : List (Header p)} {fwd' : List Byte}
      → ((j : ℕ) → j < i → index keys j ≡ ok (key j))
      → wrap_layers b p i keys cs hs (decrypt_upto key i bs) ≡ ok (hs', fwd')
      → fwd' ≡ bs
  unfolding wrap_layers decrypt_upto
  wrap_layers-decrypt_upto hp key zero keys cs hs bs at e = ap (λ t. t.1) (sym (ok-injective e))
  wrap_layers-decrypt_upto hp key (suc i) keys cs hs bs {hs'} {fwd'} at e =
      let (k, ek, e1) = >>=-eq-ok (index keys i) _ e in
      let (c, ec, e2) = >>=-eq-ok (index cs i) _ e1 in
      let same : k ≡ key i = ok-injective (sym ek ∙ at i (omega arith)) in
      let outer = wrap b p k c (init hs) (decrypt_upto key (suc i) bs) in
      let undone : outer.1 ≡ decrypt_upto key i bs =
        wrap_forward k c (init hs) _
        ∙ ap
            (λ (x : p.SymmetricKey).
              p.symmetric_encrypt (p.derive_key sym_enc x) nonce_fwd (decrypt_upto key (suc i) bs))
            same
        ∙ hp.encrypt-decrypt (p.derive_key sym_enc (key i)) nonce_fwd (decrypt_upto key i bs) in
      wrap_layers-decrypt_upto hp key i keys cs outer.0 bs (λ j h. at j (omega arith))
        (subst (λ (x : List Byte). wrap_layers b p i keys cs outer.0 x ≡ ok (hs', fwd')) undone e2)

  -- A backward payload is decrypted with the keys of all hops but the last.
  pub prepare_backward :
      (keys : List p.SymmetricKey) (key : ℕ → p.SymmetricKey) (n : ℕ) (message : List Byte)
      (backward_length : ℕ) (r : p.Rng)
      → length keys ≡ suc n
      → ((i : ℕ) → i < suc n → index keys i ≡ ok (key i))
      → prepare b p keys
          (map (p.derive_key sym_enc) keys)
          (Payload.backward message)
          backward_length
          r
        ≡ ok (
          (decrypt_upto key n message, ([], p.default_tag), ([], p.default_tag), p.default_tag),
          r,
        )
  unfolding prepare
  prepare_backward keys key n message backward_length r l at =
      let syms = map (p.derive_key sym_enc) keys in
      let sym_of = λ (i : ℕ). p.derive_key sym_enc (key i) in
      let all : syms ≡ upto (suc n) sym_of =
        list-upto syms (suc n) sym_of (omega (arith, length-map (p.derive_key sym_enc) keys))
          (λ i h. index-map (p.derive_key sym_enc) keys i (at i (omega arith))) in
      let front : take (length keys - 1) syms ≡ upto n sym_of =
        ap₂ (λ (m : ℕ) (ks : List p.SymmetricKey). take m ks) (omega arith) all
        ∙ take-upto n sym_of in
      ap (λ (x : List Byte). ok ((x, ([], p.default_tag), ([], p.default_tag), p.default_tag), r))
        (ap (λ (ks : List p.SymmetricKey). decrypt_all b p ks message) front
          ∙ decrypt_all-upto key n message)

module _ (b : Bincode) (p : Primitives) (hb : IsBincode b) (hp : IsPrimitives p) where
  -- The onion with another backward part, as `reply_onion` makes it.
  abbrev pub answered : Onion p → List Byte × p.Tag → Onion p
  answered onion bwd = record onion { backward = bwd }

  -- On a path of `suc n` hops that is not longer than the format allows, with a key for each hop,
  -- all hops in the key store and with private keys that decrypt every message encrypted for them
  -- (and symmetric keys shorter than
  -- 2^32), `onionize` succeeds for every backward payload, meta data and state of the generator, and
  -- the onion for the first hop carries the payload as it is. With any backward part in place of its
  -- own, that onion travels over the wire through the first `n` hops, each of which learns its key
  -- and the address of the next, and arrives at the last hop as the onion that `onionize` returns
  -- for it, with the layers of the `n` hops taken off the backward part. The last hop learns its key
  -- and the given meta data. The onion for the first hop has as many headers as the longest path has
  -- hops, all of the same size.
  pub onionize_backward :
      (f : OnionFormat p) (key : ℕ → p.SymmetricKey) (addr : ℕ → Address) (sk : ℕ → p.PrivateKey)
      (pk : ℕ → p.PublicKey) (keys : List p.SymmetricKey) (hops : List Address) (meta : Meta)
      (n : ℕ) (message : List Byte) (backward_length : ℕ) (r : p.Rng) (bwd : List Byte × p.Tag)
      → p.symmetric_key_length < 2 ^ 32
      → IsRoute b p hb hp f keys hops key addr sk pk
      → length hops ≡ suc n
      → n < f.max_path_length
      → (first last inside : Onion p) × (back : List Byte × p.Tag) × (r' : p.Rng) × (onionize b p f
            keys hops meta
            (Payload.backward message)
            backward_length
            r
          ≡ ok ((first, last, p.default_tag), r'))
        × (first.forward ≡ message)
        × (unwrap_upto b p key n bwd ≡ ok back)
        × (travel b p f sk n (unparsed b p hb hp (answered first bwd))
            ≡ ok (stops b p hb hp f key addr sk pk n meta, unparsed b p hb hp (answered last back)))
        × (unwrap b p f (sk n) (unparsed b p hb hp (answered last back)) ≡ ok (key n, meta, inside))
        × IsFresh b p hb hp f first.header
  onionize_backward f key addr sk pk keys hops meta n message backward_length r bwd short route l
        h =
      let (cs, hs, r2, count, reads, drawn_count, drawn_sized, finish) =
        headers_lem b p hb hp f key addr sk pk keys hops meta n r short route l h in
      let fwd = decrypt_upto b p key n message in
      let at = λ (i : ℕ) (hi : i < suc n). route.key_at i (omega arith) in
      let (hs', fwd', run, trip) =
        layers_lem b p hb hp f key addr sk pk keys hops meta n cs hs fwd route l h count reads
          drawn_count in
      let (back, goes, _) = unwrap_upto-ok b p hb hp key n bwd in
      let (final, last_back, _, _) = ae_wrap-ae_unwrap p hp (key n) back in
      let (inside, un, _, _) =
        end_lem b p hb hp f key addr sk pk meta n cs hs fwd back final h reads drawn_count
          last_back in
      let none_back : List Byte × p.Tag = ([], p.default_tag) in
      (
        record { header = hs'; forward = fwd'; backward = none_back },
        last_onion b p hb hp (key n) (get_or cs n []) (hs ++ padding b p hb hp f key addr sk pk n)
            fwd none_back,
        inside,
        back,
        r2,
        finish (Payload.backward message) backward_length fwd none_back none_back p.default_tag hs'
            fwd' r2
            (prepare_backward b p keys key n message backward_length r2 (route.same_length ∙ l) at)
            run,
        wrap_layers-decrypt_upto b p hp key n keys cs _ message (λ j hj. at j (omega arith)) run,
        goes,
        trip bwd back goes,
        un,
        (layers-IsFresh b p hb hp f key addr sk pk meta n keys cs hs fwd h count reads drawn_count
            drawn_sized run).0,
      )
