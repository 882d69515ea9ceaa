-- ===== src/Onionize/Payloads.antt =====
-- The payloads that `onionize` prepares.
use eror.Prelude.{
  ℕ, zero, suc, ◌-◌, ◌<◌, ◌≡◌, refl, sym, ap, ◌∙◌, List, [], ◌∷◌, ◌++◌, init, length, map, arith,
}
use eror.Prelude.Outcome
use eror.Prelude.Outcome.{Outcome, ok, index, or_panic, ok-injective, bind_ok, bind_assoc}
use eror.Prelude.Index.{init-append, last?-index, index-map}
use eror.Bytes.{Byte}
use eror.Serde.{Bincode, IsBincode}
use eror.Primitives.{Primitives, IsPrimitives, sym_enc}
use eror.Format.{nonce_fwd, ae_unwrap, random_bytes}
use eror.Onionize.{Payload, unwrap_all, prepare}
use eror.Format.Ae.{ae_wrap-ae_unwrap}
use eror.Onionize.Layers.{unwrap_upto-ok}
use eror.Onionize.Random.{length-random_bytes}
use eror.Onionize.Chain.{upto, unwrap_upto}

module _ {A : Type 0} where
  upto-cons : (n : ℕ) (g : ℕ → A) → upto (suc n) g ≡ (g 0 ∷ upto n (λ i. g (suc i)))
  unfolding upto
  upto-cons zero g = refl
  upto-cons (suc n) g = ap (λ (t : List A). t ++ (g (suc n) ∷ [])) (upto-cons n g)

  -- A list is what its positions say.
  pub list-upto :
      (xs : List A) (n : ℕ) (g : ℕ → A)
      → length xs ≡ n
      → ((i : ℕ) → i < n → index xs i ≡ ok (g i))
      → xs ≡ upto n g
  list-upto [] zero g l at = unfold upto in refl
  list-upto [] (suc n) g l at = absurd (omega arith)
  list-upto (x ∷ xs) zero g l at = absurd (omega arith)
  list-upto (x ∷ xs) (suc n) g l at =
      let rest = list-upto xs n (λ i. g (suc i)) (omega arith) (λ i h. at (suc i) (omega arith)) in
      ap (λ (t : List A). x ∷ t) rest
      ∙ ap (λ (a : A). a ∷ upto n (λ i. g (suc i))) (ok-injective (at 0 (omega arith)))
      ∙ sym (upto-cons n g)

  init-upto : (n : ℕ) (g : ℕ → A) → init (upto (suc n) g) ≡ upto n g
  unfolding upto
  init-upto n g = init-append (upto n g) (g n)

module _ (b : Bincode) (p : Primitives) where
  unwrap_all-append :
      (keys : List p.SymmetricKey) (key : p.SymmetricKey) (bwd : List Byte × p.Tag)
      → unwrap_all b p (keys ++ (key ∷ [])) bwd
        ≡ Outcome.◌>>=◌ (unwrap_all b p keys bwd) (ae_unwrap p key)
  unfolding unwrap_all
  unwrap_all-append [] key bwd = bind_ok (ae_unwrap p key bwd)
  unwrap_all-append (k ∷ keys) key bwd =
      bind_assoc (ae_unwrap p k bwd) (unwrap_all b p (keys ++ (key ∷ []))) (unwrap_all b p keys)
        (ae_unwrap p key) (unwrap_all-append keys key)

  -- The loop over a slice of keys is the hops' work.
  pub unwrap_all-upto :
      (key : ℕ → p.SymmetricKey) (n : ℕ) (bwd : List Byte × p.Tag)
      → unwrap_all b p (upto n key) bwd ≡ unwrap_upto b p key n bwd
  unfolding upto unwrap_upto unwrap_all
  unwrap_all-upto key zero bwd = refl
  unwrap_all-upto key (suc n) bwd =
      unwrap_all-append (upto n key) (key n) bwd
      ∙ ap (λ o. Outcome.◌>>=◌ o (ae_unwrap p (key n))) (unwrap_all-upto key n bwd)

module _ (b : Bincode) (p : Primitives) (hb : IsBincode b) (hp : IsPrimitives p) where
  -- For a forward payload and a path of `suc n` keys, `prepare` succeeds: the payload is encrypted
  -- for the last hop, the backward part for the first hop has the given length, the one for the last
  -- hop is what the first `n` hops make of it, and the expected tag is the one that the last hop
  -- finds when it takes off its layer.
  pub prepare_forward :
      (keys : List p.SymmetricKey) (key : ℕ → p.SymmetricKey) (n : ℕ) (message : List Byte)
      (backward_length : ℕ) (r : p.Rng)
      → length keys ≡ suc n
      → ((i : ℕ) → i < suc n → index keys i ≡ ok (key i))
      → (bwd bwd_n final : List Byte × p.Tag) × (r' : p.Rng) × (prepare b p keys
            (map (p.derive_key sym_enc) keys)
            (Payload.forward message)
            backward_length
            r
          ≡ ok (
            (
              p.symmetric_encrypt (p.derive_key sym_enc (key n)) nonce_fwd message,
              bwd,
              bwd_n,
              final.1,
            ),
            r',
          ))
        × (unwrap_upto b p key n bwd ≡ ok bwd_n)
        × (ae_unwrap p (key n) bwd_n ≡ ok final)
        × (length bwd.0 ≡ backward_length)
  unfolding prepare
  prepare_forward keys key n message backward_length r l at =
      let (garbage, r1) = random_bytes p backward_length r in
      let (t, r2) = p.random_tag r1 in
      let (bwd_n, run, _) = unwrap_upto-ok b p hb hp key n (garbage, t) in
      let (final, last_run, _, _) = ae_wrap-ae_unwrap p hp (key n) bwd_n in
      let at_last : index keys (length keys - 1) ≡ ok (key n) =
        ap (index keys) (omega arith) ∙ at n (omega arith) in
      let front : unwrap_all b p (init keys) (garbage, t) ≡ ok bwd_n =
        ap (λ (ks : List p.SymmetricKey). unwrap_all b p (init ks) (garbage, t))
          (list-upto keys (suc n) key l at)
        ∙ ap (λ (ks : List p.SymmetricKey). unwrap_all b p ks (garbage, t)) (init-upto n key)
        ∙ unwrap_all-upto b p key n (garbage, t)
        ∙ run in
      (
        (garbage, t),
        bwd_n,
        final,
        r2,
        rw (index-map (p.derive_key sym_enc) keys (length keys - 1) at_last, front)
            (rw (last?-index keys n l (at n (omega arith)), last_run) refl),
        run,
        last_run,
        length-random_bytes p backward_length r,
      )
