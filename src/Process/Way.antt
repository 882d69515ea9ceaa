-- ===== src/Process/Way.antt =====
-- An onion on its way as a relation: hop by hop, each takes off its layer and finds the next address.
use eror.Prelude.{
  ℕ, zero, suc, ◌<◌, ◌≡◌, refl, sym, ap, ◌∙◌, inl, inr, Bool-cases, ==_iff, ◌==◌, List, [], ◌∷◌,
  ◌++◌, Option, none, some, length, init, last?, arith,
}
use eror.Prelude.Outcome.{ok, ok-injective, minus_one, >>=-eq-ok, write_last}
use eror.Prelude.Index.{init-append}
use eror.Bytes.{Byte}
use eror.Serde.{Bincode, IsBincode}
use eror.Primitives.{Primitives, IsPrimitives, sym_enc}
use eror.Pki.{Address}
use eror.Onion.{Meta, Onion}
use eror.Format.{OnionFormat, ae_unwrap}
use eror.Layer.{unwrap, peel, shift_headers}
use eror.Layer.Tamper.{unwrap_checks}
use eror.Onionize.Chain.{upto, travel}
use eror.Onionize.Ciphers.{hop_meta, stop_meta}
use eror.Process.{proc_onion, dispatch, hop}
use eror.Process.Branches.{proc_onion-dispatch}

last?-append {ℓ} : {A : Type ℓ} (xs : List A) (x : A) → last? (xs ++ (x ∷ [])) ≡ some x
last?-append [] x = refl
last?-append (y ∷ []) x = refl
last?-append (y ∷ z ∷ xs) x = last?-append (z ∷ xs) x

option_or {ℓ} : {A : Type ℓ} → A → Option A → A
option_or d none = d
option_or d (some a) = a

some-injective {ℓ} : {A : Type ℓ} {x y : A} → ◌≡◌ {A = Option A} (some x) (some y) → x ≡ y
unfolding option_or
some-injective {x} e = ap (option_or x) e

snoc-injective {ℓ} :
    {A : Type ℓ} (xs ys : List A) (x y : A)
    → (xs ++ (x ∷ [])) ≡ (ys ++ (y ∷ []))
    → (xs ≡ ys) × (x ≡ y)
snoc-injective xs ys x y e = (
  sym (init-append xs x) ∙ ap init e ∙ init-append ys y,
  some-injective (sym (last?-append xs x) ∙ ap last? e ∙ last?-append ys y),
)

module _ (b : Bincode) (p : Primitives) where
  -- The onion leaves hop 0 of a path and, `i` hops later, is the second one.
  unfoldable pub Way :
      OnionFormat p → (ℕ → p.PrivateKey) → (ℕ → Address) → ℕ → Onion p → Onion p → Type 0
  Way f sk addr zero onion arrived = onion ≡ arrived
  Way f sk addr (suc i) onion arrived =
      (mid : Onion p) × (key : p.SymmetricKey) × Way f sk addr i onion mid
      × (unwrap b p f (sk i) mid ≡ ok (key, hop_meta (addr (suc i)), arrived))

  -- What `travel` says about each hop.
  pub travel-Way :
      (f : OnionFormat p) (sk : ℕ → p.PrivateKey) (addr : ℕ → Address)
      (g : ℕ → p.SymmetricKey × Meta) (i : ℕ) (onion : Onion p) {arrived : Onion p}
      → ((j : ℕ) → j < i → (g j).1 ≡ hop_meta (addr (suc j)))
      → travel b p f sk i onion ≡ ok (upto i g, arrived)
      → Way f sk addr i onion arrived
  unfolding Way travel upto
  travel-Way f sk addr g zero onion metas e = ap (λ t. t.1) (ok-injective e)
  travel-Way f sk addr g (suc i) onion {arrived} metas e =
      let (x, e1, h1) = >>=-eq-ok (travel b p f sk i onion) _ e in
      let (y, e2, h2) = >>=-eq-ok (unwrap b p f (sk i) x.1) _ h1 in
      let (logs, entries) =
        snoc-injective x.0 (upto i g) (y.0, y.1) (g i) (ap (λ t. t.0) (ok-injective h2)) in
      let met : y.1 ≡ hop_meta (addr (suc i)) = ap (λ t. t.1) entries ∙ metas i (omega arith) in
      (
        x.1,
        y.0,
        travel-Way f sk addr g i onion (λ j h. metas j (omega arith))
            (e1 ∙ ap (λ l. ok (l, x.1)) logs),
        e2
            ∙ ap (λ (m : Meta). ok (y.0, m, y.2)) met
            ∙ ap (λ (o : Onion p). ok (y.0, hop_meta (addr (suc i)), o))
                (ap (λ t. t.1) (ok-injective h2)),
      )

  -- Only the first hop sees the onion itself.
  pub Way-first :
      (f : OnionFormat p) (sk : ℕ → p.PrivateKey) (addr : ℕ → Address) (i : ℕ)
      (onion onion' arrived : Onion p)
      → ((k : p.PrivateKey) → unwrap b p f k onion ≡ unwrap b p f k onion')
      → Way f sk addr (suc i) onion' arrived
      → Way f sk addr (suc i) onion arrived
  unfolding Way
  Way-first f sk addr zero onion onion' arrived same (mid, key, way, e) =
      (onion, key, refl, same (sk 0) ∙ ap (unwrap b p f (sk 0)) way ∙ e)
  Way-first f sk addr (suc i) onion onion' arrived same (mid, key, way, e) =
      (mid, key, Way-first f sk addr i onion onion' mid same way, e)

  -- A hop sends the onion on, whatever tags it expects.
  pub proc_hop :
      (f : OnionFormat p) (sk : p.PrivateKey) (expected_tag : List Byte → Option p.Tag)
      (onion onion' : Onion p) (key : p.SymmetricKey) (next : Address)
      → unwrap b p f sk onion ≡ ok (key, hop_meta next, onion')
      → proc_onion b p f sk expected_tag onion ≡ ok (hop next onion')
  unfolding dispatch
  proc_hop f sk expected_tag onion onion' key next e =
      proc_onion-dispatch b p f sk expected_tag onion onion' key (hop_meta next) e

pub stop_meta_hop :
    (addr : ℕ → Address) (n : ℕ) (meta : Meta) (i : ℕ)
    → i < n
    → stop_meta addr n meta i ≡ hop_meta (addr (suc i))
stop_meta_hop addr n meta i h = elim (Bool-cases (i == n)) [
  | inl e ↦ absurd (not_last ((==_iff i n).0 e) h)
  | inr e ↦ rw e refl
]
  where
    not_last : i ≡ n → i < n → ⊥
    not_last e h = omega arith

module _ (b : Bincode) (p : Primitives) (hb : IsBincode b) (hp : IsPrimitives p) where
  -- A hop keeps the length of the forward payload.
  pub unwrap_forward_length :
      (f : OnionFormat p) (sk : p.PrivateKey) (onion : Onion p) {key : p.SymmetricKey} {meta : Meta}
      {onion' : Onion p}
      → unwrap b p f sk onion ≡ ok (key, meta, onion')
      → length onion'.forward ≡ length onion.forward
  unfolding peel
  unwrap_forward_length f sk onion {key} {meta} {onion'} e =
      let (_, _, _, _, _, _, (_, _, peeled)) = unwrap_checks b p hp f sk onion e in
      let (count, e1, h1) = >>=-eq-ok (minus_one f.max_path_length) _ peeled in
      let (shifted, e2, h2) =
        >>=-eq-ok (shift_headers b p count 0 (p.derive_key sym_enc key) onion.header) _ h1 in
      let (header, e3, h3) = >>=-eq-ok (write_last shifted _) _ h2 in
      let (back, e4, h4) = >>=-eq-ok (ae_unwrap p key onion.backward) _ h3 in
      ap (λ (o : Onion p). length o.forward) (sym (ok-injective h4)) ∙ hp.length-decrypt _ _ _
