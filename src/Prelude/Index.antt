-- ===== src/Prelude/Index.antt =====
-- Reading and writing behind a known front part.
use Prim.Native.Nat.{ℕ, zero, suc, ◌+◌, ◌<◌}
use mathlib.Core.Path.{◌≡◌, refl, ap, ◌∙◌}
use mathlib.Core.List.{List, [], ◌∷◌, ◌++◌, map}
use mathlib.Core.Option.{some, none}
use native.Mathlib.Omega.{arith}
use eror.Prelude.Lists.{length, get_elem?, init, last?, replicate}
use mathlib.Core.Logic.{◌≢◌}
use eror.Prelude.Outcome.{Outcome, ok, index, write, write_last, or_panic, ok-injective, ◌>>=◌}

module _ {ℓ} {A : Type ℓ} where
  pub index-append :
      (front : List A) (x : A) (rest : List A) → index (front ++ (x ∷ rest)) (length front) ≡ ok x
  index-append [] x rest = refl
  index-append (y ∷ front) x rest = index-append front x rest

  pub index_next :
      (front : List A) (x y : A) (rest : List A)
      → index (front ++ (x ∷ y ∷ rest)) (length front + 1) ≡ ok y
  index_next [] x y rest = refl
  index_next (z ∷ front) x y rest = rw (next front) (index_next front x y rest)
    where
      next : (front : List A) → suc (length front) + 1 ≡ suc (length front + 1)
      next front = omega arith

  pub write-append :
      (front : List A) (x v : A) (rest : List A)
      → write (front ++ (x ∷ rest)) (length front) v ≡ ok (front ++ (v ∷ rest))
  write-append [] x v rest = refl
  write-append (y ∷ front) x v rest =
      ap (λ (o : Outcome (List A)). o >>= λ ys. ok (y ∷ ys)) (write-append front x v rest)

  pub write_last-append :
      (front : List A) (x v : A) → write_last (front ++ (x ∷ [])) v ≡ ok (front ++ (v ∷ []))
  write_last-append [] x v = refl
  write_last-append (y ∷ []) x v = refl
  write_last-append (y ∷ z ∷ front) x v =
      ap (λ (o : Outcome (List A)). o >>= λ ys. ok (y ∷ ys)) (write_last-append (z ∷ front) x v)

  pub init-append : (front : List A) (x : A) → init (front ++ (x ∷ [])) ≡ front
  init-append [] x = refl
  init-append (y ∷ []) x = refl
  init-append (y ∷ z ∷ front) x = ap (λ (t : List A). y ∷ t) (init-append (z ∷ front) x)

module _ {ℓ} {A : Type ℓ} where
  -- What a write in range does.
  pub write_lem :
      (xs : List A) (i : ℕ) (v : A) {x : A}
      → get_elem? xs i ≡ some x
      → (ys : List A) × (write xs i v ≡ ok ys)
        × (get_elem? ys i ≡ some v)
        × ((r : ℕ) → r ≢ i → get_elem? ys r ≡ get_elem? xs r)
  write_lem [] i v e = absurd (none≢some e)
    where
      none≢some : {x : A} → none ≡ some x → ⊥
      none≢some e = cc
  write_lem (x ∷ xs) zero v e = (v ∷ xs, refl, refl, frame)
    where
      frame : (r : ℕ) → r ≢ 0 → get_elem? (v ∷ xs) r ≡ get_elem? (x ∷ xs) r
      frame zero ne = absurd (ne refl)
      frame (suc r) ne = refl
  write_lem (x ∷ xs) (suc i) v e =
      let (ys, run, here, frame) = write_lem xs i v e in
      (x ∷ ys, ap (λ (o : Outcome (List A)). o >>= λ zs. ok (x ∷ zs)) run, here, lift ys frame)
    where
      lift :
          (ys : List A)
          → ((r : ℕ) → r ≢ i → get_elem? ys r ≡ get_elem? xs r)
          → (r : ℕ) → r ≢ suc i
          → get_elem? (x ∷ ys) r ≡ get_elem? (x ∷ xs) r
      lift ys frame zero ne = refl
      lift ys frame (suc r) ne = frame r (λ e. ne (ap suc e))

  pub index_lem : (xs : List A) (i : ℕ) {x : A} → get_elem? xs i ≡ some x → index xs i ≡ ok x
  index_lem xs i e = ap or_panic e

  pub get_elem?-replicate : (n i : ℕ) (v : A) → i < n → get_elem? (replicate n v) i ≡ some v
  get_elem?-replicate zero i v h = absurd (omega arith)
  get_elem?-replicate (suc n) zero v h = refl
  get_elem?-replicate (suc n) (suc i) v h = get_elem?-replicate n i v (omega arith)

  pub replicate-add : (m n : ℕ) (v : A) → replicate (m + n) v ≡ replicate m v ++ replicate n v
  replicate-add zero n v = ap (λ (k : ℕ). replicate k v) (omega arith)
  replicate-add (suc m) n v =
      ap (λ (k : ℕ). replicate k v) (suc-sum m n) ∙ ap (λ (t : List A). v ∷ t) (replicate-add m n v)
    where
      suc-sum : (m n : ℕ) → suc m + n ≡ suc (m + n)
      suc-sum m n = omega arith

module _ {ℓ} {A : Type ℓ} where
  pub last?-index :
      (xs : List A) (n : ℕ) {x : A} → length xs ≡ suc n → index xs n ≡ ok x → last? xs ≡ some x
  last?-index [] n h e = absurd (omega arith)
  last?-index (x ∷ []) zero h e = ap some (ok-injective e)
  last?-index (x ∷ []) (suc n) h e = absurd (omega arith)
  last?-index (x ∷ y ∷ ys) zero h e = absurd (omega arith)
  last?-index (x ∷ y ∷ ys) (suc n) h e = last?-index (y ∷ ys) n (omega arith) e

  pub index-append_left : (xs ys : List A) (i : ℕ) → i < length xs → index (xs ++ ys) i ≡ index xs i
  index-append_left [] ys i h = absurd (omega arith)
  index-append_left (x ∷ xs) ys zero h = refl
  index-append_left (x ∷ xs) ys (suc i) h = index-append_left xs ys i (omega arith)

  abbrev pub get_or : List A → ℕ → A → A
  get_or [] i d = d
  get_or (x ∷ xs) zero d = x
  get_or (x ∷ xs) (suc i) d = get_or xs i d

  pub index-get_or : (xs : List A) (i : ℕ) (d : A) → i < length xs → index xs i ≡ ok (get_or xs i d)
  index-get_or [] i d h = absurd (omega arith)
  index-get_or (x ∷ xs) zero d h = refl
  index-get_or (x ∷ xs) (suc i) d h = index-get_or xs i d (omega arith)

  pub get_or-append_left :
      (xs ys : List A) (i : ℕ) (d : A) → i < length xs → get_or (xs ++ ys) i d ≡ get_or xs i d
  get_or-append_left [] ys i d h = absurd (omega arith)
  get_or-append_left (x ∷ xs) ys zero d h = refl
  get_or-append_left (x ∷ xs) ys (suc i) d h = get_or-append_left xs ys i d (omega arith)

  pub get_or-append : (xs : List A) (x d : A) → get_or (xs ++ (x ∷ [])) (length xs) d ≡ x
  get_or-append [] x d = refl
  get_or-append (y ∷ xs) x d = get_or-append xs x d

module _ {ℓ κ} {A : Type ℓ} {B : Type κ} where
  pub index-map :
      (g : A → B) (xs : List A) (i : ℕ) {x : A} → index xs i ≡ ok x → index (map g xs) i ≡ ok (g x)
  index-map g [] i e = cc
  index-map g (x ∷ xs) zero e = ap (λ (a : A). ok (g a)) (ok-injective e)
  index-map g (x ∷ xs) (suc i) e = index-map g xs i e
