-- ===== src/Prelude/Outcome.antt =====
-- What a call of the crate comes to: `Ok`, `Err` with a variant of error.rs, or a panic (an index
-- out of range, an `unwrap` of nothing, an underflow).
use Prim.Native.Nat.{ℕ, zero, suc}
use mathlib.Core.Path.{◌≡◌, refl, ap}
use mathlib.Core.Bool.{Bool, true, false}
use mathlib.Core.List.{List, [], ◌∷◌}
use mathlib.Core.Option.{Option, none, some}
use eror.Prelude.Lists.{get_elem?}

-- `enum Error`.
pub data Error : Type 0 where
  path_too_long key_not_found mac_mismatch not_the_receiver not_the_sender : Error
  unexpected_reply serialization_error ae_error : Error

pub data Outcome {ℓ} (A : Type ℓ) : Type ℓ where
  ok : A → Outcome A
  err : Error → Outcome A
  panic : Outcome A

module _ {ℓ κ} {A : Type ℓ} {B : Type κ} where
  infixl 5 ◌>>=◌
  -- `m?`: what follows runs on a value; an error or a panic ends the call.
  abbrev pub ◌>>=◌ : Outcome A → (A → Outcome B) → Outcome B
  m >>= next = elim m [ panic ↦ panic | err why ↦ err why | ok value ↦ next value ]

  -- The value of a call that went through, and what followed it.
  pub >>=-eq-ok :
      (m : Outcome A) (next : A → Outcome B) {result : B}
      → (m >>= next) ≡ ok result
      → (value : A) × (m ≡ ok value) × (next value ≡ ok result)
  >>=-eq-ok panic next went = cc
  >>=-eq-ok (err why) next went = cc
  >>=-eq-ok (ok value) next went = (value, refl, went)

infixl 5 ◌>>◌
abbrev pub ◌>>◌ {ℓ} : {B : Type ℓ} → Outcome (Unit {0}) → Outcome B → Outcome B
test >> rest = test >>= λ _. rest

module _ {ℓ} {A : Type ℓ} where
  -- `o.unwrap()` of an option.
  abbrev pub or_panic : Option A → Outcome A
  or_panic none = panic
  or_panic (some a) = ok a

  -- `o.ok_or(e)`
  abbrev pub or_err : Option A → Error → Outcome A
  or_err none e = err e
  or_err (some a) e = ok a

  -- `xs[i]`
  abbrev pub index : List A → ℕ → Outcome A
  index xs i = or_panic (get_elem? xs i)

  -- `xs[i] = v`
  abbrev pub write : List A → ℕ → A → Outcome (List A)
  write [] i v = panic
  write (x ∷ xs) zero v = ok (v ∷ xs)
  write (x ∷ xs) (suc i) v = write xs i v >>= λ ys. ok (x ∷ ys)

-- `if !test { return Err(e) }` and `assert!(test)`
abbrev pub require : Bool → Error → Outcome (Unit {0})
require true e = ok tt
require false e = err e

abbrev pub assert : Bool → Outcome (Unit {0})
assert true = ok tt
assert false = panic

-- `n - 1` on an unsigned number, with overflow checks on.
abbrev pub minus_one : ℕ → Outcome ℕ
minus_one zero = panic
minus_one (suc n) = ok n

-- `*xs.last_mut().unwrap() = v`
abbrev pub write_last {ℓ} : {A : Type ℓ} → List A → A → Outcome (List A)
write_last [] v = panic
write_last (x ∷ []) v = ok (v ∷ [])
write_last (x ∷ y ∷ ys) v = write_last (y ∷ ys) v >>= λ zs. ok (x ∷ zs)

-- `r.or(Err(e))`
abbrev pub or_else_err {ℓ} : {A : Type ℓ} → Outcome A → Error → Outcome A
or_else_err (ok a) e = ok a
or_else_err (err _) e = err e
or_else_err panic e = panic

pub or_panic-eq-ok {ℓ} : {A : Type ℓ} (o : Option A) {a : A} → or_panic o ≡ ok a → o ≡ some a
or_panic-eq-ok none h = cc
or_panic-eq-ok (some x) h = cc

pub or_else_err-eq-ok {ℓ} :
    {A : Type ℓ} (o : Outcome A) (e : Error) {a : A} → or_else_err o e ≡ ok a → o ≡ ok a
or_else_err-eq-ok (ok x) e h = h
or_else_err-eq-ok (err x) e h = cc
or_else_err-eq-ok panic e h = cc

pub require-eq-ok : (t : Bool) (e : Error) {u : Unit {0}} → require t e ≡ ok u → t ≡ true
require-eq-ok true e h = refl
require-eq-ok false e h = cc

abbrev value_or {ℓ} : {A : Type ℓ} → A → Outcome A → A
value_or d (ok a) = a
value_or d (err _) = d
value_or d panic = d

pub ok-injective {ℓ} : {A : Type ℓ} {x y : A} → ◌≡◌ {A = Outcome A} (ok x) (ok y) → x ≡ y
ok-injective {x} {y} e = ap (value_or x) e

pub bind_ok {ℓ} : {A : Type ℓ} (m : Outcome A) → (m >>= λ a. ok a) ≡ m
bind_ok panic = refl
bind_ok (err e) = refl
bind_ok (ok a) = refl

-- A longer continuation, given that it is one behind another for each value.
pub bind_assoc {ℓ} :
    {A : Type ℓ} (m : Outcome A) (f g : A → Outcome A) (h : A → Outcome A)
    → ((a : A) → f a ≡ (g a >>= h))
    → (m >>= f) ≡ ((m >>= g) >>= h)
bind_assoc panic f g h e = refl
bind_assoc (err _) f g h e = refl
bind_assoc (ok a) f g h e = e a
