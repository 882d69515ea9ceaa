-- ===== src/Prelude/Rand.antt =====
-- Calls that draw from the random number generator: the state of the generator goes in and out.
-- After an error or a panic it is not kept.
use mathlib.Core.Path.{◌≡◌, ap}
use eror.Prelude.Outcome.{Outcome, Error, ok, err, panic}

abbrev pub Rand : Type 0 → Type 0 → Type 0
Rand S A = S → Outcome (A × S)

module _ {S A : Type 0} where
  abbrev pub pure : A → Rand S A
  pure a s = ok (a, s)

  abbrev pub lift : Outcome A → Rand S A
  lift m s = elim m [ ok a ↦ ok (a, s) | err e ↦ err e | panic ↦ panic ]

  -- A draw that cannot fail.
  abbrev pub draw : (S → A × S) → Rand S A
  draw f s = ok (f s)

infixl 5 ◌>>=◌ ◌>>◌
abbrev pub ◌>>=◌ : {S A B : Type 0} → Rand S A → (A → Rand S B) → Rand S B
◌>>=◌ m f s = elim (m s) [ ok (a, s') ↦ f a s' | err e ↦ err e | panic ↦ panic ]

abbrev pub ◌>>◌ : {S B : Type 0} → Rand S (Unit {0}) → Rand S B → Rand S B
m >> k = m >>= λ _. k

-- A call that goes through hands its value and the generator on.
pub run_bind :
    {S A B : Type 0} (m : Rand S A) (f : A → Rand S B) (s : S) {a : A} {s' : S}
    → m s ≡ ok (a, s')
    → (m >>= f) s ≡ f a s'
run_bind {S} {A} {B} m f s e = ap after e
  where
    after : Outcome (A × S) → Outcome (B × S)
    after o = elim o [ ok (a, s') ↦ f a s' | err e ↦ err e | panic ↦ panic ]

pub run_lift :
    {S A B : Type 0} (m : Outcome A) (f : A → Rand S B) (s : S) {a : A}
    → m ≡ ok a
    → (lift m >>= f) s ≡ f a s
run_lift m f s e = run_bind (lift m) f s (ap (λ o. lift o s) e)

-- An error ends what follows.
pub run_bind_err :
    {S A B : Type 0} (m : Rand S A) (f : A → Rand S B) (s : S) {e : Error}
    → m s ≡ err e
    → (m >>= f) s ≡ err e
run_bind_err {S} {A} {B} m f s e = ap after e
  where
    after : Outcome (A × S) → Outcome (B × S)
    after o = elim o [ ok (a, s') ↦ f a s' | err why ↦ err why | panic ↦ panic ]
