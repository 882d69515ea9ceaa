-- ===== src/Serde/Laws.antt =====
-- Codecs compose: what is built from round trips round-trips.
use eror.Prelude.{◌≡◌, ◌++◌, [], append-nil, List, Option, none, some, sym, ap, ◌∙◌}
use eror.Prelude.Outcome.{ok}
use eror.Bytes.{Byte}
use eror.Serde.{Codec, RoundTrips, via, deserialize}

pub via-RoundTrips :
    {A B : Type 0} (c : Codec B) (to : A → B) (from : B → Option A) (Valid : B → Type 0)
    → RoundTrips c Valid
    → ((a : A) → from (to a) ≡ some a)
    → RoundTrips (via c to from) (λ a. Valid (to a))
unfolding via
via-RoundTrips c to from Valid rt back a rest h = rw (rt (to a) rest h, back a)

pub deserialize-write :
    {A : Type 0} (c : Codec A) (Valid : A → Type 0) (a : A) (rest : List Byte)
    → RoundTrips c Valid
    → Valid a
    → deserialize c (c.write a ++ rest) ≡ ok a
unfolding deserialize
deserialize-write c Valid a rest rt h = rw (rt a rest h, deserialize)

pub deserialize-write_all :
    {A : Type 0} (c : Codec A) (Valid : A → Type 0) (a : A)
    → RoundTrips c Valid
    → Valid a
    → deserialize c (c.write a) ≡ ok a
deserialize-write_all c Valid a rt h =
    ap (deserialize c) (sym (append-nil (c.write a))) ∙ deserialize-write c Valid a [] rt h

-- A value may come back as another one that is serialised alike.
pub read-via :
    {A B : Type 0} (c : Codec B) (to : A → B) (from : B → Option A) (a : A) {a' : A}
    {rest : List Byte}
    → c.read (c.write (to a) ++ rest) ≡ some (to a, rest)
    → from (to a) ≡ some a'
    → (via c to from).read ((via c to from).write a ++ rest) ≡ some (a', rest)
unfolding via
read-via c to from a e back = rw (e, back)

pub deserialize_read :
    {A : Type 0} (c : Codec A) (bs : List Byte) {a : A} {rest : List Byte}
    → c.read bs ≡ some (a, rest)
    → deserialize c bs ≡ ok a
unfolding deserialize
deserialize_read c bs e = rw (e, deserialize)

abbrev value_or : {A : Type 0} → A → Option (A × List Byte) → A
value_or d none = d
value_or d (some (a, _)) = a

-- Values that read back are told apart by their bytes.
pub write-injective :
    {A : Type 0} (c : Codec A) (Valid : A → Type 0) (x y : A)
    → RoundTrips c Valid
    → Valid x
    → Valid y
    → c.write x ≡ c.write y
    → x ≡ y
write-injective c Valid x y rt hx hy e =
    ap (value_or x) (sym (rt x [] hx) ∙ ap (λ t. c.read (t ++ [])) e ∙ rt y [] hy)
