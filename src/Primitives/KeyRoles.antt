-- ===== src/Primitives/KeyRoles.antt =====
-- `KeyRole::discriminant` keeps the roles apart, as its comment says.
use eror.Prelude.{ℕ, ◌<◌, ◌^◌, ◌≡◌, refl, ap, ap₂, sym, arith, ◌∙◌, ◌==◌, if◌then◌else◌}
use eror.Bytes.Laws.{byte-injective, le_bytes-injective, cons-head, cons-tail}
use eror.Primitives.{
  KeyRole, sym_enc, mac, auth_enc, end_to_end, prng, forward, backward, uhf, discriminant,
  role_bytes,
}

-- A hop number is a `u32`.
abbrev pub IsKeyRole : KeyRole → Type 0
IsKeyRole (forward i) = i < 2 ^ 32
IsKeyRole (backward i) = i < 2 ^ 32
IsKeyRole _ = Unit

abbrev kind : KeyRole → ℕ
kind sym_enc = 1
kind mac = 2
kind auth_enc = 3
kind end_to_end = 4
kind prng = 5
kind (forward _) = 6
kind (backward _) = 7
kind uhf = 8

abbrev hop : KeyRole → ℕ
hop (forward i) = i
hop (backward i) = i
hop _ = 0

abbrev role_of : ℕ → ℕ → KeyRole
role_of k i =
    if k == 1
    then sym_enc
    else if k == 2
    then mac
    else if k == 3
    then auth_enc
    else if k == 4
    then end_to_end
    else if k == 5
    then prng
    else if k == 6
    then forward i
    else if k == 7
    then backward i
    else uhf

role_of-kind-hop : (r : KeyRole) → role_of (kind r) (hop r) ≡ r
role_of-kind-hop sym_enc = refl
role_of-kind-hop (forward i) = refl
role_of-kind-hop (backward i) = refl
role_of-kind-hop _ = refl

bytes-discriminant : (r : KeyRole) → (discriminant r).bytes ≡ role_bytes (kind r) (hop r)
unfolding discriminant
bytes-discriminant sym_enc = refl
bytes-discriminant (forward i) = refl
bytes-discriminant (backward i) = refl
bytes-discriminant _ = refl

kind-lt : (r : KeyRole) → kind r < 256
kind-lt sym_enc = omega arith
kind-lt _ = omega arith

hop-lt : (r : KeyRole) → IsKeyRole r → hop r < 256 ^ 4
hop-lt sym_enc h = omega arith
hop-lt (forward i) h = omega arith
hop-lt (backward i) h = omega arith
hop-lt _ h = omega arith

role_bytes-injective :
    (k i l j : ℕ)
    → k < 256
    → l < 256
    → i < 256 ^ 4
    → j < 256 ^ 4
    → role_bytes k i ≡ role_bytes l j
    → (k ≡ l) × (i ≡ j)
unfolding role_bytes
role_bytes-injective k i l j hk hl hi hj e =
    (byte-injective k l hk hl (cons-head e), le_bytes-injective 4 i j hi hj (cons-tail e))

-- Two key roles with the same discriminant are the same role, with the same hop number.
pub discriminant-injective :
    (r s : KeyRole) → IsKeyRole r → IsKeyRole s → discriminant r ≡ discriminant s → r ≡ s
discriminant-injective r s hr hs e =
    let (k, i) =
      role_bytes-injective (kind r) (hop r) (kind s) (hop s) (kind-lt r) (kind-lt s) (hop-lt r hr)
        (hop-lt s hs) (sym (bytes-discriminant r) ∙ ap (λ d. d.bytes) e ∙ bytes-discriminant s) in
    sym (role_of-kind-hop r) ∙ ap₂ role_of k i ∙ role_of-kind-hop s
