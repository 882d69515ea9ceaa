-- ===== src/Scenario/Members.antt =====
-- The nodes of a scenario: in the key store, with a private key at hand that fits.
use eror.Prelude.{
  ℕ, zero, suc, ◌-◌, ◌≤◌, ◌≡◌, refl, List, [], ◌∷◌, some, length, length-take, length-drop, take,
  drop, All, All-imp, true, leb, ◌&&◌, arith,
}
use eror.Prelude.Outcome.{ok}
use eror.Serde.{Bincode, IsBincode}
use eror.Primitives.{Primitives, IsPrimitives}
use eror.Pki
use eror.Pki.{Address, Pki, map_get}
use eror.Format
use eror.Format.{OnionFormat}
use eror.Onionize.Ciphers.{Opens}
use eror.Process.Route.{IsReachable, hop_at}
use eror.Scenario.{slice, HasKey}

module _ {A : Type 0} where
  pub All-take : (P : A → Type 0) (n : ℕ) (xs : List A) → All P xs → All P (take n xs)
  All-take P zero xs h = tt
  All-take P (suc n) [] h = tt
  All-take P (suc n) (x ∷ xs) h = (h.0, All-take P n xs h.1)

  pub All-drop : (P : A → Type 0) (n : ℕ) (xs : List A) → All P xs → All P (drop n xs)
  All-drop P zero xs h = h
  All-drop P (suc n) [] h = tt
  All-drop P (suc n) (x ∷ xs) h = All-drop P n xs h.1

  -- A slice in range.
  pub slice-ok :
      (xs : List A) (i j : ℕ) → i ≤ j → j ≤ length xs → slice xs i j ≡ ok (take (j - i) (drop i xs))
  unfolding slice
  slice-ok xs i j h h' = rw (in_range (length xs) h h') refl
    where
      in_range : (n : ℕ) → i ≤ j → j ≤ n → (leb i j && leb j n) ≡ true
      in_range n h h' = ground arith

  pub length-slice :
      (xs : List A) (i j : ℕ) → i ≤ j → j ≤ length xs → length (take (j - i) (drop i xs)) ≡ j - i
  length-slice xs i j h h' = omega (arith, length-take (j - i) (drop i xs), length-drop i xs)

-- The first address of the first path.
pub hop_at-take :
    (addresses : List Address) (n : ℕ) → hop_at addresses 0 ≡ hop_at (take (suc n) addresses) 0
hop_at-take [] n = refl
hop_at-take (a ∷ addresses) n = refl

module _ (b : Bincode) (p : Primitives) (hb : IsBincode b) (hp : IsPrimitives p) where
  module _ (pki : Pki p.PublicKey) (private_keys : List (Address × p.PrivateKey))
      (sk : Address → p.PrivateKey) (pk : Address → p.PublicKey) where
    abbrev pub IsMember : Address → Type 0
    IsMember a =
        (Pki.get pki a ≡ some (pk a)) × Opens b p hb hp (sk a) (pk a) × HasKey private_keys sk a

    pub members-IsReachable :
        (max : ℕ) (hops : List Address)
        → All IsMember hops
        → All (IsReachable b p hb hp (Format.new p pki max) sk pk) hops
    unfolding Format.new
    members-IsReachable max hops h = All-imp (λ a m. (m.0, m.1)) hops h

    pub members_have_keys :
        (hops : List Address) → All IsMember hops → All (HasKey private_keys sk) hops
    members_have_keys hops h = All-imp (λ a m. m.2) hops h

    pub members_slice :
        (addresses : List Address) (i count : ℕ)
        → All IsMember addresses
        → All IsMember (take count (drop i addresses))
    members_slice addresses i count h =
        All-take IsMember count (drop i addresses) (All-drop IsMember i addresses h)
