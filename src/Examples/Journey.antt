-- ===== src/Examples/Journey.antt =====
-- An onion for a path of two hops, from `onionize` to the last hop.
use eror.Prelude.{
  ℕ, zero, suc, ◌<◌, ◌≡◌, refl, some, List, [], ◌∷◌, length, arith, true, false, Bool, ap, ◌∙◌,
  if◌then◌else◌, ◌^◌,
}
use eror.Prelude.Outcome.{ok, index}
use eror.Bytes.{Byte, byte, array_eq}
use eror.Bytes.Laws.{array_eq_refl}
use eror.Pki.Laws.{get-insert}
use eror.Primitives.Ec.{ec_primitives}
use eror.Pki
use eror.Pki.{Address}
use eror.Onion.{Onion}
use eror.Onion.Serialize.{unparsed}
use eror.Layer.{unwrap}
use eror.Onionize.{Payload, onionize}
use eror.Onionize.Chain.{travel}
use eror.Onionize.Ciphers.{IsRoute}
use eror.Onionize.Fresh.{IsFresh}
use eror.Onionize.Journey.{onionize_forward, stops}
use eror.Examples.Data.{
  b, hb, p, hp, key, secret, public, start, here, there, receiver_meta, format, key_pair,
}

abbrev keys : List p.SymmetricKey
keys = key ∷ key ∷ []

abbrev pub hops : List Address
hops = here ∷ there ∷ []

abbrev pub address_of : ℕ → Address
address_of zero = here
address_of (suc i) = there

key_at : (i : ℕ) → i < 2 → index keys i ≡ ok key
key_at zero h = refl
key_at (suc zero) h = refl
key_at (suc (suc i)) h = absurd (omega arith)

pub addr_at : (i : ℕ) → i < 2 → index hops i ≡ ok (address_of i)
addr_at zero h = refl
addr_at (suc zero) h = refl
addr_at (suc (suc i)) h = absurd (omega arith)

same_branches : (t : Bool) {k : p.PublicKey} → (if t then some k else some k) ≡ some k
same_branches true = refl
same_branches false = refl

pub known : (i : ℕ) → i < 2 → Pki.get format.pki (address_of i) ≡ some public
known zero h =
    let first = (Pki.insert Pki.new here public).1 in
    let found : Pki.get first here ≡ some public =
      (get-insert Pki.new here public).1 here
      ∙ ap (λ t. if t then some public else Pki.get Pki.new here) (array_eq_refl here) in
    (get-insert first there public).1 here
    ∙ ap (λ o. if array_eq there here then some public else o) found
    ∙ same_branches (array_eq there here)
known (suc i) h =
    let first = (Pki.insert Pki.new here public).1 in
    (get-insert first there public).1 there
    ∙ ap (λ t. if t then some public else Pki.get first there) (array_eq_refl there)

route : IsRoute b p hb hp format keys hops (λ i. key) address_of (λ i. secret) (λ i. public)
route = record {
  same_length = refl;
  key_at = key_at;
  addr_at = addr_at;
  known = known;
  opens = λ i h. key_pair;
}

pub short_key : p.symmetric_key_length < 2 ^ 32
unfolding ec_primitives
short_key = omega arith

abbrev pub message : List Byte
message = byte 1 ∷ byte 2 ∷ []

onionize_forward_example :
    (first last inside : Onion p) × (expected : p.Tag) × (r' : p.Rng) × (onionize b p format keys
        hops receiver_meta
        (Payload.forward message)
        3
        start
      ≡ ok ((first, last, expected), r'))
    × (travel b p format (λ i. secret) 1 (unparsed b p hb hp first)
        ≡ ok (
          stops b p hb hp format (λ i. key) address_of (λ i. secret) (λ i. public) 1 receiver_meta,
          unparsed b p hb hp last,
        ))
    × (unwrap b p format secret (unparsed b p hb hp last) ≡ ok (key, receiver_meta, inside))
    × (inside.forward ≡ message)
    × (inside.backward.1 ≡ expected)
    × (length first.backward.0 ≡ 3)
    × IsFresh b p hb hp format first.header
    × (length first.forward ≡ length message)
onionize_forward_example =
    onionize_forward b p hb hp format (λ i. key) address_of (λ i. secret) (λ i. public) keys hops
      receiver_meta 1 message 3 start short_key route refl (omega arith)
