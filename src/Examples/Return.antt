-- ===== src/Examples/Return.antt =====
-- A reply over a path of two hops back to its sender.
use eror.Prelude.{ℕ, zero, suc, ◌<◌, ◌≡◌, refl, List, [], ◌∷◌, arith}
use eror.Prelude.Outcome.{ok, index}
use eror.Bytes.{Byte, byte}
use eror.Primitives.{KeyRole}
use eror.Onion.{Onion, packed_header}
use eror.Onion.Serialize.{unparsed}
use eror.Format.{ae_enc}
use eror.Layer.{unwrap}
use eror.Onionize.{Payload, onionize}
use eror.Onionize.Chain.{travel, unwrap_upto}
use eror.Onionize.Ciphers.{IsRoute}
use eror.Onionize.Fresh.{IsFresh}
use eror.Onionize.Journey.{stops}
use eror.Onionize.Backward.{onionize_backward, answered}
use eror.Process.{proc_onion, sender}
use eror.Process.Reply.{receiver_key}
use eror.Process.Return.{reply_comes_back, expects}
use eror.Examples.Data.{b, hb, p, hp, key, tag, secret, public, start, format, key_pair}
use eror.Examples.Journey.{hops, address_of, addr_at, known, short_key, message}
use eror.Examples.Replies.{sender_meta, stored}

-- The key of the hop, and the master key.
abbrev key_of : ℕ → p.SymmetricKey
key_of zero = p.derive_key (KeyRole.backward 0) key
key_of (suc i) = key

abbrev keys : List p.SymmetricKey
keys = p.derive_key (KeyRole.backward 0) key ∷ key ∷ []

key_at : (i : ℕ) → i < 2 → index keys i ≡ ok (key_of i)
key_at zero h = refl
key_at (suc zero) h = refl
key_at (suc (suc i)) h = absurd (omega arith)

way_back : IsRoute b p hb hp format keys hops key_of address_of (λ i. secret) (λ i. public)
way_back = record {
  same_length = refl;
  key_at = key_at;
  addr_at = addr_at;
  known = known;
  opens = λ i h. key_pair;
}

derived : (i : ℕ) → i < 1 → key_of i ≡ p.derive_key (KeyRole.backward i) key
derived zero h = refl
derived (suc i) h = absurd (omega arith)

abbrev sealed : List Byte × p.Tag
sealed = ae_enc p (receiver_key b p hb hp key 1) tag (byte 2 ∷ [])

onionize_backward_example :
    (first last inside : Onion p) × (back : List Byte × p.Tag) × (r' : p.Rng) × (onionize b p format
        keys hops sender_meta
        (Payload.backward message)
        0
        start
      ≡ ok ((first, last, p.default_tag), r'))
    × (first.forward ≡ message)
    × (unwrap_upto b p key_of 1 sealed ≡ ok back)
    × (travel b p format (λ i. secret) 1 (unparsed b p hb hp (answered b p hb hp first sealed))
        ≡ ok (
          stops b p hb hp format key_of address_of (λ i. secret) (λ i. public) 1 sender_meta,
          unparsed b p hb hp (answered b p hb hp last back),
        ))
    × (unwrap b p format secret (unparsed b p hb hp (answered b p hb hp last back))
        ≡ ok (key, sender_meta, inside))
    × IsFresh b p hb hp format first.header
onionize_backward_example =
    onionize_backward b p hb hp format key_of address_of (λ i. secret) (λ i. public) keys hops
      sender_meta 1 message 0 start sealed short_key way_back refl (omega arith)

reply_comes_back_example :
    (first last arrived : Onion p) × (r' : p.Rng) × (onionize b p format keys hops sender_meta
        (Payload.backward message)
        0
        start
      ≡ ok ((first, last, p.default_tag), r'))
    × (first.forward ≡ message)
    × (travel b p format (λ i. secret) 1 (unparsed b p hb hp (answered b p hb hp first sealed))
        ≡ ok (
          stops b p hb hp format key_of address_of (λ i. secret) (λ i. public) 1 sender_meta,
          arrived,
        ))
    × (packed_header b p arrived.header ≡ packed_header b p last.header)
    × (proc_onion b p format secret (expects (packed_header b p last.header) tag) arrived
        ≡ ok (sender (byte 2 ∷ [])))
    × IsFresh b p hb hp format first.header
reply_comes_back_example =
    reply_comes_back b p hb hp format key_of address_of (λ i. secret) (λ i. public) keys hops
      sender_meta 1 1 message 0 start key tag (byte 2 ∷ []) short_key way_back refl (omega arith)
      derived refl refl stored (omega arith) (omega arith)
