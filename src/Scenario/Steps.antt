-- ===== src/Scenario/Steps.antt =====
-- The steps of which the tests of src/lib.rs are made: a node processes an onion with its private key,
-- and what it finds has to be of the expected kind.
use eror.Prelude.{ℕ, ◌≡◌, refl, List, none, some, length}
use eror.Prelude.Outcome.{Outcome, ok, err, panic, index, mac_mismatch, ae_error, ◌>>=◌}
use eror.Bytes.{Byte}
use eror.Serde.{Bincode, deserialize}
use eror.Primitives.{Primitives}
use eror.Pki.{Address}
use eror.Onion.{Onion, onion_codec}
use eror.Format.{OnionFormat}
use eror.Process.{hop, receiver, sender, proc_onion, proc_onion_without_reply, reply_onion}
use eror.Scenario.{
  key_at, key_of, HasKey, as_hop, as_receiver, as_sender, unwrap_result, reply_payload,
}

-- `assert_matches!(result, Err(Error::MacMismatch))` and `assert_matches!(result, Err(Error::AeError))`
unfoldable pub assert_mac_mismatch : {A : Type 0} → Outcome A → Outcome (Unit {0})
assert_mac_mismatch (err mac_mismatch) = ok tt
assert_mac_mismatch _ = panic

unfoldable pub assert_ae_error : {A : Type 0} → Outcome A → Outcome (Unit {0})
assert_ae_error (err ae_error) = ok tt
assert_ae_error _ = panic

module _ (b : Bincode) (p : Primitives) where
  -- `bincode::deserialize(&bincode::serialize(&onion).unwrap()).unwrap()`
  unfoldable pub over_wire : Onion p → Outcome (Onion p)
  unfolding onion_codec deserialize
  over_wire onion = unwrap_result (deserialize (onion_codec b p) ((onion_codec b p).write onion))

  -- `bincode::serialize(onion).unwrap().len()`
  unfoldable pub onion_size : Onion p → ℕ
  unfolding onion_codec
  onion_size onion = length ((onion_codec b p).write onion)

  module _ (f : OnionFormat p) (private_keys : List (Address × p.PrivateKey))
      (addresses : List Address) where
    -- The node with address `addresses[i]`, as a hop.
    unfoldable pub through_hop : ℕ → Onion p → Outcome (Address × Onion p)
    unfolding key_at proc_onion_without_reply as_hop
    through_hop i onion = do
      private_key ← key_at private_keys addresses i
      proc ← unwrap_result (proc_onion_without_reply b p f private_key onion)
      as_hop proc

    -- As the receiver of a message.
    unfoldable pub at_receiver : ℕ → Onion p → Outcome (List Byte)
    unfolding key_at proc_onion_without_reply as_receiver
    at_receiver i onion = do
      private_key ← key_at private_keys addresses i
      proc ← unwrap_result (proc_onion_without_reply b p f private_key onion)
      as_receiver proc

    unfoldable pub reply_from : ℕ → Onion p → Outcome (Onion p × Address)
    unfolding key_at reply_onion
    reply_from i onion = do
      private_key ← key_at private_keys addresses i
      unwrap_result (reply_onion b p f private_key onion reply_payload)

    -- As the sender who waits for a reply with this tag.
    unfoldable pub at_sender : ℕ → p.Tag → Onion p → Outcome (List Byte)
    unfolding key_at proc_onion as_sender
    at_sender i tag onion = do
      private_key ← key_at private_keys addresses i
      proc ← unwrap_result (proc_onion b p f private_key (λ _. some tag) onion)
      as_sender proc

    module _ (i : ℕ) (sk : p.PrivateKey) (has_key : key_at private_keys addresses i ≡ ok sk)
        (onion : Onion p) where
      pub through_hop-ok :
          (next : Address) (onion' : Onion p)
          → proc_onion b p f sk (λ _. none) onion ≡ ok (hop next onion')
          → through_hop i onion ≡ ok (next, onion')
      unfolding through_hop proc_onion_without_reply
      through_hop-ok next onion' e = rw (has_key, e) refl

      pub at_receiver-ok :
          (message : List Byte)
          → proc_onion b p f sk (λ _. none) onion ≡ ok (receiver message)
          → at_receiver i onion ≡ ok message
      unfolding at_receiver proc_onion_without_reply
      at_receiver-ok message e = rw (has_key, e) refl

      pub reply_from-ok :
          (onion' : Onion p) (next : Address)
          → reply_onion b p f sk onion reply_payload ≡ ok (onion', next)
          → reply_from i onion ≡ ok (onion', next)
      unfolding reply_from
      reply_from-ok onion' next e = rw (has_key, e) refl

      pub at_sender-ok :
          (tag : p.Tag) (message : List Byte)
          → proc_onion b p f sk (λ _. some tag) onion ≡ ok (sender message)
          → at_sender i tag onion ≡ ok message
      unfolding at_sender
      at_sender-ok tag message e = rw (has_key, e) refl

pub key_at-HasKey :
    {K : Type 0} (private_keys : List (Address × K)) (sk : Address → K) (addresses : List Address)
    (i : ℕ) (a : Address)
    → index addresses i ≡ ok a
    → HasKey private_keys sk a
    → key_at private_keys addresses i ≡ ok (sk a)
unfolding key_at key_of
key_at-HasKey private_keys sk addresses i a e e' = rw (e, e') refl
