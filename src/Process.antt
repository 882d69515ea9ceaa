-- ===== src/Process.antt =====
-- src/lib.rs: the operations on whole onions: `form_onion`, `split_reply_header`, `reply_onion`,
-- `proc_onion` and `proc_onion_without_reply`.
pub mod Reply
pub mod Branches
pub mod Message
pub mod Way
pub mod Route
pub mod Forming
pub mod Handover
pub mod Delivery
pub mod Delivered
pub mod Agreement
pub mod Sent
pub mod Limits
pub mod Return
use eror.Prelude.{
  ℕ, zero, suc, ◌+◌, ◌-◌, ◌%◌, ◌^◌, ◌≡◌, ◌∙◌, ap, Bool, true, false, List, [], ◌∷◌, ◌++◌, Option,
  none, some, length, length-append, length-drop, take, drop, get_elem?, last?, leb, ◌&&◌, arith,
}
use eror.Prelude.Outcome
use eror.Prelude.Outcome.{
  Outcome, ok, err, panic, or_panic, or_err, require, minus_one, path_too_long, not_the_receiver,
  unexpected_reply, ae_error,
}
use eror.Prelude.Rand.{Rand, pure, lift, draw, ◌>>=◌, ◌>>◌}
use eror.Bytes.{Byte, array_of, zero_array}
use eror.Serde.{Codec, Bincode, deserialize}
use eror.Primitives.{Primitives, KeyRole}
use eror.Pki.{Address}
use eror.Onion.{Role, Meta, Header, Onion, header_codec, packed_header}
use eror.Format.{OnionFormat, total_header_length, ae_enc, ae_dec, ae_wrap}
use eror.Layer.{unwrap}
use eror.Onionize.{Payload, onionize}
use mathlib.Core.Logic.{dite}
use native.Mathlib.Decide.{ℕ_discrete}

-- `struct ExpectedResponse`
pub record ExpectedResponse (p : Primitives) : Type 0 where
  pub identifier : List Byte
  pub onion : Onion p
  pub tag : p.Tag

-- `enum ProcessedOnion`
pub data ProcessedOnion (p : Primitives) : Type 0 where
  hop : Address → Onion p → ProcessedOnion p
  receiver : List Byte → ProcessedOnion p
  sender : List Byte → ProcessedOnion p

pub length-overwrite :
    (bs : List Byte) (a : Address) → length bs ≡ 16 → length (bs ++ drop 16 a.bytes) ≡ 32
length-overwrite bs a e =
    omega (arith, length-append bs (drop 16 a.bytes), length-drop 16 a.bytes, a.sized)

-- `next[0..16].copy_from_slice(bs)` panics on another length.
unfoldable pub overwrite_16 : Address → List Byte → Outcome Address
unfolding array_of ℕ_discrete
overwrite_16 a bs =
    dite (ℕ_discrete (length bs) 16)
      (λ e. ok (array_of (bs ++ drop 16 a.bytes) (length-overwrite bs a e))) (λ _. panic)

unfoldable pub is_receiver : Role → Bool
is_receiver Role.receiver = true
is_receiver _ = false

module _ (b : Bincode) (p : Primitives) where
  -- `(Vec<Header>, &[u8])`, what a receiver finds in the forward payload.
  unfoldable pub message_codec : Codec (List (Header p) × List Byte)
  unfolding header_codec
  message_codec = b.pair (b.vec (header_codec b p)) b.byte_vec

  -- `(u64, u64)`, the path lengths in the address field of the sender's meta data.
  unfoldable pub lengths_codec : Codec (ℕ × ℕ)
  lengths_codec = b.pair b.u64 b.u64

  unfoldable pub split_reply_header : List Byte → Outcome (List (Header p) × List Byte)
  unfolding message_codec deserialize
  split_reply_header bs = deserialize message_codec bs

  unfoldable pub reply_onion :
      OnionFormat p → p.PrivateKey → Onion p → List Byte → Outcome (Onion p × Address)
  unfolding unwrap is_receiver split_reply_header ae_enc
  reply_onion f private_key onion payload =
      let payload_length = length onion.forward in
      Outcome.◌>>=◌ (unwrap b p f private_key onion) λ (key, meta, next_onion).
        Outcome.◌>>◌ (require (is_receiver meta.role) not_the_receiver) (
          Outcome.◌>>=◌ (split_reply_header next_onion.forward) λ (header, _).
            let new_message = p.prng_fill (p.derive_key KeyRole.prng key) payload_length in
            let mu = next_onion.backward.1 in
            ok (
              record { header = header; forward = new_message; backward = ae_enc p key mu payload },
              meta.next,
            ))

  -- `(i..i + count).map(|i| self.primitives.derive_key(role(i), master))`
  unfoldable pub derive_keys : (ℕ → KeyRole) → p.SymmetricKey → ℕ → ℕ → List p.SymmetricKey
  derive_keys role master i zero = []
  derive_keys role master i (suc count) =
      p.derive_key (role i) master ∷ derive_keys role master (i + 1) count

  unfoldable pub form_onion :
      OnionFormat p
      → List Address
      → List Address
      → List Byte
      → Rand p.Rng (Onion p × ExpectedResponse p)
  unfolding derive_keys total_header_length lengths_codec message_codec overwrite_16 onionize
      packed_header
  form_onion f hops_forward hops_backward payload = do
    lift (
        require
          (leb (length hops_forward) f.max_path_length
            && leb (length hops_backward) f.max_path_length)
          path_too_long)
    master_key ← draw p.random_key
    let keys_forward = derive_keys KeyRole.forward master_key 0 (length hops_forward)
    backward_count ← lift (minus_one (length hops_backward))
    let keys_backward =
        derive_keys KeyRole.backward master_key 0 backward_count ++ (master_key ∷ [])
    last_forward ← lift (or_panic (last? keys_forward))
    let key_prng = p.derive_key KeyRole.prng last_forward
    let random_payload = p.prng_fill key_prng (total_header_length p f + 8 + length payload)
    next ← lift (
        overwrite_16 (zero_array 32)
          (lengths_codec.write (length hops_forward, length hops_backward)))
    (onion_backward_1, onion_backward_n, _) ←
        onionize b p f keys_backward hops_backward (record { role = Role.sender; next = next })
          (Payload.backward random_payload) 0
    first_backward ← lift (or_panic (get_elem? hops_backward 0))
    (onion_forward_1, onion_forward_n, expected_tag) ←
        onionize b p f keys_forward hops_forward
          (record { role = Role.receiver; next = first_backward })
          (Payload.forward (message_codec.write (onion_backward_1.header, payload)))
          (length payload)
    pure (
      onion_forward_1,
      record {
        identifier = packed_header b p onion_backward_n.header;
        onion = onion_forward_n;
        tag = expected_tag;
      },
    )

  -- `for i in (0..count).rev()`: the layers that the hops have taken off go on again.
  unfoldable pub wrap_backward :
      ℕ → p.SymmetricKey → List Byte × p.Tag → Outcome (List Byte × p.Tag)
  unfolding ae_wrap
  wrap_backward zero master_key bwd = ok bwd
  wrap_backward (suc i) master_key bwd =
      Outcome.◌>>=◌ (ae_wrap p (p.derive_key (KeyRole.backward (i % 2 ^ 32)) master_key) bwd)
        (wrap_backward i master_key)

  -- The branch of `proc_onion` for the original sender.
  unfoldable pub open_reply :
      (List Byte → Option p.Tag) → p.SymmetricKey → Meta → Onion p → Outcome (ProcessedOnion p)
  unfolding lengths_codec deserialize packed_header wrap_backward ae_dec
  open_reply expected_tag master_key meta onion =
      Outcome.◌>>=◌ (deserialize lengths_codec (take 16 meta.next.bytes)) λ (n_forward, n_backward).
        Outcome.◌>>=◌ (minus_one n_backward) λ count.
          Outcome.◌>>=◌ (wrap_backward count master_key onion.backward) λ bwd.
            Outcome.◌>>=◌ (minus_one (n_forward % 2 ^ 32)) λ last.
              let key_forward = p.derive_key (KeyRole.forward last) master_key in
              Outcome.◌>>=◌
                (or_err (expected_tag (packed_header b p onion.header)) unexpected_reply)
                λ ex_tag.
                  Outcome.◌>>=◌ (or_err (ae_dec p key_forward ex_tag bwd) ae_error)
                    λ payload. ok (sender payload)

  unfoldable pub dispatch :
      (List Byte → Option p.Tag)
      → p.SymmetricKey
      → Meta
      → Role
      → Onion p
      → Onion p
      → Outcome (ProcessedOnion p)
  unfolding split_reply_header open_reply
  dispatch expected_tag master_key meta Role.hop onion next_onion = ok (hop meta.next next_onion)
  dispatch expected_tag master_key meta Role.receiver onion next_onion =
      Outcome.◌>>=◌ (split_reply_header next_onion.forward) λ (_, message). ok (receiver message)
  dispatch expected_tag master_key meta Role.sender onion next_onion =
      open_reply expected_tag master_key meta onion

  unfoldable pub proc_onion :
      OnionFormat p
      → p.PrivateKey
      → (List Byte → Option p.Tag)
      → Onion p
      → Outcome (ProcessedOnion p)
  unfolding unwrap dispatch
  proc_onion f private_key expected_tag onion =
      Outcome.◌>>=◌ (unwrap b p f private_key onion) λ (master_key, meta, next_onion).
        dispatch expected_tag master_key meta meta.role onion next_onion

  unfoldable pub proc_onion_without_reply :
      OnionFormat p → p.PrivateKey → Onion p → Outcome (ProcessedOnion p)
  unfolding proc_onion
  proc_onion_without_reply f private_key onion = proc_onion f private_key (λ _. none) onion
