-- ===== src/Process/Reply.antt =====
-- The reply of a receiver: how `reply_onion` seals it, and how the branch of `proc_onion` for the
-- original sender opens it when the hops of the backward path are done.
use eror.Prelude.{
  ℕ, zero, suc, ◌%◌, ◌^◌, ◌<◌, ◌≤◌, ◌≡◌, ◌≢◌, refl, ◌∙◌, List, some, Option, take, arith,
}
use eror.Prelude.Outcome.{ok, err, ae_error, or_err, ◌>>=◌}
use eror.Bytes.{Byte}
use eror.Serde.{Bincode, IsBincode, deserialize}
use eror.Serde.Laws.{deserialize-write_all}
use eror.Primitives.{Primitives, IsPrimitives, KeyRole}
use eror.Onion.{Meta, Header, Onion, packed_header}
use eror.Format.{ae_enc, ae_dec}
use eror.Format.Ae.{ae_wrap-ae_unwrap, ae_dec-ae_enc, ae_dec-ae_enc_iff}
use eror.Onionize.Chain.{unwrap_upto}
use eror.Process.{wrap_backward, lengths_codec, open_reply, sender}

module _ (b : Bincode) (p : Primitives) (hb : IsBincode b) (hp : IsPrimitives p) where
  -- The keys of the hops on the backward path.
  abbrev pub backward_key : p.SymmetricKey → ℕ → p.SymmetricKey
  backward_key master i = p.derive_key (KeyRole.backward i) master

  -- The first `i` hops of the backward path always can take off their layers, and the sender puts
  -- exactly these layers on again, in the opposite order, which gives the backward part as it was
  -- before the first hop. There are at most 2^32 hops.
  pub wrap_backward-unwrap_upto :
      (master : p.SymmetricKey) (i : ℕ) (bwd : List Byte × p.Tag)
      → i ≤ 2 ^ 32
      → (back : List Byte × p.Tag) × (unwrap_upto b p (backward_key master) i bwd ≡ ok back)
        × (wrap_backward b p i master back ≡ ok bwd)
  unfolding unwrap_upto wrap_backward
  wrap_backward-unwrap_upto master zero bwd h = (bwd, refl, refl)
  wrap_backward-unwrap_upto master (suc i) bwd h =
      let (mid, e, again) = wrap_backward-unwrap_upto master i bwd (omega arith) in
      let (back, e', wrapped, _) = ae_wrap-ae_unwrap p hp (backward_key master i) mid in
      let same : i % 2 ^ 32 ≡ i = omega arith in
      (back, rw (e, unwrap_upto) e', rw (same, wrapped) again)

  read-lengths :
      (n m : ℕ)
      → n < 2 ^ 64
      → m < 2 ^ 64
      → deserialize (lengths_codec b p) ((lengths_codec b p).write (n, m)) ≡ ok (n, m)
  unfolding lengths_codec
  read-lengths n m hn hm =
      deserialize-write_all (b.pair b.u64 b.u64) _ (n, m)
        (hb.read-pair b.u64 b.u64 _ _ hb.read-u64 hb.read-u64) (hn, hm)

  -- The branch up to the decryption.
  pub open_reply_lem :
      (expected_tag : List Byte → Option p.Tag) (master : p.SymmetricKey) (meta : Meta)
      (onion : Onion p) (n_forward i : ℕ) (ad : p.Tag) (bwd : List Byte × p.Tag)
      → suc n_forward < 2 ^ 32
      → suc i < 2 ^ 64
      → take 16 meta.next.bytes ≡ (lengths_codec b p).write (suc n_forward, suc i)
      → wrap_backward b p i master onion.backward ≡ ok bwd
      → expected_tag (packed_header b p onion.header) ≡ some ad
      → open_reply b p expected_tag master meta onion ≡ (
          or_err (ae_dec p (p.derive_key (KeyRole.forward n_forward) master) ad bwd) ae_error
          >>= λ payload. ok (sender payload))
  unfolding open_reply
  open_reply_lem expected_tag master meta onion n_forward i ad bwd hn hi e w x =
      let l : suc n_forward % 2 ^ 32 ≡ suc n_forward = omega arith in
      rw (e, read-lengths (suc n_forward) (suc i) (omega arith) hi) (rw (w, l) (rw x refl))

  -- The key with which the receiver at the end of a path of `suc n` hops seals its reply.
  abbrev pub receiver_key : p.SymmetricKey → ℕ → p.SymmetricKey
  receiver_key master n = p.derive_key (KeyRole.forward n) master

  -- The onion that comes back to the sender.
  abbrev pub returned : List (Header p) → List Byte → List Byte × p.Tag → Onion p
  returned hs fwd back = record { header = hs; forward = fwd; backward = back }

  -- A reply that the receiver at the end of a forward path of `suc n` hops seals, and from which the
  -- first `i` hops of the backward path take off their layers, is opened by the sender, whose meta
  -- data hold the two path lengths and who expects, for the headers of the onion that comes back,
  -- the tag for which the receiver sealed it: it gets the payload.
  pub open_reply-ae_enc :
      (expected_tag : List Byte → Option p.Tag) (master : p.SymmetricKey) (meta : Meta)
      (hs : List (Header p)) (fwd : List Byte) (n i : ℕ) (ad : p.Tag) (payload : List Byte)
      → suc n < 2 ^ 32
      → suc i < 2 ^ 32
      → take 16 meta.next.bytes ≡ (lengths_codec b p).write (suc n, suc i)
      → expected_tag (packed_header b p hs) ≡ some ad
      → (back : List Byte × p.Tag) × (unwrap_upto b p
            (backward_key master)
            i
            (ae_enc p (receiver_key master n) ad payload)
          ≡ ok back)
        × (open_reply b p expected_tag master meta (returned hs fwd back) ≡ ok (sender payload))
  open_reply-ae_enc expected_tag master meta hs fwd n i ad payload hn hi e x =
      let sealed = ae_enc p (receiver_key master n) ad payload in
      let (back, arrives, undone) = wrap_backward-unwrap_upto master i sealed (omega arith) in
      (
        back,
        arrives,
        open_reply_lem expected_tag master meta (returned hs fwd back) n i ad sealed hn
              (omega arith) e undone x
            ∙ rw (ae_dec-ae_enc p hp (receiver_key master n) ad payload) refl,
      )

  -- Under the conditions of `open_reply-ae_enc`, but for a sender who expects another tag than the one
  -- for which the receiver sealed the reply: it refuses the reply with `AeError`.
  pub open_reply-wrong_tag :
      (expected_tag : List Byte → Option p.Tag) (master : p.SymmetricKey) (meta : Meta)
      (hs : List (Header p)) (fwd : List Byte) (n i : ℕ) (ad ad' : p.Tag) (payload : List Byte)
      → suc n < 2 ^ 32
      → suc i < 2 ^ 32
      → take 16 meta.next.bytes ≡ (lengths_codec b p).write (suc n, suc i)
      → expected_tag (packed_header b p hs) ≡ some ad'
      → ad' ≢ ad
      → (back : List Byte × p.Tag) × (unwrap_upto b p
            (backward_key master)
            i
            (ae_enc p (receiver_key master n) ad payload)
          ≡ ok back)
        × (open_reply b p expected_tag master meta (returned hs fwd back) ≡ err ae_error)
  open_reply-wrong_tag expected_tag master meta hs fwd n i ad ad' payload hn hi e x differs =
      let sealed = ae_enc p (receiver_key master n) ad payload in
      let (back, arrives, undone) = wrap_backward-unwrap_upto master i sealed (omega arith) in
      (
        back,
        arrives,
        open_reply_lem expected_tag master meta (returned hs fwd back) n i ad' sealed hn
              (omega arith) e undone x
            ∙ rw ((ae_dec-ae_enc_iff p hp (receiver_key master n) ad ad' payload).1 differs) refl,
      )
