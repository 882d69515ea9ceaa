-- ===== src/Process/Agreement.antt =====
-- `proc_onion` and `reply_onion` agree on who is the receiver of an onion.
use eror.Prelude.{◌≡◌, ◌↔◌, refl, ap, ◌∙◌, false, List, Option, length}
use eror.Prelude.Outcome.{ok, err, not_the_receiver}
use eror.Bytes.{Byte}
use eror.Serde.{Bincode}
use eror.Primitives.{Primitives, IsPrimitives, KeyRole, sym_enc}
use eror.Pki.{Address}
use eror.Onion.{Role, Meta, Onion}
use eror.Format.{OnionFormat, nonce_ae, ae_enc}
use eror.Layer.{unwrap}
use eror.Process.{
  hop, receiver, sender, is_receiver, proc_onion, reply_onion, dispatch, split_reply_header,
}
use eror.Process.Branches.{
  IsProcessed, proc_onion-IsProcessed, proc_onion-dispatch, reply_onion-ok, reply_onion_lem, answer,
}

module _ (b : Bincode) (p : Primitives) where
  -- Another role gets no reply.
  refused :
      (f : OnionFormat p) (sk : p.PrivateKey) (onion inside : Onion p) (payload : List Byte)
      (key : p.SymmetricKey) (meta : Meta)
      → unwrap b p f sk onion ≡ ok (key, meta, inside)
      → is_receiver meta.role ≡ false
      → reply_onion b p f sk onion payload ≡ err not_the_receiver
  unfolding reply_onion
  refused f sk onion inside payload key meta e r = rw (e, r) refl

  module _ (hp : IsPrimitives p) (f : OnionFormat p) (sk : p.PrivateKey)
      (expected_tag : List Byte → Option p.Tag) (onion : Onion p) (payload : List Byte) where
    -- A reply, whose payloads have the lengths of those that came in and of the answer.
    abbrev pub Replies : Type 0
    Replies =
        (reply : Onion p) × (next : Address) × (reply_onion b p f sk onion payload
          ≡ ok (reply, next))
        × (length reply.forward ≡ length onion.forward)
        × (length reply.backward.0 ≡ length payload)

    replies :
        (message : List Byte)
        → proc_onion b p f sk expected_tag onion ≡ ok (receiver message)
        → Replies
    unfolding IsProcessed ae_enc
    replies message e =
        let (key, meta, inside, hs, opened, role, reads) =
          proc_onion-IsProcessed b p f sk expected_tag onion e in
        let made = answer b p key meta inside hs onion payload in
        (
          made.0,
          made.1,
          reply_onion-ok b p f sk onion inside payload message key meta hs opened role reads,
          hp.length-prng (p.derive_key KeyRole.prng key) (length onion.forward),
          hp.length-encrypt (p.derive_key sym_enc key) nonce_ae payload,
        )

    receives :
        (reply : Onion p) (next : Address)
        → reply_onion b p f sk onion payload ≡ ok (reply, next)
        → (message : List Byte) × (proc_onion b p f sk expected_tag onion ≡ ok (receiver message))
    unfolding dispatch split_reply_header
    receives reply next e =
        let (key, meta, inside, message, opened, role, _, reads, _, _) =
          reply_onion_lem b p f sk onion payload e in
        (
          message,
          proc_onion-dispatch b p f sk expected_tag onion inside key meta opened
              ∙ ap (λ (r : Role). dispatch b p expected_tag key meta r onion inside) role
              ∙ rw reads refl,
        )

    -- For every onion, private key, expected tags and answer: `reply_onion` makes a reply exactly if
    -- `proc_onion` returns a message for the receiver. Its forward payload is then as long as the one
    -- that came in, and its backward payload as long as the answer. If `proc_onion` passes the onion
    -- on as a hop, or returns a reply as the sender, `reply_onion` refuses with `NotTheReceiver`.
    pub reply_onion_agrees :
        (((message : List Byte) × (proc_onion b p f sk expected_tag onion ≡ ok (receiver message)))
          ↔ Replies)
        × ((next : Address) (onion' : Onion p)
            → proc_onion b p f sk expected_tag onion ≡ ok (hop next onion')
            → reply_onion b p f sk onion payload ≡ err not_the_receiver)
        × ((reply : List Byte)
            → proc_onion b p f sk expected_tag onion ≡ ok (sender reply)
            → reply_onion b p f sk onion payload ≡ err not_the_receiver)
    unfolding IsProcessed is_receiver
    reply_onion_agrees = (
      (λ h. replies h.0 h.1, λ h. let (reply, next, e, _, _) = h in receives reply next e),
      λ next onion' e.
          let (key, meta, opened, role, _) = proc_onion-IsProcessed b p f sk expected_tag onion e in
          refused f sk onion onion' payload key meta opened (ap is_receiver role),
      λ reply e.
          let (key, meta, inside, opened, role, _) =
            proc_onion-IsProcessed b p f sk expected_tag onion e in
          refused f sk onion inside payload key meta opened (ap is_receiver role),
    )
