-- ===== src/Process/Delivered.antt =====
-- What the receiver and the sender of a delivered onion get from `proc_onion` and `reply_onion`.
use eror.Prelude.{
  ℕ, Bool, if◌then◌else◌, ◌≡◌, refl, sym, ap, ◌∙◌, fun_ext, List, [], map, Option, none, some,
}
use eror.Prelude.Outcome.{ok, ◌>>=◌}
use eror.Bytes.{Byte}
use eror.Bytes.Laws.{bytes_eq_refl}
use eror.Serde.{Bincode, IsBincode}
use eror.Primitives.{Primitives, IsPrimitives}
use eror.Pki.{Address}
use eror.Onion.{Role, Meta, raw, Onion, packed_header}
use eror.Format.{OnionFormat, ae_enc}
use eror.Format.Ae.{ae_dec-ae_enc}
use eror.Layer.{unwrap}
use eror.Process.{
  proc_onion, reply_onion, dispatch, open_reply, split_reply_header, ExpectedResponse, receiver,
  sender,
}
use eror.Process.Branches.{answer, reply_onion-ok, proc_onion-dispatch}
use eror.Process.Forming.{receiver_meta}
use eror.Process.Return.{expects, judge}
use eror.Process.Route.{hop_at, owner}
use eror.Process.Way.{Way}
use eror.Process.Delivery.{IsDelivered}

pub expects_found :
    {T : Type 0} (identifier : List Byte) (tag : T) → expects identifier tag identifier ≡ some tag
expects_found identifier tag =
    ap (λ (t : Bool). if t then some tag else none) (bytes_eq_refl identifier)

module _ (b : Bincode) (p : Primitives) where
  -- `proc_onion` asks for one tag only.
  open_reply-same :
      (ex ex' : List Byte → Option p.Tag) (master : p.SymmetricKey) (meta : Meta) (onion : Onion p)
      → ex (packed_header b p onion.header) ≡ ex' (packed_header b p onion.header)
      → open_reply b p ex master meta onion ≡ open_reply b p ex' master meta onion
  unfolding open_reply
  open_reply-same ex ex' master meta onion e = rw e refl

  dispatch-same :
      (ex ex' : List Byte → Option p.Tag) (master : p.SymmetricKey) (meta : Meta) (role : Role)
      (onion inside : Onion p)
      → ex (packed_header b p onion.header) ≡ ex' (packed_header b p onion.header)
      → dispatch b p ex master meta role onion inside
        ≡ dispatch b p ex' master meta role onion inside
  unfolding dispatch
  dispatch-same ex ex' master meta Role.sender onion inside e =
      open_reply-same ex ex' master meta onion e
  dispatch-same ex ex' master meta Role.receiver onion inside e = refl
  dispatch-same ex ex' master meta Role.hop onion inside e = refl

  -- What `proc_onion` returns depends on the expected tags only through the tag for the headers of
  -- the onion.
  pub proc_onion-same :
      (f : OnionFormat p) (sk : p.PrivateKey) (ex ex' : List Byte → Option p.Tag) (onion : Onion p)
      → ex (packed_header b p onion.header) ≡ ex' (packed_header b p onion.header)
      → proc_onion b p f sk ex onion ≡ proc_onion b p f sk ex' onion
  unfolding proc_onion
  proc_onion-same f sk ex ex' onion e =
      ap (λ next. unwrap b p f sk onion >>= next)
        (fun_ext (λ x. dispatch-same ex ex' x.0 x.1 x.1.role onion x.2 e))

module _ (b : Bincode) (p : Primitives) (hb : IsBincode b) (hp : IsPrimitives p) where
  module _ (f : OnionFormat p) (sk : Address → p.PrivateKey)
      (hops_forward hops_backward : List Address) (n m : ℕ) (payload : List Byte) {onion : Onion p}
      {response : ExpectedResponse p}
      (d : IsDelivered b p hb hp f sk hops_forward hops_backward n m payload onion response) where
    -- The receiver's result, whatever tags it expects.
    pub receives :
        (expected_tag : List Byte → Option p.Tag)
        → proc_onion b p f (owner sk hops_forward n) expected_tag d.arrived ≡ ok (receiver payload)
    unfolding dispatch split_reply_header
    receives expected_tag =
        proc_onion-dispatch b p f _ expected_tag d.arrived d.inside d.key
          (receiver_meta b p hops_backward) d.opened
        ∙ rw d.message refl

    -- The onion that carries a reply.
    abbrev pub replied : List Byte → Onion p
    replied reply =
        (answer b p d.key (receiver_meta b p hops_backward) d.inside (map raw d.reply_headers)
          d.arrived reply).0

    pub replies :
        (reply : List Byte)
        → reply_onion b p f (owner sk hops_forward n) d.arrived reply
          ≡ ok (replied reply, hop_at hops_backward 0)
    replies reply =
        reply_onion-ok b p f _ d.arrived d.inside reply payload d.key
          (receiver_meta b p hops_backward) (map raw d.reply_headers) d.opened refl d.message

    -- That onion with any backward part reaches the sender, who judges it by the tag that it expects.
    pub sends_back_any :
        (bwd : List Byte × p.Tag) (expected_tag : List Byte → Option p.Tag)
        → expected_tag response.identifier ≡ some response.tag
        → (returned : Onion p) × Way b p f
            (owner sk hops_backward)
            (hop_at hops_backward)
            m
            (record (replied []) { backward = bwd })
            returned
          × (proc_onion b p f (owner sk hops_backward m) expected_tag returned
              ≡ judge b p hb hp d.key response.tag bwd)
    sends_back_any bwd expected_tag e =
        let (returned, way, found, judged) = d.back bwd in
        (
          returned,
          way,
          proc_onion-same b p f (owner sk hops_backward m) expected_tag
                (expects response.identifier response.tag) returned
                (ap expected_tag found
                  ∙ e
                  ∙ sym (expects_found response.identifier response.tag)
                  ∙ ap (expects response.identifier response.tag) (sym found))
              ∙ judged,
        )

    -- A reply is accepted.
    pub sends_back :
        (reply : List Byte) (expected_tag : List Byte → Option p.Tag)
        → expected_tag response.identifier ≡ some response.tag
        → (returned : Onion p) × Way b p f
            (owner sk hops_backward)
            (hop_at hops_backward)
            m
            (replied reply)
            returned
          × (proc_onion b p f (owner sk hops_backward m) expected_tag returned ≡ ok (sender reply))
    sends_back reply expected_tag e =
        let (returned, way, judged) =
          sends_back_any (ae_enc p d.key d.inside.backward.1 reply) expected_tag e in
        (
          returned,
          way,
          judged
              ∙ ap (λ (t : p.Tag). judge b p hb hp d.key response.tag (ae_enc p d.key t reply))
                  d.sealed_for
              ∙ rw (ae_dec-ae_enc p hp d.key response.tag reply) refl,
        )
