-- ===== src/Process/Sent.antt =====
-- An onion of `form_onion` before and after it has been sent over the wire.
use eror.Prelude.{
  ℕ, suc, ◌+◌, ◌<◌, ◌^◌, ◌≡◌, refl, sym, ap, ◌∙◌, fun_ext, true, List, Option, length, All, All-imp,
  arith,
}
use eror.Prelude.Outcome.{ok, ◌>>=◌}
use eror.Bytes.{Byte}
use eror.Serde.{Bincode, IsBincode, deserialize}
use eror.Primitives.{Primitives, IsPrimitives}
use eror.Pki.{Address}
use eror.Onion.{Role, Meta, Onion, onion_codec, onion_eq}
use eror.Onion.Serialize.{unparsed, IsOnion, onion_over_wire}
use eror.Format.{OnionFormat, total_header_length, single_header_length}
use eror.Layer.{unwrap}
use eror.Layer.Headers.{header_bytes}
use eror.Onionize.Fresh.{IsFresh, header_bytes-IsFresh, unwrap_fresh}
use eror.Process.{form_onion, ExpectedResponse, proc_onion, reply_onion, dispatch, open_reply}
use eror.Process.Return.{packed_header_raw}
use eror.Process.Route.{IsReachable}
use eror.Process.Delivery.{form_onion_delivers}

module _ (b : Bincode) (p : Primitives) (hb : IsBincode b) (hp : IsPrimitives p) where
  -- What the roles do does not depend on the form of the headers.
  dispatch-unparsed :
      (expected_tag : List Byte → Option p.Tag) (master : p.SymmetricKey) (meta : Meta)
      (role : Role) (onion inside : Onion p)
      → dispatch b p expected_tag master meta role (unparsed b p hb hp onion) inside
        ≡ dispatch b p expected_tag master meta role onion inside
  unfolding dispatch open_reply
  dispatch-unparsed expected_tag master meta Role.hop onion inside = refl
  dispatch-unparsed expected_tag master meta Role.receiver onion inside = refl
  dispatch-unparsed expected_tag master meta Role.sender onion inside =
      rw (packed_header_raw b p onion.header) refl

  module _ (f : OnionFormat p) (sk : p.PrivateKey) (onion : Onion p)
      (short : p.symmetric_key_length < 2 ^ 32) (fresh : IsFresh b p hb hp f onion.header) where
    proc_onion-unparsed :
        (expected_tag : List Byte → Option p.Tag)
        → proc_onion b p f sk expected_tag (unparsed b p hb hp onion)
          ≡ proc_onion b p f sk expected_tag onion
    unfolding proc_onion
    proc_onion-unparsed expected_tag =
        ap
          (λ m. m >>= λ (x : p.SymmetricKey × Meta × Onion p).
            dispatch b p expected_tag x.0 x.1 x.1.role (unparsed b p hb hp onion) x.2)
          (sym (unwrap_fresh b p hb hp f sk onion short fresh))
        ∙ ap (λ next. unwrap b p f sk onion >>= next)
            (fun_ext (λ x. dispatch-unparsed expected_tag x.0 x.1 x.1.role onion x.2))

    reply_onion-unparsed :
        (payload : List Byte)
        → reply_onion b p f sk (unparsed b p hb hp onion) payload
          ≡ reply_onion b p f sk onion payload
    unfolding reply_onion
    reply_onion-unparsed payload = rw (sym (unwrap_fresh b p hb hp f sk onion short fresh)) refl

  -- Under the conditions of `form_onion_delivers`, and if the forward part has less than 2^64 bytes:
  -- `form_onion` succeeds, and the bytes of its onion read back as an onion that is equal to it (`==`)
  -- and that every node treats alike: with every private key, `proc_onion` returns the same for it as
  -- for the onion of `form_onion`, whatever tags are expected, and so does `reply_onion`, whatever is
  -- answered.
  pub form_onion_over_wire :
      (f : OnionFormat p) (sk : Address → p.PrivateKey) (pk : Address → p.PublicKey)
      (hops_forward hops_backward : List Address) (payload : List Byte) (n m : ℕ) (r : p.Rng)
      → p.symmetric_key_length < 2 ^ 32
      → f.max_path_length < 2 ^ 32
      → total_header_length p f + 8 + length payload < 2 ^ 64
      → length hops_forward ≡ suc n
      → length hops_backward ≡ suc m
      → n < f.max_path_length
      → m < f.max_path_length
      → All (IsReachable b p hb hp f sk pk) hops_forward
      → All (IsReachable b p hb hp f sk pk) hops_backward
      → (onion sent : Onion p) × (response : ExpectedResponse p) × (r' : p.Rng) × (form_onion b p f
            hops_forward hops_backward payload r
          ≡ ok ((onion, response), r'))
        × (deserialize (onion_codec b p) ((onion_codec b p).write onion) ≡ ok sent)
        × (onion_eq b p sent onion ≡ true)
        × ((key : p.PrivateKey) (expected_tag : List Byte → Option p.Tag)
            → proc_onion b p f key expected_tag sent ≡ proc_onion b p f key expected_tag onion)
        × ((key : p.PrivateKey) (answer : List Byte)
            → reply_onion b p f key sent answer ≡ reply_onion b p f key onion answer)
  unfolding single_header_length
  form_onion_over_wire f sk pk hops_forward hops_backward payload n m r short max small lf lb hn hm
        reach_f reach_b =
      let (onion, response, r', run, d) =
        form_onion_delivers b p hb hp f sk pk hops_forward hops_backward payload n m r short max
          (omega (arith, small)) lf lb hn hm reach_f reach_b in
      let (sized, count) = header_bytes-IsFresh b p hb hp f onion.header d.fresh in
      let is_onion : IsOnion b p hb hp onion = record {
        headers_small =
            All-imp (λ h e. omega (arith, e, short)) (header_bytes b p onion.header) sized;
        header_count = omega (arith, count, max);
        forward_small = omega (arith, d.forward_length, small);
        backward_small = omega (arith, d.backward_length, small);
      } in
      let (reads, same) = onion_over_wire b p hb hp onion is_onion in
      (
        onion,
        unparsed b p hb hp onion,
        response,
        r',
        run,
        reads,
        same,
        λ key expected_tag. proc_onion-unparsed f key onion short d.fresh expected_tag,
        λ key answer. reply_onion-unparsed f key onion short d.fresh answer,
      )
