-- ===== src/Process/Delivery.antt =====
-- An onion of `form_onion` over its whole life: to the receiver, and with the reply back to the
-- sender.
use eror.Prelude.{
  ℕ, suc, ◌+◌, ◌<◌, ◌^◌, ◌≡◌, refl, sym, ap, ap₂, ◌∙◌, true, List, [], map, length, length-map, All,
  arith,
}
use eror.Prelude.Outcome.{ok}
use eror.Bytes.{Byte, zero_array}
use eror.Serde.{Bincode, IsBincode, IsSmall, deserialize}
use eror.Primitives.{Primitives, IsPrimitives}
use eror.Pki.{Address}
use eror.Onion.{raw, Onion, into_bytes, headers_eq, packed_header}
use eror.Format.{OnionFormat, total_header_length}
use eror.Layer.{unwrap}
use eror.Layer.Headers.{header_bytes}
use eror.Layer.Sizes.{AreSized}
use eror.Onionize.Fresh.{IsFresh, header_bytes-IsFresh}
use eror.Onionize.Journey.{onionize_forward}
use eror.Process.{form_onion, ExpectedResponse, proc_onion, message_codec, lengths_codec}
use eror.Process.Branches.{answer}
use eror.Process.Message.{overwrite_16-ok, size-lengths, read-message, size-message}
use eror.Process.Way.{Way, unwrap_forward_length}
use eror.Process.Route.{
  hop_at, owner, forward_key, forward_keys, backward_keys, way_back_key, way_back_key_before,
  way_back_key_last, IsReachable, forward-IsRoute, backward-IsRoute,
}
use eror.Process.Handover.{forth_lem, back_lem}
use eror.Process.Return.{replies_come_back, expects, judge}
use eror.Process.Forming.{sender_meta, receiver_meta, random_payload, response_of, form_onion_steps}

module _ (b : Bincode) (p : Primitives) (hb : IsBincode b) (hp : IsPrimitives p) where
  -- Private keys by address, and the paths: `suc n` hops to the receiver and `suc m` back.
  module _ (f : OnionFormat p) (sk : Address → p.PrivateKey)
      (hops_forward hops_backward : List Address) (n m : ℕ) where
    -- The onion that carries a reply, but for its backward part.
    abbrev pub replied_to : Onion p → Onion p → p.SymmetricKey → List (List Byte) → Onion p
    replied_to arrived inside key reply_headers =
        (answer b p key (receiver_meta b p hops_backward) inside (map raw reply_headers) arrived
          []).0

    -- What becomes of an onion: it reaches the receiver, who reads the payload; the backward part of
    -- any reply reaches the sender, who judges it; and sizes are fixed by the format and the payload.
    pub record IsDelivered (payload : List Byte) (onion : Onion p) (response : ExpectedResponse p)
        : Type 0 where
      pub arrived : Onion p
      pub inside : Onion p
      pub key : p.SymmetricKey
      pub reply_headers : List (List Byte)
      pub forth : Way b p f (owner sk hops_forward) (hop_at hops_forward) n onion arrived
      pub opened :
          unwrap b p f (owner sk hops_forward n) arrived
          ≡ ok (key, receiver_meta b p hops_backward, inside)
      pub message :
          deserialize (message_codec b p) inside.forward ≡ ok (map raw reply_headers, payload)
      pub same_headers : headers_eq b p arrived.header response.onion.header ≡ true
      pub same_forward : arrived.forward ≡ response.onion.forward
      pub same_backward : arrived.backward ≡ response.onion.backward
      pub back :
          (bwd : List Byte × p.Tag)
          → (returned : Onion p) × Way b p f
              (owner sk hops_backward)
              (hop_at hops_backward)
              m
              (record (replied_to arrived inside key reply_headers) { backward = bwd })
              returned
            × (packed_header b p returned.header ≡ response.identifier)
            × (proc_onion b p f
                  (owner sk hops_backward m)
                  (expects response.identifier response.tag)
                  returned
                ≡ judge b p hb hp key response.tag bwd)
      pub sealed_for : inside.backward.1 ≡ response.tag
      pub fresh : IsFresh b p hb hp f onion.header
      pub forward_length : length onion.forward ≡ total_header_length p f + 8 + length payload
      pub backward_length : length onion.backward.0 ≡ length payload
      pub reply_sized : AreSized b p hb hp reply_headers
      pub reply_count : length reply_headers ≡ f.max_path_length

  -- For two paths of at least one hop each, neither longer than the format allows, whose hops are in
  -- the key store and can decrypt what is encrypted for them (with symmetric keys shorter than 2^32,
  -- a longest path below 2^32 and a payload below 2^64 bytes), `form_onion` succeeds in every state of
  -- the generator, and its onion is delivered (`IsDelivered`): hop by hop it reaches the last hop of
  -- the forward path, which reads the payload and finds the first address of the backward path, in the
  -- form that the sender was told to expect. With any backward part in place of its own, the onion of
  -- a reply then goes hop by hop along the backward path, and what `proc_onion` of the last hop
  -- returns is what `ae_dec` makes of that part under the key of the receiver and the expected tag,
  -- which is the tag for which the receiver seals its replies.
  pub form_onion_delivers :
      (f : OnionFormat p) (sk : Address → p.PrivateKey) (pk : Address → p.PublicKey)
      (hops_forward hops_backward : List Address) (payload : List Byte) (n m : ℕ) (r : p.Rng)
      → p.symmetric_key_length < 2 ^ 32
      → f.max_path_length < 2 ^ 32
      → IsSmall payload
      → length hops_forward ≡ suc n
      → length hops_backward ≡ suc m
      → n < f.max_path_length
      → m < f.max_path_length
      → All (IsReachable b p hb hp f sk pk) hops_forward
      → All (IsReachable b p hb hp f sk pk) hops_backward
      → (onion : Onion p) × (response : ExpectedResponse p) × (r' : p.Rng) × (form_onion b p f
            hops_forward hops_backward payload r
          ≡ ok ((onion, response), r'))
        × IsDelivered f sk hops_forward hops_backward n m payload onion response
  form_onion_delivers f sk pk hops_forward hops_backward payload n m r short max small lf lb hn hm
        reach_f reach_b =
      let (master, r0) = p.random_key r in
      let size = total_header_length p f + 8 + length payload in
      let (next, written, stored) =
        overwrite_16-ok (zero_array 32)
          ((lengths_codec b p).write (length hops_forward, length hops_backward))
          (size-lengths b p hb hp (length hops_forward) (length hops_backward)) in
      let (b1, bn, r1, run_b, carries, fresh_b, comes) =
        replies_come_back b p hb hp f (way_back_key b p master m) (hop_at hops_backward)
          (λ i. sk (hop_at hops_backward i)) (λ i. pk (hop_at hops_backward i))
          (backward_keys b p master m) hops_backward (sender_meta b p next) m n
          (random_payload b p f master n payload) 0 r0 master short
          (backward-IsRoute b p hb hp f sk pk master hops_backward m lb reach_b) lb hm
          (λ i h. way_back_key_before b p master m i h) (way_back_key_last b p master m) refl
          (stored ∙ ap₂ (λ (x y : ℕ). (lengths_codec b p).write (x, y)) lf lb) (omega arith)
          (omega arith) in
      let msg = (message_codec b p).write (b1.header, payload) in
      let (
        f1, fn, inside, expected, r2, run_f, trip, un, inside_forward, inside_backward, sized,
        fresh_f, kept,
      ) =
        onionize_forward b p hb hp f (forward_key b p master) (hop_at hops_forward)
          (λ i. sk (hop_at hops_forward i)) (λ i. pk (hop_at hops_forward i))
          (forward_keys b p master (length hops_forward)) hops_forward
          (receiver_meta b p hops_backward) n msg (length payload) r1 short
          (forward-IsRoute b p hb hp f sk pk master hops_forward reach_f) lf hn in
      let (arrived, way, same, he, fe, be) =
        forth_lem b p hb hp f (forward_key b p master) (hop_at hops_forward)
          (λ i. sk (hop_at hops_forward i)) (λ i. pk (hop_at hops_forward i)) n
          (receiver_meta b p hops_backward) f1 fn short fresh_f trip in
      let (sized_b, count_b) = header_bytes-IsFresh b p hb hp f b1.header fresh_b in
      let size_msg : length msg ≡ size =
        size-message b p hb hp f b1.header payload sized_b count_b in
      let opened = same (sk (hop_at hops_forward n)) ∙ un in
      let arrived_length : length arrived.forward ≡ size =
        sym (unwrap_forward_length b p hb hp f _ arrived opened)
        ∙ ap length inside_forward
        ∙ size_msg in
      (
        f1,
        response_of b p bn fn expected,
        r2,
        form_onion_steps b p f hops_forward hops_backward payload r n m next lf lb hn hm written
            run_b run_f,
        record {
          arrived = arrived;
          inside = inside;
          key = forward_key b p master n;
          reply_headers = header_bytes b p b1.header;
          forth = way;
          opened = opened;
          message =
              ap (deserialize (message_codec b p)) inside_forward
              ∙ read-message b p hb hp f b1.header payload short sized_b (omega (arith, count_b))
                  small;
          same_headers = he;
          same_forward = fe;
          same_backward = be;
          back = λ bwd.
              back_lem b p hb hp f sk hops_backward m (way_back_key b p master m)
                (λ i. pk (hop_at hops_backward i)) (sender_meta b p next) n master expected bwd b1
                bn arrived size carries arrived_length (comes expected bwd);
          sealed_for = inside_backward;
          fresh = fresh_f;
          forward_length = kept ∙ size_msg;
          backward_length = sized;
          reply_sized = sized_b;
          reply_count = omega (arith, count_b, length-map (into_bytes b p) b1.header);
        },
      )
