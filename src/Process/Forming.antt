-- ===== src/Process/Forming.antt =====
-- `form_onion` step by step: what it returns, given the two runs of `onionize`.
use eror.Prelude.{
  ℕ, suc, ◌+◌, ◌<◌, ◌≡◌, ap, ◌∙◌, ◌&&◌, true, leb, List, some, length, get_elem?, last?, arith,
}
use eror.Prelude.Outcome.{ok, minus_one, or_panic}
use eror.Prelude.Rand.{run_bind, run_lift}
use eror.Prelude.Index.{index-get_or}
use eror.Bytes.{Byte, zero_array}
use eror.Serde.{Bincode}
use eror.Primitives.{Primitives, KeyRole}
use eror.Pki.{Address}
use eror.Onion.{Role, Meta, Onion, packed_header}
use eror.Format.{OnionFormat, total_header_length}
use eror.Onionize.{Payload, onionize}
use eror.Process.{form_onion, ExpectedResponse, overwrite_16, lengths_codec, message_codec}
use eror.Process.Route.{forward_keys, backward_keys, forward_key, hop_at, last-forward_keys}

module _ (b : Bincode) (p : Primitives) where
  -- The meta data for the ends of the two paths.
  abbrev pub sender_meta : Address → Meta
  sender_meta next = record { role = Role.sender; next = next }

  abbrev pub receiver_meta : List Address → Meta
  receiver_meta hops_backward = record { role = Role.receiver; next = hop_at hops_backward 0 }

  -- The payload of a reply, as the sender foresees it.
  abbrev pub random_payload : OnionFormat p → p.SymmetricKey → ℕ → List Byte → List Byte
  random_payload f master n payload =
      p.prng_fill (p.derive_key KeyRole.prng (forward_key b p master n))
        (total_header_length p f + 8 + length payload)

  -- What the sender keeps.
  abbrev pub response_of : Onion p → Onion p → p.Tag → ExpectedResponse p
  response_of backward_n forward_n tag = record {
    identifier = packed_header b p backward_n.header;
    onion = forward_n;
    tag = tag;
  }

  pub form_onion_steps :
      (f : OnionFormat p) (hops_forward hops_backward : List Address) (payload : List Byte)
      (r : p.Rng) (n m : ℕ) (next : Address) {backward_1 backward_n forward_1 forward_n : Onion p}
      {tag_b tag : p.Tag} {r1 r2 : p.Rng}
      → length hops_forward ≡ suc n
      → length hops_backward ≡ suc m
      → n < f.max_path_length
      → m < f.max_path_length
      → overwrite_16
          (zero_array 32)
          ((lengths_codec b p).write (length hops_forward, length hops_backward))
        ≡ ok next
      → onionize b p f
          (backward_keys b p (p.random_key r).0 m)
          hops_backward
          (sender_meta next)
          (Payload.backward (random_payload f (p.random_key r).0 n payload))
          0
          (p.random_key r).1
        ≡ ok ((backward_1, backward_n, tag_b), r1)
      → onionize b p f
          (forward_keys b p (p.random_key r).0 (length hops_forward))
          hops_forward
          (receiver_meta hops_backward)
          (Payload.forward ((message_codec b p).write (backward_1.header, payload)))
          (length payload)
          r1
        ≡ ok ((forward_1, forward_n, tag), r2)
      → form_onion b p f hops_forward hops_backward payload r
        ≡ ok ((forward_1, response_of backward_n forward_n tag), r2)
  unfolding form_onion
  form_onion_steps f hops_forward hops_backward payload r n m next {backward_1} {r1} lf lb hf hb'
        written run_b run_f =
      let fits : (leb (length hops_forward) f.max_path_length
            && leb (length hops_backward) f.max_path_length)
          ≡ true =
        ground arith in
      let last : last? (forward_keys b p (p.random_key r).0 (length hops_forward))
          ≡ some (forward_key b p (p.random_key r).0 n) =
        ap (λ (k : ℕ). last? (forward_keys b p (p.random_key r).0 k)) lf
        ∙ last-forward_keys b p (p.random_key r).0 n in
      rw (fits, ap minus_one lb)
        (run_lift (or_panic (last? (forward_keys b p (p.random_key r).0 (length hops_forward)))) _
            (p.random_key r).1 (ap or_panic last)
          ∙ (run_lift
                (overwrite_16 (zero_array 32)
                  ((lengths_codec b p).write (length hops_forward, length hops_backward)))
                _ (p.random_key r).1 written
              ∙ run_bind
                  (onionize b p f (backward_keys b p (p.random_key r).0 m) hops_backward
                    (sender_meta next)
                    (Payload.backward (random_payload f (p.random_key r).0 n payload)) 0)
                  _ (p.random_key r).1 run_b
              ∙ run_lift (or_panic (get_elem? hops_backward 0)) _ r1
                  (index-get_or hops_backward 0 (zero_array 32) (omega arith))
              ∙ run_bind
                  (onionize b p f (forward_keys b p (p.random_key r).0 (length hops_forward))
                    hops_forward (receiver_meta hops_backward)
                    (Payload.forward ((message_codec b p).write (backward_1.header, payload)))
                    (length payload))
                  _ r1 run_f))
