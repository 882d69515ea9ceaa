-- ===== src/Scenario/Trips/Wire.antt =====
-- src/lib.rs: `test_serialize_deserialize` passes, the same onion over the wire.
use eror.Prelude.{
  ℕ, ◌+◌, ◌*◌, ◌<◌, ◌^◌, ◌≡◌, refl, sym, ap, ◌∙◌, subst, true, List, [], ◌∷◌, map, length,
  length-map, All, All-imp, arith,
}
use eror.Prelude.Outcome.{ok}
use eror.Bytes.{Byte}
use eror.Bytes.Laws.{bytes_eq_refl, array_eq_refl}
use eror.Serde.{Bincode, IsBincode}
use eror.Primitives.{Primitives, IsPrimitives, KeyRole, sym_enc}
use eror.Pki.{Address, Pki}
use eror.Onion.{Header, raw, Onion, onion_eq}
use eror.Onion.Serialize.{unparsed, IsOnion, onion_over_wire}
use eror.Format.{OnionFormat, total_header_length, single_header_length, ae_enc, nonce_ae}
use eror.Layer.Headers.{header_bytes, header_bytes-raw}
use eror.Onionize.Fresh.{header_bytes-IsFresh, unwrap_fresh}
use eror.Process.{ExpectedResponse}
use eror.Process.Way.{Way}
use eror.Process.Delivery.{IsDelivered}
use eror.Process.Delivered.{replied}
use eror.Scenario.{payload, reply_payload, unwrap_result}
use eror.Scenario.Members.{IsMember}
use eror.Scenario.Steps.{at_receiver-ok, reply_from-ok, at_sender-ok, key_at-HasKey, over_wire}
use eror.Scenario.Trips.{wire_trip}
use eror.Scenario.Trips.AtOnce.{receives_at_once, replies_at_once, opens_at_once}

module _ (b : Bincode) (p : Primitives) (hb : IsBincode b) (hp : IsPrimitives p) where
  -- Headers in raw form stay as they are over the wire.
  unparsed_raw :
      (hs : List (List Byte)) (forward : List Byte) (backward : List Byte × p.Tag)
      → unparsed b p hb hp (record { header = map raw hs; forward = forward; backward = backward })
        ≡ record { header = map raw hs; forward = forward; backward = backward }
  unparsed_raw hs forward backward =
      ap
        (λ (t : List (List Byte)). record {
          header = map raw t;
          forward = forward;
          backward = backward;
        })
        (header_bytes-raw b p hs)

  sized_small :
      p.symmetric_key_length < 2 ^ 32
      → (hs : List (List Byte)) → All (λ h. length h ≡ single_header_length p) hs
      → All (λ h. length h < 2 ^ 64) hs
  unfolding single_header_length
  sized_small short hs sized = All-imp (λ h e. omega (arith, short)) hs sized

  size_of_one :
      (f : OnionFormat p)
      → f.max_path_length ≡ 1
      → p.symmetric_key_length < 2 ^ 32
      → total_header_length p f < 2 ^ 33
  unfolding total_header_length single_header_length
  size_of_one f e short = omega (arith, ap (λ (n : ℕ). n * (8 + single_header_length p)) e)

  module _ (f : OnionFormat p) (sk : Address → p.PrivateKey) (a0 a1 : Address)
      (one : f.max_path_length ≡ 1) (short : p.symmetric_key_length < 2 ^ 32) (onion : Onion p)
      (response : ExpectedResponse p)
      (d : IsDelivered b p hb hp f sk (a0 ∷ []) (a1 ∷ []) 0 0 payload onion response) where
    -- The two onions of the trip over the wire are small enough.
    wire_onion : IsOnion b p hb hp onion
    wire_onion =
        let (sized, count) = header_bytes-IsFresh b p hb hp f onion.header d.fresh in
        record {
          headers_small = sized_small short (header_bytes b p onion.header) sized;
          header_count = omega (arith, count, one);
          forward_small = omega (arith, d.forward_length, size_of_one f one short);
          backward_small = omega (arith, d.backward_length);
        }

    wire_reply :
        IsOnion b p hb hp (replied b p hb hp f sk (a0 ∷ []) (a1 ∷ []) 0 0 payload d reply_payload)
    unfolding Way ae_enc
    wire_reply = record {
      headers_small =
          subst (λ (t : List (List Byte)). All (λ h. length h < 2 ^ 64) t)
            (sym (header_bytes-raw b p d.reply_headers))
            (sized_small short d.reply_headers d.reply_sized);
      header_count =
          omega (arith, length-map {B = Header p} raw d.reply_headers, d.reply_count, one);
      forward_small = omega (
        arith,
        hp.length-prng (p.derive_key KeyRole.prng d.key) (length d.arrived.forward),
        ap (λ (o : Onion p). length o.forward) d.forth,
        d.forward_length,
        size_of_one f one short,
      );
      backward_small =
          omega (arith, hp.length-encrypt (p.derive_key sym_enc d.key) nonce_ae reply_payload);
    }

  module _ (pki : Pki p.PublicKey) (private_keys : List (Address × p.PrivateKey))
      (sk : Address → p.PrivateKey) (pk : Address → p.PublicKey) where
    over_wire-ok :
        (onion : Onion p)
        → IsOnion b p hb hp onion
        → (over_wire b p onion ≡ ok (unparsed b p hb hp onion))
          × (onion_eq b p (unparsed b p hb hp onion) onion ≡ true)
    unfolding over_wire
    over_wire-ok onion small =
        let (e, same) = onion_over_wire b p hb hp onion small in (ap unwrap_result e, same)

    pub wire_trip-ok :
        (f : OnionFormat p) (a0 a1 : Address) (rest : List Address) (onion : Onion p)
        (response : ExpectedResponse p)
        → f.max_path_length ≡ 1
        → p.symmetric_key_length < 2 ^ 32
        → All (IsMember b p hb hp pki private_keys sk pk) (a0 ∷ a1 ∷ rest)
        → IsDelivered b p hb hp f sk (a0 ∷ []) (a1 ∷ []) 0 0 payload onion response
        → wire_trip b p f private_keys (a0 ∷ a1 ∷ rest) onion response ≡ ok tt
    unfolding wire_trip
    wire_trip-ok f a0 a1 rest onion response one short members d =
        let as' = a0 ∷ a1 ∷ rest in
        let (m0, (m1, _)) = members in
        let key0 = key_at-HasKey private_keys sk as' 0 a0 refl m0.2 in
        let key1 = key_at-HasKey private_keys sk as' 1 a1 refl m1.2 in
        let reply = replied b p hb hp f sk (a0 ∷ []) (a1 ∷ []) 0 0 payload d reply_payload in
        let sent = unparsed b p hb hp onion in
        let alike = sym (unwrap_fresh b p hb hp f (sk a0) onion short d.fresh) in
        let (w0, same0) = over_wire-ok onion (wire_onion f sk a0 a1 one short onion response d) in
        let (w1, _) = over_wire-ok reply (wire_reply f sk a0 a1 one short onion response d) in
        let back : over_wire b p reply ≡ ok reply =
          w1
          ∙ ap (λ (o : Onion p). ok o)
              (unparsed_raw d.reply_headers reply.forward reply.backward) in
        let s1 = at_receiver-ok b p f private_keys as' 0 (sk a0) key0 sent payload (
          receives_at_once b p hb hp pki private_keys sk pk f a0 a1 rest onion response members d
            sent alike) in
        let s2 = reply_from-ok b p f private_keys as' 0 (sk a0) key0 sent reply a1 (
          replies_at_once b p hb hp pki private_keys sk pk f a0 a1 rest onion response members d
            sent alike refl) in
        let s4 =
          at_sender-ok b p f private_keys as' 1 (sk a1) key1 reply response.tag reply_payload (
            opens_at_once b p hb hp pki private_keys sk pk f a0 a1 rest onion response members d) in
        rw (w0, same0)
          (rw (s1, bytes_eq_refl payload)
            (rw (s2, array_eq_refl a1) (rw (back, s4) (rw (bytes_eq_refl reply_payload) refl))))
