-- ===== src/Scenario/Trips/Passing.antt =====
-- The three tests pass.
use eror.Prelude.{◌<◌, ◌^◌, ◌≡◌, refl, ap, ◌∙◌, List, [], ◌∷◌, some, All, arith}
use eror.Prelude.Outcome.{ok}
use eror.Prelude.Rand.{run_bind, lift}
use eror.Bytes.Laws.{bytes_eq_refl, array_eq_refl}
use eror.Serde.{Bincode, IsBincode}
use eror.Primitives.{Primitives, IsPrimitives}
use eror.Pki.{Address, Pki}
use eror.Onion.{Onion}
use eror.Format
use eror.Format.{OnionFormat, total_header_length, single_header_length, ae_enc, nonce_ae}
use eror.Process.{ExpectedResponse}
use eror.Process.Way.{Way}
use eror.Process.Delivery.{IsDelivered}
use eror.Process.Delivered.{sends_back}
use eror.Scenario.{payload, reply_payload}
use eror.Scenario.Members.{IsMember}
use eror.Scenario.Formed.{formed, formed_lem}
use eror.Scenario.Between.{formed_between, hop_there, receiver_there, reply_there, hop_back}
use eror.Scenario.Steps.{at_sender-ok, key_at-HasKey}
use eror.Scenario.Trips.{single_between_trip, direct, single_between, serialize_deserialize}
use eror.Scenario.Trips.AtOnce.{Member, not_the_payload, direct_trip-ok}
use eror.Scenario.Trips.Wire.{wire_trip-ok}

module _ (b : Bincode) (p : Primitives) (hb : IsBincode b) (hp : IsPrimitives p) where
  module _ (pki : Pki p.PublicKey) (private_keys : List (Address × p.PrivateKey))
      (sk : Address → p.PrivateKey) (pk : Address → p.PublicKey) where
    module _ (f : OnionFormat p) (a0 a1 a2 a3 : Address) (rest : List Address) (onion : Onion p)
        (response : ExpectedResponse p)
        (members : All (Member b p hb hp pki private_keys sk pk) (a0 ∷ a1 ∷ a2 ∷ a3 ∷ rest))
        (d : IsDelivered b p hb hp f sk
          (a0 ∷ a1 ∷ [])
          (a2 ∷ a3 ∷ [])
          1
          1
          payload
          onion
          response) where
      pub single_between_trip-ok :
          single_between_trip b p f private_keys (a0 ∷ a1 ∷ a2 ∷ a3 ∷ rest) onion response ≡ ok tt
      unfolding single_between_trip Way
      single_between_trip-ok =
          let as' = a0 ∷ a1 ∷ a2 ∷ a3 ∷ rest in
          let (_, (_, (_, (m3, _)))) = members in
          let (_, _, s0) =
            hop_there b p hb hp pki private_keys sk pk a0 a1 a2 a3 rest members f onion response
              d in
          let s1 =
            receiver_there b p hb hp pki private_keys sk pk a0 a1 a2 a3 rest members f onion
              response d in
          let s2 =
            reply_there b p hb hp pki private_keys sk pk a0 a1 a2 a3 rest members f onion response
              d in
          let (returned, way, opens) =
            sends_back b p hb hp f sk (a0 ∷ a1 ∷ []) (a2 ∷ a3 ∷ []) 1 1 payload d reply_payload
              (λ _. some response.tag) refl in
          let (_, _, s3) =
            hop_back b p hb hp pki private_keys sk pk a0 a1 a2 a3 rest members f onion response d _
              returned way in
          let s4 =
            at_sender-ok b p f private_keys as' 3 (sk a3)
              (key_at-HasKey private_keys sk as' 3 a3 refl m3.2) returned response.tag reply_payload
              opens in
          rw (not_the_payload b p hb hp f onion.forward d.forward_length, s0)
            (rw (array_eq_refl a1, s1)
              (rw (bytes_eq_refl payload, s2)
                (rw (array_eq_refl a2, s3)
                  (rw (array_eq_refl a3, s4) (rw (bytes_eq_refl reply_payload) refl)))))

    -- With four addresses or more, all of nodes in the key store that can decrypt what is encrypted
    -- for them and whose private keys are at hand (and symmetric keys shorter than 2^32), `test_direct`,
    -- `test_serialize_deserialize` and `test_single_between` pass in every state of the generator.
    pub trips_pass :
        (a0 a1 a2 a3 : Address) (rest : List Address) (r : p.Rng)
        → p.symmetric_key_length < 2 ^ 32
        → All (IsMember b p hb hp pki private_keys sk pk) (a0 ∷ a1 ∷ a2 ∷ a3 ∷ rest)
        → (r1 r2 : p.Rng) × (direct b p pki private_keys (a0 ∷ a1 ∷ a2 ∷ a3 ∷ rest) r ≡ ok (tt, r1))
          × (serialize_deserialize b p pki private_keys (a0 ∷ a1 ∷ a2 ∷ a3 ∷ rest) r ≡ ok (tt, r1))
          × (single_between b p pki private_keys (a0 ∷ a1 ∷ a2 ∷ a3 ∷ rest) r ≡ ok (tt, r2))
    unfolding direct serialize_deserialize single_between Format.new
    trips_pass a0 a1 a2 a3 rest r short members =
        let as' = a0 ∷ a1 ∷ a2 ∷ a3 ∷ rest in
        let (onion, response, r1, run, d) =
          formed_lem b p hb hp 1 0 1 1 2 0 0 pki private_keys sk pk as' r short (omega arith)
            (omega arith) (omega arith) refl refl (omega arith) (omega arith) (omega arith)
            (omega arith) members in
        let (onion', response', r2, run', d') =
          formed_between b p hb hp pki private_keys sk pk a0 a1 a2 a3 rest members r short in
        let f = Format.new p pki 1 in
        (
          r1,
          r2,
          run_bind (formed b p 1 0 1 1 2 pki as') _ r run
              ∙ ap (λ o. lift o r1)
                  (direct_trip-ok b p hb hp pki private_keys sk pk f a0 a1 (a2 ∷ a3 ∷ rest) onion
                    response members d),
          run_bind (formed b p 1 0 1 1 2 pki as') _ r run
              ∙ ap (λ o. lift o r1)
                  (wire_trip-ok b p hb hp pki private_keys sk pk f a0 a1 (a2 ∷ a3 ∷ rest) onion
                    response refl short members d),
          run_bind (formed b p 2 0 2 2 4 pki as') _ r run'
              ∙ ap (λ o. lift o r2)
                  (single_between_trip-ok (Format.new p pki 2) a0 a1 a2 a3 rest onion' response'
                    members d'),
        )
