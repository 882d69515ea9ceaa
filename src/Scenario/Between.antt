-- ===== src/Scenario/Between.antt =====
-- The steps of the tests of src/lib.rs with one hop on each way: addresses 0 and 1 are the path to the
-- receiver, 2 and 3 the path back.
use eror.Prelude.{◌<◌, ◌^◌, ◌≡◌, refl, ap, ◌∙◌, List, [], ◌∷◌, none, All, arith}
use eror.Prelude.Outcome.{ok}
use eror.Serde.{Bincode, IsBincode}
use eror.Primitives.{Primitives, IsPrimitives}
use eror.Pki.{Address, Pki}
use eror.Onion.{Onion}
use eror.Format
use eror.Format.{OnionFormat}
use eror.Layer.{unwrap}
use eror.Onionize.Ciphers.{hop_meta}
use eror.Process.{ExpectedResponse}
use eror.Process.Route.{hop_at, owner}
use eror.Process.Way.{Way, proc_hop}
use eror.Process.Delivery.{IsDelivered}
use eror.Process.Delivered.{receives, replies, replied}
use eror.Scenario.{payload, reply_payload}
use eror.Scenario.Members.{IsMember}
use eror.Scenario.Formed.{formed, formed_lem}
use eror.Scenario.Steps.{
  through_hop, at_receiver, reply_from, through_hop-ok, at_receiver-ok, reply_from-ok,
  key_at-HasKey,
}

module _ (b : Bincode) (p : Primitives) (hb : IsBincode b) (hp : IsPrimitives p)
    (pki : Pki p.PublicKey) (private_keys : List (Address × p.PrivateKey))
    (sk : Address → p.PrivateKey) (pk : Address → p.PublicKey) (a0 a1 a2 a3 : Address)
    (rest : List Address)
    (members : All (IsMember b p hb hp pki private_keys sk pk) (a0 ∷ a1 ∷ a2 ∷ a3 ∷ rest)) where
  -- The onion with which they start.
  pub formed_between :
      (r : p.Rng)
      → p.symmetric_key_length < 2 ^ 32
      → (onion : Onion p) × (response : ExpectedResponse p) × (r' : p.Rng) × (formed b p 2 0 2 2 4
            pki
            (a0 ∷ a1 ∷ a2 ∷ a3 ∷ rest)
            r
          ≡ ok ((onion, response), r'))
        × IsDelivered b p hb hp
            (Format.new p pki 2)
            sk
            (a0 ∷ a1 ∷ [])
            (a2 ∷ a3 ∷ [])
            1
            1
            payload
            onion
            response
  formed_between r short =
      formed_lem b p hb hp 2 0 2 2 4 1 1 pki private_keys sk pk (a0 ∷ a1 ∷ a2 ∷ a3 ∷ rest) r short
        (omega arith) (omega arith) (omega arith) refl refl (omega arith) (omega arith)
        (omega arith) (omega arith) members

  module _ (f : OnionFormat p) (onion : Onion p) (response : ExpectedResponse p)
      (d : IsDelivered b p hb hp f sk
        (a0 ∷ a1 ∷ [])
        (a2 ∷ a3 ∷ [])
        1
        1
        payload
        onion
        response) where
    abbrev as' : List Address
    as' = a0 ∷ a1 ∷ a2 ∷ a3 ∷ rest

    -- The first hop.
    pub hop_there :
        (key : p.SymmetricKey) × (unwrap b p f (sk a0) onion ≡ ok (key, hop_meta a1, d.arrived))
        × (through_hop b p f private_keys as' 0 onion ≡ ok (a1, d.arrived))
    unfolding Way
    hop_there =
        let (m0, _) = members in
        let (start, key, same, e) = d.forth in
        let opened = ap (unwrap b p f (sk a0)) same ∙ e in
        (
          key,
          opened,
          through_hop-ok b p f private_keys as' 0 (sk a0)
              (key_at-HasKey private_keys sk as' 0 a0 refl m0.2) onion a1 d.arrived
              (proc_hop b p f (sk a0) (λ _. none) onion d.arrived key a1 opened),
        )

    -- The receiver, and its reply.
    pub receiver_there : at_receiver b p f private_keys as' 1 d.arrived ≡ ok payload
    receiver_there =
        let (_, (m1, _)) = members in
        at_receiver-ok b p f private_keys as' 1 (sk a1)
          (key_at-HasKey private_keys sk as' 1 a1 refl m1.2) d.arrived payload
          (receives b p hb hp f sk (a0 ∷ a1 ∷ []) (a2 ∷ a3 ∷ []) 1 1 payload d (λ _. none))

    abbrev pub sent_reply : Onion p
    sent_reply = replied b p hb hp f sk (a0 ∷ a1 ∷ []) (a2 ∷ a3 ∷ []) 1 1 payload d reply_payload

    pub reply_there : reply_from b p f private_keys as' 1 d.arrived ≡ ok (sent_reply, a2)
    reply_there =
        let (_, (m1, _)) = members in
        reply_from-ok b p f private_keys as' 1 (sk a1)
          (key_at-HasKey private_keys sk as' 1 a1 refl m1.2) d.arrived sent_reply a2
          (replies b p hb hp f sk (a0 ∷ a1 ∷ []) (a2 ∷ a3 ∷ []) 1 1 payload d reply_payload)

    -- The hop on the way back.
    pub hop_back :
        (sent returned : Onion p)
        → Way b p f (owner sk (a2 ∷ a3 ∷ [])) (hop_at (a2 ∷ a3 ∷ [])) 1 sent returned
        → (key : p.SymmetricKey) × (unwrap b p f (sk a2) sent ≡ ok (key, hop_meta a3, returned))
          × (through_hop b p f private_keys as' 2 sent ≡ ok (a3, returned))
    unfolding Way
    hop_back sent returned (start, key, same, e) =
        let (_, (_, (m2, _))) = members in
        let opened = ap (unwrap b p f (sk a2)) same ∙ e in
        (
          key,
          opened,
          through_hop-ok b p f private_keys as' 2 (sk a2)
              (key_at-HasKey private_keys sk as' 2 a2 refl m2.2) sent a3 returned
              (proc_hop b p f (sk a2) (λ _. none) sent returned key a3 opened),
        )
