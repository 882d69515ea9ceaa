-- ===== src/Scenario/Attacks/Noticed.antt =====
-- A flipped bit in the payload of a reply is noticed by the sender, unless the MAC collides.
use eror.Prelude.{
  ◌<◌, ◌^◌, ◌≡◌, ◌≢◌, refl, sym, ap, ◌∙◌, List, [], ◌∷◌, ◌⊎◌, inl, inr, none, some, All, arith,
}
use eror.Prelude.Outcome.{ok}
use eror.Prelude.Rand.{run_bind, lift}
use eror.Bytes.{Byte}
use eror.Serde.{Bincode, IsBincode}
use eror.Primitives.{Primitives, IsPrimitives, sym_enc, mac}
use eror.Pki.{Address, Pki}
use eror.Onion.{Onion}
use eror.Format
use eror.Format.{OnionFormat, ae_enc, ae_dec, nonce_ae}
use eror.Format.Ae.{ae_dec_changed}
use eror.Process.{ExpectedResponse}
use eror.Process.Delivery.{IsDelivered}
use eror.Process.Delivered.{sends_back_any}
use eror.Scenario.{payload, reply_payload}
use eror.Scenario.Members.{IsMember}
use eror.Scenario.Formed.{formed}
use eror.Scenario.Between.{
  formed_between, hop_there, receiver_there, reply_there, hop_back, sent_reply,
}
use eror.Scenario.Steps.{through_hop, reply_from, key_at-HasKey, assert_ae_error}
use eror.Scenario.Attacks.{flip_first, tag_backward, backward_tagging_trip, backward_tagging}
use eror.Scenario.Attacks.Tagged.{flip_first-ok}

module _ (b : Bincode) (p : Primitives) (hb : IsBincode b) (hp : IsPrimitives p) where
  -- The MAC of two different ciphertexts is the same.
  abbrev pub MacCollides : p.SymmetricKey → List Byte → List Byte → Type 0
  MacCollides key changed ciphertext =
      (changed ≢ ciphertext)
      × (p.tag (p.derive_key mac key) changed ≡ p.tag (p.derive_key mac key) ciphertext)

  module _ (pki : Pki p.PublicKey) (private_keys : List (Address × p.PrivateKey))
      (sk : Address → p.PrivateKey) (pk : Address → p.PublicKey) where
    module _ (f : OnionFormat p) (a0 a1 a2 a3 : Address) (rest : List Address)
        (members : All (IsMember b p hb hp pki private_keys sk pk) (a0 ∷ a1 ∷ a2 ∷ a3 ∷ rest))
        (onion : Onion p) (response : ExpectedResponse p)
        (d : IsDelivered b p hb hp f sk
          (a0 ∷ a1 ∷ [])
          (a2 ∷ a3 ∷ [])
          1
          1
          payload
          onion
          response) where
      abbrev sealed : List Byte × p.Tag
      sealed = ae_enc p d.key d.inside.backward.1 reply_payload

      -- The whole trip, if the sender refuses the tagged reply.
      backward_tagging_trip-ok :
          (flipped : List Byte)
          → flip_first sealed.0 ≡ ok flipped
          → ae_dec p d.key d.inside.backward.1 (flipped, sealed.1) ≡ none
          → backward_tagging_trip b p f private_keys (a0 ∷ a1 ∷ a2 ∷ a3 ∷ rest) onion response
            ≡ ok tt
      unfolding backward_tagging_trip tag_backward assert_ae_error
      backward_tagging_trip-ok flipped flips refused =
          let as' = a0 ∷ a1 ∷ a2 ∷ a3 ∷ rest in
          let (_, (_, (_, (m3, _)))) = members in
          let (_, _, s0) =
            hop_there b p hb hp pki private_keys sk pk a0 a1 a2 a3 rest members f onion response
              d in
          let s1 =
            receiver_there b p hb hp pki private_keys sk pk a0 a1 a2 a3 rest members f onion
              response d in
          let s2 =
            reply_there b p hb hp pki private_keys sk pk a0 a1 a2 a3 rest members f onion response
              d in
          let (returned, way, judged) =
            sends_back_any b p hb hp f sk (a0 ∷ a1 ∷ []) (a2 ∷ a3 ∷ []) 1 1 payload d
              (flipped, sealed.1) (λ _. some response.tag) refl in
          let (_, _, s3) =
            hop_back b p hb hp pki private_keys sk pk a0 a1 a2 a3 rest members f onion response d _
              returned way in
          let refused' : ae_dec p d.key response.tag (flipped, sealed.1) ≡ none =
            ap (λ (t : p.Tag). ae_dec p d.key t (flipped, sealed.1)) (sym d.sealed_for) ∙ refused in
          rw (s0, s1, s2)
            (rw (flips, s3)
              (rw (key_at-HasKey private_keys sk as' 3 a3 refl m3.2, judged) (rw refused' refl)))

    -- With four addresses or more, all of nodes in the key store that can decrypt what is encrypted
    -- for them and whose private keys are at hand (and symmetric keys shorter than 2^32), in every
    -- state of the generator: the receiver seals the reply under a key for the tag that the sender
    -- expects, and `test_backward_payload_tagging` passes, that is, the hop on the way back passes the
    -- tagged reply on and the sender refuses it with `AeError`, unless the MAC under that key is the
    -- same for the ciphertext of the reply and for the one with the flipped bit.
    pub backward_tagging_noticed :
        (a0 a1 a2 a3 : Address) (rest : List Address) (r : p.Rng)
        → p.symmetric_key_length < 2 ^ 32
        → All (IsMember b p hb hp pki private_keys sk pk) (a0 ∷ a1 ∷ a2 ∷ a3 ∷ rest)
        → let addresses = a0 ∷ a1 ∷ a2 ∷ a3 ∷ rest in
          (onion arrived reply : Onion p) × (response : ExpectedResponse p) × (r' : p.Rng)
          × (key : p.SymmetricKey) × (flipped : List Byte) × (formed b p 2 0 2 2 4 pki addresses r
              ≡ ok ((onion, response), r'))
          × (through_hop b p (Format.new p pki 2) private_keys addresses 0 onion ≡ ok (a1, arrived))
          × (reply_from b p (Format.new p pki 2) private_keys addresses 1 arrived ≡ ok (reply, a2))
          × (reply.backward ≡ ae_enc p key response.tag reply_payload)
          × (flip_first reply.backward.0 ≡ ok flipped)
          × ((backward_tagging b p pki private_keys addresses r ≡ ok (tt, r'))
              ⊎ MacCollides key flipped reply.backward.0)
    unfolding backward_tagging Format.new ae_enc
    backward_tagging_noticed a0 a1 a2 a3 rest r short members =
        let as' = a0 ∷ a1 ∷ a2 ∷ a3 ∷ rest in
        let f = Format.new p pki 2 in
        let (onion, response, r', run, d) =
          formed_between b p hb hp pki private_keys sk pk a0 a1 a2 a3 rest members r short in
        let ciphertext = (ae_enc p d.key d.inside.backward.1 reply_payload).0 in
        let (flipped, flips, differs, _) =
          flip_first-ok ciphertext (
            omega (arith, hp.length-encrypt (p.derive_key sym_enc d.key) nonce_ae reply_payload)) in
        (
          onion,
          d.arrived,
          sent_reply b p hb hp pki private_keys sk pk a0 a1 a2 a3 rest members f onion response d,
          response,
          r',
          d.key,
          flipped,
          run,
          (hop_there b p hb hp pki private_keys sk pk a0 a1 a2 a3 rest members f onion response
              d).2,
          reply_there b p hb hp pki private_keys sk pk a0 a1 a2 a3 rest members f onion response d,
          ap (λ (t : p.Tag). ae_enc p d.key t reply_payload) d.sealed_for,
          flips,
          elim (ae_dec_changed p hp d.key d.inside.backward.1 reply_payload flipped) [
            | inl refused ↦ inl (
                run_bind (formed b p 2 0 2 2 4 pki as') _ r run
                ∙ ap (λ o. lift o r')
                    (backward_tagging_trip-ok f a0 a1 a2 a3 rest members onion response d flipped
                      flips refused))
            | inr same ↦ inr (differs, same)
          ],
        )
