-- ===== src/Scenario/Trips/AtOnce.antt =====
-- src/lib.rs: `test_direct` passes, its first hop being the receiver.
use eror.Prelude.{
  ℕ, ◌+◌, ◌≡◌, ◌≢◌, refl, ap, ◌∙◌, false, inl, inr, Bool-cases, List, [], ◌∷◌, map, none, some,
  length, All, arith,
}
use eror.Prelude.Outcome.{ok}
use eror.Bytes.{Byte, bytes_eq}
use eror.Bytes.Laws.{bytes_eq_refl, bytes_eq_sound, array_eq_refl}
use eror.Serde.{Bincode, IsBincode}
use eror.Primitives.{Primitives, IsPrimitives}
use eror.Pki.{Address, Pki}
use eror.Onion.{raw, Onion}
use eror.Format.{OnionFormat, total_header_length}
use eror.Layer.{unwrap}
use eror.Process.{
  ExpectedResponse, proc_onion, reply_onion, dispatch, split_reply_header, receiver, sender,
}
use eror.Process.Branches.{proc_onion-dispatch, reply_onion-ok, answer}
use eror.Process.Forming.{receiver_meta}
use eror.Process.Way.{Way}
use eror.Process.Delivery.{IsDelivered}
use eror.Process.Delivered.{replied, sends_back}
use eror.Scenario.{payload, reply_payload}
use eror.Scenario.Members.{IsMember}
use eror.Scenario.Steps.{at_receiver-ok, reply_from-ok, at_sender-ok, key_at-HasKey}
use eror.Scenario.Trips.{direct_trip}

pub bytes_eq_lengths : (xs ys : List Byte) → length xs ≢ length ys → bytes_eq xs ys ≡ false
bytes_eq_lengths xs ys differ = elim (Bool-cases (bytes_eq xs ys)) [
  | inl e ↦ absurd (differ (ap length (bytes_eq_sound xs ys e)))
  | inr e ↦ e
]

module _ (b : Bincode) (p : Primitives) (hb : IsBincode b) (hp : IsPrimitives p) where
  -- The forward part is not the payload itself: it is longer.
  pub not_the_payload :
      (f : OnionFormat p) (forward : List Byte)
      → length forward ≡ total_header_length p f + 8 + length payload
      → bytes_eq forward payload ≡ false
  not_the_payload f forward l = bytes_eq_lengths forward payload (longer (length forward) l)
    where
      longer : (n : ℕ) → n ≡ total_header_length p f + 8 + length payload → n ≢ length payload
      longer n l e = omega arith

  module _ (pki : Pki p.PublicKey) (private_keys : List (Address × p.PrivateKey))
      (sk : Address → p.PrivateKey) (pk : Address → p.PublicKey) where
    abbrev pub Member : Address → Type 0
    Member = IsMember b p hb hp pki private_keys sk pk

    module _ (f : OnionFormat p) (a0 a1 : Address) (rest : List Address) (onion : Onion p)
        (response : ExpectedResponse p) (members : All Member (a0 ∷ a1 ∷ rest))
        (d : IsDelivered b p hb hp f sk (a0 ∷ []) (a1 ∷ []) 0 0 payload onion response) where
      -- The onion is already with its receiver.
      opened_at_once :
          unwrap b p f (sk a0) onion ≡ ok (d.key, receiver_meta b p (a1 ∷ []), d.inside)
      unfolding Way
      opened_at_once = ap (unwrap b p f (sk a0)) d.forth ∙ d.opened

      pub receives_at_once :
          (onion' : Onion p)
          → unwrap b p f (sk a0) onion' ≡ unwrap b p f (sk a0) onion
          → (proc_onion b p f (sk a0) (λ _. none) onion' ≡ ok (receiver payload))
      unfolding dispatch split_reply_header
      receives_at_once onion' e =
          proc_onion-dispatch b p f _ (λ _. none) onion' d.inside d.key
            (receiver_meta b p (a1 ∷ [])) (e ∙ opened_at_once)
          ∙ rw d.message refl

      abbrev reply_onion1 : Onion p
      reply_onion1 = replied b p hb hp f sk (a0 ∷ []) (a1 ∷ []) 0 0 payload d reply_payload

      pub replies_at_once :
          (onion' : Onion p)
          → unwrap b p f (sk a0) onion' ≡ unwrap b p f (sk a0) onion
          → onion'.forward ≡ onion.forward
          → reply_onion b p f (sk a0) onion' reply_payload ≡ ok (reply_onion1, a1)
      unfolding Way
      replies_at_once onion' e same =
          reply_onion-ok b p f _ onion' d.inside reply_payload payload d.key
            (receiver_meta b p (a1 ∷ [])) (map raw d.reply_headers) (e ∙ opened_at_once) refl
            d.message
          ∙ ap
              (λ (fwd : List Byte). ok (
                answer b p d.key (receiver_meta b p (a1 ∷ [])) d.inside (map raw d.reply_headers)
                  (record onion { forward = fwd }) reply_payload))
              (same ∙ ap (λ (o : Onion p). o.forward) d.forth)

      pub opens_at_once :
          proc_onion b p f (sk a1) (λ _. some response.tag) reply_onion1 ≡ ok (sender reply_payload)
      unfolding Way
      opens_at_once =
          let (returned, way, opens) =
            sends_back b p hb hp f sk (a0 ∷ []) (a1 ∷ []) 0 0 payload d reply_payload
              (λ _. some response.tag) refl in
          ap (proc_onion b p f (sk a1) (λ _. some response.tag)) way ∙ opens

      pub direct_trip-ok : direct_trip b p f private_keys (a0 ∷ a1 ∷ rest) onion response ≡ ok tt
      unfolding direct_trip
      direct_trip-ok =
          let as' = a0 ∷ a1 ∷ rest in
          let (m0, (m1, _)) = members in
          let key0 = key_at-HasKey private_keys sk as' 0 a0 refl m0.2 in
          let key1 = key_at-HasKey private_keys sk as' 1 a1 refl m1.2 in
          let s1 =
            at_receiver-ok b p f private_keys as' 0 (sk a0) key0 onion payload
              (receives_at_once onion refl) in
          let s2 =
            reply_from-ok b p f private_keys as' 0 (sk a0) key0 onion reply_onion1 a1
              (replies_at_once onion refl refl) in
          let s4 =
            at_sender-ok b p f private_keys as' 1 (sk a1) key1 reply_onion1 response.tag
              reply_payload opens_at_once in
          rw (not_the_payload f onion.forward d.forward_length, s1)
            (rw (bytes_eq_refl payload, s2)
              (rw (array_eq_refl a1, s4) (rw (bytes_eq_refl reply_payload) refl)))
