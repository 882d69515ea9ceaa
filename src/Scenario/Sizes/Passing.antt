-- ===== src/Scenario/Sizes/Passing.antt =====
-- src/lib.rs: `test_reply_same_size` and `test_size_independent_of_path` pass.
use eror.Prelude.{
  ◌<◌, ◌≤◌, ◌^◌, ◌≡◌, refl, sym, ap, ◌∙◌, ==_iff, List, [], ◌∷◌, some, length, All, arith,
}
use eror.Prelude.Outcome.{ok}
use eror.Prelude.Rand.{run_bind, lift}
use eror.Serde.{Bincode, IsBincode}
use eror.Primitives.{Primitives, IsPrimitives}
use eror.Pki.{Address, Pki}
use eror.Onion.{Onion}
use eror.Format
use eror.Format.{OnionFormat, total_header_length, single_header_length, ae_enc, nonce_ae}
use eror.Onionize.Fresh.{header_bytes-IsFresh}
use eror.Process.{ExpectedResponse}
use eror.Process.Way.{Way}
use eror.Process.Delivery.{IsDelivered}
use eror.Process.Delivered.{replied, sends_back}
use eror.Scenario.{payload, reply_payload}
use eror.Scenario.Members.{IsMember}
use eror.Scenario.Formed.{formed, formed_lem}
use eror.Scenario.Between.{formed_between, hop_there, receiver_there, reply_there, hop_back}
use eror.Scenario.Steps.{onion_size}
use eror.Scenario.Sizes.{size_independent_of_path, same_size_trip, reply_same_size}
use eror.Scenario.Sizes.Same.{
  size_for, size-IsDelivered, size-replied, hop_size, reply_header_sizes,
}

module _ (b : Bincode) (p : Primitives) (hb : IsBincode b) (hp : IsPrimitives p) where
  module _ (pki : Pki p.PublicKey) (private_keys : List (Address × p.PrivateKey))
      (sk : Address → p.PrivateKey) (pk : Address → p.PublicKey) where
    same_size_trip-ok :
        (f : OnionFormat p) (a0 a1 a2 a3 : Address) (rest : List Address) (onion : Onion p)
        (response : ExpectedResponse p)
        → 0 < f.max_path_length
        → All (IsMember b p hb hp pki private_keys sk pk) (a0 ∷ a1 ∷ a2 ∷ a3 ∷ rest)
        → IsDelivered b p hb hp f sk (a0 ∷ a1 ∷ []) (a2 ∷ a3 ∷ []) 1 1 payload onion response
        → same_size_trip b p pki private_keys (a0 ∷ a1 ∷ a2 ∷ a3 ∷ rest) f onion ≡ ok tt
    unfolding same_size_trip Way
    same_size_trip-ok f a0 a1 a2 a3 rest onion response some_hop members d =
        let as' = a0 ∷ a1 ∷ a2 ∷ a3 ∷ rest in
        let hf = a0 ∷ a1 ∷ [] in
        let hb' = a2 ∷ a3 ∷ [] in
        let reply = replied b p hb hp f sk hf hb' 1 1 payload d reply_payload in
        let (_, opened0, t0) =
          hop_there b p hb hp pki private_keys sk pk a0 a1 a2 a3 rest members f onion response d in
        let t1 =
          receiver_there b p hb hp pki private_keys sk pk a0 a1 a2 a3 rest members f onion response
            d in
        let t2 =
          reply_there b p hb hp pki private_keys sk pk a0 a1 a2 a3 rest members f onion response
            d in
        let (returned, way, _) =
          sends_back b p hb hp f sk hf hb' 1 1 payload d reply_payload (λ _. some response.tag)
            refl in
        let (_, opened2, t3) =
          hop_back b p hb hp pki private_keys sk pk a0 a1 a2 a3 rest members f onion response d
            reply returned way in
        let (sized, count) = header_bytes-IsFresh b p hb hp f onion.header d.fresh in
        let (sized', count') =
          reply_header_sizes b p hb hp f sk hf hb' 1 1 payload onion response d reply_payload in
        let first = size-IsDelivered b p hb hp f sk hf hb' 1 1 payload onion response d in
        let replied_size =
          size-replied b p hb hp f sk hf hb' 1 1 payload onion response d reply_payload refl in
        let size0 =
          hop_size b p hb hp f (sk a0) onion.header onion.forward onion.backward some_hop sized
            count opened0 in
        let size3 =
          hop_size b p hb hp f (sk a2) reply.header reply.forward reply.backward some_hop sized'
            count' opened2 in
        rw (t0, (==_iff (onion_size b p d.arrived) (onion_size b p onion)).1 size0)
          (rw (t1, t2)
            (rw
              (
                (==_iff (onion_size b p reply) (onion_size b p onion)).1 (replied_size ∙ sym first),
                t3,
              )
              (rw
                ((==_iff (onion_size b p returned) (onion_size b p onion)).1
                  (size3 ∙ replied_size ∙ sym first))
                refl)))

    -- With ten addresses or more, all of nodes in the key store that can decrypt what is encrypted for
    -- them and whose private keys are at hand (and symmetric keys shorter than 2^32),
    -- `test_reply_same_size` and `test_size_independent_of_path` pass in every state of the generator.
    pub sizes_pass :
        (a0 a1 a2 a3 : Address) (rest : List Address) (r : p.Rng)
        → p.symmetric_key_length < 2 ^ 32
        → 6 ≤ length rest
        → All (IsMember b p hb hp pki private_keys sk pk) (a0 ∷ a1 ∷ a2 ∷ a3 ∷ rest)
        → (r1 r2 : p.Rng) × (reply_same_size b p pki private_keys (a0 ∷ a1 ∷ a2 ∷ a3 ∷ rest) r
            ≡ ok (tt, r1))
          × (size_independent_of_path b p pki private_keys (a0 ∷ a1 ∷ a2 ∷ a3 ∷ rest) r
              ≡ ok (tt, r2))
    unfolding reply_same_size size_independent_of_path Format.new
    sizes_pass a0 a1 a2 a3 rest r short enough members =
        let as' = a0 ∷ a1 ∷ a2 ∷ a3 ∷ rest in
        let f = Format.new p pki 10 in
        let (onion, response, r1, run, d) =
          formed_between b p hb hp pki private_keys sk pk a0 a1 a2 a3 rest members r short in
        let (o1, x1, s1, run1, d1) =
          formed_lem b p hb hp 10 0 1 1 2 0 0 pki private_keys sk pk as' r short (omega arith)
            (omega arith) (omega arith) refl refl (omega arith) (omega arith) (omega arith)
            (omega arith) members in
        let (o2, x2, s2, run2, d2) =
          formed_lem b p hb hp 10 0 5 5 10 4 4 pki private_keys sk pk as' s1 short (omega arith)
            (omega arith) (omega arith) refl refl (omega arith) (omega arith) (omega arith)
            (omega arith) members in
        let (o3, x3, s3, run3, d3) =
          formed_lem b p hb hp 10 0 1 2 7 0 4 pki private_keys sk pk as' s2 short (omega arith)
            (omega arith) (omega arith) refl refl (omega arith) (omega arith) (omega arith)
            (omega arith) members in
        let (o4, x4, s4, run4, d4) =
          formed_lem b p hb hp 10 0 5 5 6 4 0 pki private_keys sk pk as' s3 short (omega arith)
            (omega arith) (omega arith) refl refl (omega arith) (omega arith) (omega arith)
            (omega arith) members in
        let size1 = size-IsDelivered b p hb hp f sk _ _ 0 0 payload o1 x1 d1 in
        let same = λ (o : Onion p) (e : onion_size b p o ≡ size_for b p hb hp f (length payload)).
          (==_iff (onion_size b p o1) (onion_size b p o)).1 (size1 ∙ sym e) in
        (
          r1,
          s4,
          run_bind (formed b p 2 0 2 2 4 pki as') _ r run
              ∙ ap (λ o. lift o r1)
                  (same_size_trip-ok (Format.new p pki 2) a0 a1 a2 a3 rest onion response
                    (omega arith) members d),
          run_bind (formed b p 10 0 1 1 2 pki as') _ r run1
              ∙ run_bind (formed b p 10 0 5 5 10 pki as') _ s1 run2
              ∙ run_bind (formed b p 10 0 1 2 7 pki as') _ s2 run3
              ∙ run_bind (formed b p 10 0 5 5 6 pki as') _ s3 run4
              ∙ rw
                  (
                    same o2 (size-IsDelivered b p hb hp f sk _ _ 4 4 payload o2 x2 d2),
                    same o3 (size-IsDelivered b p hb hp f sk _ _ 0 4 payload o3 x3 d3),
                    same o4 (size-IsDelivered b p hb hp f sk _ _ 4 0 payload o4 x4 d4),
                  )
                  refl,
        )
