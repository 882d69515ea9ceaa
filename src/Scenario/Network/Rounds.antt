-- ===== src/Scenario/Network/Rounds.antt =====
-- The loop of examples/create_onion.rs ends: after one round for each hop, with the payload at the
-- receiver and the reply at the sender.
use eror.Prelude.{
  ℕ, zero, suc, ◌+◌, ◌<◌, ◌≡◌, refl, sym, ap, ◌∙◌, List, [], ◌∷◌, ◌++◌, append_assoc, append-nil,
  map, some, length, length-map, All, arith,
}
use eror.Prelude.Outcome.{ok, or_panic}
use eror.Prelude.Index.{index-get_or, index-map}
use eror.Bytes.{Byte, zero_array}
use eror.Serde.{Bincode, IsBincode}
use eror.Primitives.{Primitives, IsPrimitives}
use eror.Pki.{Address}
use eror.Onion.{Onion}
use eror.Format.{OnionFormat}
use eror.Onionize.Chain.{upto}
use eror.Onionize.Payloads.{list-upto}
use eror.Process.{hop, receiver, sender, ExpectedResponse, proc_onion, reply_onion}
use eror.Process.Route.{hop_at, owner, All-get_or}
use eror.Process.Way.{Way, proc_hop}
use eror.Process.Return.{expects}
use eror.Process.Delivery.{IsDelivered}
use eror.Process.Delivered.{receives, replies, replied, sends_back, expects_found}
use eror.Scenario.{key_of, HasKey}
use eror.Scenario.Network.{Line, simulating, receiver_received, sender_received, simulate}

module _ {K : Type 0} where
  pub key_of-HasKey :
      (private_keys : List (Address × K)) (sk : Address → K) (hops : List Address) (i : ℕ)
      → All (HasKey private_keys sk) hops
      → i < length hops
      → key_of private_keys (hop_at hops i) ≡ ok (owner sk hops i)
  unfolding key_of
  key_of-HasKey private_keys sk hops i all h =
      ap or_panic (All-get_or (HasKey private_keys sk) hops i (zero_array 32) all h)

-- The lines of the nodes of a path.
pub visits : List Address → List Line
visits hops = map simulating hops

pub visits-upto :
    (hops : List Address) (n : ℕ)
    → length hops ≡ suc n
    → visits hops ≡ upto n (λ i. simulating (hop_at hops i)) ++ (simulating (hop_at hops n) ∷ [])
unfolding visits upto
visits-upto hops n l =
    list-upto (map simulating hops) (suc n) (λ i. simulating (hop_at hops i))
      (omega (arith, length-map simulating hops))
      (λ i h. index-map simulating hops i (index-get_or hops i (zero_array 32) (omega arith)))

module _ (b : Bincode) (p : Primitives) where
  module _ (f : OnionFormat p) (private_keys : List (Address × p.PrivateKey))
      (sk : Address → p.PrivateKey) (expected : ExpectedResponse p) (reply : List Byte) where
    -- One round at a hop.
    simulate-hop :
        (fuel : ℕ) (log : List Line) (address next : Address) (onion onion' : Onion p)
        (private_key : p.PrivateKey)
        → key_of private_keys address ≡ ok private_key
        → proc_onion b p f private_key (expects expected.identifier expected.tag) onion
          ≡ ok (hop next onion')
        → simulate b p f private_keys expected reply (suc fuel) log address onion
          ≡ simulate b p f private_keys expected reply fuel
              (log ++ (simulating address ∷ []))
              next
              onion'
    unfolding simulate
    simulate-hop fuel log address next onion onion' private_key e e' = rw (e, e') refl

    -- The rounds of a way.
    simulate_way :
        (hops : List Address) (i fuel : ℕ) (log : List Line) (onion arrived : Onion p)
        → All (HasKey private_keys sk) hops
        → i < length hops
        → Way b p f (owner sk hops) (hop_at hops) i onion arrived
        → simulate b p f private_keys expected reply (i + fuel) log (hop_at hops 0) onion
          ≡ simulate b p f private_keys expected reply fuel
              (log ++ upto i (λ j. simulating (hop_at hops j)))
              (hop_at hops i)
              arrived
    unfolding Way upto
    simulate_way hops zero fuel log onion arrived keys h way =
        ap (λ (k : ℕ). simulate b p f private_keys expected reply k log (hop_at hops 0) onion)
          (omega arith)
        ∙ ap (simulate b p f private_keys expected reply fuel log (hop_at hops 0)) way
        ∙ ap
            (λ (l : List Line).
              simulate b p f private_keys expected reply fuel l (hop_at hops 0) arrived)
            (sym (append-nil log))
    simulate_way hops (suc i) fuel log onion arrived keys h (mid, key, way, e) =
        let seen = upto i (λ j. simulating (hop_at hops j)) in
        ap (λ (k : ℕ). simulate b p f private_keys expected reply k log (hop_at hops 0) onion)
          (omega arith)
        ∙ simulate_way hops i (suc fuel) log onion mid keys (omega arith) way
        ∙ simulate-hop fuel (log ++ seen) (hop_at hops i) (hop_at hops (suc i)) mid arrived
            (owner sk hops i) (key_of-HasKey private_keys sk hops i keys (omega arith))
            (proc_hop b p f (owner sk hops i) (expects expected.identifier expected.tag) mid arrived
              key (hop_at hops (suc i)) e)
        ∙ ap
            (λ (l : List Line).
              simulate b p f private_keys expected reply fuel l (hop_at hops (suc i)) arrived)
            (append_assoc log seen (simulating (hop_at hops i) ∷ []))

    simulate_receiver :
        (fuel : ℕ) (log : List Line) (address next : Address) (onion onion' : Onion p)
        (private_key : p.PrivateKey) (message : List Byte)
        → key_of private_keys address ≡ ok private_key
        → proc_onion b p f private_key (expects expected.identifier expected.tag) onion
          ≡ ok (receiver message)
        → reply_onion b p f private_key onion reply ≡ ok (onion', next)
        → simulate b p f private_keys expected reply (suc fuel) log address onion
          ≡ simulate b p f private_keys expected reply fuel
              ((log ++ (simulating address ∷ [])) ++ (receiver_received message ∷ []))
              next
              onion'
    unfolding simulate
    simulate_receiver fuel log address next onion onion' private_key message e e' e'' =
        rw (e, e') (rw e'' refl)

    simulate_sender :
        (fuel : ℕ) (log : List Line) (address : Address) (onion : Onion p)
        (private_key : p.PrivateKey) (message : List Byte)
        → key_of private_keys address ≡ ok private_key
        → proc_onion b p f private_key (expects expected.identifier expected.tag) onion
          ≡ ok (sender message)
        → simulate b p f private_keys expected reply (suc fuel) log address onion
          ≡ ok (some ((log ++ (simulating address ∷ [])) ++ (sender_received message ∷ [])))
    unfolding simulate
    simulate_sender fuel log address onion private_key message e e' = rw (e, e') refl

-- What the loop prints: every hop of the forward path and the payload, every hop of the backward path
-- and the reply.
pub story : List Address → List Address → List Byte → List Byte → List Line
story hops_forward hops_backward payload reply =
    ((visits hops_forward ++ (receiver_received payload ∷ [])) ++ visits hops_backward)
    ++ (sender_received reply ∷ [])

module _ (b : Bincode) (p : Primitives) (hb : IsBincode b) (hp : IsPrimitives p) where
  story-eq :
      (hops_forward hops_backward : List Address) (payload reply : List Byte) (log : List Line)
      (n m : ℕ)
      → length hops_forward ≡ suc n
      → length hops_backward ≡ suc m
      → ((((((log ++ upto n (λ j. simulating (hop_at hops_forward j)))
                  ++ (simulating (hop_at hops_forward n) ∷ []))
                ++ (receiver_received payload ∷ []))
              ++ upto m (λ j. simulating (hop_at hops_backward j)))
            ++ (simulating (hop_at hops_backward m) ∷ []))
          ++ (sender_received reply ∷ []))
        ≡ log ++ story hops_forward hops_backward payload reply
  unfolding story
  story-eq hops_forward hops_backward payload reply log n m lf lb =
      rw (visits-upto hops_forward n lf, visits-upto hops_backward m lb) (simp append_assoc)

  -- The loop over a delivered onion ends after as many rounds as the two paths have hops.
  pub simulate-IsDelivered :
      (f : OnionFormat p) (private_keys : List (Address × p.PrivateKey))
      (sk : Address → p.PrivateKey) (hops_forward hops_backward : List Address) (n m : ℕ)
      (payload reply : List Byte) (fuel : ℕ) (log : List Line) (onion : Onion p)
      (response : ExpectedResponse p)
      → length hops_forward ≡ suc n
      → length hops_backward ≡ suc m
      → All (HasKey private_keys sk) hops_forward
      → All (HasKey private_keys sk) hops_backward
      → IsDelivered b p hb hp f sk hops_forward hops_backward n m payload onion response
      → simulate b p f private_keys response reply
          (n + suc (m + suc fuel))
          log
          (hop_at hops_forward 0)
          onion
        ≡ ok (some (log ++ story hops_forward hops_backward payload reply))
  simulate-IsDelivered f private_keys sk hops_forward hops_backward n m payload reply fuel log onion
        response lf lb keys_f keys_b d =
      let expected_tag = expects response.identifier response.tag in
      let (returned, way_back, opens) =
        sends_back b p hb hp f sk hops_forward hops_backward n m payload d reply expected_tag
          (expects_found response.identifier response.tag) in
      let seen = log ++ upto n (λ j. simulating (hop_at hops_forward j)) in
      let seen' =
        (seen ++ (simulating (hop_at hops_forward n) ∷ [])) ++ (receiver_received payload ∷ []) in
      simulate_way b p f private_keys sk response reply hops_forward n (suc (m + suc fuel)) log
        onion d.arrived keys_f (omega arith) d.forth
      ∙ simulate_receiver b p f private_keys sk response reply (m + suc fuel) seen
          (hop_at hops_forward n) (hop_at hops_backward 0) d.arrived
          (replied b p hb hp f sk hops_forward hops_backward n m payload d reply)
          (owner sk hops_forward n) payload
          (key_of-HasKey private_keys sk hops_forward n keys_f (omega arith))
          (receives b p hb hp f sk hops_forward hops_backward n m payload d expected_tag)
          (replies b p hb hp f sk hops_forward hops_backward n m payload d reply)
      ∙ simulate_way b p f private_keys sk response reply hops_backward m (suc fuel) seen' _
          returned keys_b (omega arith) way_back
      ∙ simulate_sender b p f private_keys sk response reply fuel
          (seen' ++ upto m (λ j. simulating (hop_at hops_backward j))) (hop_at hops_backward m)
          returned (owner sk hops_backward m) reply
          (key_of-HasKey private_keys sk hops_backward m keys_b (omega arith)) opens
      ∙ ap (λ (l : List Line). ok (some l))
          (story-eq hops_forward hops_backward payload reply log n m lf lb)
