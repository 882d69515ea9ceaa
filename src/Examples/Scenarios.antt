-- ===== src/Examples/Scenarios.antt =====
-- Runs of whole onions with one node that plays every part.
use eror.Prelude.{
  ℕ, zero, suc, ◌≡◌, ◌⊎◌, refl, ap, ◌∙◌, List, [], ◌∷◌, ◌++◌, replicate, take, drop, some, All,
  arith, none, if◌then◌else◌,
}
use eror.Prelude.Outcome.{ok}
use eror.Bytes.Laws.{array_eq_refl}
use eror.Pki
use eror.Pki.{Address, Pki, map_get}
use eror.Pki.Laws.{get-insert}
use eror.Onion.{Onion}
use eror.Format
use eror.Format.{OnionFormat}
use eror.Process.{form_onion, ExpectedResponse}
use eror.Process.Route.{IsReachable}
use eror.Process.{proc_onion, reply_onion}
use eror.Process.Sent.{form_onion_over_wire}
use eror.Process.Limits.{Forms, form_onion_outcome}
use eror.Serde.{deserialize}
use eror.Onion.{onion_codec, onion_eq}
use eror.Format.{total_header_length, single_header_length}
use eror.Prelude.{◌<◌, ◌≤◌, ◌^◌, ◌↔◌, true, Option}
use eror.Prelude.Outcome.{err, path_too_long}
use eror.Process.Delivery.{IsDelivered, form_onion_delivers}
use eror.Scenario.{HasKey}
use eror.Scenario.Members.{IsMember}
use eror.Scenario.Formed.{formed}
use eror.Scenario.Steps.{onion_size}
use eror.Scenario.Network.{
  Line, requesting, simulate, create_onion, long_path_between, final_onion_as_expected,
}
use eror.Scenario.Network.Rounds.{story}
use eror.Scenario.Network.Completes.{
  simulate_completes, create_onion_completes, example_payload, example_reply,
}
use eror.Scenario.Network.Passing.{long_paths_pass}
use eror.Scenario.Trips.{direct, single_between, serialize_deserialize}
use eror.Scenario.Trips.Passing.{trips_pass}
use eror.Scenario.Attacks.{tag_header, tag_forward, header_tagging_foiled, forward_tagging_foiled}
use eror.Scenario.Attacks.{flip_first, backward_tagging, wrong_key}
use eror.Scenario.Attacks.Noticed.{MacCollides, backward_tagging_noticed}
use eror.Scenario.Attacks.Stranger.{Confuses, wrong_key_refused}
use eror.Scenario.Sizes.{onion_for}
use eror.Scenario.Sizes.Generated.{onion_for_size}
use eror.Scenario.Members.{members-IsReachable}
use eror.Scenario.Steps.{through_hop, reply_from}
use eror.Scenario.{reply_payload}
use eror.Format.{ae_enc}
use eror.Layer.{unwrap}
use eror.Onionize.Ciphers.{hop_meta}
use eror.Bytes.{Byte}
use eror.Prelude.{◌+◌, length}
use eror.Primitives.Ec.{ec_primitives}
use eror.Primitives.Ec.Laws.{asymmetric_decrypt-ok}
use eror.Examples.Data.{c, hc, scalar}
use eror.Scenario.Attacks.Tagged.{Collides}
use eror.Scenario.Attacks.Foiled.{taggings_foiled}
use eror.Scenario.Sizes.{size_independent_of_path, reply_same_size}
use eror.Scenario.Sizes.Same.{size_for, form_onion_size}
use eror.Scenario.Sizes.Passing.{sizes_pass}
use eror.Examples.Data.{b, hb, p, hp, secret, public, start, here, key_pair}
use eror.Examples.Journey.{short_key, message}

abbrev pub store : Pki p.PublicKey
store = (Pki.insert Pki.new here public).1

abbrev pub private_keys : List (Address × p.PrivateKey)
private_keys = (here, secret) ∷ []

abbrev sk : Address → p.PrivateKey
sk a = secret

abbrev pk : Address → p.PublicKey
pk a = public

-- The node is in the store and has its key.
member : IsMember b p hb hp store private_keys sk pk here
unfolding map_get
member = (
  (get-insert Pki.new here public).1 here
      ∙ ap (λ t. if t then some public else Pki.get Pki.new here) (array_eq_refl here),
  key_pair,
  ap (λ t. if t then some secret else none) (array_eq_refl here),
)

members : (n : ℕ) → All (IsMember b p hb hp store private_keys sk pk) (replicate n here)
members zero = tt
members (suc n) = (member, members n)

abbrev two_hops : OnionFormat p
two_hops = record { max_path_length = 2; pki = store }

reachable : All (IsReachable b p hb hp two_hops sk pk) (here ∷ here ∷ [])
reachable = ((member.0, member.1), ((member.0, member.1), tt))

have_keys : All (HasKey private_keys sk) (here ∷ here ∷ [])
have_keys = (member.2, (member.2, tt))

form_onion_delivers_example :
    (onion : Onion p) × (response : ExpectedResponse p) × (r' : p.Rng) × (form_onion b p two_hops
        (here ∷ here ∷ [])
        (here ∷ here ∷ [])
        message
        start
      ≡ ok ((onion, response), r'))
    × IsDelivered b p hb hp two_hops sk
        (here ∷ here ∷ [])
        (here ∷ here ∷ [])
        1
        1
        message
        onion
        response
form_onion_delivers_example =
    form_onion_delivers b p hb hp two_hops sk pk (here ∷ here ∷ []) (here ∷ here ∷ []) message 1 1
      start short_key (omega arith) (omega arith) refl refl (omega arith) (omega arith) reachable
      reachable

simulate_completes_example :
    (onion : Onion p) × (response : ExpectedResponse p) × (r' : p.Rng) × (form_onion b p two_hops
        (here ∷ here ∷ [])
        (here ∷ here ∷ [])
        message
        start
      ≡ ok ((onion, response), r'))
    × (simulate b p two_hops private_keys response example_reply 4 [] here onion
        ≡ ok (
            some (
              ◌++◌ {A = Line} []
                (story (here ∷ here ∷ []) (here ∷ here ∷ []) message example_reply))))
simulate_completes_example =
    simulate_completes b p hb hp two_hops private_keys sk pk (here ∷ here ∷ []) (here ∷ here ∷ []) 1
      1 message example_reply 4 [] start short_key (omega arith) (omega arith) refl refl
      (omega arith) (omega arith) reachable reachable have_keys have_keys (omega arith)

abbrev ten : List Address
ten = replicate 10 here

create_onion_completes_example :
    (r' : p.Rng) × (create_onion b p 10 store private_keys ten start
      ≡ ok (
        some (
            requesting (take 5 ten) (take 5 (drop 5 ten))
            ∷ story (take 5 ten) (take 5 (drop 5 ten)) example_payload example_reply),
        r',
      ))
create_onion_completes_example =
    create_onion_completes b p hb hp store private_keys sk pk ten 10 start short_key (omega arith)
      (omega arith) (members 10)

long_paths_pass_example :
    (r' : p.Rng) × (long_path_between b p 20 store private_keys (replicate 20 here) start
      ≡ ok (some tt, r'))
    × (final_onion_as_expected b p 20 store private_keys (replicate 20 here) start
        ≡ ok (some tt, r'))
long_paths_pass_example =
    long_paths_pass b p hb hp store private_keys sk pk (replicate 20 here) 20 start short_key
      (omega arith) (omega arith) (members 20)

trips_pass_example :
    (r1 r2 : p.Rng) × (direct b p store private_keys (here ∷ here ∷ here ∷ here ∷ []) start
      ≡ ok (tt, r1))
    × (serialize_deserialize b p store private_keys (here ∷ here ∷ here ∷ here ∷ []) start
        ≡ ok (tt, r1))
    × (single_between b p store private_keys (here ∷ here ∷ here ∷ here ∷ []) start ≡ ok (tt, r2))
trips_pass_example =
    trips_pass b p hb hp store private_keys sk pk here here here here [] start short_key (members 4)

form_onion_size_example :
    (onion : Onion p) × (response : ExpectedResponse p) × (r' : p.Rng) × (form_onion b p two_hops
        (here ∷ here ∷ [])
        (here ∷ here ∷ [])
        message
        start
      ≡ ok ((onion, response), r'))
    × (onion_size b p onion ≡ size_for b p hb hp two_hops 2)
form_onion_size_example =
    form_onion_size b p hb hp two_hops sk pk (here ∷ here ∷ []) (here ∷ here ∷ []) message 1 1 start
      short_key (omega arith) (omega arith) refl refl (omega arith) (omega arith) reachable
      reachable

sizes_pass_example :
    (r1 r2 : p.Rng) × (reply_same_size b p store private_keys ten start ≡ ok (tt, r1))
    × (size_independent_of_path b p store private_keys ten start ≡ ok (tt, r2))
sizes_pass_example =
    sizes_pass b p hb hp store private_keys sk pk here here here here (replicate 6 here) start
      short_key (omega arith) (members 10)

taggings_foiled_example :
    (onion tagged_header tagged_forward : Onion p) × (response : ExpectedResponse p) × (r' : p.Rng)
    × (formed b p 2 0 2 2 4 store (here ∷ here ∷ here ∷ here ∷ []) start
        ≡ ok ((onion, response), r'))
    × (tag_header b p onion ≡ ok tagged_header)
    × (tag_forward b p onion ≡ ok tagged_forward)
    × ((header_tagging_foiled b p store private_keys (here ∷ here ∷ here ∷ here ∷ []) start
          ≡ ok (tt, r'))
        ⊎ Collides b p (Format.new p store 2) secret onion tagged_header)
    × ((forward_tagging_foiled b p store private_keys (here ∷ here ∷ here ∷ here ∷ []) start
          ≡ ok (tt, r'))
        ⊎ Collides b p (Format.new p store 2) secret onion tagged_forward)
taggings_foiled_example =
    taggings_foiled b p hb hp store private_keys sk pk here here here here [] start short_key
      (members 4)

abbrev four : List Address
four = here ∷ here ∷ here ∷ here ∷ []

backward_tagging_noticed_example :
    (onion arrived reply : Onion p) × (response : ExpectedResponse p) × (r' : p.Rng)
    × (key : p.SymmetricKey) × (flipped : List Byte) × (formed b p 2 0 2 2 4 store four start
        ≡ ok ((onion, response), r'))
    × (through_hop b p (Format.new p store 2) private_keys four 0 onion ≡ ok (here, arrived))
    × (reply_from b p (Format.new p store 2) private_keys four 1 arrived ≡ ok (reply, here))
    × (reply.backward ≡ ae_enc p key response.tag reply_payload)
    × (flip_first reply.backward.0 ≡ ok flipped)
    × ((backward_tagging b p store private_keys four start ≡ ok (tt, r'))
        ⊎ MacCollides b p hb hp key flipped reply.backward.0)
backward_tagging_noticed_example =
    backward_tagging_noticed b p hb hp store private_keys sk pk here here here here [] start
      short_key (members 4)

-- The data of a header is long enough to be decrypted.
decrypts :
    (bs : List Byte)
    → length bs ≡ p.symmetric_key_length + 76
    → (plain : List Byte) × (p.asymmetric_decrypt (sk here) bs ≡ ok plain)
unfolding ec_primitives secret
decrypts bs e = asymmetric_decrypt-ok b c hb hc scalar bs (omega (arith, e))

wrong_key_refused_example :
    (onion arrived : Onion p) × (response : ExpectedResponse p) × (r' : p.Rng)
    × (key : p.SymmetricKey) × (formed b p 2 0 2 2 4 store four start ≡ ok ((onion, response), r'))
    × (unwrap b p (Format.new p store 2) secret onion ≡ ok (key, hop_meta here, arrived))
    × ((wrong_key b p store private_keys four start ≡ ok (tt, r')) ⊎ Confuses b p secret key onion)
wrong_key_refused_example =
    wrong_key_refused b p hb hp store private_keys sk pk here here here here [] start short_key
      (members 4) decrypts

onion_for_size_example :
    (onion : Onion p) × (r' : p.Rng) × (onion_for b p 2 128 store four start ≡ ok (onion, r'))
    × (onion_size b p onion ≡ size_for b p hb hp (Format.new p store 2) 128)
onion_for_size_example =
    onion_for_size b p hb hp store sk pk four 1 128 start short_key (omega arith) (omega arith) refl
      (members-IsReachable b p hb hp store private_keys sk pk 2 four (members 4))

short_onion : total_header_length p two_hops + 8 + length message < 2 ^ 64
unfolding total_header_length single_header_length ec_primitives
short_onion = omega arith

form_onion_over_wire_example :
    (onion sent : Onion p) × (response : ExpectedResponse p) × (r' : p.Rng) × (form_onion b p
        two_hops
        (here ∷ here ∷ [])
        (here ∷ here ∷ [])
        message
        start
      ≡ ok ((onion, response), r'))
    × (deserialize (onion_codec b p) ((onion_codec b p).write onion) ≡ ok sent)
    × (onion_eq b p sent onion ≡ true)
    × ((key : p.PrivateKey) (expected_tag : List Byte → Option p.Tag)
        → proc_onion b p two_hops key expected_tag sent
          ≡ proc_onion b p two_hops key expected_tag onion)
    × ((key : p.PrivateKey) (answer : List Byte)
        → reply_onion b p two_hops key sent answer ≡ reply_onion b p two_hops key onion answer)
form_onion_over_wire_example =
    form_onion_over_wire b p hb hp two_hops sk pk (here ∷ here ∷ []) (here ∷ here ∷ []) message 1 1
      start short_key (omega arith) short_onion refl refl (omega arith) (omega arith) reachable
      reachable

-- The forward path has one hop too many.
form_onion_outcome_example :
    (Forms b p hb hp two_hops sk pk (here ∷ here ∷ here ∷ []) (here ∷ here ∷ []) message start
      ↔ (3 ≤ 2) × (2 ≤ 2))
    × ((form_onion b p two_hops (here ∷ here ∷ here ∷ []) (here ∷ here ∷ []) message start
          ≡ err path_too_long)
        ↔ (2 < 3) ⊎ (2 < 2))
form_onion_outcome_example =
    form_onion_outcome b p hb hp two_hops sk pk (here ∷ here ∷ here ∷ []) (here ∷ here ∷ []) message
      start 2 1 short_key (omega arith) (omega arith) refl refl ((member.0, member.1), reachable)
      reachable
