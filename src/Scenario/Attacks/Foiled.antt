-- ===== src/Scenario/Attacks/Foiled.antt =====
-- A flipped bit in a header or in the forward payload is noticed, unless the MAC collides.
use eror.Prelude.{
  suc, ◌+◌, ◌<◌, ◌^◌, ◌≡◌, ◌≢◌, refl, sym, ap, ◌∙◌, subst, inl, inr, ◌⊎◌, List, [], ◌∷◌, map,
  length, All, All-imp, arith,
}
use eror.Prelude.Outcome.{Outcome, ok}
use eror.Prelude.Rand
use eror.Prelude.Rand.{run_bind, run_lift, lift}
use eror.Bytes.{Byte}
use eror.Serde.{Bincode, IsBincode, IsSmall}
use eror.Primitives.{Primitives, IsPrimitives}
use eror.Pki.{Address, Pki}
use eror.Onion.{Meta, HeaderBlock, Header, raw, parsed, Onion, into_bytes, force_pack}
use eror.Format
use eror.Format.{OnionFormat, single_header_length, total_header_length}
use eror.Layer.{unwrap}
use eror.Layer.Sizes.{AreSized}
use eror.Layer.Tamper.{AreSmall}
use eror.Process.{ExpectedResponse}
use eror.Process.Route.{hop_at}
use eror.Process.Way.{Way}
use eror.Scenario.{payload, key_at}
use eror.Scenario.Members.{IsMember}
use eror.Scenario.Formed.{formed}
use eror.Scenario.Between.{formed_between}
use eror.Scenario.Steps.{key_at-HasKey}
use eror.Scenario.Attacks.{
  tag_header, tag_forward, refused_by, header_tagging_foiled, forward_tagging_foiled,
}
use eror.Scenario.Attacks.Tagged.{flip_first-ok, Collides, foiled}

module _ (b : Bincode) (p : Primitives) (hb : IsBincode b) (hp : IsPrimitives p) where
  sized-IsSmall :
      p.symmetric_key_length < 2 ^ 32
      → (hs : List (List Byte)) → AreSized b p hb hp hs
      → All IsSmall hs
  unfolding single_header_length
  sized-IsSmall short hs sized = All-imp (λ h e. omega (arith, short)) hs sized

  tag_header-ok :
      (onion : Onion p) (block : HeaderBlock p) (bytes : List Byte) (rest : List (List Byte))
      → onion.header ≡ parsed block ∷ raw bytes ∷ map raw rest
      → 0 < length bytes
      → (flipped : List Byte) × (tag_header b p onion
          ≡ ok (record onion { header = parsed block ∷ map raw (flipped ∷ rest) }))
        × (flipped ≢ bytes)
        × (length flipped ≡ length bytes)
  unfolding tag_header into_bytes force_pack
  tag_header-ok onion block bytes rest shape some_byte =
      let (flipped, run, differs, same) = flip_first-ok bytes some_byte in
      (flipped, rw shape (rw run refl), differs, same)

  tag_forward-ok :
      (onion : Onion p)
      → 0 < length onion.forward
      → (flipped : List Byte) × (tag_forward b p onion ≡ ok (record onion { forward = flipped }))
        × (flipped ≢ onion.forward)
        × (length flipped ≡ length onion.forward)
  unfolding tag_forward
  tag_forward-ok onion some_byte =
      let (flipped, run, differs, same) = flip_first-ok onion.forward some_byte in
      (flipped, rw run refl, differs, same)

  -- The outcome of a tagging test, from what the tagged onion comes to.
  tagged_run :
      (pki : Pki p.PublicKey) (private_keys : List (Address × p.PrivateKey))
      (addresses : List Address) (r : p.Rng) (tagging : Onion p → Outcome (Onion p))
      {onion tagged : Onion p} {response : ExpectedResponse p} {r' : p.Rng}
      → formed b p 2 0 2 2 4 pki addresses r ≡ ok ((onion, response), r')
      → tagging onion ≡ ok tagged
      → refused_by b p (Format.new p pki 2) private_keys addresses 0 tagged ≡ ok tt
      → Rand.◌>>=◌
          (formed b p 2 0 2 2 4 pki addresses)
          (λ x.
            Rand.◌>>=◌
              (lift (tagging x.0))
              λ tagged. lift (refused_by b p (Format.new p pki 2) private_keys addresses 0 tagged))
          r
        ≡ ok (tt, r')
  tagged_run pki private_keys addresses r tagging {onion} {r'} run tags refused =
      run_bind (formed b p 2 0 2 2 4 pki addresses) _ r run
      ∙ run_lift (tagging onion) _ r' tags
      ∙ ap (λ o. lift o r') refused

  module _ (pki : Pki p.PublicKey) (private_keys : List (Address × p.PrivateKey))
      (sk : Address → p.PrivateKey) (pk : Address → p.PublicKey) where
    abbrev two : OnionFormat p
    two = Format.new p pki 2

    short_forward :
        p.symmetric_key_length < 2 ^ 32 → total_header_length p two + 8 + length payload < 2 ^ 64
    unfolding total_header_length single_header_length Format.new
    short_forward short = omega (arith, short)

    -- The two changed onions, each refused or with a collision.
    taggings_lem :
        (addresses : List Address) (onion : Onion p) (block : HeaderBlock p)
        (rest : List (List Byte)) {key : p.SymmetricKey} {meta : Meta} {inside : Onion p}
        → p.symmetric_key_length < 2 ^ 32
        → key_at private_keys addresses 0 ≡ ok (sk (hop_at addresses 0))
        → unwrap b p two (sk (hop_at addresses 0)) onion ≡ ok (key, meta, inside)
        → onion.header ≡ parsed block ∷ map raw rest
        → length block.body ≡ p.symmetric_key_length + 76
        → 2 ≡ suc (length rest)
        → AreSized b p hb hp rest
        → length onion.forward ≡ total_header_length p two + 8 + length payload
        → (tagged_header tagged_forward : Onion p) × (tag_header b p onion ≡ ok tagged_header)
          × (tag_forward b p onion ≡ ok tagged_forward)
          × ((refused_by b p two private_keys addresses 0 tagged_header ≡ ok tt)
              ⊎ Collides b p two (sk (hop_at addresses 0)) onion tagged_header)
          × ((refused_by b p two private_keys addresses 0 tagged_forward ≡ ok tt)
              ⊎ Collides b p two (sk (hop_at addresses 0)) onion tagged_forward)
    unfolding single_header_length
    taggings_lem addresses onion block [] short has_key e shape body count sized l =
        absurd (omega arith)
    taggings_lem addresses onion block (bytes ∷ rest) short has_key e shape body count sized l =
        let (flipped, run, differs, same) =
          tag_header-ok onion block bytes rest shape (omega (arith, sized.0)) in
        let (forward, run', differs', same') = tag_forward-ok onion (omega (arith, l)) in
        let small : AreSmall b p hb hp (bytes ∷ rest) =
          (sized-IsSmall short (bytes ∷ rest) sized, omega arith) in
        let small' : AreSmall b p hb hp (flipped ∷ rest) =
          (sized-IsSmall short (flipped ∷ rest) (same ∙ sized.0, sized.1), omega arith) in
        let small_f : IsSmall onion.forward = omega (arith, l, short_forward short) in
        let small_f' : IsSmall forward = omega (arith, same', l, short_forward short) in
        (
          record onion { header = parsed block ∷ map raw (flipped ∷ rest) },
          record onion { forward = forward },
          run,
          run',
          foiled b p hb hp two private_keys addresses (sk (hop_at addresses 0)) has_key onion block
              (bytes ∷ rest) short shape body (flipped ∷ rest) onion.forward e small small' small_f
              small_f (inl (λ same_list. differs (cons-head-list same_list))),
          subst
              (λ (hs : List (Header p)).
                (refused_by b p two private_keys addresses 0
                    (record onion { header = hs; forward = forward })
                  ≡ ok tt)
                ⊎ Collides b p two (sk (hop_at addresses 0)) onion
                    (record onion { header = hs; forward = forward }))
              (sym shape)
              (foiled b p hb hp two private_keys addresses (sk (hop_at addresses 0)) has_key onion
                block (bytes ∷ rest) short shape body (bytes ∷ rest) forward e small small small_f
                small_f' (inr differs')),
        )
      where
        cons-head-list : {x y : List Byte} {xs ys : List (List Byte)} → (x ∷ xs) ≡ (y ∷ ys) → x ≡ y
        cons-head-list e = cc

    or_collides : {A B C : Type 0} → (A → B) → A ⊎ C → B ⊎ C
    or_collides g (inl a) = inl (g a)
    or_collides g (inr c) = inr c

    -- With four addresses or more, all of nodes in the key store that can decrypt what is encrypted
    -- for them and whose private keys are at hand (and symmetric keys shorter than 2^32), in every
    -- state of the generator: `test_header_tagging_foiled` passes, or the flipped header gives the
    -- first layer other data with the same tag; and `test_forward_payload_tagging_foiled` passes, or
    -- the flipped payload does.
    pub taggings_foiled :
        (a0 a1 a2 a3 : Address) (rest : List Address) (r : p.Rng)
        → p.symmetric_key_length < 2 ^ 32
        → All (IsMember b p hb hp pki private_keys sk pk) (a0 ∷ a1 ∷ a2 ∷ a3 ∷ rest)
        → let addresses = a0 ∷ a1 ∷ a2 ∷ a3 ∷ rest in
          (onion tagged_header tagged_forward : Onion p) × (response : ExpectedResponse p)
          × (r' : p.Rng) × (formed b p 2 0 2 2 4 pki addresses r ≡ ok ((onion, response), r'))
          × (tag_header b p onion ≡ ok tagged_header)
          × (tag_forward b p onion ≡ ok tagged_forward)
          × ((header_tagging_foiled b p pki private_keys addresses r ≡ ok (tt, r'))
              ⊎ Collides b p two (sk a0) onion tagged_header)
          × ((forward_tagging_foiled b p pki private_keys addresses r ≡ ok (tt, r'))
              ⊎ Collides b p two (sk a0) onion tagged_forward)
    unfolding header_tagging_foiled forward_tagging_foiled Way Format.new
    taggings_foiled a0 a1 a2 a3 rest r short members =
        let addresses = a0 ∷ a1 ∷ a2 ∷ a3 ∷ rest in
        let (onion, response, r', run, d) =
          formed_between b p hb hp pki private_keys sk pk a0 a1 a2 a3 rest members r short in
        let (start, k0, same, e0) = d.forth in
        let (tagged_header, tagged_forward, run_h, run_f, header, forward) =
          taggings_lem addresses onion d.fresh.block d.fresh.rest short
            (key_at-HasKey private_keys sk addresses 0 a0 refl members.0.2)
            (ap (unwrap b p two (sk a0)) same ∙ e0) d.fresh.shape d.fresh.body_length d.fresh.count
            d.fresh.sized d.forward_length in
        (
          onion,
          tagged_header,
          tagged_forward,
          response,
          r',
          run,
          run_h,
          run_f,
          or_collides (tagged_run pki private_keys addresses r (tag_header b p) run run_h) header,
          or_collides (tagged_run pki private_keys addresses r (tag_forward b p) run run_f) forward,
        )
