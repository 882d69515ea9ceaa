-- ===== src/Scenario/Attacks/Stranger.antt =====
-- A node whose private key is not the one of the first hop refuses the onion, unless what its key
-- makes of the first header happens to have the right tag.
use eror.Prelude.{
  ◌+◌, ◌<◌, ◌^◌, ◌≡◌, refl, sym, ap, ◌∙◌, subst, List, ◌∷◌, ◌⊎◌, inl, inr, some, Bool-cases,
  Option-cases, map, length, drop, get_elem?, All, arith,
}
use eror.Prelude.Outcome.{ok, err, ok-injective, mac_mismatch, serialization_error}
use eror.Prelude.Rand.{run_bind, lift}
use eror.Bytes.{Byte}
use eror.Serde.{Codec, Bincode, IsBincode, deserialize}
use eror.Primitives.{Primitives, IsPrimitives}
use eror.Pki.{Address, Pki}
use eror.Onion.{Meta, HeaderBlock, Header, raw, parsed, Onion, into_parsed}
use eror.Onion.Serialize.{unpack-pack}
use eror.Format
use eror.Format.{OnionFormat}
use eror.Layer.{unwrap, layer_codec}
use eror.Layer.Tamper.{layer_tag, unwrap_checks, unwrap_refuses}
use eror.Onionize.Ciphers.{hop_meta}
use eror.Onionize.Fresh.{IsFresh}
use eror.Process.{ExpectedResponse}
use eror.Scenario.Members.{IsMember}
use eror.Scenario.Formed.{formed}
use eror.Scenario.Between.{formed_between, hop_there}
use eror.Scenario.Steps.{key_at-HasKey}
use eror.Scenario.Attacks.{wrong_key}
use eror.Scenario.Attacks.Tagged.{refuses}

-- Bytes are read or refused.
deserialize-cases :
    {A : Type 0} (c : Codec A) (bs : List Byte)
    → ((a : A) × (deserialize c bs ≡ ok a)) ⊎ (deserialize c bs ≡ err serialization_error)
unfolding deserialize
deserialize-cases c bs = elim (Option-cases (c.read bs)) [
  | inl e ↦ inr (rw (deserialize, e) refl)
  | inr ((a, left), e) ↦ inl (a, rw (deserialize, e) refl)
]

module _ (b : Bincode) (p : Primitives) where
  -- The private key decrypts the data of the first header to something that reads as a key and meta
  -- data, and the tag under that key is the tag under `key`.
  abbrev pub Confuses : p.PrivateKey → p.SymmetricKey → Onion p → Type 0
  Confuses sk key onion =
      (block : HeaderBlock p) × (plain : List Byte) × (key' : p.SymmetricKey) × (meta' : Meta)
      × (get_elem? onion.header 0 ≡ some (parsed block))
      × (p.asymmetric_decrypt sk block.body ≡ ok plain)
      × (deserialize (layer_codec b p) plain ≡ ok (key', meta'))
      × (layer_tag b p key' block.body (drop 1 onion.header) onion.forward
          ≡ layer_tag b p key block.body (drop 1 onion.header) onion.forward)

  -- Data that does not decrypt to a key and meta data is refused like a wrong tag.
  unwrap_unreadable :
      (f : OnionFormat p) (sk : p.PrivateKey) (x : Header p) (rest : List (Header p))
      (fwd plain : List Byte) (bwd : List Byte × p.Tag) (block : HeaderBlock p)
      → into_parsed b p x ≡ ok block
      → p.asymmetric_decrypt sk block.body ≡ ok plain
      → deserialize (layer_codec b p) plain ≡ err serialization_error
      → unwrap b p f sk (record { header = x ∷ rest; forward = fwd; backward = bwd })
        ≡ err mac_mismatch
  unfolding unwrap
  unwrap_unreadable f sk x rest fwd plain bwd block e1 e2 e3 = rw (e1, e2) (rw e3)

module _ (b : Bincode) (p : Primitives) (hb : IsBincode b) (hp : IsPrimitives p) where
  -- Either the node refuses the onion, or it is confused.
  refused_or_confused :
      (f : OnionFormat p) (sk : p.PrivateKey) (key : p.SymmetricKey) (block : HeaderBlock p)
      (rest : List (Header p)) (fwd plain : List Byte) (bwd : List Byte × p.Tag)
      → into_parsed b p (parsed block) ≡ ok block
      → p.asymmetric_decrypt sk block.body ≡ ok plain
      → layer_tag b p key block.body rest fwd ≡ block.tag
      → let onion : Onion p = record {
        header = parsed block ∷ rest;
        forward = fwd;
        backward = bwd;
      } in
        (unwrap b p f sk onion ≡ err mac_mismatch) ⊎ Confuses b p sk key onion
  refused_or_confused f sk key block rest fwd plain bwd is_block opens tagged =
      elim (deserialize-cases (layer_codec b p) plain) [
        | inr e ↦
            inl
              (unwrap_unreadable b p f sk (parsed block) rest fwd plain bwd block is_block opens e)
        | inl ((key', meta'), reads) ↦
            elim (Bool-cases (p.tag_eq (layer_tag b p key' block.body rest fwd) block.tag)) [
              | inl t ↦ inr (
                block,
                plain,
                key',
                meta',
                refl,
                opens,
                reads,
                hp.tag_eq_sound _ _ t ∙ sym tagged,
              )
              | inr t ↦ inl (
                  unwrap_refuses b p f sk (parsed block) rest fwd plain bwd block key' meta'
                    is_block opens reads t)
            ]
      ]

  -- The same for a fresh onion, of which another node knows the real key.
  fresh_refused_or_confused :
      (f : OnionFormat p) (sk sk' : p.PrivateKey) (onion : Onion p) {key : p.SymmetricKey}
      {meta : Meta} {inside : Onion p}
      → p.symmetric_key_length < 2 ^ 32
      → IsFresh b p hb hp f onion.header
      → ((bs : List Byte)
          → length bs ≡ p.symmetric_key_length + 76
          → (plain : List Byte) × (p.asymmetric_decrypt sk' bs ≡ ok plain))
      → unwrap b p f sk onion ≡ ok (key, meta, inside)
      → (unwrap b p f sk' onion ≡ err mac_mismatch) ⊎ Confuses b p sk' key onion
  fresh_refused_or_confused f sk sk' onion {key} short fresh decrypts e =
      let (x, block, plain, at_0, is_block, opens, (reads, tagged, _)) =
        unwrap_checks b p hp f sk onion e in
      let whole = (unpack-pack b p hb hp fresh.block (omega (arith, fresh.body_length, short))).0 in
      let first : some x ≡ some (parsed fresh.block) =
        sym at_0 ∙ ap (λ (hs : List (Header p)). get_elem? hs 0) fresh.shape in
      let same_x : x ≡ parsed fresh.block = cc in
      let same : block ≡ fresh.block =
        ok-injective (sym is_block ∙ ap (into_parsed b p) same_x ∙ whole) in
      let (plain', opens') = decrypts fresh.block.body fresh.body_length in
      subst
        (λ (hs : List (Header p)).
          let onion' : Onion p = record onion { header = hs } in
          (unwrap b p f sk' onion' ≡ err mac_mismatch) ⊎ Confuses b p sk' key onion')
        (sym fresh.shape)
        (refused_or_confused f sk' key fresh.block (map raw fresh.rest) onion.forward plain'
          onion.backward whole opens'
          (ap
              (λ (hs : List (Header p)).
                layer_tag b p key fresh.block.body (drop 1 hs) onion.forward)
              (sym fresh.shape)
            ∙ subst
                (λ (y : HeaderBlock p).
                  layer_tag b p key y.body (drop 1 onion.header) onion.forward ≡ y.tag)
                same tagged))

  -- With four addresses or more, all of nodes in the key store that can decrypt what is encrypted
  -- for them and whose private keys are at hand (and symmetric keys shorter than 2^32), in every
  -- state of the generator, and if decryption with the private key of the second address returns
  -- something for all data of the length of a header's: `test_wrong_key` passes, that is, the second
  -- hop refuses the onion for the first with `MacMismatch`, unless what its key makes of the data of
  -- the first header reads as a key and meta data, and the tag under that key is the one under the key
  -- of the first hop.
  pub wrong_key_refused :
      (pki : Pki p.PublicKey) (private_keys : List (Address × p.PrivateKey))
      (sk : Address → p.PrivateKey) (pk : Address → p.PublicKey) (a0 a1 a2 a3 : Address)
      (rest : List Address) (r : p.Rng)
      → p.symmetric_key_length < 2 ^ 32
      → All (IsMember b p hb hp pki private_keys sk pk) (a0 ∷ a1 ∷ a2 ∷ a3 ∷ rest)
      → ((bs : List Byte)
          → length bs ≡ p.symmetric_key_length + 76
          → (plain : List Byte) × (p.asymmetric_decrypt (sk a1) bs ≡ ok plain))
      → let addresses = a0 ∷ a1 ∷ a2 ∷ a3 ∷ rest in
        (onion arrived : Onion p) × (response : ExpectedResponse p) × (r' : p.Rng)
        × (key : p.SymmetricKey) × (formed b p 2 0 2 2 4 pki addresses r
            ≡ ok ((onion, response), r'))
        × (unwrap b p (Format.new p pki 2) (sk a0) onion ≡ ok (key, hop_meta a1, arrived))
        × ((wrong_key b p pki private_keys addresses r ≡ ok (tt, r'))
            ⊎ Confuses b p (sk a1) key onion)
  unfolding wrong_key Format.new
  wrong_key_refused pki private_keys sk pk a0 a1 a2 a3 rest r short members decrypts =
      let as' = a0 ∷ a1 ∷ a2 ∷ a3 ∷ rest in
      let f = Format.new p pki 2 in
      let (_, (m1, _)) = members in
      let (onion, response, r', run, d) =
        formed_between b p hb hp pki private_keys sk pk a0 a1 a2 a3 rest members r short in
      let (key, opened, _) =
        hop_there b p hb hp pki private_keys sk pk a0 a1 a2 a3 rest members f onion response d in
      (
        onion,
        d.arrived,
        response,
        r',
        key,
        run,
        opened,
        elim (fresh_refused_or_confused f (sk a0) (sk a1) onion short d.fresh decrypts opened) [
          | inl refused ↦ inl (
              run_bind (formed b p 2 0 2 2 4 pki as') _ r run
              ∙ ap (λ o. lift o r')
                  (refuses b p f private_keys as' 1 (sk a1) onion
                    (key_at-HasKey private_keys sk as' 1 a1 refl m1.2) refused))
          | inr confused ↦ inr confused
        ],
      )
