-- ===== src/Scenario/Sizes/Same.antt =====
-- The size of an onion: fixed by the format and the length of the payload, on the whole way and for
-- the reply.
use eror.Prelude.{
  ℕ, zero, suc, ◌+◌, ◌*◌, ◌<◌, ◌^◌, ◌≡◌, sym, ap, ◌∙◌, subst, List, [], ◌∷◌, length, length-map,
  All, arith,
}
use eror.Prelude.Outcome.{ok}
use eror.Bytes.{Byte}
use eror.Serde.{Bincode, IsBincode, IsSmall}
use eror.Primitives.{Primitives, IsPrimitives, KeyRole, sym_enc}
use eror.Pki.{Address}
use eror.Onion.{Meta, Header, raw, Onion}
use eror.Onion.Serialize.{size-onion}
use eror.Format.{OnionFormat, total_header_length, single_header_length, ae_enc, nonce_ae}
use eror.Layer.{unwrap}
use eror.Layer.Headers.{header_bytes, header_bytes-raw}
use eror.Layer.Sizes.{AreSized, unwrap_size}
use eror.Onionize.Fresh.{header_bytes-IsFresh}
use eror.Process.{ExpectedResponse, form_onion}
use eror.Process.Route.{hop_at, owner, IsReachable}
use eror.Process.Way.{Way, unwrap_forward_length}
use eror.Process.Delivery.{IsDelivered, form_onion_delivers}
use eror.Process.Delivered.{replied}
use eror.Scenario.{payload}
use eror.Scenario.Steps.{onion_size}

module _ (b : Bincode) (p : Primitives) (hb : IsBincode b) (hp : IsPrimitives p) where
  -- The headers, the forward part with the message, and the backward part with its tag.
  pub size_for : OnionFormat p → ℕ → ℕ
  size_for f n =
      (8 + f.max_path_length * (8 + single_header_length p))
      + (8 + (total_header_length p f + 8 + n))
      + (8 + n + 16)

  module _ (f : OnionFormat p) where
    sized_onion :
        (onion : Onion p) (forward_length backward_length : ℕ)
        → AreSized b p hb hp (header_bytes b p onion.header)
        → length onion.header ≡ f.max_path_length
        → length onion.forward ≡ forward_length
        → length onion.backward.0 ≡ backward_length
        → onion_size b p onion
          ≡ (8 + f.max_path_length * (8 + single_header_length p))
            + (8 + forward_length)
            + (8 + backward_length + 16)
    unfolding onion_size
    sized_onion onion forward_length backward_length sized count lf lb = omega (
      arith,
      size-onion b p hb hp onion (single_header_length p) sized,
      ap (λ (n : ℕ). n * (8 + single_header_length p)) count,
      lf,
      lb,
    )

    -- A hop keeps the size.
    pub hop_size :
        (sk : p.PrivateKey) (hs : List (Header p)) (forward : List Byte)
        (backward : List Byte × p.Tag) {key : p.SymmetricKey} {meta : Meta} {onion' : Onion p}
        → 0 < f.max_path_length
        → AreSized b p hb hp (header_bytes b p hs)
        → length hs ≡ f.max_path_length
        → unwrap b p f sk (record { header = hs; forward = forward; backward = backward })
          ≡ ok (key, meta, onion')
        → onion_size b p onion'
          ≡ onion_size b p (record { header = hs; forward = forward; backward = backward })
    unfolding onion_size
    hop_size sk [] forward backward some_hop sized count e = absurd (omega arith)
    hop_size sk (x ∷ rest) forward backward some_hop sized count e =
        unwrap_size b p hb hp f sk x rest forward backward (sym count) sized e

  module _ (f : OnionFormat p) (sk : Address → p.PrivateKey)
      (hops_forward hops_backward : List Address) (n m : ℕ) (payload : List Byte) (onion : Onion p)
      (response : ExpectedResponse p)
      (d : IsDelivered b p hb hp f sk hops_forward hops_backward n m payload onion response) where
    pub size-IsDelivered : onion_size b p onion ≡ size_for f (length payload)
    unfolding size_for
    size-IsDelivered =
        let (sized, count) = header_bytes-IsFresh b p hb hp f onion.header d.fresh in
        sized_onion f onion (total_header_length p f + 8 + length payload) (length payload) sized
          count d.forward_length d.backward_length

    -- Every hop of a way keeps the length of the forward part.
    way_forward :
        (hops : List Address) (i : ℕ) (start arrived : Onion p)
        → Way b p f (owner sk hops) (hop_at hops) i start arrived
        → length arrived.forward ≡ length start.forward
    unfolding Way
    way_forward hops zero start arrived way = ap (λ (o : Onion p). length o.forward) (sym way)
    way_forward hops (suc i) start arrived (mid, key, way, e) =
        unwrap_forward_length b p hb hp f (owner sk hops i) mid e ∙ way_forward hops i start mid way

    pub reply_header_sizes :
        (reply : List Byte)
        → AreSized b p hb hp (
            header_bytes b p
              (replied b p hb hp f sk hops_forward hops_backward n m payload d reply).header)
          × (length (replied b p hb hp f sk hops_forward hops_backward n m payload d reply).header
              ≡ f.max_path_length)
    reply_header_sizes reply = (
      subst (AreSized b p hb hp) (sym (header_bytes-raw b p d.reply_headers)) d.reply_sized,
      omega (arith, length-map {B = Header p} raw d.reply_headers, d.reply_count),
    )

    -- A reply as long as the payload makes an onion of the same size.
    pub size-replied :
        (reply : List Byte)
        → length reply ≡ length payload
        → onion_size b p (replied b p hb hp f sk hops_forward hops_backward n m payload d reply)
          ≡ size_for f (length payload)
    unfolding size_for ae_enc
    size-replied reply same =
        let (sized, count) = reply_header_sizes reply in
        sized_onion f (replied b p hb hp f sk hops_forward hops_backward n m payload d reply)
          (total_header_length p f + 8 + length payload) (length payload) sized count
          (hp.length-prng (p.derive_key KeyRole.prng d.key) (length d.arrived.forward)
            ∙ way_forward hops_forward n onion d.arrived d.forth
            ∙ d.forward_length)
          (hp.length-encrypt (p.derive_key sym_enc d.key) nonce_ae reply ∙ same)

  -- Under the conditions of `form_onion_delivers`, the serialised onion of `form_onion` has a size
  -- that depends on the longest path of the format and on the length of the payload alone, and not
  -- on the paths, the keys or the state of the generator.
  pub form_onion_size :
      (f : OnionFormat p) (sk : Address → p.PrivateKey) (pk : Address → p.PublicKey)
      (hops_forward hops_backward : List Address) (payload : List Byte) (n m : ℕ) (r : p.Rng)
      → p.symmetric_key_length < 2 ^ 32
      → f.max_path_length < 2 ^ 32
      → IsSmall payload
      → length hops_forward ≡ suc n
      → length hops_backward ≡ suc m
      → n < f.max_path_length
      → m < f.max_path_length
      → All (IsReachable b p hb hp f sk pk) hops_forward
      → All (IsReachable b p hb hp f sk pk) hops_backward
      → (onion : Onion p) × (response : ExpectedResponse p) × (r' : p.Rng) × (form_onion b p f
            hops_forward hops_backward payload r
          ≡ ok ((onion, response), r'))
        × (onion_size b p onion ≡ size_for f (length payload))
  form_onion_size f sk pk hops_forward hops_backward payload n m r short max small lf lb hn hm
        reach_f reach_b =
      let (onion, response, r', run, d) =
        form_onion_delivers b p hb hp f sk pk hops_forward hops_backward payload n m r short max
          small lf lb hn hm reach_f reach_b in
      (
        onion,
        response,
        r',
        run,
        size-IsDelivered f sk hops_forward hops_backward n m payload onion response d,
      )
