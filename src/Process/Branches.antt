-- ===== src/Process/Branches.antt =====
-- The branches of `proc_onion` and `reply_onion`, and the paths that `form_onion` turns down.
use eror.Prelude.{
  ℕ, zero, suc, ◌<◌, ◌≡◌, ◌⊎◌, refl, sym, ap, ◌∙◌, ◌%◌, ◌-◌, ◌^◌, take, subst, List, none, some,
  Option, length, arith, true, false, leb, ◌&&◌,
}
use eror.Prelude.Outcome.{
  ok, err, path_too_long, not_the_receiver, unexpected_reply, ae_error, Error, minus_one, or_err,
  require, >>=-eq-ok, require-eq-ok, ok-injective,
}
use eror.Bytes.{Byte}
use eror.Serde.{Bincode, deserialize}
use eror.Primitives.{Primitives, KeyRole}
use eror.Pki.{Address}
use eror.Onion.{Role, Meta, Header, Onion, packed_header}
use eror.Format.{OnionFormat, ae_enc, ae_dec}
use eror.Layer.{unwrap}
use eror.Process.{
  lengths_codec, wrap_backward, ProcessedOnion, hop, receiver, sender, is_receiver, message_codec,
  split_reply_header, reply_onion, form_onion, dispatch, open_reply, proc_onion,
  proc_onion_without_reply,
}

is_receiver_sound : (r : Role) → is_receiver r ≡ true → r ≡ Role.receiver
unfolding is_receiver
is_receiver_sound Role.receiver h = refl
is_receiver_sound Role.hop h = cc
is_receiver_sound Role.sender h = cc

too_long : (n m max : ℕ) → (max < n) ⊎ (max < m) → (leb n max && leb m max) ≡ false
too_long n m max h = ground arith

module _ (b : Bincode) (p : Primitives) where
  -- `form_onion` refuses with `PathTooLong` if either path has more hops than the format allows.
  pub form_onion_too_long :
      (f : OnionFormat p) (hops_forward hops_backward : List Address) (payload : List Byte)
      (r : p.Rng)
      → (f.max_path_length < length hops_forward) ⊎ (f.max_path_length < length hops_backward)
      → form_onion b p f hops_forward hops_backward payload r ≡ err path_too_long
  unfolding form_onion
  form_onion_too_long f hops_forward hops_backward payload r h =
      rw (too_long (length hops_forward) (length hops_backward) f.max_path_length h) refl

  -- What `reply_onion` returns in the end.
  abbrev pub answer :
      p.SymmetricKey → Meta → Onion p → List (Header p) → Onion p → List Byte → Onion p × Address
  answer key meta inside header onion payload = (
    record {
      header = header;
      forward = p.prng_fill (p.derive_key KeyRole.prng key) (length onion.forward);
      backward = ae_enc p key inside.backward.1 payload;
    },
    meta.next,
  )

  -- Where a reply comes from.
  abbrev pub IsAnswer :
      OnionFormat p → p.PrivateKey → Onion p → List Byte → Onion p → Address → Type 0
  IsAnswer f sk onion payload reply next =
      (key : p.SymmetricKey) × (meta : Meta) × (inside : Onion p) × (message : List Byte) × (unwrap
          b p f sk onion
        ≡ ok (key, meta, inside))
      × (meta.role ≡ Role.receiver)
      × (next ≡ meta.next)
      × (deserialize (message_codec b p) inside.forward ≡ ok (reply.header, message))
      × (reply.forward ≡ p.prng_fill (p.derive_key KeyRole.prng key) (length onion.forward))
      × (reply.backward ≡ ae_enc p key inside.backward.1 payload)

  -- An onion for the receiver, with headers in front of its message, gets its reply.
  pub reply_onion-ok :
      (f : OnionFormat p) (sk : p.PrivateKey) (onion inside : Onion p) (payload message : List Byte)
      (key : p.SymmetricKey) (meta : Meta) (hs : List (Header p))
      → unwrap b p f sk onion ≡ ok (key, meta, inside)
      → meta.role ≡ Role.receiver
      → deserialize (message_codec b p) inside.forward ≡ ok (hs, message)
      → reply_onion b p f sk onion payload ≡ ok (answer key meta inside hs onion payload)
  unfolding reply_onion split_reply_header is_receiver
  reply_onion-ok f sk onion inside payload message key meta hs e r e' = rw (e, r) (rw e' refl)

  -- `reply_onion` succeeds only on an onion that unwraps to the receiver's meta data. The reply then
  -- has the headers that the sender put in front of its message, a forward payload that
  -- `prng_fill` makes as long as the one that came in, and the answer sealed under the layer's key
  -- for the tag that the backward part carried; it goes to the address in the meta data.
  pub reply_onion_lem :
      (f : OnionFormat p) (sk : p.PrivateKey) (onion : Onion p) (payload : List Byte)
      {reply : Onion p} {next : Address}
      → reply_onion b p f sk onion payload ≡ ok (reply, next)
      → IsAnswer f sk onion payload reply next
  unfolding reply_onion split_reply_header
  reply_onion_lem f sk onion payload {reply} {next} h =
      let (x, e0, h0) = >>=-eq-ok (unwrap b p f sk onion) _ h in
      let (u, e1, h1) = >>=-eq-ok (require (is_receiver x.1.role) not_the_receiver) _ h0 in
      let (y, e2, h2) = >>=-eq-ok (deserialize (message_codec b p) x.2.forward) _ h1 in
      let same : (answer x.0 x.1 x.2 y.0 onion payload) ≡ (reply, next) = ok-injective h2 in
      (
        x.0,
        x.1,
        x.2,
        y.1,
        e0,
        is_receiver_sound x.1.role (require-eq-ok _ not_the_receiver e1),
        ap (λ t. t.1) (sym same),
        e2 ∙ ap (λ (hs : List (Header p)). ok (hs, y.1)) (ap (λ t. t.0.header) same),
        ap (λ t. t.0.forward) (sym same),
        ap (λ t. t.0.backward) (sym same),
      )

  -- Why a payload is taken for a reply: the caller expects a tag for exactly the headers of the
  -- onion, and the backward part, with the layers of the path put on again, decrypts under that tag
  -- and the key of the receiver.
  abbrev pub IsReply :
      (List Byte → Option p.Tag) → p.SymmetricKey → Meta → Onion p → List Byte → Type 0
  IsReply expected_tag master meta onion payload =
      (n_forward n : ℕ) × (tag : p.Tag) × (bwd : List Byte × p.Tag) × (deserialize
          (lengths_codec b p) (take 16 meta.next.bytes)
        ≡ ok (n_forward, suc n))
      × (expected_tag (packed_header b p onion.header) ≡ some tag)
      × (wrap_backward b p n master onion.backward ≡ ok bwd)
      × (ae_dec p (p.derive_key (KeyRole.forward (n_forward % 2 ^ 32 - 1)) master) tag bwd
          ≡ some payload)

  -- Why an onion is processed to a result.
  unfoldable pub IsProcessed :
      OnionFormat p
      → p.PrivateKey
      → (List Byte → Option p.Tag)
      → Onion p
      → ProcessedOnion p
      → Type 0
  IsProcessed f sk expected_tag onion (hop next onion') =
      (key : p.SymmetricKey) × (meta : Meta) × (unwrap b p f sk onion ≡ ok (key, meta, onion'))
      × (meta.role ≡ Role.hop)
      × (next ≡ meta.next)
  IsProcessed f sk expected_tag onion (receiver message) =
      (key : p.SymmetricKey) × (meta : Meta) × (inside : Onion p) × (hs : List (Header p)) × (unwrap
          b p f sk onion
        ≡ ok (key, meta, inside))
      × (meta.role ≡ Role.receiver)
      × (deserialize (message_codec b p) inside.forward ≡ ok (hs, message))
  IsProcessed f sk expected_tag onion (sender payload) =
      (key : p.SymmetricKey) × (meta : Meta) × (inside : Onion p) × (unwrap b p f sk onion
        ≡ ok (key, meta, inside))
      × (meta.role ≡ Role.sender)
      × IsReply expected_tag key meta onion payload

  minus_one-eq-ok : (n : ℕ) {m : ℕ} → minus_one n ≡ ok m → n ≡ suc m
  minus_one-eq-ok zero e = cc
  minus_one-eq-ok (suc n) e = ap suc (ok-injective e)

  or_err-eq-ok : {A : Type 0} (o : Option A) (e : Error) {a : A} → or_err o e ≡ ok a → o ≡ some a
  or_err-eq-ok none e h = cc
  or_err-eq-ok (some x) e h = ap some (ok-injective h)

  sender-injective : {x : List Byte} {y : ProcessedOnion p} → ok (sender x) ≡ ok y → y ≡ sender x
  sender-injective e = sym (ok-injective e)

  -- `open_reply` returns nothing but replies.
  open_reply-IsReply :
      (expected_tag : List Byte → Option p.Tag) (master : p.SymmetricKey) (meta : Meta)
      (onion : Onion p) {out : ProcessedOnion p}
      → open_reply b p expected_tag master meta onion ≡ ok out
      → (payload : List Byte) × (out ≡ sender payload)
        × IsReply expected_tag master meta onion payload
  unfolding open_reply
  open_reply-IsReply expected_tag master meta onion h =
      let (n, e0, h0) = >>=-eq-ok (deserialize (lengths_codec b p) (take 16 meta.next.bytes)) _ h in
      let (count, e1, h1) = >>=-eq-ok (minus_one n.1) _ h0 in
      let (bwd, e2, h2) = >>=-eq-ok (wrap_backward b p count master onion.backward) _ h1 in
      let (last, e3, h3) = >>=-eq-ok (minus_one (n.0 % 2 ^ 32)) _ h2 in
      let (tag, e4, h4) =
        >>=-eq-ok (or_err (expected_tag (packed_header b p onion.header)) unexpected_reply) _ h3 in
      let (payload, e5, h5) =
        >>=-eq-ok (or_err (ae_dec p (p.derive_key (KeyRole.forward last) master) tag bwd) ae_error)
          _ h4 in
      let back : last ≡ n.0 % 2 ^ 32 - 1 = omega (arith, minus_one-eq-ok _ e3) in
      (
        payload,
        sender-injective h5,
        (
          n.0,
          count,
          tag,
          bwd,
          e0 ∙ ap (λ (k : ℕ). ok (n.0, k)) (minus_one-eq-ok n.1 e1),
          or_err-eq-ok _ unexpected_reply e4,
          e2,
          ap (λ (k : ℕ). ae_dec p (p.derive_key (KeyRole.forward k) master) tag bwd) (sym back)
              ∙ or_err-eq-ok _ ae_error e5,
        ),
      )

  dispatch_lem :
      (f : OnionFormat p) (sk : p.PrivateKey) (expected_tag : List Byte → Option p.Tag)
      (onion inside : Onion p) (key : p.SymmetricKey) (meta : Meta) (role : Role)
      {out : ProcessedOnion p}
      → unwrap b p f sk onion ≡ ok (key, meta, inside)
      → meta.role ≡ role
      → dispatch b p expected_tag key meta role onion inside ≡ ok out
      → IsProcessed f sk expected_tag onion out
  unfolding dispatch IsProcessed split_reply_header
  dispatch_lem f sk expected_tag onion inside key meta Role.hop e r h =
      subst (IsProcessed f sk expected_tag onion) (ok-injective h) (key, meta, e, r, refl)
  dispatch_lem f sk expected_tag onion inside key meta Role.receiver e r h =
      let (m, e0, h0) = >>=-eq-ok (deserialize (message_codec b p) inside.forward) _ h in
      subst (IsProcessed f sk expected_tag onion) (ok-injective h0)
        (key, meta, inside, m.0, e, r, e0)
  dispatch_lem f sk expected_tag onion inside key meta Role.sender e r h =
      let (payload, same, reply) = open_reply-IsReply expected_tag key meta onion h in
      subst (IsProcessed f sk expected_tag onion) (sym same) (key, meta, inside, e, r, reply)

  -- The role in the meta data chooses the branch.
  pub proc_onion-dispatch :
      (f : OnionFormat p) (sk : p.PrivateKey) (expected_tag : List Byte → Option p.Tag)
      (onion inside : Onion p) (key : p.SymmetricKey) (meta : Meta)
      → unwrap b p f sk onion ≡ ok (key, meta, inside)
      → proc_onion b p f sk expected_tag onion
        ≡ dispatch b p expected_tag key meta meta.role onion inside
  unfolding proc_onion
  proc_onion-dispatch f sk expected_tag onion inside key meta e = rw (e, proc_onion) refl

  -- What `proc_onion` returns has its reason. A hop's result is the unwrapped onion with the address
  -- in its meta data. A receiver's is the message behind the reply headers in the unwrapped forward
  -- payload. A sender's is a payload for which the caller expects a tag under exactly the headers of
  -- the onion, and which decrypts under that tag once the layers of the path are on again. In each
  -- case the onion unwraps and the meta data say that role.
  pub proc_onion-IsProcessed :
      (f : OnionFormat p) (sk : p.PrivateKey) (expected_tag : List Byte → Option p.Tag)
      (onion : Onion p) {out : ProcessedOnion p}
      → proc_onion b p f sk expected_tag onion ≡ ok out
      → IsProcessed f sk expected_tag onion out
  unfolding proc_onion
  proc_onion-IsProcessed f sk expected_tag onion h =
      let (x, e0, h0) = >>=-eq-ok (unwrap b p f sk onion) _ h in
      dispatch_lem f sk expected_tag onion x.2 x.0 x.1 x.1.role e0 refl h0

  -- Without expected tags no payload is ever taken for a reply.
  pub proc_onion_without_reply_no_sender :
      (f : OnionFormat p) (sk : p.PrivateKey) (onion : Onion p) (payload : List Byte)
      → ¬ (proc_onion_without_reply b p f sk onion ≡ ok (sender payload))
  unfolding proc_onion_without_reply IsProcessed
  proc_onion_without_reply_no_sender f sk onion payload h =
      let (_, _, _, _, _, reply) = proc_onion-IsProcessed f sk (λ _. none) onion h in
      let (_, _, _, _, _, expected, _, _) = reply in cc
