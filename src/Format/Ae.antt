-- ===== src/Format/Ae.antt =====
-- The authenticated encryption of the backward payload: `ae_enc` and `ae_dec` of the two ends, and
-- `ae_unwrap` and `ae_wrap`, which the hops and the sender apply in turn.
use eror.Prelude.{
  ◌+◌, ◌≡◌, ◌≢◌, ◌⊎◌, ◌↔◌, sym, ap, ◌∙◌, false, List, [], ◌++◌, none, some, length, take, drop,
  arith, length-append, length-take, length-drop, append-nil, take-append-drop, take-append_self,
  drop-append_self, Bool-cases, inl, inr,
}
use eror.Prelude.Outcome.{ok}
use eror.Bytes.{Byte}
use eror.Primitives.{Primitives, IsPrimitives, sym_enc, mac}
use eror.Format.{
  nonce_ae, nonce_bwd, ae_enc, ae_dec, ae_unwrap, ae_wrap, through_buffer, cut_buffer,
}

module _ (p : Primitives) (hp : IsPrimitives p) where
  -- Decryption under the same associated tag returns the payload.
  pub ae_dec-ae_enc :
      (key : p.SymmetricKey) (ad : p.Tag) (payload : List Byte)
      → ae_dec p key ad (ae_enc p key ad payload) ≡ some payload
  unfolding ae_dec ae_enc
  ae_dec-ae_enc key ad payload = rw (hp.tag_eq_refl _) (ap some (hp.decrypt-encrypt _ _ payload))

  -- The tag that `ae_dec` compares with.
  abbrev ae_tag : p.SymmetricKey → p.Tag → List Byte → p.Tag
  ae_tag key ad ciphertext = p.xor_tag (p.tag (p.derive_key mac key) ciphertext) ad

  -- `ae_dec` returns something exactly when the tag is right.
  ae_dec_refuses :
      (key : p.SymmetricKey) (ad : p.Tag) (bwd : List Byte × p.Tag)
      → p.tag_eq (ae_tag key ad bwd.0) bwd.1 ≡ false
      → ae_dec p key ad bwd ≡ none
  unfolding ae_dec
  ae_dec_refuses key ad bwd e = rw e

  -- `ae_dec` refuses what `ae_enc` has sealed, with the same key, under exactly the associated tags that
  -- are not the one of `ae_enc`.
  pub ae_dec-ae_enc_iff :
      (key : p.SymmetricKey) (ad ad' : p.Tag) (payload : List Byte)
      → (ae_dec p key ad' (ae_enc p key ad payload) ≡ none) ↔ (ad' ≢ ad)
  unfolding ae_enc
  ae_dec-ae_enc_iff key ad ad' payload = (
    λ refused same. cc (refused, same, ae_dec-ae_enc key ad payload),
    λ differs. elim (Bool-cases (p.tag_eq (ae_tag key ad' c) (ae_tag key ad c))) [
      | inl e ↦ absurd (differs (hp.xor_tag-cancel ad' ad _ (hp.tag_eq_sound _ _ e)))
      | inr e ↦ ae_dec_refuses key ad' _ e
    ],
  )
    where
      c : List Byte
      c = p.symmetric_encrypt (p.derive_key sym_enc key) nonce_ae payload

  -- Another ciphertext under the tag of the encryption is refused, unless the MAC collides.
  pub ae_dec_changed :
      (key : p.SymmetricKey) (ad : p.Tag) (payload changed : List Byte)
      → (ae_dec p key ad (changed, (ae_enc p key ad payload).1) ≡ none)
        ⊎ (p.tag (p.derive_key mac key) changed
            ≡ p.tag (p.derive_key mac key) (ae_enc p key ad payload).0)
  unfolding ae_enc
  ae_dec_changed key ad payload changed = elim (Bool-cases (p.tag_eq (ae_tag key ad changed) t)) [
    | inl e ↦ inr (
        hp.xor_tag-cancel _ _ ad
          (hp.xor_tag_comm ad _ ∙ hp.tag_eq_sound _ _ e ∙ hp.xor_tag_comm _ ad))
    | inr e ↦ inl (ae_dec_refuses key ad _ e)
  ]
    where
      t : p.Tag
      t = ae_tag key ad (p.symmetric_encrypt (p.derive_key sym_enc key) nonce_ae payload)

  abbrev buffer_of : List Byte × p.Tag → List Byte
  buffer_of bwd = p.tag_codec.write bwd.1 ++ bwd.0

  read-tag_all : (t : p.Tag) → p.tag_codec.read (p.tag_codec.write t) ≡ some (t, [])
  read-tag_all t = ap p.tag_codec.read (sym (append-nil _)) ∙ hp.read-tag t [] tt

  cut_buffer-buffer_of :
      (out : List Byte × p.Tag)
      → cut_buffer p (length (p.tag_codec.write out.1)) (buffer_of out) ≡ ok out
  unfolding cut_buffer
  cut_buffer-buffer_of out =
      rw (take-append_self (p.tag_codec.write out.1) out.0, read-tag_all out.1, cut_buffer)
        (ap (λ (d : List Byte). ok (d, out.1)) (drop-append_self (p.tag_codec.write out.1) out.0))

  -- The cut finds the tag and the bytes of which the changed buffer is made.
  through_buffer_eq :
      (cipher : List Byte → List Byte) (bwd out : List Byte × p.Tag)
      → cipher (buffer_of bwd) ≡ buffer_of out
      → through_buffer p cipher bwd ≡ ok out
  unfolding through_buffer
  through_buffer_eq cipher bwd out e =
      let same : length (p.tag_codec.write bwd.1) ≡ length (p.tag_codec.write out.1) =
        hp.size-tag bwd.1 ∙ sym (hp.size-tag out.1) in
      ap (cut_buffer p (length (p.tag_codec.write bwd.1))) e ∙ rw same (cut_buffer-buffer_of out)

  -- Every buffer of the right length is made of a tag and bytes.
  split_buffer :
      (bwd : List Byte × p.Tag) (bs : List Byte)
      → length bs ≡ length (buffer_of bwd)
      → (out : List Byte × p.Tag) × (bs ≡ buffer_of out) × (length out.0 ≡ length bwd.0)
  split_buffer bwd bs e =
      let total : length bs ≡ 16 + length bwd.0 =
        e ∙ omega (arith, length-append (p.tag_codec.write bwd.1) bwd.0, hp.size-tag bwd.1) in
      let (t, et) = hp.tag_of_bytes (take 16 bs) (omega (arith, length-take 16 bs)) in
      (
        (drop 16 bs, t),
        sym (take-append-drop 16 bs) ∙ ap (λ (x : List Byte). x ++ drop 16 bs) (sym et),
        omega (arith, length-drop 16 bs),
      )

  -- `ae_unwrap` returns a tag and bytes of the same length, and `ae_wrap` undoes it.
  pub ae_wrap-ae_unwrap :
      (key : p.SymmetricKey) (bwd : List Byte × p.Tag)
      → (out : List Byte × p.Tag) × (ae_unwrap p key bwd ≡ ok out)
        × (ae_wrap p key out ≡ ok bwd)
        × (length out.0 ≡ length bwd.0)
  unfolding ae_unwrap ae_wrap
  ae_wrap-ae_unwrap key bwd =
      let k = p.derive_key sym_enc key in
      let (out, e, sized) =
        split_buffer bwd (p.symmetric_decrypt k nonce_bwd (buffer_of bwd))
          (hp.length-decrypt k nonce_bwd (buffer_of bwd)) in
      (
        out,
        through_buffer_eq (p.symmetric_decrypt k nonce_bwd) bwd out e,
        through_buffer_eq (p.symmetric_encrypt k nonce_bwd) out bwd
            (ap (p.symmetric_encrypt k nonce_bwd) (sym e) ∙ hp.encrypt-decrypt k nonce_bwd _),
        sized,
      )

  -- `ae_wrap` returns a tag and bytes of the same length, and `ae_unwrap` undoes it.
  pub ae_unwrap-ae_wrap :
      (key : p.SymmetricKey) (bwd : List Byte × p.Tag)
      → (out : List Byte × p.Tag) × (ae_wrap p key bwd ≡ ok out)
        × (ae_unwrap p key out ≡ ok bwd)
        × (length out.0 ≡ length bwd.0)
  unfolding ae_unwrap ae_wrap
  ae_unwrap-ae_wrap key bwd =
      let k = p.derive_key sym_enc key in
      let (out, e, sized) =
        split_buffer bwd (p.symmetric_encrypt k nonce_bwd (buffer_of bwd))
          (hp.length-encrypt k nonce_bwd (buffer_of bwd)) in
      (
        out,
        through_buffer_eq (p.symmetric_encrypt k nonce_bwd) bwd out e,
        through_buffer_eq (p.symmetric_decrypt k nonce_bwd) out bwd
            (ap (p.symmetric_decrypt k nonce_bwd) (sym e) ∙ hp.decrypt-encrypt k nonce_bwd _),
        sized,
      )
