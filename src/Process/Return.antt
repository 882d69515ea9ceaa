-- ===== src/Process/Return.antt =====
-- A reply on its whole way back: along the path that `onionize` prepared for it, and into the
-- branch of `proc_onion` for the sender.
use eror.Prelude.{
  ℕ, zero, suc, ◌<◌, ◌^◌, ◌≡◌, refl, sym, ap, ◌∙◌, subst, Bool, List, [], ◌∷◌, ◌++◌, map, Option,
  none, some, length, take, arith, if◌then◌else◌,
}
use eror.Prelude.Outcome.{Outcome, ok, ok-injective, or_err, ae_error, ◌>>=◌}
use eror.Bytes.{Byte, bytes_eq}
use eror.Bytes.Laws.{bytes_eq_refl}
use eror.Serde.{Bincode, IsBincode}
use eror.Primitives.{Primitives, IsPrimitives, KeyRole}
use eror.Pki.{Address}
use eror.Onion.{Role, Meta, Header, raw, Onion, into_bytes, packed_header}
use eror.Onion.Serialize.{unparsed}
use eror.Format.{OnionFormat, ae_enc, ae_dec, ae_unwrap}
use eror.Format.Ae.{ae_dec-ae_enc}
use eror.Layer.{unwrap}
use eror.Onionize.{Payload, onionize}
use eror.Onionize.Chain.{travel, unwrap_upto}
use eror.Onionize.Ciphers.{IsRoute}
use eror.Onionize.Journey.{stops}
use eror.Onionize.Fresh.{IsFresh}
use eror.Onionize.Backward.{onionize_backward, answered}
use eror.Process.{
  proc_onion, dispatch, open_reply, lengths_codec, sender, ProcessedOnion, wrap_backward,
}
use eror.Process.Branches.{proc_onion-dispatch}
use eror.Process.Reply.{receiver_key, backward_key, open_reply_lem, wrap_backward-unwrap_upto}

-- A sender who waits for one reply: the tag is known for one identifier.
abbrev pub expects : {T : Type 0} → List Byte → T → List Byte → Option T
expects identifier tag bs = if bytes_eq bs identifier then some tag else none

module _ (b : Bincode) (p : Primitives) where
  unwrap_upto-cong :
      (key key' : ℕ → p.SymmetricKey) (n : ℕ) (bwd : List Byte × p.Tag)
      → ((i : ℕ) → i < n → key i ≡ key' i)
      → unwrap_upto b p key n bwd ≡ unwrap_upto b p key' n bwd
  unfolding unwrap_upto
  unwrap_upto-cong key key' zero bwd same = refl
  unwrap_upto-cong key key' (suc n) bwd same =
      ap (λ o. o >>= ae_unwrap p (key n))
        (unwrap_upto-cong key key' n bwd (λ i h. same i (omega arith)))
      ∙ ap (λ (k : p.SymmetricKey). unwrap_upto b p key' n bwd >>= ae_unwrap p k)
          (same n (omega arith))

  pub packed_header_raw :
      (hs : List (Header p))
      → packed_header b p (map raw (map (into_bytes b p) hs)) ≡ packed_header b p hs
  unfolding packed_header into_bytes
  packed_header_raw [] = refl
  packed_header_raw (h ∷ hs) = ap (λ (t : List Byte). into_bytes b p h ++ t) (packed_header_raw hs)

module _ (b : Bincode) (p : Primitives) (hb : IsBincode b) (hp : IsPrimitives p) where
  -- The sender opens what arrives.
  proc_returned :
      (f : OnionFormat p) (sk : p.PrivateKey) (expected_tag : List Byte → Option p.Tag)
      (onion inside : Onion p) (master key : p.SymmetricKey) (meta : Meta)
      → key ≡ master
      → meta.role ≡ Role.sender
      → unwrap b p f sk onion ≡ ok (key, meta, inside)
      → proc_onion b p f sk expected_tag onion ≡ open_reply b p expected_tag master meta onion
  unfolding dispatch
  proc_returned f sk expected_tag onion inside master key meta same role e =
      proc_onion-dispatch b p f sk expected_tag onion inside key meta e
      ∙ ap (λ (r : Role). dispatch b p expected_tag key meta r onion inside) role
      ∙ ap (λ (k : p.SymmetricKey). open_reply b p expected_tag k meta onion) same

  -- What the sender makes of a backward part, once it knows the receiver's key and the tag.
  abbrev pub judge : p.SymmetricKey → p.Tag → List Byte × p.Tag → Outcome (ProcessedOnion p)
  judge key tag bwd = or_err (ae_dec p key tag bwd) ae_error >>= λ payload. ok (sender payload)

  -- A backward part in that onion reaches the sender, who judges it.
  abbrev pub ComesBack :
      OnionFormat p
      → (ℕ → p.SymmetricKey)
      → (ℕ → Address)
      → (ℕ → p.PrivateKey)
      → (ℕ → p.PublicKey)
      → ℕ
      → ℕ
      → p.SymmetricKey
      → Meta
      → p.Tag
      → List Byte × p.Tag
      → Onion p
      → Onion p
      → Type 0
  ComesBack f key addr sk pk n n_forward master meta tag bwd first last =
      (arrived : Onion p) × (travel b p f sk n (unparsed b p hb hp (answered b p hb hp first bwd))
        ≡ ok (stops b p hb hp f key addr sk pk n meta, arrived))
      × (packed_header b p arrived.header ≡ packed_header b p last.header)
      × (proc_onion b p f (sk n) (expects (packed_header b p last.header) tag) arrived
          ≡ judge (receiver_key b p hb hp master n_forward) tag bwd)

  -- Any backward part in the onion for the way back.
  backward_part_lem :
      (f : OnionFormat p) (key : ℕ → p.SymmetricKey) (addr : ℕ → Address) (sk : ℕ → p.PrivateKey)
      (pk : ℕ → p.PublicKey) (keys : List p.SymmetricKey) (hops : List Address) (meta : Meta)
      (n n_forward : ℕ) (message : List Byte) (backward_length : ℕ) (r : p.Rng)
      (master : p.SymmetricKey) (tag : p.Tag) (bwd : List Byte × p.Tag)
      → p.symmetric_key_length < 2 ^ 32
      → IsRoute b p hb hp f keys hops key addr sk pk
      → length hops ≡ suc n
      → n < f.max_path_length
      → ((i : ℕ) → i < n → key i ≡ p.derive_key (KeyRole.backward i) master)
      → key n ≡ master
      → meta.role ≡ Role.sender
      → take 16 meta.next.bytes ≡ (lengths_codec b p).write (suc n_forward, suc n)
      → suc n_forward < 2 ^ 32
      → suc n < 2 ^ 32
      → (first last : Onion p) × (r' : p.Rng) × (onionize b p f keys hops meta
            (Payload.backward message)
            backward_length
            r
          ≡ ok ((first, last, p.default_tag), r'))
        × (first.forward ≡ message)
        × IsFresh b p hb hp f first.header
        × ComesBack f key addr sk pk n n_forward master meta tag bwd first last
  backward_part_lem f key addr sk pk keys hops meta n n_forward message backward_length r master tag
        bwd short route l h derived own role lengths hf hn =
      let (first, last, inside, back, r', run, carries, goes, trip, un, fresh) =
        onionize_backward b p hb hp f key addr sk pk keys hops meta n message backward_length r bwd
          short route l h in
      let arrived = unparsed b p hb hp (answered b p hb hp last back) in
      let expected_tag = expects (packed_header b p last.header) tag in
      let known : expected_tag (packed_header b p arrived.header) ≡ some tag =
        ap expected_tag (packed_header_raw b p last.header)
        ∙ ap (λ (t : Bool). if t then some tag else none)
            (bytes_eq_refl (packed_header b p last.header)) in
      let (back', goes', undone) = wrap_backward-unwrap_upto b p hb hp master n bwd (omega arith) in
      let same : back' ≡ back = ok-injective (
        sym goes'
        ∙ sym (unwrap_upto-cong b p key (backward_key b p hb hp master) n bwd derived)
        ∙ goes) in
      (
        first,
        last,
        r',
        run,
        carries,
        fresh,
        (
          arrived,
          trip,
          packed_header_raw b p last.header,
          proc_returned f (sk n) expected_tag arrived inside master (key n) meta own role un
              ∙ open_reply_lem b p hb hp expected_tag master meta arrived n_forward n tag bwd hf
                  (omega arith) lengths (ap (wrap_backward b p n master) (sym same) ∙ undone) known,
        ),
      )

  -- The backward path of `form_onion` brings a reply back. Given a path of `suc n` hops that is not
  -- longer than the format allows, with all hops in the key store and with private keys that decrypt
  -- every message encrypted for them (and symmetric keys shorter than 2^32), whose keys are the backward keys of a master key and for
  -- the last hop, the sender, the master key itself, and meta data of the sender that hold the two
  -- path lengths (below 2^32): `onionize` succeeds. If the receiver at the end of a forward path of
  -- `suc n_forward` hops seals any payload for a tag and puts it into that onion, it travels through
  -- the first `n` hops, and `proc_onion` of the last one, who expects the tag for the headers of the
  -- onion that `onionize` returned for it, returns the payload; the headers that arrive are those.
  -- The headers of the onion for the first hop are as many as the longest path has hops, all of the
  -- same size.
  pub reply_comes_back :
      (f : OnionFormat p) (key : ℕ → p.SymmetricKey) (addr : ℕ → Address) (sk : ℕ → p.PrivateKey)
      (pk : ℕ → p.PublicKey) (keys : List p.SymmetricKey) (hops : List Address) (meta : Meta)
      (n n_forward : ℕ) (message : List Byte) (backward_length : ℕ) (r : p.Rng)
      (master : p.SymmetricKey) (tag : p.Tag) (payload : List Byte)
      → p.symmetric_key_length < 2 ^ 32
      → IsRoute b p hb hp f keys hops key addr sk pk
      → length hops ≡ suc n
      → n < f.max_path_length
      → ((i : ℕ) → i < n → key i ≡ p.derive_key (KeyRole.backward i) master)
      → key n ≡ master
      → meta.role ≡ Role.sender
      → take 16 meta.next.bytes ≡ (lengths_codec b p).write (suc n_forward, suc n)
      → suc n_forward < 2 ^ 32
      → suc n < 2 ^ 32
      → (first last arrived : Onion p) × (r' : p.Rng) × (onionize b p f keys hops meta
            (Payload.backward message)
            backward_length
            r
          ≡ ok ((first, last, p.default_tag), r'))
        × (first.forward ≡ message)
        × (travel b p f sk n (
              unparsed b p hb hp (
                answered b p hb hp first
                  (ae_enc p (receiver_key b p hb hp master n_forward) tag payload)))
            ≡ ok (stops b p hb hp f key addr sk pk n meta, arrived))
        × (packed_header b p arrived.header ≡ packed_header b p last.header)
        × (proc_onion b p f (sk n) (expects (packed_header b p last.header) tag) arrived
            ≡ ok (sender payload))
        × IsFresh b p hb hp f first.header
  reply_comes_back f key addr sk pk keys hops meta n n_forward message backward_length r master tag
        payload short route l h derived own role lengths hf hn =
      let k = receiver_key b p hb hp master n_forward in
      let (first, last, r', run, carries, fresh, (arrived, trip, found, judged)) =
        backward_part_lem f key addr sk pk keys hops meta n n_forward message backward_length r
          master tag (ae_enc p k tag payload) short route l h derived own role lengths hf hn in
      (
        first,
        last,
        arrived,
        r',
        run,
        carries,
        trip,
        found,
        judged ∙ rw (ae_dec-ae_enc p hp k tag payload) refl,
        fresh,
      )

  -- The onion that carries the reply is the same whatever the backward part will be.
  pub replies_come_back :
      (f : OnionFormat p) (key : ℕ → p.SymmetricKey) (addr : ℕ → Address) (sk : ℕ → p.PrivateKey)
      (pk : ℕ → p.PublicKey) (keys : List p.SymmetricKey) (hops : List Address) (meta : Meta)
      (n n_forward : ℕ) (message : List Byte) (backward_length : ℕ) (r : p.Rng)
      (master : p.SymmetricKey)
      → p.symmetric_key_length < 2 ^ 32
      → IsRoute b p hb hp f keys hops key addr sk pk
      → length hops ≡ suc n
      → n < f.max_path_length
      → ((i : ℕ) → i < n → key i ≡ p.derive_key (KeyRole.backward i) master)
      → key n ≡ master
      → meta.role ≡ Role.sender
      → take 16 meta.next.bytes ≡ (lengths_codec b p).write (suc n_forward, suc n)
      → suc n_forward < 2 ^ 32
      → suc n < 2 ^ 32
      → (first last : Onion p) × (r' : p.Rng) × (onionize b p f keys hops meta
            (Payload.backward message)
            backward_length
            r
          ≡ ok ((first, last, p.default_tag), r'))
        × (first.forward ≡ message)
        × IsFresh b p hb hp f first.header
        × ((tag : p.Tag) (bwd : List Byte × p.Tag)
            → ComesBack f key addr sk pk n n_forward master meta tag bwd first last)
  replies_come_back f key addr sk pk keys hops meta n n_forward message backward_length r master
        short route l h derived own role lengths hf hn =
      let (first, last, _, _, r', run, carries, _, _, _, fresh) =
        onionize_backward b p hb hp f key addr sk pk keys hops meta n message backward_length r
          ([], p.default_tag) short route l h in
      (
        first,
        last,
        r',
        run,
        carries,
        fresh,
        λ tag bwd.
            let (first', last', r2, run', _, _, back) =
              backward_part_lem f key addr sk pk keys hops meta n n_forward message backward_length
                r master tag bwd short route l h derived own role lengths hf hn in
            subst
              (λ (o : Onion p × Onion p).
                ComesBack f key addr sk pk n n_forward master meta tag bwd o.0 o.1)
              (ap (λ t. (t.0.0, t.0.1)) (ok-injective (sym run' ∙ run))) back,
      )
