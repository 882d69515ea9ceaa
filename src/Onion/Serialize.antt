-- ===== src/Onion/Serialize.antt =====
-- Round trips and sizes of what travels.
use eror.Prelude.{
  ℕ, ◌+◌, ◌*◌, ◌<◌, ◌^◌, ◌≡◌, refl, sym, ap, ◌∙◌, List, [], ◌∷◌, ◌++◌, append-nil, map, some,
  length, All, arith, All-imp, length-map, true,
}
use eror.Prelude.Outcome.{ok}
use eror.Bytes.{Byte}
use eror.Bytes.Laws.{bytes_eq_refl}
use eror.Serde.{RoundTrips, AnyValue, IsSmall, Bincode, IsBincode, via}
use eror.Serde.Laws.{via-RoundTrips, deserialize-write_all, read-via, deserialize_read}
use eror.Serde.{deserialize}
use eror.Primitives.{Primitives, IsPrimitives}
use eror.Onion.{
  Role, sender, role_index, role_of_index, Meta, HeaderBlock, Header, raw, parsed, Onion,
  role_codec, meta_codec, block_codec, pack, unpack, into_bytes, into_parsed, header_codec,
  onion_codec, triple_codec, to_triple, of_triple, onion_eq, headers_eq, header_eq,
}

module _ (b : Bincode) (hb : IsBincode b) where
  role_of-role_index : (r : Role) → role_of_index (role_index r) ≡ some r
  role_of-role_index sender = refl
  role_of-role_index _ = refl

  role_index-lt : (r : Role) → role_index r < 2 ^ 32
  role_index-lt sender = omega arith
  role_index-lt _ = omega arith

  pub read-role : RoundTrips (role_codec b) AnyValue
  unfolding role_codec
  read-role r rest _ =
      via-RoundTrips b.variant role_index role_of_index (λ n. n < 2 ^ 32) hb.read-variant
        role_of-role_index r rest (role_index-lt r)

  pub read-meta : RoundTrips (meta_codec b) AnyValue
  unfolding meta_codec
  read-meta m rest _ =
      via-RoundTrips (b.pair (role_codec b) (b.array 32)) (λ (m : Meta). (m.role, m.next))
        (λ q. some (record { role = q.0; next = q.1 })) (λ q. AnyValue q.0 × AnyValue q.1)
        (hb.read-pair (role_codec b) (b.array 32) AnyValue AnyValue read-role (hb.read-array 32))
        (λ a. refl) m rest (tt, tt)

  pub size-meta : (m : Meta) → length ((meta_codec b).write m) ≡ 36
  unfolding meta_codec role_codec via
  size-meta m = omega (
    arith,
    hb.size-pair (role_codec b) (b.array 32) (m.role, m.next),
    hb.size-variant (role_index m.role),
    ap length (hb.write-array 32 m.next),
    m.next.sized,
  )

module _ (b : Bincode) (p : Primitives) (hb : IsBincode b) (hp : IsPrimitives p) where
  -- A block whose data is no longer than an address space.
  abbrev pub IsBlock : HeaderBlock p → Type 0
  IsBlock x = length x.body < 2 ^ 64

  pub read-block_codec : RoundTrips (block_codec b p) IsBlock
  unfolding block_codec
  read-block_codec x rest h =
      via-RoundTrips (b.pair p.tag_codec b.byte_vec) (λ (x : HeaderBlock p). (x.tag, x.body))
        (λ q. some (record { tag = q.0; body = q.1 })) (λ q. AnyValue q.0 × (length q.1 < 2 ^ 64))
        (hb.read-pair p.tag_codec b.byte_vec AnyValue (λ xs. length xs < 2 ^ 64) hp.read-tag
          hb.read-byte_vec)
        (λ a. refl) x rest (tt, h)

  -- `HeaderBlock::unpack` reads what `HeaderBlock::pack` wrote, so a parsed header parses to its
  -- block, and so does the raw header of the same bytes.
  pub unpack-pack :
      (x : HeaderBlock p)
      → IsBlock x
      → (into_parsed b p (parsed x) ≡ ok x)
        × (into_parsed b p (raw (into_bytes b p (parsed x))) ≡ ok x)
  unfolding into_parsed into_bytes unpack pack
  unpack-pack x h =
      let e = deserialize-write_all (block_codec b p) IsBlock x read-block_codec h in (e, e)

  pub size-block : (x : HeaderBlock p) → length (pack b p x) ≡ 16 + (8 + length x.body)
  unfolding pack block_codec via
  size-block x = omega (
    arith,
    hb.size-pair p.tag_codec b.byte_vec (x.tag, x.body),
    hp.size-tag x.tag,
    hb.size-byte_vec x.body,
  )

  pub read-header :
      (h : Header p) (rest : List Byte)
      → length (into_bytes b p h) < 2 ^ 64
      → (header_codec b p).read ((header_codec b p).write h ++ rest)
        ≡ some (raw (into_bytes b p h), rest)
  unfolding header_codec via
  read-header h rest small = rw (hb.read-byte_vec (into_bytes b p h) rest small)

  pub header_eq_raw :
      (hs : List (Header p)) → headers_eq b p (map raw (map (into_bytes b p) hs)) hs ≡ true
  unfolding headers_eq header_eq into_bytes
  header_eq_raw [] = refl
  header_eq_raw (h ∷ hs) = rw (bytes_eq_refl, header_eq_raw hs)

  -- An onion whose vectors are shorter than 2^64.
  pub record IsOnion (o : Onion p) : Type 0 where
    pub headers_small : All (λ h. length h < 2 ^ 64) (map (into_bytes b p) o.header)
    pub header_count : length o.header < 2 ^ 64
    pub forward_small : length o.forward < 2 ^ 64
    pub backward_small : length o.backward.0 < 2 ^ 64

  -- The onion with every header in its raw form.
  abbrev pub unparsed : Onion p → Onion p
  unparsed o = record o { header = map raw (map (into_bytes b p) o.header) }

  read-triple :
      (o : Onion p)
      → IsOnion o
      → (triple_codec b p).read ((triple_codec b p).write (to_triple b p o) ++ [])
        ≡ some (to_triple b p o, [])
  unfolding triple_codec
  read-triple o h =
      hb.read-pair (b.vec b.byte_vec) (b.pair b.byte_vec (b.pair b.byte_vec p.tag_codec)) _ _
        (hb.read-vec b.byte_vec IsSmall hb.read-byte_vec)
        (hb.read-pair b.byte_vec (b.pair b.byte_vec p.tag_codec) IsSmall _ hb.read-byte_vec
          (hb.read-pair b.byte_vec p.tag_codec IsSmall AnyValue hb.read-byte_vec hp.read-tag))
        (to_triple b p o) []
        ((h.headers_small, rw length-map h.header_count), (h.forward_small, (h.backward_small, tt)))

  -- Over the wire an onion stays equal to itself: its bytes read back as the onion with all headers
  -- raw, and `==` does not tell the two apart.
  pub onion_over_wire :
      (o : Onion p)
      → IsOnion o
      → (deserialize (onion_codec b p) ((onion_codec b p).write o) ≡ ok (unparsed o))
        × (onion_eq b p (unparsed o) o ≡ true)
  unfolding onion_codec onion_eq
  onion_over_wire o h = (
    deserialize_read (onion_codec b p) _ (
        ap (onion_codec b p).read (sym (append-nil _))
        ∙ read-via (triple_codec b p) (to_triple b p) (λ t. some (of_triple b p t)) o
            (read-triple o h) refl),
    rw (header_eq_raw o.header, bytes_eq_refl o.forward, bytes_eq_refl o.backward.0)
        (hp.tag_eq_refl o.backward.1),
  )

  -- The size of an onion whose headers have `n` bytes each depends on the number of headers and on
  -- the lengths of the two payloads alone.
  pub size-onion :
      (o : Onion p) (n : ℕ)
      → All (λ h. length h ≡ n) (map (into_bytes b p) o.header)
      → length ((onion_codec b p).write o)
        ≡ (8 + length o.header * (8 + n)) + (8 + length o.forward) + (8 + length o.backward.0 + 16)
  unfolding onion_codec via triple_codec
  size-onion o n h = omega (
    arith,
    hb.size-pair (b.vec b.byte_vec) (b.pair b.byte_vec (b.pair b.byte_vec p.tag_codec))
        (to_triple b p o),
    hb.size-pair b.byte_vec (b.pair b.byte_vec p.tag_codec) (o.forward, o.backward),
    hb.size-pair b.byte_vec p.tag_codec o.backward,
    hb.size-byte_vec o.forward,
    hb.size-byte_vec o.backward.0,
    hp.size-tag o.backward.1,
    hb.size-vec b.byte_vec (8 + n) (map (into_bytes b p) o.header)
        (All-imp (λ hd e. hb.size-byte_vec hd ∙ ap (λ (k : ℕ). 8 + k) e) _ h),
    ap (λ (k : ℕ). k * (8 + n)) (length-map (into_bytes b p) o.header),
  )
