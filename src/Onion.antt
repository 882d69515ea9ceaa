-- ===== src/Onion.antt =====
-- src/lib.rs: the data that travels: roles, meta information, header blocks, headers and onions,
-- with their serialisation. `bincode::serialize` into memory does not fail, so the `Result` around
-- it is left out.
pub mod Serialize
use eror.Prelude.{
  ℕ, zero, suc, ◌≡◌, refl, Bool, true, false, ◌&&◌, List, [], ◌∷◌, ◌++◌, Option, none, some, map,
}
use eror.Prelude.Outcome.{Outcome, ok}
use eror.Bytes.{Byte, Array, bytes_eq}
use eror.Serde.{Codec, Bincode, via, deserialize}
use eror.Primitives.{Primitives}
use eror.Pki.{Address}

-- In the order of the declaration, which numbers the variants.
pub data Role : Type 0 where
  sender receiver hop : Role

abbrev pub role_index : Role → ℕ
role_index sender = 0
role_index receiver = 1
role_index hop = 2

abbrev pub role_of_index : ℕ → Option Role
role_of_index zero = some sender
role_of_index (suc zero) = some receiver
role_of_index (suc (suc zero)) = some hop
role_of_index (suc (suc (suc n))) = none

pub record Meta : Type 0 where
  pub role : Role
  pub next : Address

module _ (b : Bincode) where
  unfoldable pub role_codec : Codec Role
  unfolding via
  role_codec = via b.variant role_index role_of_index

  unfoldable pub meta_codec : Codec Meta
  unfolding via role_codec
  meta_codec =
      via (b.pair role_codec (b.array 32)) (λ m. (m.role, m.next))
        (λ p. some (record { role = p.0; next = p.1 }))

-- `struct HeaderBlock`
pub record HeaderBlock (p : Primitives) : Type 0 where
  pub tag : p.Tag
  pub body : List Byte

-- `enum Header`
pub data Header (p : Primitives) : Type 0 where
  raw : List Byte → Header p
  parsed : HeaderBlock p → Header p

-- `struct Onion`
pub record Onion (p : Primitives) : Type 0 where
  pub header : List (Header p)
  pub forward : List Byte
  pub backward : List Byte × p.Tag

module _ (b : Bincode) (p : Primitives) where
  unfoldable pub block_codec : Codec (HeaderBlock p)
  unfolding via
  block_codec =
      via (b.pair p.tag_codec b.byte_vec) (λ x. (x.tag, x.body))
        (λ x. some (record { tag = x.0; body = x.1 }))

  -- `HeaderBlock::pack` and `HeaderBlock::unpack`
  unfoldable pub pack : HeaderBlock p → List Byte
  unfolding block_codec
  pack x = block_codec.write x

  unfoldable pub unpack : List Byte → Outcome (HeaderBlock p)
  unfolding block_codec deserialize
  unpack bs = deserialize block_codec bs

  -- `Header::structured`
  unfoldable pub structured : p.Tag → List Byte → Header p
  structured tag body = parsed (record { tag = tag; body = body })

  -- `Header::into_bytes`
  unfoldable pub into_bytes : Header p → List Byte
  unfolding pack
  into_bytes (raw v) = v
  into_bytes (parsed block) = pack block

  -- `Header::into_parsed`: a parsed block is packed and unpacked again.
  unfoldable pub into_parsed : Header p → Outcome (HeaderBlock p)
  unfolding pack unpack
  into_parsed (raw v) = unpack v
  into_parsed (parsed block) = unpack (pack block)

  -- `Header::force_pack`, with what the caller does to the bytes that it is handed.
  unfoldable pub force_pack : Header p → (List Byte → List Byte) → Header p
  unfolding pack
  force_pack (raw v) change = raw (change v)
  force_pack (parsed block) change = raw (change (pack block))

  -- `impl Serialize for Header` and `impl Deserialize for Header`
  unfoldable pub header_codec : Codec (Header p)
  unfolding via into_bytes
  header_codec = via b.byte_vec into_bytes (λ bs. some (raw bs))

  -- `impl PartialEq for Header`
  unfoldable pub header_eq : Header p → Header p → Bool
  unfolding into_bytes bytes_eq
  header_eq x y = bytes_eq (into_bytes x) (into_bytes y)

  -- `self.header == other.header`, element by element
  unfoldable pub headers_eq : List (Header p) → List (Header p) → Bool
  unfolding header_eq
  headers_eq [] [] = true
  headers_eq [] (y ∷ ys) = false
  headers_eq (x ∷ xs) [] = false
  headers_eq (x ∷ xs) (y ∷ ys) = header_eq x y && headers_eq xs ys

  -- `impl PartialEq for Onion`
  unfoldable pub onion_eq : Onion p → Onion p → Bool
  unfolding headers_eq bytes_eq
  onion_eq x y =
      headers_eq x.header y.header
      && bytes_eq x.forward y.forward
      && bytes_eq x.backward.0 y.backward.0
      && p.tag_eq x.backward.1 y.backward.1

  -- The triple `(Vec<Vec<u8>>, Vec<u8>, (Vec<u8>, P::Tag))` as which an onion is serialised.
  unfoldable pub triple_codec : Codec (List (List Byte) × (List Byte × (List Byte × p.Tag)))
  triple_codec = b.pair (b.vec b.byte_vec) (b.pair b.byte_vec (b.pair b.byte_vec p.tag_codec))

  abbrev pub to_triple : Onion p → List (List Byte) × (List Byte × (List Byte × p.Tag))
  to_triple o = (map into_bytes o.header, (o.forward, o.backward))

  abbrev pub of_triple : List (List Byte) × (List Byte × (List Byte × p.Tag)) → Onion p
  of_triple t = record { header = map raw t.0; forward = (t.1).0; backward = (t.1).1 }

  -- `impl Serialize for Onion` and `impl Deserialize for Onion`
  unfoldable pub onion_codec : Codec (Onion p)
  unfolding via into_bytes triple_codec
  onion_codec = via triple_codec to_triple (λ t. some (of_triple t))

  -- `Onion::packed_header`
  unfoldable pub packed_header : List (Header p) → List Byte
  unfolding into_bytes
  packed_header [] = []
  packed_header (h ∷ hs) = into_bytes h ++ packed_header hs
