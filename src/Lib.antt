-- ===== src/Lib.antt =====
-- Eror, an onion format whose onions can be answered: a sender wraps a message in layers for the
-- hops of a path, each hop takes off one, the receiver answers with the headers that came along,
-- and the sender opens the answer.
--
-- The parts, from the bottom up:
--   Prelude    names shared by all files; Prelude/Outcome the result of a call (Ok, Err with a
--              variant of src/error.rs, or a panic); Prelude/Rand calls that draw from the generator.
--   Bytes      u8, [u8; N] and to_le_bytes of the language.
--   Serde      Serialize and Deserialize as codecs, and bincode as a parameter with its laws.
--   Primitives src/primitives.rs: KeyRole and the trait Primitives, with the laws that the format
--              relies on; Primitives/Ec is EcPrimitives over its cryptographic crates.
--   Pki        src/pki.rs: the store of public keys.
--   Onion      src/lib.rs: Role, Meta, HeaderBlock, Header, Onion, and how they are serialised.
--   Format     src/lib.rs: OnionFormat, its constants and lengths, ae_enc, ae_dec, ae_unwrap, ae_wrap.
--   Layer      src/lib.rs: OnionFormat::wrap and OnionFormat::unwrap.
--   Onionize   src/lib.rs: OnionFormat::onionize, one function for each of its loops;
--              Onionize/Table holds the table header_blocks.
--   Process    src/lib.rs: form_onion, split_reply_header, reply_onion, proc_onion,
--              proc_onion_without_reply.
--   Scenario   The tests of src/lib.rs and src/primitives.rs and the programs examples/create_onion.rs
--              and examples/onion_sizes.rs: Scenario/Setup the keys, Formed the onion to start with,
--              Steps what one node does, Between the steps with one hop each way, Network the
--              loops from node to node, Trips, Attacks and Sizes the tests without a loop, Suite the
--              tests with their keys, Crypto those of the primitives, Sphinx the calls of the Sphinx
--              crate in onion_sizes.rs.
--   Examples   bincode's encoding written out, small stand-ins for the cryptographic crates, and
--              the theorems applied to them.
--
-- form_onion calls onionize for the backward path, puts the headers of that onion in front of the
-- message, and calls onionize again for the forward path. proc_onion and reply_onion both start with
-- unwrap. The programs of Scenario call form_onion once and hand the onion from node to node, with
-- proc_onion at each and reply_onion at the receiver. onionize and unwrap call the authenticated
-- encryption of Format, and everything calls the primitives, which are the parameter p; EcPrimitives
-- is one value for it.
--
-- How the code is read:
--   Parameters. bincode is the record Bincode with the laws IsBincode (values read back, with the
--   sizes of the fixed-width encoding). The crates under EcPrimitives (curve25519-dalek, sha3, hmac,
--   aez, rand_chacha, rand) are the record Crates with the laws IsCrates (the scalars are a field
--   that acts on the points, the cipher is invertible and keeps lengths). No law speaks of secrecy.
--   The trait is the record Primitives; IsPrimitives are its laws, which EcPrimitives is proved to
--   have. A method that does not draw from the generator, as in EcPrimitives, is not given it.
--   Results. An index out of range, an unwrap of nothing and an underflow are a panic, with overflow
--   checks on. bincode::serialize into a vector does not fail, so the Result around it is dropped in
--   pack, into_bytes, force_pack, wrap and packed_header. Aez::decrypt is total: its expect holds
--   for every ciphertext without associated data.
--   The generator is a state that goes in and out; after an error or a panic it is not kept.
--   Numbers. The nonces i as u32 + 2 and max_path_length + 1 are written without the bound of 32
--   bits: a table of headers that reaches it has more than 2^63 entries. The casts of path lengths
--   from u64 to u32 in proc_onion are written out.
--   Loops over ranges are recursion on the number of rounds, with the index beside it, and loops
--   over slices are recursion on the list, so that they need no fuel. The loops that hand an onion
--   from node to node have no bound in the code: they have fuel for one round each, and none says
--   that it ran out. One round for each hop of both paths is enough, 20 in the tests and 10 in the
--   example, which the theorems of Scenario/Network prove.
--   Programs. A failed assertion is a panic. The lines that the examples print are data. In which
--   order a HashMap lists its keys is not specified: it is a parameter of the whole programs, and the
--   theorems hold for any list of addresses with known keys. The Sphinx crate, with which onion_sizes
--   compares, is the record Sphinx with the laws IsSphinx.
--   Sharing. The code owns or clones what it changes, so values stand for the mutable vectors.
--   The HashMap of the key store is an association list with one entry for each address.
--   Keys of hops. A theorem about a path asks of each private key that it decrypts every message
--   encrypted for its public key (IsRoute in Onionize/Ciphers). EcPrimitives does so unless the hash
--   of a ciphertext is minus the private key, which is the condition of the theorem in
--   Primitives/Ec/Laws.
--
-- Not modelled: Clone, Debug and Default as derived; the texts of errors; the benchmarks; the
-- directory sphinx, a copy of another project's packet format that only a benchmark and
-- examples/onion_sizes.rs call.
pub mod Prelude
pub mod Bytes
pub mod Serde
pub mod Primitives
pub mod Pki
pub mod Onion
pub mod Format
pub mod Layer
pub mod Onionize
pub mod Process
pub mod Scenario
pub mod Examples
