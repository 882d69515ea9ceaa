-- ===== src/Examples/Replies.antt =====
-- Onions for a hop and for a receiver, and a reply on its way back.
use eror.Prelude.{◌≡◌, ◌≢◌, refl, ap, none, some, Option, List, [], ◌∷◌, ◌++◌, length, arith, take}
use eror.Prelude.Outcome.{ok, err, ae_error}
use eror.Bytes.Laws.{cons-head}
use eror.Examples.FixedInt.{pair_codec, vec_codec, write_many, read_many, read_word}
use eror.Examples.ToyCrates.{fit_array, fit}
use eror.Primitives.Ec.{ec_primitives}
use eror.Bytes.{le_bytes, value, Byte, byte, zeros, Array, zero_array, array_of}
use eror.Serde.{deserialize}
use eror.Pki.{Address}
use eror.Onion.{Role, Meta, Header, raw, Onion}
use eror.Format.{ae_enc}
use eror.Layer.{wrap, unwrap}
use eror.Layer.Peel.{unwrap-wrap, inner_onion}
use eror.Onionize.Chain.{unwrap_upto}
use eror.Process.{
  reply_onion, proc_onion, message_codec, lengths_codec, open_reply, sender, hop, dispatch,
}
use eror.Process.Branches.{proc_onion-dispatch, proc_onion-IsProcessed, IsProcessed}
use eror.Process.Agreement.{Replies, reply_onion_agrees}
use eror.Process.{receiver}
use eror.Prelude.{◌↔◌}
use eror.Prelude.Outcome.{not_the_receiver}
use eror.Process.Reply.{
  backward_key, receiver_key, returned, open_reply-ae_enc, open_reply-wrong_tag,
}
use eror.Examples.Data.{
  b, hb, p, hp, key, tag, secret, there, hop_meta, receiver_meta, format, cipher, cipher-IsSmall,
  cipher-Holds,
}

abbrev headers : List (Header p)
headers = raw (byte 3 ∷ []) ∷ []

abbrev backward_part : List Byte × p.Tag
backward_part = (byte 5 ∷ [], tag)

-- A layer for the owner of `secret`, and the onion inside.
abbrev onion_for : Meta → List Byte → Onion p
onion_for meta payload =
    let (hs, fwd) = wrap b p key (cipher meta) headers payload in
    record { header = hs; forward = fwd; backward = backward_part }

abbrev opened :
    (meta : Meta) (payload : List Byte)
    → (back : List Byte × p.Tag) × (unwrap b p format secret (onion_for meta payload)
        ≡ ok (key, meta, inner_onion b p hb hp key headers payload back))
      × Unit {0}
opened meta payload =
    let (back, e, _) =
      unwrap-wrap b p hb hp format secret key meta (cipher meta) headers payload backward_part refl
        (cipher-IsSmall meta) (cipher-Holds meta) in
    (back, e, tt)

abbrev inside : Meta → List Byte → Onion p
inside meta payload = inner_onion b p hb hp key headers payload (opened meta payload).0

abbrev known_tags : List Byte → Option p.Tag
known_tags bs = none

hop_result :
    proc_onion b p format secret known_tags (onion_for hop_meta [])
    ≡ ok (hop there (inside hop_meta []))
unfolding dispatch
hop_result =
    proc_onion-dispatch b p format secret known_tags (onion_for hop_meta []) (inside hop_meta [])
      key hop_meta (opened hop_meta []).1

proc_onion-IsProcessed_example :
    IsProcessed b p format secret known_tags
      (onion_for hop_meta [])
      (hop there (inside hop_meta []))
proc_onion-IsProcessed_example =
    proc_onion-IsProcessed b p format secret known_tags (onion_for hop_meta []) hop_result

-- A message without reply headers.
abbrev message : List Byte
message = (message_codec b p).write ([], byte 1 ∷ [])

read-message : deserialize (message_codec b p) message ≡ ok ([], byte 1 ∷ [])
unfolding message_codec deserialize pair_codec vec_codec write_many read_many read_word le_bytes
    byte value
read-message = refl

reply_onion_agrees_example :
    (((m : List Byte) × (proc_onion b p format secret known_tags (onion_for receiver_meta message)
          ≡ ok (receiver m)))
      ↔ Replies b p hp format secret known_tags (onion_for receiver_meta message) (byte 2 ∷ []))
    × ((next : Address) (onion' : Onion p)
        → proc_onion b p format secret known_tags (onion_for receiver_meta message)
          ≡ ok (hop next onion')
        → reply_onion b p format secret (onion_for receiver_meta message) (byte 2 ∷ [])
          ≡ err not_the_receiver)
    × ((answer : List Byte)
        → proc_onion b p format secret known_tags (onion_for receiver_meta message)
          ≡ ok (sender answer)
        → reply_onion b p format secret (onion_for receiver_meta message) (byte 2 ∷ [])
          ≡ err not_the_receiver)
reply_onion_agrees_example =
    reply_onion_agrees b p hp format secret known_tags (onion_for receiver_meta message)
      (byte 2 ∷ [])

-- The sender's meta data after paths of two hops each.
pub length-lengths : length ((lengths_codec b p).write (2, 2) ++ zeros 16) ≡ 32
unfolding lengths_codec pair_codec le_bytes zeros
length-lengths = refl

abbrev pub sender_meta : Meta
sender_meta = record {
  role = Role.sender;
  next = array_of ((lengths_codec b p).write (2, 2) ++ zeros 16) length-lengths;
}

abbrev expects : p.Tag → List Byte → Option p.Tag
expects t bs = some t

abbrev sealed : List Byte × p.Tag
sealed = ae_enc p (receiver_key b p hb hp key 1) tag (byte 2 ∷ [])

pub stored : take 16 sender_meta.next.bytes ≡ (lengths_codec b p).write (2, 2)
unfolding array_of lengths_codec pair_codec le_bytes zeros
stored = refl

open_reply-ae_enc_example :
    (back : List Byte × p.Tag) × (unwrap_upto b p (backward_key b p hb hp key) 1 sealed ≡ ok back)
    × (open_reply b p (expects tag) key sender_meta (returned b p hb hp headers [] back)
        ≡ ok (sender (byte 2 ∷ [])))
open_reply-ae_enc_example =
    open_reply-ae_enc b p hb hp (expects tag) key sender_meta headers [] 1 1 tag (byte 2 ∷ [])
      (omega arith) (omega arith) stored refl

other_tag : p.default_tag ≢ tag
unfolding ec_primitives tag zero_array fit_array fit zeros byte
other_tag e = cc (cons-head (ap (λ (t : Array 16). t.bytes) e))

open_reply-wrong_tag_example :
    (back : List Byte × p.Tag) × (unwrap_upto b p (backward_key b p hb hp key) 1 sealed ≡ ok back)
    × (open_reply b p (expects p.default_tag) key sender_meta (returned b p hb hp headers [] back)
        ≡ err ae_error)
open_reply-wrong_tag_example =
    open_reply-wrong_tag b p hb hp (expects p.default_tag) key sender_meta headers [] 1 1 tag
      p.default_tag (byte 2 ∷ []) (omega arith) (omega arith) stored refl other_tag
