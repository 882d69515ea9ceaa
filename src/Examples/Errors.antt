-- ===== src/Examples/Errors.antt =====
-- Paths that are refused: one hop too many, and a hop without a key.
use eror.Prelude.{◌≡◌, refl, List, [], ◌∷◌, arith}
use eror.Prelude.Outcome.{err, key_not_found}
use eror.Pki
use eror.Pki.{Address}
use eror.Pki.Laws.{get-new}
use eror.Format.{OnionFormat}
use eror.Onionize.{Payload, onionize}
use eror.Onionize.Errors.{onionize_unknown_hop}
use eror.Examples.Data.{b, p, key, start, here, there, receiver_meta}

-- Nobody is known.
abbrev strangers : OnionFormat p
strangers = record { max_path_length = 2; pki = Pki.new }

abbrev hops : List Address
hops = here ∷ there ∷ []

onionize_unknown_hop_example :
    onionize b p strangers (key ∷ key ∷ []) hops receiver_meta (Payload.forward []) 0 start
    ≡ err key_not_found
onionize_unknown_hop_example =
    onionize_unknown_hop b p strangers (key ∷ key ∷ []) hops receiver_meta (Payload.forward []) 0 1
      start there refl (omega arith) (omega arith) refl (get-new there)
