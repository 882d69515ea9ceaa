-- ===== src/Layer/Headers.antt =====
-- The header blocks as byte strings: what `wrap` does to them, what `unwrap` does, and that the
-- one undoes the other.
use eror.Prelude.{
  ℕ, suc, ◌+◌, ◌≡◌, refl, sym, ap, ap₂, ◌∙◌, List, [], ◌∷◌, ◌++◌, map, length, arith, append_assoc,
  length-append, ◌≡⟨◌⟩◌, ◌∎,
}
use eror.Prelude.Outcome.{ok}
use eror.Prelude.Index.{index_next, write-append}
use eror.Bytes.{Byte, zeros}
use eror.Format.{single_header_length}
use eror.Serde.{Bincode}
use eror.Primitives.{Primitives, IsPrimitives}
use eror.Onion.{Header, raw, into_bytes}
use eror.Layer.{encrypt_headers, shift_headers}

module _ (p : Primitives) where
  -- `self.zero_header()`, as bytes
  abbrev pub zero_bytes : List Byte
  zero_bytes = zeros (single_header_length p)

  -- The header at index `i` is encrypted under nonce `i + 2`.
  unfoldable pub encrypt_from : p.SymmetricKey → ℕ → List (List Byte) → List (List Byte)
  encrypt_from key i [] = []
  encrypt_from key i (h ∷ hs) = p.symmetric_encrypt key (i + 2) h ∷ encrypt_from key (i + 1) hs

  unfoldable pub decrypt_from : p.SymmetricKey → ℕ → List (List Byte) → List (List Byte)
  decrypt_from key i [] = []
  decrypt_from key i (h ∷ hs) = p.symmetric_decrypt key (i + 2) h ∷ decrypt_from key (i + 1) hs

  pub length-encrypt_from :
      (key : p.SymmetricKey) (i : ℕ) (hs : List (List Byte))
      → length (encrypt_from key i hs) ≡ length hs
  unfolding encrypt_from
  length-encrypt_from key i [] = refl
  length-encrypt_from key i (h ∷ hs) = ap suc (length-encrypt_from key (i + 1) hs)

  pub length-decrypt_from :
      (key : p.SymmetricKey) (i : ℕ) (hs : List (List Byte))
      → length (decrypt_from key i hs) ≡ length hs
  unfolding decrypt_from
  length-decrypt_from key i [] = refl
  length-decrypt_from key i (h ∷ hs) = ap suc (length-decrypt_from key (i + 1) hs)

  pub encrypt_from-append :
      (key : p.SymmetricKey) (i : ℕ) (hs gs : List (List Byte))
      → encrypt_from key i (hs ++ gs) ≡ encrypt_from key i hs ++ encrypt_from key (i + length hs) gs
  unfolding encrypt_from
  encrypt_from-append key i [] gs = ap (λ (j : ℕ). encrypt_from key j gs) (omega arith)
  encrypt_from-append key i (h ∷ hs) gs =
      ap (λ t. p.symmetric_encrypt key (i + 2) h ∷ t)
        (encrypt_from-append key (i + 1) hs gs
          ∙ ap (λ (j : ℕ). encrypt_from key (i + 1) hs ++ encrypt_from key j gs) (omega arith))

  pub decrypt_from-append :
      (key : p.SymmetricKey) (i : ℕ) (hs gs : List (List Byte))
      → decrypt_from key i (hs ++ gs) ≡ decrypt_from key i hs ++ decrypt_from key (i + length hs) gs
  unfolding decrypt_from
  decrypt_from-append key i [] gs = ap (λ (j : ℕ). decrypt_from key j gs) (omega arith)
  decrypt_from-append key i (h ∷ hs) gs =
      ap (λ t. p.symmetric_decrypt key (i + 2) h ∷ t)
        (decrypt_from-append key (i + 1) hs gs
          ∙ ap (λ (j : ℕ). decrypt_from key (i + 1) hs ++ decrypt_from key j gs) (omega arith))

  module _ (hp : IsPrimitives p) where
    pub decrypt_from-encrypt_from :
        (key : p.SymmetricKey) (i : ℕ) (hs : List (List Byte))
        → decrypt_from key i (encrypt_from key i hs) ≡ hs
    unfolding encrypt_from decrypt_from
    decrypt_from-encrypt_from key i [] = refl
    decrypt_from-encrypt_from key i (h ∷ hs) =
        ap₂ ◌∷◌ (hp.decrypt-encrypt key (i + 2) h) (decrypt_from-encrypt_from key (i + 1) hs)

    pub encrypt_from-decrypt_from :
        (key : p.SymmetricKey) (i : ℕ) (hs : List (List Byte))
        → encrypt_from key i (decrypt_from key i hs) ≡ hs
    unfolding encrypt_from decrypt_from
    encrypt_from-decrypt_from key i [] = refl
    encrypt_from-decrypt_from key i (h ∷ hs) =
        ap₂ ◌∷◌ (hp.encrypt-decrypt key (i + 2) h) (encrypt_from-decrypt_from key (i + 1) hs)

module _ (b : Bincode) (p : Primitives) where
  -- All headers in their byte form.
  abbrev pub header_bytes : List (Header p) → List (List Byte)
  header_bytes = map (into_bytes b p)

  pub header_bytes-raw : (hs : List (List Byte)) → header_bytes (map raw hs) ≡ hs
  unfolding into_bytes
  header_bytes-raw [] = refl
  header_bytes-raw (h ∷ hs) = ap (λ t. h ∷ t) (header_bytes-raw hs)

  pub encrypt_headers-raw :
      (key : p.SymmetricKey) (i : ℕ) (hs : List (Header p))
      → encrypt_headers b p key i hs ≡ map raw (encrypt_from p key i (header_bytes hs))
  unfolding encrypt_headers encrypt_from
  encrypt_headers-raw key i [] = refl
  encrypt_headers-raw key i (h ∷ hs) =
      ap (λ t. raw (p.symmetric_encrypt key (i + 2) (into_bytes b p h)) ∷ t)
        (encrypt_headers-raw key (i + 1) hs)

  abbrev last_of : Header p → List (Header p) → Header p
  last_of x [] = x
  last_of x (y ∷ ys) = last_of y ys

  shift_headers_step :
      (n : ℕ) (key : p.SymmetricKey) (front : List (Header p)) (x y : Header p)
      (ys : List (Header p))
      → shift_headers b p (suc n) (length front) key (front ++ (x ∷ y ∷ ys))
        ≡ shift_headers b p n (length front + 1) key (
            front ++ (raw (p.symmetric_decrypt key (length front + 2) (into_bytes b p y)) ∷ y ∷ ys))
  unfolding shift_headers
  shift_headers_step n key front x y ys =
      rw (index_next front x y ys) (rw (write-append front x _ (y ∷ ys)))

  length-snoc :
      (front : List (Header p)) (x : Header p) → length front + 1 ≡ length (front ++ (x ∷ []))
  length-snoc front x = omega (arith, length-append front (x ∷ []))

  -- The loop of `unwrap` moves the headers behind the first one place down, each decrypted. The
  -- last place keeps what it had.
  pub shift_headers_lem :
      (key : p.SymmetricKey) (front : List (Header p)) (x : Header p) (rest : List (Header p))
      → shift_headers b p (length rest) (length front) key (front ++ (x ∷ rest))
        ≡ ok (
            front
            ++ (map raw (decrypt_from p key (length front) (header_bytes rest))
                ++ (last_of x rest ∷ [])))
  unfolding shift_headers decrypt_from
  shift_headers_lem key front x [] = refl
  shift_headers_lem key front x (y ∷ ys) =
      let d : Header p = raw (p.symmetric_decrypt key (length front + 2) (into_bytes b p y)) in
      let out : ℕ → List (Header p) = λ i. map raw (decrypt_from p key i (header_bytes ys)) in
      shift_headers b p (suc (length ys)) (length front) key (front ++ (x ∷ y ∷ ys))
      ≡⟨ shift_headers_step (length ys) key front x y ys ⟩
        shift_headers b p (length ys) (length front + 1) key (front ++ (d ∷ y ∷ ys))
      ≡⟨ ap₂ (λ (i : ℕ) (hs : List (Header p)). shift_headers b p (length ys) i key hs)
          (length-snoc front d) (sym (append_assoc front (d ∷ []) (y ∷ ys))) ⟩
        shift_headers b p (length ys) (length (front ++ (d ∷ []))) key
          ((front ++ (d ∷ [])) ++ (y ∷ ys))
      ≡⟨ shift_headers_lem key (front ++ (d ∷ [])) y ys ⟩
        ok ((front ++ (d ∷ [])) ++ (out (length (front ++ (d ∷ []))) ++ (last_of y ys ∷ [])))
      ≡⟨ rw (append_assoc front, ← length-snoc front d) refl ⟩
        ok (front ++ (d ∷ (out (length front + 1) ++ (last_of y ys ∷ [])))) ∎
