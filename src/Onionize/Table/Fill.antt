-- ===== src/Onionize/Table/Fill.antt =====
-- The deterministic part of `header_blocks`: row `i` ends with the `i` headers that the first `i`
-- hops will have appended to the onion.
use eror.Prelude.{
  ℕ, zero, suc, ◌+◌, ◌-◌, ◌<◌, ◌≡◌, ◌≢◌, refl, sym, ap, ap₂, ◌∙◌, subst, List, [], ◌∷◌, ◌++◌,
  append-nil, append_assoc, map, map-append, some, length, length-append, length-map,
  length-replicate, get_elem?, replicate, arith,
}
use eror.Prelude.Outcome.{ok, index, write}
use eror.Prelude.Index.{index-append, write-append, write_lem, get_elem?-replicate, replicate-add}
use eror.Bytes.{Byte}
use eror.Serde.{Bincode}
use eror.Primitives.{Primitives}
use eror.Onion.{Header, raw, into_bytes, force_pack}
use eror.Format.{zero_header}
use eror.Layer.Headers.{
  zero_bytes, decrypt_from, decrypt_from-append, length-decrypt_from, header_bytes,
  header_bytes-raw,
}
use eror.Onionize.Table.{index2, write2, fill_row, fill_rows}

module _ {ℓ} {A : Type ℓ} where
  index2_lem :
      (t : List (List A)) (i j : ℕ) {row : List A} {h : A}
      → get_elem? t i ≡ some row
      → index row j ≡ ok h
      → index2 t i j ≡ ok h
  unfolding index2
  index2_lem t i j e e' = rw (e, e')

  -- A write into the table, given the row that it finds and the row that it leaves.
  pub write2_lem :
      (t : List (List A)) (i j : ℕ) (v : A) {row row' : List A}
      → get_elem? t i ≡ some row
      → write row j v ≡ ok row'
      → (t' : List (List A)) × (write2 t i j v ≡ ok t')
        × (get_elem? t' i ≡ some row')
        × ((r : ℕ) → r ≢ i → get_elem? t' r ≡ get_elem? t r)
  unfolding write2
  write2_lem t i j v {row} {row'} e e' =
      let (t', run, here, frame) = write_lem t i row' e in (t', rw (e, e', run), here, frame)

module _ (b : Bincode) (p : Primitives) where
  abbrev blank : Header p
  blank = raw []

  -- The inner loop writes the decryptions of the row above, one column to the left.
  fill_row_lem :
      (i j : ℕ) (key : p.SymmetricKey) (t : List (List (Header p)))
      (above front rest : List (Header p))
      → length above ≡ j + 1
      → length front ≡ j
      → get_elem? t i ≡ some (above ++ rest)
      → get_elem? t (i + 1) ≡ some (front ++ replicate (suc (length rest)) blank)
      → (t' : List (List (Header p))) × (fill_row b p (length rest) i j key t ≡ ok t')
        × (get_elem? t' (i + 1)
            ≡ some
                (front ++ (map raw (decrypt_from p key j (header_bytes b p rest)) ++ (blank ∷ []))))
        × ((r : ℕ) → r ≢ i + 1 → get_elem? t' r ≡ get_elem? t r)
  unfolding fill_row decrypt_from
  fill_row_lem i j key t above front [] ha hf e e' = (t, refl, e', λ r ne. refl)
  fill_row_lem i j key t above front (x ∷ xs) ha hf e e' =
      let v : Header p = raw (p.symmetric_decrypt key (j + 2) (into_bytes b p x)) in
      let blanks = replicate (suc (length xs)) blank in
      let read : index2 t i (j + 1) ≡ ok x =
        index2_lem t i (j + 1) e
          (ap (index (above ++ (x ∷ xs))) (sym ha) ∙ index-append above x xs) in
      let (t1, run1, here1, frame1) = write2_lem t (i + 1) j v e' (
        ap (λ (k : ℕ). write (front ++ (blank ∷ blanks)) k v) (sym hf)
        ∙ write-append front blank v blanks) in
      let (t2, run2, here2, frame2) =
        fill_row_lem i (j + 1) key t1 (above ++ (x ∷ [])) (front ++ (v ∷ [])) xs
          (omega (arith, length-append above (x ∷ [])))
          (omega (arith, length-append front (v ∷ [])))
          (frame1 i (omega arith) ∙ e ∙ ap some (sym (append_assoc above (x ∷ []) xs)))
          (here1 ∙ ap some (sym (append_assoc front (v ∷ []) blanks))) in
      (
        t2,
        rw (read, run1) run2,
        here2 ∙ ap some (append_assoc front (v ∷ []) _),
        λ r ne. frame2 r ne ∙ frame1 r ne,
      )

  module _ (size : ℕ) (key : ℕ → p.SymmetricKey) where
    -- The last `i` headers of row `i`: with each hop one of zeros joins, and all are decrypted.
    unfoldable pub pad : ℕ → List (List Byte)
    unfolding decrypt_from
    pad zero = []
    pad (suc i) = decrypt_from p (key i) (size - i - 1) (pad i ++ (zero_bytes p ∷ []))

    pub length-pad : (i : ℕ) → length (pad i) ≡ i
    unfolding pad
    length-pad zero = refl
    length-pad (suc i) =
        length-decrypt_from p (key i) (size - i - 1) (pad i ++ (zero_bytes p ∷ []))
        ∙ omega (arith, length-append (pad i) (zero_bytes p ∷ []), length-pad i)

    -- The new header comes last, under the nonce `size + 1`.
    pub pad-suc :
        (i : ℕ)
        → i < size
        → pad (suc i)
          ≡ decrypt_from p (key i) (size - i - 1) (pad i)
            ++ (p.symmetric_decrypt (key i) (size + 1) (zero_bytes p) ∷ [])
    unfolding pad
    pad-suc i h =
        decrypt_from-append p (key i) (size - i - 1) (pad i) (zero_bytes p ∷ [])
        ∙ ap
            (λ (n : ℕ).
              decrypt_from p (key i) (size - i - 1) (pad i)
              ++ (p.symmetric_decrypt (key i) n (zero_bytes p) ∷ []))
            (omega (arith, length-pad i))

    -- Row `i` as the loops leave it.
    abbrev pub filled_row : ℕ → List (Header p)
    filled_row i = replicate (size - i) blank ++ map raw (pad i)

    filled_next :
        (i : ℕ)
        → suc i < size
        → (replicate (size - i - 1) blank
              ++ map raw (decrypt_from p (key i) (size - i - 1) (pad i)))
            ++ (raw (p.symmetric_decrypt (key i) (size + 1) (zero_bytes p)) ∷ [])
          ≡ filled_row (suc i)
    filled_next i h =
        let dec = decrypt_from p (key i) (size - i - 1) (pad i) in
        append_assoc (replicate (size - i - 1) blank) (map raw dec) _
        ∙ ap₂ (λ (n : ℕ) (hs : List (Header p)). replicate n blank ++ hs) (omega arith)
            (sym (map-append raw dec _) ∙ ap (map raw) (sym (pad-suc i (omega arith))))

    length-whole :
        (i : ℕ)
        → suc i < size
        → length (
            replicate (size - i - 1) blank
            ++ map raw (decrypt_from p (key i) (size - i - 1) (pad i)))
          ≡ size - 1
    length-whole i h =
        let dec = decrypt_from p (key i) (size - i - 1) (pad i) in
        length-append (replicate (size - i - 1) blank) (map raw dec)
        ∙ ap₂ ◌+◌ (length-replicate (size - i - 1) blank) (
            length-map raw dec
            ∙ length-decrypt_from p (key i) (size - i - 1) (pad i)
            ∙ length-pad i)
        ∙ omega arith

    zero_pack :
        (change : List Byte → List Byte)
        → force_pack b p (zero_header p) change ≡ raw (change (zero_bytes p))
    unfolding force_pack zero_header
    zero_pack change = refl

    -- One round of the outer loop.
    fill_round :
        (i : ℕ) (t : List (List (Header p)))
        → suc i < size
        → get_elem? t i ≡ some (filled_row i)
        → get_elem? t (i + 1) ≡ some (replicate size blank)
        → (t' t'' : List (List (Header p))) × (fill_row b p
              (size - 1 - (size - i - 1))
              i
              (size - i - 1)
              (key i)
              t
            ≡ ok t')
          × (write2 t'
                (i + 1)
                (size - 1)
                (force_pack b p (zero_header p) (p.symmetric_decrypt (key i) (size + 1)))
              ≡ ok t'')
          × (get_elem? t'' (i + 1) ≡ some (filled_row (suc i)))
          × ((r : ℕ) → r ≢ i + 1 → get_elem? t'' r ≡ get_elem? t r)
    fill_round i t h e e' =
        let j = size - i - 1 in
        let rest : List (Header p) = map raw (pad i) in
        let front : List (Header p) = replicate j blank in
        let sized : length rest ≡ i = length-map raw (pad i) ∙ length-pad i in
        let blanks : replicate size blank ≡ front ++ replicate (suc (length rest)) blank =
          ap (λ (n : ℕ). replicate n blank) (omega arith)
          ∙ replicate-add j (suc (length rest)) blank in
        let (t1, run1, here1, frame1) =
          fill_row_lem i j (key i) t (replicate (size - i) blank) front rest
            (length-replicate (size - i) blank ∙ omega arith) (length-replicate j blank) e
            (e' ∙ ap some blanks) in
        let v : Header p = raw (p.symmetric_decrypt (key i) (size + 1) (zero_bytes p)) in
        let dec = decrypt_from p (key i) j (pad i) in
        let whole : List (Header p) = front ++ map raw dec in
        let row : get_elem? t1 (i + 1) ≡ some (whole ++ (blank ∷ [])) =
          here1
          ∙ ap
              (λ (hs : List (List Byte)).
                some (front ++ (map raw (decrypt_from p (key i) j hs) ++ (blank ∷ []))))
              (header_bytes-raw b p (pad i))
          ∙ ap some (sym (append_assoc front (map raw dec) (blank ∷ []))) in
        let (t2, run2, here2, frame2) = write2_lem t1 (i + 1) (size - 1) v row (
          ap (λ (k : ℕ). write (whole ++ (blank ∷ [])) k v) (sym (length-whole i h))
          ∙ write-append whole blank v []) in
        (
          t1,
          t2,
          ap (λ (n : ℕ). fill_row b p n i j (key i) t) (omega arith) ∙ run1,
          ap (λ (w : Header p). write2 t1 (i + 1) (size - 1) w)
                (zero_pack (p.symmetric_decrypt (key i) (size + 1)))
              ∙ run2,
          here2 ∙ ap some (filled_next i h),
          λ r ne. frame2 r ne ∙ frame1 r ne,
        )

    i-eq-add_zero : (i : ℕ) → i ≡ i + 0
    i-eq-add_zero i = omega arith

    fill_rows_lem :
        (count i : ℕ) (keys : List p.SymmetricKey) (t : List (List (Header p)))
        → i + count < size
        → ((r : ℕ) → r < i + count → index keys r ≡ ok (key r))
        → get_elem? t i ≡ some (filled_row i)
        → ((r : ℕ) → i < r → r < size → get_elem? t r ≡ some (replicate size blank))
        → (t' : List (List (Header p))) × (fill_rows b p size count i keys t ≡ ok t')
          × (get_elem? t' (i + count) ≡ some (filled_row (i + count)))
    unfolding fill_rows
    fill_rows_lem zero i keys t h hk e blanks =
        (t, refl, subst (λ (k : ℕ). get_elem? t k ≡ some (filled_row k)) (i-eq-add_zero i) e)
    fill_rows_lem (suc count) i keys t h hk e blanks =
        let (t1, t2, run1, run2, here, frame) =
          fill_round i t (omega arith) e (blanks (i + 1) (omega arith) (omega arith)) in
        let next : i + 1 ≡ suc i = omega arith in
        let (t3, run3, row) =
          fill_rows_lem count (i + 1) keys t2 (omega arith) (λ r hr. hk r (omega arith))
            (here ∙ ap (λ (k : ℕ). some (filled_row k)) (sym next))
            (λ r hr hs. frame r (omega arith) ∙ blanks r (omega arith) hs) in
        let sum : i + 1 + count ≡ i + suc count = omega arith in
        (
          t3,
          rw (hk i (omega arith), run1, run2) run3,
          subst (λ (k : ℕ). get_elem? t3 k ≡ some (filled_row k)) sum row,
        )

    -- Started on a blank table, with a key for each of the first `count` rows and fewer of these than
    -- rows, the loops of `onionize` over `header_blocks` never leave the table, and row `count` ends up
    -- with the padding that the hops with these keys will append (`filled_row`).
    pub fill_rows-blank :
        (count : ℕ) (keys : List p.SymmetricKey)
        → count < size
        → ((r : ℕ) → r < count → index keys r ≡ ok (key r))
        → (t : List (List (Header p))) × (fill_rows b p size count 0 keys
              (replicate size (replicate size blank))
            ≡ ok t)
          × (get_elem? t count ≡ some (filled_row count))
    fill_rows-blank count keys h hk =
        let zero_sum : 0 + count ≡ count = omega arith in
        let (t, run, row) =
          fill_rows_lem count 0 keys (replicate size (replicate size blank)) (omega arith)
            (λ r hr. hk r (omega arith))
            (get_elem?-replicate size 0 (replicate size blank) (omega arith) ∙ ap some first_row)
            (λ r hr hs. get_elem?-replicate size r (replicate size blank) hs) in
        (t, run, subst (λ (k : ℕ). get_elem? t k ≡ some (filled_row k)) zero_sum row)
      where
        minus_zero : size ≡ size - 0
        minus_zero = omega arith

        first_row : replicate size blank ≡ filled_row 0
        first_row = unfold pad in ap (λ (n : ℕ). replicate n blank) minus_zero ∙ sym (append-nil _)
