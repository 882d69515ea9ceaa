-- ===== src/Onionize/Random.antt =====
-- The loop of `onionize` that fills the rest of the last row with random headers.
use eror.Prelude.{
  ℕ, zero, suc, ◌+◌, ◌≡◌, refl, sym, ap, ◌∙◌, List, [], ◌∷◌, ◌++◌, append_assoc, map, some, length,
  length-append, get_elem?, replicate, All, arith,
}
use eror.Prelude.Outcome.{ok}
use eror.Prelude.Index.{write-append}
use eror.Bytes.{Byte}
use eror.Serde.{Bincode}
use eror.Primitives.{Primitives}
use eror.Onion.{Header, raw}
use eror.Format.{random_header, random_bytes, single_header_length}
use eror.Onionize.{fill_random, blank_header}
use eror.Onionize.Table.{write2}
use eror.Onionize.Table.Fill.{write2_lem}

pub length-random_bytes : (p : Primitives) (n : ℕ) (r : p.Rng) → length (random_bytes p n r).0 ≡ n
unfolding random_bytes
length-random_bytes p zero r = refl
length-random_bytes p (suc n) r = ap suc (length-random_bytes p n (p.gen_u8 r).1)

module _ (b : Bincode) (p : Primitives) where
  -- The bytes of the next random header.
  abbrev pub drawn : p.Rng → List Byte × p.Rng
  drawn r = random_bytes p (single_header_length p) r

  fill_random_step :
      (count j row : ℕ) (t t' : List (List (Header p))) (r : p.Rng)
      → write2 t row j (raw (drawn r).0) ≡ ok t'
      → fill_random b p (suc count) j row t r ≡ fill_random b p count (j + 1) row t' (drawn r).1
  unfolding fill_random random_header
  fill_random_step count j row t t' r e = rw (e, write2) refl

  -- `count` blank headers behind `front` become random ones.
  pub fill_random_lem :
      (count row : ℕ) (front tail : List (Header p)) (t : List (List (Header p))) (r : p.Rng)
      → get_elem? t row ≡ some (front ++ (replicate count (blank_header b p) ++ tail))
      → (hs : List (List Byte)) × (t' : List (List (Header p))) × (r' : p.Rng) × (fill_random b p
            count
            (length front)
            row
            t
            r
          ≡ ok (t', r'))
        × (get_elem? t' row ≡ some (front ++ (map raw hs ++ tail)))
        × (length hs ≡ count)
        × All (λ x. length x ≡ single_header_length p) hs
  unfolding fill_random
  fill_random_lem zero row front tail t r e = ([], t, r, refl, e, refl, tt)
  fill_random_lem (suc count) row front tail t r e =
      let x = (drawn r).0 in
      let rest = replicate count (blank_header b p) ++ tail in
      let (t1, run, here, _) =
        write2_lem t row (length front) (raw x) e
          (write-append front (blank_header b p) (raw x) rest) in
      let (hs, t2, r2, run', row', count', sized) =
        fill_random_lem count row (front ++ (raw x ∷ [])) tail t1 (drawn r).1
          (here ∙ ap some (sym (append_assoc front (raw x ∷ []) rest))) in
      let next : length front + 1 ≡ length (front ++ (raw x ∷ [])) =
        omega (arith, length-append front (raw x ∷ [])) in
      (
        x ∷ hs,
        t2,
        r2,
        fill_random_step count (length front) row t t1 r run
            ∙ ap (λ (j : ℕ). fill_random b p count j row t1 (drawn r).1) next
            ∙ run',
        row' ∙ ap some (append_assoc front (raw x ∷ []) (map raw hs ++ tail)),
        ap suc count',
        (length-random_bytes p (single_header_length p) r, sized),
      )
