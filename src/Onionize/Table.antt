-- ===== src/Onionize/Table.antt =====
-- src/lib.rs, `OnionFormat::onionize`: the table `header_blocks`, a vector of rows, and the loops
-- that fill in its deterministic part.
pub mod Fill
use eror.Prelude.{ℕ, zero, suc, ◌+◌, ◌-◌, List}
use eror.Prelude.Outcome.{Outcome, ok, index, write, ◌>>=◌}
use eror.Serde.{Bincode}
use eror.Primitives.{Primitives}
use eror.Onion.{Header, raw, into_bytes, force_pack}
use eror.Format.{zero_header}

module _ {ℓ} {A : Type ℓ} where
  -- `t[i][j]` and `t[i][j] = v`
  unfoldable pub index2 : List (List A) → ℕ → ℕ → Outcome A
  index2 t i j = do row ← index t i; index row j

  unfoldable pub write2 : List (List A) → ℕ → ℕ → A → Outcome (List (List A))
  write2 t i j v = do row ← index t i; row' ← write row j v; write t i row'

module _ (b : Bincode) (p : Primitives) where
  -- The inner loop, for `count` columns from `j` on.
  unfoldable pub fill_row :
      ℕ → ℕ → ℕ → p.SymmetricKey → List (List (Header p)) → Outcome (List (List (Header p)))
  unfolding index2 write2 into_bytes
  fill_row zero i j key t = ok t
  fill_row (suc count) i j key t = do
    h ← index2 t i (j + 1)
    t' ← write2 t (i + 1) j (raw (p.symmetric_decrypt key (j + 2) (into_bytes b p h)))
    fill_row count i (j + 1) key t'

  -- The outer loop, for `count` rows from `i` on, in a table of `size` rows and columns.
  unfoldable pub fill_rows :
      ℕ → ℕ → ℕ → List p.SymmetricKey → List (List (Header p)) → Outcome (List (List (Header p)))
  unfolding fill_row write2 force_pack zero_header
  fill_rows size zero i keys t = ok t
  fill_rows size (suc count) i keys t = do
    key ← index keys i
    t' ← fill_row (size - 1 - (size - i - 1)) i (size - i - 1) key t
    t'' ←
        write2 t' (i + 1) (size - 1)
          (force_pack b p (zero_header p) (p.symmetric_decrypt key (size + 1)))
    fill_rows size count (i + 1) keys t''
