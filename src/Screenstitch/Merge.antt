-- ===== src/Screenstitch/Merge.antt =====
-- The transcript that Ingest leaves (internal/screenstitch/screenstitch.go): its bound.
use arcmux.Prelude.{
  ℕ, zero, suc, ap, ◌∙◌, ℤ, ◌-◌, ◌≤◌, ◌<◌, ◌≡◌, refl, Bool, List, [], ◌++◌, length, length-drop,
  arith,
}
use mathlib.Core.List.{append-nil}
use arcmux.Prelude.Text.{Text}
use arcmux.Screenstitch.{Merger, trim, ingest}

pub length-trim : (n : ℕ) (ls : List Text) → 0 < n → length (trim n ls) ≤ n
unfolding trim
length-trim n ls h = ground (arith, length-drop (length ls - n) ls)

trim_short : (n : ℕ) (ls : List Text) → length ls ≤ n → trim n ls ≡ ls
unfolding trim
trim_short n ls h = ground arith

trim_off : (ls : List Text) → trim 0 ls ≡ ls
unfolding trim
trim_off ls = refl

-- A second trim, with nothing added between, changes nothing.
pub trim-trim : (n : ℕ) (ls : List Text) → trim n (trim n ls ++ []) ≡ trim n ls
trim-trim zero ls = ap (trim 0) (append-nil (trim 0 ls)) ∙ trim_off (trim 0 ls)
trim-trim (suc n) ls =
    rw append-nil (trim_short (suc n) (trim (suc n) ls) (length-trim (suc n) ls (omega arith)))

module _ (is_space : ℕ → Bool) (order : List (ℤ × ℕ) → List (ℤ × ℕ)) where
  -- A transcript with a bound on its lines is within the bound after every frame.
  pub ingest-bounded :
      (raw : Text) (m : Merger)
      → 0 < m.max_lines
      → length (ingest is_space order raw m).1.transcript ≤ m.max_lines
  unfolding ingest
  ingest-bounded raw m h = length-trim m.max_lines (m.transcript ++ _) h
