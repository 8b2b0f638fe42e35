-- ===== src/Screenstitch/Tests.antt =====
-- Frames of a terminal (internal/screenstitch/screenstitch.go).
use arcmux.Prelude.{ℕ, ℤ, ◌==◌, ◌≤◌, ◌≡◌, refl, Bool, List, [], ◌∷◌, ◌++◌, length, All, arith}
use mathlib.Core.List.Perm
use arcmux.Prelude.Text.{Text, codes, text_eq, trim_left}
use arcmux.Screenstitch.Align.{is_anchor, count}
use arcmux.Screenstitch.Lines.{dedup_key, normalize}
use arcmux.Screenstitch.{Merger, new_merger, keys, window, kept_lines, ingest}
use arcmux.Screenstitch.Merge.{ingest-bounded}
use arcmux.Screenstitch.Dedup.{IsNew, Distinct, ingest-kept}
use arcmux.Screenstitch.Repeat.{ingest-ingest}

abbrev space : ℕ → Bool
space c = c == 32

abbrev in_order : List (ℤ × ℕ) → List (ℤ × ℕ)
in_order t = t

abbrev merger : Merger
merger = new_merger 2

-- Two lines that can anchor, and one that cannot.
abbrev frame : Text
frame = codes "reading the files" ++ 10 ∷ codes "editing monitor.go" ++ 10 ∷ codes "ok"

ingest-bounded_example : length (ingest space in_order frame merger).1.transcript ≤ 2
unfolding new_merger
ingest-bounded_example = ingest-bounded space in_order frame merger (omega arith)

ingest-kept_example :
    All
      (IsNew (keys (window merger.lookback merger.transcript)))
      (ingest space in_order frame merger).0
    × Distinct (ingest space in_order frame merger).0
ingest-kept_example = ingest-kept space in_order frame merger

ingest-ingest_example :
    let m' = (ingest space in_order frame merger).1 in
    ((ingest space in_order frame m').0 ≡ [])
    × ((ingest space in_order frame m').1.transcript ≡ m'.transcript)
unfolding normalize is_anchor trim_left count text_eq
ingest-ingest_example = ingest-ingest space in_order Perm.refl frame merger (omega arith)

three_lines : length (ingest space in_order frame merger).0 ≡ 3
unfolding ingest new_merger kept_lines normalize text_eq dedup_key
three_lines = refl
