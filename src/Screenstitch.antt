-- ===== src/Screenstitch.antt =====
-- Stitching overlapping captures of a terminal into a transcript, internal/screenstitch. A line is
-- its runes; `is_space` is `unicode.IsSpace`, and `order` the order in which Go iterates over the
-- tally of votes, which the language leaves open.
pub mod Lines
pub mod Align
pub mod Merge
pub mod Dedup
pub mod Repeat
mod Tests
use arcmux.Prelude.{
  ℕ, ℤ, zero, suc, ◌+◌, ◌-◌, Bool, true, false, ◌&&◌, ◌||◌, not, Option, some, none, List, [], ◌∷◌,
  ◌++◌, length, take, drop, get_elem?, any, leb, ltb, if◌then◌else◌,
}
use arcmux.Prelude.Text.{Text, text_eq}
use Lines.{normalize, dedup_key}
use Align.{scroll_delta, is_status_update, line_at, Delta}

pub record Merger : Type 0 where
  pub prev : List Text
  pub have_prev : Bool
  pub transcript : List Text
  pub max_lines : ℕ
  pub lookback : ℕ

abbrev pub dedup_lookback : ℕ
dedup_lookback = 200

unfoldable pub new_merger : ℕ → Merger
new_merger max_lines = record {
  prev = [];
  have_prev = false;
  transcript = [];
  max_lines = max_lines;
  lookback = dedup_lookback;
}

abbrev pub keys : List Text → List Text
keys [] = []
keys (l ∷ ls) = dedup_key l ∷ keys ls

-- The keys logged recently, and the lines kept in this tick, oldest first.
pub record Kept : Type 0 where
  pub recent : List Text
  pub lines : List Text

-- The closure `add` of Ingest
unfoldable pub add : Text → Kept → Kept
add l k =
    let key = dedup_key l in
    if text_eq key []
    then k
    else if any (text_eq key) k.recent
    then k
    else record { recent = key ∷ k.recent; lines = k.lines ++ l ∷ [] }

unfoldable pub add_all : List Text → Kept → Kept
unfolding add
add_all [] k = k
add_all (l ∷ ls) k = add_all ls (add l k)

-- The window of the transcript that a frame is compared with
unfoldable pub window : ℕ → List Text → List Text
window lookback ls = if ltb lookback (length ls) then drop (length ls - lookback) ls else ls

unfoldable pub trim : ℕ → List Text → List Text
trim max_lines ls =
    if ltb 0 max_lines && ltb max_lines (length ls) then drop (length ls - max_lines) ls else ls

module _ (is_space : ℕ → Bool) (order : List (ℤ × ℕ) → List (ℤ × ℕ)) where
  -- A line is as it was at its aligned position, up to a volatile span.
  unfoldable pub is_unchanged : Option Text → Text → Bool
  is_unchanged none l = false
  is_unchanged (some p) l = text_eq (dedup_key p) (dedup_key l) || is_status_update is_space p l

  -- The aligned diff, from line `i` on
  unfoldable pub add_changed : ℤ → List Text → ℕ → List Text → Kept → Kept
  unfolding is_unchanged add
  add_changed d prev i [] k = k
  add_changed d prev i (l ∷ ls) k =
      add_changed d prev (suc i) ls (if is_unchanged (line_at prev i d) l then k else add l k)

  unfoldable pub add_aligned : Option Delta → List Text → List Text → Kept → Kept
  unfolding add_all add_changed
  add_aligned none prev cur k = add_all cur k
  add_aligned (some d) prev cur k = add_changed d.delta prev 0 cur k

  -- The lines of a frame that Ingest keeps
  unfoldable pub kept_lines : Merger → List Text → List Text
  unfolding add_aligned add_all window
  kept_lines m cur =
      let k : Kept = record { recent = keys (window m.lookback m.transcript); lines = [] } in
      if m.have_prev
      then (add_aligned (scroll_delta is_space order m.prev cur) m.prev cur k).lines
      else (add_all cur k).lines

  -- Merger.Ingest
  unfoldable pub ingest : Text → Merger → List Text × Merger
  unfolding trim
  ingest raw m =
      let cur = normalize raw in
      let kept = kept_lines m cur in
      (
        kept,
        record m {
          transcript = trim m.max_lines (m.transcript ++ kept);
          prev = cur;
          have_prev = true;
        },
      )
