-- ===== src/Screenstitch/Lines.antt =====
-- One line of a capture (internal/screenstitch/screenstitch.go): escape sequences, rules, keys.
use Prim.Native.Nat.{◌/◌}
use arcmux.Prelude.{
  ℕ, suc, ◌*◌, ◌≢◌, Bool, false, ◌&&◌, ◌||◌, not, Option, some, none, List, [], ◌∷◌, map, length,
  all, take, leb, ltb, ◌==◌, if◌then◌else◌, arith, All, if_cases,
}
use arcmux.Prelude.Text.{
  Text, text_eq, has_prefix, trim as trim_text, trim_left, trim_right, keep_right, split,
}

-- Where the loop of StripUniversal stands: on text, behind an escape, or in a CSI sequence.
pub data Mode : Type 0 where
  plain escaped csi : Mode

abbrev escape : ℕ
escape = 27

abbrev plain_next : ℕ → Mode
plain_next c = if c == escape then escaped else plain

unfoldable pub next_mode : Mode → ℕ → Mode
next_mode plain c = plain_next c
next_mode escaped c = if c == b'[' then csi else plain_next c
next_mode csi c = if leb b'@' c && leb c b'~' then plain else csi

unfoldable pub is_written : Mode → ℕ → Bool
is_written plain c = not (c == escape)
is_written escaped c = not (c == b'[') && not (c == escape)
is_written csi c = false

unfoldable pub strip_from : Mode → Text → Text
unfolding next_mode is_written
strip_from m [] = []
strip_from m (c ∷ s) =
    let rest = strip_from (next_mode m c) s in if is_written m c then c ∷ rest else rest

unfoldable pub is_trailing : ℕ → Bool
is_trailing c = c == b' ' || (c == 9 || (c == 13 || c == 10))

unfoldable pub strip_universal : Text → Text
unfolding strip_from is_trailing trim_right
strip_universal line = trim_right is_trailing (strip_from plain line)

-- `lines[:n-1]` if the last line is empty
unfoldable pub drop_last_empty : List Text → List Text
drop_last_empty [] = []
drop_last_empty (l ∷ []) = if text_eq l [] then [] else l ∷ []
drop_last_empty (l ∷ m ∷ ls) = l ∷ drop_last_empty (m ∷ ls)

unfoldable pub normalize : Text → List Text
unfolding drop_last_empty strip_universal split
normalize raw = map strip_universal (drop_last_empty (split 10 raw))

unfoldable pub is_blank_code : ℕ → Bool
is_blank_code c = c == b' ' || c == 9

unfoldable pub dedup_key : Text → Text
unfolding is_blank_code trim_right
dedup_key s = trim_right is_blank_code s

abbrev pub rule_min_len : ℕ
rule_min_len = 30

-- '─'
abbrev rule_code : ℕ
rule_code = 9472

-- '❯'
abbrev prompt_code : ℕ
prompt_code = 10095

-- The last index from `i` on whose line passes the test
unfoldable pub last_index : (Text → Bool) → ℕ → List Text → Option ℕ
last_index p i [] = none
last_index p i (l ∷ ls) = elim (last_index p (suc i) ls) [
  | none ↦ if p l then some i else none
  | some j ↦ some j
]

unfoldable pub is_prompt : Text → Bool
unfolding is_blank_code
is_prompt l = has_prefix (trim_left is_blank_code l) (prompt_code ∷ [])

abbrev or_else : Option ℕ → ℕ → ℕ
or_else none d = d
or_else (some i) d = i

-- At or after `start`
abbrev from_start : ℕ → Option ℕ → Option ℕ
from_start start none = none
from_start start (some i) = if leb start i then some i else none

module _ (is_space : ℕ → Bool) where
  unfoldable pub is_rule : Text → Bool
  is_rule line =
      let t = trim_text is_space line in
      if ltb (length t) rule_min_len then false else all (λ c. c == rule_code || c == b' ') t

  unfoldable pub region_cut : Option ℕ → List Text → ℕ
  unfolding is_rule
  region_cut (some prompt) frame = or_else (last_index is_rule 0 (take prompt frame)) prompt
  region_cut none frame =
      or_else (from_start (length frame * 2 / 3) (last_index is_rule 0 frame)) (length frame)

  unfoldable pub transcript_region : List Text → List Text
  unfolding region_cut is_prompt last_index
  transcript_region frame = take (region_cut (last_index is_prompt 0 frame) frame) frame

strip_from-no_escape : (m : Mode) (s : Text) → All (λ c. c ≢ 27) (strip_from m s)
unfolding strip_from
strip_from-no_escape m [] = tt
strip_from-no_escape plain (c ∷ s) = ground (arith, strip_from-no_escape (next_mode plain c) s)
strip_from-no_escape escaped (c ∷ s) = ground (arith, strip_from-no_escape (next_mode escaped c) s)
strip_from-no_escape csi (c ∷ s) = ground (arith, strip_from-no_escape (next_mode csi c) s)

All-trim_right : (f : ℕ → Bool) (P : ℕ → Type 0) (s : Text) → All P s → All P (trim_right f s)
unfolding trim_right
All-trim_right f P [] h = tt
All-trim_right f P (x ∷ s) h = keep (trim_right f s) (All-trim_right f P s h.1)
  where
    keep : (t : Text) → All P t → All P (keep_right f x t)
    keep [] k = if_cases (All P) (f x) (λ _. tt) (λ _. (h.0, tt))
    keep (y ∷ t) k = (h.0, k)

-- A stripped line has no escape character left.
pub strip_universal-no_escape : (line : Text) → All (λ c. c ≢ 27) (strip_universal line)
unfolding strip_universal
strip_universal-no_escape line =
    All-trim_right is_trailing (λ c. c ≢ 27) (strip_from plain line)
      (strip_from-no_escape plain line)
