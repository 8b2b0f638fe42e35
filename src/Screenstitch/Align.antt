-- ===== src/Screenstitch/Align.antt =====
-- The scroll between two frames (internal/screenstitch/screenstitch.go): anchors, votes, volatile
-- spans.
use arcmux.Prelude.{
  ℕ, ℤ, pos, negsuc, sub_ℕ, zero, suc, ◌+◌, ◌-◌, ◌*◌, Bool, false, ◌&&◌, ◌||◌, not, Option, some,
  none, List, [], ◌∷◌, ◌++◌, length, take, drop, get_elem?, any, leb, ltb, ◌==◌, if◌then◌else◌,
}
use arcmux.Prelude.Text.{Text, text_eq, contains, trim as trim_text}
use mathlib.Core.List.{reverse}

abbrev pub anchor_min_len : ℕ
anchor_min_len = 12

abbrev pub anchor_min_distinct : ℕ
anchor_min_distinct = 6

abbrev pub min_agreeing_anchors : ℕ
min_agreeing_anchors = 2

abbrev is_upper : ℕ → Bool
is_upper c = leb b'A' c && leb c b'Z'

-- c < 128 && (unicode.IsLetter(c) || unicode.IsDigit(c))
unfoldable pub is_ascii_alnum : ℕ → Bool
is_ascii_alnum c = is_upper c || (leb b'a' c && leb c b'z' || leb b'0' c && leb c b'9')

unfoldable pub ascii_lower : ℕ → ℕ
ascii_lower c = if is_upper c then c + 32 else c

-- The distinct lower-cased alphanumeric characters
unfoldable pub distinct : Text → List ℕ → List ℕ
unfolding is_ascii_alnum ascii_lower
distinct [] seen = seen
distinct (c ∷ s) seen = distinct s (
    if is_ascii_alnum c && not (any (λ d. d == ascii_lower c) seen)
    then ascii_lower c ∷ seen
    else seen)

-- How often a line occurs in a frame
unfoldable pub count : Text → List Text → ℕ
count a [] = 0
count a (l ∷ ls) = let rest = count a ls in if text_eq l a then suc rest else rest

-- The index of the first occurrence, from `i` on
unfoldable pub position : Text → ℕ → List Text → Option ℕ
position a i [] = none
position a i (l ∷ ls) = let rest = position a (suc i) ls in if text_eq l a then some i else rest

unfoldable pub eq_ℤ : ℤ → ℤ → Bool
eq_ℤ (pos a) (pos b) = a == b
eq_ℤ (negsuc a) (negsuc b) = a == b
eq_ℤ (pos a) (negsuc b) = false
eq_ℤ (negsuc a) (pos b) = false

-- tally[d]++
unfoldable pub bump : ℤ → List (ℤ × ℕ) → List (ℤ × ℕ)
unfolding eq_ℤ
bump d [] = (d, 1) ∷ []
bump d ((e, n) ∷ t) = let rest = bump d t in if eq_ℤ e d then (e, n + 1) ∷ t else (e, n) ∷ rest

unfoldable pub vote : ℕ → Option ℕ → List (ℤ × ℕ) → List (ℤ × ℕ)
unfolding bump
vote i none t = t
vote i (some j) t = bump (sub_ℕ i j) t

pub record Delta : Type 0 where
  pub delta : ℤ
  pub votes : ℕ

-- The loop over the tally
unfoldable pub best_of : Delta → List (ℤ × ℕ) → Delta
best_of b [] = b
best_of b ((d, n) ∷ t) = best_of (if ltb b.votes n then record { delta = d; votes = n } else b) t

-- The last `d` lines of a frame, or all of them where it cannot have scrolled so
unfoldable pub scrolled_in : ℤ → List Text → List Text
scrolled_in (pos zero) cur = []
scrolled_in (pos (suc d)) cur =
    if leb (suc d) (length cur) then drop (length cur - suc d) cur else cur
scrolled_in (negsuc d) cur = cur

module _ (is_space : ℕ → Bool) where
  unfoldable pub is_anchor : Text → Bool
  unfolding distinct
  is_anchor line =
      let t = trim_text is_space line in
      if ltb (length t) anchor_min_len
      then false
      else leb anchor_min_distinct (length (distinct t []))

  -- uniqueAnchorIndex, as the map that it returns
  unfoldable pub unique_anchor_index : List Text → Text → Option ℕ
  unfolding count position
  unique_anchor_index frame line =
      if is_anchor line && count line frame == 1 then position line 0 frame else none

  -- The votes of the lines of `prev` from index `i` on. The entries of the index of `prev` are the
  -- lines that it maps to their own place.
  unfoldable pub tally_from : List Text → List Text → ℕ → List Text → List (ℤ × ℕ) → List (ℤ × ℕ)
  unfolding vote
  tally_from prev cur i [] t = t
  tally_from prev cur i (l ∷ ls) t =
      tally_from prev cur (suc i) ls
        (if is_anchor l && count l prev == 1 then vote i (unique_anchor_index cur l) t else t)

  module _ (order : List (ℤ × ℕ) → List (ℤ × ℕ)) where
    unfoldable pub scroll_delta : List Text → List Text → Option Delta
    unfolding tally_from best_of
    scroll_delta prev cur =
        let b =
          best_of (record { delta = pos 0; votes = 0 }) (order (tally_from prev cur 0 prev [])) in
        if leb min_agreeing_anchors b.votes then some b else none

    unfoldable pub new_lines : List Text → List Text → List Text
    unfolding scroll_delta scrolled_in
    new_lines prev cur = elim (scroll_delta prev cur) [
      | none ↦ cur
      | some b ↦ scrolled_in b.delta cur
    ]

  -- How much of a mask is stable: stableRatio(mask) >= 0.5
  unfoldable pub is_half_stable : ℕ → ℕ → Text → Bool
  unfolding is_ascii_alnum
  is_half_stable alnum total [] = leb total (2 * alnum) && (ltb 0 total || ltb 0 alnum)
  is_half_stable alnum total (c ∷ s) =
      is_half_stable (if is_ascii_alnum c then alnum + 1 else alnum)
        (if is_space c then total else total + 1) s

-- How far two texts agree
unfoldable pub common_prefix : Text → Text → ℕ
common_prefix [] b = 0
common_prefix (x ∷ a) [] = 0
common_prefix (x ∷ a) (y ∷ b) = let rest = common_prefix a b in if x == y then suc rest else 0

-- '§'
abbrev pub mask_code : ℕ
mask_code = 167

unfoldable pub mask_volatile : Text → Text → Text
unfolding common_prefix
mask_volatile a b =
    let p = common_prefix a b in
    let k = common_prefix (reverse (drop p a)) (reverse (drop p b)) in
    if text_eq a b then a else take p a ++ mask_code ∷ drop (length a - k) a

unfoldable pub is_status_update : (ℕ → Bool) → Text → Text → Bool
unfolding mask_volatile is_half_stable contains
is_status_update is_space prev_tail cur_tail =
    let mask = mask_volatile prev_tail cur_tail in
    if text_eq prev_tail cur_tail
    then false
    else contains mask (mask_code ∷ []) && is_half_stable is_space 0 0 mask

-- The line of `prev` that line `i` of the capture sat at
unfoldable pub line_at : List Text → ℕ → ℤ → Option Text
line_at prev i (pos d) = get_elem? prev (i + d)
line_at prev i (negsuc d) = if leb (suc d) i then get_elem? prev (i - suc d) else none
