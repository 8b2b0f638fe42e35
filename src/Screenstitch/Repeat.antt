-- ===== src/Screenstitch/Repeat.antt =====
-- A frame that is captured twice (internal/screenstitch/screenstitch.go): the votes agree on no
-- scroll, and nothing is logged again.
use mathlib.Core.List.{Perm, append_assoc, mem-cons_self, mem-singleton}
use mathlib.Core.List.Perm
use arcmux.Prelude.{
  ℕ, ℤ, pos, zero, suc, sub_ℕ, ◌+◌, ◌≤◌, ◌≡◌, refl, ap, ◌∙◌, subst, Bool, true, ◌&&◌, some, List,
  [], ◌∷◌, ◌++◌, length, get_elem?, arith, if◌then◌else◌, ◌==◌, Bool-cases, inl, inr, length-append,
}
use arcmux.Prelude.Text.{Text, text_eq_refl}
use arcmux.Screenstitch.Lines.{normalize, dedup_key}
use arcmux.Screenstitch.Align.{
  count, position, bump, vote, best_of, is_anchor, unique_anchor_index, tally_from, scroll_delta,
  line_at,
}
use arcmux.Screenstitch.{
  Merger, Kept, keys, window, is_unchanged, add_changed, add_aligned, kept_lines, ingest,
}
use arcmux.Screenstitch.Merge.{trim-trim}

count-append : (a : Text) (xs ys : List Text) → count a (xs ++ ys) ≡ count a xs + count a ys
unfolding count
count-append a [] ys = omega arith
count-append a (x ∷ xs) ys = ground (arith, count-append a xs ys)

position_behind :
    (a : Text) (i : ℕ) (xs ys : List Text)
    → count a xs ≡ 0
    → position a i (xs ++ a ∷ ys) ≡ some (i + length xs)
unfolding count position
position_behind a i [] ys h = rw (text_eq_refl a) (ap some (omega arith))
position_behind a i (x ∷ xs) ys h = ground (arith, position_behind a (suc i) xs ys)

get_elem?_behind : (l : Text) (xs ys : List Text) → get_elem? (xs ++ l ∷ ys) (length xs) ≡ some l
get_elem?_behind l [] ys = refl
get_elem?_behind l (x ∷ xs) ys = get_elem?_behind l xs ys

-- A tally of `n` votes, all for no scroll
abbrev no_scroll : ℕ → List (ℤ × ℕ)
no_scroll zero = []
no_scroll (suc n) = (pos 0, suc n) ∷ []

bump-no_scroll : (n : ℕ) → bump (pos 0) (no_scroll n) ≡ no_scroll (suc n)
unfolding bump
bump-no_scroll zero = refl
bump-no_scroll (suc n) = ap (λ k. (pos 0, k) ∷ []) (omega arith)

sub_self : (n : ℕ) → sub_ℕ n n ≡ pos 0
sub_self n = ground arith

module _ (is_space : ℕ → Bool) where
  -- The anchors of a frame that occur once in it
  abbrev is_unique : List Text → Text → Bool
  is_unique frame l = is_anchor is_space l && count l frame == 1

  abbrev pub unique_anchors : List Text → List Text → ℕ
  unique_anchors frame [] = 0
  unique_anchors frame (l ∷ ls) =
      let rest = unique_anchors frame ls in if is_unique frame l then suc rest else rest

  unique_before :
      (xs : List Text) (l : Text) (ys : List Text)
      → is_unique (xs ++ l ∷ ys) l ≡ true
      → count l xs ≡ 0
  unfolding count
  unique_before xs l ys h = ground (arith, count-append l xs (l ∷ ys), text_eq_refl l)

  unique_index :
      (xs : List Text) (l : Text) (ys : List Text)
      → is_unique (xs ++ l ∷ ys) l ≡ true
      → unique_anchor_index is_space (xs ++ l ∷ ys) l ≡ some (length xs)
  unfolding unique_anchor_index
  unique_index xs l ys h =
      rw (h, unique_anchor_index)
        (position_behind l 0 xs ys (unique_before xs l ys h) ∙ ap some (omega arith))

  vote_in_place :
      (xs : List Text) (l : Text) (ys : List Text) (n : ℕ)
      → is_unique (xs ++ l ∷ ys) l ≡ true
      → vote (length xs) (unique_anchor_index is_space (xs ++ l ∷ ys) l) (no_scroll n)
        ≡ no_scroll (suc n)
  unfolding vote
  vote_in_place xs l ys n h =
      rw (unique_index xs l ys h)
        (ap (λ d. bump d (no_scroll n)) (sub_self (length xs)) ∙ bump-no_scroll n)

  vote_at :
      (frame xs : List Text) (l : Text) (ys : List Text) (n i : ℕ)
      → xs ++ l ∷ ys ≡ frame
      → length xs ≡ i
      → is_unique frame l ≡ true
      → vote i (unique_anchor_index is_space frame l) (no_scroll n) ≡ no_scroll (suc n)
  vote_at frame xs l ys n i e k u =
      subst
        (λ f.
          is_unique f l ≡ true
          → vote i (unique_anchor_index is_space f l) (no_scroll n) ≡ no_scroll (suc n))
        e (λ v. rw (← k) (vote_in_place xs l ys n v)) u

  regroup : (xs : List Text) (l : Text) (ys : List Text) → (xs ++ l ∷ []) ++ ys ≡ xs ++ l ∷ ys
  regroup xs l ys = append_assoc xs (l ∷ []) ys

  tally_in_place :
      (frame xs ys : List Text) (n i : ℕ)
      → xs ++ ys ≡ frame
      → length xs ≡ i
      → tally_from is_space frame frame i ys (no_scroll n) ≡ no_scroll (n + unique_anchors frame ys)
  unfolding tally_from
  tally_in_place frame xs [] n i e k = ap no_scroll (omega arith)
  tally_in_place frame xs (l ∷ ys) n i e k =
      let next = λ (m : ℕ).
        tally_in_place frame (xs ++ l ∷ []) ys m (suc i) (regroup xs l ys ∙ e)
          (omega (arith, length-append xs (l ∷ []))) in
      elim (Bool-cases (is_unique frame l)) [
        | inl u ↦ rw u (
            ap (λ t. tally_from is_space frame frame (suc i) ys t) (vote_at frame xs l ys n i e k u)
            ∙ (next (suc n) ∙ ap no_scroll (omega arith)))
        | inr u ↦ rw u (next n)
      ]

votes-set : IsSet (ℤ × ℕ)
votes-set = hlevel

Perm-one : (t : List (ℤ × ℕ)) (x : ℤ × ℕ) → Perm t (x ∷ []) → t ≡ x ∷ []
Perm-one [] x p = cc (Perm.nil-eq p)
Perm-one (y ∷ t) x p =
    let e : y ≡ x = (mem-singleton votes-set).0 ((Perm.mem_iff p).0 mem-cons_self) in
    let q : Perm (x ∷ t) (x ∷ []) = rw e at p in cc (e, Perm.eq-nil (Perm.cons_inv q))

module _ (is_space : ℕ → Bool) (order : List (ℤ × ℕ) → List (ℤ × ℕ))
    (visits : (t : List (ℤ × ℕ)) → Perm (order t) t) where
  best_in_place :
      (n : ℕ)
      → 2 ≤ n
      → best_of (record { delta = pos 0; votes = 0 }) (order (no_scroll n))
        ≡ record { delta = pos 0; votes = n }
  unfolding best_of
  best_in_place zero h = absurd (omega arith)
  best_in_place (suc n) h =
      rw (Perm-one (order (no_scroll (suc n))) (pos 0, suc n) (visits _)) (ground arith)

  scroll_delta_in_place :
      (frame : List Text)
      → 2 ≤ unique_anchors is_space frame frame
      → scroll_delta is_space order frame frame
        ≡ some (record { delta = pos 0; votes = unique_anchors is_space frame frame })
  unfolding scroll_delta
  scroll_delta_in_place frame h =
      let n = unique_anchors is_space frame frame in
      let t : tally_from is_space frame frame 0 frame [] ≡ no_scroll n =
        tally_in_place is_space frame [] frame 0 0 refl refl ∙ ap no_scroll (omega arith) in
      rw (t, best_in_place n h) (ground arith)

  unchanged_in_place :
      (xs : List Text) (l : Text) (ys : List Text)
      → is_unchanged is_space order (line_at (xs ++ l ∷ ys) (length xs) (pos 0)) l ≡ true
  unfolding is_unchanged line_at
  unchanged_in_place xs l ys =
      let e : get_elem? (xs ++ l ∷ ys) (length xs + 0) ≡ some l =
        ap (get_elem? (xs ++ l ∷ ys)) (omega arith) ∙ get_elem?_behind l xs ys in
      rw (e, is_unchanged) (rw (text_eq_refl (dedup_key l)) refl)

  add_changed_in_place :
      (frame xs ys : List Text) (i : ℕ) (k : Kept)
      → xs ++ ys ≡ frame
      → length xs ≡ i
      → add_changed is_space order (pos 0) frame i ys k ≡ k
  unfolding add_changed
  add_changed_in_place frame xs [] i k e n = refl
  add_changed_in_place frame xs (l ∷ ys) i k e n =
      let same : is_unchanged is_space order (line_at frame i (pos 0)) l ≡ true =
        subst (λ f. is_unchanged is_space order (line_at f i (pos 0)) l ≡ true) e
          (rw (← n) (unchanged_in_place xs l ys)) in
      rw same (
        add_changed_in_place frame (xs ++ l ∷ []) ys (suc i) k (append_assoc xs (l ∷ []) ys ∙ e)
          (omega (arith, length-append xs (l ∷ []))))

  kept_in_place :
      (m : Merger) (frame : List Text)
      → m.have_prev ≡ true
      → m.prev ≡ frame
      → 2 ≤ unique_anchors is_space frame frame
      → kept_lines is_space order m frame ≡ []
  unfolding kept_lines add_aligned
  kept_in_place m frame had same h =
      let k : Kept = record { recent = keys (window m.lookback m.transcript); lines = [] } in
      rw (had, same, scroll_delta_in_place frame h)
        (ap (λ (j : Kept). j.lines) (add_changed_in_place frame [] frame 0 k refl refl))

  -- A frame with two anchors at least that occur once in it, captured a second time at once, logs
  -- nothing and leaves the transcript as it is, whatever the window and the bound are.
  pub ingest-ingest :
      (raw : Text) (m : Merger)
      → 2 ≤ unique_anchors is_space (normalize raw) (normalize raw)
      → let m' = (ingest is_space order raw m).1 in
        ((ingest is_space order raw m').0 ≡ [])
        × ((ingest is_space order raw m').1.transcript ≡ m'.transcript)
  unfolding ingest
  ingest-ingest raw m h =
      let none_kept = kept_in_place (ingest is_space order raw m).1 (normalize raw) refl refl h in
      (none_kept, rw none_kept (trim-trim m.max_lines (m.transcript ++ _)))
