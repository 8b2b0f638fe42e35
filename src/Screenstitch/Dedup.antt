-- ===== src/Screenstitch/Dedup.antt =====
-- What Ingest keeps of a frame (internal/screenstitch/screenstitch.go): nothing blank, nothing twice,
-- nothing logged recently.
use arcmux.Prelude.{
  ℕ, ℤ, suc, ◌≡◌, ◌≢◌, refl, sym, ◌∙◌, Bool, true, false, Option, some, none, List, [], ◌∷◌, ◌++◌,
  any, All, All-append, Bool-cases, inl, inr, if_cases, ◌||◌,
}
use arcmux.Prelude.Text.{Text, text_eq, text_eq_refl, text_ne}
use mathlib.Core.Bool.{false≢true}
use arcmux.Screenstitch.Lines.{dedup_key, normalize}
use arcmux.Screenstitch.Align.{Delta, scroll_delta, line_at}
use arcmux.Screenstitch.{
  Merger, Kept, keys, add, add_all, window, add_changed, add_aligned, is_unchanged, kept_lines,
  ingest,
}

abbrev pub Distinct : List Text → Type 0
Distinct [] = Unit
Distinct (l ∷ ls) = All (λ x. dedup_key x ≢ dedup_key l) ls × Distinct ls

-- A line that may be logged over these recent keys
abbrev pub IsNew : List Text → Text → Type 0
IsNew recent l = (dedup_key l ≢ []) × (any (text_eq (dedup_key l)) recent ≡ false)

abbrev IsLogged : List Text → Text → Type 0
IsLogged recent l = any (text_eq (dedup_key l)) recent ≡ true

-- The invariant of the lines kept, over the recent keys that the tick began with.
record Inv (start : List Text) (k : Kept) : Type 0 where
  new : All (IsNew start) k.lines
  distinct : Distinct k.lines
  logged : All (IsLogged k.recent) k.lines
  grown : (key : Text) → any (text_eq key) start ≡ true → any (text_eq key) k.recent ≡ true

Distinct-snoc :
    (ls : List Text) (l : Text)
    → Distinct ls
    → All (λ x. dedup_key x ≢ dedup_key l) ls
    → Distinct (ls ++ l ∷ [])
Distinct-snoc [] l d h = (tt, tt)
Distinct-snoc (x ∷ ls) l d h = (
  All-append (λ y. dedup_key y ≢ dedup_key x) ls (l ∷ []) d.0 ((λ e. h.0 (sym e)), tt),
  Distinct-snoc ls l d.1 h.1,
)

All-map {ℓ} :
    {A : Type ℓ} (P Q : A → Type 0) (xs : List A) → ((x : A) → P x → Q x) → All P xs → All Q xs
All-map P Q [] f h = tt
All-map P Q (x ∷ xs) f h = (f x h.0, All-map P Q xs f h.1)

or_true : (b : Bool) → (b || true) ≡ true
or_true true = refl
or_true false = refl

unseen_before :
    (start recent : List Text) (key : Text)
    → (any (text_eq key) start ≡ true → any (text_eq key) recent ≡ true)
    → any (text_eq key) recent ≡ false
    → any (text_eq key) start ≡ false
unseen_before start recent key g u = elim (Bool-cases (any (text_eq key) start)) [
  | inl old ↦ absurd (false≢true (sym u ∙ g old))
  | inr new ↦ new
]

IsLogged-more : (r : List Text) (key : Text) (x : Text) → IsLogged r x → IsLogged (key ∷ r) x
IsLogged-more r key x h = rw h (or_true (text_eq (dedup_key x) key))

IsLogged-self : (r : List Text) (l : Text) → IsLogged (dedup_key l ∷ r) l
IsLogged-self r l = rw (text_eq_refl (dedup_key l)) refl

not_logged :
    (r : List Text) (l x : Text)
    → any (text_eq (dedup_key l)) r ≡ false
    → IsLogged r x
    → dedup_key x ≢ dedup_key l
not_logged r l x f t e = cc (rw e at t)

add-Inv : (start : List Text) (l : Text) (k : Kept) → Inv start k → Inv start (add l k)
unfolding add
add-Inv start l k v =
    let key = dedup_key l in
    if_cases (Inv start) (text_eq key []) (λ _. v)
      (λ filled.
        if_cases (Inv start) (any (text_eq key) k.recent) (λ _. v)
          (λ unseen. record {
            new = All-append (IsNew start) k.lines (l ∷ []) v.new (
              (text_ne key [] filled, unseen_before start k.recent key (v.grown key) unseen),
              tt,
            );
            distinct = Distinct-snoc k.lines l v.distinct (
                All-map (IsLogged k.recent) (λ x. dedup_key x ≢ key) k.lines
                  (λ x t. not_logged k.recent l x unseen t) v.logged);
            logged =
                All-append (IsLogged (key ∷ k.recent)) k.lines (l ∷ [])
                  (All-map (IsLogged k.recent) (IsLogged (key ∷ k.recent)) k.lines
                    (IsLogged-more k.recent key) v.logged)
                  (IsLogged-self k.recent l, tt);
            grown = λ j h. rw (v.grown j h) (or_true (text_eq j key));
          }))

add_all-Inv :
    (start : List Text) (ls : List Text) (k : Kept) → Inv start k → Inv start (add_all ls k)
unfolding add_all
add_all-Inv start [] k v = v
add_all-Inv start (l ∷ ls) k v = add_all-Inv start ls (add l k) (add-Inv start l k v)

start-Inv : (start : List Text) → Inv start (record { recent = start; lines = [] })
start-Inv start = record { new = tt; distinct = tt; logged = tt; grown = λ key h. h }

module _ (is_space : ℕ → Bool) (order : List (ℤ × ℕ) → List (ℤ × ℕ)) where
  add_changed-Inv :
      (start : List Text) (d : ℤ) (prev : List Text) (i : ℕ) (ls : List Text) (k : Kept)
      → Inv start k
      → Inv start (add_changed is_space order d prev i ls k)
  unfolding add_changed
  add_changed-Inv start d prev i [] k v = v
  add_changed-Inv start d prev i (l ∷ ls) k v = add_changed-Inv start d prev (suc i) ls _ (
      if_cases (Inv start) (is_unchanged is_space order (line_at prev i d) l) (λ _. v)
        (λ _. add-Inv start l k v))

  add_aligned-Inv :
      (start : List Text) (o : Option Delta) (prev cur : List Text) (k : Kept)
      → Inv start k
      → Inv start (add_aligned is_space order o prev cur k)
  unfolding add_aligned
  add_aligned-Inv start none prev cur k v = add_all-Inv start cur k v
  add_aligned-Inv start (some d) prev cur k v = add_changed-Inv start d.delta prev 0 cur k v

  abbrev Good : Merger → List Text → Type 0
  Good m ls = All (IsNew (keys (window m.lookback m.transcript))) ls × Distinct ls

  -- The lines that Ingest returns are not blank, no two of them differ only in trailing blanks, and
  -- none of them, trailing blanks aside, is among the last `lookback` lines of the transcript.
  pub ingest-kept :
      (raw : Text) (m : Merger)
      → All (IsNew (keys (window m.lookback m.transcript))) (ingest is_space order raw m).0
        × Distinct (ingest is_space order raw m).0
  unfolding ingest kept_lines
  ingest-kept raw m =
      let start = keys (window m.lookback m.transcript) in
      let k : Kept = record { recent = start; lines = [] } in
      let cur = normalize raw in
      let v =
        add_aligned-Inv start (scroll_delta is_space order m.prev cur) m.prev cur k
          (start-Inv start) in
      let u = add_all-Inv start cur k (start-Inv start) in
      if_cases (Good m) m.have_prev (λ _. (v.new, v.distinct)) (λ _. (u.new, u.distinct))
