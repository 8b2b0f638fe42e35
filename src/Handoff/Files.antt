-- ===== src/Handoff/Files.antt =====
-- The files of one side of the handoff store, each under the id that names it, in the order of
-- their names (internal/handoff/store.go). The file system and the JSON encoding are taken as
-- given: what is read is what was last written.
use arcmux.Prelude.{
  ◌≡◌, refl, sym, subst, All, if_cases, arith, Bool, true, false, Option, none, some, List, [], ◌∷◌,
  ◌++◌, ltb, ◌==◌, if◌then◌else◌,
}
use arcmux.Prelude.Text.{Text, codes, text_eq, text_eq_refl, text_eq_iff}

-- The order of sort.Strings
unfoldable pub text_lt : Text → Text → Bool
text_lt s [] = false
text_lt [] (d ∷ t) = true
text_lt (c ∷ s) (d ∷ t) = if c == d then text_lt s t else ltb c d

-- The name of a record's file
abbrev pub file_of : Text → Text
file_of id = id ++ codes ".json"

abbrev pub Files {ℓ} : Type ℓ → Type ℓ
Files R = List (Text × R)

if_some {ℓ κ} :
    {A : Type ℓ} {P : Type κ} (t : Bool) {a b : A} {o : Option A}
    → (if t then some a else o) ≡ some b
    → (t ≡ true → a ≡ b → P)
    → (o ≡ some b → P)
    → P
if_some true h f g = f refl (cc h)
if_some false h f g = g h

module _ {ℓ} {R : Type ℓ} where
  -- readJSONFile: none is ErrNotFound.
  unfoldable pub read : Text → Files R → Option R
  read id [] = none
  read id ((key, r) ∷ files) = if text_eq id key then some r else read id files

  -- writeJSONFile
  unfoldable pub write : Text → R → Files R → Files R
  unfolding text_lt
  write id r [] = (id, r) ∷ []
  write id r ((key, q) ∷ files) =
      if text_eq id key
      then (id, r) ∷ files
      else if text_lt (file_of id) (file_of key)
      then (id, r) ∷ (key, q) ∷ files
      else (key, q) ∷ write id r files

  -- recordFiles
  unfoldable pub record_files : Files R → List Text
  record_files [] = []
  record_files ((key, r) ∷ files) = key ∷ record_files files

  pub read-write-same : (id : Text) (r : R) (files : Files R) → read id (write id r files) ≡ some r
  unfolding read write
  read-write-same id r [] = ground (arith, text_eq_refl id)
  read-write-same id r ((key, q) ∷ files) =
      ground (arith, text_eq_refl id, read-write-same id r files)

  pub read-write-other :
      (id other : Text) (r : R) (files : Files R)
      → text_eq other id ≡ false
      → read other (write id r files) ≡ read other files
  unfolding read write
  read-write-other id other r [] h = ground arith
  read-write-other id other r ((key, q) ∷ files) h =
      ground (arith, read-write-other id other r files h, text_eq_iff id key)

  -- What holds of every file holds of the one that is read.
  pub read-All {κ} :
      (P : Text × R → Type κ) (id : Text) (files : Files R) {r : R}
      → All P files
      → read id files ≡ some r
      → P (id, r)
  unfolding read
  read-All P id [] all e = cc
  read-All P id ((key, q) ∷ files) {r} all e =
      if_some (text_eq id key) e
        (λ t same.
          subst (λ i. P (i, r)) (sym ((text_eq_iff id key).0 t))
            (subst (λ x. P (key, x)) same all.0))
        (λ rest. read-All P id files all.1 rest)

  pub write-All {κ} :
      (P : Text × R → Type κ) (id : Text) (r : R) (files : Files R)
      → P (id, r)
      → All P files
      → All P (write id r files)
  unfolding write
  write-All P id r [] p all = (p, tt)
  write-All P id r ((key, q) ∷ files) p all =
      if_cases (All P) (text_eq id key) (λ _. (p, all.1))
        (λ _.
          if_cases (All P) (text_lt (file_of id) (file_of key)) (λ _. (p, all))
            (λ _. (all.0, write-All P id r files p all.1)))
