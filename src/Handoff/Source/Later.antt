-- ===== src/Handoff/Source/Later.antt =====
-- What a source record and a later reading of it have in common.
use arcmux.Prelude.{
  ℕ, ◌<◌, ◌≤◌, ◌≡◌, refl, sym, subst, arith, ◌≢◌, Bool-cases, ◌⊎◌, inl, inr, Bool, true, false, not,
  ◌&&◌, ◌==◌, Option, none,
}
use arcmux.Prelude.Text.{Text}
use arcmux.Handoff.Manifest.{Env}
use arcmux.Handoff.Record.{
  SourceState, SourceRecord, SourceRetirement, ContextAcknowledgement, is_source_accepted,
  legal_source_transition,
}
use arcmux.Handoff.Record.Validate.{source_record_validate, validate_record_fields}
use arcmux.Handoff.Store.{next_revision}
use arcmux.Handoff.Source.Moves.{IsSourceRecord, Retires, requested, goes_on, Moved}

-- A uint64 of a record that the store has written
abbrev pub max_revision : ℕ
max_revision = 18_446_744_073_709_551_616

unfoldable pub IsKept : Env → Text × SourceRecord → Type 0
IsKept env (id, r) = IsSourceRecord env id r × (r.revision < max_revision)

-- A path of legal transitions
pub data Reaches : SourceState → SourceState → Type 0 where
  here : {s : SourceState} → Reaches s s
  via : {s t u : SourceState} → legal_source_transition s t ≡ true → Reaches t u → Reaches s u

pub Reaches-trans : {s t u : SourceState} → Reaches s t → Reaches t u → Reaches s u
Reaches-trans here q = q
Reaches-trans (via l p) q = via l (Reaches-trans p q)

-- What writes leave of a record: the manifest with its digest, a state that legal transitions
-- reach, the locator of an accepted record, the proof and the options of a retirement.
pub record Advanced (r q : SourceRecord) : Type 0 where
  pub manifest : q.manifest ≡ r.manifest
  pub digest : q.digest ≡ r.digest
  pub revision : r.revision < q.revision
  pub updated : r.updated ≤ q.updated
  pub state : Reaches r.state q.state
  pub locator : (is_source_accepted r.state ≡ false) ⊎ (q.target_locator ≡ r.target_locator)
  pub context : (r.context_loaded ≡ none) ⊎ (q.context_loaded ≡ r.context_loaded)
  pub retirement : Retires r.retirement q.retirement

-- The record is the same, or its revision is higher.
unfoldable pub Later : SourceRecord → SourceRecord → Type 0
Later r q = (q ≡ r) ⊎ Advanced r q

no_legal_accepted :
    (s t : SourceState) → legal_source_transition s t ≡ true → is_source_accepted s ≡ false
unfolding legal_source_transition is_source_accepted
no_legal_accepted s t h = ground arith

accepted_stays : {s t : SourceState} → Reaches s t → is_source_accepted s ≡ true → t ≡ s
accepted_stays here a = refl
accepted_stays (via l p) a = cc (no_legal_accepted _ _ l)

Retires_trans : {a b c : Option SourceRetirement} → Retires a b → Retires b c → Retires a c
Retires_trans requested q = requested
Retires_trans (goes_on t u m s) (goes_on _ v m2 s2) = goes_on t v (cc (m, m2)) (cc (s, s2))

-- Two fields kept in turn, each unless a test fails
kept_twice {ℓ} :
    {A : Type ℓ} {x y : Bool} {u v w : A}
    → (x ≡ false) ⊎ (v ≡ u)
    → (y ≡ false) ⊎ (w ≡ v)
    → (x ≡ true → y ≡ true)
    → (x ≡ false) ⊎ (w ≡ u)
kept_twice (inl f) k i = inl f
kept_twice {x} (inr e) (inl g) i = elim (Bool-cases x) [ inl t ↦ cc (i t, g) | inr f ↦ inl f ]
kept_twice (inr e) (inr d) i = inr (cc (e, d))

accepted_after :
    {s t : SourceState} → Reaches s t → is_source_accepted s ≡ true → is_source_accepted t ≡ true
accepted_after p a = cc (accepted_stays p a)

context_twice :
    {a b c : Option ContextAcknowledgement}
    → (a ≡ none) ⊎ (b ≡ a)
    → (b ≡ none) ⊎ (c ≡ b)
    → (a ≡ none) ⊎ (c ≡ a)
context_twice (inl f) k = inl f
context_twice (inr e) (inl g) = inl (cc (e, g))
context_twice (inr e) (inr d) = inr (cc (e, d))

Advanced-trans : {r q p : SourceRecord} → Advanced r q → Advanced q p → Advanced r p
Advanced-trans a b = record {
  manifest = cc (a.manifest, b.manifest);
  digest = cc (a.digest, b.digest);
  revision = omega (arith, a.revision, b.revision);
  updated = omega (arith, a.updated, b.updated);
  state = Reaches-trans a.state b.state;
  locator = kept_twice a.locator b.locator (accepted_after a.state);
  context = context_twice a.context b.context;
  retirement = Retires_trans a.retirement b.retirement;
}

pub Later-trans : (r q p : SourceRecord) → Later r q → Later q p → Later r p
unfolding Later
Later-trans r q p (inl e) l = subst (λ x. Later x p) e l
Later-trans r q p (inr a) (inl e) = inr (subst (λ x. Advanced r x) (sym e) a)
Later-trans r q p (inr a) (inr b) = inr (Advanced-trans a b)

next_revision-bounds :
    (n k : ℕ) → n < max_revision → k ≡ next_revision n → k ≢ 0 → (n < k) × (k < max_revision)
unfolding next_revision
next_revision-bounds n k h e z = ground arith

fourth_and : (a b c d e : Bool) → (a && (b && (c && (d && e)))) ≡ true → d ≡ true
fourth_and a b c d e h = ground arith

revision_fields : (n : ℕ) (b : Bool) → (not (n == 0) && b) ≡ true → n ≢ 0
revision_fields n b h = ground arith

valid_revision :
    (env : Env) (r : SourceRecord) → source_record_validate env r ≡ true → r.revision ≢ 0
unfolding source_record_validate validate_record_fields
valid_revision env r v = ground arith

state_path : (r q : SourceRecord) → Moved r q → Reaches r.state q.state
state_path r q m = elim m.state [
  | inl l ↦ via l here
  | inr (e, _, _) ↦ subst (λ s. Reaches r.state s) (sym e) here
]

locator_stays :
    (r q : SourceRecord)
    → Moved r q
    → (is_source_accepted r.state ≡ false) ⊎ (q.target_locator ≡ r.target_locator)
locator_stays r q m = elim m.state [ inl l ↦ inl (no_legal_accepted _ _ l) | inr (_, _, e) ↦ inr e ]

module _ (env : Env) where
  pub Moved-Advanced :
      (r q : SourceRecord)
      → r.revision < max_revision
      → source_record_validate env q ≡ true
      → Moved r q
      → Advanced r q × (q.revision < max_revision)
  Moved-Advanced r q b v m =
      let (rises, within) =
        next_revision-bounds r.revision q.revision b m.revision (valid_revision env q v) in
      (
        record {
          manifest = m.manifest;
          digest = m.digest;
          revision = rises;
          updated = m.updated;
          state = state_path r q m;
          locator = locator_stays r q m;
          context = m.context;
          retirement = m.retirement;
        },
        within,
      )
