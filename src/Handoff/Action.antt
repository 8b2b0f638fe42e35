-- ===== src/Handoff/Action.antt =====
-- What the outbox does: an action on the source files and the world, with an answer or an error.
-- A write stays when a later step fails.
use arcmux.Prelude.Results.{Result, ok, err}
use arcmux.Handoff.Record.{SourceRecord}
use arcmux.Handoff.Files.{Files}

-- sourceHandoffErrorKind
pub data Kind : Type 0 where
  invalid not_found conflict unavailable : Kind

pub record State (W : Type 0) : Type 0 where
  pub files : Files SourceRecord
  pub world : W

abbrev pub Action : Type 0 → Type 0 → Type 0
Action W A = State W → Result Kind A × State W

module _ {W A : Type 0} where
  abbrev pub pure : A → Action W A
  pure a s = (ok a, s)

  abbrev pub raise : Kind → Action W A
  raise k s = (err k, s)

  -- A reading of the world or a call out of the store
  abbrev pub ask : (W → A × W) → Action W A
  ask f s = let (a, w) = f s.world in (ok a, record s { world = w })

module _ {W A B : Type 0} where
  abbrev pub go_on : Result Kind A → (A → Action W B) → Action W B
  go_on (ok a) f s = f a s
  go_on (err k) f s = (err k, s)

  infixl 5 ◌>>=◌
  unfoldable pub ◌>>=◌ : Action W A → (A → Action W B) → Action W B
  ◌>>=◌ m f s = go_on ((m s).0) f ((m s).1)

-- What holds of the answer, when there is one
unfoldable pub Answers : {A : Type 0} → (A → Type 0) → Result Kind A → Type 0
Answers Q (ok a) = Q a
Answers Q (err k) = Unit

-- An action with a postcondition, whose change to the files is in `P`
pub record Does {W A : Type 0} (P : Files SourceRecord → Files SourceRecord → Type 0)
    (Q : A → Type 0) (m : Action W A) : Type 0 where
  pub changes : (s : State W) → P s.files ((m s).1.files)
  pub answers : (s : State W) → Answers Q ((m s).0)

any-Answers : {A : Type 0} (x : Result Kind A) → Answers (λ a. Unit) x
unfolding Answers
any-Answers (ok a) = tt
any-Answers (err k) = tt

-- Without a postcondition, the change is all there is to show.
pub Does-any :
    {W A : Type 0} (P : Files SourceRecord → Files SourceRecord → Type 0) (m : Action W A)
    → ((s : State W) → P s.files ((m s).1.files))
    → Does P (λ a. Unit) m
Does-any P m h = record { changes = h; answers = λ s. any-Answers ((m s).0) }

module _ {W : Type 0} (P : Files SourceRecord → Files SourceRecord → Type 0)
    (same : (f : Files SourceRecord) → P f f)
    (then_also : (f g h : Files SourceRecord) → P f g → P g h → P f h) where
  pub Does-pure : {A : Type 0} (Q : A → Type 0) (a : A) → Q a → Does {W = W} P Q (pure a)
  unfolding Answers
  Does-pure Q a q = record { changes = λ s. same s.files; answers = λ s. q }

  pub Does-raise : {A : Type 0} (Q : A → Type 0) (k : Kind) → Does {W = W} {A = A} P Q (raise k)
  unfolding Answers
  Does-raise Q k = record { changes = λ s. same s.files; answers = λ s. tt }

  pub Does-ask : {A : Type 0} (f : W → A × W) → Does {W = W} P (λ a. Unit) (ask f)
  unfolding Answers
  Does-ask f = record { changes = λ s. same s.files; answers = λ s. tt }

  go_on-changes :
      {A B : Type 0} {Q : A → Type 0} {R : B → Type 0} (f : A → Action W B) (x : Result Kind A)
      (s : State W) (start : Files SourceRecord)
      → P start s.files
      → Answers Q x
      → ((a : A) → Q a → Does P R (f a))
      → P start ((go_on x f s).1.files) × Answers R ((go_on x f s).0)
  unfolding Answers
  go_on-changes f (ok a) s start p q d =
      (then_also start s.files _ p ((d a q).changes s), (d a q).answers s)
  go_on-changes f (err k) s start p q d = (p, tt)

  pub Does-bind :
      {A B : Type 0} (Q : A → Type 0) (R : B → Type 0) (m : Action W A) (f : A → Action W B)
      → Does P Q m
      → ((a : A) → Q a → Does P R (f a))
      → Does P R (m >>= f)
  unfolding ◌>>=◌
  Does-bind Q R m f dm df = record {
    changes = λ s. (go_on-changes f ((m s).0) ((m s).1) s.files (dm.changes s) (dm.answers s) df).0;
    answers = λ s. (go_on-changes f ((m s).0) ((m s).1) s.files (dm.changes s) (dm.answers s) df).1;
  }
