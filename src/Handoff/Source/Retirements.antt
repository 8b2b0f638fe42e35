-- ===== src/Handoff/Source/Retirements.antt =====
-- What a stored request to retire the source session rests on.
use arcmux.Prelude.{◌≡◌, refl, subst, arith, Bool, true, ◌&&◌, Option, none, some, List, []}
use arcmux.Prelude.Text.{Text, text_eq_iff}
use arcmux.Handoff.Manifest.{Env}
use arcmux.Handoff.Record.{
  SourceRecord, SourceRetirement, ContextAcknowledgement, TargetLocator, is_source_accepted,
}
use arcmux.Handoff.Record.Validate.{
  source_record_validate, context_loaded_validate, retirement_field_validate,
  acknowledgement_validate, locator_eq,
}
use arcmux.Handoff.Files.{read, read-All}
use arcmux.Handoff.Source.Moves.{both_first}
use arcmux.Handoff.Source.Later.{IsKept}
use arcmux.Handoff.Source.History.{Call, run_calls, run_calls-IsKept}

-- The proof that the target has loaded the context of a record
pub record IsProved (r : SourceRecord) : Type 0 where
  pub accepted : is_source_accepted r.state ≡ true
  pub proof : ContextAcknowledgement
  pub locator : TargetLocator
  pub loaded : r.context_loaded ≡ some proof
  pub located : r.target_locator ≡ some locator
  pub same_digest : proof.manifest_digest ≡ r.digest
  pub same_locator : proof.target_locator ≡ locator

pub locator_eq-path : (l m : TargetLocator) → locator_eq l m ≡ true → l ≡ m
unfolding locator_eq
locator_eq-path l m h =
    let d = (text_eq_iff l.device_id m.device_id).0 (ground arith) in
    let p = (text_eq_iff l.profile_scope m.profile_scope).0 (ground arith) in
    let s = (text_eq_iff l.session_id m.session_id).0 (ground arith) in cc (d, p, s)

pub and_right : (a b : Bool) → (a && b) ≡ true → b ≡ true
and_right a b h = ground arith

some_inj : {A : Type 0} {a b : A} → some a ≡ some b → a ≡ b
some_inj h = cc

acknowledged :
    (a : ContextAcknowledgement) (digest : Text) (l : TargetLocator)
    → acknowledgement_validate a digest l ≡ true
    → (a.manifest_digest ≡ digest) × (a.target_locator ≡ l)
unfolding acknowledgement_validate
acknowledged a digest l h = (
  (text_eq_iff a.manifest_digest digest).0 (ground arith),
  locator_eq-path a.target_locator l (ground arith),
)

last_two :
    (a b c d e f : Bool) → (a && (b && (c && (d && (e && f))))) ≡ true → (e ≡ true) × (f ≡ true)
last_two a b c d e f h = ground arith

field_checks :
    (env : Env) (r : SourceRecord)
    → source_record_validate env r ≡ true
    → (context_loaded_validate r.context_loaded
          (is_source_accepted r.state)
          r.target_locator
          r.digest
        ≡ true)
      × (retirement_field_validate r.retirement (is_source_accepted r.state) r.context_loaded
          ≡ true)
unfolding source_record_validate
field_checks env r v = search last_two

pub proof_fields :
    (c : Option ContextAcknowledgement) (accepted : Bool) (o : Option TargetLocator) (digest : Text)
    (a : ContextAcknowledgement)
    → c ≡ some a
    → context_loaded_validate c accepted o digest ≡ true
    → (l : TargetLocator) × (o ≡ some l)
      × (a.manifest_digest ≡ digest)
      × (a.target_locator ≡ l)
      × (accepted ≡ true)
unfolding context_loaded_validate
proof_fields none accepted o digest a e h = cc
proof_fields (some b) accepted none digest a e h = cc
proof_fields (some b) accepted (some l) digest a e h =
    let (x, y) = acknowledged b digest l (and_right _ _ h) in
    (
      l,
      refl,
      subst (λ p. p.manifest_digest ≡ digest) (some_inj e) x,
      subst (λ p. p.target_locator ≡ l) (some_inj e) y,
      both_first _ _ h,
    )

proof_given :
    (o : Option SourceRetirement) (accepted : Bool) (c : Option ContextAcknowledgement)
    (t : SourceRetirement)
    → o ≡ some t
    → retirement_field_validate o accepted c ≡ true
    → (a : ContextAcknowledgement) × (c ≡ some a)
unfolding retirement_field_validate
proof_given none accepted c t e h = cc
proof_given (some u) accepted none t e h = cc
proof_given (some u) accepted (some a) t e h = (a, refl)

valid_retirement :
    (env : Env) (r : SourceRecord) (t : SourceRetirement)
    → source_record_validate env r ≡ true
    → r.retirement ≡ some t
    → IsProved r
valid_retirement env r t v e =
    let (c, f) = field_checks env r v in
    let (a, loaded) =
      proof_given r.retirement (is_source_accepted r.state) r.context_loaded t e f in
    let (l, located, d, p, acc) =
      proof_fields r.context_loaded (is_source_accepted r.state) r.target_locator r.digest a loaded
        c in
    record {
      accepted = acc;
      proof = a;
      locator = l;
      loaded = loaded;
      located = located;
      same_digest = d;
      same_locator = p;
    }

-- In files that calls have made from none, whatever the calls and their arguments, a record with a
-- request to retire its source is accepted, and holds a proof that the target has loaded the
-- context: the proof's digest is the record's, and its locator is that of the record's target.
pub run_calls-IsProved :
    (env : Env) (calls : List Call) (id : Text) (r : SourceRecord) (t : SourceRetirement)
    → read id (run_calls env calls []) ≡ some r
    → r.retirement ≡ some t
    → IsProved r
unfolding IsKept
run_calls-IsProved env calls id r t found e =
    let kept =
      read-All (IsKept env) id (run_calls env calls []) (run_calls-IsKept env calls [] tt) found in
    valid_retirement env r t kept.0.valid e
