-- ===== src/Pulse.antt =====
-- The per-project wake loop, internal/manager/pulse/pulse.go: one tick, over the pulser's memory and
-- the audit log. The store and the multiplexer answer through `World`; a wake's text is the
-- parameter `wake_body`. An audit append always lands: the code ignores its error.
pub mod Wakes
pub mod Series
mod Tests
use arcmux.Prelude.{
  Time, ℕ, ℤ, pos, suc, ◌+◌, String, str_eq, Bool, true, false, ◌&&◌, Option, some, none, List, [],
  ◌∷◌, ◌++◌, leb_ℤ, ltb, since, if◌then◌else◌,
}

pub record Target : Type 0 where
  pub id : String
  pub pane_ref : String
  pub cadence : ℕ  -- a duration; a negative one acts as 0

-- state: what the pulser remembers of a target
pub record Memory : Type 0 where
  pub last_inbox_depth : ℕ
  pub last_wake_at : Time

pub data Trigger : Type 0 where
  inbox_grew cadence_elapsed both no_trigger : Trigger

-- GetProjectMeta, as collectTargets reads it
pub data MetaResult : Type 0 where
  not_found failed : MetaResult
  found : String → MetaResult

-- DepthSessionInbox
pub data DepthResult : Type 0 where
  depth_is : ℕ → DepthResult
  no_bucket depth_failed : DepthResult

-- `send_error` is the error that a send would return now, if any.
pub record World : Type 0 where
  pub now : Time
  pub meta : MetaResult
  pub depth : DepthResult
  pub send_error : Option String

pub record Decision : Type 0 where
  pub target : Target
  pub inbox_depth : ℕ
  pub prev_depth : ℕ
  pub since_last : ℤ
  pub trigger : Trigger
  pub wake_sent : Bool
  pub wake_error : Option String
  pub wake_prompt : Option String

pub record Report : Type 0 where
  pub at : Time
  pub targets : ℕ
  pub wakes : ℕ
  pub errors : ℕ
  pub decisions : List Decision

pub data AuditEntry : Type 0 where
  tick_entry : Time → String → ℕ → ℕ → ℕ → AuditEntry
  wake_entry : Time → Target → Trigger → ℕ → ℕ → ℤ → AuditEntry
  wake_error_entry : Time → Target → Trigger → ℕ → ℕ → String → AuditEntry

-- The mutable parts of a Pulser, with what it has done: the wakes sent, oldest first.
pub record Pulser : Type 0 where
  pub project : String
  pub cadence : ℕ
  pub mem : List (String × Memory)
  pub audit : List AuditEntry
  pub sent : List (String × String)

unfoldable pub recall : String → List (String × Memory) → Option Memory
recall k [] = none
recall k ((j, m) ∷ ms) = if str_eq j k then some m else recall k ms

unfoldable pub remember : String → Memory → List (String × Memory) → List (String × Memory)
remember k m [] = (k, m) ∷ []
remember k m ((j, o) ∷ ms) = if str_eq j k then (k, m) ∷ ms else (j, o) ∷ remember k m ms

-- inboxDepth and the branch on its error: any failure reads as depth 0.
unfoldable pub depth_of : DepthResult → ℕ
depth_of (depth_is n) = n
depth_of no_bucket = 0
depth_of depth_failed = 0

unfoldable pub seen : Option Memory → Bool
seen none = false
seen (some m) = true

-- The memory that a tick starts from: a new target is anchored at `now`.
unfoldable pub anchor : Option Memory → Time → Memory
anchor none now = record { last_inbox_depth = 0; last_wake_at = now }
anchor (some m) now = m

unfoldable pub trigger_of : Bool → Bool → Bool → Trigger
trigger_of grew elapsed was_seen =
    if grew && elapsed
    then both
    else if grew
    then inbox_grew
    else if elapsed && was_seen
    then cadence_elapsed
    else no_trigger

unfoldable pub is_none : Trigger → Bool
is_none no_trigger = true
is_none _ = false

-- collectTargets; `none` is its error.
unfoldable pub collect_targets : ℕ → MetaResult → Option (List Target)
collect_targets cadence not_found = some []
collect_targets cadence failed = none
collect_targets cadence (found pane) =
    if str_eq pane ""
    then some []
    else some (record { id = "session"; pane_ref = pane; cadence = cadence } ∷ [])

module _ (wake_body : Target → ℕ → ℤ → String) where
  -- The decision before any wake
  unfoldable pub decide : Target → World → Option Memory → Decision
  unfolding depth_of seen anchor trigger_of
  decide tg w o =
      let m = anchor o w.now in
      let depth = depth_of w.depth in
      let gap = since w.now m.last_wake_at in
      record {
        target = tg;
        inbox_depth = depth;
        prev_depth = m.last_inbox_depth;
        since_last = gap;
        trigger =
            trigger_of (ltb m.last_inbox_depth depth)
              (ltb 0 tg.cadence && leb_ℤ (pos tg.cadence) gap) (seen o);
        wake_sent = false;
        wake_error = none;
        wake_prompt = none;
      }

  -- The send and its two outcomes
  unfoldable pub send_wake : Option String → Target → World → Decision → Pulser → Decision × Pulser
  send_wake (some e) tg w d p = (
    record d { wake_error = some e; wake_prompt = some (wake_body tg d.inbox_depth d.since_last) },
    record p {
      audit = p.audit ++ wake_error_entry w.now tg d.trigger d.inbox_depth d.prev_depth e ∷ [];
    },
  )
  send_wake none tg w d p =
      let body = wake_body tg d.inbox_depth d.since_last in
      (
        record d { wake_sent = true; wake_prompt = some body },
        record p {
          mem =
              remember tg.id (record { last_inbox_depth = d.inbox_depth; last_wake_at = w.now })
                p.mem;
          audit =
              p.audit ++ wake_entry w.now tg d.trigger d.inbox_depth d.prev_depth d.since_last ∷ [];
          sent = p.sent ++ (tg.pane_ref, body) ∷ [];
        },
      )

  -- evaluate. A new target is entered into the memory at once.
  unfoldable pub evaluate : Target → World → Pulser → Decision × Pulser
  unfolding decide send_wake is_none
  evaluate tg w p =
      let o = recall tg.id p.mem in
      let m = anchor o w.now in
      let d = decide tg w o in
      let p' = record p { mem = remember tg.id m p.mem } in
      if is_none d.trigger
      then (
        d,
        record p { mem = remember tg.id (record m { last_inbox_depth = d.inbox_depth }) p.mem },
      )
      else send_wake w.send_error tg w d p'

  unfoldable pub add_decision : Decision → Report → Report
  add_decision d r = record r {
    wakes = if d.wake_sent then r.wakes + 1 else r.wakes;
    errors = elim d.wake_error [
      | none ↦ r.errors
      | some e ↦ if str_eq e "" then r.errors else r.errors + 1
    ];
    decisions = r.decisions ++ d ∷ [];
  }

  -- The loop of Tick over its targets
  unfoldable pub evaluate_all : List Target → World → Report → Pulser → Report × Pulser
  unfolding add_decision
  evaluate_all [] w r p = (r, p)
  evaluate_all (tg ∷ tgs) w r p =
      let (d, p') = evaluate tg w p in evaluate_all tgs w (add_decision d r) p'

  unfoldable pub count : List Target → ℕ
  count [] = 0
  count (tg ∷ tgs) = suc (count tgs)

  unfoldable pub tick_targets : Option (List Target) → World → Pulser → Option Report × Pulser
  unfolding evaluate_all count
  tick_targets none w p = (none, p)
  tick_targets (some tgs) w p =
      let r0 : Report = record {
        at = w.now;
        targets = count tgs;
        wakes = 0;
        errors = 0;
        decisions = [];
      } in
      let (r, p') = evaluate_all tgs w r0 p in
      (
        some r,
        record p' {
          audit = p'.audit ++ tick_entry w.now p.project r.targets r.wakes r.errors ∷ [];
        },
      )

  -- Tick; `none` is its error.
  unfoldable pub tick : World → Pulser → Option Report × Pulser
  unfolding collect_targets tick_targets
  tick w p = tick_targets (collect_targets p.cadence w.meta) w p

  -- The ticks of Run, which goes on after an error
  unfoldable pub ticks : List World → Pulser → Pulser
  unfolding tick
  ticks [] p = p
  ticks (w ∷ ws) p = ticks ws (tick w p).1
