-- ===== src/Pulse/Tests.antt =====
-- Wakes of one session (internal/manager/pulse/pulse.go).
use arcmux.Prelude.{
  Time, ℕ, ℤ, ◌+◌, ◌*◌, ◌≤◌, ◌≡◌, refl, String, false, some, none, List, [], ◌∷◌, length, arith,
}
use arcmux.Pulse.{
  Target, Memory, found, depth_is, World, Pulser, recall, remember, depth_of, anchor, is_none,
  decide, evaluate, ticks,
}
use arcmux.Pulse.Wakes.{next_memory, evaluate-memory, decide-due, evaluate-retries}
use arcmux.Pulse.Series.{last_now, ticks-spaced}

abbrev body : Target → ℕ → ℤ → String
body tg depth gap = "Wake up."

abbrev target : Target
target = record { id = "session"; pane_ref = "%1"; cadence = 300 }

abbrev at : Time → ℕ → World
at now depth = record { now = now; meta = found "%1"; depth = depth_is depth; send_error = none }

abbrev unreachable : World
unreachable = record (at 1000 2) { send_error = some "no pane" }

abbrev known : Memory
known = record { last_inbox_depth = 0; last_wake_at = 900 }

abbrev pulser : Pulser
pulser = record {
  project = "p";
  cadence = 300;
  mem = ("session", known) ∷ [];
  audit = [];
  sent = [];
}

evaluate-memory_example :
    recall "session" (evaluate body target (at 1000 2) pulser).1.mem
    ≡ some (
        next_memory
          (decide body target (at 1000 2) (recall "session" pulser.mem)).trigger
          none
          (anchor (recall "session" pulser.mem) 1000)
          (depth_of (depth_is 2))
          1000)
evaluate-memory_example = evaluate-memory body target (at 1000 2) pulser

decide-due_example : is_none (decide body target (at 1200 0) (some known)).trigger ≡ false
unfolding depth_of
decide-due_example = decide-due body target (at 1200 0) known

evaluate-retries_example :
    is_none
      (decide body target
        (at 1001 2)
        (recall "session" (evaluate body target unreachable pulser).1.mem)).trigger
    ≡ false
unfolding evaluate depth_of recall
evaluate-retries_example =
    evaluate-retries body target unreachable (at 1001 2) pulser "no pane" refl (omega arith)
      (omega arith)

abbrev night : List World
night = at 1000 0 ∷ at 1200 0 ∷ at 1350 0 ∷ at 1500 0 ∷ []

ticks-spaced_example :
    300 * length (ticks body night pulser).sent + 900 ≤ 300 * 0 + last_now 950 night
unfolding recall depth_of
ticks-spaced_example =
    ticks-spaced body night pulser known 950 refl (omega arith)
      (omega arith, refl, (omega arith, refl, (omega arith, refl, (omega arith, refl, tt))))

two_wakes : length (ticks body night pulser).sent ≡ 2
unfolding ticks evaluate recall remember
two_wakes = refl
