-- ===== src/Health/Screens.antt =====
-- What the loop of Run records of the screens that its ticks see (internal/health/monitor.go).
use arcmux.Prelude.{
  Time, ◌+◌, ◌*◌, ◌≤◌, ◌≡◌, sym, ◌∙◌, ◌⊎◌, inl, inr, true, false, Option, some, none, List, [], ◌∷◌,
  second, arith, if_cases,
}
use arcmux.Prelude.Text.{Text, text_eq, text_eq_iff}
use arcmux.Session.{Session}
use arcmux.Profile.{Profile}
use arcmux.Health.{World, Monitor, CheckResult, RunState, check, tick, observe}

abbrev output_of : Option Text → Text
output_of none = []
output_of (some out) = out

-- The screen that a tick sees: empty where there is no pane, or no capture of it.
abbrev pub screen : World → Text
screen w = elim w.pane_exists [ true ↦ output_of w.captured | false ↦ [] ]

-- The instant of the last tick, or of the start; the ticks are newest first.
abbrev pub latest : Time → List World → Time
latest start [] = start
latest start (w ∷ ws) = w.now

-- Every tick of the last five seconds saw this screen.
abbrev pub Saw : Text → Time → List World → Type 0
Saw out now [] = Unit
Saw out now (w ∷ ws) = ((w.now + 5 * second ≤ now) ⊎ (screen w ≡ out)) × Saw out now ws

-- At a tick, the loop is five seconds old at least, and all of them showed one screen.
abbrev pub IsStatic : Time → World → List World → Type 0
IsStatic start w ws = (start + 5 * second ≤ w.now) × Saw (screen w) w.now ws

module _ (to_lower : Text → Text) (m : Monitor) (prof : Profile) (start : Time) where
  -- The ticks of Run so far, newest first, and what they have left in the loop's own state. The
  -- snapshots of each are of any sessions, since others may call the session at any time.
  pub data Ran : List World → RunState → Type 0 where
    begins : Ran [] (record { last_output = []; last_change_at = start })
    ticked :
        {ws : List World} {rs : RunState} (w : World) (seen sess : Session)
        → Ran ws rs
        → latest start ws ≤ w.now
        → Ran (w ∷ ws) (tick to_lower m w seen sess prof rs).1

  -- Every tick after the last change saw the last output.
  abbrev Agrees : RunState → List World → Type 0
  Agrees rs [] = Unit
  Agrees rs (w ∷ ws) = ((w.now ≤ rs.last_change_at) ⊎ (screen w ≡ rs.last_output)) × Agrees rs ws

  abbrev AllBefore : Time → List World → Type 0
  AllBefore t [] = Unit
  AllBefore t (w ∷ ws) = (w.now ≤ t) × AllBefore t ws

  AllBefore-later : (t u : Time) (ws : List World) → t ≤ u → AllBefore t ws → AllBefore u ws
  AllBefore-later t u [] h a = tt
  AllBefore-later t u (w ∷ ws) h (b, a) = (omega arith, AllBefore-later t u ws h a)

  AllBefore-Agrees :
      (rs : RunState) (ws : List World) → AllBefore rs.last_change_at ws → Agrees rs ws
  AllBefore-Agrees rs [] a = tt
  AllBefore-Agrees rs (w ∷ ws) (b, a) = (inl b, AllBefore-Agrees rs ws a)

  check-screen : (w : World) (sess : Session) → (check to_lower w sess prof).output ≡ screen w
  unfolding check
  check-screen w sess = ground arith

  -- What the record keeps over the ticks.
  record Keeps (ws : List World) (rs : RunState) : Type 0 where
    begun : start ≤ rs.last_change_at
    past : rs.last_change_at ≤ latest start ws
    before : AllBefore (latest start ws) ws
    agrees : Agrees rs ws

  observe-Keeps :
      (ws : List World) (rs : RunState) (w : World) (r : CheckResult)
      → r.output ≡ screen w
      → latest start ws ≤ w.now
      → Keeps ws rs
      → Keeps (w ∷ ws) (observe to_lower w r rs)
        × ((observe to_lower w r rs).last_output ≡ screen w)
  unfolding observe
  observe-Keeps ws rs w r o late k =
      let before' = AllBefore-later (latest start ws) w.now ws late k.before in
      if_cases (λ (s : RunState). Keeps (w ∷ ws) s × (s.last_output ≡ screen w))
        (text_eq rs.last_output r.output)
        (λ t.
          let same : rs.last_output ≡ screen w = (text_eq_iff rs.last_output r.output).0 t ∙ o in
          (
            record {
              begun = k.begun;
              past = omega (arith, k.past);
              before = (omega arith, before');
              agrees = (inr (sym same), k.agrees);
            },
            same,
          ))
        (λ _.
          let s : RunState = record { last_output = r.output; last_change_at = w.now } in
          (
            record {
              begun = omega (arith, k.begun, k.past);
              past = omega arith;
              before = (omega arith, before');
              agrees = (inl (omega arith), AllBefore-Agrees s ws before');
            },
            o,
          ))

  Ran-Keeps : {ws : List World} {rs : RunState} → Ran ws rs → Keeps ws rs
  unfolding tick
  Ran-Keeps begins = record { begun = omega arith; past = omega arith; before = tt; agrees = tt }
  Ran-Keeps (ticked {ws} {rs} w seen sess ran late) =
      (observe-Keeps ws rs w (check to_lower w seen prof) (check-screen w seen) late
        (Ran-Keeps ran)).0

  Agrees-Saw :
      (rs : RunState) (out : Text) (now : Time) (ws : List World)
      → rs.last_output ≡ out
      → rs.last_change_at + 5 * second ≤ now
      → Agrees rs ws
      → Saw out now ws
  Agrees-Saw rs out now [] o h a = tt
  Agrees-Saw rs out now (w ∷ ws) o h (inl e, a) =
      (inl (omega arith), Agrees-Saw rs out now ws o h a)
  Agrees-Saw rs out now (w ∷ ws) o h (inr e, a) = (inr (e ∙ o), Agrees-Saw rs out now ws o h a)

  -- Where the record of a tick has no change for five seconds, the screen has had none.
  pub IsStatic-since :
      (ws : List World) (rs : RunState)
      → Ran ws rs
      → (w : World) (seen : Session) → latest start ws ≤ w.now
      → (observe to_lower w (check to_lower w seen prof) rs).last_change_at + 5 * second ≤ w.now
      → IsStatic start w ws
  IsStatic-since ws rs ran w seen late h =
      let r = check to_lower w seen prof in
      let (k, o) = observe-Keeps ws rs w r (check-screen w seen) late (Ran-Keeps ran) in
      (
        omega (arith, k.begun),
        Agrees-Saw (observe to_lower w r rs) (screen w) w.now ws o h (k.agrees).1,
      )
