-- ===== src/Events/Delivered.antt =====
-- Whom Publish reaches (internal/daemon/events.go).
use arcmux.Prelude.{ℕ, ◌≡◌, String, Bool, false, ◌&&◌, ◌||◌, List, [], ◌∷◌, ◌==◌, if◌then◌else◌}
use arcmux.Events.{Event, Channel, push, accepts}

-- Some subscription with this key wants the event.
abbrev pub reaches : ℕ → Event → List (ℕ × String) → Bool
reaches i e [] = false
reaches i e ((j, s) ∷ ss) = let rest = reaches i e ss in j == i && accepts s e || rest

abbrev Delivers : ℕ → Event → List (ℕ × String) → (ℕ → Channel) → (ℕ → Channel) → Type 0
Delivers i e ss f g = g i ≡ (if reaches i e ss then push e (f i) else f i)
