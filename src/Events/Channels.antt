-- ===== src/Events/Channels.antt =====
-- The channels of the event bus (internal/daemon/events.go): sends and closes that go through.
use arcmux.Prelude.{
  ℕ, ◌+◌, ◌≤◌, ◌<◌, ◌≡◌, ◌≢◌, refl, String, true, false, some, List, [], ◌∷◌, length, ◌==◌, arith,
  length-append, if_cases, Bool-cases, inl, inr,
}
use arcmux.Events.{
  Event, Channel, buffer_size, set, is_subscribed, delete, push, send, close_channel, accepts,
  send_all, close_all,
}

-- Every buffer is within its size.
abbrev pub Bounded : (ℕ → Channel) → Type 0
Bounded f = (i : ℕ) → length (f i).buffer ≤ buffer_size

-- The channels of these subscriptions are open, and each has a channel of its own.
abbrev pub AreOpen : List (ℕ × String) → (ℕ → Channel) → Type 0
AreOpen [] f = Unit
AreOpen ((i, s) ∷ ss) f = ((f i).is_closed ≡ false) × (is_subscribed i ss ≡ false) × AreOpen ss f

abbrev pub AreBelow : ℕ → List (ℕ × String) → Type 0
AreBelow n [] = Unit
AreBelow n ((i, s) ∷ ss) = (i < n) × AreBelow n ss

pub set_same : (i : ℕ) (c : Channel) (f : ℕ → Channel) → set i c f i ≡ c
unfolding set
set_same i c f = ground arith

pub set_other : (i j : ℕ) (c : Channel) (f : ℕ → Channel) → j ≢ i → set i c f j ≡ f j
unfolding set
set_other i j c f h = ground arith

pub set-Bounded :
    (i : ℕ) (c : Channel) (f : ℕ → Channel)
    → Bounded f
    → length c.buffer ≤ buffer_size
    → Bounded (set i c f)
unfolding set
set-Bounded i c f h k j =
    if_cases (λ (d : Channel). length d.buffer ≤ buffer_size) (j == i) (λ _. k) (λ _. h j)

pub push_bounded :
    (e : Event) (c : Channel)
    → length c.buffer ≤ buffer_size
    → length (push e c).buffer ≤ buffer_size
unfolding push
push_bounded e c h = ground (arith, length-append c.buffer (e ∷ []))

pub push_closed : (e : Event) (c : Channel) → (push e c).is_closed ≡ c.is_closed
unfolding push
push_closed e c = ground arith

-- Channels that another's change leaves as they are stay open.
pub set-AreOpen :
    (i : ℕ) (c : Channel) (ss : List (ℕ × String)) (f : ℕ → Channel)
    → is_subscribed i ss ≡ false
    → AreOpen ss f
    → AreOpen ss (set i c f)
unfolding is_subscribed
set-AreOpen i c [] f h o = tt
set-AreOpen i c ((j, s) ∷ ss) f h o =
    (ground (arith, set_other i j c f), o.1, set-AreOpen i c ss f (ground arith) o.2)

pub same-AreOpen :
    (i : ℕ) (c : Channel) (ss : List (ℕ × String)) (f : ℕ → Channel)
    → c.is_closed ≡ (f i).is_closed
    → AreOpen ss f
    → AreOpen ss (set i c f)
same-AreOpen i c [] f h o = tt
same-AreOpen i c ((j, s) ∷ ss) f h o =
    (ground (arith, set_other i j c f, set_same i c f), o.1, same-AreOpen i c ss f h o.2)

pub delete_fresh :
    (i j : ℕ) (ss : List (ℕ × String))
    → is_subscribed j ss ≡ false
    → is_subscribed j (delete i ss) ≡ false
unfolding is_subscribed delete
delete_fresh i j [] h = refl
delete_fresh i j ((k, s) ∷ ss) h = ground (arith, delete_fresh i j ss)

pub delete_gone : (i : ℕ) (ss : List (ℕ × String)) → is_subscribed i (delete i ss) ≡ false
unfolding is_subscribed delete
delete_gone i [] = refl
delete_gone i ((k, s) ∷ ss) = ground (arith, delete_gone i ss)

pub delete-AreOpen :
    (i : ℕ) (ss : List (ℕ × String)) (f : ℕ → Channel) → AreOpen ss f → AreOpen (delete i ss) f
unfolding delete
delete-AreOpen i [] f o = tt
delete-AreOpen i ((k, s) ∷ ss) f o =
    let rest = delete-AreOpen i ss f o.2 in
    if_cases (λ l. AreOpen l f) (k == i) (λ _. rest) (λ _. (o.0, delete_fresh i k ss o.1, rest))

pub delete-AreBelow : (i n : ℕ) (ss : List (ℕ × String)) → AreBelow n ss → AreBelow n (delete i ss)
unfolding delete
delete-AreBelow i n [] b = tt
delete-AreBelow i n ((k, s) ∷ ss) b =
    let rest = delete-AreBelow i n ss b.1 in
    if_cases (AreBelow n) (k == i) (λ _. rest) (λ _. (b.0, rest))

pub subscribed_open :
    (i : ℕ) (ss : List (ℕ × String)) (f : ℕ → Channel)
    → AreOpen ss f
    → is_subscribed i ss ≡ true
    → (f i).is_closed ≡ false
unfolding is_subscribed
subscribed_open i [] f o h = cc
subscribed_open i ((k, s) ∷ ss) f o h = ground (arith, subscribed_open i ss f o.2)

pub below_fresh : (n : ℕ) (ss : List (ℕ × String)) → AreBelow n ss → is_subscribed n ss ≡ false
unfolding is_subscribed
below_fresh n [] b = refl
below_fresh n ((k, s) ∷ ss) b = ground (arith, below_fresh n ss b.1)

pub AreBelow-suc : (n : ℕ) (ss : List (ℕ × String)) → AreBelow n ss → AreBelow (n + 1) ss
AreBelow-suc n [] b = tt
AreBelow-suc n ((k, s) ∷ ss) b = (omega arith, AreBelow-suc n ss b.1)

abbrev pub shut : ℕ → (ℕ → Channel) → ℕ → Channel
shut i f = set i (record (f i) { is_closed = true }) f

pub close_channel_lem :
    (i : ℕ) (f : ℕ → Channel) → (f i).is_closed ≡ false → close_channel i f ≡ some (shut i f)
unfolding close_channel
close_channel_lem i f h = rw h refl

pub shut-Bounded : (i : ℕ) (f : ℕ → Channel) → Bounded f → Bounded (shut i f)
shut-Bounded i f b = set-Bounded i (record (f i) { is_closed = true }) f b (b i)

pub close_all-Bounded :
    (ss : List (ℕ × String)) (f : ℕ → Channel)
    → AreOpen ss f
    → Bounded f
    → (g : ℕ → Channel) × (close_all ss f ≡ some g) × Bounded g
unfolding close_all
close_all-Bounded [] f o b = (f, refl, b)
close_all-Bounded ((i, s) ∷ ss) f o b =
    let c : Channel = record (f i) { is_closed = true } in
    let (g, e, k) =
      close_all-Bounded ss (shut i f) (set-AreOpen i c ss f o.1 o.2) (shut-Bounded i f b) in
    (g, rw (close_channel_lem i f o.0) e, k)

abbrev pub sent : Event → ℕ → (ℕ → Channel) → ℕ → Channel
sent e i f = set i (push e (f i)) f

pub send_lem :
    (e : Event) (i : ℕ) (f : ℕ → Channel) → (f i).is_closed ≡ false → send e i f ≡ some (sent e i f)
unfolding send
send_lem e i f h = rw h refl

pub send_all-AreOpen :
    (e : Event) (ss whole : List (ℕ × String)) (f : ℕ → Channel)
    → AreOpen ss f
    → AreOpen whole f
    → Bounded f
    → (g : ℕ → Channel) × (send_all e ss f ≡ some g) × AreOpen whole g × Bounded g
unfolding send_all
send_all-AreOpen e [] whole f o w b = (f, refl, w, b)
send_all-AreOpen e ((i, s) ∷ ss) whole f o w b =
    let c = push e (f i) in
    let (g, q, k, l) =
      send_all-AreOpen e ss whole (sent e i f) (same-AreOpen i c ss f (push_closed e (f i)) o.2)
        (same-AreOpen i c whole f (push_closed e (f i)) w)
        (set-Bounded i c f b (push_bounded e (f i) (b i))) in
    elim (Bool-cases (accepts s e)) [
      | inl t ↦ (g, rw (t, send_lem e i f o.0) q, k, l)
      | inr t ↦ rw t (send_all-AreOpen e ss whole f o.2 w b)
    ]
