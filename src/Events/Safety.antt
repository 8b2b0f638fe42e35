-- ===== src/Events/Safety.antt =====
-- No call on the event bus panics (internal/daemon/events.go).
use arcmux.Prelude.{
  ℕ, ◌≤◌, ◌≡◌, refl, ap, String, true, false, Option, some, List, [], ◌∷◌, length, arith,
  Bool-cases, inl, inr,
}
use arcmux.Events.{
  Event, Channel, EventBus, buffer_size, new_event_bus, is_subscribed, delete, subscribe,
  unsubscribe, publish, close, receive, Call, subscribes, unsubscribes, receives, publishes, closes,
  call, calls,
}
use arcmux.Events.Channels.{
  Bounded, AreOpen, AreBelow, set_same, set-Bounded, set-AreOpen, same-AreOpen, delete_gone,
  delete-AreOpen, delete-AreBelow, subscribed_open, below_fresh, AreBelow-suc, shut,
  close_channel_lem, shut-Bounded, close_all-Bounded, send_all-AreOpen,
}

pub record IsSafe (b : EventBus) : Type 0 where
  pub open_subs : AreOpen b.subs b.channels
  pub below : AreBelow b.next_id b.subs
  pub bounded : Bounded b.channels

pub new_event_bus-IsSafe : IsSafe new_event_bus
unfolding new_event_bus
new_event_bus-IsSafe = record { open_subs = tt; below = tt; bounded = λ i. omega arith }

pub subscribe-IsSafe : (s : String) (b : EventBus) → IsSafe b → IsSafe (subscribe s b).1
unfolding subscribe
subscribe-IsSafe s b v =
    let c : Channel = record { buffer = []; is_closed = false } in
    let fresh = below_fresh b.next_id b.subs v.below in
    record {
      open_subs = (
        ap (λ (d : Channel). d.is_closed) (set_same b.next_id c b.channels),
        fresh,
        set-AreOpen b.next_id c b.subs b.channels fresh v.open_subs,
      );
      below = (omega arith, AreBelow-suc b.next_id b.subs v.below);
      bounded = set-Bounded b.next_id c b.channels v.bounded (omega arith);
    }

-- A call that goes through leaves the bus safe.
abbrev Safely : Option EventBus → Type 0
Safely o = (b : EventBus) × (o ≡ some b) × IsSafe b

unsubscribe-IsSafe : (i : ℕ) (b : EventBus) → IsSafe b → Safely (unsubscribe i b)
unfolding unsubscribe
unsubscribe-IsSafe i b v = elim (Bool-cases (is_subscribed i b.subs)) [
  | inl t ↦
      let f = b.channels in
      let left = delete i b.subs in
      let c : Channel = record (f i) { is_closed = true } in
      (
        record b { subs = left; channels = shut i f },
        rw (t, close_channel_lem i f (subscribed_open i b.subs f v.open_subs t)) refl,
        record {
          open_subs =
              set-AreOpen i c left f (delete_gone i b.subs) (delete-AreOpen i b.subs f v.open_subs);
          below = delete-AreBelow i b.next_id b.subs v.below;
          bounded = shut-Bounded i f v.bounded;
        },
      )
  | inr t ↦ (b, rw t refl, v)
]

publish-IsSafe : (e : Event) (b : EventBus) → IsSafe b → Safely (publish e b)
unfolding publish
publish-IsSafe e b v = elim (Bool-cases b.closed) [
  | inl t ↦ (b, rw t refl, v)
  | inr t ↦
      let (g, q, o, l) =
        send_all-AreOpen e b.subs b.subs b.channels v.open_subs v.open_subs v.bounded in
      (
        record b { channels = g },
        rw (t, q) refl,
        record { open_subs = o; below = v.below; bounded = l },
      )
]

close-IsSafe : (b : EventBus) → IsSafe b → Safely (close b)
unfolding close
close-IsSafe b v =
    let (g, q, l) = close_all-Bounded b.subs b.channels v.open_subs v.bounded in
    (
      record b { subs = []; closed = true; channels = g },
      rw q refl,
      record { open_subs = tt; below = tt; bounded = l },
    )

receive-IsSafe : (i : ℕ) (b : EventBus) → IsSafe b → IsSafe (receive i b)
unfolding receive
receive-IsSafe i b v =
    let c : Channel = record (b.channels i) {
      buffer = elim (b.channels i).buffer [ [] ↦ [] | e ∷ es ↦ es ];
    } in
    record {
      open_subs = same-AreOpen i c b.subs b.channels refl v.open_subs;
      below = v.below;
      bounded = set-Bounded i c b.channels v.bounded (shorter (b.channels i).buffer (v.bounded i));
    }
  where
    shorter :
        (es : List Event)
        → length es ≤ buffer_size
        → length (elim es [ [] ↦ [] | e ∷ rest ↦ rest ]) ≤ buffer_size
    shorter [] h = h
    shorter (e ∷ es) h = omega arith

call-IsSafe : (c : Call) (b : EventBus) → IsSafe b → Safely (call c b)
unfolding call
call-IsSafe (subscribes s) b v = ((subscribe s b).1, refl, subscribe-IsSafe s b v)
call-IsSafe (unsubscribes i) b v = unsubscribe-IsSafe i b v
call-IsSafe (receives i) b v = (receive i b, refl, receive-IsSafe i b v)
call-IsSafe (publishes e) b v = publish-IsSafe e b v
call-IsSafe closes b v = close-IsSafe b v

calls-IsSafe_from : (cs : List Call) (b : EventBus) → IsSafe b → Safely (calls cs b)
unfolding calls
calls-IsSafe_from [] b v = (b, refl, v)
calls-IsSafe_from (c ∷ cs) b v =
    let (b', e, v') = call-IsSafe c b v in rw (e, calls) (calls-IsSafe_from cs b' v')

-- On a new bus, any calls in any order go through: none sends on a closed channel and none closes
-- one twice. After them the subscriptions have open channels, each its own, their keys are below
-- the next one, and no channel holds more than 64 events.
pub calls-IsSafe : (cs : List Call) → (b : EventBus) × (calls cs new_event_bus ≡ some b) × IsSafe b
calls-IsSafe cs = calls-IsSafe_from cs new_event_bus new_event_bus-IsSafe
