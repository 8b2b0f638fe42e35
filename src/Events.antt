-- ===== src/Events.antt =====
-- The event bus of the daemon, internal/daemon/events.go. A channel is its buffer and whether it is
-- closed; `none` stands for Go's panic on a send on a closed channel and on a second close. Each
-- call holds the bus's lock, so the calls are a sequence; `subs` lists a map, whose order does not
-- matter, since each subscription has a channel of its own.
pub mod Channels
pub mod Safety
pub mod Delivered
mod Tests
use arcmux.Prelude.{
  Time, ℕ, ◌+◌, String, str_eq, Bool, true, false, ◌||◌, Option, some, none, List, [], ◌∷◌, ◌++◌,
  length, ltb, ◌==◌, if◌then◌else◌,
}

pub record Event : Type 0 where
  pub session_id : String
  pub type : String
  pub state : String
  pub message : String
  pub timestamp : Time
  pub event_data : List (String × String)  -- Data

pub record Channel : Type 0 where
  pub buffer : List Event
  pub is_closed : Bool

-- The key of a subscription is also its channel's place in `channels`.
pub record EventBus : Type 0 where
  pub subs : List (ℕ × String)
  pub channels : ℕ → Channel
  pub next_id : ℕ
  pub closed : Bool

abbrev pub buffer_size : ℕ
buffer_size = 64

unfoldable pub new_event_bus : EventBus
new_event_bus = record {
  subs = [];
  channels = λ i. record { buffer = []; is_closed = false };
  next_id = 0;
  closed = false;
}

unfoldable pub set : ℕ → Channel → (ℕ → Channel) → ℕ → Channel
set i c f j = if j == i then c else f j

unfoldable pub is_subscribed : ℕ → List (ℕ × String) → Bool
is_subscribed i [] = false
is_subscribed i ((j, s) ∷ ss) = let rest = is_subscribed i ss in j == i || rest

-- delete(b.subs, id)
unfoldable pub delete : ℕ → List (ℕ × String) → List (ℕ × String)
delete i [] = []
delete i ((j, s) ∷ ss) = let rest = delete i ss in if j == i then rest else (j, s) ∷ rest

-- The buffer after a non-blocking send
unfoldable pub push : Event → Channel → Channel
push e c = if ltb (length c.buffer) buffer_size then record c { buffer = c.buffer ++ e ∷ [] } else c

unfoldable pub send : Event → ℕ → (ℕ → Channel) → Option (ℕ → Channel)
unfolding push set
send e i f = if (f i).is_closed then none else some (set i (push e (f i)) f)

-- close(ch)
unfoldable pub close_channel : ℕ → (ℕ → Channel) → Option (ℕ → Channel)
unfolding set
close_channel i f =
    if (f i).is_closed then none else some (set i (record (f i) { is_closed = true }) f)

unfoldable pub subscribe : String → EventBus → ℕ × EventBus
unfolding set
subscribe session_id b = (
  b.next_id,
  record b {
    subs = (b.next_id, session_id) ∷ b.subs;
    channels = set b.next_id (record { buffer = []; is_closed = false }) b.channels;
    next_id = b.next_id + 1;
  },
)

abbrev pub with_channels : EventBus → Option (ℕ → Channel) → Option EventBus
with_channels b none = none
with_channels b (some f) = some (record b { channels = f })

unfoldable pub unsubscribe : ℕ → EventBus → Option EventBus
unfolding is_subscribed delete close_channel
unsubscribe id b =
    if is_subscribed id b.subs
    then with_channels (record b { subs = delete id b.subs }) (close_channel id b.channels)
    else some b

unfoldable pub accepts : String → Event → Bool
accepts s e = str_eq s "" || str_eq s e.session_id

abbrev pub and_then :
    Option (ℕ → Channel) → ((ℕ → Channel) → Option (ℕ → Channel)) → Option (ℕ → Channel)
and_then none k = none
and_then (some f) k = k f

-- The loop of Publish
unfoldable pub send_all : Event → List (ℕ × String) → (ℕ → Channel) → Option (ℕ → Channel)
unfolding send accepts
send_all e [] f = some f
send_all e ((i, s) ∷ ss) f =
    if accepts s e then and_then (send e i f) (send_all e ss) else send_all e ss f

unfoldable pub publish : Event → EventBus → Option EventBus
unfolding send_all
publish e b = if b.closed then some b else with_channels b (send_all e b.subs b.channels)

-- The loop of Close
unfoldable pub close_all : List (ℕ × String) → (ℕ → Channel) → Option (ℕ → Channel)
unfolding close_channel
close_all [] f = some f
close_all ((i, s) ∷ ss) f = and_then (close_channel i f) (close_all ss)

unfoldable pub close : EventBus → Option EventBus
unfolding close_all
close b = with_channels (record b { subs = []; closed = true }) (close_all b.subs b.channels)

-- A subscriber takes the first event out of its channel.
unfoldable pub receive : ℕ → EventBus → EventBus
unfolding set
receive i b = record b {
  channels =
      set i
        (record (b.channels i) { buffer = elim (b.channels i).buffer [ [] ↦ [] | e ∷ es ↦ es ] })
        b.channels;
}

pub data Call : Type 0 where
  subscribes : String → Call
  unsubscribes receives : ℕ → Call
  publishes : Event → Call
  closes : Call

unfoldable pub call : Call → EventBus → Option EventBus
unfolding subscribe unsubscribe publish close receive
call (subscribes s) b = some (subscribe s b).1
call (unsubscribes i) b = unsubscribe i b
call (receives i) b = some (receive i b)
call (publishes e) b = publish e b
call closes b = close b

unfoldable pub calls : List Call → EventBus → Option EventBus
calls [] b = some b
calls (c ∷ cs) b = elim (call c b) [ none ↦ none | some b' ↦ calls cs b' ]
