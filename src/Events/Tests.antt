-- ===== src/Events/Tests.antt =====
-- Calls on an event bus (internal/daemon/events.go): two subscriptions, one of them to a session.
use arcmux.Prelude.{◌≡◌, some, List, [], ◌∷◌}
use arcmux.Events.{
  Event, EventBus, new_event_bus, subscribe, Call, subscribes, unsubscribes, publishes, closes,
  calls,
}
use arcmux.Events.Safety.{IsSafe, calls-IsSafe}
use arcmux.Events.Channels.{sent}

abbrev started : Event
started = record {
  session_id = "s1";
  type = "state";
  state = "working";
  message = "";
  timestamp = 10;
  event_data = [];
}

abbrev a_day : List Call
a_day =
    subscribes ""
    ∷ subscribes "s2"
    ∷ publishes started
    ∷ unsubscribes 0
    ∷ publishes started
    ∷ closes
    ∷ subscribes "s1"
    ∷ publishes started
    ∷ closes
    ∷ []

calls-IsSafe_example : (b : EventBus) × (calls a_day new_event_bus ≡ some b) × IsSafe b
calls-IsSafe_example = calls-IsSafe a_day

abbrev watched : EventBus
watched = (subscribe "s1" new_event_bus).1

abbrev published : EventBus
published = record watched { channels = sent started 0 watched.channels }
