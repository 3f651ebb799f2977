-- ===== src/Examples/Talking.antt =====
-- Notifications and light patterns.
use minimal_autosar_adaptive.Prelude.{
  ℕ, ◌≡◌, ◌≢◌, ap, refl, nat_eq, is_empty, ◌++◌, true, false, Bool, map, ◌==◌, list_eq, Bytes, List,
  [], ◌∷◌, none, some, arith, codes, Option, All, ◌<◌, if◌then◌else◌,
}
use mathlib.Core.List.{Perm}
use mathlib.Core.List.Perm
use minimal_autosar_adaptive.Prelude.Walk.{IsWalk}
use minimal_autosar_adaptive.Prelude.Table.{Table, lookup}
use minimal_autosar_adaptive.Someip.Binding.{
  Binding, Call, Message, request_event, subscribe, unsubscribe, release_event,
}
use minimal_autosar_adaptive.Someip.Binding.Offers.{
  Sending, IsNarrow, offers, sent, notified, send_all, offered_once,
}
use minimal_autosar_adaptive.Com.Adapter.{
  ok, event_dispatcher, Key, key_eq, key_beq_iff, Adapter, subscribe_event, adapter_unsubscribe,
  Handled, dispatch_rpc,
}
use minimal_autosar_adaptive.Com.Adapter.Subscriptions.{Subscription, Holds, for_key, metas, remove}
use minimal_autosar_adaptive.Com.Adapter.Delivery.{
  taken_down, subscribe_event-Holds, adapter_unsubscribe-Holds,
}
use minimal_autosar_adaptive.Com.Adapter.Methods.{key_of}
use minimal_autosar_adaptive.Prelude.Int.{pos}
use minimal_autosar_adaptive.Gateway.{as_shift, Line, rx_loop, CanGateway, CanFrame, zeros}
use minimal_autosar_adaptive.Gateway.Lines.{line_a_values, line_b_values, values, rx_loop-values}
use minimal_autosar_adaptive.Com.Typed
use minimal_autosar_adaptive.Com.Typed.{
  Codec, Descriptor, EventEntry, Outcome, on_event, bind, bound,
}
use minimal_autosar_adaptive.Com.Typed.Delivery.{
  listeners, request, messages, heard, notify-heard, bind-answers,
}

-- A process after `init`.
abbrev ready : Binding
ready = record {
  app = some "provider";
  started = true;
  auto_subscribe = false;
  default_event_group = 1;
  notif_handlers = [];
  rpc_handlers = [];
  global_handler = none;
  avail_next = 0;
  avail_cbs = [];
  offered_events = [];
}

abbrev speeds : List Sending
speeds =
    record { service = 0x1234; instance = 1; event = 0x8001; payload = codes "50" }
    ∷ record { service = 0x1234; instance = 1; event = 0x8001; payload = codes "51" }
    ∷ []

speeds-IsNarrow : All IsNarrow speeds
unfolding IsNarrow
speeds-IsNarrow = ((omega arith, omega arith), ((omega arith, omega arith), tt))

offered_once_example :
    (c : Binding) × (calls : List Call) × (send_all speeds ready ≡ some (c, calls))
    × (sent calls ≡ speeds)
    × ((s i e : ℕ)
        → i < 65536
        → e < 65536
        → offers s i e calls ≡ (if notified s i e speeds then 1 else 0))
offered_once_example = offered_once speeds ready "provider" refl refl speeds-IsNarrow

-- The adapter with one live subscription.
abbrev speed_event : Key
speed_event = record { service = 0x1234; instance = 1; item = 0x8001 }

abbrev live : List Subscription
live = record { token = 1; key = speed_event; group = 1; callback = some 7 } ∷ []

abbrev subscribed : Adapter
subscribed = record {
  inited = true;
  dispatching = true;
  dispatching_rpc = false;
  next_token = 1;
  subs = (speed_event, (1, some 7) ∷ []) ∷ [];
  token_meta = (1, record { key = speed_event; group = 1 }) ∷ [];
  rpc = [];
}

subscribed-Holds : Holds subscribed live
unfolding lookup for_key metas
subscribed-Holds = record {
  buckets = λ k. ground (arith, key_beq_iff speed_event k);
  tokens = refl;
  bounded = omega arith;
  unique = (refl, tt);
}

abbrev speed_message : Message
speed_message = record {
  is_notification = true;
  service = 0x1234;
  instance = 1;
  method = 0x8001;
  payload = codes "50";
}

subscribe_event-Holds_example :
    (a' : Adapter) × (b' : Binding) × (subscribe_event speed_event 2 (some 8) subscribed ready
      ≡ some (a', b', request_event 0x1234 1 0x8001 (2 ∷ []) true ∷ subscribe 0x1234 1 2 ∷ [], 2))
    × Holds a' (live ++ record { token = 2; key = speed_event; group = 2; callback = some 8 } ∷ [])
subscribe_event-Holds_example =
    subscribe_event-Holds speed_event 2 (some 8) subscribed ready "provider" live refl (omega arith)
      subscribed-Holds

taken : taken_down 1 live ≡ unsubscribe 0x1234 1 1 ∷ release_event 0x1234 1 0x8001 ∷ []
unfolding taken_down lookup for_key metas remove
taken = refl

adapter_unsubscribe-Holds_example :
    (a' : Adapter) × (adapter_unsubscribe 1 subscribed ready ≡ some (a', taken_down 1 live))
    × Holds a' (remove 1 live)
adapter_unsubscribe-Holds_example =
    adapter_unsubscribe-Holds 1 subscribed ready "provider" live refl subscribed-Holds

abbrev with_method : Adapter
with_method = record subscribed { rpc = (speed_event, (5, some 9) ∷ []) ∷ [] }

-- A handler that answers with what it is given, and throws for nothing.
abbrev echo : ℕ → Bytes → Handled
echo h payload = record { responses = payload ∷ []; throws = is_empty payload }

no_method : lookup (key_of speed_message) subscribed.rpc ≡ none
unfolding lookup
no_method = refl

other_key : record { service = 1; instance = 1; item = 1 } ≢ key_of speed_message
other_key e = absurd (omega (arith, ap (λ (k : Key). k.item) e))

-- A gateway whose lines read the indicator's frame.
abbrev gateway : CanGateway
gateway = record {
  cfg = record {
    iface = "vcan0";
    tx = record { ind_canid = 0x321; act_canid = 0x322; ind_dlc = 1; act_dlc = 1 };
    rx = record {
      line_a_id = some 0x321;
      line_a_bit = pos 0;
      line_b_id = some 0x321;
      line_b_bit = pos 1;
    };
  };
  bus2fn = record { has_line_a = true; has_line_b = true };
  is_open = true;
}

abbrev blink : CanFrame
blink = record { can_id = 0x321; can_dlc = 1; data0 = 2; data_rest = zeros }

zero_shifts : as_shift (pos 0) ≡ some 0
unfolding as_shift
zero_shifts = refl

one_shifts : as_shift (pos 1) ≡ some 1
unfolding as_shift
one_shifts = refl

rx_loop-values_example :
    (out : List Line) × (rx_loop (blink ∷ blink ∷ []) gateway ≡ some out)
    × (line_a_values out ≡ values 0 (some 0x321) (blink ∷ blink ∷ []))
    × (line_b_values out ≡ values 1 (some 0x321) (blink ∷ blink ∷ []))
rx_loop-values_example = rx_loop-values (blink ∷ blink ∷ []) gateway 0 1 refl zero_shifts one_shifts

abbrev written : Bool → Bytes
written true = codes "1"
written false = codes "0"

abbrev flags : Codec Bool
flags = record { serialize = written; deserialize = λ bytes. bytes == codes "1" }

abbrev meter : Descriptor
meter = record { service_id = 0x1234; instance_id = 1 }

abbrev speed_entry : EventEntry
speed_entry = record { group = 1; id = 0x8001 }

-- A client whose only handler of notifications is the adapter's.
abbrev client : Binding
client = record ready { notif_handlers = some event_dispatcher ∷ [] }

-- A map that is walked as it stands.
abbrev forwards : Table ℕ (Option ℕ) → Table ℕ (Option ℕ)
forwards l = l

forwards-IsWalk : IsWalk forwards
forwards-IsWalk l = Perm.rfl

notify-heard_example :
    (b' : Binding) × (calls : List Call) × (Typed.notify flags meter speed_entry true ready
      ≡ some (b', calls, ok))
    × Perm
        (heard flags forwards (messages calls) subscribed client)
        (map (λ (cb : ℕ). (cb, true)) (listeners (Typed.key_of meter 0x8001) live))
notify-heard_example =
    notify-heard flags forwards meter speed_entry true ready "provider" subscribed client live refl
      forwards-IsWalk subscribed-Holds refl refl

-- The method that negates, and fails to answer false.
abbrev negate : Bool → Outcome Bool
negate true = record { answers = (ok, false) ∷ []; throws = false }
negate false = record { answers = []; throws = true }

abbrev negating : ℕ → Bytes → Handled
negating h = bound flags flags negate

meter_free : lookup (Typed.key_of meter 3) subscribed.rpc ≡ none
unfolding lookup
meter_free = refl

bind-answers_example :
    dispatch_rpc negating (request meter 3 (codes "0")) (bind meter 3 9 subscribed ready).0
    ≡ (none, []) ∷ []
bind-answers_example =
    bind-answers flags flags negate negating meter 3 9 false subscribed ready meter_free refl refl
