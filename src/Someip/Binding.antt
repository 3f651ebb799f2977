-- ===== src/Someip/Binding.antt =====
-- The state of com/someip_binding.cpp and its functions. vsomeip is not modelled: its calls come
-- back as a list, in order, and what it calls back enters as an argument. `none` is a call through
-- the null pointer, before `init`. A callback is a number, `none` for an empty std::function; a
-- dispatch comes back as the calls that it makes. Exceptions of vsomeip are not modelled.
pub mod Offers
use minimal_autosar_adaptive.Prelude.{
  ℕ, suc, ◌+◌, ◌*◌, ◌%◌, ◌^◌, Bool, true, false, not, ◌&&◌, nat_eq, string_eq, ◌==◌, Bytes, String,
  List, [], ◌∷◌, ◌++◌, map, Option, none, some, if◌then◌else◌, is_empty,
}
use minimal_autosar_adaptive.Prelude.Table.{Table, insert, erase}
use minimal_autosar_adaptive.Prelude.Membership.{elem}
use minimal_autosar_adaptive.Someip.Requests.{EventRequest, auto_requests}

abbrev pub Callback : Type 0
Callback = Option ℕ

pub record Binding : Type 0 where
  -- the application, once created, by its name
  pub app : Option String
  pub started : Bool
  pub auto_subscribe : Bool
  pub default_event_group : ℕ
  pub notif_handlers : List Callback
  pub rpc_handlers : List Callback
  pub global_handler : Callback
  pub avail_next : ℕ
  pub avail_cbs : Table ℕ Callback
  pub offered_events : List ℕ

unfoldable pub initial : Binding
initial = record {
  app = none;
  started = false;
  auto_subscribe = false;
  default_event_group = 0x0001;
  notif_handlers = [];
  rpc_handlers = [];
  global_handler = none;
  avail_next = 0;
  avail_cbs = [];
  offered_events = [];
}

-- The calls into vsomeip.
pub data Call : Type 0 where
  create_application : String → Call
  register_handlers : Call
  start : Call
  stop : Call
  offer_service : ℕ → ℕ → Call
  stop_offer_service : ℕ → ℕ → Call
  offer_event : ℕ → ℕ → ℕ → ℕ → Call
  request_service : ℕ → ℕ → Call
  release_service : ℕ → ℕ → Call
  request_event : ℕ → ℕ → ℕ → List ℕ → Bool → Call
  release_event : ℕ → ℕ → ℕ → Call
  subscribe : ℕ → ℕ → ℕ → Call
  unsubscribe : ℕ → ℕ → ℕ → Call
  notify : ℕ → ℕ → ℕ → Bytes → Call
  send_request : ℕ → ℕ → ℕ → Bytes → Call
  send_response : Bytes → Call

-- app->…
unfoldable pub through_app : Binding → List Call → Option (List Call)
through_app b calls = elim b.app [ none ↦ none | some name ↦ some calls ]

-- if (app) app->…
unfoldable pub if_app : Binding → List Call → List Call
if_app b calls = elim b.app [ none ↦ [] | some name ↦ calls ]

-- The event requests of the environment, each followed by its subscription.
unfoldable pub auto_calls : List EventRequest → List Call
auto_calls [] = []
auto_calls (r ∷ rs) =
    request_event r.service r.instance r.event (r.group ∷ []) true
    ∷ subscribe r.service r.instance r.group
    ∷ auto_calls rs

-- init, where the application's own `init` succeeds; `env` is SOMEIP_REQUEST_EVENTS.
unfoldable pub init : String → Option Bytes → Binding → Binding × List Call
unfolding auto_calls auto_requests
init name env b = elim b.app [
  | some old ↦ (b, [])
  | none ↦
      let requested : List Call = elim env [
        | none ↦ []
        | some spec ↦ auto_calls (auto_requests b.default_event_group spec)
      ] in
      (
        record b { app = some name; started = true },
        create_application name
            ∷ register_handlers
            ∷ (requested ++ (if b.started then [] else start ∷ [])),
      )
]

unfoldable pub shut_down : Binding → Binding × List Call
shut_down b = elim b.app [ none ↦ (b, []) | some name ↦ (record b { started = false }, stop ∷ []) ]

unfoldable pub enable_auto_subscribe : Bool → ℕ → Binding → Binding
enable_auto_subscribe enable group b = record b {
  auto_subscribe = enable;
  default_event_group = group;
}

-- The groups come as a set; the adapter gives one.
unfoldable pub request_an_event : ℕ → ℕ → ℕ → List ℕ → Bool → Binding → Option (List Call)
unfolding through_app
request_an_event s i e groups reliable b = through_app b (request_event s i e groups reliable ∷ [])

unfoldable pub release_an_event : ℕ → ℕ → ℕ → Binding → Option (List Call)
unfolding through_app
release_an_event s i e b = through_app b (release_event s i e ∷ [])

unfoldable pub offer_a_service : ℕ → ℕ → ℕ → ℕ → Binding → Option (List Call)
unfolding through_app
offer_a_service s i e group b =
    through_app b (offer_service s i ∷ (if e == 0 then [] else offer_event s i e group ∷ []))

unfoldable pub subscribe_to_event : ℕ → ℕ → ℕ → ℕ → Binding → Option (List Call)
unfolding through_app
subscribe_to_event s i group e b = through_app b (subscribe s i group ∷ [])

unfoldable pub request_a_service : ℕ → ℕ → Binding → Option (List Call)
unfolding through_app
request_a_service s i b = through_app b (request_service s i ∷ [])

unfoldable pub release_a_service : ℕ → ℕ → Binding → List Call
unfolding if_app
release_a_service s i b = if_app b (release_service s i ∷ [])

unfoldable pub stop_offering_service : ℕ → ℕ → Binding → List Call
unfolding if_app
stop_offering_service s i b = if_app b (stop_offer_service s i ∷ [])

unfoldable pub unsubscribe_event : ℕ → ℕ → ℕ → ℕ → Binding → List Call
unfolding if_app
unsubscribe_event s i group e b = if_app b (unsubscribe s i group ∷ [])

unfoldable pub send_a_request : ℕ → ℕ → ℕ → Bytes → Binding → Option (List Call)
unfolding through_app
send_a_request s i m payload b = through_app b (send_request s i m payload ∷ [])

unfoldable pub send_a_response : Bytes → Binding → Option (List Call)
unfolding through_app
send_a_response payload b = through_app b (send_response payload ∷ [])

-- The three parts do not overlap, so `|` adds.
unfoldable pub make_key : ℕ → ℕ → ℕ → ℕ
make_key s i e = s * 2 ^ 32 + i * 2 ^ 16 + e

-- The event is offered before its first notification.
unfoldable pub send_notification : ℕ → ℕ → ℕ → Bytes → Binding → Option (Binding × List Call)
unfolding make_key through_app
send_notification s i e payload b =
    let key = make_key s i e in
    let sent = notify s i e payload ∷ [] in
    if elem key b.offered_events
    then (elim (through_app b sent) [ none ↦ none | some calls ↦ some (b, calls) ])
    else (elim (through_app b (offer_event s i e b.default_event_group ∷ sent)) [
      | none ↦ none
      | some calls ↦ some (record b { offered_events = b.offered_events ++ key ∷ [] }, calls)
    ])

unfoldable pub register_handler : Callback → Binding → Binding
register_handler h b = record b { global_handler = h }

unfoldable pub register_rpc_handler : Callback → Binding → Binding
register_rpc_handler h b = record b { rpc_handlers = b.rpc_handlers ++ h ∷ [] }

unfoldable pub register_notification_handler : Callback → Binding → Binding
register_notification_handler h b = record b { notif_handlers = b.notif_handlers ++ h ∷ [] }

-- The token is the incremented counter, of 64 bits.
unfoldable pub register_availability_handler : Callback → Binding → Binding × ℕ
register_availability_handler h b =
    let id = (b.avail_next + 1) % 2 ^ 64 in
    (record b { avail_next = id; avail_cbs = insert id h b.avail_cbs }, id)

unfoldable pub remove_availability_handler : ℕ → Binding → Binding
remove_availability_handler tok b = record b { avail_cbs = erase tok b.avail_cbs }

-- A message from vsomeip, and a callback's call.
pub record Message : Type 0 where
  pub is_notification : Bool
  pub service : ℕ
  pub instance : ℕ
  pub method : ℕ
  pub payload : Bytes

pub data Invocation : Type 0 where
  handler : ℕ → Message → Invocation
  legacy : ℕ → Bytes → Invocation
  availability : ℕ → ℕ → ℕ → Bool → Invocation

-- for (auto& cb : cbs) if (cb) cb(…)
unfoldable pub fan_out : Message → List Callback → List Invocation
fan_out m [] = []
fan_out m (none ∷ cbs) = fan_out m cbs
fan_out m (some h ∷ cbs) = handler h m ∷ fan_out m cbs

unfoldable pub legacy_call : Message → Callback → List Invocation
legacy_call m none = []
legacy_call m (some h) = legacy h m.payload ∷ []

unfoldable pub on_message : Message → Binding → List Invocation
unfolding fan_out legacy_call
on_message m b =
    if m.is_notification
    then fan_out m b.notif_handlers
      ++ (if is_empty b.notif_handlers then legacy_call m b.global_handler else [])
    else fan_out m b.rpc_handlers

unfoldable pub on_each_availability : ℕ → ℕ → Bool → Table ℕ Callback → List Invocation
on_each_availability s i up [] = []
on_each_availability s i up ((tok, none) ∷ cbs) = on_each_availability s i up cbs
on_each_availability s i up ((tok, some h) ∷ cbs) =
    availability h s i up ∷ on_each_availability s i up cbs

unfoldable pub on_availability : ℕ → ℕ → Bool → Binding → List Call × List Invocation
unfolding on_each_availability
on_availability s i up b = (
  if up && b.auto_subscribe then subscribe s i b.default_event_group ∷ [] else [],
  on_each_availability s i up b.avail_cbs,
)
