-- ===== src/Em/Supervision/Projection.antt =====
-- What one application's supervisor sees.
use minimal_autosar_adaptive.Prelude.{
  ℕ, ◌≡◌, refl, sym, ◌∙◌, ap, Bool, false, ◌&&◌, nat_eq, string_eq, ◌==◌, String, List, [], ◌∷◌,
  ◌++◌, arith, Option, none, some, if◌then◌else◌, Option-cases, inl, inr,
}
use mathlib.Core.List.{append-nil}
use minimal_autosar_adaptive.Prelude.Table.{Table, keys, lookup, lookup-insert, keys-insert}
use minimal_autosar_adaptive.Prelude.Membership.{elem, Distinct}
use minimal_autosar_adaptive.Phm.Ids.{service, instance_id, alive_method, checkpoint_method}
use minimal_autosar_adaptive.Phm.Client.{Request, from_network}
use minimal_autosar_adaptive.Phm.Supervisor.{
  Supervisor, Output, Input, alive, checkpoint, tick, maintenance_tick, run,
}
use minimal_autosar_adaptive.Phm.Supervisor.Verdict.{run-append}
use minimal_autosar_adaptive.Em.Handlers.{Monitors, serve, handle_request}
use minimal_autosar_adaptive.Em.Supervision.{
  Report, about, tick_all, Event, request, ticks, on_event, run_events,
}

-- What a request says to the supervisor that it is for.
unfoldable pub inputs_of : Request → List Input
inputs_of req =
    if req.method == alive_method
    then alive ∷ []
    else if req.method == checkpoint_method
    then (elim (from_network req.payload) [ none ↦ [] | some cp ↦ checkpoint cp ∷ [] ])
    else []

unfoldable pub is_from : Table ℕ String → String → ℕ → Bool
is_from by_client id client = elim (lookup client by_client) [
  | none ↦ false
  | some app_id ↦ app_id == id
]

-- What an event is to application `id`.
unfoldable pub seen_by : Table ℕ String → String → Event → List Input
unfolding inputs_of is_from
seen_by by_client id (request req client) =
    if req.service_id == service && (req.instance == instance_id && is_from by_client id client)
    then inputs_of req
    else []
seen_by by_client id (ticks clock) = tick (clock id) ∷ []

unfoldable pub all_seen_by : Table ℕ String → String → List Event → List Input
all_seen_by by_client id [] = []
all_seen_by by_client id (e ∷ es) = seen_by by_client id e ++ all_seen_by by_client id es

-- The reports about application `id`.
pub said_of : String → List Report → List Output
said_of id [] = []
said_of id ((j, o) ∷ out) = if j == id then o ∷ said_of id out else said_of id out

said_of-append :
    (id : String) (xs ys : List Report) → said_of id (xs ++ ys) ≡ said_of id xs ++ said_of id ys
unfolding said_of
said_of-append id [] ys = refl
said_of-append id ((j, o) ∷ xs) ys = ground (arith, said_of-append id xs ys)

said_of-about :
    (id j : String) (out : List Output) → said_of id (about j out) ≡ (if j == id then out else [])
unfolding said_of
said_of-about id j [] = ground arith
said_of-about id j (o ∷ out) = ground (arith, said_of-about id j out)

-- A request, for the supervisor that it is for.
serve-run :
    (req : Request) (sup : Supervisor)
    → run (inputs_of req) sup ≡ (serve req.method req.payload sup, [])
unfolding serve inputs_of run
serve-run req sup = ground arith

-- A supervisor that may be missing, handed inputs.
abbrev pub after : List Input → Option Supervisor → Option Supervisor
after is none = none
after is (some s) = some (run is s).0

abbrev pub output : List Input → Option Supervisor → List Output
output is none = []
output is (some s) = (run is s).1

after-nil : (o : Option Supervisor) → after [] o ≡ o
unfolding run
after-nil none = refl
after-nil (some s) = refl

output-nil : (o : Option Supervisor) → output [] o ≡ []
unfolding run
output-nil none = refl
output-nil (some s) = refl

run-tick : (now : ℕ) (s : Supervisor) → run (tick now ∷ []) s ≡ maintenance_tick now s
unfolding run
run-tick now s = rw append-nil refl

tick_all-lookup :
    (clock : String → ℕ) (id : String) (m : Monitors)
    → lookup id (tick_all clock m).0 ≡ after (tick (clock id) ∷ []) (lookup id m)
unfolding tick_all lookup
tick_all-lookup clock id [] = refl
tick_all-lookup clock id ((j, s) ∷ m) =
    ground (arith, tick_all-lookup clock id m, run-tick (clock j) s, string_eq.beq_iff j id)

tick_all-keys : (clock : String → ℕ) (m : Monitors) → keys (tick_all clock m).0 ≡ keys m
unfolding tick_all
tick_all-keys clock [] = refl
tick_all-keys clock ((j, s) ∷ m) = ap (λ (l : List String). j ∷ l) (tick_all-keys clock m)

silent_ticks :
    (clock : String → ℕ) (id : String) (m : Monitors)
    → elem id (keys m) ≡ false
    → said_of id (tick_all clock m).1 ≡ []
unfolding tick_all said_of
silent_ticks clock id [] h = refl
silent_ticks clock id ((j, s) ∷ m) h =
    said_of-append id (about j (maintenance_tick (clock j) s).1) (tick_all clock m).1
    ∙ ground (arith, said_of-about id j (maintenance_tick (clock j) s).1, silent_ticks clock id m)

lookup-absent : (id : String) (m : Monitors) → elem id (keys m) ≡ false → lookup id m ≡ none
unfolding lookup
lookup-absent id [] h = refl
lookup-absent id ((j, s) ∷ m) h = ground (arith, lookup-absent id m)

tick_all-said :
    (clock : String → ℕ) (id : String) (m : Monitors)
    → Distinct (keys m)
    → said_of id (tick_all clock m).1 ≡ output (tick (clock id) ∷ []) (lookup id m)
unfolding tick_all lookup
tick_all-said clock id [] d = unfold said_of in refl
tick_all-said clock id ((j, s) ∷ m) d =
    let out = (maintenance_tick (clock j) s).1 in
    said_of-append id (about j out) (tick_all clock m).1
    ∙ ground (
      arith,
      said_of-about id j out,
      silent_ticks clock id m,
      run-tick (clock j) s,
      append-nil out,
      string_eq.beq_iff j id,
      tick_all-said clock id m d.1,
    )

-- A request is to one application its inputs, and changes nothing for the others.
handle_request-seen :
    (by_client : Table ℕ String) (req : Request) (client : ℕ) (id : String) (m : Monitors)
    → lookup id (handle_request by_client req client m).0
      ≡ after (seen_by by_client id (request req client)) (lookup id m)
unfolding seen_by is_from handle_request
handle_request-seen by_client req client id m = elim (Option-cases (lookup client by_client)) [
  | inl e ↦ ground (arith, after-nil (lookup id m))
  | inr (app_id, e) ↦ elim (Option-cases (lookup app_id m)) [
    | inl f ↦ ground (arith, after-nil (lookup id m), string_eq.beq_iff app_id id)
    | inr (sup, f) ↦ ground (
      arith,
      after-nil (lookup id m),
      lookup-insert app_id id (serve req.method req.payload sup) m,
      serve-run req sup,
      string_eq.beq_iff app_id id,
    )
  ]
]

request-keys :
    (by_client : Table ℕ String) (req : Request) (client : ℕ) (m : Monitors)
    → keys (handle_request by_client req client m).0 ≡ keys m
unfolding handle_request
request-keys by_client req client m = elim (Option-cases (lookup client by_client)) [
  | inl e ↦ ground arith
  | inr (app_id, e) ↦ elim (Option-cases (lookup app_id m)) [
    | inl f ↦ ground arith
    | inr (sup, f) ↦
        ground
          (arith, lookup-absent app_id m, keys-insert app_id (serve req.method req.payload sup) m)
  ]
]

after-append :
    (is js : List Input) (o : Option Supervisor) → after (is ++ js) o ≡ after js (after is o)
after-append is js none = refl
after-append is js (some s) =
    ap some (ap (λ (p : Supervisor × List Output). p.0) (run-append is js s))

output-append :
    (is js : List Input) (o : Option Supervisor)
    → output (is ++ js) o ≡ output is o ++ output js (after is o)
output-append is js none = refl
output-append is js (some s) = ap (λ (p : Supervisor × List Output). p.1) (run-append is js s)

output-inputs_of :
    (by_client : Table ℕ String) (id : String) (req : Request) (client : ℕ) (o : Option Supervisor)
    → output (seen_by by_client id (request req client)) o ≡ []
unfolding seen_by run
output-inputs_of by_client id req client none = refl
output-inputs_of by_client id req client (some s) = ground (arith, serve-run req s)

record IsSeen (by_client : Table ℕ String) (id : String) (e : Event) (m : Monitors) : Type 0 where
  state : lookup id (on_event by_client e m).0 ≡ after (seen_by by_client id e) (lookup id m)
  said : said_of id (on_event by_client e m).1 ≡ output (seen_by by_client id e) (lookup id m)
  keys_kept : keys (on_event by_client e m).0 ≡ keys m

on_event-IsSeen :
    (by_client : Table ℕ String) (id : String) (e : Event) (m : Monitors)
    → Distinct (keys m)
    → IsSeen by_client id e m
unfolding on_event
on_event-IsSeen by_client id (request req client) m d = record {
  state = handle_request-seen by_client req client id m;
  said = unfold said_of in sym (output-inputs_of by_client id req client (lookup id m));
  keys_kept = request-keys by_client req client m;
}
on_event-IsSeen by_client id (ticks clock) m d =
    unfold seen_by in
    record {
      state = tick_all-lookup clock id m;
      said = tick_all-said clock id m d;
      keys_kept = tick_all-keys clock m;
    }

-- However requests and ticks follow one another, each application's supervisor ends as if it alone
-- had been handed the reports of its clients and the ticks, in their order, and what is reported
-- about the application is what that supervisor reports.
pub run_events-projects :
    (by_client : Table ℕ String) (id : String) (es : List Event) (m : Monitors)
    → Distinct (keys m)
    → (lookup id (run_events by_client es m).0 ≡ after (all_seen_by by_client id es) (lookup id m))
      × (said_of id (run_events by_client es m).1
          ≡ output (all_seen_by by_client id es) (lookup id m))
unfolding run_events all_seen_by
run_events-projects by_client id [] m d =
    (sym (after-nil (lookup id m)), unfold said_of in sym (output-nil (lookup id m)))
run_events-projects by_client id (e ∷ es) m d =
    let step = on_event-IsSeen by_client id e m d in
    let next = (on_event by_client e m).0 in
    let is = seen_by by_client id e in
    let rest = run_events-projects by_client id es next (rw step.keys_kept d) in
    let more = all_seen_by by_client id es in
    (
      rest.0 ∙ ap (after more) step.state ∙ sym (after-append is more (lookup id m)),
      said_of-append id (on_event by_client e m).1 (run_events by_client es next).1
          ∙ rw (step.said, rest.1, step.state) (sym (output-append is more (lookup id m))),
    )
