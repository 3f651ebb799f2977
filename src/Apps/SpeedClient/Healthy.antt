-- ===== src/Apps/SpeedClient/Healthy.antt =====
-- The speed client as its monitor in the execution manager sees it.
use minimal_autosar_adaptive.Prelude.{
  ℕ, ◌≡◌, ◌↔◌, refl, ap, subst, sym, ◌∙◌, false, nat_eq, string_eq, String, List, [], ◌∷◌, ◌++◌,
  some, arith, if◌then◌else◌, ltb, All, Any, All-append, Any-append, Bool-cases, inl, inr,
}
use mathlib.Core.List.{append_assoc}
use minimal_autosar_adaptive.Prelude.Table.{Table, keys, lookup}
use minimal_autosar_adaptive.Prelude.Membership.{Distinct}
use minimal_autosar_adaptive.Phm.Client.{to_network, from_network, report_alive, report_checkpoint}
use minimal_autosar_adaptive.Phm.Supervisor
use minimal_autosar_adaptive.Phm.Supervisor.{Supervisor, Input, alive, checkpoint}
use minimal_autosar_adaptive.Phm.Supervisor.Verdict.{IsReport, IsDue, tick-IsHealthy}
use minimal_autosar_adaptive.Em.Handlers.{Monitors}
use minimal_autosar_adaptive.Em.Supervision.{Event, request, ticks, run_events}
use minimal_autosar_adaptive.Em.Supervision.Projection.{
  inputs_of, is_from, seen_by, all_seen_by, said_of, run_events-projects,
}
use minimal_autosar_adaptive.Apps.Float.{Float}
use minimal_autosar_adaptive.Apps.SpeedClient.{
  SpeedClient, Output, report, log_line, missed_events, on_tick, on_speed, Step, speed, tick, step,
  run,
}

-- The requests among the outputs, as they reach the manager from a client.
pub sent_by : ℕ → List Output → List Event
sent_by client [] = []
sent_by client (report req ∷ out) = request req client ∷ sent_by client out
sent_by client (log_line level ∷ out) = sent_by client out

sent_by-append :
    (client : ℕ) (xs ys : List Output)
    → sent_by client (xs ++ ys) ≡ sent_by client xs ++ sent_by client ys
unfolding sent_by
sent_by-append client [] ys = refl
sent_by-append client (report req ∷ xs) ys =
    ap (λ es. request req client ∷ es) (sent_by-append client xs ys)
sent_by-append client (log_line level ∷ xs) ys = sent_by-append client xs ys

all_seen_by-append :
    (by_client : Table ℕ String) (id : String) (es fs : List Event)
    → all_seen_by by_client id (es ++ fs)
      ≡ all_seen_by by_client id es ++ all_seen_by by_client id fs
unfolding all_seen_by
all_seen_by-append by_client id [] fs = refl
all_seen_by-append by_client id (e ∷ es) fs =
    ap (λ is. seen_by by_client id e ++ is) (all_seen_by-append by_client id es fs)
    ∙ sym (
        append_assoc (seen_by by_client id e) (all_seen_by by_client id es)
          (all_seen_by by_client id fs))

module _ {F : Type 0} (float : Float F) (by_client : Table ℕ String) (client : ℕ) (id : String)
    (known : lookup client by_client ≡ some id) where
  -- What the monitor hears of some outputs.
  heard_of : List Output → List Input
  heard_of out = all_seen_by by_client id (sent_by client out)

  -- It hears reports only, and of a life exactly in the rounds of the loop.
  record Speaks (ss : List (Step F)) (rs : List Input) : Type 0 where
    reports : All IsReport rs
    lives : Any (λ i. i ≡ alive) rs ↔ Any (λ s. s ≡ tick) ss

  alive_heard : seen_by by_client id (request report_alive client) ≡ alive ∷ []
  unfolding seen_by is_from inputs_of report_alive
  alive_heard = ground (arith, known, string_eq.beq_iff id id)

  checkpoint_heard :
      seen_by by_client id (request (report_checkpoint missed_events) client)
      ≡ checkpoint missed_events ∷ []
  unfolding seen_by is_from inputs_of report_checkpoint to_network from_network
  checkpoint_heard = ground (arith, known, string_eq.beq_iff id id)

  tick_heard :
      (c : SpeedClient F)
      → heard_of (on_tick c).1
        ≡ (if ltb 30 c.missed_ticks then alive ∷ checkpoint missed_events ∷ [] else alive ∷ [])
  unfolding heard_of sent_by all_seen_by on_tick
  tick_heard c = elim (Bool-cases (ltb 30 c.missed_ticks)) [
    | inl e ↦ rw (e, alive_heard, checkpoint_heard) refl
    | inr e ↦ rw (e, alive_heard) refl
  ]

  heard_of-append : (xs ys : List Output) → heard_of (xs ++ ys) ≡ heard_of xs ++ heard_of ys
  unfolding heard_of
  heard_of-append xs ys =
      ap (all_seen_by by_client id) (sent_by-append client xs ys)
      ∙ all_seen_by-append by_client id (sent_by client xs) (sent_by client ys)

  step-Speaks : (s : Step F) (c : SpeedClient F) → Speaks (s ∷ []) (heard_of (step float s c).1)
  unfolding heard_of sent_by all_seen_by step on_speed
  step-Speaks (speed env v) c = record { reports = tt; lives = ground arith }
  step-Speaks tick c =
      subst (Speaks (tick ∷ [])) (sym (tick_heard c)) (elim (Bool-cases (ltb 30 c.missed_ticks)) [
        | inl e ↦ rw e (record { reports = (tt, (tt, tt)); lives = ground arith })
        | inr e ↦ rw e (record { reports = (tt, tt); lives = ground arith })
      ])

  run-Speaks : (ss : List (Step F)) (c : SpeedClient F) → Speaks ss (heard_of (run float ss c).1)
  unfolding run
  run-Speaks [] c =
      unfold heard_of sent_by all_seen_by in record { reports = tt; lives = ground arith }
  run-Speaks (s ∷ ss) c =
      let (c', out) = step float s c in
      let more = (run float ss c').1 in
      let one = step-Speaks s c in
      let rest = run-Speaks ss c' in
      subst (Speaks (s ∷ ss)) (sym (heard_of-append out more)) (record {
        reports = All-append IsReport (heard_of out) (heard_of more) one.reports rest.reports;
        lives = ground (
          arith,
          one.lives,
          rest.lives,
          Any-append (λ (i : Input). i ≡ alive) (heard_of out) (heard_of more),
        );
      })

  said_by_monitor :
      (out : List Output) (monitors : Monitors) (sup : Supervisor) (clock : String → ℕ)
      → Distinct (keys monitors)
      → lookup id monitors ≡ some sup
      → said_of id (run_events by_client (sent_by client out ++ ticks clock ∷ []) monitors).1
        ≡ (Supervisor.run (heard_of out ++ Supervisor.tick (clock id) ∷ []) sup).1
  unfolding heard_of
  said_by_monitor out monitors sup clock distinct monitored =
      let sent = sent_by client out in
      let seen : all_seen_by by_client id (sent ++ ticks clock ∷ [])
          ≡ all_seen_by by_client id sent ++ Supervisor.tick (clock id) ∷ [] =
        all_seen_by-append by_client id sent (ticks clock ∷ [])
        ∙ unfold all_seen_by seen_by in refl in
      (run_events-projects by_client id (sent ++ ticks clock ∷ []) monitors distinct).1
      ∙ rw (seen, monitored) refl

  -- In the tick that ends a cycle the manager reports nothing about the application of a client,
  -- which has no required checkpoints, exactly if the client has gone through its loop since the
  -- cycle began; what speeds it has heard and whether it reports them missing makes no difference.
  pub run_events-tick :
      (ss : List (Step F)) (c : SpeedClient F) (monitors : Monitors) (sup : Supervisor)
      (clock : String → ℕ)
      → Distinct (keys monitors)
      → lookup id monitors ≡ some sup
      → sup.cfg.required_checkpoints ≡ []
      → sup.got_alive ≡ false
      → sup.seen_cps ≡ []
      → IsDue sup (clock id)
      → let sent = sent_by client (run float ss c).1 in
        (said_of id (run_events by_client (sent ++ ticks clock ∷ []) monitors).1 ≡ [])
        ↔ Any (λ s. s ≡ tick) ss
  run_events-tick ss c monitors sup clock distinct monitored none_required quiet unseen due =
      let out = (run float ss c).1 in
      let speaks = run-Speaks ss c in
      let judged = tick-IsHealthy (heard_of out) sup (clock id) speaks.reports quiet unseen due in
      let said = said_by_monitor out monitors sup clock distinct monitored in
      (
        λ h. speaks.lives.0 (judged.0 (sym said ∙ h)).0,
        λ h. said ∙ judged.1 (speaks.lives.1 h, rw none_required tt),
      )
