-- ===== src/Apps/SpeedClient.antt =====
-- apps/speed_client.cpp: an application that keeps the last speed, warns above a limit and reports a
-- checkpoint when no speed has come for too long. A callback and a round of the loop are steps; the
-- counter is atomic. The texts of the log are left out.
pub mod Watchdog
pub mod Limit
pub mod Healthy
use minimal_autosar_adaptive.Prelude.{
  ℕ, suc, ◌+◌, Bool, true, false, Bytes, String, List, [], ◌∷◌, ◌++◌, Option, none, some, codes,
  if◌then◌else◌, ltb, ◌>>=◌,
}
use minimal_autosar_adaptive.Core.Result.{Result, ok, err}
use minimal_autosar_adaptive.Persistency.Files.{Env}
use minimal_autosar_adaptive.Persistency.KeyValue.{Backend}
use minimal_autosar_adaptive.Persistency.Handle.{Streamed, set_value_string, fetch}
use minimal_autosar_adaptive.Phm.Client.{
  Request, report_alive, report_checkpoint, new_client, connect,
}
use minimal_autosar_adaptive.Someip.Binding.{Callback, Binding, Call}
use minimal_autosar_adaptive.Com.Adapter.{Adapter, adapter_unsubscribe}
use minimal_autosar_adaptive.Com.Adapter.Forwarding.{adapter_shutdown}
use minimal_autosar_adaptive.Com.Typed.{new_endpoint, request_service, release_service, subscribe}
use minimal_autosar_adaptive.Logging.Logger.{LogLevel, error, warn, info}
use minimal_autosar_adaptive.Apps.Float.{Float, speed_desc, speed_event}
use minimal_autosar_adaptive.Apps.SpeedLogic.{last_speed}

pub record SpeedClient (F : Type 0) : Type 0 where
  pub kv : Backend
  pub max_speed : F
  pub missed_ticks : ℕ

-- What a step gives out: a request to the health service, or a line of the log.
pub data Output : Type 0 where
  report : Request → Output
  log_line : LogLevel → Output

abbrev pub max_allowed_speed : Bytes
max_allowed_speed = codes "max_allowed_speed"

abbrev pub missed_events : ℕ
missed_events = 0x1001

-- One round of the loop.
unfoldable pub on_tick : {F : Type 0} → SpeedClient F → SpeedClient F × List Output
on_tick c =
    if ltb 30 c.missed_ticks
    then (
      record c { missed_ticks = 0 },
      report report_alive ∷ log_line error ∷ report (report_checkpoint missed_events) ∷ [],
    )
    else (record c { missed_ticks = c.missed_ticks + 1 }, report report_alive ∷ [])

module _ {F : Type 0} (float : Float F) where
  abbrev pub default_max : F
  default_max = float.literal "90.0"

  -- The limit from the storage, or the default, which is then stored.
  unfoldable pub start_client : Streamed F → Env → Env → Backend → SpeedClient F
  start_client streamed get_env set_env kv = elim (fetch streamed get_env max_allowed_speed kv) [
    | ok v ↦ record { kv = kv; max_speed = v; missed_ticks = 0 }
    | err e ↦ record {
      kv = (set_value_string set_env max_allowed_speed (float.to_string default_max) kv).0;
      max_speed = default_max;
      missed_ticks = 0;
    }
  ]

  -- The callback of the subscription.
  unfoldable pub on_speed : Env → F → SpeedClient F → SpeedClient F × List Output
  on_speed env speed c = (
    record c {
      kv = (set_value_string env last_speed (float.to_string speed) c.kv).0;
      missed_ticks = 0;
    },
    log_line (if float.greater speed c.max_speed then warn else info) ∷ [],
  )

pub data Step (F : Type 0) : Type 0 where
  speed : Env → F → Step F
  tick : Step F

module _ {F : Type 0} (float : Float F) where
  unfoldable pub step : Step F → SpeedClient F → SpeedClient F × List Output
  unfolding on_tick on_speed
  step (speed env v) c = on_speed float env v c
  step tick c = on_tick c

  unfoldable pub run : List (Step F) → SpeedClient F → SpeedClient F × List Output
  unfolding step
  run [] c = (c, [])
  run (s ∷ ss) c = let (c', out) = step s c in let (c'', more) = run ss c' in (c'', out ++ more)

-- What `main` sets up: the client of the health service, the proxy and its subscription. Of the
-- calls into vsomeip, those in order; `none` is a call through a null pointer.
unfoldable pub attach :
    Option Bytes → Callback → Adapter → Binding → Option (Adapter × Binding × List Call × ℕ)
attach env cb a b = do
  let (b1, started) = new_client "speed_client" env b
  connected ← connect b1
  let (a2, b2, again) = new_endpoint "speed_client" env a b1
  (requested, available) ← request_service speed_desc b2
  (a3, b3, subscribed, token) ← subscribe speed_desc speed_event cb a2 b2
  some (a3, b3, started ++ (connected ++ (again ++ (requested ++ subscribed))), token)

-- What it takes down at its end.
unfoldable pub detach : ℕ → Adapter → Binding → Option (Adapter × Binding × List Call)
detach token a b = do
  (a', unsubscribed) ← adapter_unsubscribe token a b
  let released = release_service speed_desc b
  let (b', stopped) = adapter_shutdown b
  some (a', b', unsubscribed ++ (released ++ stopped))
