-- ===== src/Apps/SensorProvider.antt =====
-- apps/sensor_provider.cpp: an application that notifies a speed in each round of its loop.
use minimal_autosar_adaptive.Prelude.{Bytes, List, ◌++◌, Option, some, ◌>>=◌}
use minimal_autosar_adaptive.Phm.Client.{Request, report_alive, new_client, connect}
use minimal_autosar_adaptive.Someip.Binding.{Binding, Call}
use minimal_autosar_adaptive.Com.Adapter.{Adapter}
use minimal_autosar_adaptive.Com.Adapter.Forwarding.{adapter_shutdown}
use minimal_autosar_adaptive.Com.Typed.{new_endpoint, offer, stop, notify}
use minimal_autosar_adaptive.Apps.Float.{
  Float, float_codec, compute_speed_from_phase, speed_desc, speed_event,
}

unfoldable pub start_provider :
    Option Bytes → Adapter → Binding → Option (Adapter × Binding × List Call)
start_provider env a b = do
  let (b1, started) = new_client "sensor_provider" env b
  connected ← connect b1
  let (a2, b2, again) = new_endpoint "sensor_provider" env a b1
  offered ← offer speed_desc b2
  some (a2, b2, started ++ (connected ++ (again ++ offered)))

unfoldable pub stop_provider : Binding → Binding × List Call
stop_provider b =
    let stopped = stop speed_desc b in let (b', shut) = adapter_shutdown b in (b', stopped ++ shut)

module _ {F : Type 0} (float : Float F) where
  -- One round: the report to the health service, the notification, and the next phase.
  unfoldable pub publish : F → Binding → Option (F × Binding × Request × List Call)
  publish t b = do
    (b', calls, ec) ←
        notify (float_codec float) speed_desc speed_event (compute_speed_from_phase float t) b
    some (float.plus t (float.literal "0.2"), b', report_alive, calls)
