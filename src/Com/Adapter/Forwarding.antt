-- ===== src/Com/Adapter/Forwarding.antt =====
-- The operations of the adapter that only call the binding.
use minimal_autosar_adaptive.Prelude.{ℕ, Bytes, List, Option, none, some}
use minimal_autosar_adaptive.Someip.Binding.{
  Callback, Binding, Call, shut_down, request_a_service, release_a_service, stop_offering_service,
  send_notification, register_availability_handler, remove_availability_handler,
}
use minimal_autosar_adaptive.Com.Adapter.{Errc, ok}

unfoldable pub adapter_shutdown : Binding → Binding × List Call
adapter_shutdown b = shut_down b

unfoldable pub adapter_request_service : ℕ → ℕ → Binding → Option (List Call × Errc)
adapter_request_service s i b = elim (request_a_service s i b) [
  | none ↦ none
  | some calls ↦ some (calls, ok)
]

unfoldable pub adapter_release_service : ℕ → ℕ → Binding → List Call
adapter_release_service s i b = release_a_service s i b

unfoldable pub adapter_stop_offer : ℕ → ℕ → Binding → List Call
adapter_stop_offer s i b = stop_offering_service s i b

unfoldable pub adapter_notify : ℕ → ℕ → ℕ → Bytes → Binding → Option (Binding × List Call × Errc)
adapter_notify s i e payload b = elim (send_notification s i e payload b) [
  | none ↦ none
  | some (b', calls) ↦ some (b', calls, ok)
]

-- The handler is the lambda for a service and an instance; its token is the binding's.
unfoldable pub on_availability : Callback → Binding → Binding × ℕ
on_availability h b = register_availability_handler h b

unfoldable pub adapter_remove_availability : ℕ → Binding → Binding
adapter_remove_availability t b = remove_availability_handler t b
