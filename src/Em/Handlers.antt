-- ===== src/Em/Handlers.antt =====
-- register_phm_handlers: what the execution manager does with a request to the health service.
-- The maps stand as arguments; the answer says whether a response was sent. `client` is the
-- sender's vsomeip id, or 0 where there is no message.
use minimal_autosar_adaptive.Prelude.{
  ℕ, ◌<◌, ◌≡◌, ◌≢◌, Bool, true, false, not, ◌&&◌, ◌||◌, Option-cases, inl, inr, nat_eq, string_eq,
  ◌==◌, Bytes, String, none, some, arith, if◌then◌else◌,
}
use minimal_autosar_adaptive.Prelude.Table.{Table, lookup, insert, lookup-insert}
use minimal_autosar_adaptive.Phm.Ids.{service, instance_id, alive_method, checkpoint_method}
use minimal_autosar_adaptive.Phm.Client.{
  Request, from_network, report_alive, report_checkpoint, from_network-to_network,
}
use minimal_autosar_adaptive.Phm.Supervisor.{Supervisor, on_alive, on_checkpoint}

abbrev pub Monitors : Type 0
Monitors = Table String Supervisor

-- switch (mid)
unfoldable pub serve : ℕ → Bytes → Supervisor → Supervisor
unfolding from_network
serve mid payload sup =
    if mid == alive_method
    then on_alive sup
    else if mid == checkpoint_method
    then (elim (from_network payload) [ none ↦ sup | some cp ↦ on_checkpoint cp sup ])
    else sup

unfoldable pub handle_request : Table ℕ String → Request → ℕ → Monitors → Monitors × Bool
unfolding serve
handle_request app_by_client req client monitors =
    if not (req.service_id == service) || not (req.instance == instance_id)
    then (monitors, false)
    else elim (lookup client app_by_client) [
      | none ↦ (monitors, true)
      | some app_id ↦ elim (lookup app_id monitors) [
        | none ↦ (monitors, true)
        | some sup ↦ (insert app_id (serve req.method req.payload sup) monitors, true)
      ]
    ]

-- A report of a client reaches the supervisor of its application as that report, and is answered.
pub handle_request-report :
    (app_by_client : Table ℕ String) (client id : ℕ) (app_id : String) (sup : Supervisor)
    (monitors : Monitors)
    → lookup client app_by_client ≡ some app_id
    → lookup app_id monitors ≡ some sup
    → id < 4294967296
    → (handle_request app_by_client (report_checkpoint id) client monitors
        ≡ (insert app_id (on_checkpoint id sup) monitors, true))
      × (handle_request app_by_client report_alive client monitors
          ≡ (insert app_id (on_alive sup) monitors, true))
unfolding handle_request report_checkpoint report_alive
handle_request-report app_by_client client id app_id sup monitors c m small =
    ground (arith, from_network-to_network id small)

-- No request touches the supervisor of an application other than the sender's, and exactly those
-- to the health service are answered.
pub handle_request-others :
    (app_by_client : Table ℕ String) (req : Request) (client : ℕ) (j : String) (monitors : Monitors)
    → lookup client app_by_client ≢ some j
    → (lookup j (handle_request app_by_client req client monitors).0 ≡ lookup j monitors)
      × ((handle_request app_by_client req client monitors).1
          ≡ (req.service_id == service && req.instance == instance_id))
unfolding handle_request
handle_request-others app_by_client req client j monitors h =
    elim (Option-cases (lookup client app_by_client)) [
      | inl e ↦ ground arith
      | inr (app_id, e) ↦ elim (Option-cases (lookup app_id monitors)) [
        | inl f ↦ ground arith
        | inr (sup, f) ↦ ground (
          arith,
          lookup-insert app_id j (serve req.method req.payload sup) monitors,
          string_eq.beq_iff app_id j,
        )
      ]
    ]
