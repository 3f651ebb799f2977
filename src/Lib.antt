-- ===== src/Lib.antt =====
-- A minimal AUTOSAR Adaptive platform: an execution manager that starts, supervises and restarts
-- applications, and what the applications use: health supervision, persistency, SOME/IP
-- communication, diagnostics and logging.
--
-- Paths are from the repository's root. A file's comment says more.
--   Prelude     the shared names: tests, lists, equality as an instance, tables, membership
--   Core        include/ara/core/result.hpp (Result), the JSON interface (Json), numbers as text
--   Phm         phm/: the supervisor of one application (Supervisor; its theorems in Verdict and
--               Misses), the client's reports (Client)
--   Persistency persistency/ and include/ara/per/: the directory of a storage (Files), the
--               key-value backend (KeyValue), the registry (Registry), its facade (Facade) and the
--               handle (Handle), the directory tree (Trees) under the file storage (FileStorage)
--   Someip      com/someip_binding.cpp: all functions (Binding), the automatic requests (Requests)
--   Com         ara/com/someip_adapter.cpp over the binding (Adapter), and the proxies and skeletons
--               of include/ara/com/core.hpp (Typed)
--   Diag        ara/diag/ (Server, Run; theorems on the answers in Frames) and
--               diagnostics/provider/ (Provider)
--   Logging     logging/include/log.hpp (Logger, its calls in Calls, Format), the console sink and
--               the DLT sink (Dlt)
--   Gateway     can_gateway/src/gateway.cpp: sending and receiving (theorems in Lines); how a gateway is
--               made (Factory)
--   Em          em/execution_manager.cpp: the manifest's data (Config) and how it is read
--               (Manifests), the start order (Boot), the children's environment (Environment), the
--               children's part of the loop and the shutdown (Monitor), the health service (Handlers),
--               the monitors together (Supervision), the periodic ticks (Clock), the whole loop (Loop;
--               what its ticks must satisfy in Split) and main (Main; what it launched in Booted)
--   Apps        apps/: the speed client (SpeedClient), the sensor provider (SensorProvider), the two
--               together (Pair), their logic (SpeedLogic) and floats as an interface (Float)
--   Examples    the theorems at concrete inputs
--
-- How the parts interact. The manager orders the applications (Em.Boot), launches each with a string
-- of events (Em.Environment) that the binding of the child reads when it initialises
-- (Someip.Requests). Clients report to the manager by requests (Phm.Client) that reach the supervisor
-- of their application (Em.Handlers), which the loop ticks (Em.Supervision). Storages are looked up
-- in the registry that the manager fills (Persistency.Registry). The adapter stands on the binding. The
-- applications use the adapter, the health client and a storage (Apps).
--
-- State is a record, an operation a function that returns the new state; a C++ map is an association
-- list in which a key stands once. What comes from outside is an argument: the clock, the results of
-- fork and waitpid, the answers of the file system, messages, the nlohmann::json document (an
-- interface). What goes out comes back as a list: calls into vsomeip, signals, responses. The order in which a
-- std::unordered_map is walked is an argument too (Prelude.Walk). An operation is one step, so an
-- interleaving is an order of calls; Com.Adapter says where the source holds its mutex for less. The numbers are natural, with % where
-- the source's type wraps. The strings of ids are String, other text is a list of bytes.
--
-- Two loops run on fuel. Kahn's (Em.Boot.kahn): more than the number of applications is enough, which
-- the theorems on the start order show. The catch-up of the ticks (Em.Clock.catch_up): as long as the
-- clock stays below a bound, a fuel of which the periods reach beyond the bound is enough. The loop of
-- main and those of the applications go through what they meet, one turn after another.
--
-- Not modelled: the applications and stubs that only make fixed calls of the components or open UDP
-- sockets, and em/Copyexecution_manager.cpp, an older copy that is not built; floats, which are an
-- interface; the DLT library, of which only the trace of calls is taken; sockets but
-- for their answers, with each write complete, threads, sleeping and terminal output; and
-- the exceptions of vsomeip.
pub mod Prelude
pub mod Core
pub mod Phm
pub mod Persistency
pub mod Someip
pub mod Com
pub mod Diag
pub mod Logging
pub mod Gateway
pub mod Em
pub mod Apps
pub mod Examples
