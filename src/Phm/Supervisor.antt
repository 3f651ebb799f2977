-- ===== src/Phm/Supervisor.antt =====
-- PhmSupervisor: phm/include/phm/phm_supervisor.hpp and phm/src/phm_supervisor.cpp.
-- A method takes the supervisor and returns it. `maintenance_tick` takes the clock's reading, in
-- nanoseconds since the epoch of the steady clock, and returns what it reports beside the state.
-- Left out are the fields that no method reads: retries and back-off.
pub mod Verdict
pub mod Misses
use minimal_autosar_adaptive.Prelude.{
  ℕ, suc, ◌+◌, ◌*◌, Bool, true, false, ◌&&◌, nat_eq, ◌==◌, List, [], ◌∷◌, ◌++◌, leb, is_empty,
  if◌then◌else◌,
}
use minimal_autosar_adaptive.Prelude.Int.{ℤ, pos, negsuc, ltb_ℤ}

pub record Config : Type 0 where
  pub supervision_cycle_ms : ℤ
  pub allowed_missed_cycles : ℤ
  pub required_checkpoints : List ℕ

-- `has_callback` is whether a violation callback is set; a call of it is an output.
pub record Supervisor : Type 0 where
  pub cfg : Config
  pub cycle_start : ℕ
  pub got_alive : Bool
  pub seen_cps : List ℕ
  pub missed_cycles : ℕ
  pub last_healthy : ℕ
  pub has_callback : Bool

-- The line on stderr for a missed cycle, with its count, and the call of the violation callback.
pub data Output : Type 0 where
  missed : ℕ → Output
  violation : Output

unfoldable pub create : Config → Supervisor
create c = record {
  cfg = c;
  cycle_start = 0;
  got_alive = false;
  seen_cps = [];
  missed_cycles = 0;
  last_healthy = 0;
  has_callback = false;
}

unfoldable pub on_alive : Supervisor → Supervisor
on_alive s = record s { got_alive = true }

unfoldable pub on_checkpoint : ℕ → Supervisor → Supervisor
on_checkpoint id s = record s { seen_cps = s.seen_cps ++ id ∷ [] }

unfoldable pub set_violation_callback : Supervisor → Supervisor
set_violation_callback s = record s { has_callback = true }

-- std::find(have.begin(), have.end(), n) != have.end()
unfoldable pub find : List ℕ → ℕ → Bool
find [] n = false
find (h ∷ hs) n = if h == n then true else find hs n

unfoldable pub contains_all : List ℕ → List ℕ → Bool
unfolding find
contains_all have [] = true
contains_all have (n ∷ need) = if find have n then contains_all have need else false

-- (now - cycle_start_) >= milliseconds(ms); both sides are signed in the source.
unfoldable pub elapsed : ℤ → ℕ → ℕ → Bool
elapsed (pos ms) start now = leb (start + ms * 1000000) now
elapsed (negsuc k) start now = leb start (now + suc k * 1000000)

unfoldable pub alive_ok : Supervisor → Bool
unfolding contains_all
alive_ok s =
    if is_empty s.cfg.required_checkpoints
    then s.got_alive
    else s.got_alive && contains_all s.seen_cps s.cfg.required_checkpoints

unfoldable pub count_miss : Supervisor → Supervisor × List Output
count_miss s =
    let n = suc s.missed_cycles in
    if ltb_ℤ s.cfg.allowed_missed_cycles (pos n)
    then (
      record s { missed_cycles = 0 },
      if s.has_callback then missed n ∷ violation ∷ [] else missed n ∷ [],
    )
    else (record s { missed_cycles = n }, missed n ∷ [])

unfoldable pub judge : ℕ → Supervisor → Supervisor × List Output
unfolding count_miss alive_ok
judge now s =
    if alive_ok s then (record s { missed_cycles = 0; last_healthy = now }, []) else count_miss s

unfoldable pub start_cycle : ℕ → Supervisor → Supervisor
start_cycle now s = record s { cycle_start = now; got_alive = false; seen_cps = [] }

unfoldable pub end_cycle : ℕ → Supervisor → Supervisor × List Output
unfolding judge start_cycle
end_cycle now s = let (t, out) = judge now s in (start_cycle now t, out)

unfoldable pub maintenance_tick : ℕ → Supervisor → Supervisor × List Output
unfolding end_cycle elapsed
maintenance_tick now s =
    if s.cycle_start == 0
    then (record s { cycle_start = now; last_healthy = now }, [])
    else if elapsed s.cfg.supervision_cycle_ms s.cycle_start now
    then end_cycle now s
    else (s, [])

-- What reaches a supervisor, in the order in which its owner hands it on.
pub data Input : Type 0 where
  alive : Input
  checkpoint : ℕ → Input
  tick : ℕ → Input

unfoldable pub feed : Input → Supervisor → Supervisor × List Output
unfolding on_alive on_checkpoint maintenance_tick
feed alive s = (on_alive s, [])
feed (checkpoint id) s = (on_checkpoint id s, [])
feed (tick now) s = maintenance_tick now s

unfoldable pub run : List Input → Supervisor → Supervisor × List Output
unfolding feed
run [] s = (s, [])
run (i ∷ is) s = let (t, out) = feed i s in let (u, rest) = run is t in (u, out ++ rest)
