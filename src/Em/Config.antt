-- ===== src/Em/Config.antt =====
-- AppConfig: what a manifest says of one application.
use minimal_autosar_adaptive.Prelude.{ℕ, Bool, String, List}
use minimal_autosar_adaptive.Prelude.Int.{ℤ}

pub record PhmConfig : Type 0 where
  pub period_ms : ℤ
  pub allowed_missed_cycles : ℤ
  pub required_checkpoints : List ℕ
  pub require_alive : Bool

pub record ComConfig : Type 0 where
  pub service_id : ℕ
  pub instance_id : ℕ
  pub event_group : ℕ
  pub subscribe_events : List ℕ

pub record AppConfig : Type 0 where
  pub app_id : String
  pub executable : String
  pub start_on_boot : Bool
  pub restart_policy : String
  pub log_file : String
  pub dependencies : List String
  pub phm : PhmConfig
  pub com_config : ComConfig
