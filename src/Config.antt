-- ===== src/Config.antt =====
-- crates/daemon-choir-common/src/config.rs: the configuration and its defaults.
use daemon_choir.Base.{ℕ, Bool, true, String, List, [], ◌∷◌}
use daemon_choir.Float.{F64, nought, one}

pub record DaemonConfig : Type 0 where
  pub window_ms : ℕ
  pub log_level : String
  pub log_format : String
  pub control_api_port : ℕ
  pub simulate : Bool

pub record ProbesConfig : Type 0 where
  pub enabled : List String

pub record OscBackendConfig : Type 0 where
  pub name : String
  pub address : String

pub record BackendsConfig : Type 0 where
  pub osc : List OscBackendConfig

-- The ranges are arrays of two numbers.
pub record Range (F : Type 0) : Type 0 where
  pub lo : F
  pub hi : F

pub record MappingRule (F : Type 0) : Type 0 where
  pub source_metric : String
  pub osc_address : String
  pub transform : String
  pub input_range : Range F
  pub output_range : Range F

pub record MetaConfig : Type 0 where
  pub schema_version : String

pub record Config (F : Type 0) : Type 0 where
  pub daemon : DaemonConfig
  pub probes : ProbesConfig
  pub backends : BackendsConfig
  pub mapping : List (MappingRule F)
  pub meta : MetaConfig

abbrev pub default_window_ms : ℕ
default_window_ms = 50

abbrev pub default_log_level : String
default_log_level = "info"

abbrev pub default_log_format : String
default_log_format = "json"

abbrev pub default_control_api_port : ℕ
default_control_api_port = 9876

abbrev pub default_simulate : Bool
default_simulate = true

-- `DaemonConfig::default`
abbrev pub default_daemon : DaemonConfig
default_daemon = record {
  window_ms = default_window_ms;
  log_level = default_log_level;
  log_format = default_log_format;
  control_api_port = default_control_api_port;
  simulate = default_simulate;
}

abbrev pub default_probes_enabled : List String
default_probes_enabled = "cpu_sched" ∷ "mem_pressure" ∷ "net_io" ∷ "proc_lifecycle" ∷ []

abbrev pub default_transform : String
default_transform = "linear"

-- `default_input_range` and `default_output_range`
abbrev pub default_range : {F : Type 0} ⦃f : F64 F⦄ → Range F
default_range = record { lo = nought; hi = one }

abbrev pub default_schema_version : String
default_schema_version = "1"

-- `Config::default`
abbrev pub default_config : {F : Type 0} → Config F
default_config = record {
  daemon = default_daemon;
  probes = record { enabled = default_probes_enabled };
  backends = record { osc = [] };
  mapping = [];
  meta = record { schema_version = default_schema_version };
}
