-- ===== src/System/Boot.antt =====
-- How `main` of main.rs gets its configuration, with the one that it writes at the first start.
use daemon_choir.Paths.{PathBuf, Variables, resolved_config_path}
use daemon_choir.Startup.{parse_args}
use daemon_choir.Db.Open.{FileSystem, opened}
use daemon_choir.Base.{Bool, true, false, Option, none, some, List, [], ◌∷◌, String}
use daemon_choir.Float.{F64}
use daemon_choir.Config.{Config, MappingRule}
use daemon_choir.Events.{RawEvent}
use daemon_choir.Metrics.{StateSnapshot}
use daemon_choir.Sync.{Sender, Receiver}
use daemon_choir.Probes.{Aya}
use daemon_choir.Mapping.{MappedParam}
use daemon_choir.Db.{Sqlite}
use daemon_choir.Api.{Disk}
use daemon_choir.System.{System}
use daemon_choir.System.Start.{Sockets, Launch, config_panics, launch}

module _ {F : Type 0} ⦃f : F64 F⦄ where
  open f use {of_nat, lit}

  -- a rule of the file, whose input range is always from 0.0 to 1.0
  abbrev rule_of : String → String → String → F → F → MappingRule F
  rule_of source_metric osc_address transform lo hi = record {
    source_metric = source_metric;
    osc_address = osc_address;
    transform = transform;
    input_range = record { lo = of_nat 0; hi = of_nat 1 };
    output_range = record { lo = lo; hi = hi };
  }

  abbrev pub default_mapping : List (MappingRule F)
  default_mapping =
      rule_of "cpu.sched.latency_p95" "/choir/voice/0/frequency" "exponential" (of_nat 220)
        (of_nat 880)
      ∷ rule_of "cpu.sched.context_rate" "/choir/voice/0/amplitude" "linear" (of_nat 0) (of_nat 1)
      ∷ rule_of "mem.reclaim.pressure" "/choir/voice/1/frequency" "exponential" (of_nat 110)
          (of_nat 440)
      ∷ rule_of "net.tx.bytes_norm" "/choir/voice/2/filter_resonance" "linear" (lit 1 1) (lit 9 1)
      ∷ rule_of "net.rx.bytes_norm" "/choir/voice/2/frequency" "logarithmic" (of_nat 440)
          (of_nat 1760)
      ∷ rule_of "proc.exec.rate" "/choir/voice/3/trigger" "step" (of_nat 0) (of_nat 1)
      ∷ []

  -- what the text `default_toml` says
  abbrev pub default_toml : Config F
  default_toml = record {
    daemon = record {
      window_ms = 50;
      log_level = "info";
      log_format = "pretty";
      control_api_port = 9876;
      simulate = true;
    };
    probes = record { enabled = "cpu_sched" ∷ "mem_pressure" ∷ "net_io" ∷ "proc_lifecycle" ∷ [] };
    backends = record {
      osc =
          record { name = "supercollider"; address = "127.0.0.1:57120" }
          ∷ record { name = "puredata"; address = "127.0.0.1:57121" }
          ∷ [];
    };
    mapping = default_mapping;
    meta = record { schema_version = "1" };
  }

-- What `main` finds at the configuration's path: nothing, where a file can be written or not, or a file.
pub data ConfigFile (F : Type 0) : Type 0 where
  missing : (writable : Bool) → ConfigFile F
  there : Disk F → ConfigFile F

-- the configuration that is read after a missing file was written, if that worked
unfoldable pub load_config : {F : Type 0} ⦃f : F64 F⦄ → ConfigFile F → Option (Config F)
load_config (missing true) = some default_toml
load_config (missing false) = none
load_config (there Disk.unreadable) = none
load_config (there (Disk.malformed e)) = none
load_config (there (Disk.parsed config)) = some config

module _ {F Raw Snap Par : Type 0} (Packet : Type 0) {Conn Bpf Program : Type 0} ⦃f : F64 F⦄
    ⦃raw_tx : Sender RawEvent Raw⦄ ⦃raw_rx : Receiver RawEvent Raw⦄
    ⦃snap_tx : Sender (StateSnapshot F) Snap⦄ ⦃snap_rx : Receiver (StateSnapshot F) Snap⦄
    ⦃par_tx : Sender (List (MappedParam F)) Par⦄ ⦃par_rx : Receiver (List (MappedParam F)) Par⦄
    (sql : Sqlite F Conn) (aya : Aya Bpf Program) where
  -- `main` from the configuration's file on
  unfoldable pub boot :
      ConfigFile F → Bool → Option Conn → Sockets → Launch (System F Raw Snap Par Packet Conn)
  unfolding launch load_config
  boot file simulate opened bind = elim (load_config file) [
    | none ↦ config_panics
    | some config ↦ launch Packet sql aya config simulate opened bind
  ]

  -- `main` from its arguments on: `config_at` is what is at a path, and `fs` the files of the database.
  unfoldable pub run_main :
      {Fs : Type 0}
      → FileSystem Fs Conn
      → List String
      → Variables
      → (PathBuf → ConfigFile F)
      → Fs
      → Sockets
      → Launch (System F Raw Snap Par Packet Conn)
  unfolding boot
  run_main files args env config_at fs bind =
      let options = parse_args args in
      boot (config_at (resolved_config_path options.config_path env)) options.simulate
        (opened sql files none env fs) bind
