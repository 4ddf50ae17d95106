-- ===== src/Api.antt =====
-- crates/conductor/src/control_api.rs: the handlers of the control API. Each handler's response is a
-- status code with what the body is made from.
pub mod Consistency
pub mod Races
pub mod Guards
pub mod Kept
pub mod Router
pub mod Exposition
pub mod Scrape
use daemon_choir.Base.{
  ℕ, ◌+◌, Bool, true, false, not, Option, none, some, String, List, [], ◌∷◌, if◌then◌else◌, ◌==◌,
  ◌⊎◌, inl, inr, map, filter, length, str_eq,
}
use daemon_choir.Float.{F64}
use daemon_choir.Config.{Config, OscBackendConfig, MappingRule, BackendsConfig}
use daemon_choir.Metrics.{StateSnapshot}
use daemon_choir.Sync.{RwLock, read, write, modify}
use daemon_choir.Osc.Histogram.{PrometheusHistogram, observe}
use daemon_choir.Osc.{OscMetrics}
use daemon_choir.Api.Exposition.{metric_lines, render}
use daemon_choir.Probes.{ProbeStats}
use daemon_choir.Db.{Sqlite, Database, WipeResult, wipe}

-- `AppState` without `start_time` and `config_path`, which a request brings in the model, with what its `Arc`s point to. `shutdown_requests` counts what
-- was handed to `shutdown_tx`.
pub record AppState (F Conn : Type 0) : Type 0 where
  pub current_config : RwLock (Config F)
  pub current_snapshot : RwLock (StateSnapshot F)
  pub probes_stats : List ProbeStats
  pub mapping_rules : RwLock (List (MappingRule F))
  pub osc_backends : RwLock (List OscBackendConfig)
  pub osc_metrics : OscMetrics
  pub dispatch_latency_histogram : PrometheusHistogram
  pub api_response_histogram : PrometheusHistogram
  pub probe_load_errors_total : ℕ
  pub db : Database Conn
  pub shutdown_requests : ℕ

pub record StatusResponse : Type 0 where
  pub version : String
  pub uptime_secs : ℕ
  pub state : String
  pub probes_loaded : ℕ
  pub backends_active : ℕ
  pub api_version : String

pub record VoiceMapping : Type 0 where
  pub source_metric : String
  pub osc_address : String
  pub transform : String

pub data Body (F : Type 0) : Type 0 where
  message : String → Body F
  status_json : StatusResponse → Body F
  state_json : StateSnapshot F → Body F
  voices_json : List VoiceMapping → Body F
  probes_json : List ProbeStats → Body F
  config_json : Config F → Body F
  metrics_text : String → Body F

pub record Response (F : Type 0) : Type 0 where
  pub code : ℕ
  pub body : Body F

-- `(code, text).into_response()`
abbrev pub answer : {F : Type 0} → ℕ → String → Response F
answer code text = record { code = code; body = message text }

-- `headers.get("X-Daemon-Choir")` is the wanted value
unfoldable pub is_guarded : Option String → String → Bool
is_guarded none wanted = false
is_guarded (some guard) wanted = str_eq guard wanted

unfoldable pub wipe_response : {F : Type 0} → WipeResult → Response F
wipe_response WipeResult.ok = answer 200 "Privacy wipe complete"
wipe_response WipeResult.failed = answer 500 "Database wipe failed"

-- What a reload finds at `config_path`: `read_to_string` and then `toml::from_str`, whose error is
-- given as the text that the response is to have.
pub data Disk (F : Type 0) : Type 0 where
  unreadable : Disk F
  malformed : String → Disk F
  parsed : Config F → Disk F

module _ {F Conn : Type 0} where
  -- `handle_status`, after this time up
  unfoldable pub handle_status : AppState F Conn → ℕ → Response F
  handle_status s uptime_secs =
      let probes_loaded = length (filter (λ p. p.loaded) s.probes_stats) in
      let backends_active : ℕ = elim (read s.osc_backends) [ none ↦ 0 | some lock ↦ length lock ] in
      record {
        code = 200;
        body = status_json (record {
          version = "2.0.0";
          uptime_secs = uptime_secs;
          state = if probes_loaded == 0 then "degraded" else "running";
          probes_loaded = probes_loaded;
          backends_active = backends_active;
          api_version = "v1";
        });
      }

  unfoldable pub handle_state : AppState F Conn → Response F
  handle_state s = elim (read s.current_snapshot) [
    | none ↦ answer 500 "Poisoned snapshot lock"
    | some snapshot ↦ record { code = 200; body = state_json snapshot }
  ]

  unfoldable pub handle_voices : AppState F Conn → Response F
  handle_voices s = elim (read s.mapping_rules) [
    | none ↦ answer 500 "Poisoned rules lock"
    | some rules ↦ record {
      code = 200;
      body = voices_json (
          map
            (λ r. record {
              source_metric = r.source_metric;
              osc_address = r.osc_address;
              transform = r.transform;
            })
            rules);
    }
  ]

  unfoldable pub handle_probes : AppState F Conn → Response F
  handle_probes s = record { code = 200; body = probes_json s.probes_stats }

  unfoldable pub handle_config : AppState F Conn → Response F
  handle_config s = elim (read s.current_config) [
    | none ↦ answer 500 "Poisoned config lock"
    | some cfg ↦ record { code = 200; body = config_json cfg }
  ]

  unfoldable pub handle_metrics : ⦃f : F64 F⦄ → AppState F Conn → Response F
  unfolding metric_lines
  handle_metrics s = record {
    code = 200;
    body = metrics_text (
        render {F = F} (
          metric_lines s.osc_metrics s.probes_stats s.dispatch_latency_histogram
            s.api_response_histogram s.probe_load_errors_total));
  }

  unfoldable pub handle_config_reload : Disk F → AppState F Conn → Response F × AppState F Conn
  handle_config_reload unreadable s = (answer 409 "Failed to read config file from disk", s)
  handle_config_reload (malformed e) s = (answer 409 e, s)
  handle_config_reload (parsed new_cfg) s = (
    answer 202 "Config reloaded successfully",
    record s {
      current_config = write s.current_config new_cfg;
      mapping_rules = write s.mapping_rules new_cfg.mapping;
      osc_backends = write s.osc_backends new_cfg.backends.osc;
    },
  )

  unfoldable pub handle_config_backends :
      List OscBackendConfig → AppState F Conn → Response F × AppState F Conn
  handle_config_backends new_backends s = (
    answer 200 "Backends updated successfully",
    record s {
      osc_backends = write s.osc_backends new_backends;
      current_config =
          modify s.current_config
            (λ lock. record lock { backends = record { osc = new_backends } });
    },
  )

  unfoldable pub handle_shutdown : Option String → AppState F Conn → Response F × AppState F Conn
  unfolding is_guarded
  handle_shutdown header s =
      if is_guarded header "shutdown"
      then (
        answer 202 "Shutdown requested",
        record s { shutdown_requests = s.shutdown_requests + 1 },
      )
      else (answer 403 "Forbidden: Missing or invalid X-Daemon-Choir header", s)

  unfoldable pub handle_privacy_wipe :
      Sqlite F Conn → Option String → AppState F Conn → Response F × AppState F Conn
  unfolding wipe_response is_guarded
  handle_privacy_wipe sql header s =
      if is_guarded header "wipe"
      then (wipe_response (wipe sql s.db).0, record s { db = (wipe sql s.db).1 })
      else (answer 403 "Forbidden: Missing or invalid X-Daemon-Choir header", s)

-- the ten routes, with what each request brings
pub data HttpRequest (F : Type 0) : Type 0 where
  get_status : ℕ → HttpRequest F
  get_state get_voices get_probes get_config get_metrics : HttpRequest F
  post_reload : Disk F → HttpRequest F
  put_backends : List OscBackendConfig → HttpRequest F
  post_shutdown post_wipe : Option String → HttpRequest F

module _ {F Conn : Type 0} (sql : Sqlite F Conn) where
  -- `create_router`
  unfoldable pub route :
      ⦃f : F64 F⦄ → HttpRequest F → AppState F Conn → Response F × AppState F Conn
  unfolding handle_config_reload handle_config_backends handle_shutdown handle_privacy_wipe
  route (get_status uptime_secs) s = (handle_status s uptime_secs, s)
  route get_state s = (handle_state s, s)
  route get_voices s = (handle_voices s, s)
  route get_probes s = (handle_probes s, s)
  route get_config s = (handle_config s, s)
  route get_metrics s = (handle_metrics s, s)
  route (post_reload disk) s = handle_config_reload disk s
  route (put_backends new_backends) s = handle_config_backends new_backends s
  route (post_shutdown header) s = handle_shutdown header s
  route (post_wipe header) s = handle_privacy_wipe sql header s

  -- `track_api_response_time`, for a request that took this many milliseconds
  unfoldable pub serve :
      ⦃f : F64 F⦄ → AppState F Conn → HttpRequest F × F → Response F × AppState F Conn
  unfolding route
  serve s (request, elapsed_ms) =
      let (response, s') = route request s in
      (
        response,
        record s' { api_response_histogram = observe s'.api_response_histogram elapsed_ms },
      )

  unfoldable pub serve_all :
      ⦃f : F64 F⦄ → AppState F Conn → List (HttpRequest F × F) → AppState F Conn
  unfolding serve
  serve_all s [] = s
  serve_all s (r ∷ rs) = serve_all (serve s r).1 rs
