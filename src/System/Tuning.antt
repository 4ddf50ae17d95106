-- ===== src/System/Tuning.antt =====
-- The control API in the wired program: the configuration stays acceptable and in agreement.
use daemon_choir.Base.{◌≡◌, refl, Bool-cases, inl, inr, List, All}
use daemon_choir.Float.{F64}
use daemon_choir.Config.{Config, MappingRule, OscBackendConfig}
use daemon_choir.Sync.{RwLock}
use daemon_choir.Api.{
  AppState, HttpRequest, Disk, route, is_guarded, handle_config_reload, handle_config_backends,
  handle_shutdown, handle_privacy_wipe,
}
use daemon_choir.Db.{Sqlite}
use daemon_choir.System.{Action, api_serves}

-- The configuration that the API shows is the one that the tasks use, and its rules are acceptable.
pub record IsTunedTo {F : Type 0} (Good : MappingRule F → Type 0) (config : RwLock (Config F))
    (mapping_rules : RwLock (List (MappingRule F))) (osc_backends : RwLock (List OscBackendConfig))
    : Type 0 where
  pub cfg : Config F
  pub shows : config ≡ RwLock.healthy cfg
  pub maps : mapping_rules ≡ RwLock.healthy cfg.mapping
  pub sends : osc_backends ≡ RwLock.healthy cfg.backends.osc
  pub good : All Good cfg.mapping

abbrev pub IsTuned : {F Conn : Type 0} → (MappingRule F → Type 0) → AppState F Conn → Type 0
IsTuned Good s = IsTunedTo Good s.current_config s.mapping_rules s.osc_backends

-- A reload finds acceptable rules only, if it finds a configuration.
abbrev pub AllowedRequest : {F : Type 0} → (MappingRule F → Type 0) → HttpRequest F → Type 0
AllowedRequest Good (HttpRequest.post_reload (Disk.parsed cfg)) = All Good cfg.mapping
AllowedRequest Good _ = Unit

abbrev pub Allowed : {F Packet : Type 0} → (MappingRule F → Type 0) → Action F Packet → Type 0
Allowed Good (api_serves request) = AllowedRequest Good request.0
Allowed Good _ = Unit

module _ {F Conn : Type 0} ⦃f : F64 F⦄ (sql : Sqlite F Conn) (Good : MappingRule F → Type 0) where
  -- a request leaves acceptable rules, and the aggregator's snapshot
  abbrev pub Keeps : AppState F Conn → AppState F Conn → Type 0
  Keeps s s' = IsTuned Good s' × (s'.current_snapshot ≡ s.current_snapshot)

  pub route-Keeps :
      (request : HttpRequest F) (s : AppState F Conn)
      → AllowedRequest Good request
      → IsTuned Good s
      → Keeps s (route sql request s).1
  unfolding route handle_config_reload handle_config_backends handle_shutdown handle_privacy_wipe
  route-Keeps (HttpRequest.get_status uptime_secs) s ok h = (h, refl)
  route-Keeps HttpRequest.get_state s ok h = (h, refl)
  route-Keeps HttpRequest.get_voices s ok h = (h, refl)
  route-Keeps HttpRequest.get_probes s ok h = (h, refl)
  route-Keeps HttpRequest.get_config s ok h = (h, refl)
  route-Keeps HttpRequest.get_metrics s ok h = (h, refl)
  route-Keeps (HttpRequest.post_reload Disk.unreadable) s ok h = (h, refl)
  route-Keeps (HttpRequest.post_reload (Disk.malformed e)) s ok h = (h, refl)
  route-Keeps (HttpRequest.post_reload (Disk.parsed new_cfg)) s ok h = (
    record {
      cfg = new_cfg;
      shows = rw h.shows refl;
      maps = rw h.maps refl;
      sends = rw h.sends refl;
      good = ok;
    },
    refl,
  )
  route-Keeps (HttpRequest.put_backends new_backends) s ok h = (
    record {
      cfg = record h.cfg { backends = record { osc = new_backends } };
      shows = rw h.shows refl;
      maps = h.maps;
      sends = rw h.sends refl;
      good = h.good;
    },
    refl,
  )
  route-Keeps (HttpRequest.post_shutdown header) s ok h =
      elim (Bool-cases (is_guarded header "shutdown")) [
        | inl e ↦ rw e (h, refl)
        | inr e ↦ rw e (h, refl)
      ]
  route-Keeps (HttpRequest.post_wipe header) s ok h = elim (Bool-cases (is_guarded header "wipe")) [
    | inl e ↦ rw e (h, refl)
    | inr e ↦ rw e (h, refl)
  ]
