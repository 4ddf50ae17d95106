-- ===== src/Api/Races.antt =====
-- What the control API's locks hold where handlers of control_api.rs overlap: each write of a lock is a step.
use daemon_choir.Base.{List, [], ◌∷◌, ◌++◌, ◌≡◌, ◌≢◌, refl, sym, ap, ◌∙◌}
use daemon_choir.Float.{F64}
use daemon_choir.Config.{Config, MappingRule, OscBackendConfig}
use daemon_choir.Sync.{RwLock, write, modify}
use daemon_choir.Db.{Sqlite}
use daemon_choir.Api.{
  AppState, HttpRequest, Disk, route, serve_all, handle_config_reload, handle_config_backends,
}
use daemon_choir.Api.Consistency.{IsConsistent, serve_all-IsConsistent}

-- One write of a lock by a handler.
pub data Write (F : Type 0) : Type 0 where
  shows : Config F → Write F
  maps : List (MappingRule F) → Write F
  sends shows_backends : List OscBackendConfig → Write F

abbrev pub apply_write : {F Conn : Type 0} → AppState F Conn → Write F → AppState F Conn
apply_write s (shows cfg) = record s { current_config = write s.current_config cfg }
apply_write s (maps rules) = record s { mapping_rules = write s.mapping_rules rules }
apply_write s (sends backends) = record s { osc_backends = write s.osc_backends backends }
apply_write s (shows_backends backends) = record s {
  current_config =
      modify s.current_config (λ lock. record lock { backends = record { osc = backends } });
}

abbrev pub apply_writes : {F Conn : Type 0} → AppState F Conn → List (Write F) → AppState F Conn
apply_writes s [] = s
apply_writes s (w ∷ ws) = apply_writes (apply_write s w) ws

-- the writes of a reload and of a change of the backends, in the handlers' order
abbrev pub reload_writes : {F : Type 0} → Config F → List (Write F)
reload_writes new_cfg = shows new_cfg ∷ maps new_cfg.mapping ∷ sends new_cfg.backends.osc ∷ []

abbrev pub backends_writes : {F : Type 0} → List OscBackendConfig → List (Write F)
backends_writes new_backends = sends new_backends ∷ shows_backends new_backends ∷ []

-- no lock is poisoned
abbrev pub AreHealthy : {F Conn : Type 0} → AppState F Conn → Type 0
AreHealthy {F} s =
    (cfg : Config F) × (rules : List (MappingRule F)) × (backends : List OscBackendConfig)
    × (s.current_config ≡ RwLock.healthy cfg)
    × (s.mapping_rules ≡ RwLock.healthy rules)
    × (s.osc_backends ≡ RwLock.healthy backends)

healthy-injective : {A : Type 0} {a b : A} → RwLock.healthy a ≡ RwLock.healthy b → a ≡ b
healthy-injective e = cc

module _ {F Conn : Type 0} where
  apply_write-AreHealthy :
      (s : AppState F Conn) (w : Write F) → AreHealthy s → AreHealthy (apply_write s w)
  apply_write-AreHealthy s (shows new_cfg) (cfg, rules, backends, c, m, o) =
      (new_cfg, rules, backends, rw c refl, m, o)
  apply_write-AreHealthy s (maps new_rules) (cfg, rules, backends, c, m, o) =
      (cfg, new_rules, backends, c, rw m refl, o)
  apply_write-AreHealthy s (sends new_backends) (cfg, rules, backends, c, m, o) =
      (cfg, rules, new_backends, c, m, rw o refl)
  apply_write-AreHealthy s (shows_backends new_backends) (cfg, rules, backends, c, m, o) =
      (record cfg { backends = record { osc = new_backends } }, rules, backends, rw c refl, m, o)

  apply_writes-AreHealthy :
      (s : AppState F Conn) (ws : List (Write F)) → AreHealthy s → AreHealthy (apply_writes s ws)
  apply_writes-AreHealthy s [] h = h
  apply_writes-AreHealthy s (w ∷ ws) h =
      apply_writes-AreHealthy (apply_write s w) ws (apply_write-AreHealthy s w h)

  reload-IsConsistent :
      (new_cfg : Config F) (s : AppState F Conn)
      → AreHealthy s
      → IsConsistent (apply_writes s (reload_writes new_cfg))
  reload-IsConsistent new_cfg s (cfg, rules, backends, c, m, o) =
      (new_cfg, rw c refl, rw m refl, rw o refl)

  -- A handler that runs alone makes these writes.
  handle_config_reload-writes :
      (new_cfg : Config F) (s : AppState F Conn)
      → (handle_config_reload (Disk.parsed new_cfg) s).1 ≡ apply_writes s (reload_writes new_cfg)
  unfolding handle_config_reload
  handle_config_reload-writes new_cfg s = refl

  handle_config_backends-writes :
      (new_backends : List OscBackendConfig) (s : AppState F Conn)
      → (handle_config_backends new_backends s).1 ≡ apply_writes s (backends_writes new_backends)
  unfolding handle_config_backends
  handle_config_backends-writes new_backends s = refl

  -- A change of the backends between the first and the second write of a reload leaves the configuration
  -- shown with the one's backends and the OSC task with the other's.
  overlap-disagrees :
      (new_cfg : Config F) (new_backends : List OscBackendConfig) (s : AppState F Conn)
      → AreHealthy s
      → new_cfg.backends.osc ≢ new_backends
      → ¬ IsConsistent (
          apply_writes s (
            shows new_cfg
            ∷ (backends_writes new_backends
                ++ (maps new_cfg.mapping ∷ sends new_cfg.backends.osc ∷ []))))
  overlap-disagrees new_cfg new_backends s (cfg, rules, backends, c, m, o) differ
        (shown, c', m', o') =
      let one : RwLock.healthy (record new_cfg { backends = record { osc = new_backends } })
          ≡ RwLock.healthy shown =
        rw c at c' in
      let other : RwLock.healthy new_cfg.backends.osc ≡ RwLock.healthy shown.backends.osc =
        rw o at o' in
      differ (healthy-injective other ∙ sym (ap (λ x. x.backends.osc) (healthy-injective one)))

  module _ ⦃f : F64 F⦄ (sql : Sqlite F Conn) where
    -- Whatever writes of overlapping reloads and changes of backends came before, in any interleaving
    -- and with any of them still missing, as long as no lock was poisoned: after a reload whose writes
    -- are not interleaved with others, and any requests after it that are served one after the other,
    -- the rules and the backends that the tasks use are those of the configuration that
    -- `GET /v1/config` shows, and the locks are healthy.
    pub reload-settles :
        (s : AppState F Conn) (ws : List (Write F)) (new_cfg : Config F)
        (l : List (HttpRequest F × F))
        → AreHealthy s
        → IsConsistent (
            serve_all sql
              (route sql (HttpRequest.post_reload (Disk.parsed new_cfg)) (apply_writes s ws)).1
              l)
    unfolding route handle_config_reload
    reload-settles s ws new_cfg l h =
        serve_all-IsConsistent sql _ l
          (reload-IsConsistent new_cfg (apply_writes s ws) (apply_writes-AreHealthy s ws h))
