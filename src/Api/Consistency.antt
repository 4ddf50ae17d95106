-- ===== src/Api/Consistency.antt =====
-- The control API keeps the configuration that it shows and the one that the tasks use in agreement.
use daemon_choir.Base.{List, [], ◌∷◌, ◌≡◌, refl, Bool-cases, inl, inr}
use daemon_choir.Float.{F64}
use daemon_choir.Config.{Config}
use daemon_choir.Sync.{RwLock}
use daemon_choir.Db.{Sqlite}
use daemon_choir.Api.{
  AppState, HttpRequest, Disk, route, serve, serve_all, is_guarded, handle_shutdown,
  handle_privacy_wipe, handle_config_reload, handle_config_backends,
}

-- The mapping task and the OSC task use the rules and the backends of the configuration shown.
abbrev pub IsConsistent : {F Conn : Type 0} → AppState F Conn → Type 0
IsConsistent {F} s =
    (cfg : Config F) × (s.current_config ≡ RwLock.healthy cfg)
    × (s.mapping_rules ≡ RwLock.healthy cfg.mapping)
    × (s.osc_backends ≡ RwLock.healthy cfg.backends.osc)

module _ {F Conn : Type 0} ⦃f : F64 F⦄ (sql : Sqlite F Conn) where
  route-IsConsistent :
      (request : HttpRequest F) (s : AppState F Conn)
      → IsConsistent s
      → IsConsistent (route sql request s).1
  unfolding route handle_config_reload handle_config_backends handle_shutdown handle_privacy_wipe
  route-IsConsistent (HttpRequest.get_status uptime_secs) s h = h
  route-IsConsistent HttpRequest.get_state s h = h
  route-IsConsistent HttpRequest.get_voices s h = h
  route-IsConsistent HttpRequest.get_probes s h = h
  route-IsConsistent HttpRequest.get_config s h = h
  route-IsConsistent HttpRequest.get_metrics s h = h
  route-IsConsistent (HttpRequest.post_reload Disk.unreadable) s h = h
  route-IsConsistent (HttpRequest.post_reload (Disk.malformed e)) s h = h
  route-IsConsistent (HttpRequest.post_reload (Disk.parsed new_cfg)) s (cfg, c, m, o) =
      (new_cfg, rw c refl, rw m refl, rw o refl)
  route-IsConsistent (HttpRequest.put_backends new_backends) s (cfg, c, m, o) =
      (record cfg { backends = record { osc = new_backends } }, rw c refl, m, rw o refl)
  route-IsConsistent (HttpRequest.post_shutdown header) s h =
      elim (Bool-cases (is_guarded header "shutdown")) [ inl e ↦ rw e h | inr e ↦ rw e h ]
  route-IsConsistent (HttpRequest.post_wipe header) s h =
      elim (Bool-cases (is_guarded header "wipe")) [ inl e ↦ rw e h | inr e ↦ rw e h ]

  -- After any requests, failed reloads included: if the configuration that `GET /v1/config` shows
  -- agreed with the rules and the backends that the other tasks use, it still does, and their
  -- locks are healthy.
  pub serve_all-IsConsistent :
      (s : AppState F Conn) (l : List (HttpRequest F × F))
      → IsConsistent s
      → IsConsistent (serve_all sql s l)
  unfolding serve_all serve
  serve_all-IsConsistent s [] h = h
  serve_all-IsConsistent s ((request, elapsed_ms) ∷ rs) h =
      serve_all-IsConsistent (serve sql s (request, elapsed_ms)).1 rs
        (route-IsConsistent request s h)
