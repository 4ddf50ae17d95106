-- ===== src/Api/Kept.antt =====
-- What no request to the control API changes.
use daemon_choir.Base.{◌≡◌, refl, Bool-cases, inl, inr}
use daemon_choir.Float.{F64}
use daemon_choir.Db.{Sqlite}
use daemon_choir.Api.{
  AppState, HttpRequest, Disk, route, handle_config_reload, handle_config_backends, handle_shutdown,
  handle_privacy_wipe, is_guarded,
}

module _ {F Conn : Type 0} ⦃f : F64 F⦄ (sql : Sqlite F Conn) where
  pub route-current_snapshot :
      (request : HttpRequest F) (s : AppState F Conn)
      → (route sql request s).1.current_snapshot ≡ s.current_snapshot
  unfolding route handle_config_reload handle_config_backends handle_shutdown handle_privacy_wipe
  route-current_snapshot (HttpRequest.get_status uptime_secs) s = refl
  route-current_snapshot HttpRequest.get_state s = refl
  route-current_snapshot HttpRequest.get_voices s = refl
  route-current_snapshot HttpRequest.get_probes s = refl
  route-current_snapshot HttpRequest.get_config s = refl
  route-current_snapshot HttpRequest.get_metrics s = refl
  route-current_snapshot (HttpRequest.post_reload Disk.unreadable) s = refl
  route-current_snapshot (HttpRequest.post_reload (Disk.malformed e)) s = refl
  route-current_snapshot (HttpRequest.post_reload (Disk.parsed new_cfg)) s = refl
  route-current_snapshot (HttpRequest.put_backends new_backends) s = refl
  route-current_snapshot (HttpRequest.post_shutdown header) s =
      elim (Bool-cases (is_guarded header "shutdown")) [ inl e ↦ rw e refl | inr e ↦ rw e refl ]
  route-current_snapshot (HttpRequest.post_wipe header) s =
      elim (Bool-cases (is_guarded header "wipe")) [ inl e ↦ rw e refl | inr e ↦ rw e refl ]
