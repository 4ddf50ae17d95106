-- ===== src/Api/Guards.antt =====
-- The header that guards the two requests which stop the program or delete what it stored.
use daemon_choir.Base.{
  Option, none, some, String, List, [], ◌∷◌, ◌≡◌, ◌⊎◌, refl, ◌∙◌, ap, subst, true, Bool-cases, inl,
  inr, All, eq_iff, arith,
}
use daemon_choir.Float.{F64}
use daemon_choir.Db.{Sqlite, WipeResult, wipe}
use daemon_choir.Db.Retention.{IsSqlite, IsEmptied, wipe-empties}
use daemon_choir.Api.{
  AppState, HttpRequest, Disk, route, serve, serve_all, is_guarded, wipe_response, handle_shutdown,
  handle_privacy_wipe, handle_config_reload, handle_config_backends,
}

-- A request that may stop the program or delete: the other requests do not need the header.
abbrev pub IsPrivileged : {F : Type 0} → HttpRequest F → Type 0
IsPrivileged (HttpRequest.post_shutdown header) = header ≡ some "shutdown"
IsPrivileged (HttpRequest.post_wipe header) = header ≡ some "wipe"
IsPrivileged _ = ⊥

is_guarded-true :
    (header : Option String) (wanted : String)
    → is_guarded header wanted ≡ true
    → header ≡ some wanted
unfolding is_guarded
is_guarded-true none wanted e = absurd (grind arith)
is_guarded-true (some guard) wanted e = ap some ((eq_iff guard wanted).0 e)

WipeResult-cases : (r : WipeResult) → (r ≡ WipeResult.ok) ⊎ (r ≡ WipeResult.failed)
WipeResult-cases WipeResult.ok = inl refl
WipeResult-cases WipeResult.failed = inr refl

-- the same database, and no more shutdowns asked for
abbrev pub IsUntouched : {F Conn : Type 0} → AppState F Conn → AppState F Conn → Type 0
IsUntouched s s' = (s'.db ≡ s.db) × (s'.shutdown_requests ≡ s.shutdown_requests)

module _ {F Conn : Type 0} ⦃f : F64 F⦄ (sql : Sqlite F Conn) where
  pub route-IsUntouched :
      (request : HttpRequest F) (s : AppState F Conn)
      → ¬ IsPrivileged request
      → IsUntouched s (route sql request s).1
  unfolding route handle_config_reload handle_config_backends handle_shutdown handle_privacy_wipe
  route-IsUntouched (HttpRequest.get_status uptime_secs) s h = (refl, refl)
  route-IsUntouched HttpRequest.get_state s h = (refl, refl)
  route-IsUntouched HttpRequest.get_voices s h = (refl, refl)
  route-IsUntouched HttpRequest.get_probes s h = (refl, refl)
  route-IsUntouched HttpRequest.get_config s h = (refl, refl)
  route-IsUntouched HttpRequest.get_metrics s h = (refl, refl)
  route-IsUntouched (HttpRequest.post_reload Disk.unreadable) s h = (refl, refl)
  route-IsUntouched (HttpRequest.post_reload (Disk.malformed e)) s h = (refl, refl)
  route-IsUntouched (HttpRequest.post_reload (Disk.parsed new_cfg)) s h = (refl, refl)
  route-IsUntouched (HttpRequest.put_backends new_backends) s h = (refl, refl)
  route-IsUntouched (HttpRequest.post_shutdown header) s h =
      elim (Bool-cases (is_guarded header "shutdown")) [
        | inl e ↦ absurd (h (is_guarded-true header "shutdown" e))
        | inr e ↦ rw e (refl, refl)
      ]
  route-IsUntouched (HttpRequest.post_wipe header) s h =
      elim (Bool-cases (is_guarded header "wipe")) [
        | inl e ↦ absurd (h (is_guarded-true header "wipe" e))
        | inr e ↦ rw e (refl, refl)
      ]

  -- Requests of which none is a shutdown or a wipe with exactly its header leave the database as it
  -- was and hand over no shutdown, whatever else they ask for and in whatever order.
  pub serve_all-IsUntouched :
      (s : AppState F Conn) (l : List (HttpRequest F × F))
      → All (λ r. ¬ IsPrivileged r.0) l
      → IsUntouched s (serve_all sql s l)
  unfolding serve_all serve
  serve_all-IsUntouched s [] h = (refl, refl)
  serve_all-IsUntouched s ((request, elapsed_ms) ∷ rs) (h, hs) =
      let (d, n) = route-IsUntouched request s h in
      let (d', n') = serve_all-IsUntouched (serve sql s (request, elapsed_ms)).1 rs hs in
      (d' ∙ d, n' ∙ n)

  emptied :
      (laws : IsSqlite sql) (conn : Option Conn)
      → (wipe_response {F = F} (wipe sql (record { conn = conn })).0).code ≡ 200
      → IsEmptied laws (wipe sql (record { conn = conn })).1.conn
        ⊎ (((wipe sql (record { conn = conn })).1.conn ≡ none) × (conn ≡ none))
  unfolding wipe_response wipe
  emptied laws none e = inr (refl, refl)
  emptied laws (some c) e = elim (WipeResult-cases (wipe sql (record { conn = some c })).0) [
    | inl q ↦ inl ((wipe-empties sql laws c).0 q)
    | inr q ↦ absurd (
        let e' : (wipe_response {F = F} WipeResult.failed).code ≡ 200 =
          subst (λ r. (wipe_response {F = F} r).code ≡ 200) q e in
        omega arith)
  ]

  -- For a database that behaves as SQLite documents: with the right header, a wipe that is
  -- answered with 200 has left both tables empty in an enabled database, or the database was
  -- disabled before, and still is, and nothing was deleted.
  pub handle_privacy_wipe-empties :
      (laws : IsSqlite sql) (s : AppState F Conn)
      → (handle_privacy_wipe sql (some "wipe") s).0.code ≡ 200
      → IsEmptied laws (handle_privacy_wipe sql (some "wipe") s).1.db.conn
        ⊎ (((handle_privacy_wipe sql (some "wipe") s).1.db.conn ≡ none) × (s.db.conn ≡ none))
  unfolding handle_privacy_wipe wipe_response is_guarded
  handle_privacy_wipe-empties laws s e = emptied laws s.db.conn e
