-- ===== src/Tui/Guard.antt =====
-- Without a confirmation, the client neither deletes anything nor stops the program.
use daemon_choir.Base.{
  ℕ, ◌≡◌, ◌≢◌, refl, ap, ◌∙◌, sym, subst, true, false, Option, none, some, String, List, All,
  All-mono, arith, str_eq, lowercase_eq,
}
use daemon_choir.Float.{F64, IsIeee}
use daemon_choir.Aggregator.Invariant.{IsPublishable, content}
use daemon_choir.Db.{Sqlite}
use daemon_choir.Api.{AppState, Body, HttpRequest, route, serve}
use daemon_choir.Api.Guards.{IsPrivileged, IsUntouched, route-IsUntouched}
use daemon_choir.Api.Kept.{route-current_snapshot}
use daemon_choir.Api.Router.{Request, Surroundings, get_route, resolve_by, resolve}
use daemon_choir.Tui.{Line, typed, unreadable, get_from, main}
use daemon_choir.Tui.Safety.{IsKept, IsMildLine, FlowKeeps, main-FlowKeeps}
use daemon_choir.Tui.Served.{AllOf, respond, api_peer, get_route-AllOf, state-content}

-- a line that can be read, is no command to shut down, and does not confirm a wipe
abbrev pub IsUnconfirmed : Line → Type 0
IsUnconfirmed (typed text) = (str_eq text "5" ≡ false) × (lowercase_eq text "y" ≡ false)
IsUnconfirmed unreadable = ⊥

true-ne-false : true ≢ false
true-ne-false e = absurd (grind arith)

module _ {F Conn : Type 0} ⦃f : F64 F⦄ (sql : Sqlite F Conn) (print : Body F → String)
    (w : Surroundings F) (elapsed_ms : F) where
  -- a request that needs no header
  abbrev pub Harmless : Request → Type 0
  Harmless r = AllOf (λ q. ¬ IsPrivileged q) (resolve w r)

  -- what the client may not change, and what it draws
  abbrev pub Stays : AppState F Conn → AppState F Conn → Type 0
  Stays s0 s = IsUntouched s0 s × (s.current_snapshot ≡ s0.current_snapshot)

  respond-Stays :
      (o : Option (HttpRequest F)) (s0 s : AppState F Conn)
      → AllOf (λ q. ¬ IsPrivileged q) o
      → Stays s0 s
      → Stays s0 (respond sql print w elapsed_ms o s).1
  unfolding respond serve
  respond-Stays none s0 s h i = i
  respond-Stays (some request) s0 s h ((d, n), snap) =
      let (d', n') = route-IsUntouched sql request s h in
      ((d' ∙ d, n' ∙ n), route-current_snapshot sql request s ∙ snap)

  Harmless-get : (path : String) → Harmless (get_from path)
  unfolding resolve_by
  Harmless-get path =
      get_route-AllOf w (λ q. ¬ IsPrivileged q) path (λ e. e) (λ e. e) (λ e. e) (λ e. e) (λ e. e)
        (λ e. e)

  api-IsKept :
      (s0 : AppState F Conn)
      → IsPublishable (content s0.current_snapshot)
      → IsKept (api_peer sql print w elapsed_ms) Harmless (Stays s0)
  unfolding resolve_by get_route respond serve route
  api-IsKept s0 normal = record {
    kept = λ s r h i. respond-Stays (resolve w r) s0 s h i;
    normal = λ s st i e.
        subst IsPublishable
          (ap content (sym i.1) ∙ state-content print s s.current_snapshot st refl e) normal;
  }

  IsMildLine-unconfirmed : (l : Line) → IsUnconfirmed l → IsMildLine Harmless l
  IsMildLine-unconfirmed (typed text) (no5, noy) = record {
    no_shutdown = λ e. absurd (true-ne-false (sym e ∙ no5));
    no_wipe = λ e. absurd (true-ne-false (sym e ∙ noy));
  }
  IsMildLine-unconfirmed unreadable h = absurd h

  -- For numbers that obey IEEE 754, and an API whose snapshot has metrics between 0 and 1: a session of
  -- the client in which each line can be read and none is `5`, or `y` or `Y`, never panics, however many
  -- rounds of the dashboard it shows, and when it ends or is left, the database of the API is the
  -- same as before, and no shutdown was asked for.
  pub main-IsUntouched :
      (laws : IsIeee F) (rounds commands : ℕ) (s : AppState F Conn) (lines : List Line)
      → IsPublishable (content s.current_snapshot)
      → All IsUnconfirmed lines
      → FlowKeeps
          (Stays s)
          (All (IsMildLine Harmless))
          (main (api_peer sql print w elapsed_ms) rounds commands s lines)
  unfolding resolve_by
  main-IsUntouched laws rounds commands s lines normal ok =
      main-FlowKeeps laws (api_peer sql print w elapsed_ms) Harmless (Stays s) (api-IsKept s normal)
        Harmless-get (λ e. e) rounds commands s lines ((refl, refl), refl)
        (All-mono IsUnconfirmed (IsMildLine Harmless) lines IsMildLine-unconfirmed ok)
