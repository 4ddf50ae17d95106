-- ===== src/Tui/Program.antt =====
-- The client connected to the running program.
use daemon_choir.Base.{
  map, ℕ, ◌≡◌, refl, ap, ◌∙◌, sym, subst, Bool, Option, none, some, String, List, [], ◌∷◌, All,
  str_eq,
}
use daemon_choir.Float.{F64, IsIeee}
use daemon_choir.Config.{Config, MappingRule}
use daemon_choir.Events.{RawEvent}
use daemon_choir.Metrics.{StateSnapshot}
use daemon_choir.Sync.{Sender, Receiver, IsMpsc, IsFifo}
use daemon_choir.Aggregator.Invariant.{IsPublishable, content}
use daemon_choir.Mapping.{MappedParam}
use daemon_choir.Probes.{Aya}
use daemon_choir.Db.{Sqlite}
use daemon_choir.Api.{Body, HttpRequest, route, serve}
use daemon_choir.Api.Router.{
  Method, Surroundings, get_route, post_route, put_route, resolve_by, resolve,
}
use daemon_choir.System.{System, Outcome, waits, goes, dies, Action, api_serves, perform}
use daemon_choir.System.Start.{Sockets, launched, launch}
use daemon_choir.System.Engine.{IsGood}
use daemon_choir.System.Tuning.{AllowedRequest, Allowed}
use daemon_choir.System.Invariant.{IsSound, Lives}
use daemon_choir.System.Safety.{perform-Lives}
use daemon_choir.System.Launched.{launched-IsSound}
use daemon_choir.Tui.{main}
use daemon_choir.Tui.{typed}
use daemon_choir.Tui.Safety.{IsKept, IsMildLine, FlowKeeps, main-FlowKeeps}
use daemon_choir.Tui.Served.{
  AllOf, if-AllOf, respond, next_of, perform_all, due, program_peer, get_route-AllOf, state-content,
}

module _ {F : Type 0} (Good : MappingRule F → Type 0) (w : Surroundings F) where
  resolve-AllowedRequest :
      (method : Method) (path : String) (header : Option String)
      → AllowedRequest Good (HttpRequest.post_reload w.disk)
      → AllOf (AllowedRequest Good) (resolve_by w method path header)
  unfolding resolve_by post_route put_route
  resolve-AllowedRequest Method.get path header ok =
      get_route-AllOf w (AllowedRequest Good) path tt tt tt tt tt tt
  resolve-AllowedRequest Method.post path header ok =
      if-AllOf (AllowedRequest Good) (str_eq path "/v1/config/reload") _ _ ok (
        if-AllOf (AllowedRequest Good) (str_eq path "/v1/shutdown") _ _ tt
          (if-AllOf (AllowedRequest Good) (str_eq path "/v1/privacy/wipe") _ _ tt tt))
  resolve-AllowedRequest Method.put path header ok =
      if-AllOf (AllowedRequest Good) (str_eq path "/v1/config/backends") _ _ tt tt

-- batches that the program may perform are left when one is due
due-All :
    {A : Type 0} (P : A → Type 0) (l : List (List A))
    → All (All P) l
    → All P (due l).0 × All (All P) (due l).1
due-All P [] h = (tt, tt)
due-All P (batch ∷ rest) h = h

-- any line may be typed, where every request is permitted
All-IsMildLine : (texts : List String) → All (IsMildLine (λ r. Unit)) (map typed texts)
All-IsMildLine [] = tt
All-IsMildLine (text ∷ rest) =
    (record { no_shutdown = λ e. tt; no_wipe = λ e. tt }, All-IsMildLine rest)

module _ {F Raw Snap Par Packet Conn : Type 0} ⦃f : F64 F⦄ ⦃raw_tx : Sender RawEvent Raw⦄
    ⦃raw_rx : Receiver RawEvent Raw⦄ ⦃snap_tx : Sender (StateSnapshot F) Snap⦄
    ⦃snap_rx : Receiver (StateSnapshot F) Snap⦄ ⦃par_tx : Sender (List (MappedParam F)) Par⦄
    ⦃par_rx : Receiver (List (MappedParam F)) Par⦄ (laws : IsIeee F) (P : MappedParam F → Type 0)
    (raw_laws : IsMpsc RawEvent Raw) (snap_laws : IsMpsc (StateSnapshot F) Snap)
    (par_laws : IsMpsc (List (MappedParam F)) Par) (raw_fifo : IsFifo RawEvent Raw)
    (snap_fifo : IsFifo (StateSnapshot F) Snap) (par_fifo : IsFifo (List (MappedParam F)) Par)
    (sql : Sqlite F Conn) where
  -- what follows a state in which no task has ended
  next-IsSound :
      (s : System F Raw Snap Par Packet Conn) (o : Outcome (System F Raw Snap Par Packet Conn))
      → Lives laws P o
      → IsSound laws P s
      → IsSound laws P (next_of sql s o)
  next-IsSound s waits l h = h
  next-IsSound s (goes t) l h = l
  next-IsSound s (dies task) l h = absurd l

  perform_all-IsSound :
      (s : System F Raw Snap Par Packet Conn) (batch : List (Action F Packet))
      → All (Allowed (IsGood laws P)) batch
      → IsSound laws P s
      → IsSound laws P (perform_all sql s batch)
  perform_all-IsSound s [] ok h = h
  perform_all-IsSound s (a ∷ rest) (ok, oks) h =
      perform_all-IsSound (next_of sql s (perform sql s a)) rest oks (
        next-IsSound s (perform sql s a)
          (perform-Lives laws P raw_laws snap_laws par_laws raw_fifo snap_fifo par_fifo sql s a ok
            h)
          h)

  module _ (print : Body F → String) (w : Surroundings F) (elapsed_ms : F) where
    abbrev pub Well : System F Raw Snap Par Packet Conn × List (List (Action F Packet)) → Type 0
    Well state = IsSound laws P state.0 × All (All (Allowed (IsGood laws P))) state.1

    respond-IsSound :
        (o : Option (HttpRequest F)) (s : System F Raw Snap Par Packet Conn)
        → AllOf (AllowedRequest (IsGood laws P)) o
        → IsSound laws P s
        → IsSound laws P (record s { app = (respond sql print w elapsed_ms o s.app).1 })
    unfolding respond perform
    respond-IsSound none s ok h = h
    respond-IsSound (some request) s ok h =
        perform-Lives laws P raw_laws snap_laws par_laws raw_fifo snap_fifo par_fifo sql s
          (api_serves (request, elapsed_ms)) ok h

    program-IsKept :
        AllowedRequest (IsGood laws P) (HttpRequest.post_reload w.disk)
        → IsKept (program_peer {Packet = Packet} sql print w elapsed_ms) (λ r. Unit) Well
    unfolding resolve_by get_route respond serve route
    program-IsKept reload = record {
      kept = λ state r _ (h, oks).
          let (batch, rest) = due-All (Allowed (IsGood laws P)) state.1 oks in
          let s = perform_all sql state.0 (due state.1).0 in
          (
            respond-IsSound (resolve w r) s
                (resolve-AllowedRequest (IsGood laws P) w r.method r.path r.header reload)
                (perform_all-IsSound state.0 (due state.1).0 batch h),
            rest,
          );
      normal = λ state st (h, oks) e.
          let (batch, rest) = due-All (Allowed (IsGood laws P)) state.1 oks in
          let s = perform_all sql state.0 (due state.1).0 in
          let sound = perform_all-IsSound state.0 (due state.1).0 batch h in
          subst IsPublishable
            (ap content (sym sound.shown)
              ∙ state-content print s.app s.app.current_snapshot st refl e)
            sound.aggregator.shared;
    }

    module _ {Bpf Program : Type 0} (aya : Aya Bpf Program) where
      -- For numbers that obey IEEE 754, channels that behave as documented, and a configuration
      -- whose rules have comparable input bounds and acceptable parameters, as has the one on disk: a session of the client with the program
      -- that was launched, in which every line typed is a text that can be read and what the client prints can be
      -- written, does not panic, whichever texts are typed, however many rounds of the dashboard it shows, and whatever the tasks of the program do between its requests; and the invariant of the
      -- program holds when the session ends or is left.
      pub main-IsSound :
          (config : Config F) (simulate : Bool) (opened : Option Conn) (bind : Sockets)
          {s : System F Raw Snap Par Packet Conn} (batches : List (List (Action F Packet)))
          (rounds commands : ℕ) (texts : List String)
          → All (IsGood laws P) config.mapping
          → launch Packet sql aya config simulate opened bind ≡ launched s
          → AllowedRequest (IsGood laws P) (HttpRequest.post_reload w.disk)
          → All (All (Allowed (IsGood laws P))) batches
          → FlowKeeps Well (All (IsMildLine (λ r. Unit))) (
              main
                (program_peer sql print w elapsed_ms)
                rounds
                commands
                (s, batches)
                (map typed texts))
      main-IsSound config simulate opened bind {s} batches rounds commands texts good e reload oks =
          main-FlowKeeps laws (program_peer sql print w elapsed_ms) (λ r. Unit) Well
            (program-IsKept reload) (λ path. tt) tt rounds commands (s, batches) (map typed texts)
            (
              launched-IsSound laws P raw_laws snap_laws par_laws raw_fifo snap_fifo par_fifo sql
                  aya config simulate opened bind good e,
              oks,
            )
            (All-IsMildLine texts)
