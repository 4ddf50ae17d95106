-- ===== src/Tui/Served.antt =====
-- The control API, alone or within the running program, as what the client talks to.
use daemon_choir.Base.{
  ℕ, ◌≡◌, Bool, true, false, Option, none, some, String, List, [], ◌∷◌, if◌then◌else◌, str_eq,
}
use daemon_choir.Float.{F64}
use daemon_choir.Events.{RawEvent}
use daemon_choir.Metrics.{StateSnapshot}
use daemon_choir.Sync.{RwLock, Sender, Receiver}
use daemon_choir.Aggregator.Invariant.{content}
use daemon_choir.Mapping.{MappedParam}
use daemon_choir.Db.{Sqlite}
use daemon_choir.Api.{AppState, Body, Response, HttpRequest, serve, handle_state}
use daemon_choir.Api.Router.{Surroundings, get_route, resolve}
use daemon_choir.System.{System, Outcome, waits, goes, dies, Action, perform}
use daemon_choir.Tui.{Answer, Peer, fetched}

-- what holds of the value, if there is one
abbrev pub AllOf : {A : Type 0} → (A → Type 0) → Option A → Type 0
AllOf P none = Unit
AllOf P (some a) = P a

module _ {F : Type 0} (print : Body F → String) where
  -- A response as the client decodes it: JSON gives back what was encoded, and nothing as another
  -- type, and any body is a text.
  abbrev pub body_of : ℕ → Body F → Answer F
  body_of code (Body.status_json s) = record {
    code = code;
    status = some s;
    probes = none;
    state = none;
    text = some (print (Body.status_json s));
  }
  body_of code (Body.probes_json p) = record {
    code = code;
    status = none;
    probes = some p;
    state = none;
    text = some (print (Body.probes_json p));
  }
  body_of code (Body.state_json s) = record {
    code = code;
    status = none;
    probes = none;
    state = some s;
    text = some (print (Body.state_json s));
  }
  body_of code body = record {
    code = code;
    status = none;
    probes = none;
    state = none;
    text = some (print body);
  }

  abbrev pub answer_of : Response F → Answer F
  answer_of r = body_of r.code r.body

-- The answer where no route fits. (Where only the method does not fit axum answers 405, which the client
-- does not tell apart.)
abbrev pub not_found : {F : Type 0} → Answer F
not_found = record { code = 404; status = none; probes = none; state = none; text = some "" }

module _ {F Conn : Type 0} ⦃f : F64 F⦄ (sql : Sqlite F Conn) (print : Body F → String)
    (w : Surroundings F) (elapsed_ms : F) where
  -- the API's answer to what the router found
  unfoldable pub respond :
      Option (HttpRequest F) → AppState F Conn → Option (Answer F) × AppState F Conn
  unfolding serve
  respond none s = (some not_found, s)
  respond (some request) s =
      let (response, s') = serve sql s (request, elapsed_ms) in
      (some (answer_of print response), s')

  -- the API alone
  abbrev pub api_peer : Peer F (AppState F Conn)
  api_peer = record { exchange = λ s r. respond (resolve w r) s }

abbrev pub due : {A : Type 0} → List (List A) → List A × List (List A)
due [] = ([], [])
due (batch ∷ rest) = (batch, rest)

module _ {F Raw Snap Par Packet Conn : Type 0} ⦃f : F64 F⦄ ⦃raw_tx : Sender RawEvent Raw⦄
    ⦃raw_rx : Receiver RawEvent Raw⦄ ⦃snap_tx : Sender (StateSnapshot F) Snap⦄
    ⦃snap_rx : Receiver (StateSnapshot F) Snap⦄ ⦃par_tx : Sender (List (MappedParam F)) Par⦄
    ⦃par_rx : Receiver (List (MappedParam F)) Par⦄ (sql : Sqlite F Conn) where
  abbrev pub next_of :
      System F Raw Snap Par Packet Conn
      → Outcome (System F Raw Snap Par Packet Conn)
      → System F Raw Snap Par Packet Conn
  next_of s waits = s
  next_of s (goes t) = t
  next_of s (dies task) = s

  abbrev pub perform_all :
      System F Raw Snap Par Packet Conn → List (Action F Packet) → System F Raw Snap Par Packet Conn
  perform_all s [] = s
  perform_all s (a ∷ rest) = perform_all (next_of s (perform sql s a)) rest

  -- The program that goes on between the requests: what its tasks do before each of them is the
  -- next list of actions.
  abbrev pub program_peer :
      (Body F → String)
      → Surroundings F
      → F
      → Peer F (System F Raw Snap Par Packet Conn × List (List (Action F Packet)))
  program_peer print w elapsed_ms = record {
    exchange = λ state r.
        let (batch, rest) = due state.1 in
        let s = perform_all state.0 batch in
        let (answer, app') = respond sql print w elapsed_ms (resolve w r) s.app in
        (answer, (record s { app = app' }, rest));
  }

-- a property of both branches
pub if-AllOf :
    {A : Type 0} (P : A → Type 0) (b : Bool) (x y : Option A)
    → AllOf P x
    → AllOf P y
    → AllOf P (if b then x else y)
if-AllOf P true x y h k = h
if-AllOf P false x y h k = k

-- a snapshot that the client gets from the API is the one under the lock
pub state-content :
    {F Conn : Type 0} (print : Body F → String) (s : AppState F Conn) (l : RwLock (StateSnapshot F))
    (st : StateSnapshot F)
    → s.current_snapshot ≡ l
    → fetched (λ a. a.state) (some (answer_of print (handle_state s))) ≡ some st
    → content l ≡ st
unfolding handle_state
state-content print s (RwLock.healthy a) st e h = cc
state-content print s (RwLock.poisoned a) st e h = cc

module _ {F : Type 0} (w : Surroundings F) (P : HttpRequest F → Type 0) where
  pub get_route-AllOf :
      (path : String)
      → P (HttpRequest.get_status w.uptime_secs)
      → P HttpRequest.get_state
      → P HttpRequest.get_voices
      → P HttpRequest.get_probes
      → P HttpRequest.get_config
      → P HttpRequest.get_metrics
      → AllOf P (get_route w path)
  unfolding get_route
  get_route-AllOf path a b c d e g = if-AllOf P (str_eq path "/v1/status") _ _ a (
      if-AllOf P (str_eq path "/v1/state") _ _ b (
        if-AllOf P (str_eq path "/v1/voices") _ _ c (
          if-AllOf P (str_eq path "/v1/probes") _ _ d (
            if-AllOf P (str_eq path "/v1/config") _ _ e
              (if-AllOf P (str_eq path "/v1/metrics") _ _ g tt)))))
