-- ===== src/Tui.antt =====
-- crates/daemon-choir-tui/src/main.rs: the client on the terminal. What it is connected to is a `Peer`,
-- and what it prints is a list of notices.
pub mod Draw
pub mod Bars
pub mod Safety
pub mod Served
pub mod Guard
pub mod Program
pub mod Ending
use daemon_choir.Base.{
  ℕ, zero, suc, Bool, true, false, ◌&&◌, Option, none, some, String, List, [], ◌∷◌, ◌++◌,
  if◌then◌else◌, str_eq, lowercase_eq, leb, ltb,
}
use daemon_choir.Float.{F64}
use daemon_choir.Metrics.{StateSnapshot}
use daemon_choir.Probes.{ProbeStats}
use daemon_choir.Api.{StatusResponse}
use daemon_choir.Api.Router.{Method, Request}
use daemon_choir.Tui.Draw.{Screen, draw_dashboard}

-- A response: its status code, and what its body decodes to as each of the types that the client asks
-- for, which are the API's own; `none` is a body that does not decode.
pub record Answer (F : Type 0) : Type 0 where
  pub code : ℕ
  pub status : Option StatusResponse
  pub probes : Option (List ProbeStats)
  pub state : Option (StateSnapshot F)
  pub text : Option String

-- Whom the HTTP client talks to, in a state of type `S`: `none` is the `Err` of `send`.
pub record Peer (F S : Type 0) : Type 0 where
  pub exchange : S → Request → Option (Answer F) × S

-- `Response::error_for_status` and `StatusCode::is_success`
abbrev pub is_error : ℕ → Bool
is_error code = leb 400 code && ltb code 600

abbrev pub is_success : ℕ → Bool
is_success code = leb 200 code && ltb code 300

abbrev pub get_from : String → Request
get_from path = record { method = Method.get; path = path; header = none }

abbrev pub post_to : String → Option String → Request
post_to path header = record { method = Method.post; path = path; header = header }

-- what is printed
pub data Notice (F : Type 0) : Type 0 where
  screen : Screen F → Notice F
  connection_lost invalid_selection aborted goodbye no_text : Notice F
  voices : String → Notice F
  accepted : Notice F
  refused : ℕ → Notice F
  not_sent : Notice F

-- A line of the input without the spaces around it, or one that `stdin().read_line` refuses, as it does
-- where the bytes are no UTF-8.
pub data Line : Type 0 where
  typed : String → Line
  unreadable : Line

-- The client's state: the server, the lines still to be typed, and what was printed.
pub record Client (F S : Type 0) : Type 0 where
  pub server : S
  pub lines : List Line
  pub said : List (Notice F)

-- The program goes on, has ended, was stopped by Ctrl+C, which no handler catches, or has panicked.
pub data Flow (F S : Type 0) : Type 0 where
  goes_on exits interrupted : Client F S → Flow F S
  cannot_connect : Flow F S
  crashed : Flow F S

-- what follows where the loop goes on
abbrev pub and_then : {F S : Type 0} → Flow F S → (Client F S → Flow F S) → Flow F S
and_then (goes_on c) more = more c
and_then (exits c) more = exits c
and_then (interrupted c) more = interrupted c
and_then cannot_connect more = cannot_connect
and_then crashed more = crashed

-- `stdin().read_line`, which gives an empty text at the end of the input; `none` is an error, which
-- `unwrap` makes a panic
abbrev pub read_line : List Line → Option (String × List Line)
read_line [] = some ("", [])
read_line (typed line ∷ rest) = some (line, rest)
read_line (unreadable ∷ rest) = none

abbrev pub say : {F S : Type 0} → Notice F → Client F S → Client F S
say notice c = record c { said = c.said ++ (notice ∷ []) }

module _ {F : Type 0} where
  -- what the dashboard gets from a response
  abbrev pub fetched : {A : Type 0} → (Answer F → Option A) → Option (Answer F) → Option A
  fetched decode none = none
  fetched decode (some a) = if is_error a.code then none else decode a

  -- what is said of the response to a `POST`
  abbrev pub outcome_of : Option (Answer F) → Notice F
  outcome_of none = not_sent
  outcome_of (some a) = if is_success a.code then accepted else refused a.code

  abbrev pub voices_of : Option (Answer F) → Notice F
  voices_of none = not_sent
  voices_of (some a) = elim a.text [ none ↦ no_text | some text ↦ voices text ]

-- one round of the dashboard: it draws, or leaves, or panics
pub data Tick (F S : Type 0) : Type 0 where
  draws : Screen F → S → Tick F S
  leaves : S → Tick F S
  panics : Tick F S

module _ {F S : Type 0} ⦃f : F64 F⦄ where
  abbrev pub after_draw : Option (Screen F) → S → Tick F S
  after_draw none s = panics
  after_draw (some drawn) s = draws drawn s

  unfoldable pub shown :
      Option StatusResponse → Option (List ProbeStats) → Option (StateSnapshot F) → S → Tick F S
  shown (some status) (some probes) (some state) s =
      after_draw (draw_dashboard status probes state) s
  shown _ _ _ s = leaves s

module _ {F S : Type 0} ⦃f : F64 F⦄ (peer : Peer F S) where
  open peer use {exchange}

  unfoldable pub tick : S → Tick F S
  unfolding shown
  tick s =
      let (status, s1) = exchange s (get_from "/v1/status") in
      let (probes, s2) = exchange s1 (get_from "/v1/probes") in
      let (state, s3) = exchange s2 (get_from "/v1/state") in
      shown (fetched (λ a. a.status) status) (fetched (λ a. a.probes) probes)
        (fetched (λ a. a.state) state) s3

  -- the dashboard, until Ctrl+C after this many rounds
  unfoldable pub run_dashboard : ℕ → Client F S → Flow F S
  unfolding tick
  run_dashboard zero c = interrupted c
  run_dashboard (suc rounds) c = elim (tick c.server) [
    | draws drawn s ↦ run_dashboard rounds (say (screen drawn) (record c { server = s }))
    | leaves s ↦ goes_on (say connection_lost (record c { server = s }))
    | panics ↦ crashed
  ]

  unfoldable pub view_config : Client F S → Client F S
  view_config c =
      let (answer, s) = exchange c.server (get_from "/v1/voices") in
      say (voices_of answer) (record c { server = s })

  -- a `POST`, and what is said of its response
  abbrev pub trigger : Request → Client F S → Client F S
  trigger request c =
      let (answer, s) = exchange c.server request in
      say (outcome_of answer) (record c { server = s })

  unfoldable pub trigger_reload : Client F S → Client F S
  trigger_reload = trigger (post_to "/v1/config/reload" none)

  -- what is read for the confirmation
  abbrev pub confirmed : Client F S → Option (String × List Line) → Flow F S
  confirmed c none = crashed
  confirmed c (some (confirm, rest)) = goes_on (
      if lowercase_eq confirm "y"
      then trigger (post_to "/v1/privacy/wipe" (some "wipe")) (record c { lines = rest })
      else say aborted (record c { lines = rest }))

  unfoldable pub trigger_wipe : Client F S → Flow F S
  trigger_wipe c = confirmed c (read_line c.lines)

  unfoldable pub trigger_shutdown : Client F S → Client F S
  trigger_shutdown = trigger (post_to "/v1/shutdown" (some "shutdown"))

  -- the `match` on the command, with Ctrl+C in the dashboard after this many rounds
  unfoldable pub run_command : ℕ → String → Client F S → Flow F S
  unfolding run_dashboard view_config trigger_reload trigger_wipe trigger_shutdown
  run_command rounds cmd c =
      if str_eq cmd "1"
      then run_dashboard rounds c
      else if str_eq cmd "2"
      then goes_on (view_config c)
      else if str_eq cmd "3"
      then goes_on (trigger_reload c)
      else if str_eq cmd "4"
      then trigger_wipe c
      else if str_eq cmd "5"
      then exits (trigger_shutdown c)
      else if str_eq cmd "6"
      then exits (say goodbye c)
      else goes_on (say invalid_selection c)

  -- a round of the loop of `main`, on what is read, and what follows it
  abbrev pub next_round :
      ℕ → (Client F S → Flow F S) → Client F S → Option (String × List Line) → Flow F S
  next_round rounds more c none = crashed
  next_round rounds more c (some (cmd, rest)) =
      and_then (run_command rounds cmd (record c { lines = rest })) more

  -- the loop of `main` for this many commands
  unfoldable pub run_loop : ℕ → ℕ → Client F S → Flow F S
  unfolding run_command
  run_loop rounds zero c = goes_on c
  run_loop rounds (suc commands) c =
      next_round rounds (λ c'. run_loop rounds commands c') c (read_line c.lines)

  -- `main`, whose first request only finds out if there is a server
  unfoldable pub main : ℕ → ℕ → S → List Line → Flow F S
  unfolding run_loop
  main rounds commands s lines =
      let (answer, s') = exchange s (get_from "/v1/status") in
      elim answer [
        | none ↦ cannot_connect
        | some a ↦ run_loop rounds commands (record { server = s'; lines = lines; said = [] })
      ]
