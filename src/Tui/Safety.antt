-- ===== src/Tui/Safety.antt =====
-- What the client keeps of a server, whatever is typed.
use daemon_choir.Base.{
  Bool, sym, arith, ℕ, zero, suc, ◌≡◌, refl, subst, true, false, Bool-cases, inl, inr, Option, none,
  some, String, List, [], ◌∷◌, All, str_eq, lowercase_eq, if◌then◌else◌,
}
use daemon_choir.Float.{F64, IsIeee}
use daemon_choir.Metrics.{StateSnapshot}
use daemon_choir.Metrics.Laws.{IsNormal}
use daemon_choir.Probes.{ProbeStats}
use daemon_choir.Api.{StatusResponse}
use daemon_choir.Api.Router.{Request}
use daemon_choir.Tui.Bars.{draw_dashboard-shows}
use daemon_choir.Tui.{
  Answer, Peer, Client, Notice, Flow, goes_on, exits, interrupted, cannot_connect, crashed, Tick,
  Line, typed, unreadable, and_then, confirmed, next_round, draws, leaves, panics, read_line,
  get_from, post_to, fetched, shown, say, tick, run_dashboard, view_config, trigger, trigger_reload,
  trigger_wipe, trigger_shutdown, run_command, run_loop, main,
}

-- what may be typed, where a line may be a command or confirm a wipe
pub record IsMild (Permitted : Request → Type 0) (line : String) : Type 0 where
  pub no_shutdown : str_eq line "5" ≡ true → Permitted (post_to "/v1/shutdown" (some "shutdown"))
  pub no_wipe : lowercase_eq line "y" ≡ true → Permitted (post_to "/v1/privacy/wipe" (some "wipe"))

-- a line that can be read, and may be typed
abbrev pub IsMildLine : (Request → Type 0) → Line → Type 0
IsMildLine Permitted (typed text) = IsMild Permitted text
IsMildLine Permitted unreadable = ⊥

abbrev ReadMild : (Request → Type 0) → Option (String × List Line) → Type 0
ReadMild Permitted none = ⊥
ReadMild Permitted (some (text, rest)) = IsMild Permitted text × All (IsMildLine Permitted) rest

-- what is read is one of the lines, or nothing
read_line-ReadMild :
    (Permitted : Request → Type 0) (lines : List Line)
    → All (IsMildLine Permitted) lines
    → ReadMild Permitted (read_line lines)
read_line-ReadMild P [] ok =
    (record { no_shutdown = λ e. absurd (grind arith); no_wipe = λ e. absurd (grind arith) }, tt)
read_line-ReadMild P (typed text ∷ rest) ok = ok
read_line-ReadMild P (unreadable ∷ rest) ok = absurd ok.0

module _ {F S : Type 0} ⦃f : F64 F⦄ where
  -- A property of the server that the requests which are permitted keep, and with which the
  -- snapshots that the client gets are drawable.
  pub record IsKept (peer : Peer F S) (Permitted : Request → Type 0) (Inv : S → Type 0)
      : Type 0 where
    pub kept : (s : S) (r : Request) → Permitted r → Inv s → Inv (peer.exchange s r).1
    pub normal :
        (s : S) (st : StateSnapshot F)
        → Inv s
        → fetched (λ a. a.state) (peer.exchange s (get_from "/v1/state")).0 ≡ some st
        → IsNormal st.metrics

  -- the property holds afterwards, and nothing panicked
  abbrev pub FlowKeeps : (S → Type 0) → (List Line → Type 0) → Flow F S → Type 0
  FlowKeeps Inv Ok (goes_on c) = Inv c.server × Ok c.lines
  FlowKeeps Inv Ok (exits c) = Inv c.server × Ok c.lines
  FlowKeeps Inv Ok (interrupted c) = Inv c.server × Ok c.lines
  FlowKeeps Inv Ok cannot_connect = Unit
  FlowKeeps Inv Ok crashed = ⊥

  abbrev TickKeeps : (S → Type 0) → Tick F S → Type 0
  TickKeeps Inv (draws drawn s) = Inv s
  TickKeeps Inv (leaves s) = Inv s
  TickKeeps Inv panics = ⊥

  module _ (laws : IsIeee F) where
    shown-TickKeeps :
        (Inv : S → Type 0) (status : Option StatusResponse) (probes : Option (List ProbeStats))
        (state : Option (StateSnapshot F)) (s : S)
        → Inv s
        → ((st : StateSnapshot F) → state ≡ some st → IsNormal st.metrics)
        → TickKeeps Inv (shown status probes state s)
    unfolding shown
    shown-TickKeeps Inv (some status) (some probes) (some state) s i normal =
        let drawn = draw_dashboard-shows laws status probes state (normal state refl) in
        rw drawn.1 i
    shown-TickKeeps Inv none probes state s i normal = i
    shown-TickKeeps Inv (some status) none state s i normal = i
    shown-TickKeeps Inv (some status) (some probes) none s i normal = i

    module _ (peer : Peer F S) (Permitted : Request → Type 0) (Inv : S → Type 0)
        (k : IsKept peer Permitted Inv) (reads : (path : String) → Permitted (get_from path))
        (reloads : Permitted (post_to "/v1/config/reload" none)) where
      abbrev Mild : List Line → Type 0
      Mild = All (IsMildLine Permitted)

      tick-TickKeeps : (s : S) → Inv s → TickKeeps Inv (tick peer s)
      unfolding tick
      tick-TickKeeps s i =
          let s1 = (peer.exchange s (get_from "/v1/status")).1 in
          let s2 = (peer.exchange s1 (get_from "/v1/probes")).1 in
          let i2 : Inv s2 = k.kept s1 _ (reads "/v1/probes") (k.kept s _ (reads "/v1/status") i) in
          shown-TickKeeps Inv _ _ _ _ (k.kept s2 _ (reads "/v1/state") i2)
            (λ st e. k.normal s2 st i2 e)

      -- the rest of the dashboard's loop, after a round with this result
      after_tick-FlowKeeps :
          (rounds : ℕ)
          → ((c : Client F S)
              → Inv c.server
              → Mild c.lines
              → FlowKeeps Inv Mild (run_dashboard peer rounds c))
          → (c : Client F S) (t : Tick F S) → tick peer c.server ≡ t
          → TickKeeps Inv t
          → Mild c.lines
          → FlowKeeps Inv Mild (run_dashboard peer (suc rounds) c)
      unfolding run_dashboard
      after_tick-FlowKeeps rounds more c (draws drawn s) e i ok =
          rw (e, run_dashboard) (more (say (Notice.screen drawn) (record c { server = s })) i ok)
      after_tick-FlowKeeps rounds more c (leaves s) e i ok = rw (e, run_dashboard) (i, ok)
      after_tick-FlowKeeps rounds more c panics e i ok = absurd i

      run_dashboard-FlowKeeps :
          (rounds : ℕ) (c : Client F S)
          → Inv c.server
          → Mild c.lines
          → FlowKeeps Inv Mild (run_dashboard peer rounds c)
      unfolding run_dashboard
      run_dashboard-FlowKeeps zero c i ok = (i, ok)
      run_dashboard-FlowKeeps (suc rounds) c i ok =
          after_tick-FlowKeeps rounds (run_dashboard-FlowKeeps rounds) c (tick peer c.server) refl
            (tick-TickKeeps c.server i) ok

      wiped-Keeps :
          (line : String) (c : Client F S)
          → IsMild Permitted line
          → Inv c.server
          → Inv
              (if lowercase_eq line "y"
                then trigger peer (post_to "/v1/privacy/wipe" (some "wipe")) c
                else say Notice.aborted c).server
      wiped-Keeps line c mild i = elim (Bool-cases (lowercase_eq line "y")) [
        | inl e ↦ rw e (k.kept c.server _ (mild.no_wipe e) i)
        | inr e ↦ rw e i
      ]

      wiped-lines :
          (b : Bool) (c : Client F S)
          → (if b
              then trigger peer (post_to "/v1/privacy/wipe" (some "wipe")) c
              else say Notice.aborted c).lines
            ≡ c.lines
      wiped-lines true c = refl
      wiped-lines false c = refl

      confirmed-FlowKeeps :
          (c : Client F S) (o : Option (String × List Line))
          → Inv c.server
          → ReadMild Permitted o
          → FlowKeeps Inv Mild (confirmed peer c o)
      confirmed-FlowKeeps c none i h = absurd h
      confirmed-FlowKeeps c (some (text, rest)) i (mild, ok) = (
        wiped-Keeps text (record c { lines = rest }) mild i,
        subst Mild (sym (wiped-lines (lowercase_eq text "y") (record c { lines = rest }))) ok,
      )

      run_command-FlowKeeps :
          (rounds : ℕ) (cmd : String) (c : Client F S)
          → IsMild Permitted cmd
          → Inv c.server
          → Mild c.lines
          → FlowKeeps Inv Mild (run_command peer rounds cmd c)
      unfolding run_command view_config trigger_reload trigger_wipe trigger_shutdown
      run_command-FlowKeeps rounds cmd c mild i ok = elim (Bool-cases (str_eq cmd "1")) [
        | inl e1 ↦ rw e1 (run_dashboard-FlowKeeps rounds c i ok)
        | inr e1 ↦ elim (Bool-cases (str_eq cmd "2")) [
          | inl e2 ↦ rw (e1, e2) (k.kept c.server _ (reads "/v1/voices") i, ok)
          | inr e2 ↦ elim (Bool-cases (str_eq cmd "3")) [
            | inl e3 ↦ rw (e1, e2, e3) (k.kept c.server _ reloads i, ok)
            | inr e3 ↦ elim (Bool-cases (str_eq cmd "4")) [
              | inl e4 ↦
                  rw (e1, e2, e3, e4)
                    (confirmed-FlowKeeps c (read_line c.lines) i
                      (read_line-ReadMild Permitted c.lines ok))
              | inr e4 ↦ elim (Bool-cases (str_eq cmd "5")) [
                | inl e5 ↦ rw (e1, e2, e3, e4, e5) (k.kept c.server _ (mild.no_shutdown e5) i, ok)
                | inr e5 ↦ elim (Bool-cases (str_eq cmd "6")) [
                  | inl e6 ↦ rw (e1, e2, e3, e4, e5, e6) (i, ok)
                  | inr e6 ↦ rw (e1, e2, e3, e4, e5, e6) (i, ok)
                ]
              ]
            ]
          ]
        ]
      ]

      -- the rest of the loop, after a command with this result
      and_then-FlowKeeps :
          (more : Client F S → Flow F S) (o : Flow F S)
          → ((c : Client F S) → Inv c.server → Mild c.lines → FlowKeeps Inv Mild (more c))
          → FlowKeeps Inv Mild o
          → FlowKeeps Inv Mild (and_then o more)
      and_then-FlowKeeps more (goes_on c) keeps (i, ok) = keeps c i ok
      and_then-FlowKeeps more (exits c) keeps h = h
      and_then-FlowKeeps more (interrupted c) keeps h = h
      and_then-FlowKeeps more cannot_connect keeps h = h
      and_then-FlowKeeps more crashed keeps h = h

      next_round-FlowKeeps :
          (rounds : ℕ) (more : Client F S → Flow F S) (c : Client F S)
          (o : Option (String × List Line))
          → ((c : Client F S) → Inv c.server → Mild c.lines → FlowKeeps Inv Mild (more c))
          → Inv c.server
          → ReadMild Permitted o
          → FlowKeeps Inv Mild (next_round peer rounds more c o)
      next_round-FlowKeeps rounds more c none keeps i h = absurd h
      next_round-FlowKeeps rounds more c (some (cmd, rest)) keeps i (mild, ok) =
          and_then-FlowKeeps more _ keeps
            (run_command-FlowKeeps rounds cmd (record c { lines = rest }) mild i ok)

      run_loop-FlowKeeps :
          (rounds commands : ℕ) (c : Client F S)
          → Inv c.server
          → Mild c.lines
          → FlowKeeps Inv Mild (run_loop peer rounds commands c)
      unfolding run_loop
      run_loop-FlowKeeps rounds zero c i ok = (i, ok)
      run_loop-FlowKeeps rounds (suc commands) c i ok =
          next_round-FlowKeeps rounds _ c (read_line c.lines) (run_loop-FlowKeeps rounds commands) i
            (read_line-ReadMild Permitted c.lines ok)

      main-connected :
          (rounds commands : ℕ) (s : S) (lines : List Line) (o : Option (Answer F))
          → (peer.exchange s (get_from "/v1/status")).0 ≡ o
          → Inv s
          → Mild lines
          → FlowKeeps Inv Mild (main peer rounds commands s lines)
      unfolding main
      main-connected rounds commands s lines none e i ok = rw (e, main) tt
      main-connected rounds commands s lines (some a) e i ok =
          rw (e, main) (run_loop-FlowKeeps rounds commands _ (k.kept s _ (reads "/v1/status") i) ok)

      pub main-FlowKeeps :
          (rounds commands : ℕ) (s : S) (lines : List Line)
          → Inv s
          → Mild lines
          → FlowKeeps Inv Mild (main peer rounds commands s lines)
      main-FlowKeeps rounds commands s lines i ok =
          main-connected rounds commands s lines _ refl i ok
