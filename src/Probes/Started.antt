-- ===== src/Probes/Started.antt =====
-- What `ProbeManager::start` leaves, whatever the kernel says.
use daemon_choir.Base.{
  ℕ, ◌-◌, arith, length, filter, filter-keep, filter-nil, Bool, true, false, none, some, String,
  List, [], ◌∷◌, ◌≡◌, refl, sym, ap, ◌∙◌, All, Option, ◌&&◌, if◌then◌else◌, str_eq, map,
  Option-cases, Bool-cases, inl, inr,
}
use daemon_choir.Events.{ProbeId, to_string}
use daemon_choir.Probes.{
  attach_program, ProbeStats, ProbeManager, Task, poll, simulated, Aya, load_bpf, start_probe,
  start_all, start, attach_all, probe_id_of,
}

-- A program of a probe's file, with the category and the name of its tracepoint.
abbrev Hook : Type 0
Hook = String × String × String

-- The kind of probe that has this name, as the events print it.
abbrev find_probe : String → List ProbeId → Option ProbeId
find_probe name [] = none
find_probe name (probe ∷ rest) =
    if str_eq name (to_string probe) then some probe else find_probe name rest

abbrev known : String → Option ProbeId
known name =
    find_probe name
      (ProbeId.cpu_sched ∷ ProbeId.mem_pressure ∷ ProbeId.net_io ∷ ProbeId.proc_lifecycle ∷ [])

-- All the programs that the kernel's side of a probe needs; an unknown probe is left with a nameless one.
abbrev pub hooks : Option ProbeId → List Hook
hooks (some ProbeId.cpu_sched) =
    ("handle_sched_switch", "sched", "sched_switch")
    ∷ ("handle_sched_wakeup", "sched", "sched_wakeup")
    ∷ ("handle_process_exit", "sched", "sched_process_exit")
    ∷ []
hooks (some ProbeId.mem_pressure) =
    ("handle_mm_vmscan", "vmscan", "mm_vmscan_shrink_inactive_to_succ") ∷ []
hooks (some ProbeId.net_io) = ("handle_net_dev_xmit", "net", "net_dev_xmit") ∷ []
hooks (some ProbeId.proc_lifecycle) = ("handle_process_exec", "sched", "sched_process_exec") ∷ []
hooks none = ("", "", "") ∷ []

-- the kind of the events that are read from the kernel
abbrev pub kind_of : Option ProbeId → ProbeId
kind_of none = ProbeId.cpu_sched
kind_of (some probe) = probe

-- The program is in the file, is a tracepoint, loads, and attaches.
pub record IsAttached {Bpf Program : Type 0} (aya : Aya Bpf Program) (bpf : Bpf) (h : Hook)
    : Type 0 where
  pub program : Program
  pub found : aya.program_mut bpf h.0 ≡ some program
  pub trace_point : aya.is_trace_point program ≡ true
  pub loads : aya.load program ≡ true
  pub attaches : aya.attach program h.1 h.2 ≡ true

-- The task that a probe should have: the kernel's, if this is no simulation and all its programs attach.
pub data Runs {Bpf Program : Type 0} (aya : Aya Bpf Program) (simulate : Bool)
    : String → Task Bpf → Type 0 where
  in_kernel :
      {name : String} {bpf : Bpf}
      → simulate ≡ false
      → aya.load_file name ≡ some bpf
      → All (IsAttached aya bpf) (hooks (known name))
      → Runs aya simulate name (poll (kind_of (known name)) bpf)
  as_asked : {name : String} → simulate ≡ true → Runs aya simulate name (simulated name)
  without_file :
      {name : String} → aya.load_file name ≡ none → Runs aya simulate name (simulated name)
  not_attached :
      {name : String} {bpf : Bpf}
      → aya.load_file name ≡ some bpf
      → ¬ All (IsAttached aya bpf) (hooks (known name))
      → Runs aya simulate name (simulated name)

and_assoc : (a b c : Bool) → (a && b) && c ≡ a && (b && c)
and_assoc true b c = refl
and_assoc false b c = refl

and_true : (a b : Bool) → a && b ≡ true → (a ≡ true) × (b ≡ true)
and_true true b e = (refl, e)
and_true false b e = absurd (grind arith)

module _ {Bpf Program : Type 0} (aya : Aya Bpf Program) (bpf : Bpf) where
  abbrev attach_hook : Hook → Bool
  attach_hook h = attach_program aya bpf h.0 h.1 h.2

  abbrev attach_hooks : List Hook → Bool
  attach_hooks [] = true
  attach_hooks (h ∷ []) = attach_hook h
  attach_hooks (h ∷ k ∷ rest) = attach_hook h && attach_hooks (k ∷ rest)

  attach_hook-IsAttached : (h : Hook) → attach_hook h ≡ true → IsAttached aya bpf h
  unfolding attach_program
  attach_hook-IsAttached h e = elim (Option-cases (aya.program_mut bpf h.0)) [
    | inl q ↦ absurd (let no = rw (q, attach_program) at e in grind arith)
    | inr (p, q) ↦
        let (both, attaches) = and_true _ _ (rw (q, attach_program) at e) in
        let (is, loads) = and_true _ _ both in
        record { program = p; found = q; trace_point = is; loads = loads; attaches = attaches }
  ]

  IsAttached-attach_hook : (h : Hook) → IsAttached aya bpf h → attach_hook h ≡ true
  unfolding attach_program
  IsAttached-attach_hook h a =
      rw (a.found, attach_program) (rw (a.trace_point, a.loads, a.attaches) refl)

  attach_hooks-All : (hs : List Hook) → attach_hooks hs ≡ true → All (IsAttached aya bpf) hs
  attach_hooks-All [] e = tt
  attach_hooks-All (h ∷ []) e = (attach_hook-IsAttached h e, tt)
  attach_hooks-All (h ∷ k ∷ rest) e =
      let (first, more) = and_true _ _ e in
      (attach_hook-IsAttached h first, attach_hooks-All (k ∷ rest) more)

  All-attach_hooks : (hs : List Hook) → All (IsAttached aya bpf) hs → attach_hooks hs ≡ true
  All-attach_hooks [] a = refl
  All-attach_hooks (h ∷ []) a = IsAttached-attach_hook h a.0
  All-attach_hooks (h ∷ k ∷ rest) a =
      rw (IsAttached-attach_hook h a.0) (All-attach_hooks (k ∷ rest) a.1)

  attach_all_lem : (name : String) → attach_all aya bpf name ≡ attach_hooks (hooks (known name))
  unfolding attach_all to_string
  attach_all_lem name = elim (Bool-cases (str_eq name "cpu_sched")) [
    | inl a ↦
        rw (a, attach_all)
          (and_assoc (attach_hook ("handle_sched_switch", "sched", "sched_switch"))
            (attach_hook ("handle_sched_wakeup", "sched", "sched_wakeup"))
            (attach_hook ("handle_process_exit", "sched", "sched_process_exit")))
    | inr a ↦ elim (Bool-cases (str_eq name "mem_pressure")) [
      | inl b ↦ rw (a, b, attach_all) refl
      | inr b ↦ elim (Bool-cases (str_eq name "net_io")) [
        | inl c ↦ rw (a, b, c, attach_all) refl
        | inr c ↦ elim (Bool-cases (str_eq name "proc_lifecycle")) [
          | inl d ↦ rw (a, b, c, d, attach_all) refl
          | inr d ↦ rw (a, b, c, d, attach_all) refl
        ]
      ]
    ]
  ]

probe_id_of_lem : (name : String) → probe_id_of name ≡ kind_of (known name)
unfolding probe_id_of to_string
probe_id_of_lem name = elim (Bool-cases (str_eq name "cpu_sched")) [
  | inl a ↦ rw (a, probe_id_of) refl
  | inr a ↦ elim (Bool-cases (str_eq name "mem_pressure")) [
    | inl b ↦ rw (a, b, probe_id_of) refl
    | inr b ↦ elim (Bool-cases (str_eq name "net_io")) [
      | inl c ↦ rw (a, b, c, probe_id_of) refl
      | inr c ↦ elim (Bool-cases (str_eq name "proc_lifecycle")) [
        | inl d ↦ rw (a, b, c, d, probe_id_of) refl
        | inr d ↦ rw (a, b, c, d, probe_id_of) refl
      ]
    ]
  ]
]

module _ {Bpf Program : Type 0} (aya : Aya Bpf Program) where
  -- each probe with its task, in order
  pub data AllRun (simulate : Bool)
      : List ProbeStats → List ProbeStats → List (Task Bpf) → Type 0 where
    none_left : AllRun simulate [] [] []
    one_more :
        {p : ProbeStats} {t : Task Bpf} {ps qs : List ProbeStats} {ts : List (Task Bpf)}
        → Runs aya simulate p.name t
        → AllRun simulate ps qs ts
        → AllRun simulate (p ∷ ps) (record p { loaded = true } ∷ qs) (t ∷ ts)

  start_probe-Runs :
      (simulate : Bool) (p : ProbeStats)
      → ((start_probe aya simulate p).0 ≡ record p { loaded = true })
        × Runs aya simulate p.name (start_probe aya simulate p).1
  unfolding start_probe load_bpf
  start_probe-Runs true p = (refl, as_asked refl)
  start_probe-Runs false p = elim (Option-cases (aya.load_file p.name)) [
    | inl e ↦ rw (e, start_probe) (refl, without_file e)
    | inr (bpf, e) ↦ elim (Bool-cases (attach_all aya bpf p.name)) [
      | inl f ↦
          rw (e, f, start_probe)
            (
              refl,
              rw (probe_id_of_lem p.name) (
                  in_kernel refl e (
                    attach_hooks-All aya bpf (hooks (known p.name))
                      (sym (attach_all_lem aya bpf p.name) ∙ f))),
            )
      | inr f ↦
          rw (e, f, start_probe)
            (
              refl,
              not_attached e (λ all. absurd (
                  let yes =
                    attach_all_lem aya bpf p.name
                    ∙ All-attach_hooks aya bpf (hooks (known p.name)) all in
                  let no = sym f ∙ yes in grind arith)),
            )
    ]
  ]

  start_all-AllRun :
      (simulate : Bool) (l : List ProbeStats)
      → AllRun simulate l
          (map (λ s. s.0) (start_all aya simulate l))
          (map (λ s. s.1) (start_all aya simulate l))
  unfolding start_all
  start_all-AllRun simulate [] = none_left
  start_all-AllRun simulate (p ∷ ps) =
      let (loaded, runs) = start_probe-Runs simulate p in
      rw loaded (one_more runs (start_all-AllRun simulate ps))

  -- Whatever the kernel says, `start` spawns one task for each probe, in order: the kernel's, with events of
  -- the kind that has the probe's name, exactly if this is no simulation, the probe's file loads, and
  -- each of the programs that the probe needs (three for cpu_sched) is in it, is a tracepoint, loads
  -- and attaches to its own tracepoint; and else a simulation of that name. A name of no kind needs a
  -- nameless program, and its events would be of the kind cpu_sched. `start` marks each probe as loaded, also where its file failed to load or attach.
  pub start-AllRun :
      {Tx : Type 0} (m : ProbeManager Tx)
      → AllRun m.simulate m.probes (start aya m).0.probes (start aya m).1
  unfolding start
  start-AllRun m = start_all-AllRun m.simulate m.probes

-- `failed_count` of main.rs
unfoldable pub failed_count : List ProbeStats → ℕ
failed_count probes_stats = length probes_stats - length (filter (λ p. p.loaded) probes_stats)

AllRun-loaded :
    {Bpf Program : Type 0} (aya : Aya Bpf Program) (simulate : Bool) (ps qs : List ProbeStats)
    (ts : List (Task Bpf))
    → AllRun aya simulate ps qs ts
    → filter (λ p. p.loaded) qs ≡ qs
AllRun-loaded aya simulate _ _ _ none_left = filter-nil _
AllRun-loaded aya simulate _ _ _ (one_more {p} {t} {ps} {qs} {ts} r rest) =
    filter-keep _ _ qs refl
    ∙ ap (λ l. record p { loaded = true } ∷ l) (AllRun-loaded aya simulate ps qs ts rest)

-- The number of load errors that main.rs computes after `start`, and reports as
-- `probe_load_errors_total`, is 0, whichever probes failed to load or attach.
pub failed_count-start :
    {Bpf Program : Type 0} (aya : Aya Bpf Program) {Tx : Type 0} (m : ProbeManager Tx)
    → failed_count (start aya m).0.probes ≡ 0
unfolding failed_count
failed_count-start aya m =
    let e = AllRun-loaded aya m.simulate m.probes _ _ (start-AllRun aya m) in rw e (omega arith)
