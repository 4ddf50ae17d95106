-- ===== src/Examples/Terminal.antt =====
-- The client of the terminal at concrete sessions, with the API alone and with the running program.
use daemon_choir.Base.{
  codes, ℕ, ◌≡◌, refl, true, false, inl, some, String, List, [], ◌∷◌, All, length, map,
}
use daemon_choir.Float.Fixed.{Fixed, fixed_f64, Fixed-IsIeee}
use daemon_choir.Metrics.{default_metrics}
use daemon_choir.Sync.Bounded.{chan_sender, chan_receiver, Chan-IsMpsc, Chan-IsFifo}
use daemon_choir.Probes.{ProbeStats}
use daemon_choir.Api.{AppState, Body, StatusResponse, Disk}
use daemon_choir.Api.Router.{Surroundings}
use daemon_choir.Api.Exposition.{blank, lost_line, render}
use daemon_choir.Api.Scrape.{is_value}
use daemon_choir.System.{
  Action, aggregator_receives, aggregator_ticks, mapping_receives, ringbuf_receives, probe_sends,
}
use daemon_choir.Tui.{
  Line, typed, unreadable, crashed, trigger_wipe, Peer, Client, goes_on, exits, run_loop, main,
}
use daemon_choir.Tui.Draw.{Screen, draw_dashboard}
use daemon_choir.Tui.Bars.{ShowsMetrics, draw_dashboard-shows}
use daemon_choir.Tui.Safety.{IsMildLine, FlowKeeps}
use daemon_choir.Tui.Served.{api_peer, program_peer}
use daemon_choir.Tui.Guard.{Harmless, Stays, IsUnconfirmed, main-IsUntouched}
use daemon_choir.Tui.Program.{Well, main-IsSound}
use daemon_choir.Tui.Ending.{IsPlain, run_loop-never_ends, run_loop-ends}
use daemon_choir.Examples.Fixtures.{Tables, tables_sql, some_rows, switch_of, first_snapshot}
use daemon_choir.Examples.Parameters.{zeros-IsNormal}
use daemon_choir.Examples.Sources.{no_kernel}
use daemon_choir.Examples.Storage.{app}
use daemon_choir.Examples.Whole.{
  IsAudible, machine, config, config-IsGood, all_sockets, machine-launched, all_sockets,
}

abbrev cpu_stats : ProbeStats
cpu_stats = record {
  name = "cpu_sched";
  attach_point = "sched";
  loaded = true;
  events_total = 3;
  events_lost = 1;
  last_event_us = 9;
}

abbrev status : StatusResponse
status = record {
  version = "2.0.0";
  uptime_secs = 60;
  state = "running";
  probes_loaded = 1;
  backends_active = 2;
  api_version = "v1";
}

draw_dashboard-shows_example :
    (drawn : Screen Fixed) × (draw_dashboard status (cpu_stats ∷ []) first_snapshot ≡ some drawn)
    × ShowsMetrics Fixed-IsIeee default_metrics drawn.bars
    × (drawn.version ≡ "2.0.0")
    × (drawn.state ≡ "running")
    × (drawn.uptime_secs ≡ 60)
    × (drawn.backends_active ≡ 2)
    × (map (λ l. l.name) drawn.probe_lines ≡ "cpu_sched" ∷ [])
    × (map (λ l. l.events_lost) drawn.probe_lines ≡ 1 ∷ [])
draw_dashboard-shows_example =
    draw_dashboard-shows Fixed-IsIeee status (cpu_stats ∷ []) first_snapshot zeros-IsNormal

abbrev print : Body Fixed → String
print body = "{}"

abbrev surroundings : Surroundings Fixed
surroundings = record { disk = Disk.parsed config; uptime_secs = 60; new_backends = [] }

abbrev api : Peer Fixed (AppState Fixed Tables)
api = api_peer tables_sql print surroundings 2_000_000

abbrev client_of : List Line → Client Fixed (AppState Fixed Tables)
client_of lines = record { server = app; lines = lines; said = [] }

abbrev careful : List Line
careful = map typed ("1" ∷ "3" ∷ "4" ∷ "n" ∷ "6" ∷ [])

careful-IsUnconfirmed : All IsUnconfirmed careful
careful-IsUnconfirmed =
    ((refl, refl), ((refl, refl), ((refl, refl), ((refl, refl), ((refl, refl), tt)))))

main-IsUntouched_example :
    FlowKeeps
      (Stays tables_sql print surroundings 2_000_000 app)
      (All (IsMildLine (Harmless tables_sql print surroundings 2_000_000)))
      (main (api_peer tables_sql print surroundings 2_000_000) 3 5 app careful)
main-IsUntouched_example =
    main-IsUntouched tables_sql print surroundings 2_000_000 Fixed-IsIeee 3 5 app careful
      zeros-IsNormal careful-IsUnconfirmed

-- a line that cannot be read ends the client with a panic, as a command and as a confirmation
command-unreadable : run_loop api 3 1 (client_of (unreadable ∷ [])) ≡ crashed
unfolding run_loop
command-unreadable = refl

confirmation-unreadable : trigger_wipe api (client_of (unreadable ∷ [])) ≡ crashed
unfolding trigger_wipe
confirmation-unreadable = refl

-- what the program does before the first two requests
abbrev batches : List (List (Action Fixed ℕ))
batches =
    (probe_sends 0 (switch_of 4000) 5 ∷ ringbuf_receives ∷ [])
    ∷ (aggregator_receives ∷ aggregator_ticks 50_000 ∷ mapping_receives ∷ [])
    ∷ []

abbrev reckless : List String
reckless = "1" ∷ "4" ∷ "y" ∷ "2" ∷ "5" ∷ []

main-IsSound_example :
    FlowKeeps
      (Well Fixed-IsIeee IsAudible Chan-IsMpsc Chan-IsMpsc Chan-IsMpsc Chan-IsFifo Chan-IsFifo
        Chan-IsFifo tables_sql print surroundings 2_000_000)
      (All (IsMildLine (λ r. Unit)))
      (main
        (program_peer tables_sql print surroundings 2_000_000)
        3
        5
        (machine, batches)
        (map typed reckless))
main-IsSound_example =
    main-IsSound Fixed-IsIeee IsAudible Chan-IsMpsc Chan-IsMpsc Chan-IsMpsc Chan-IsFifo Chan-IsFifo
      Chan-IsFifo tables_sql print surroundings 2_000_000 no_kernel config true (some some_rows)
      all_sockets batches 3 5 reckless config-IsGood machine-launched config-IsGood
      ((tt, (tt, tt)), ((tt, (tt, (tt, tt))), tt))

run_loop-never_ends_example :
    (c' : Client Fixed (AppState Fixed Tables)) × (run_loop api 3 100 (client_of []) ≡ goes_on c')
    × (c'.server ≡ app)
    × (length c'.said ≡ 100)
run_loop-never_ends_example = run_loop-never_ends api 3 100 (client_of []) refl

IsPlain-lines : All IsPlain ("2" ∷ "3" ∷ "?" ∷ [])
IsPlain-lines = (
  record { not1 = refl; not4 = refl; not5 = refl; not6 = refl },
  (
    record { not1 = refl; not4 = refl; not5 = refl; not6 = refl },
    (record { not1 = refl; not4 = refl; not5 = refl; not6 = refl }, tt),
  ),
)

run_loop-ends_example :
    (c' : Client Fixed (AppState Fixed Tables)) × (run_loop api 3 4
        (client_of (map typed ("2" ∷ "3" ∷ "?" ∷ "5" ∷ "1" ∷ [])))
      ≡ exits c')
    × (c'.lines ≡ typed "1" ∷ [])
    × (length c'.said ≡ 4)
run_loop-ends_example =
    run_loop-ends api 3 ("2" ∷ "3" ∷ "?" ∷ []) (typed "1" ∷ []) "5"
      (client_of (map typed ("2" ∷ "3" ∷ "?" ∷ "5" ∷ "1" ∷ []))) IsPlain-lines (inl refl) refl

abbrev one_probe : AppState Fixed Tables
one_probe = record app { probes_stats = cpu_stats ∷ [] }

-- a name with a quote in it may not stand between quotes
quote-refused : is_value (codes "a\"b") ≡ false
quote-refused = refl

-- the text for a probe, line by line
lost_line_text :
    render {F = Fixed} (lost_line cpu_stats ∷ blank ∷ [])
    ≡ "events_lost_total{probe=\"cpu_sched\"} 1\n\n"
lost_line_text = refl
