-- ===== src/System/Asked.antt =====
-- How many requests for a shutdown the API handed over, whatever the order of the tasks' rounds.
use daemon_choir.Base.{
  ℕ, ◌+◌, ◌≡◌, refl, subst, Option, none, some, Option-cases, Bool-cases, inl, inr, List, get_elem?,
  str_eq, if◌then◌else◌, arith,
}
use daemon_choir.Float.{F64}
use daemon_choir.Config.{MappingRule}
use daemon_choir.Events.{RawEvent}
use daemon_choir.Metrics.{StateSnapshot}
use daemon_choir.Sync.{Sender, Receiver}
use daemon_choir.Ringbuf.{Consumed, consume}
use daemon_choir.Aggregator
use daemon_choir.Aggregator.{Aggregator, Flow, Input}
use daemon_choir.Mapping.{MappedParam, MappingEngine, Next, map_snapshot}
use daemon_choir.Osc.{World}
use daemon_choir.Db.{Sqlite}
use daemon_choir.Api.{
  AppState, HttpRequest, Disk, route, serve, is_guarded, handle_config_reload,
  handle_config_backends, handle_shutdown, handle_privacy_wipe,
}
use daemon_choir.System.Safety.{performs, Reach, here, then_step}
use daemon_choir.System.{
  System, Outcome, waits, goes, dies, Action, probe_sends, ringbuf_receives, insertion_runs,
  aggregator_receives, aggregator_ticks, snapshot_stored, mapping_receives, osc_receives,
  api_serves, purge_runs, perform, probe_sends_to, after_consume, ringbuf_round, insertion_round,
  after_step, aggregator_round, storing_round, mapping_round, after_mapping, osc_round, engine_of,
}

-- whether a request has the header that a shutdown wants, as a number
abbrev pub asks : {F : Type 0} → HttpRequest F → ℕ
asks (HttpRequest.post_shutdown none) = 0
asks (HttpRequest.post_shutdown (some header)) = if str_eq header "shutdown" then 1 else 0
asks _ = 0

abbrev pub asked : {F Packet : Type 0} → Action F Packet → ℕ
asked (api_serves (request, elapsed_ms)) = asks request
asked _ = 0

the_same : (n : ℕ) → n ≡ n + 0
the_same n = omega arith

module _ {F Conn : Type 0} ⦃f : F64 F⦄ (sql : Sqlite F Conn) where
  route-asks :
      (request : HttpRequest F) (s : AppState F Conn)
      → (route sql request s).1.shutdown_requests ≡ s.shutdown_requests + asks request
  unfolding route handle_config_reload handle_config_backends handle_shutdown handle_privacy_wipe
      is_guarded
  route-asks (HttpRequest.get_status uptime_secs) s = omega arith
  route-asks HttpRequest.get_state s = omega arith
  route-asks HttpRequest.get_voices s = omega arith
  route-asks HttpRequest.get_probes s = omega arith
  route-asks HttpRequest.get_config s = omega arith
  route-asks HttpRequest.get_metrics s = omega arith
  route-asks (HttpRequest.post_reload Disk.unreadable) s = omega arith
  route-asks (HttpRequest.post_reload (Disk.malformed e)) s = omega arith
  route-asks (HttpRequest.post_reload (Disk.parsed config)) s = omega arith
  route-asks (HttpRequest.put_backends new_backends) s = omega arith
  route-asks (HttpRequest.post_shutdown none) s = omega arith
  route-asks (HttpRequest.post_shutdown (some header)) s =
      elim (Bool-cases (str_eq header "shutdown")) [
        | inl e ↦ rw e refl
        | inr e ↦ rw e (omega arith)
      ]
  route-asks (HttpRequest.post_wipe header) s = elim (Bool-cases (is_guarded header "wipe")) [
    | inl e ↦ rw e (omega arith)
    | inr e ↦ rw e (omega arith)
  ]

module _ {F Raw Snap Par Packet Conn : Type 0} ⦃f : F64 F⦄ ⦃raw_tx : Sender RawEvent Raw⦄
    ⦃raw_rx : Receiver RawEvent Raw⦄ ⦃snap_tx : Sender (StateSnapshot F) Snap⦄
    ⦃snap_rx : Receiver (StateSnapshot F) Snap⦄ ⦃par_tx : Sender (List (MappedParam F)) Par⦄
    ⦃par_rx : Receiver (List (MappedParam F)) Par⦄ where
  -- so many requests for a shutdown were handed over, if the task goes on
  abbrev Asked : ℕ → Outcome (System F Raw Snap Par Packet Conn) → Type 0
  Asked n waits = Unit
  Asked n (goes s) = s.app.shutdown_requests ≡ n
  Asked n (dies task) = Unit

  none-Asked :
      (n : ℕ) (o : Outcome (System F Raw Snap Par Packet Conn)) → Asked n o → Asked (n + 0) o
  none-Asked n o h = subst (λ k. Asked k o) (the_same n) h

  after_consume-Asked :
      (s : System F Raw Snap Par Packet Conn) (raw' : Raw) (c : Consumed Raw)
      → Asked s.app.shutdown_requests (after_consume s raw' c)
  after_consume-Asked s raw' (Consumed.next c) = refl
  after_consume-Asked s raw' (Consumed.exited c) = tt

  ringbuf-Asked :
      (s : System F Raw Snap Par Packet Conn) (o : Option (RawEvent × Raw))
      → Asked s.app.shutdown_requests (ringbuf_round s o)
  unfolding ringbuf_round
  ringbuf-Asked s none = tt
  ringbuf-Asked s (some (event, raw')) = after_consume-Asked s raw' (consume s.consumer event)

  probe-Asked :
      (s : System F Raw Snap Par Packet Conn) (i : ℕ) (e : RawEvent) (now_us : ℕ)
      → Asked s.app.shutdown_requests (probe_sends_to s i e now_us)
  unfolding probe_sends_to
  probe-Asked s i e now_us = elim (Option-cases (get_elem? s.app.probes_stats i)) [
    | inl q ↦ rw (q, probe_sends_to) tt
    | inr (p, q) ↦ rw (q, probe_sends_to) refl
  ]

  insertion-Asked :
      (sql : Sqlite F Conn) (s : System F Raw Snap Par Packet Conn) (i : ℕ)
      → Asked s.app.shutdown_requests (insertion_round sql s i)
  unfolding insertion_round
  insertion-Asked sql s i = elim (Option-cases (get_elem? s.consumer.insertions i)) [
    | inl q ↦ rw (q, insertion_round) tt
    | inr (event, q) ↦ rw (q, insertion_round) refl
  ]

  after_step-Asked :
      (s : System F Raw Snap Par Packet Conn) (o : Flow (Aggregator F Snap Snap))
      → Asked s.app.shutdown_requests (after_step s o)
  after_step-Asked s (Flow.running a) = refl
  after_step-Asked s (Flow.stopped a) = tt
  after_step-Asked s Flow.panicked = tt

  receiving-Asked :
      (s : System F Raw Snap Par Packet Conn) (o : Option (RawEvent × Raw))
      → Asked s.app.shutdown_requests (aggregator_round s o)
  unfolding aggregator_round
  receiving-Asked s none = tt
  receiving-Asked s (some (event, tx')) =
      after_step-Asked (record s { consumer = record s.consumer { aggregator_tx = tx' } })
        (Aggregator.step s.aggregator (Input.received event))

  storing-Asked :
      (sql : Sqlite F Conn) (s : System F Raw Snap Par Packet Conn) (d : Option Snap)
      → Asked s.app.shutdown_requests (storing_round sql s d)
  unfolding storing_round
  storing-Asked sql s none = tt
  storing-Asked sql s (some db_tx) = elim (Option-cases (snap_rx.recv db_tx)) [
    | inl q ↦ rw (q, storing_round) tt
    | inr ((snapshot, db_tx'), q) ↦ rw (q, storing_round) refl
  ]

  mapped-Asked :
      (s : System F Raw Snap Par Packet Conn) (tx' : Snap) (n : Next (MappingEngine F Par))
      → Asked s.app.shutdown_requests (after_mapping s tx' n)
  mapped-Asked s tx' (Next.goes_on m) = refl
  mapped-Asked s tx' (Next.exits m) = tt
  mapped-Asked s tx' Next.panics = tt

  mapping-Asked :
      (s : System F Raw Snap Par Packet Conn) (o : Option (StateSnapshot F × Snap))
      → Asked s.app.shutdown_requests (mapping_round s o)
  unfolding mapping_round
  mapping-Asked s none = tt
  mapping-Asked s (some (snapshot, tx')) = mapped-Asked s tx' (map_snapshot (engine_of s) snapshot)

  osc-Asked :
      (s : System F Raw Snap Par Packet Conn) (w : World F Packet)
      (o : Option (List (MappedParam F) × Par))
      → Asked s.app.shutdown_requests (osc_round s w o)
  unfolding osc_round
  osc-Asked s w none = tt
  osc-Asked s w (some (ps, params')) = refl

  perform-Asked :
      (sql : Sqlite F Conn) (s : System F Raw Snap Par Packet Conn) (a : Action F Packet)
      → Asked (s.app.shutdown_requests + asked a) (perform sql s a)
  unfolding perform serve
  perform-Asked sql s (probe_sends i e now_us) =
      none-Asked s.app.shutdown_requests _ (probe-Asked s i e now_us)
  perform-Asked sql s ringbuf_receives = none-Asked s.app.shutdown_requests _ (ringbuf-Asked s _)
  perform-Asked sql s (insertion_runs i) =
      none-Asked s.app.shutdown_requests _ (insertion-Asked sql s i)
  perform-Asked sql s aggregator_receives =
      none-Asked s.app.shutdown_requests _ (receiving-Asked s _)
  perform-Asked sql s (aggregator_ticks now_us) =
      none-Asked s.app.shutdown_requests _ (after_step-Asked s _)
  perform-Asked sql s snapshot_stored = none-Asked s.app.shutdown_requests _ (storing-Asked sql s _)
  perform-Asked sql s mapping_receives = none-Asked s.app.shutdown_requests _ (mapping-Asked s _)
  perform-Asked sql s (osc_receives w) = none-Asked s.app.shutdown_requests _ (osc-Asked s w _)
  perform-Asked sql s (api_serves (request, elapsed_ms)) = route-asks sql request s.app
  perform-Asked sql s (purge_runs now_us) =
      none-Asked s.app.shutdown_requests (perform sql s (purge_runs now_us)) refl

  -- how many requests of a run ask for a shutdown, with its header
  abbrev pub shutdowns :
      {sql : Sqlite F Conn} {Good : MappingRule F → Type 0}
      {s t : System F Raw Snap Par Packet Conn}
      → Reach sql Good s t
      → ℕ
  shutdowns here = 0
  shutdowns (then_step r (performs a ok e)) = shutdowns r + asked a

  pub Reach-Asked :
      (sql : Sqlite F Conn) (Good : MappingRule F → Type 0)
      {s t : System F Raw Snap Par Packet Conn}
      → s.app.shutdown_requests ≡ 0
      → (r : Reach sql Good s t) → t.app.shutdown_requests ≡ shutdowns r
  Reach-Asked sql Good z here = z
  Reach-Asked sql Good z (then_step {t} r (performs a ok e)) =
      subst (Asked (shutdowns r + asked a)) e (
        subst (λ n. Asked (n + asked a) (perform sql t a)) (Reach-Asked sql Good z r)
          (perform-Asked sql t a))
