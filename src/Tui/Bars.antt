-- ===== src/Tui/Bars.antt =====
-- The bars of the dashboard fit, and show their numbers in order.
use daemon_choir.Base.{
  ℕ, zero, suc, ◌+◌, ◌-◌, ◌≤◌, ◌≡◌, refl, ◌∙◌, ap, subst, some, String, List, [], ◌∷◌, ◌++◌,
  if◌then◌else◌, ◌==◌, leb_iff, arith, length, length-append, length-replicate, replicate, map,
  map-map, All,
}
use daemon_choir.Float.{F64, IsIeee, ◌≼◌, one}
use daemon_choir.Metrics.{StateSnapshot, MetricMap}
use daemon_choir.Metrics.Laws.{IsNormal}
use daemon_choir.Probes.{ProbeStats}
use daemon_choir.Api.{StatusResponse}
use daemon_choir.Tui.Draw.{
  Bar, Screen, probe_line, width, filled, draw_bar, draw_bars, draw_dashboard,
}

-- how many of the characters are `#`
abbrev pub hashes : List ℕ → ℕ
hashes [] = 0
hashes (c ∷ cs) = (if c == b'#' then 1 else 0) + hashes cs

hashes-dots : (n : ℕ) → hashes (replicate n b'.') ≡ 0
hashes-dots zero = refl
hashes-dots (suc n) = omega (arith, hashes-dots n)

hashes-filled : (m n : ℕ) → hashes (replicate m b'#' ++ replicate n b'.') ≡ m
hashes-filled zero n = hashes-dots n
hashes-filled (suc m) n = omega (arith, hashes-filled m n)

cells-length :
    (n : ℕ) → n ≤ width → length (replicate {A = ℕ} n b'#' ++ replicate (width - n) b'.') ≡ width
cells-length n le =
    let whole = length-append (replicate {A = ℕ} n b'#') (replicate (width - n) b'.') in
    let front = length-replicate {A = ℕ} n b'#' in
    let back = length-replicate {A = ℕ} (width - n) b'.' in omega (arith, whole, front, back)

module _ {F : Type 0} ⦃f : F64 F⦄ (laws : IsIeee F) where
  open f use {of_nat, mul, round, to_u64}

  filled_mono : (x y : F) → x ≼ y → filled x ≤ filled y
  filled_mono x y h = laws.to_u64_mono _ _ (
      laws.round_mono _ _ (
        subst (λ z. z ≼ mul y (of_nat width)) (laws.mul_comm (of_nat width) x)
          (subst (λ z. mul (of_nat width) x ≼ z) (laws.mul_comm (of_nat width) y)
            (laws.mul_mono (of_nat width) x y (laws.nat_lt 0 30 (omega arith) (omega arith))
              (laws.nat_finite 30 (omega arith)) h))))

  filled-one : filled {F = F} one ≡ width
  filled-one =
      ap (λ z. to_u64 (round z)) (laws.mul_comm one (of_nat width) ∙ laws.mul_one (of_nat width))
      ∙ ap to_u64 (laws.round_nat 30 (omega arith))
      ∙ laws.to_u64_nat 30 (omega arith)

  filled-le-width : (x : F) → x ≼ one → filled x ≤ width
  filled-le-width x h = subst (λ n. filled x ≤ n) filled-one (filled_mono x one h)

  -- a bar that shows this number
  pub record Shows (label : String) (x : F) (b : Bar F) : Type 0 where
    pub named : b.label ≡ label
    pub fits : length b.cells ≡ width
    pub marks : hashes b.cells ≡ filled x
    pub val : b.val ≡ x

  draw_bar-Shows :
      (label : String) (x : F)
      → x ≼ one
      → (b : Bar F) × (draw_bar label x ≡ some b) × Shows label x b
  unfolding draw_bar
  draw_bar-Shows label x h =
      let le : filled x ≤ 30 = filled-le-width x h in
      (
        _,
        rw ((leb_iff (filled x) width).1 le) refl,
        record {
          named = refl;
          fits = cells-length (filled x) le;
          marks = hashes-filled (filled x) (width - filled x);
          val = refl;
        },
      )

  -- the six bars of the metrics
  pub record ShowsMetrics (m : MetricMap F) (bars : List (Bar F)) : Type 0 where
    pub vals : map (λ b. b.val) bars ≡ (
        m.cpu_sched_latency_p95 ∷ m.cpu_sched_context_rate ∷ m.mem_reclaim_pressure
        ∷ m.net_tx_bytes_norm ∷ m.net_rx_bytes_norm ∷ m.proc_exec_rate ∷ [])
    pub fit : All (λ b. length b.cells ≡ width) bars

  draw_bars-ShowsMetrics :
      (m : MetricMap F)
      → IsNormal m
      → (bars : List (Bar F)) × (draw_bars m ≡ some bars) × ShowsMetrics m bars
  unfolding draw_bars
  draw_bars-ShowsMetrics m (n1, n2, n3, n4, n5, n6) =
      let (b1, e1, s1) = draw_bar-Shows "CPU Latency (p95) " m.cpu_sched_latency_p95 n1.1 in
      let (b2, e2, s2) = draw_bar-Shows "CPU Context Switches" m.cpu_sched_context_rate n2.1 in
      let (b3, e3, s3) = draw_bar-Shows "Memory Pressure     " m.mem_reclaim_pressure n3.1 in
      let (b4, e4, s4) = draw_bar-Shows "Network Tx Rate     " m.net_tx_bytes_norm n4.1 in
      let (b5, e5, s5) = draw_bar-Shows "Network Rx Rate     " m.net_rx_bytes_norm n5.1 in
      let (b6, e6, s6) = draw_bar-Shows "Process Exec Rate   " m.proc_exec_rate n6.1 in
      (
        b1 ∷ b2 ∷ b3 ∷ b4 ∷ b5 ∷ b6 ∷ [],
        rw (e1, e2, e3, e4, e5, e6) refl,
        record {
          vals = rw (s1.val, s2.val, s3.val, s4.val, s5.val, s6.val) refl;
          fit = (s1.fits, (s2.fits, (s3.fits, (s4.fits, (s5.fits, (s6.fits, tt))))));
        },
      )

  -- For numbers that obey IEEE 754: of a snapshot with metrics between 0 and 1 the dashboard is drawn
  -- without a panic, and shows the six metrics in their order, each with a bar of 30 characters, the
  -- version and the status, and a line for each probe.
  pub draw_dashboard-shows :
      (s : StatusResponse) (p : List ProbeStats) (st : StateSnapshot F)
      → IsNormal st.metrics
      → (drawn : Screen F) × (draw_dashboard s p st ≡ some drawn)
        × ShowsMetrics st.metrics drawn.bars
        × (drawn.version ≡ s.version)
        × (drawn.state ≡ s.state)
        × (drawn.uptime_secs ≡ s.uptime_secs)
        × (drawn.backends_active ≡ s.backends_active)
        × (map (λ l. l.name) drawn.probe_lines ≡ map (λ q. q.name) p)
        × (map (λ l. l.events_lost) drawn.probe_lines ≡ map (λ q. q.events_lost) p)
  unfolding draw_dashboard
  draw_dashboard-shows s p st normal =
      let (bars, e, shows) = draw_bars-ShowsMetrics st.metrics normal in
      (
        _,
        rw e refl,
        shows,
        refl,
        refl,
        refl,
        refl,
        map-map (λ l. l.name) probe_line p,
        map-map (λ l. l.events_lost) probe_line p,
      )
