-- ===== src/Probes/Simulated.antt =====
-- Every event that a simulated probe makes is delivered or counted as lost, while the channel is open.
use daemon_choir.Base.{
  ℕ, ◌/◌, ◌≡◌, ◌≢◌, ◌≤◌, refl, sym, ◌∙◌, arith, true, false, Option, none, some, String, List, [],
  ◌∷◌, ◌++◌, All, All-append, add64, Option-cases, Bool-cases, inl, inr, length, ◌>>=◌,
  if◌then◌else◌,
}
use mathlib.Core.List.{append-nil}
use daemon_choir.Float.{F64}
use daemon_choir.Within.{done}
use daemon_choir.Events.{ProbeId, RawEvent, EventPayload}
use daemon_choir.Sync.{Sender, TrySend, IsMpsc}
use daemon_choir.Sync.Bounded.{try_send-Delivers, try_send-ne-closed}
use daemon_choir.Probes.Pump.{Counters, count_result}
use daemon_choir.Probes.Accounting.{
  Accounts, HasRoom, no_events, then_more, counted, room-keeps, room-le,
}
use daemon_choir.Probes.Simulator.{
  continues, simulated_payload, simulated_probe, simulated_event, match_result, simulate_one,
  simulate,
}

made_probe :
    (payload : Option EventPayload) (named : Option ProbeId) (now_ns : ℕ) (probe : ProbeId)
    (event : RawEvent)
    → named ≡ some probe
    → (payload >>= λ l.
        named >>= λ p. some (record { probe = p; timestamp_ns = now_ns; payload = l }))
      ≡ some event
    → event.probe ≡ probe
made_probe none named now_ns probe event n e = absurd (grind arith)
made_probe (some l) none now_ns probe event n e = absurd (grind arith)
made_probe (some l) (some p) now_ns probe event n e = grind arith

abbrev listed : {A : Type 0} → Option A → List A
listed none = []
listed (some a) = a ∷ []

listed-le_one : {A : Type 0} (o : Option A) → length (listed o) ≤ 1
listed-le_one none = omega arith
listed-le_one (some a) = omega arith

-- The events that a simulated probe makes in rounds at these times, after so many rounds.
abbrev pub made : (F : Type 0) ⦃f : F64 F⦄ → String → ℕ → List ℕ → List RawEvent
made F name counter [] = []
made F name counter (now_ns ∷ rest) =
    listed (simulated_event F name (add64 counter 1) now_ns) ++ made F name (add64 counter 1) rest

module _ {Tx : Type 0} ⦃tx : Sender RawEvent Tx⦄ where
  match_result-continues :
      (t : TrySend) (now_us : ℕ) (c : Counters Tx)
      → t ≢ TrySend.closed
      → match_result t now_us c ≡ continues (count_result t now_us c)
  unfolding match_result
  match_result-continues TrySend.sent now_us c n = refl
  match_result-continues TrySend.full now_us c n = refl
  match_result-continues TrySend.closed now_us c n = absurd (n refl)

  count_result-tx :
      (t : TrySend) (now_us : ℕ) (c : Counters Tx) → (count_result t now_us c).tx ≡ c.tx
  unfolding count_result
  count_result-tx TrySend.sent now_us c = refl
  count_result-tx TrySend.full now_us c = refl
  count_result-tx TrySend.closed now_us c = refl

module _ (F : Type 0) ⦃f : F64 F⦄ {Tx : Type 0} ⦃tx : Sender RawEvent Tx⦄
    (laws : IsMpsc RawEvent Tx) where
  -- one round while the channel is open
  open_round :
      (name : String) (counter now_ns : ℕ) (c : Counters Tx)
      → tx.is_closed c.tx ≡ false
      → HasRoom 1 c
      → (c' : Counters Tx) × (simulate_one F name counter now_ns c ≡ continues c')
        × Accounts (listed (simulated_event F name counter now_ns)) c c'
        × (tx.is_closed c'.tx ≡ false)
  unfolding simulate_one
  open_round name counter now_ns c open_ room =
      elim (Option-cases (simulated_event F name counter now_ns)) [
        | inl e ↦ (c, rw (e, simulate_one) refl, rw e (no_events c), open_)
        | inr (event, e) ↦
            let r = (tx.try_send c.tx event).0 in
            let s' = (tx.try_send c.tx event).1 in
            let sent = record c { tx = s' } in
            (
              count_result r (now_ns / 1000) sent,
              rw (e, simulate_one)
                  (match_result-continues r (now_ns / 1000) sent
                    (try_send-ne-closed laws c.tx event open_)),
              rw e (counted event (now_ns / 1000) c r s' room (try_send-Delivers laws c.tx event)),
              rw (count_result-tx r (now_ns / 1000) sent) ((laws.send_keeps c.tx event).1 ∙ open_),
            )
      ]

  open-Accounts :
      (name : String) (counter : ℕ) (c : Counters Tx) (times : List ℕ)
      → tx.is_closed c.tx ≡ false
      → HasRoom (length times) c
      → Accounts (made F name counter times) c (simulate F name counter c times)
  unfolding simulate
  open-Accounts name counter c [] open_ room = no_events c
  open-Accounts name counter c (now_ns ∷ rest) open_ room =
      let one = room-le 1 (length (now_ns ∷ rest)) c (omega arith) room in
      let (c', goes, first, open') = open_round name (add64 counter 1) now_ns c open_ one in
      let room' = room-keeps _ (length rest) c c' (listed-le_one _) room first in
      rw (goes, simulate)
        (then_more _ (made F name (add64 counter 1) rest) c c' _ first
          (open-Accounts name (add64 counter 1) c' rest open' room'))

  -- the first event finds the channel closed
  closed-Accounts :
      (name : String) (counter : ℕ) (c : Counters Tx) (times : List ℕ)
      → tx.is_closed c.tx ≡ true
      → Accounts [] c (simulate F name counter c times)
  unfolding simulate simulate_one match_result
  closed-Accounts name counter c [] shut = no_events c
  closed-Accounts name counter c (now_ns ∷ rest) shut =
      elim (Option-cases (simulated_event F name (add64 counter 1) now_ns)) [
        | inl e ↦
            rw (e, simulate, simulate_one) (closed-Accounts name (add64 counter 1) c rest shut)
        | inr (event, e) ↦
            let (t, q) = laws.send_closed c.tx event shut in
            rw (e, t, simulate, simulate_one)
              (record {
                delivered = [];
                lost = 0;
                queue = q ∙ sym (append-nil (tx.queued c.tx));
                total = omega arith;
                losses = omega arith;
                cumulative = omega arith;
                all = refl;
                among = done;
              })
      ]

  listed-probe :
      (name : String) (probe : ProbeId) (counter now_ns : ℕ)
      → simulated_probe name ≡ some probe
      → All (λ e. e.probe ≡ probe) (listed (simulated_event F name counter now_ns))
  unfolding simulated_event
  listed-probe name probe counter now_ns named =
      elim (Option-cases (simulated_event F name counter now_ns)) [
        | inl e ↦ rw e tt
        | inr (event, e) ↦ rw e (
          made_probe (simulated_payload F name counter) (simulated_probe name) now_ns probe event
              named e,
          tt,
        )
      ]

  made-probe :
      (name : String) (probe : ProbeId) (counter : ℕ) (times : List ℕ)
      → simulated_probe name ≡ some probe
      → All (λ e. e.probe ≡ probe) (made F name counter times)
  made-probe name probe counter [] named = tt
  made-probe name probe counter (now_ns ∷ rest) named =
      All-append _ (listed (simulated_event F name (add64 counter 1) now_ns)) _
        (listed-probe name probe (add64 counter 1) now_ns named)
        (made-probe name probe (add64 counter 1) rest named)

  -- A channel that behaves as documented, a probe of one of the four names, no counter near 2^64: if
  -- the channel is open, each of the events that the rounds of a simulated probe make is either behind
  -- the channel's queue, in their order and none twice, and in `events_total`, or in both
  -- `events_lost` and the shared counter; if it is closed, no counter changes and nothing is
  -- delivered. All the events have this probe's name.
  pub simulate-Accounts :
      (name : String) (probe : ProbeId) (counter : ℕ) (c : Counters Tx) (times : List ℕ)
      → simulated_probe name ≡ some probe
      → HasRoom (length times) c
      → Accounts
          (if tx.is_closed c.tx then [] else made F name counter times)
          c
          (simulate F name counter c times)
        × All (λ e. e.probe ≡ probe) (made F name counter times)
  simulate-Accounts name probe counter c times named room = elim (Bool-cases (tx.is_closed c.tx)) [
    | inl e ↦
        (rw e (closed-Accounts name counter c times e), made-probe name probe counter times named)
    | inr e ↦ (
      rw e (open-Accounts name counter c times e room),
      made-probe name probe counter times named,
    )
  ]
