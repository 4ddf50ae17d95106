-- ===== src/Osc/Accounting.antt =====
-- What one round of the OSC task sends and counts.
use daemon_choir.Base.{
  ℕ, suc, Bool, true, false, ◌+◌, ◌%◌, ◌^◌, ◌≡◌, refl, sym, ap, ◌∙◌, arith, some, String, List, [],
  ◌∷◌, ◌++◌, map, length-append, map-append, ltb, leb, ◌&&◌, length, Bool-cases, inl, inr,
}
use mathlib.Core.List.{append-nil, append_assoc}
use daemon_choir.Float.{F64}
use daemon_choir.Config.{OscBackendConfig}
use daemon_choir.Mapping.{MappedParam}
use daemon_choir.Sync.{RwLock, read}
use daemon_choir.Osc.Timetag.{as_micros}
use daemon_choir.Osc.{
  World, OscDispatcher, bundle, send_one, send_all, observe_latency, dispatch, dispatch_to,
}

-- the list, with this backend before it if its packet was taken
abbrev pub keep_if : Bool → OscBackendConfig → List OscBackendConfig → List OscBackendConfig
keep_if true b bs = b ∷ bs
keep_if false b bs = bs

keep_if-append :
    (taken : Bool) (b : OscBackendConfig) (bs : List OscBackendConfig)
    → keep_if taken b bs ≡ keep_if taken b [] ++ bs
keep_if-append true b bs = refl
keep_if-append false b bs = refl

module _ {F Packet : Type 0} where
  -- the backends whose packet the socket takes, from this attempt of a round on
  abbrev pub accepting : World F Packet → ℕ → Packet → List OscBackendConfig → List OscBackendConfig
  accepting w attempt packet [] = []
  accepting w attempt packet (b ∷ bs) =
      keep_if (w.send_to attempt packet b.address) b (accepting w (suc attempt) packet bs)

  -- What sending one packet to some backends leaves, from this attempt of a round on.
  pub record Dispatched (w : World F Packet) (attempt : ℕ) (packet : Packet)
      (bs : List OscBackendConfig) (d d' : OscDispatcher F Packet) : Type 0 where
    pub total :
        d'.metrics.osc_dispatch_total % 2 ^ 64 ≡ (d.metrics.osc_dispatch_total + length bs) % 2 ^ 64
    pub success :
        d'.metrics.osc_dispatch_success_total % 2 ^ 64
        ≡ (d.metrics.osc_dispatch_success_total + length (accepting w attempt packet bs)) % 2 ^ 64
    pub sent :
        d'.delivered ≡ d.delivered ++ map (λ b. (b.address, packet)) (accepting w attempt packet bs)
    pub same_backends : d'.backends ≡ d.backends

  none_sent :
      (w : World F Packet) (attempt : ℕ) (packet : Packet) (d : OscDispatcher F Packet)
      → Dispatched w attempt packet [] d d
  none_sent w attempt packet d = record {
    total = omega arith;
    success = omega arith;
    sent = sym (append-nil d.delivered);
    same_backends = refl;
  }

  then_sent :
      (w : World F Packet) (attempt : ℕ) (packet : Packet) (b : OscBackendConfig)
      (bs : List OscBackendConfig) (d d1 d2 : OscDispatcher F Packet)
      → Dispatched w attempt packet (b ∷ []) d d1
      → Dispatched w (suc attempt) packet bs d1 d2
      → Dispatched w attempt packet (b ∷ bs) d d2
  then_sent w attempt packet b bs d d1 d2 p q =
      let one : List OscBackendConfig = accepting w attempt packet (b ∷ []) in
      let rest : List OscBackendConfig = accepting w (suc attempt) packet bs in
      let both : accepting w attempt packet (b ∷ bs) ≡ one ++ rest =
        keep_if-append (w.send_to attempt packet b.address) b rest in
      let lengths : length (b ∷ bs) ≡ length (b ∷ []) + length bs = length-append (b ∷ []) bs in
      let accepted = length-append one rest in
      let mapped =
        map-append {B = String × Packet} (λ (b : OscBackendConfig). (b.address, packet)) one rest in
      let p1 = p.total in
      let q1 = q.total in
      let p2 = p.success in
      let q2 = q.success in
      record {
        total = omega arith;
        success = rw both (omega arith);
        sent =
            rw (both, mapped)
              (q.sent
                ∙ ap (λ l. l ++ map (λ b. (b.address, packet)) rest) p.sent
                ∙ append_assoc d.delivered _ _);
        same_backends = q.same_backends ∙ p.same_backends;
      }

module _ {F Packet : Type 0} ⦃f : F64 F⦄ where
  send_one-Dispatched :
      (w : World F Packet) (attempt : ℕ) (packet : Packet) (d : OscDispatcher F Packet)
      (b : OscBackendConfig)
      → Dispatched w attempt packet (b ∷ []) d (send_one w attempt packet d b)
  unfolding send_one
  send_one-Dispatched w attempt packet d b =
      elim (Bool-cases (w.send_to attempt packet b.address)) [
        | inl e ↦
            rw (e, send_one)
              (record {
                total = omega arith;
                success = rw e (omega arith);
                sent = rw e refl;
                same_backends = refl;
              })
        | inr e ↦
            rw (e, send_one)
              (record {
                total = omega arith;
                success = rw e (omega arith);
                sent = rw e (sym (append-nil d.delivered));
                same_backends = refl;
              })
      ]

  send_all-Dispatched :
      (w : World F Packet) (attempt : ℕ) (packet : Packet) (d : OscDispatcher F Packet)
      (bs : List OscBackendConfig)
      → Dispatched w attempt packet bs d (send_all w attempt packet d bs)
  unfolding send_all
  send_all-Dispatched w attempt packet d [] = none_sent w attempt packet d
  send_all-Dispatched w attempt packet d (b ∷ bs) =
      then_sent w attempt packet b bs d (send_one w attempt packet d b) _
        (send_one-Dispatched w attempt packet d b)
        (send_all-Dispatched w (suc attempt) packet (send_one w attempt packet d b) bs)

  observed :
      (w : World F Packet) (attempt : ℕ) (packet : Packet) (bs : List OscBackendConfig)
      (d d' : OscDispatcher F Packet)
      → Dispatched w attempt packet bs d d'
      → Dispatched w attempt packet bs d (observe_latency w d')
  unfolding observe_latency
  observed w attempt packet bs d d' h =
      elim (Bool-cases
        (ltb 0 d'.snapshot_timestamp_us && leb d'.snapshot_timestamp_us (as_micros w.later))) [
          | inl e ↦
              rw (e, observe_latency)
                (record {
                  total = h.total;
                  success = h.success;
                  sent = h.sent;
                  same_backends = h.same_backends;
                })
          | inr e ↦ rw (e, observe_latency) h
        ]

  -- A round with parameters, a list of backends that can be read and a bundle that encodes: one and the
  -- same packet is offered to every backend in order, and those whose socket takes it get it, once for
  -- each entry, whatever became of the others; the attempts grow by the number of backends
  -- and the successes by the number of packets taken (both counters modulo 2^64).
  pub dispatch-Dispatched :
      (w : World F Packet) (d : OscDispatcher F Packet) (p : MappedParam F)
      (ps : List (MappedParam F)) (bs : List OscBackendConfig) (packet : Packet)
      → d.backends ≡ RwLock.healthy bs
      → w.encode (bundle w (p ∷ ps)) ≡ some packet
      → Dispatched w 0 packet bs d (dispatch w d (p ∷ ps))
  unfolding dispatch dispatch_to
  dispatch-Dispatched w d p ps bs packet h e =
      let sends : dispatch w d (p ∷ ps) ≡ observe_latency w (send_all w 0 packet d bs) =
        ap (λ l. dispatch_to w d (read l) (w.encode (bundle w (p ∷ ps)))) h
        ∙ ap (λ o. dispatch_to w d (some bs) o) e in
      rw sends
        (observed w 0 packet bs d (send_all w 0 packet d bs) (send_all-Dispatched w 0 packet d bs))
