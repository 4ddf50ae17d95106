-- ===== src/Osc.antt =====
-- crates/conductor/src/osc.rs: the task that sends parameters to the sound engines, and its counters.
pub mod Histogram
pub mod Timetag
pub mod Accounting
use daemon_choir.Base.{
  ℕ, suc, ◌-◌, Bool, true, false, ◌&&◌, Option, none, some, String, List, [], ◌∷◌, ◌++◌,
  if◌then◌else◌, ltb, leb, add64, map,
}
use daemon_choir.Float.{F64}
use daemon_choir.Config.{OscBackendConfig}
use daemon_choir.Mapping.{MappedParam}
use daemon_choir.Sync.{RwLock, read}
use Histogram.{PrometheusHistogram, observe}
use Timetag.{Duration, OscTime, osc_timetag, as_micros}

pub record OscMetrics : Type 0 where
  pub osc_dispatch_total : ℕ
  pub osc_dispatch_success_total : ℕ

-- `OscPacket::Bundle` of `OscPacket::Message`s with one float argument each
pub record OscMessage (F : Type 0) : Type 0 where
  pub addr : String
  pub arg : F

pub record OscBundle (F : Type 0) : Type 0 where
  pub timetag : OscTime
  pub content : List (OscMessage F)

-- What the task asks of the rosc crate, of the UDP socket and of the clock in one round:
-- `rosc::encoder::encode`, where `none` is an error; whether `socket.send_to`, at this call of the round,
-- counted from 0, takes the packet for an address; `as f32`; and the time before and after sending.
pub record World (F Packet : Type 0) : Type 0 where
  pub encode : OscBundle F → Option Packet
  pub send_to : ℕ → Packet → String → Bool
  pub as_f32 : F → F
  pub now : Duration
  pub later : Duration

-- `self`, with what its `Arc`s point to, and the packets that the socket took, oldest first
pub record OscDispatcher (F Packet : Type 0) : Type 0 where
  pub backends : RwLock (List OscBackendConfig)
  pub metrics : OscMetrics
  pub latency_histogram : PrometheusHistogram
  pub snapshot_timestamp_us : ℕ
  pub delivered : List (String × Packet)

module _ {F Packet : Type 0} ⦃f : F64 F⦄ where
  -- the bundle of a window
  unfoldable pub bundle : World F Packet → List (MappedParam F) → OscBundle F
  bundle w params = record {
    timetag = osc_timetag w.now;
    content = map (λ p. record { addr = p.osc_address; arg = w.as_f32 p.value }) params;
  }

  -- one round of the loop over the backends
  unfoldable pub send_one :
      World F Packet
      → ℕ
      → Packet
      → OscDispatcher F Packet
      → OscBackendConfig
      → OscDispatcher F Packet
  send_one w attempt packet d backend =
      let total = add64 d.metrics.osc_dispatch_total 1 in
      let success = d.metrics.osc_dispatch_success_total in
      if w.send_to attempt packet backend.address
      then record d {
        metrics = record {
          osc_dispatch_total = total;
          osc_dispatch_success_total = add64 success 1;
        };
        delivered = d.delivered ++ ((backend.address, packet) ∷ []);
      }
      else record d {
        metrics = record { osc_dispatch_total = total; osc_dispatch_success_total = success };
      }

  -- the loop, from this attempt of the round on
  unfoldable pub send_all :
      World F Packet
      → ℕ
      → Packet
      → OscDispatcher F Packet
      → List OscBackendConfig
      → OscDispatcher F Packet
  unfolding send_one
  send_all w attempt packet d [] = d
  send_all w attempt packet d (b ∷ bs) =
      send_all w (suc attempt) packet (send_one w attempt packet d b) bs

  -- the latency of the round, from the snapshot's timestamp on
  unfoldable pub observe_latency : World F Packet → OscDispatcher F Packet → OscDispatcher F Packet
  observe_latency w d =
      let now_us = as_micros w.later in
      let start_us = d.snapshot_timestamp_us in
      if ltb 0 start_us && leb start_us now_us
      then record d {
        latency_histogram =
            observe d.latency_histogram (f.div (f.of_nat (now_us - start_us)) (f.of_nat 1000));
      }
      else d

  -- the rest of a round, by what `self.backends.read()` and `encode` give
  unfoldable pub dispatch_to :
      World F Packet
      → OscDispatcher F Packet
      → Option (List OscBackendConfig)
      → Option Packet
      → OscDispatcher F Packet
  unfolding send_all observe_latency
  dispatch_to w d none _ = d
  dispatch_to w d (some active_backends) none = d
  dispatch_to w d (some active_backends) (some packet) =
      observe_latency w (send_all w 0 packet d active_backends)

  -- one round of the loop of `run`, for a list of parameters received
  unfoldable pub dispatch :
      World F Packet → OscDispatcher F Packet → List (MappedParam F) → OscDispatcher F Packet
  unfolding dispatch_to bundle
  dispatch w d [] = d
  dispatch w d (p ∷ ps) = dispatch_to w d (read d.backends) (w.encode (bundle w (p ∷ ps)))

  -- `run`, on the parameters received until the channel is closed, each with its world
  unfoldable pub run :
      OscDispatcher F Packet → List (World F Packet × List (MappedParam F)) → OscDispatcher F Packet
  unfolding dispatch
  run d [] = d
  run d ((w, ps) ∷ rest) = run (dispatch w d ps) rest
