-- ===== src/System/Ending.antt =====
-- The end of `main` of main.rs: what it waits for, and what it does then.
use daemon_choir.Base.{
  ◌≡◌, refl, ap, subst, Bool, true, false, ◌||◌, Option, none, some, List, ltb, if◌then◌else◌, ◌==◌,
}
use daemon_choir.Float.{F64}
use daemon_choir.Config.{Config, MappingRule}
use daemon_choir.Events.{RawEvent}
use daemon_choir.Metrics.{StateSnapshot}
use daemon_choir.Sync.{Sender, Receiver}
use daemon_choir.Probes
use daemon_choir.Probes.{Aya, ProbeManager, start}
use daemon_choir.Mapping.{MappedParam}
use daemon_choir.Db.{Sqlite}
use daemon_choir.Api.{AppState}
use daemon_choir.System.Start.{Sockets, launched, wired, launch}
use daemon_choir.System.Launched.{launched-eq}
use daemon_choir.System.Safety.{Reach}
use daemon_choir.System.Asked.{shutdowns, Reach-Asked}
use daemon_choir.System.{System}

-- what `shutdown_signal` is resolved by
pub data Signal : Type 0 where
  interrupt terminate : Signal

-- `main` at its last `select!`: it waits, or it has stopped, with the probe manager that it leaves.
pub data Main (Tx : Type 0) : Type 0 where
  awaits : Main Tx
  stopped : ProbeManager Tx → Main Tx

module _ {F Conn Tx : Type 0} where
  -- `tokio::select!` on the signal and `shutdown_rx`, and the end
  unfoldable pub await_end : Option Signal → AppState F Conn → ProbeManager Tx → Main Tx
  unfolding Probes.shutdown
  await_end (some signal) app manager = stopped (Probes.shutdown manager)
  await_end none app manager =
      if ltb 0 app.shutdown_requests then stopped (Probes.shutdown manager) else awaits

abbrev pub is_sent : Option Signal → Bool
is_sent none = false
is_sent (some signal) = true

module _ {F Raw Snap Par Packet Conn Bpf Program : Type 0} ⦃f : F64 F⦄
    ⦃raw_tx : Sender RawEvent Raw⦄ ⦃raw_rx : Receiver RawEvent Raw⦄
    ⦃snap_tx : Sender (StateSnapshot F) Snap⦄ ⦃snap_rx : Receiver (StateSnapshot F) Snap⦄
    ⦃par_tx : Sender (List (MappedParam F)) Par⦄ ⦃par_rx : Receiver (List (MappedParam F)) Par⦄
    (sql : Sqlite F Conn) (aya : Aya Bpf Program) where
  launched-unasked :
      (config : Config F) (simulate : Bool) (opened : Option Conn) (bind : Sockets)
      {s : System F Raw Snap Par Packet Conn}
      → launch Packet sql aya config simulate opened bind ≡ launched s
      → s.app.shutdown_requests ≡ 0
  unfolding launch wired
  launched-unasked config simulate opened bind {s} e =
      subst (λ (t : System F Raw Snap Par Packet Conn). t.app.shutdown_requests ≡ 0)
        (launched-eq (config.daemon.control_api_port == 0) bind.udp
          (bind.tcp config.daemon.control_api_port) (wired Packet sql aya config simulate opened) s
          e)
        refl

  -- Whatever the order of the tasks' rounds since the launch: `main` stops, and tells the probes to, exactly
  -- if there is a signal or one of the requests that the API served was `POST /v1/shutdown` with the
  -- header's value `shutdown`; on nothing else that the tasks, the other requests or the environment do.
  pub launch-stops :
      (Good : MappingRule F → Type 0) (config : Config F) (simulate : Bool) (opened : Option Conn)
      (bind : Sockets) {s t : System F Raw Snap Par Packet Conn} (signal : Option Signal)
      (manager : ProbeManager Raw)
      → launch Packet sql aya config simulate opened bind ≡ launched s
      → (r : Reach sql Good s t)
      → await_end signal t.app manager ≡ (
          if is_sent signal || ltb 0 (shutdowns r)
          then stopped (record manager { shutdown = true })
          else awaits)
  unfolding await_end Probes.shutdown
  launch-stops Good config simulate opened bind (some signal) manager e r = refl
  launch-stops Good config simulate opened bind {t} none manager e r =
      ap (λ n. if ltb 0 n then stopped (record manager { shutdown = true }) else awaits)
        (Reach-Asked sql Good (launched-unasked config simulate opened bind e) r)
