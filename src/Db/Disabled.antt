-- ===== src/Db/Disabled.antt =====
-- The first failure disables the database for good: a refinement of db.rs by a list of statements.
use daemon_choir.Base.{
  ℕ, Option, none, some, List, [], ◌∷◌, ◌++◌, ◌≡◌, refl, sym, ◌∙◌, ap, Bool-cases, inl, inr,
  if◌then◌else◌, saturating_sub, saturating_mul,
}
use daemon_choir.Events.{RawEvent, to_string}
use daemon_choir.Metrics.{StateSnapshot}
use daemon_choir.Db.{
  Param, Statement, Sqlite, Database, run_or_disable, insert_event, insert_snapshot,
  purge_older_than, purge_snapshots, wipe, wipe_snapshots,
}

-- the operations on an open database
pub data Operation (F : Type 0) : Type 0 where
  event : RawEvent → Operation F
  snapshot : StateSnapshot F → Operation F
  purge : ℕ → ℕ → Operation F
  wiping : Operation F

module _ {F Conn : Type 0} (sql : Sqlite F Conn) where
  unfoldable pub apply : Database Conn → Operation F → Database Conn
  apply d (event e) = insert_event sql d e
  apply d (snapshot s) = insert_snapshot sql d s
  apply d (purge now_us retention_us) = purge_older_than sql d now_us retention_us
  apply d wiping = (wipe sql d).1

  unfoldable pub apply_all : Database Conn → List (Operation F) → Database Conn
  unfolding apply
  apply_all d [] = d
  apply_all d (o ∷ os) = apply_all (apply d o) os

  -- the statements of an operation, with their parameters
  abbrev pub script : Operation F → List (Statement × List (Param F))
  script (event e) =
      (
        Statement.insert_into_events,
        Param.text (to_string e.probe)
            ∷ Param.integer e.timestamp_ns
            ∷ Param.text (sql.to_json e.payload)
            ∷ [],
      )
      ∷ []
  script (snapshot s) =
      (
        Statement.insert_into_snapshots,
        Param.integer s.timestamp_us
            ∷ Param.real s.metrics.cpu_sched_latency_p95
            ∷ Param.real s.metrics.cpu_sched_context_rate
            ∷ Param.real s.metrics.mem_reclaim_pressure
            ∷ Param.real s.metrics.net_tx_bytes_norm
            ∷ Param.real s.metrics.net_rx_bytes_norm
            ∷ Param.real s.metrics.proc_exec_rate
            ∷ [],
      )
      ∷ []
  script (purge now_us retention_us) =
      let cutoff_us = saturating_sub now_us retention_us in
      (Statement.delete_events_before, Param.integer (saturating_mul cutoff_us 1000) ∷ [])
      ∷ (Statement.delete_snapshots_before, Param.integer cutoff_us ∷ [])
      ∷ []
  script wiping = (Statement.delete_events, []) ∷ (Statement.delete_snapshots, []) ∷ []

  abbrev pub scripts : List (Operation F) → List (Statement × List (Param F))
  scripts [] = []
  scripts (o ∷ os) = script o ++ scripts os

  -- all the statements in order, as long as each succeeds
  abbrev pub execute_all : List (Statement × List (Param F)) → Conn → Option Conn
  execute_all [] c = some c
  execute_all ((s, params) ∷ rest) c =
      let done = execute_all rest (sql.execute c s params).1 in
      if (sql.execute c s params).0 then done else none

  -- the same from a connection that may be disabled
  abbrev pub execute_enabled : List (Statement × List (Param F)) → Option Conn → Option Conn
  execute_enabled l none = none
  execute_enabled l (some c) = execute_all l c

  execute_all-append :
      (l m : List (Statement × List (Param F))) (c : Conn)
      → execute_all (l ++ m) c ≡ execute_enabled m (execute_all l c)
  execute_all-append [] m c = refl
  execute_all-append ((s, params) ∷ rest) m c = elim (Bool-cases (sql.execute c s params).0) [
    | inl e ↦ rw e (execute_all-append rest m (sql.execute c s params).1)
    | inr e ↦ rw e refl
  ]

  execute_enabled-nil : (c : Option Conn) → c ≡ execute_enabled [] c
  execute_enabled-nil none = refl
  execute_enabled-nil (some c) = refl

  pub execute_enabled-append :
      (l m : List (Statement × List (Param F))) (c : Option Conn)
      → execute_enabled (l ++ m) c ≡ execute_enabled m (execute_enabled l c)
  execute_enabled-append l m none = refl
  execute_enabled-append l m (some c) = execute_all-append l m c

  apply-script :
      (conn : Option Conn) (o : Operation F)
      → (apply (record { conn = conn }) o).conn ≡ execute_enabled (script o) conn
  unfolding apply insert_event insert_snapshot purge_older_than purge_snapshots wipe wipe_snapshots
      run_or_disable
  apply-script none (event e) = refl
  apply-script none (snapshot s) = refl
  apply-script none (purge now_us retention_us) = refl
  apply-script none wiping = refl
  apply-script (some c) (event e) = refl
  apply-script (some c) (snapshot s) = refl
  apply-script (some c) (purge now_us retention_us) =
      let first =
        sql.execute c Statement.delete_events_before
          (Param.integer (saturating_mul (saturating_sub now_us retention_us) 1000) ∷ []) in
      elim (Bool-cases first.0) [ inl e ↦ rw e refl | inr e ↦ rw e refl ]
  apply-script (some c) wiping =
      let first = sql.execute c Statement.delete_events [] in
      let second = sql.execute first.1 Statement.delete_snapshots [] in
      elim (Bool-cases first.0) [
        | inl e ↦ elim (Bool-cases second.0) [ inl f ↦ rw (e, f) refl | inr f ↦ rw (e, f) refl ]
        | inr e ↦ rw e refl
      ]

  -- After any operations, the connection is what running all their statements in order gives, from
  -- the first to the last or to the first that fails: a failure disables the database for good, and
  -- no statement runs on a disabled one.
  pub apply_all-scripts :
      (d : Database Conn) (l : List (Operation F))
      → (apply_all d l).conn ≡ execute_enabled (scripts l) d.conn
  unfolding apply_all
  apply_all-scripts d [] = execute_enabled-nil d.conn
  apply_all-scripts d (o ∷ os) =
      apply_all-scripts (apply d o) os
      ∙ ap (execute_enabled (scripts os)) (apply-script d.conn o)
      ∙ sym (execute_enabled-append (script o) (scripts os) d.conn)
