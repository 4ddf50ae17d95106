-- ===== src/Db/Retention.antt =====
-- What the deletions of db.rs leave in the tables.
use daemon_choir.Base.{
  ℕ, ◌+◌, ◌*◌, ◌/◌, ◌^◌, ◌<◌, true, Option, none, some, List, [], ◌∷◌, ◌≡◌, refl, sym, ◌∙◌, ap,
  Bool-cases, inl, inr, filter, filter-ext, saturating_sub, saturating_mul, ltb, leb, not, arith,
}
use daemon_choir.Db.{
  Param, Statement, Sqlite, WipeResult, run_or_disable, purge_older_than, purge_snapshots, wipe,
  wipe_snapshots,
}

-- the rows of the two tables with their timestamps, as the statements see them
pub record EventRow : Type 0 where
  pub timestamp_ns : ℕ
  pub id : ℕ

pub record SnapshotRow : Type 0 where
  pub timestamp_us : ℕ
  pub id : ℕ

-- What SQLite documents of the `DELETE` statements, where they succeed, for some view of a
-- connection's tables.
pub record IsSqlite {F Conn : Type 0} (sql : Sqlite F Conn) : Type 0 where
  pub events : Conn → List EventRow
  pub snapshots : Conn → List SnapshotRow
  pub delete_events_before :
      (c : Conn) (bound : ℕ)
      → (sql.execute c Statement.delete_events_before (Param.integer bound ∷ [])).0 ≡ true
      → (events (sql.execute c Statement.delete_events_before (Param.integer bound ∷ [])).1
          ≡ filter (λ r. not (ltb r.timestamp_ns bound)) (events c))
        × (snapshots (sql.execute c Statement.delete_events_before (Param.integer bound ∷ [])).1
            ≡ snapshots c)
  pub delete_snapshots_before :
      (c : Conn) (bound : ℕ)
      → (sql.execute c Statement.delete_snapshots_before (Param.integer bound ∷ [])).0 ≡ true
      → (snapshots (sql.execute c Statement.delete_snapshots_before (Param.integer bound ∷ [])).1
          ≡ filter (λ r. not (ltb r.timestamp_us bound)) (snapshots c))
        × (events (sql.execute c Statement.delete_snapshots_before (Param.integer bound ∷ [])).1
            ≡ events c)
  pub delete_events :
      (c : Conn)
      → (sql.execute c Statement.delete_events []).0 ≡ true
      → (events (sql.execute c Statement.delete_events []).1 ≡ [])
        × (snapshots (sql.execute c Statement.delete_events []).1 ≡ snapshots c)
  pub delete_snapshots :
      (c : Conn)
      → (sql.execute c Statement.delete_snapshots []).0 ≡ true
      → (snapshots (sql.execute c Statement.delete_snapshots []).1 ≡ [])
        × (events (sql.execute c Statement.delete_snapshots []).1 ≡ events c)

-- A statement that leaves the database enabled succeeded.
run_or_disable-some :
    {F Conn : Type 0} (sql : Sqlite F Conn) (c c' : Conn) (s : Statement) (params : List (Param F))
    → run_or_disable sql c s params ≡ some c'
    → ((sql.execute c s params).0 ≡ true) × ((sql.execute c s params).1 ≡ c')
unfolding run_or_disable
run_or_disable-some sql c c' s params e = grind arith

purge_snapshots-some :
    {F Conn : Type 0} (sql : Sqlite F Conn) (cutoff_us : ℕ) (first : Option Conn) (c' : Conn)
    → purge_snapshots sql cutoff_us first ≡ some c'
    → (m : Conn) × (first ≡ some m)
      × (run_or_disable sql m Statement.delete_snapshots_before (Param.integer cutoff_us ∷ [])
          ≡ some c')
unfolding purge_snapshots
purge_snapshots-some sql cutoff_us none c' e = absurd (let q = e in grind arith)
purge_snapshots-some sql cutoff_us (some m) c' e = (m, refl, e)

young :
    (now_us retention_us ts_ns : ℕ)
    → now_us * 1000 < 2 ^ 64
    → not (ltb ts_ns (saturating_mul (saturating_sub now_us retention_us) 1000))
      ≡ leb now_us (ts_ns / 1000 + retention_us)
young now_us retention_us ts_ns room = ground arith

young_us :
    (now_us retention_us ts_us : ℕ)
    → not (ltb ts_us (saturating_sub now_us retention_us)) ≡ leb now_us (ts_us + retention_us)
young_us now_us retention_us ts_us = ground arith

-- an enabled connection with no rows
abbrev pub IsEmptied : {F Conn : Type 0} {sql : Sqlite F Conn} → IsSqlite sql → Option Conn → Type 0
IsEmptied laws none = ⊥
IsEmptied laws (some c) = (laws.events c ≡ []) × (laws.snapshots c ≡ [])

module _ {F Conn : Type 0} (sql : Sqlite F Conn) (laws : IsSqlite sql) where
  -- For a database that behaves as SQLite documents, at a time whose nanoseconds fit into a
  -- `u64`: a purge that leaves the database enabled keeps, in their order, exactly the events and
  -- the snapshots whose age in microseconds is at most the retention, though one table counts in
  -- nanoseconds and the other in microseconds.
  pub purge_older_than-keeps :
      (c c' : Conn) (now_us retention_us : ℕ)
      → now_us * 1000 < 2 ^ 64
      → (purge_older_than sql (record { conn = some c }) now_us retention_us).conn ≡ some c'
      → (laws.events c'
          ≡ filter (λ r. leb now_us (r.timestamp_ns / 1000 + retention_us)) (laws.events c))
        × (laws.snapshots c'
            ≡ filter (λ r. leb now_us (r.timestamp_us + retention_us)) (laws.snapshots c))
  unfolding purge_older_than purge_snapshots
  purge_older_than-keeps c c' now_us retention_us room e =
      let cutoff_us = saturating_sub now_us retention_us in
      let (m, f, e') = purge_snapshots-some sql cutoff_us _ c' e in
      let (ok_1, to_m) = run_or_disable-some sql c m Statement.delete_events_before _ f in
      let (ok_2, to_c') = run_or_disable-some sql m c' Statement.delete_snapshots_before _ e' in
      let (events_1, snapshots_1) = laws.delete_events_before c _ ok_1 in
      let (snapshots_2, events_2) = laws.delete_snapshots_before m _ ok_2 in
      (
        ap laws.events (sym to_c')
            ∙ events_2
            ∙ ap laws.events (sym to_m)
            ∙ events_1
            ∙ filter-ext _ _ (laws.events c) (λ r. young now_us retention_us r.timestamp_ns room),
        ap laws.snapshots (sym to_c')
            ∙ snapshots_2
            ∙ ap (filter _) (ap laws.snapshots (sym to_m) ∙ snapshots_1)
            ∙ filter-ext _ _ (laws.snapshots c) (λ r. young_us now_us retention_us r.timestamp_us),
      )

  -- For a database that behaves as SQLite documents and is enabled: if a wipe reports success,
  -- the database stays enabled and both tables are empty; if it reports a failure, the database
  -- is disabled.
  pub wipe-empties :
      (c : Conn)
      → ((wipe sql (record { conn = some c })).0 ≡ WipeResult.ok
          → IsEmptied laws (wipe sql (record { conn = some c })).1.conn)
        × ((wipe sql (record { conn = some c })).0 ≡ WipeResult.failed
            → (wipe sql (record { conn = some c })).1.conn ≡ none)
  unfolding wipe wipe_snapshots run_or_disable
  wipe-empties c =
      let first = sql.execute c Statement.delete_events [] in
      let second = sql.execute first.1 Statement.delete_snapshots [] in
      elim (Bool-cases first.0) [
        | inl e ↦ elim (Bool-cases second.0) [
          | inl f ↦
              let (events_1, snapshots_1) = laws.delete_events c e in
              let (snapshots_2, events_2) = laws.delete_snapshots first.1 f in
              rw (e, f) ((λ _. (events_2 ∙ events_1, snapshots_2)), (λ q. absurd (grind arith)))
          | inr f ↦ rw (e, f) ((λ q. absurd (grind arith)), (λ _. refl))
        ]
        | inr e ↦ rw e ((λ q. absurd (grind arith)), (λ _. refl))
      ]
