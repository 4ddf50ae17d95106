-- ===== src/Db/Open.antt =====
-- `Database::new` of db.rs, from the directory to the migrations.
use daemon_choir.Base.{
  ◌++◌, map, ◌*◌, ℕ, Bool, true, false, Option, none, some, List, [], ◌∷◌, ◌≡◌, refl, ap, ◌∙◌, sym,
  if◌then◌else◌,
}
use daemon_choir.Paths.{PathBuf, push, Variables, db_path}
use daemon_choir.Db.{
  Param, Statement, create_events, create_snapshots, Sqlite, Database, new, init_migrations,
  migrate, run_or_disable,
}
use daemon_choir.Db.Disabled.{
  Operation, apply_all, execute_all, execute_enabled, execute_enabled-append, scripts,
  apply_all-scripts,
}

-- What the program asks of the file system: `create_dir_all`, `Connection::open`, the mode in a file's
-- `metadata`, and `set_permissions`.
pub record FileSystem (Fs Conn : Type 0) : Type 0 where
  pub create_dir_all : PathBuf → Fs → Bool × Fs
  pub open_connection : PathBuf → Fs → Option Conn × Fs
  pub metadata : PathBuf → Fs → Option ℕ
  pub set_permissions : PathBuf → ℕ → Fs → Bool × Fs

-- 0o600
abbrev pub owner_only : ℕ
owner_only = 6 * 64

module _ {F Conn Fs : Type 0} (sql : Sqlite F Conn) (files : FileSystem Fs Conn) where
  open files use {create_dir_all, open_connection, metadata, set_permissions}

  -- the file's mode, where an error is only logged
  unfoldable pub restrict : PathBuf → Fs → Fs
  restrict file fs = elim (metadata file fs) [
    | none ↦ fs
    | some mode ↦ (set_permissions file owner_only fs).1
  ]

  -- the database and the files after `Connection::open`
  unfoldable pub with_connection : PathBuf → Option Conn × Fs → Database Conn × Fs
  unfolding restrict new
  with_connection file (none, fs) = (new sql none, fs)
  with_connection file (some c, fs) = (new sql (some c), restrict file fs)

  -- `Database::new`
  unfoldable pub open_database : Option PathBuf → Variables → Fs → Database Conn × Fs
  unfolding with_connection db_path
  open_database path env fs =
      let dir = db_path path env in
      let (made, fs') = create_dir_all dir fs in
      if made
      then with_connection (push dir "state.db") (open_connection (push dir "state.db") fs')
      else (record { conn = none }, fs')

  -- what is opened: the file in the directory, if that is there
  abbrev pub opened : Option PathBuf → Variables → Fs → Option Conn
  opened path env fs =
      let dir = db_path path env in
      let (made, fs') = create_dir_all dir fs in
      if made then (open_connection (push dir "state.db") fs').0 else none

  -- statements without parameters
  abbrev pub plain : List Statement → List (Statement × List (Param F))
  plain qs = map (λ q. (q, [])) qs

  -- the statements after one that succeeded or disabled the database
  ran :
      (qs : List Statement) (succeeded : Bool) (c : Conn)
      → ((conn : Option Conn) → migrate sql qs conn ≡ execute_enabled sql (plain qs) conn)
      → migrate sql qs (if succeeded then some c else none)
        ≡ (if succeeded then execute_all sql (plain qs) c else none)
  ran qs true c h = h (some c)
  ran qs false c h = h none

  migrate-plain :
      (qs : List Statement) (conn : Option Conn)
      → migrate sql qs conn ≡ execute_enabled sql (plain qs) conn
  unfolding migrate run_or_disable
  migrate-plain [] none = refl
  migrate-plain [] (some c) = refl
  migrate-plain (q ∷ qs) none = refl
  migrate-plain (q ∷ qs) (some c) =
      ran qs (sql.execute c q []).0 (sql.execute c q []).1 (migrate-plain qs)

  with_connection-conn :
      (file : PathBuf) (o : Option Conn × Fs) → (with_connection file o).0.conn ≡ (new sql o.0).conn
  unfolding with_connection
  with_connection-conn file (none, fs) = refl
  with_connection-conn file (some c, fs) = refl

  opened-conn :
      (file : PathBuf) (made : Bool) (fs : Fs)
      → (if made
          then with_connection file (open_connection file fs)
          else (record { conn = none }, fs)).0.conn
        ≡ execute_enabled sql
            (plain (create_events ∷ create_snapshots ∷ []))
            (if made then (open_connection file fs).0 else none)
  unfolding new init_migrations
  opened-conn file true fs =
      with_connection-conn file (open_connection file fs)
      ∙ migrate-plain (create_events ∷ create_snapshots ∷ []) (open_connection file fs).0
  opened-conn file false fs = refl

  -- Wherever the database is to lie and whatever the file system does: after any operations on it, the
  -- connection is what running the two migrations and all the operations' statements in order gives,
  -- from the first to the last or to the first that fails, on what was opened; and where the directory
  -- cannot be had or the file cannot be opened, no statement is ever run.
  pub open_database-scripts :
      (path : Option PathBuf) (env : Variables) (fs : Fs) (os : List (Operation F))
      → (apply_all sql (open_database path env fs).0 os).conn
        ≡ execute_enabled sql
            (plain (create_events ∷ create_snapshots ∷ []) ++ scripts sql os)
            (opened path env fs)
  unfolding open_database
  open_database-scripts path env fs os =
      let dir = db_path path env in
      apply_all-scripts sql (open_database path env fs).0 os
      ∙ ap (execute_enabled sql (scripts sql os))
          (opened-conn (push dir "state.db") (create_dir_all dir fs).0 (create_dir_all dir fs).1)
      ∙ sym (
          execute_enabled-append sql (plain (create_events ∷ create_snapshots ∷ []))
            (scripts sql os) (opened path env fs))
