-- ===== src/Paths.antt =====
-- Where the program keeps its configuration (crates/conductor/src/main.rs) and its database
-- (crates/conductor/src/db.rs).
use daemon_choir.Base.{Option, none, some, String, List, [], ◌∷◌, ◌++◌}

-- `PathBuf`: a text, and the names that were pushed behind it, none of which is absolute
pub record PathBuf : Type 0 where
  pub root : String
  pub names : List String

abbrev pub path_from : String → PathBuf
path_from text = record { root = text; names = [] }

abbrev pub push : PathBuf → String → PathBuf
push p name = record p { names = p.names ++ (name ∷ []) }

-- `std::env::var` of the two variables that the program reads
pub record Variables : Type 0 where
  pub home : Option String
  pub xdg_data_home : Option String

abbrev home_of : Variables → String
home_of env = elim env.home [ none ↦ "/home/user" | some home ↦ home ]

-- `resolved_config_path`
unfoldable pub resolved_config_path : Option String → Variables → PathBuf
resolved_config_path (some path) env = path_from path
resolved_config_path none env =
    push (push (push (path_from (home_of env)) ".config") "daemon-choir") "daemon-choir.config.toml"

abbrev base_dir : Variables → PathBuf
base_dir env = elim env.xdg_data_home [
  | some dir ↦ path_from dir
  | none ↦ push (push (path_from (home_of env)) ".local") "share"
]

-- `db_path`
unfoldable pub db_path : Option PathBuf → Variables → PathBuf
db_path (some path) env = path
db_path none env = push (base_dir env) "daemon-choir"
