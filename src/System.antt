-- ===== src/System.antt =====
-- What the program asks of the operating system: `std::fs`, `std::process::Command`, the clock,
-- the SHA-256 of the `sha2` crate and SQLite's refusals. None of it is code of this repository,
-- so it is a parameter: an unknown state with one field for each call that the program makes.
pub mod Lawful
pub mod Memory
use pkgundo.Prelude.{Text, Result, Bool, ℕ, List, Option, ◌≡◌}

abbrev pub Bytes : Type 0
Bytes = List ℕ

-- `fs::Metadata`, as far as it is read. The time is kept as its 64-bit pattern.
pub record FileMeta : Type 0 where
  pub size : ℕ
  pub uid : ℕ
  pub gid : ℕ
  pub mode : ℕ
  pub mtime : ℕ

-- The SQL statements of the source, by which a fault can depend on what is executed.
pub data Statement : Type 0 where
  open_database insert_transaction select_transaction update_transaction insert_mutation
        select_mutations insert_fingerprint select_fingerprint insert_blob select_blob
        insert_archive select_archives insert_service_event select_service_events insert_user_event
        select_user_events track_transaction select_tracked_app insert_tracked_app
        update_tracked_app list_tracked_apps :
      Statement

pub record Os : Type 1 where
  pub State : Type 0
  -- `Path::exists`, which follows links, and the other three tests of a path
  pub exists : State → Text → Bool
  pub is_symlink : State → Text → Bool
  pub is_file : State → Text → Bool
  pub is_dir : State → Text → Bool
  pub read : State → Text → Result Bytes
  pub read_link : State → Text → Result Text
  pub metadata : State → Text → Result FileMeta
  pub symlink_metadata : State → Text → Result FileMeta
  -- the names in a directory
  pub read_dir : State → Text → Result (List Text)
  pub remove_file : Text → State → Result (Unit {0}) × State
  pub remove_dir : Text → State → Result (Unit {0}) × State
  pub create_dir_all : Text → State → Result (Unit {0}) × State
  pub write : Text → Bytes → State → Result (Unit {0}) × State
  pub copy : Text → Text → State → Result (Unit {0}) × State
  pub symlink : Text → Text → State → Result (Unit {0}) × State
  pub set_permissions : Text → ℕ → State → Result (Unit {0}) × State
  pub chown : Text → ℕ → ℕ → State → Result (Unit {0}) × State
  pub lchown : Text → ℕ → ℕ → State → Result (Unit {0}) × State
  -- a program and its arguments; whether it exits with success
  pub command : Text → List Text → State → Result Bool × State
  -- a program and its arguments; whether it exits with success, and what it prints
  pub output : Text → List Text → State → Result (Bool × Text) × State
  -- the clock as RFC 3339 text; reading it may let time pass
  pub now : State → Text × State
  pub sha256 : Bytes → Text
  -- why SQLite refuses a statement, if it does (a locked or unreadable database)
  pub sql_fault : State → Statement → Option Text
