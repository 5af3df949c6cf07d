-- ===== src/Sftp/State.antt =====
-- The state of an SFTP session, and the rooted file system that it calls.
use tailcat_quic.Base.{lookup, insert, ℕ, Bool, true, false, Option, List, ◌∷◌, bytes_eq_inst}

abbrev pub FilePath : Type 0
FilePath = List ℕ

-- FileServeMode
pub data FileServeMode : Type 0 where
  read_only read_write write_only write_only_plus : FileServeMode

-- os.O_WRONLY or os.O_RDWR, with the other flags of OpenFile.
pub record OpenFlags : Type 0 where
  pub also_read : Bool
  pub append : Bool
  pub creat : Bool
  pub trunc : Bool
  pub excl : Bool

-- The calls of os.Root, and of the files that it opens.
pub data Op : Type 0 where
  open_read : FilePath → Op
  open_file : FilePath → OpenFlags → Op
  mkdir : FilePath → Op
  rename : FilePath → FilePath → Op
  remove : FilePath → Op
  link : FilePath → FilePath → Op
  symlink : FilePath → FilePath → Op
  chmod : FilePath → ℕ → Op
  chtimes : FilePath → ℕ → ℕ → Op
  truncate : FilePath → ℕ → Op
  stat : Bool → FilePath → Op
  read_dir : FilePath → Op
  read_link : FilePath → Op

pub record Info : Type 0 where
  pub is_dir : Bool
  pub size : ℕ

-- os.ErrExist, or some other error.
pub data OsError : Type 0 where
  exists : OsError
  other : ℕ → OsError

pub data Answer (A : Type 0) : Type 0 where
  found : A → Answer A
  failed : OsError → Answer A

-- What the operating system answers, given the operations before.
pub record Root : Type 0 where
  pub answer : List Op → Op → Answer (Unit {0})
  pub stat : List Op → Bool → FilePath → Answer Info
  pub read_dir : List Op → FilePath → Answer (List Info)
  pub read_link : List Op → FilePath → Answer FilePath

pub data Error : Type 0 where
  permission_denied no_such_file op_unsupported no_randomness : Error
  os : OsError → Error

pub data Outcome (A : Type 0) : Type 0 where
  ok : A → Outcome A
  err : Error → Outcome A

-- rootedFiles, with the trace of its operations.
pub record Session : Type 0 where
  pub mode : FileServeMode
  pub wrote : List (FilePath × FilePath)
  pub trace : List Op

unfoldable pub is_write_only : FileServeMode → Bool
is_write_only write_only = true
is_write_only write_only_plus = true
is_write_only _ = false

abbrev pub note_op : Op → Session → Session
note_op op s = record s { trace = op ∷ s.trace }

-- markOwn
unfoldable pub mark_own : FilePath → FilePath → Session → Session
mark_own requested_path actual_path s = record s {
  wrote = insert ⦃e = bytes_eq_inst⦄ requested_path actual_path s.wrote;
}

-- ownPath
unfoldable pub own_path : FilePath → Session → Option FilePath
own_path p s = lookup ⦃e = bytes_eq_inst⦄ p s.wrote
