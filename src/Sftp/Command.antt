-- ===== src/Sftp/Command.antt =====
-- tailcat_sftp.go: Filecmd and setstat.
use tailcat_quic.Base.{ℕ, ◌%◌, false, Option, none, some}
use tailcat_quic.Sftp.State.{
  FilePath, FileServeMode, read_only, read_write, write_only, Op, OpenFlags, open_file, mkdir,
  rename, remove, link, symlink, chmod, chtimes, truncate, found, failed, Root, Session, Outcome,
  ok, err, permission_denied, op_unsupported, os, note_op, mark_own, own_path,
}

-- Request.Method
pub data Method : Type 0 where
  setstat_method rename_method rmdir_method remove_method mkdir_method link_method symlink_method :
      Method
  unknown_method : Method

-- sftp.FileAttrFlags and sftp.FileStat. An owner is never applied.
pub record Attrs : Type 0 where
  pub permissions : Option ℕ
  pub acmodtime : Option (ℕ × ℕ)
  pub size : Option ℕ

-- Request; the paths are relative to the root already.
pub record Request : Type 0 where
  pub method : Method
  pub filepath : FilePath
  pub target : FilePath
  pub attrs : Attrs

-- os.O_WRONLY
abbrev pub write_only_open : OpenFlags
write_only_open = record {
  also_read = false;
  append = false;
  creat = false;
  trunc = false;
  excl = false;
}

module _ (root : Root) where
  -- One call of the root.
  unfoldable pub call : Op → Session → Outcome (Unit {0}) × Session
  call op s =
      (elim (root.answer s.trace op) [ found _ ↦ ok tt | failed e ↦ err (os e) ], note_op op s)

  -- Go on if the call succeeded.
  unfoldable pub and_then :
      Outcome (Unit {0}) × Session
      → (Session → Outcome (Unit {0}) × Session)
      → Outcome (Unit {0}) × Session
  and_then (ok _, s) k = k s
  and_then (err e, s) k = (err e, s)

  unfoldable pub set_permissions : FilePath → Option ℕ → Session → Outcome (Unit {0}) × Session
  unfolding call
  set_permissions p none s = (ok tt, s)
  set_permissions p (some mode) s = call (chmod p (mode % 512)) s

  unfoldable pub set_times : FilePath → Option (ℕ × ℕ) → Session → Outcome (Unit {0}) × Session
  unfolding call
  set_times p none s = (ok tt, s)
  set_times p (some (atime, mtime)) s = call (chtimes p atime mtime) s

  unfoldable pub set_size : FilePath → Option ℕ → Session → Outcome (Unit {0}) × Session
  unfolding call and_then
  set_size p none s = (ok tt, s)
  set_size p (some size) s =
      and_then (call (open_file p write_only_open) s) (λ s'. call (truncate p size) s')

  unfoldable pub setstat : FilePath → Attrs → Session → Outcome (Unit {0}) × Session
  unfolding set_permissions set_times set_size and_then
  setstat p a s =
      and_then (set_permissions p a.permissions s)
        (λ s'. and_then (set_times p a.acmodtime s') (λ s''. set_size p a.size s''))

  unfoldable pub mkdir_own : FilePath → Session → Outcome (Unit {0}) × Session
  unfolding call and_then
  mkdir_own p s = and_then (call (mkdir p) s) (λ s'. (ok tt, mark_own p p s'))

  unfoldable pub setstat_at : Option FilePath → Attrs → Session → Outcome (Unit {0}) × Session
  unfolding setstat
  setstat_at none a s = (err permission_denied, s)
  setstat_at (some actual_path) a s = setstat actual_path a s

  unfoldable pub setstat_own : Request → Session → Outcome (Unit {0}) × Session
  unfolding setstat_at
  setstat_own r s = setstat_at (own_path r.filepath s) r.attrs s

  -- Filecmd in a drop box.
  unfoldable pub drop_box_command :
      FileServeMode → Method → Request → Session → Outcome (Unit {0}) × Session
  unfolding mkdir_own setstat_own
  drop_box_command write_only mkdir_method r s = (err permission_denied, s)
  drop_box_command mode mkdir_method r s = mkdir_own r.filepath s
  drop_box_command mode setstat_method r s = setstat_own r s
  drop_box_command mode _ r s = (err permission_denied, s)

  -- Filecmd in read-write mode.
  unfoldable pub full_command : Method → Request → Session → Outcome (Unit {0}) × Session
  unfolding setstat call
  full_command setstat_method r s = setstat r.filepath r.attrs s
  full_command rename_method r s = call (rename r.filepath r.target) s
  full_command rmdir_method r s = call (remove r.filepath) s
  full_command remove_method r s = call (remove r.filepath) s
  full_command mkdir_method r s = call (mkdir r.filepath) s
  full_command link_method r s = call (link r.filepath r.target) s
  full_command symlink_method r s = call (symlink r.filepath r.target) s
  full_command unknown_method r s = (err op_unsupported, s)

  -- The modes of Filecmd.
  unfoldable pub command_in : FileServeMode → Request → Session → Outcome (Unit {0}) × Session
  unfolding drop_box_command full_command
  command_in read_only r s = (err permission_denied, s)
  command_in read_write r s = full_command r.method r s
  command_in mode r s = drop_box_command mode r.method r s

  -- Filecmd
  unfoldable pub file_cmd : Request → Session → Outcome (Unit {0}) × Session
  unfolding command_in
  file_cmd r s = command_in s.mode r s
