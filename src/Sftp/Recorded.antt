-- ===== src/Sftp/Recorded.antt =====
-- Commands record as their own only what they have made.
use tailcat_quic.Base.{ℕ, ◌≡◌, refl, inl, Option, none, some}
use tailcat_quic.Sftp.State.{
  FilePath, FileServeMode, read_only, read_write, write_only, write_only_plus, Op, open_file, mkdir,
  Answer, found, failed, Root, Session, Outcome, ok, err, os, note_op, mark_own, own_path,
}
use tailcat_quic.Sftp.Command.{
  Method, setstat_method, mkdir_method, rename_method, rmdir_method, remove_method, link_method,
  symlink_method, unknown_method, Attrs, Request, write_only_open, call, and_then, set_permissions,
  set_times, set_size, setstat, mkdir_own, setstat_at, setstat_own, drop_box_command, full_command,
  command_in,
}
use tailcat_quic.Sftp.History.{Owns, note-Owns, mark_own-Owns}

module _ (root : Root) where
  call-Owns : (op : Op) (s : Session) → Owns root s → Owns root (call root op s).1
  unfolding call
  call-Owns op s h = note-Owns root op s h

  and_then-Owns :
      (x : Outcome (Unit {0}) × Session) (k : Session → Outcome (Unit {0}) × Session)
      → Owns root x.1
      → ((t : Session) → Owns root t → Owns root (k t).1)
      → Owns root (and_then root x k).1
  unfolding and_then
  and_then-Owns (ok u, t) k h g = g t h
  and_then-Owns (err e, t) k h g = h

  set_permissions-Owns :
      (p : FilePath) (o : Option ℕ) (s : Session)
      → Owns root s
      → Owns root (set_permissions root p o s).1
  unfolding set_permissions
  set_permissions-Owns p none s h = h
  set_permissions-Owns p (some m) s h = call-Owns _ s h

  set_times-Owns :
      (p : FilePath) (o : Option (ℕ × ℕ)) (s : Session)
      → Owns root s
      → Owns root (set_times root p o s).1
  unfolding set_times
  set_times-Owns p none s h = h
  set_times-Owns p (some (a, m)) s h = call-Owns _ s h

  set_size-Owns :
      (p : FilePath) (o : Option ℕ) (s : Session) → Owns root s → Owns root (set_size root p o s).1
  unfolding set_size
  set_size-Owns p none s h = h
  set_size-Owns p (some n) s h =
      and_then-Owns (call root (open_file p write_only_open) s) (λ t. call root (Op.truncate p n) t)
        (call-Owns (open_file p write_only_open) s h) (λ t g. call-Owns (Op.truncate p n) t g)

  setstat-Owns :
      (p : FilePath) (a : Attrs) (s : Session) → Owns root s → Owns root (setstat root p a s).1
  unfolding setstat
  setstat-Owns p a s h =
      and_then-Owns (set_permissions root p a.permissions s) _
        (set_permissions-Owns p a.permissions s h)
        (λ t g.
          and_then-Owns (set_times root p a.acmodtime t) (λ u. set_size root p a.size u)
            (set_times-Owns p a.acmodtime t g) (λ u i. set_size-Owns p a.size u i))

  setstat_own-Owns : (r : Request) (s : Session) → Owns root s → Owns root (setstat_own root r s).1
  unfolding setstat_own setstat_at
  setstat_own-Owns r s h = at (own_path r.filepath s)
    where
      at : (o : Option FilePath) → Owns root (setstat_at root o r.attrs s).1
      at none = h
      at (some p) = setstat-Owns p r.attrs s h

  mkdir_own-Owns : (p : FilePath) (s : Session) → Owns root s → Owns root (mkdir_own root p s).1
  unfolding mkdir_own call and_then
  mkdir_own-Owns p s h = by_answer (root.answer s.trace (mkdir p)) refl
    where
      by_answer :
          (a : Answer (Unit {0}))
          → root.answer s.trace (mkdir p) ≡ a
          → Owns root
              (and_then root
                (elim a [ found _ ↦ ok tt | failed e ↦ err (os e) ], note_op (mkdir p) s)
                (λ t. (ok tt, mark_own p p t))).1
      by_answer (found u) e =
          mark_own-Owns root p p (note_op (mkdir p) s) (inl (refl, e))
            (note-Owns root (mkdir p) s h)
      by_answer (failed e) g = note-Owns root (mkdir p) s h

  full_command-Owns :
      (m : Method) (r : Request) (s : Session) → Owns root s → Owns root (full_command root m r s).1
  unfolding full_command
  full_command-Owns setstat_method r s h = setstat-Owns r.filepath r.attrs s h
  full_command-Owns rename_method r s h = call-Owns _ s h
  full_command-Owns rmdir_method r s h = call-Owns _ s h
  full_command-Owns remove_method r s h = call-Owns _ s h
  full_command-Owns mkdir_method r s h = call-Owns _ s h
  full_command-Owns link_method r s h = call-Owns _ s h
  full_command-Owns symlink_method r s h = call-Owns _ s h
  full_command-Owns unknown_method r s h = h

  flat_command-Owns :
      (m : Method) (r : Request) (s : Session)
      → Owns root s
      → Owns root (drop_box_command root write_only m r s).1
  unfolding drop_box_command
  flat_command-Owns mkdir_method r s h = h
  flat_command-Owns setstat_method r s h = setstat_own-Owns r s h
  flat_command-Owns rename_method r s h = h
  flat_command-Owns rmdir_method r s h = h
  flat_command-Owns remove_method r s h = h
  flat_command-Owns link_method r s h = h
  flat_command-Owns symlink_method r s h = h
  flat_command-Owns unknown_method r s h = h

  recursive_command-Owns :
      (m : Method) (r : Request) (s : Session)
      → Owns root s
      → Owns root (drop_box_command root write_only_plus m r s).1
  unfolding drop_box_command
  recursive_command-Owns mkdir_method r s h = mkdir_own-Owns r.filepath s h
  recursive_command-Owns setstat_method r s h = setstat_own-Owns r s h
  recursive_command-Owns rename_method r s h = h
  recursive_command-Owns rmdir_method r s h = h
  recursive_command-Owns remove_method r s h = h
  recursive_command-Owns link_method r s h = h
  recursive_command-Owns symlink_method r s h = h
  recursive_command-Owns unknown_method r s h = h

  pub command_in-Owns :
      (mode : FileServeMode) (r : Request) (s : Session)
      → Owns root s
      → Owns root (command_in root mode r s).1
  unfolding command_in
  command_in-Owns read_only r s h = h
  command_in-Owns read_write r s h = full_command-Owns r.method r s h
  command_in-Owns write_only r s h = flat_command-Owns r.method r s h
  command_in-Owns write_only_plus r s h = recursive_command-Owns r.method r s h
