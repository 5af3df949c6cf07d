-- ===== src/Sftp.antt =====
-- tailcat_sftp.go and tailcat_files.go: the rooted SFTP file service and its serving modes.
-- The os.Root and the kernel behind it are a parameter, which answers each operation from all those
-- before; a session keeps the trace of its operations, newest first. path.Clean is a parameter too.
pub mod State
pub mod Write
pub mod Command
pub mod Adds
pub mod Confined
pub mod History
pub mod Recorded
pub mod Created
pub mod Own
use tailcat_quic.Base.{
  ltb, leb, ◌==◌, if◌then◌else◌, ltb→lt, lt→ltb, leb→le, ==_iff, Bool-cases, Option-cases, Eq, beq,
  beq_refl, eq_of_beq, not_rejected, was_required, or-eq_false, not-eq_false, some-eq, length,
  get_elem?, get_or, take, drop, replicate, length-append, take-append-drop, length-take,
  length-drop, take-length_append, drop-length_append, take-of_length, drop-of_length,
  length-replicate, All, any, take-two_fields, take-drop-two_fields, drop-drop-two_fields,
  three_fields, drop-drop, four_fields, codes, bytes_eq, bytes_eq_sound, bytes_eq_self,
  bytes_eq_iff, slice, has_prefix, IsByte, lookup, insert, erase, lookup-insert, lookup-erase,
  length-erase-le, length-erase-present, length-insert-absent, ℕ, zero, suc, ◌+◌, ◌-◌, ◌*◌, ◌/◌,
  ◌%◌, ◌^◌, ◌≤◌, ◌<◌, max, min, compare, Ordering, ◌≡◌, refl, sym, ap, ap₂, ◌∙◌, subst, ◌≢◌, ◌↔◌,
  ◌⊎◌, inl, inr, Bool, true, false, not, ◌&&◌, ◌||◌, Option, none, some, List, [], ◌∷◌, ◌++◌, map,
  append_assoc, append-nil, arith, ℕ_discrete,
}
use tailcat_quic.Sftp.State.{
  FilePath, FileServeMode, read_only, read_write, write_only, write_only_plus, Op, Info, OsError,
  Answer, Root, Session, Outcome, ok, err, permission_denied, no_such_file, op_unsupported, os,
  found, failed, open_read, is_write_only, own_path, note_op,
}

module _ (root : Root) (clean : FilePath → FilePath) where
  -- `strings.TrimPrefix(path.Clean(requestPath), "/")`, or "." for the root.
  unfoldable pub rel : FilePath → FilePath
  rel request_path = root_name (trim (clean request_path))
    where
      trim : FilePath → FilePath
      trim [] = []
      trim (c ∷ p) = if c == b'/' then p else c ∷ p

      root_name : FilePath → FilePath
      root_name [] = b'.' ∷ []
      root_name (c ∷ p) = c ∷ p

  -- Fileread
  unfoldable pub file_read : FilePath → Session → Outcome (Unit {0}) × Session
  unfolding rel
  file_read p s = if is_write_only s.mode then (err permission_denied, s) else (
    elim (root.answer s.trace (open_read (rel p))) [ found _ ↦ ok tt | failed e ↦ err (os e) ],
    note_op (open_read (rel p)) s,
  )

  -- The drop-box part of stat, for a path that this session did not create.
  unfoldable pub reveal : FileServeMode → FilePath → Answer Info → Outcome Info
  reveal mode p (failed e) = err no_such_file
  reveal mode p (found i) = if i.is_dir then ok i else err no_such_file

  pub plain : Answer Info → Outcome Info
  plain (found i) = ok i
  plain (failed e) = err (os e)

  -- stat, with statf one of Stat and Lstat.
  unfoldable pub stat : Bool → FilePath → Session → Outcome Info × Session
  unfolding plain
  stat follow p s =
      if not (is_write_only s.mode)
      then (plain (root.stat s.trace follow p), note_op (Op.stat follow p) s)
      else elim (own_path p s) [
        | some actual ↦ (plain (root.stat s.trace follow actual), note_op (Op.stat follow actual) s)
        | none ↦
            if is_flat s.mode && not (bytes_eq p (b'.' ∷ []))
            then (err no_such_file, s)
            else (reveal s.mode p (root.stat s.trace follow p), note_op (Op.stat follow p) s)
      ]
    where
      is_flat : FileServeMode → Bool
      is_flat write_only = true
      is_flat _ = false

  -- Filelist with method "List": Open, then Readdir.
  unfoldable pub list_dir : FilePath → Session → Outcome (List Info) × Session
  unfolding rel
  list_dir p s =
      if is_write_only s.mode
      then (err permission_denied, s)
      else elim (root.answer s.trace (open_read (rel p))) [
        | failed e ↦ (err (os e), note_op (open_read (rel p)) s)
        | found _ ↦ (
          elim (root.read_dir (open_read (rel p) ∷ s.trace) (rel p)) [
            | found is ↦ ok is
            | failed e ↦ err (os e)
          ],
          note_op (Op.read_dir (rel p)) (note_op (open_read (rel p)) s),
        )
      ]

  -- Readlink
  unfoldable pub read_link : FilePath → Session → Outcome FilePath × Session
  unfolding rel
  read_link p s = if is_write_only s.mode then (err permission_denied, s) else (
    elim (root.read_link s.trace (rel p)) [ found t ↦ ok t | failed e ↦ err (os e) ],
    note_op (Op.read_link (rel p)) s,
  )

  -- Filelist with method "Stat", and Lstat.
  unfoldable pub file_stat : Bool → FilePath → Session → Outcome Info × Session
  unfolding rel
  file_stat follow request_path s = stat follow (rel request_path) s

-- listerAt.ListAt: what is copied into a buffer of the given size, and whether io.EOF is reported.
unfoldable pub list_at : List Info → ℕ → ℕ → List Info × Bool
list_at l size off =
    if leb (length l) off
    then ([], true)
    else (let n = min size (length l - off) in (take n (drop off l), ltb n size))
