-- ===== src/Sftp/Write.antt =====
-- tailcat_sftp.go: Filewrite and the server-chosen names of the drop boxes.
use tailcat_quic.Base.{
  ◌==◌, if◌then◌else◌, any, bytes_eq, ℕ, Bool, true, false, not, ◌&&◌, ◌||◌, Option, none, some, [],
  ◌∷◌, ◌++◌,
}
use tailcat_quic.Sftp.State.{
  FilePath, FileServeMode, read_only, read_write, write_only, OpenFlags, open_file, exists, Answer,
  found, failed, Root, Session, Outcome, ok, err, permission_denied, no_randomness, os, note_op,
  mark_own,
}

-- sftp.FileOpenFlags
pub record PFlags : Type 0 where
  pub read : Bool
  pub write : Bool
  pub append : Bool
  pub creat : Bool
  pub trunc : Bool
  pub excl : Bool

-- os.O_WRONLY|os.O_CREATE|os.O_EXCL
abbrev pub exclusive : OpenFlags
exclusive = record { also_read = false; append = false; creat = true; trunc = false; excl = true }

-- The part after the last occurrence of a byte, and the part before it.
unfoldable pub split_last : ℕ → FilePath → Option (FilePath × FilePath)
split_last c [] = none
split_last c (x ∷ p) = elim (split_last c p) [
  | some (a, b) ↦ some (x ∷ a, b)
  | none ↦ if x == c then some ([], p) else none
]

-- uniqueUploadPath of a cleaned relative path, from the time stamp and the hexadecimal random part;
-- `none` is a failing random source. path.Ext keeps its dot, and path.Join adds the slash back.
unfoldable pub unique_base : FilePath → FilePath → FilePath → FilePath
unique_base stamp random base = elim (split_last b'.' base) [
  | some (stem, ext) ↦ stem ++ (b'.' ∷ (stamp ++ (b'.' ∷ (random ++ (b'.' ∷ ext)))))
  | none ↦ base ++ (b'.' ∷ (stamp ++ (b'.' ∷ random)))
]

unfoldable pub unique_upload_path : FilePath → Option FilePath → FilePath → Option FilePath
unfolding unique_base split_last
unique_upload_path stamp none p = none
unique_upload_path stamp (some random) p = elim (split_last b'/' p) [
  | some (dir, base) ↦ some (dir ++ (b'/' ∷ unique_base stamp random base))
  | none ↦ some (unique_base stamp random p)
]

module _ (root : Root) (stamp : FilePath) (random : Option FilePath) where
  unfoldable pub create : FilePath → Session → Answer (Unit {0})
  create p s = root.answer s.trace (open_file p exclusive)

  abbrev pub noted : FilePath → Session → Session
  noted p s = note_op (open_file p exclusive) s

  -- The end of a drop-box upload: an error, or the new file recorded as the session's own.
  unfoldable pub finish :
      FilePath → FilePath → Answer (Unit {0}) → Session → Outcome (Unit {0}) × Session
  finish requested actual (failed e) s = (err (os e), s)
  finish requested actual (found _) s = (ok tt, mark_own requested actual s)

  -- One exclusive creation under the given name.
  unfoldable pub create_as : FilePath → FilePath → Session → Outcome (Unit {0}) × Session
  unfolding create finish
  create_as requested actual s = finish requested actual (create actual s) (noted actual s)

  -- The creation under the server-chosen name, if there is one.
  unfoldable pub create_named : FilePath → Option FilePath → Session → Outcome (Unit {0}) × Session
  unfolding create_as
  create_named requested none s = (err no_randomness, s)
  create_named requested (some actual) s = create_as requested actual s

  unfoldable pub create_unique : FilePath → Session → Outcome (Unit {0}) × Session
  unfolding create_named
  create_unique requested s = create_named requested (unique_upload_path stamp random requested) s

  -- The recursive drop box: the requested name, and a unique one if it exists.
  unfoldable pub create_or_unique :
      FilePath → Answer (Unit {0}) → Session → Outcome (Unit {0}) × Session
  unfolding create_unique finish
  create_or_unique requested (failed exists) s = create_unique requested s
  create_or_unique requested answer s = finish requested requested answer s

  unfoldable pub has_slash : FilePath → Bool
  has_slash p = any (λ c. c == b'/') p

  unfoldable pub drop_box : FileServeMode → FilePath → Session → Outcome (Unit {0}) × Session
  unfolding create_unique create_or_unique create has_slash
  drop_box write_only p s =
      if bytes_eq p (b'.' ∷ []) || has_slash p
      then (err permission_denied, s)
      else create_unique p s
  drop_box _ p s = create_or_unique p (create p s) (noted p s)

  -- The plain open of the read-write mode.
  unfoldable pub plain_flags : PFlags → OpenFlags
  plain_flags f = record {
    also_read = f.read && f.write;
    append = f.append;
    creat = f.creat;
    trunc = f.trunc;
    excl = f.excl;
  }

  unfoldable pub open_plain : FilePath → PFlags → Session → Outcome (Unit {0}) × Session
  unfolding plain_flags
  open_plain p f s = (
    elim (root.answer s.trace (open_file p (plain_flags f))) [
      | found _ ↦ ok tt
      | failed e ↦ err (os e)
    ],
    note_op (open_file p (plain_flags f)) s,
  )

  -- The modes of Filewrite.
  unfoldable pub write_in :
      FileServeMode → FilePath → PFlags → Session → Outcome (Unit {0}) × Session
  unfolding drop_box open_plain
  write_in read_only p f s = (err permission_denied, s)
  write_in read_write p f s = open_plain p f s
  write_in mode p f s =
      if f.read || (not f.write || not f.creat)
      then (err permission_denied, s)
      else drop_box mode p s

  -- Filewrite, of the path relative to the root.
  unfoldable pub file_write : FilePath → PFlags → Session → Outcome (Unit {0}) × Session
  unfolding write_in
  file_write p f s = write_in s.mode p f s
