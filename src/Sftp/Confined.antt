-- ===== src/Sftp/Confined.antt =====
-- What each serving mode lets a client do to the files behind the root.
use tailcat_quic.Base.{
  Bool-cases, bytes_eq, ◌≡◌, refl, ◌≢◌, inl, inr, true, not, ◌||◌, Option, none, some, [], ◌∷◌,
}
use tailcat_quic.Sftp.State.{
  other, FilePath, FileServeMode, read_only, read_write, write_only, Op, open_file, exists, Answer,
  found, failed, Root, Session, err, permission_denied, is_write_only, mark_own,
}
use tailcat_quic.Sftp.Adds.{Adds, Adds-trans}
use tailcat_quic.Sftp.{file_read, list_dir, read_link}
use tailcat_quic.Sftp.Write.{
  create_named, write_in, has_slash, PFlags, exclusive, create_as, create_unique, create_or_unique,
  drop_box, file_write, finish, unique_upload_path, create,
}

-- A creation that fails if anything has the name already.
abbrev pub IsExclusive : Op → Type 0
IsExclusive (open_file p f) = f ≡ exclusive
IsExclusive _ = ⊥

module _ (root : Root) (stamp : FilePath) (random : Option FilePath) where
  finish-trace :
      (p q : FilePath) (a : Answer (Unit {0})) (s : Session)
      → ((finish root stamp random p q a s).1.trace ≡ s.trace)
        × ((finish root stamp random p q a s).1.mode ≡ s.mode)
  unfolding finish mark_own
  finish-trace p q (failed e) s = (refl, refl)
  finish-trace p q (found _) s = (refl, refl)

  create_as-Adds :
      (p q : FilePath) (s : Session) → Adds IsExclusive s (create_as root stamp random p q s).1
  unfolding create_as
  create_as-Adds p q s =
      let (t, m) =
        finish-trace p q (create root stamp random q s)
          (record s { trace = open_file q exclusive ∷ s.trace }) in
      record { ops = open_file q exclusive ∷ []; after = t; each = (refl, tt); same_mode = m }

  create_named-Adds :
      (p : FilePath) (o : Option FilePath) (s : Session)
      → Adds IsExclusive s (create_named root stamp random p o s).1
  unfolding create_named
  create_named-Adds p none s = record { ops = []; after = refl; each = tt; same_mode = refl }
  create_named-Adds p (some q) s = create_as-Adds p q s

  create_unique-Adds :
      (p : FilePath) (s : Session) → Adds IsExclusive s (create_unique root stamp random p s).1
  unfolding create_unique
  create_unique-Adds p s = create_named-Adds p (unique_upload_path stamp random p) s

  create_or_unique-Adds :
      (p : FilePath) (a : Answer (Unit {0})) (s : Session)
      → Adds IsExclusive s (create_or_unique root stamp random p a s).1
  unfolding create_or_unique
  create_or_unique-Adds p (failed exists) s = create_unique-Adds p s
  create_or_unique-Adds p (failed (other n)) s = record {
    ops = [];
    after = (finish-trace p p (failed (other n)) s).0;
    each = tt;
    same_mode = (finish-trace p p (failed (other n)) s).1;
  }
  create_or_unique-Adds p (found u) s = record {
    ops = [];
    after = (finish-trace p p (found u) s).0;
    each = tt;
    same_mode = (finish-trace p p (found u) s).1;
  }

  drop_box-Adds :
      (mode : FileServeMode) (p : FilePath) (s : Session)
      → Adds IsExclusive s (drop_box root stamp random mode p s).1
  unfolding drop_box
  drop_box-Adds write_only p s =
      elim (Bool-cases (bytes_eq p (b'.' ∷ []) || has_slash root stamp random p)) [
        | inl e ↦ rw e (record { ops = []; after = refl; each = tt; same_mode = refl })
        | inr e ↦ rw e (create_unique-Adds p s)
      ]
  drop_box-Adds _ p s =
      Adds-trans IsExclusive s (record s { trace = open_file p exclusive ∷ s.trace }) _
        (record {
          ops = open_file p exclusive ∷ [];
          after = refl;
          each = (refl, tt);
          same_mode = refl;
        })
        (create_or_unique-Adds p (create root stamp random p s)
          (record s { trace = open_file p exclusive ∷ s.trace }))

  write_in-Adds :
      (mode : FileServeMode) (p : FilePath) (f : PFlags) (s : Session)
      → mode ≢ read_write
      → Adds IsExclusive s (write_in root stamp random mode p f s).1
  unfolding write_in
  write_in-Adds read_only p f s n = record { ops = []; after = refl; each = tt; same_mode = refl }
  write_in-Adds read_write p f s n = absurd (n refl)
  write_in-Adds mode p f s n = elim (Bool-cases (f.read || (not f.write || not f.creat))) [
    | inl e ↦ rw e (record { ops = []; after = refl; each = tt; same_mode = refl })
    | inr e ↦ rw e (drop_box-Adds mode p s)
  ]

  -- Outside the read-write mode an upload makes no call of the root but exclusive creations: it
  -- overwrites no file, whatever exists, whatever the flags and whatever the root answers.
  pub file_write_only_creates :
      (p : FilePath) (f : PFlags) (s : Session)
      → s.mode ≢ read_write
      → Adds IsExclusive s (file_write root stamp random p f s).1
  unfolding file_write
  file_write_only_creates p f s n = write_in-Adds s.mode p f s n

-- A drop box gives nothing back: reading a file, listing a directory and reading a link are denied in
-- both write-only modes, with no call of the root.
pub write_only_denies_reads :
    (root : Root) (clean : FilePath → FilePath) (p : FilePath) (s : Session)
    → is_write_only s.mode ≡ true
    → (file_read root clean p s ≡ (err permission_denied, s))
      × (list_dir root clean p s ≡ (err permission_denied, s))
      × (read_link root clean p s ≡ (err permission_denied, s))
unfolding file_read list_dir read_link
write_only_denies_reads root clean p s e = (rw e refl, rw e refl, rw e refl)
