-- ===== src/Sftp/Created.antt =====
-- What a session records as its own (markOwn) has been created by its own calls.
use tailcat_quic.Base.{
  if◌then◌else◌, Bool-cases, Option-cases, bytes_eq, lookup, ◌≡◌, refl, inl, inr, Bool, true, false,
  not, ◌||◌, Option, none, some, List, [], ◌∷◌, bytes_eq_inst,
}
use tailcat_quic.Sftp.State.{
  FilePath, FileServeMode, read_only, read_write, write_only, write_only_plus, open_file, exists,
  other, Answer, found, failed, Root, Session, Outcome, err, permission_denied, is_write_only,
  own_path,
}
use tailcat_quic.Sftp.{stat, file_stat}
use tailcat_quic.Sftp.Write.{
  PFlags, exclusive, unique_upload_path, create, noted, finish, create_as, create_named,
  create_unique, create_or_unique, has_slash, drop_box, open_plain, write_in, file_write,
}
use tailcat_quic.Sftp.Command.{file_cmd}
use tailcat_quic.Sftp.History.{
  Step, upload, command, inspect, new_session, perform, serve_all, WasCreated, Owns, chosen,
  note-Owns, mark_own-Owns,
}
use tailcat_quic.Sftp.Recorded.{command_in-Owns}

module _ (root : Root) where
  Owns-if :
      {A : Type 0} (b : Bool) (x y : Outcome A × Session)
      → Owns root x.1
      → Owns root y.1
      → Owns root (chosen (if b then x else y))
  Owns-if true x y h g = h
  Owns-if false x y h g = g

  module _ (stamp : FilePath) (random : Option FilePath) where
    finish-Owns :
        (requested actual : FilePath) (a : Answer (Unit {0})) (s : Session)
        → root.answer s.trace (open_file actual exclusive) ≡ a
        → Owns root s
        → Owns root
            (finish root stamp random requested actual a (noted root stamp random actual s)).1
    unfolding finish
    finish-Owns requested actual (failed e) s g h = note-Owns root (open_file actual exclusive) s h
    finish-Owns requested actual (found u) s g h =
        mark_own-Owns root requested actual (noted root stamp random actual s)
          (inl ((refl, refl), g)) (note-Owns root (open_file actual exclusive) s h)

    create_unique-Owns :
        (requested : FilePath) (s : Session)
        → Owns root s
        → Owns root (create_unique root stamp random requested s).1
    unfolding create_unique create_named create_as create
    create_unique-Owns requested s h = named (unique_upload_path stamp random requested)
      where
        named : (o : Option FilePath) → Owns root (create_named root stamp random requested o s).1
        named none = h
        named (some actual) =
            finish-Owns requested actual (root.answer s.trace (open_file actual exclusive)) s refl h

    create_or_unique-Owns :
        (requested : FilePath) (a : Answer (Unit {0})) (s : Session)
        → root.answer s.trace (open_file requested exclusive) ≡ a
        → Owns root s
        → Owns root
            (create_or_unique root stamp random requested a (noted root stamp random requested s)).1
    unfolding create_or_unique
    create_or_unique-Owns requested (failed exists) s g h =
        create_unique-Owns requested (noted root stamp random requested s)
          (note-Owns root (open_file requested exclusive) s h)
    create_or_unique-Owns requested (failed (other n)) s g h =
        finish-Owns requested requested (failed (other n)) s g h
    create_or_unique-Owns requested (found u) s g h =
        finish-Owns requested requested (found u) s g h

    drop_box-Owns :
        (mode : FileServeMode) (p : FilePath) (s : Session)
        → Owns root s
        → Owns root (drop_box root stamp random mode p s).1
    unfolding drop_box create
    drop_box-Owns write_only p s h =
        Owns-if (bytes_eq p (b'.' ∷ []) || has_slash root stamp random p) (err permission_denied, s)
          (create_unique root stamp random p s) h (create_unique-Owns p s h)
    drop_box-Owns write_only_plus p s h = create_or_unique-Owns p _ s refl h
    drop_box-Owns read_only p s h = create_or_unique-Owns p _ s refl h
    drop_box-Owns read_write p s h = create_or_unique-Owns p _ s refl h

    write_in-Owns :
        (mode : FileServeMode) (p : FilePath) (f : PFlags) (s : Session)
        → Owns root s
        → Owns root (write_in root stamp random mode p f s).1
    unfolding write_in open_plain
    write_in-Owns read_only p f s h = h
    write_in-Owns read_write p f s h = note-Owns root _ s h
    write_in-Owns write_only p f s h =
        Owns-if (f.read || (not f.write || not f.creat)) (err permission_denied, s)
          (drop_box root stamp random write_only p s) h (drop_box-Owns write_only p s h)
    write_in-Owns write_only_plus p f s h =
        Owns-if (f.read || (not f.write || not f.creat)) (err permission_denied, s)
          (drop_box root stamp random write_only_plus p s) h (drop_box-Owns write_only_plus p s h)

  stat-Owns :
      (clean : FilePath → FilePath) (follow : Bool) (p : FilePath) (s : Session)
      → Owns root s
      → Owns root (stat root clean follow p s).1
  unfolding stat
  stat-Owns clean follow p s h = elim (Bool-cases (is_write_only s.mode)) [
    | inr e ↦ rw e (note-Owns root _ s h)
    | inl e ↦ elim (Option-cases (own_path p s)) [
      | inr (a, f) ↦ rw (e, f) (note-Owns root _ s h)
      | inl f ↦ rw (e, f) (Owns-if _ _ _ h (note-Owns root _ s h))
    ]
  ]

  perform-Owns :
      (clean : FilePath → FilePath) (step : Step) (s : Session)
      → Owns root s
      → Owns root (perform root clean step s)
  unfolding file_write file_cmd file_stat
  perform-Owns clean (upload stamp random p flags) s h =
      write_in-Owns stamp random s.mode p flags s h
  perform-Owns clean (command r) s h = command_in-Owns root s.mode r s h
  perform-Owns clean (inspect follow p) s h = stat-Owns clean follow _ s h

  serve_all-Owns :
      (clean : FilePath → FilePath) (steps : List Step) (s : Session)
      → Owns root s
      → Owns root (serve_all root clean steps s)
  serve_all-Owns clean [] s h = h
  serve_all-Owns clean (step ∷ steps) s h =
      serve_all-Owns clean steps (perform root clean step s) (perform-Owns clean step s h)

  -- The paths that a session has recorded after any requests were made by successful calls of its own.
  pub own-created :
      (clean : FilePath → FilePath) (steps : List Step) (mode : FileServeMode)
      (requested actual : FilePath)
      → own_path requested (serve_all root clean steps (new_session mode)) ≡ some actual
      → WasCreated root actual (serve_all root clean steps (new_session mode)).trace
  unfolding own_path lookup
  own-created clean steps mode = serve_all-Owns clean steps (new_session mode) (nothing mode)
    where
      nothing : (m : FileServeMode) → Owns root (new_session m)
      nothing m requested actual e = absurd (cc)
