-- ===== src/Sftp/History.antt =====
-- The requests of a session of tailcat_sftp.go, and what it records as its own (markOwn).
use tailcat_quic.Base.{
  if◌then◌else◌, beq, some-eq, lookup, lookup-insert, ◌≡◌, sym, ◌∙◌, subst, ◌⊎◌, inr, Bool, true,
  false, Option, some, List, [], ◌∷◌, bytes_eq_inst,
}
use tailcat_quic.Sftp.State.{
  FilePath, FileServeMode, Op, open_file, mkdir, found, Root, Session, Outcome, note_op, mark_own,
  own_path,
}
use tailcat_quic.Sftp.{file_stat}
use tailcat_quic.Sftp.Write.{PFlags, exclusive, file_write}
use tailcat_quic.Sftp.Command.{Request, file_cmd}

-- A call that makes a new file, which was not there, or a directory.
abbrev IsCreation : FilePath → Op → Type 0
IsCreation p (open_file q f) = (q ≡ p) × (f ≡ exclusive)
IsCreation p (mkdir q) = q ≡ p
IsCreation p _ = ⊥

-- A request of a client that may change the session. The write-only modes refuse the others, without a
-- call of the root.
pub data Step : Type 0 where
  upload : (stamp : FilePath) → Option FilePath → FilePath → PFlags → Step
  command : Request → Step
  inspect : Bool → FilePath → Step

-- The rootedFiles of a new connection.
abbrev pub new_session : FileServeMode → Session
new_session mode = record { mode = mode; wrote = []; trace = [] }

abbrev pub chosen : {A : Type 0} → Outcome A × Session → Session
chosen x = x.1

module _ (root : Root) where
  abbrev pub perform : (FilePath → FilePath) → Step → Session → Session
  perform clean (upload stamp random p flags) s = (file_write root stamp random p flags s).1
  perform clean (command r) s = (file_cmd root r s).1
  perform clean (inspect follow p) s = (file_stat root clean follow p s).1

  -- The session after requests.
  abbrev pub serve_all : (FilePath → FilePath) → List Step → Session → Session
  serve_all clean [] s = s
  serve_all clean (step ∷ steps) s = serve_all clean steps (perform clean step s)

  -- A call in the trace, which is latest first, made the path, and succeeded.
  abbrev pub WasCreated : FilePath → List Op → Type 0
  WasCreated p [] = ⊥
  WasCreated p (op ∷ past) =
      (IsCreation p op × (root.answer past op ≡ found tt)) ⊎ WasCreated p past

  abbrev pub Owns : Session → Type 0
  Owns s =
      (requested actual : FilePath) → own_path requested s ≡ some actual → WasCreated actual s.trace

  pub note-Owns : (op : Op) (s : Session) → Owns s → Owns (note_op op s)
  unfolding own_path
  note-Owns op s h requested actual e = inr (h requested actual e)

  pub mark_own-Owns :
      (requested actual : FilePath) (s : Session)
      → WasCreated actual s.trace
      → Owns s
      → Owns (mark_own requested actual s)
  unfolding mark_own own_path
  mark_own-Owns requested actual s c h p a e =
      by_name (beq ⦃e = bytes_eq_inst⦄ requested p)
        (sym (lookup-insert ⦃e = bytes_eq_inst⦄ requested p actual s.wrote) ∙ e)
    where
      by_name :
          (same : Bool)
          → (if same then some actual else lookup ⦃e = bytes_eq_inst⦄ p s.wrote) ≡ some a
          → WasCreated a s.trace
      by_name true g = subst (λ x. WasCreated x s.trace) (some-eq g) c
      by_name false g = h p a g
