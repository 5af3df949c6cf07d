-- ===== src/Sftp/Own.antt =====
-- What the commands of a drop box may touch.
use tailcat_quic.Base.{All, ℕ, ◌%◌, ◌≡◌, refl, true, Option, none, some, List, [], ◌∷◌, arith}
use tailcat_quic.Sftp.History.{Step, new_session, serve_all, WasCreated}
use tailcat_quic.Sftp.Created.{own-created}
use tailcat_quic.Sftp.State.{
  FilePath, FileServeMode, read_only, read_write, write_only, write_only_plus, Op, open_file, mkdir,
  chmod, chtimes, truncate, Root, Session, Outcome, ok, err, is_write_only, own_path, mark_own,
}
use tailcat_quic.Sftp.Adds.{Adds, Adds-trans, Adds-refl}
use tailcat_quic.Sftp.Command.{
  Method, setstat_method, mkdir_method, Attrs, Request, call, and_then, set_permissions, set_times,
  set_size, setstat, mkdir_own, setstat_at, setstat_own, drop_box_command, command_in, file_cmd,
  write_only_open,
}

-- Attributes and size of one path.
abbrev pub Adjusts : FilePath → Op → Type 0
Adjusts p (chmod q m) = q ≡ p
Adjusts p (chtimes q a m) = q ≡ p
Adjusts p (open_file q f) = (q ≡ p) × (f ≡ write_only_open)
Adjusts p (truncate q n) = q ≡ p
Adjusts p _ = ⊥

-- A new directory, in the recursive mode only, or an adjustment of what the session has recorded under
-- the requested path.
abbrev InBox : Session → Request → Op → Type 0
InBox s r (mkdir p) = (s.mode ≡ write_only_plus) × (p ≡ r.filepath)
InBox s r op = (actual : FilePath) × (own_path r.filepath s ≡ some actual) × Adjusts actual op

-- A new directory, in the recursive mode only, or an adjustment of what a successful call of the session
-- itself created for the requested path.
abbrev pub OnOwn : Root → Session → Request → Op → Type 0
OnOwn root s r (mkdir p) = (s.mode ≡ write_only_plus) × (p ≡ r.filepath)
OnOwn root s r op =
    (actual : FilePath) × (own_path r.filepath s ≡ some actual)
    × WasCreated root actual s.trace
    × Adjusts actual op

module _ (root : Root) where
  call-Adds : (P : Op → Type 0) (op : Op) (s : Session) → P op → Adds P s (call root op s).1
  unfolding call
  call-Adds P op s h = record { ops = op ∷ []; after = refl; each = (h, tt); same_mode = refl }

  and_then-Adds :
      (P : Op → Type 0) (s : Session) (x : Outcome (Unit {0}) × Session)
      (k : Session → Outcome (Unit {0}) × Session)
      → Adds P s x.1
      → ((t : Session) → Adds P t (k t).1)
      → Adds P s (and_then root x k).1
  unfolding and_then
  and_then-Adds P s (ok u, t) k a b = Adds-trans P s t (k t).1 a (b t)
  and_then-Adds P s (err e, t) k a b = a

  set_permissions-Adds :
      (p : FilePath) (o : Option ℕ) (s : Session)
      → Adds (Adjusts p) s (set_permissions root p o s).1
  unfolding set_permissions
  set_permissions-Adds p none s = Adds-refl (Adjusts p) s
  set_permissions-Adds p (some m) s = call-Adds (Adjusts p) (chmod p (m % 512)) s refl

  set_times-Adds :
      (p : FilePath) (o : Option (ℕ × ℕ)) (s : Session)
      → Adds (Adjusts p) s (set_times root p o s).1
  unfolding set_times
  set_times-Adds p none s = Adds-refl (Adjusts p) s
  set_times-Adds p (some (a, m)) s = call-Adds (Adjusts p) (chtimes p a m) s refl

  set_size-Adds :
      (p : FilePath) (o : Option ℕ) (s : Session) → Adds (Adjusts p) s (set_size root p o s).1
  unfolding set_size
  set_size-Adds p none s = Adds-refl (Adjusts p) s
  set_size-Adds p (some n) s =
      and_then-Adds (Adjusts p) s (call root (open_file p write_only_open) s)
        (λ t. call root (truncate p n) t)
        (call-Adds (Adjusts p) (open_file p write_only_open) s (refl, refl))
        (λ t. call-Adds (Adjusts p) (truncate p n) t refl)

  setstat-Adds :
      (p : FilePath) (a : Attrs) (s : Session) → Adds (Adjusts p) s (setstat root p a s).1
  unfolding setstat
  setstat-Adds p a s =
      and_then-Adds (Adjusts p) s (set_permissions root p a.permissions s)
        (λ t. and_then root (set_times root p a.acmodtime t) (λ u. set_size root p a.size u))
        (set_permissions-Adds p a.permissions s)
        (λ t.
          and_then-Adds (Adjusts p) t (set_times root p a.acmodtime t)
            (λ u. set_size root p a.size u) (set_times-Adds p a.acmodtime t)
            (λ u. set_size-Adds p a.size u))

  Adjusts-InBox :
      (s : Session) (r : Request) (p : FilePath) (op : Op)
      → own_path r.filepath s ≡ some p
      → Adjusts p op
      → InBox s r op
  Adjusts-InBox s r p (chmod q m) e h = (p, e, h)
  Adjusts-InBox s r p (chtimes q a m) e h = (p, e, h)
  Adjusts-InBox s r p (open_file q f) e h = (p, e, h)
  Adjusts-InBox s r p (truncate q n) e h = (p, e, h)
  Adjusts-InBox s r p _ e h = absurd h

  All-weaken :
      (P Q : Op → Type 0) (ops : List Op) → ((op : Op) → P op → Q op) → All P ops → All Q ops
  All-weaken P Q [] f h = tt
  All-weaken P Q (op ∷ ops) f h = (f op h.0, All-weaken P Q ops f h.1)

  Adds-weaken :
      (P Q : Op → Type 0) (s t : Session) → ((op : Op) → P op → Q op) → Adds P s t → Adds Q s t
  Adds-weaken P Q s t f a = record {
    ops = a.ops;
    after = a.after;
    each = All-weaken P Q a.ops f a.each;
    same_mode = a.same_mode;
  }

  setstat_at-Adds :
      (o : Option FilePath) (r : Request) (s : Session)
      → own_path r.filepath s ≡ o
      → Adds (InBox s r) s (setstat_at root o r.attrs s).1
  unfolding setstat_at
  setstat_at-Adds none r s e = Adds-refl (InBox s r) s
  setstat_at-Adds (some p) r s e =
      Adds-weaken (Adjusts p) (InBox s r) s (setstat root p r.attrs s).1
        (λ op h. Adjusts-InBox s r p op e h) (setstat-Adds p r.attrs s)

  setstat_own-Adds : (r : Request) (s : Session) → Adds (InBox s r) s (setstat_own root r s).1
  unfolding setstat_own
  setstat_own-Adds r s = setstat_at-Adds (own_path r.filepath s) r s refl

  mark_own-Adds : (P : Op → Type 0) (p : FilePath) (s : Session) → Adds P s (mark_own p p s)
  unfolding mark_own
  mark_own-Adds P p s = record { ops = []; after = refl; each = tt; same_mode = refl }

  mkdir_own-Adds :
      (r : Request) (s : Session)
      → s.mode ≡ write_only_plus
      → Adds (InBox s r) s (mkdir_own root r.filepath s).1
  unfolding mkdir_own
  mkdir_own-Adds r s e =
      and_then-Adds (InBox s r) s (call root (mkdir r.filepath) s)
        (λ t. (ok tt, mark_own r.filepath r.filepath t))
        (call-Adds (InBox s r) (mkdir r.filepath) s (e, refl))
        (λ t. mark_own-Adds (InBox s r) r.filepath t)

  drop_box-Adds :
      (mode : FileServeMode) (m : Method) (r : Request) (s : Session)
      → s.mode ≡ mode
      → is_write_only mode ≡ true
      → Adds (InBox s r) s (drop_box_command root mode m r s).1
  unfolding drop_box_command is_write_only
  drop_box-Adds write_only mkdir_method r s e w = Adds-refl (InBox s r) s
  drop_box-Adds write_only_plus mkdir_method r s e w = mkdir_own-Adds r s e
  drop_box-Adds write_only setstat_method r s e w = setstat_own-Adds r s
  drop_box-Adds write_only_plus setstat_method r s e w = setstat_own-Adds r s
  drop_box-Adds read_only m r s e w = absurd (ground arith)
  drop_box-Adds read_write m r s e w = absurd (ground arith)
  drop_box-Adds write_only m r s e w = Adds-refl (InBox s r) s
  drop_box-Adds write_only_plus m r s e w = Adds-refl (InBox s r) s

  command_in-Adds :
      (mode : FileServeMode) (r : Request) (s : Session)
      → s.mode ≡ mode
      → is_write_only mode ≡ true
      → Adds (InBox s r) s (command_in root mode r s).1
  unfolding command_in is_write_only
  command_in-Adds read_only r s e w = absurd (ground arith)
  command_in-Adds read_write r s e w = absurd (ground arith)
  command_in-Adds write_only r s e w = drop_box-Adds write_only r.method r s e w
  command_in-Adds write_only_plus r s e w = drop_box-Adds write_only_plus r.method r s e w

  InBox-OnOwn :
      (s : Session) (r : Request)
      → ((actual : FilePath) → own_path r.filepath s ≡ some actual → WasCreated root actual s.trace)
      → (op : Op) → InBox s r op
      → OnOwn root s r op
  InBox-OnOwn s r owns (mkdir p) h = h
  InBox-OnOwn s r owns (Op.open_read p) (a, e, h) = (a, e, owns a e, h)
  InBox-OnOwn s r owns (open_file p f) (a, e, h) = (a, e, owns a e, h)
  InBox-OnOwn s r owns (Op.rename p q) (a, e, h) = (a, e, owns a e, h)
  InBox-OnOwn s r owns (Op.remove p) (a, e, h) = (a, e, owns a e, h)
  InBox-OnOwn s r owns (Op.link p q) (a, e, h) = (a, e, owns a e, h)
  InBox-OnOwn s r owns (Op.symlink p q) (a, e, h) = (a, e, owns a e, h)
  InBox-OnOwn s r owns (chmod p m) (a, e, h) = (a, e, owns a e, h)
  InBox-OnOwn s r owns (chtimes p t u) (a, e, h) = (a, e, owns a e, h)
  InBox-OnOwn s r owns (truncate p n) (a, e, h) = (a, e, owns a e, h)
  InBox-OnOwn s r owns (Op.stat b p) (a, e, h) = (a, e, owns a e, h)
  InBox-OnOwn s r owns (Op.read_dir p) (a, e, h) = (a, e, owns a e, h)
  InBox-OnOwn s r owns (Op.read_link p) (a, e, h) = (a, e, owns a e, h)

  file_cmd-InBox :
      (r : Request) (s : Session)
      → is_write_only s.mode ≡ true
      → Adds (InBox s r) s (file_cmd root r s).1
  unfolding file_cmd
  file_cmd-InBox r s w = command_in-Adds s.mode r s refl w

  -- In both write-only modes, after any uploads, commands and stats of a new session, a command makes no
  -- call of the root but the making of the requested directory, in the recursive mode only, and the
  -- adjustment of mode, times or size of what a call of this session created, successfully and as
  -- something new, for the requested path: it removes, renames, links and adjusts nothing else.
  pub file_cmd_touches_own :
      (clean : FilePath → FilePath) (steps : List Step) (mode : FileServeMode) (r : Request)
      → let s = serve_all root clean steps (new_session mode) in
        is_write_only s.mode ≡ true → Adds (OnOwn root s r) s (file_cmd root r s).1
  file_cmd_touches_own clean steps mode r w =
      let s = serve_all root clean steps (new_session mode) in
      Adds-weaken (InBox s r) (OnOwn root s r) s (file_cmd root r s).1
        (InBox-OnOwn s r (own-created root clean steps mode r.filepath)) (file_cmd-InBox r s w)
