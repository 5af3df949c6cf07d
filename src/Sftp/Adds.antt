-- ===== src/Sftp/Adds.antt =====
-- What a request adds to the trace of a session: operations of one kind.
use tailcat_quic.Base.{All, ◌≡◌, refl, sym, ap, ◌∙◌, List, [], ◌∷◌, ◌++◌, append_assoc}
use tailcat_quic.Sftp.State.{Op, Session}

-- The operations of a call are all of one kind, and the mode stays.
pub record Adds (P : Op → Type 0) (s s' : Session) : Type 0 where
  pub ops : List Op
  pub after : s'.trace ≡ ops ++ s.trace
  pub each : All P ops
  pub same_mode : s'.mode ≡ s.mode

All-append : (P : Op → Type 0) (xs ys : List Op) → All P xs → All P ys → All P (xs ++ ys)
All-append P [] ys p q = q
All-append P (x ∷ xs) ys p q = (p.0, All-append P xs ys p.1 q)

pub Adds-trans : (P : Op → Type 0) (s t u : Session) → Adds P s t → Adds P t u → Adds P s u
Adds-trans P s t u a b = record {
  ops = b.ops ++ a.ops;
  after = b.after ∙ ap (◌++◌ b.ops) a.after ∙ sym (append_assoc b.ops a.ops s.trace);
  each = All-append P b.ops a.ops b.each a.each;
  same_mode = b.same_mode ∙ a.same_mode;
}

pub Adds-refl : (P : Op → Type 0) (s : Session) → Adds P s s
Adds-refl P s = record { ops = []; after = refl; each = tt; same_mode = refl }
