-- ===== src/Examples/Files.antt =====
-- The properties of the file server at concrete inputs.
use tailcat_quic.Base.{
  codes, lookup, insert, ◌≡◌, refl, true, false, none, some, List, [], ◌∷◌, arith,
}
use tailcat_quic.Sftp.History.{Step, upload, serve_all, new_session}
use tailcat_quic.Sftp.State.{
  found, chmod, open_file, mark_own, own_path, is_write_only, FileServeMode, write_only, exists,
  failed, Root, Session, is_write_only,
}
use tailcat_quic.Sftp.Adds.{Adds}
use tailcat_quic.Sftp.Write.{exclusive, file_write, unique_upload_path, PFlags, file_write}
use tailcat_quic.Sftp.Command.{file_cmd, Request, file_cmd, Method}
use tailcat_quic.Sftp.Own.{OnOwn, file_cmd_touches_own}
use tailcat_quic.Sftp.Confined.{IsExclusive, file_write_only_creates}

-- A root in which every creation meets an existing file.
abbrev crowded : Root
crowded = record {
  answer = λ past op. failed exists;
  stat = λ past follow p. failed exists;
  read_dir = λ past p. failed exists;
  read_link = λ past p. failed exists;
}

abbrev in_mode : FileServeMode → Session
in_mode m = record { mode = m; wrote = []; trace = [] }

abbrev creating : PFlags
creating = record {
  read = false;
  write = true;
  append = false;
  creat = true;
  trunc = true;
  excl = false;
}

file_write_only_creates_example :
    Adds IsExclusive
      (in_mode write_only)
      (file_write crowded
        (codes "1")
        (some (codes "x"))
        (codes "a.txt")
        creating
        (in_mode write_only)).1
file_write_only_creates_example =
    file_write_only_creates crowded (codes "1") (some (codes "x")) (codes "a.txt") creating
      (in_mode write_only) (λ e. ground arith)

abbrev adjust : Request
adjust = record {
  method = Method.setstat_method;
  filepath = codes "a.txt";
  target = [];
  attrs = record { permissions = some 420; acmodtime = none; size = none };
}

-- A root without any of the files asked for.
abbrev fresh : Root
fresh = record {
  answer = λ past op. found tt;
  stat = λ past follow p. failed exists;
  read_dir = λ past p. failed exists;
  read_link = λ past p. failed exists;
}

abbrev uploads : List Step
uploads = upload (codes "1") (some (codes "x")) (codes "a.txt") creating ∷ []

abbrev uploaded : Session
uploaded = serve_all fresh (λ p. p) uploads (new_session write_only)

-- The session has a file of its own, and adjusts it.
adjusts-own :
    (file_cmd fresh adjust uploaded).1.trace
    ≡ chmod (codes "a.1.x.txt") 420 ∷ (open_file (codes "a.1.x.txt") exclusive ∷ [])
unfolding file_cmd file_write unique_upload_path mark_own own_path lookup insert
adjusts-own = refl

file_cmd_touches_own_example :
    Adds (OnOwn fresh uploaded adjust) uploaded (file_cmd fresh adjust uploaded).1
unfolding file_write unique_upload_path mark_own is_write_only
file_cmd_touches_own_example = file_cmd_touches_own fresh (λ p. p) uploads write_only adjust refl
