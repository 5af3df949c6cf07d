-- ===== src/Cli/Quote/RoundTrip.antt =====
-- The child gets the arguments that were quoted.
use tailcat_quic.Base.{
  ◌==◌, if◌then◌else◌, ==_iff, Bool-cases, any, codes, ℕ, ◌≡◌, refl, sym, ap, ◌∙◌, inl, inr, Bool,
  false, Option, none, some, List, [], ◌∷◌, ◌++◌, map, append_assoc, append-nil,
}
use tailcat_quic.Text.{contains_any, replace_byte, join}
use tailcat_quic.Cli.Quote.{
  quoted_quote, quote_unix, control_characters, quote_all, proxy_command_join_unix,
}
use tailcat_quic.Cli.Quote.Shell.{
  prepend, expand_percent, between, single, push, shell_words, proxy_command_words, after_expansion,
}

abbrev prepend_all : List ℕ → Option (List ℕ) → Option (List ℕ)
prepend_all [] r = r
prepend_all (c ∷ s) r = prepend c (prepend_all s r)

abbrev push_all : List ℕ → Option (List (List ℕ)) → Option (List (List ℕ))
push_all [] r = r
push_all (c ∷ s) r = push c (push_all s r)

-- The body of a quoted argument, percent signs not doubled.
abbrev body : List ℕ → List ℕ
body a = replace_byte 39 quoted_quote a

abbrev doubled : List ℕ → List ℕ
doubled a = body (replace_byte b'%' (codes "%%") a)

expand-plain :
    (c : ℕ) (s : List ℕ)
    → (c == b'%') ≡ false
    → expand_percent (c ∷ s) ≡ prepend c (expand_percent s)
unfolding expand_percent
expand-plain c [] e = rw e refl
expand-plain c (d ∷ s) e = rw e refl

expand-doubled :
    (a rest : List ℕ)
    → expand_percent (doubled a ++ rest) ≡ prepend_all (body a) (expand_percent rest)
unfolding replace_byte expand_percent
expand-doubled [] rest = refl
expand-doubled (c ∷ a) rest = elim (Bool-cases (c == b'%')) [
  | inl p ↦ rw ((==_iff c b'%').0 p) (ap (prepend b'%') (expand-doubled a rest))
  | inr n ↦ elim (Bool-cases (c == 39)) [
    | inl q ↦
        rw ((==_iff c 39).0 q, expand-plain 39 (doubled a ++ rest) refl, expand-doubled a rest) refl
    | inr k ↦ rw (n, k, expand-plain c (doubled a ++ rest) n, expand-doubled a rest) refl
  ]
]

single-keep :
    (c : ℕ) (s : List ℕ)
    → (c == 39) ≡ false
    → shell_words single (c ∷ s) ≡ push c (shell_words single s)
unfolding shell_words
single-keep c s e = rw e refl

words-body :
    (a rest : List ℕ) → shell_words single (body a ++ rest) ≡ push_all a (shell_words single rest)
unfolding replace_byte shell_words
words-body [] rest = refl
words-body (c ∷ a) rest = elim (Bool-cases (c == 39)) [
  | inl q ↦ rw ((==_iff c 39).0 q) (ap (push 39) (words-body a rest))
  | inr n ↦ rw n (single-keep c (body a ++ rest) n ∙ ap (push c) (words-body a rest))
]

prepend_all-some : (x s : List ℕ) → prepend_all x (some s) ≡ some (x ++ s)
prepend_all-some [] s = refl
prepend_all-some (c ∷ x) s = rw (prepend_all-some x s) refl

push_all-some :
    (a w : List ℕ) (ws : List (List ℕ)) → push_all a (some (w ∷ ws)) ≡ some ((a ++ w) ∷ ws)
push_all-some [] w ws = refl
push_all-some (c ∷ a) w ws = rw (push_all-some a w ws) refl

-- An argument in single quotes, as the shell gets it.
abbrev word : List ℕ → List ℕ
word a = 39 ∷ (body a ++ (39 ∷ []))

expand-quote :
    (a rest s : List ℕ)
    → expand_percent (39 ∷ rest) ≡ some (39 ∷ s)
    → expand_percent (39 ∷ (doubled a ++ (39 ∷ rest))) ≡ some (39 ∷ (body a ++ (39 ∷ s)))
expand-quote a rest s e =
    rw
      (
        expand-plain 39 (doubled a ++ (39 ∷ rest)) refl,
        expand-doubled a (39 ∷ rest),
        e,
        prepend_all-some (body a) (39 ∷ s),
      )
      refl

expand-join :
    (args : List (List ℕ))
    → expand_percent (join 32 (map quote_unix args)) ≡ some (join 32 (map word args))
unfolding join expand_percent quote_unix
expand-join [] = refl
expand-join (a ∷ []) = expand-quote a [] [] refl
expand-join (a ∷ (b ∷ rest)) =
    let tail : List ℕ = join 32 (map quote_unix (b ∷ rest)) in
    let read : List ℕ = join 32 (map word (b ∷ rest)) in
    rw (append_assoc (doubled a) (39 ∷ []) (32 ∷ tail), append_assoc (body a) (39 ∷ []) (32 ∷ read))
      (expand-quote a (32 ∷ tail) (32 ∷ read)
        (rw (expand-plain 32 tail refl, expand-join (b ∷ rest)) refl))

words-join : (args : List (List ℕ)) → shell_words between (join 32 (map word args)) ≡ some args
unfolding join shell_words
words-join [] = refl
words-join (a ∷ []) = rw (words-body a (39 ∷ []), push_all-some a [] [], append-nil a) refl
words-join (a ∷ (b ∷ rest)) =
    let read : List ℕ = join 32 (map word (b ∷ rest)) in
    rw
      (
        append_assoc (body a) (39 ∷ []) (32 ∷ read),
        words-body a (39 ∷ (32 ∷ read)),
        words-join (b ∷ rest),
        push_all-some a [] (b ∷ rest),
        append-nil a,
      )
      refl

abbrev pub has_refused : List ℕ → List (List ℕ) → Bool
has_refused refused args = any (contains_any refused) args

-- Every argument is quoted, unless one is refused.
pub quote_all-eq-map :
    (refused : List ℕ) (quote : List ℕ → List ℕ) (args : List (List ℕ))
    → quote_all refused quote args
      ≡ (if has_refused refused args then none else some (map quote args))
unfolding quote_all
quote_all-eq-map refused quote [] = refl
quote_all-eq-map refused quote (a ∷ rest) = elim (Bool-cases (contains_any refused a)) [
  | inl y ↦ rw y refl
  | inr n ↦ elim (Bool-cases (has_refused refused rest)) [
    | inl t ↦ rw (n, quote_all-eq-map refused quote rest, t) refl
    | inr f ↦ rw (n, quote_all-eq-map refused quote rest, f) refl
  ]
]

abbrev pub read_by : (List ℕ → Option (List (List ℕ))) → Option (List ℕ) → Option (List (List ℕ))
read_by shell none = none
read_by shell (some cmd) = shell cmd

-- Arguments without carriage returns, line feeds and NULs are quoted into a command that OpenSSH's
-- percent expansion and the shell's quoting read back as exactly these arguments; others are refused.
pub proxy_command_words-join_unix :
    (args : List (List ℕ))
    → read_by proxy_command_words (proxy_command_join_unix args)
      ≡ (if has_refused control_characters args then none else some args)
unfolding proxy_command_join_unix proxy_command_words
proxy_command_words-join_unix args = elim (Bool-cases (has_refused control_characters args)) [
  | inl y ↦ rw (quote_all-eq-map control_characters quote_unix args, y) refl
  | inr n ↦
      rw (quote_all-eq-map control_characters quote_unix args, n)
        (ap after_expansion (expand-join args) ∙ words-join args)
]

-- A command that is built reads back as the arguments.
pub words_of_command :
    (args : List (List ℕ)) (cmd : List ℕ)
    → proxy_command_join_unix args ≡ some cmd
    → proxy_command_words cmd ≡ some args
unfolding proxy_command_join_unix
words_of_command args cmd e = elim (Bool-cases (has_refused control_characters args)) [
  | inl y ↦ absurd (refused (rw (quote_all-eq-map control_characters quote_unix args, y) at e))
  | inr n ↦
      ap (read_by proxy_command_words) (sym e) ∙ proxy_command_words-join_unix args ∙ rw n refl
]
  where
    refused : none ≡ some cmd → ⊥
    refused h = cc
