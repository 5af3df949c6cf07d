-- ===== src/Cli/Quote/Shell.antt =====
-- How OpenSSH and a POSIX shell read a ProxyCommand: percent tokens first, then words with single and
-- double quotes. A text outside this part of the shell's language is refused.
use tailcat_quic.Base.{
  leb, ◌==◌, if◌then◌else◌, ℕ, Bool, ◌&&◌, ◌||◌, Option, none, some, List, [], ◌∷◌,
}

abbrev pub prepend : ℕ → Option (List ℕ) → Option (List ℕ)
prepend c none = none
prepend c (some s) = some (c ∷ s)

-- OpenSSH's expansion of a text whose only token is %%.
unfoldable pub expand_percent : List ℕ → Option (List ℕ)
expand_percent [] = some []
expand_percent (c ∷ []) = if c == b'%' then none else some (c ∷ [])
expand_percent (c ∷ (d ∷ s)) =
    let after = expand_percent s in
    let rest = expand_percent (d ∷ s) in
    if c == b'%' then (if d == b'%' then prepend c after else none) else prepend c rest

-- Between words, inside a word, inside single and inside double quotes.
pub data Mode : Type 0 where
  between plain single double : Mode

-- What a character does: nothing, the end of a word, a part of the word; or it is not understood.
pub data Act : Type 0 where
  skip finish keep refuse : Act

-- Characters without a meaning of their own outside quotes: letters, digits and _ - . / : = + , @ %
abbrev pub is_literal : ℕ → Bool
is_literal c =
    (leb 48 c && leb c 58)
    || ((leb 64 c && leb c 90)
        || ((leb 97 c && leb c 122)
            || (c == 95 || (c == 61 || (c == 37 || (leb 43 c && leb c 47))))))

abbrev pub unquoted : Act → ℕ → Act × Mode
unquoted blank c =
    if c == 32
    then (blank, between)
    else if c == 39
    then (skip, single)
    else if c == 34
    then (skip, double)
    else if is_literal c
    then (keep, plain)
    else (refuse, plain)

abbrev pub read_char : Mode → ℕ → Act × Mode
read_char between c = unquoted skip c
read_char plain c = unquoted finish c
read_char single c = if c == 39 then (skip, plain) else (keep, single)
read_char double c =
    if c == 34
    then (skip, plain)
    else if c == 36 || (c == 96 || c == 92)
    then (refuse, double)
    else (keep, double)

-- The words of the rest, the first of them continued by the character.
abbrev pub push : ℕ → Option (List (List ℕ)) → Option (List (List ℕ))
push c (some (w ∷ ws)) = some ((c ∷ w) ∷ ws)
push c _ = none

abbrev pub new_word : Option (List (List ℕ)) → Option (List (List ℕ))
new_word none = none
new_word (some ws) = some ([] ∷ ws)

abbrev pub perform : Act → ℕ → Option (List (List ℕ)) → Option (List (List ℕ))
perform skip c r = r
perform finish c r = new_word r
perform keep c r = push c r
perform refuse c r = none

-- The words of a text; within a word the first is what is left of it.
unfoldable pub shell_words : Mode → List ℕ → Option (List (List ℕ))
shell_words between [] = some []
shell_words plain [] = some ([] ∷ [])
shell_words single [] = none
shell_words double [] = none
shell_words m (c ∷ s) = perform (read_char m c).0 c (shell_words (read_char m c).1 s)

-- The arguments that the shell passes to the child.
abbrev pub after_expansion : Option (List ℕ) → Option (List (List ℕ))
after_expansion none = none
after_expansion (some s) = shell_words between s

unfoldable pub proxy_command_words : List ℕ → Option (List (List ℕ))
unfolding expand_percent shell_words
proxy_command_words s = after_expansion (expand_percent s)
