-- ===== src/Examples/Logins.antt =====
-- The properties of SSH logins at concrete inputs.
use tailcat_quic.Base.{
  if◌then◌else◌, codes, has_prefix, ℕ, ◌≡◌, refl, true, Option, none, some, List, [], ◌∷◌, ◌++◌,
}
use tailcat_quic.Results.{ok}
use tailcat_quic.Text.{split, trim_space, trim_suffix, trim_left, trim_right, cut_suffix}
use tailcat_quic.Login.{SshOptions, SshServer, ssh_server, ssh_conn_handler}
use tailcat_quic.Login.Keys.{
  AuthorizedKey, ssh_public_key_handler, key_line, is_allowed, parsed_ssh_authorized_keys,
  validate_ssh_authorized_keys, add_key, add_line, add_lines, add_texts,
}
use tailcat_quic.Login.Granted.{is_ok}
use tailcat_quic.Login.Accepts.{is_key_list, validate_ssh_authorized_keys_iff}
use tailcat_quic.Login.Served.{Serves, ssh_conn_handler-Serves}
use tailcat_quic.Cli.KeySources.{
  Sources, is_github_username, load_texts, source_text, fetch_github_ssh_keys,
  load_ssh_authorized_keys_from,
}
use tailcat_quic.Cli.KeySources.Loaded.{Loaded, load_then_serves}

-- A line that starts with "ssh-" is a key.
abbrev parse : List ℕ → Option AuthorizedKey
parse line =
    if has_prefix line (codes "ssh-")
    then some (record { key = line; options = []; rest = [] })
    else none

abbrev key_text : List ℕ
key_text = codes "ssh-ed25519 AAAA"

abbrev text : List ℕ
text = codes "# me\n" ++ (key_text ++ codes "\r\n")

-- A no-break space and a line separator around a tab and a letter.
trims_unicode : trim_space (0xc2 ∷ (0xa0 ∷ (9 ∷ (65 ∷ (0xe2 ∷ (0x80 ∷ (0xa8 ∷ []))))))) ≡ 65 ∷ []
unfolding trim_space
trims_unicode = refl

abbrev options : SshOptions (List ℕ)
options = record { shell = true; exec = []; authorized_keys = some (text ∷ []); files = none }

abbrev srv : SshServer (List ℕ)
srv = ssh_server options (some (is_allowed (key_text ∷ []))) ((1 ∷ []) ∷ [])

options-served :
    ssh_conn_handler options
      (ssh_public_key_handler parse options.authorized_keys)
      (some ((1 ∷ []) ∷ []))
    ≡ some srv
unfolding ssh_conn_handler ssh_public_key_handler parsed_ssh_authorized_keys add_texts add_lines
    add_line add_key key_line split trim_suffix cut_suffix trim_space trim_left trim_right
options-served = refl

ssh_conn_handler-Serves_example : Serves parse options srv
ssh_conn_handler-Serves_example =
    ssh_conn_handler-Serves parse options (some ((1 ∷ []) ∷ [])) srv options-served

validate_ssh_authorized_keys_iff_example :
    is_ok (validate_ssh_authorized_keys parse (text ∷ [])) ≡ is_key_list parse (text ∷ [])
validate_ssh_authorized_keys_iff_example = validate_ssh_authorized_keys_iff parse (text ∷ [])

-- A host without files, where each account has the one key.
abbrev sources : Sources
sources = record {
  read_file = λ path. none;
  get = λ url. some (200, some text);
  path_escape = λ user. user;
}

abbrev source_list : List ℕ
source_list = codes "alice@github"

load_alice :
    load_ssh_authorized_keys_from parse sources (codes "https://github.com/") source_list
    ≡ ok (text ∷ [])
unfolding load_ssh_authorized_keys_from load_texts source_text is_github_username
    fetch_github_ssh_keys validate_ssh_authorized_keys parsed_ssh_authorized_keys add_texts
    add_lines add_line add_key key_line split trim_suffix cut_suffix trim_space trim_left trim_right
load_alice = refl

load_then_serves_example :
    Loaded parse sources (codes "https://github.com/") (split b',' source_list) (text ∷ [])
    × (s : SshServer (List ℕ)) × (ssh_conn_handler options
          (ssh_public_key_handler parse options.authorized_keys)
          (some ((1 ∷ []) ∷ []))
        ≡ some s)
    × Serves parse options s
load_then_serves_example =
    load_then_serves parse sources (codes "https://github.com/") source_list (text ∷ []) options
      ((1 ∷ []) ∷ []) load_alice refl
