-- ===== src/Examples/Client.antt =====
-- The properties of the client commands at concrete inputs.
use tailcat_quic.Base.{
  replicate, codes, ℕ, ◌≡◌, refl, false, Option, none, some, List, [], ◌∷◌, ◌++◌,
}
use tailcat_quic.Address.Parse.{parse_addr}
use tailcat_quic.Text.{split, trim_suffix, contains_byte}
use tailcat_quic.Cli.Names.{tailcat_addr_arg, is_addr}
use tailcat_quic.Cli.Names.Leaks.{IsPublicName, tailcat_addr_arg_queries}
use tailcat_quic.Cli.Ssh.{SshNames, SshFlags, ProbeDial, ProbeEvent, handshake_refused, ssh_argv}
use tailcat_quic.Cli.Ssh.Runs.{Runs}
use tailcat_quic.Examples.Codec.{codec}
use tailcat_quic.Examples.Codes.{coding}

abbrev host : List ℕ
host = codes "cats.example"

abbrev code_text : List ℕ
code_text = codes "tch3" ++ (replicate 32 65 ++ (replicate 32 66 ++ replicate 32 67))

abbrev lookup_txt : List ℕ → Option (List (List ℕ))
lookup_txt n = some ((codes "v=spf1" ∷ []) ++ ((codes "tailcat=" ++ code_text) ∷ []))

host-queried : (tailcat_addr_arg codec codec coding lookup_txt host).queried ≡ some host
unfolding tailcat_addr_arg is_addr parse_addr split trim_suffix contains_byte
host-queried = refl

tailcat_addr_arg_queries_example : (host ≡ host) × IsPublicName codec codec coding host
tailcat_addr_arg_queries_example =
    tailcat_addr_arg_queries codec codec coding lookup_txt host host host-queried

abbrev names : SshNames
names = record {
  parse_ip = λ v. none;
  parse_addr_port = λ v. none;
  addr_port_string = λ a. [];
  sha256 = λ a. replicate 32 1;
}

abbrev probe : List ℕ → ProbeDial → ProbeEvent
probe addr d = handshake_refused

abbrev flags : SshFlags
flags = record {
  windows = false;
  default_url = codes "https://derp.example/map";
  derp_map_url = codes "https://derp.example/map";
  key_name = [];
  exe = codes "/usr/bin/tailcat";
  dev_null = codes "/dev/null";
  client = some (codes "/usr/bin/ssh");
}

abbrev proxy : List ℕ
proxy = codes "'/usr/bin/tailcat' '" ++ (code_text ++ codes "' '22'")

abbrev argv : List (List ℕ)
argv =
    ssh_argv names flags (codes "cat") code_text (codes "/usr/bin/ssh") proxy (codes "uptime" ∷ [])
