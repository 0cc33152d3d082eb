-- ===== src/Engine.antt =====
-- src/beacon_engine/main.cpp: the command line, the seed nodes, what the registry's callback writes to
-- the log, the restart from the log, and a tick of the main loop.
--
-- `std::stoi` is modelled as the C++ library documents it for a 32-bit `int`. What the program prints is
-- not modelled, but for the values of a tick.
pub mod Arguments
pub mod Restart
pub mod Entries
pub mod Main
pub mod Ready
use beacon_node.Base.{
  ℕ, ◌+◌, ◌-◌, ◌*◌, ◌/◌, ◌%◌, ◌^◌, List, [], ◌∷◌, ◌++◌, Bool, true, false, not, ◌&&◌, ◌||◌, Option,
  none, some, ltb, leb, ◌==◌, if◌then◌else◌, length, is_empty, map,
}
use beacon_node.Base.Text.{Bytes, codes, str_eq}
use beacon_node.Config.{NodeConfig, TrustConfig, BeaconConfig, default_config}
use beacon_node.Numbers.{read_digits, starts_with_digit}
use beacon_node.Tokens.{is_space}
use beacon_node.Gossip.{GossipPeer, add_peer, select_push_entries}

-- The result of `std::stoi`: whether there is a minus sign, and the digits.
pub record Signed : Type 0 where
  pub negative : Bool
  pub magnitude : ℕ

unfoldable pub skip_spaces : Bytes → Bytes
skip_spaces [] = []
skip_spaces (c ∷ s) = if is_space c then skip_spaces s else c ∷ s

-- The greatest magnitude that an `int` holds with the sign.
abbrev pub int_limit : Bool → ℕ
int_limit true = 2 ^ 31
int_limit false = 2 ^ 31 - 1

-- The digits behind the sign; what follows them is not looked at.
unfoldable pub stoi_digits : Bool → Bytes → Option Signed
unfolding read_digits starts_with_digit
stoi_digits negative s =
    let n = (read_digits 0 s).0 in
    if not (starts_with_digit s)
    then none
    else if ltb (int_limit negative) n
    then none
    else some (record { negative = negative; magnitude = n })

unfoldable pub stoi_sign : Bytes → Option Signed
unfolding stoi_digits
stoi_sign [] = none
stoi_sign (c ∷ s) =
    if c == b'-'
    then stoi_digits true s
    else if c == b'+'
    then stoi_digits false s
    else stoi_digits false (c ∷ s)

-- `std::stoi`; none is an exception.
unfoldable pub stoi : Bytes → Option Signed
unfolding skip_spaces stoi_sign
stoi s = stoi_sign (skip_spaces s)

-- The port that `parse_port` stores; none is the result false.
unfoldable pub parse_port : Bytes → Option ℕ
unfolding stoi
parse_port value = elim (stoi value) [
  | none ↦ none
  | some parsed ↦
      if Signed.negative parsed
        || (Signed.magnitude parsed == 0 || ltb 65535 (Signed.magnitude parsed))
      then none
      else some (Signed.magnitude parsed)
]

-- `seed.find(':')`: what stands before and behind it.
unfoldable pub split_colon : Bytes → Option (Bytes × Bytes)
split_colon [] = none
split_colon (c ∷ s) =
    if c == b':'
    then some ([], s)
    else elim (split_colon s) [ none ↦ none | some parts ↦ some (c ∷ parts.0, parts.1) ]

-- `static_cast<std::uint16_t>` of an `int`
abbrev pub to_u16 : Signed → ℕ
to_u16 parsed =
    if Signed.negative parsed
    then (2 ^ 16 - Signed.magnitude parsed % 2 ^ 16) % 2 ^ 16
    else Signed.magnitude parsed % 2 ^ 16

unfoldable pub seed_port : NodeConfig → Bytes → ℕ
unfolding stoi
seed_port node text = elim (stoi text) [ none ↦ node.control_port | some parsed ↦ to_u16 parsed ]

-- The peer that a `--seed-node` argument names.
unfoldable pub seed_peer : NodeConfig → Bytes → GossipPeer
unfolding split_colon seed_port
seed_peer node seed = elim (split_colon seed) [
  | none ↦ record {
    node_id = [];
    host = seed;
    listen_port = node.listen_port;
    control_port = node.control_port;
  }
  | some (host, text) ↦
      let port = seed_port node text in
      record {
        node_id = [];
        host = host;
        listen_port = (if ltb 0 port then port - 1 else 43170);
        control_port = port;
      }
]

unfoldable pub add_seeds : NodeConfig → List GossipPeer → List Bytes → List GossipPeer
unfolding seed_peer
add_seeds node peers [] = peers
add_seeds node peers (seed ∷ seeds) = add_seeds node (add_peer peers (seed_peer node seed)) seeds

-- The local variables of `main` that the arguments set.
pub record Options : Type 0 where
  pub config_path : Bytes
  pub run_once : Bool
  pub config : BeaconConfig
  pub seed_nodes : List Bytes

abbrev pub default_options : Options
default_options = record {
  config_path = codes "config/beaconnode.example.toml";
  run_once = false;
  config = default_config;
  seed_nodes = [];
}

-- `run` goes on behind the loop; `help` returns 0 and `refused` prints its message and returns 2.
pub data CommandLine : Type 0 where
  run : Options → CommandLine
  help : CommandLine
  refused : Bytes → CommandLine

abbrev pub require_signatures : Options → Options
require_signatures o =
    let c = Options.config o in
    let t = BeaconConfig.trust c in
    record o { config = record c { trust = record t { require_signatures = true } } }

abbrev pub with_node : Options → NodeConfig → Options
with_node o node = let c = Options.config o in record o { config = record c { node = node } }

-- The arguments that stand alone.
unfoldable pub apply_flag : Options → Bytes → Option Options
apply_flag o arg =
    if str_eq arg (codes "--once")
    then some (record o { run_once = true })
    else if str_eq arg (codes "--require-signatures")
    then some (require_signatures o)
    else none

-- What an argument with a value behind it does.
pub data Applied : Type 0 where
  taken : Options → Applied
  bad_value : Bytes → Applied
  unknown : Applied

unfoldable pub apply_option : Options → Bytes → Bytes → Applied
unfolding parse_port
apply_option o arg value =
    let node = BeaconConfig.node (Options.config o) in
    if str_eq arg (codes "--config")
    then taken (record o { config_path = value })
    else if str_eq arg (codes "--node-id")
    then taken (with_node o (record node { node_id = value }))
    else if str_eq arg (codes "--listen-port")
    then elim (parse_port value) [
      | none ↦ bad_value (codes "invalid listen port")
      | some port ↦ taken (with_node o (record node { listen_port = port }))
    ]
    else if str_eq arg (codes "--control-port")
    then elim (parse_port value) [
      | none ↦ bad_value (codes "invalid control port")
      | some port ↦ taken (with_node o (record node { control_port = port }))
    ]
    else if str_eq arg (codes "--seed-node")
    then taken (record o { seed_nodes = Options.seed_nodes o ++ value ∷ [] })
    else unknown

abbrev pub unknown_argument : Bytes → CommandLine
unknown_argument arg = refused (codes "unknown argument: " ++ arg)

-- The loop over the arguments, from the second on. The last one has no value behind it.
unfoldable pub parse_arguments : Options → List Bytes → CommandLine
parse_arguments o [] = run o
parse_arguments o (arg ∷ []) =
    if str_eq arg (codes "--help")
    then help
    else elim (apply_flag o arg) [ some flagged ↦ run flagged | none ↦ unknown_argument arg ]
parse_arguments o (arg ∷ value ∷ rest) =
    if str_eq arg (codes "--help") then help else elim (apply_flag o arg) [
      | some flagged ↦ parse_arguments flagged (value ∷ rest)
      | none ↦ elim (apply_option o arg value) [
        | taken next ↦ parse_arguments next rest
        | bad_value message ↦ refused message
        | unknown ↦ unknown_argument arg
      ]
    ]
