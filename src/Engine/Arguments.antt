-- ===== src/Engine/Arguments.antt =====
-- What the arguments of src/beacon_engine/main.cpp can set.
use beacon_node.Base.{
  ℕ, ◌<◌, ◌≤◌, ◌^◌, List, [], ◌∷◌, ◌≡◌, Option, none, some, arith, refl, ap, ◌∙◌,
}
use beacon_node.Base.Text.{Bytes}
use beacon_node.Config.{NodeConfig, BeaconConfig}
use beacon_node.Engine.{
  Options, CommandLine, run, help, refused, Applied, taken, bad_value, unknown, parse_port,
  apply_flag, apply_option, parse_arguments,
}

abbrev pub IsPort : ℕ → Type 0
IsPort n = (1 ≤ n) × (n < 2 ^ 16)

-- Both ports of the node are ports.
abbrev pub HasPorts : Options → Type 0
HasPorts o =
    IsPort (NodeConfig.listen_port (BeaconConfig.node (Options.config o)))
    × IsPort (NodeConfig.control_port (BeaconConfig.node (Options.config o)))

-- What holds of the options that the program runs with, if it runs.
abbrev pub Runs : (Options → Type 0) → CommandLine → Type 0
Runs P (run o) = P o
Runs P help = Unit
Runs P (refused message) = Unit

abbrev OfApplied : (Options → Type 0) → Applied → Type 0
OfApplied P (taken o) = P o
OfApplied P (bad_value message) = Unit
OfApplied P unknown = Unit

abbrev OfOption : (Options → Type 0) → Option Options → Type 0
OfOption P none = Unit
OfOption P (some o) = P o

parse_port-IsPort : (value : Bytes) (port : ℕ) → parse_port value ≡ some port → IsPort port
unfolding parse_port
parse_port-IsPort value port h = ground arith

apply_flag-HasPorts :
    (o : Options) (arg : Bytes) → HasPorts o → OfOption HasPorts (apply_flag o arg)
unfolding apply_flag
apply_flag-HasPorts o arg h = ground arith

apply_option-HasPorts :
    (o : Options) (arg value : Bytes) → HasPorts o → OfApplied HasPorts (apply_option o arg value)
unfolding apply_option
apply_option-HasPorts o arg value h = grind (arith, parse_port-IsPort)

-- Whatever the arguments are, a program that runs has ports from 1 to 65535, if it starts with such.
pub parse_arguments-HasPorts :
    (o : Options) (args : List Bytes) → HasPorts o → Runs HasPorts (parse_arguments o args)
unfolding parse_arguments
parse_arguments-HasPorts o [] h = h
parse_arguments-HasPorts o (arg ∷ []) h = ground (arith, apply_flag-HasPorts o arg h)
parse_arguments-HasPorts o (arg ∷ value ∷ rest) h =
    by_kind (apply_flag o arg) (apply_option o arg value) refl refl (apply_flag-HasPorts o arg h)
      (apply_option-HasPorts o arg value h) (λ p hp. parse_arguments-HasPorts p rest hp)
      (λ p hp. parse_arguments-HasPorts p (value ∷ rest) hp)
  where
    by_kind :
        (flagged : Option Options) (applied : Applied)
        → apply_flag o arg ≡ flagged
        → apply_option o arg value ≡ applied
        → OfOption HasPorts flagged
        → OfApplied HasPorts applied
        → ((p : Options) → HasPorts p → Runs HasPorts (parse_arguments p rest))
        → ((p : Options) → HasPorts p → Runs HasPorts (parse_arguments p (value ∷ rest)))
        → Runs HasPorts (parse_arguments o (arg ∷ value ∷ rest))
    by_kind (some p) applied e a hf ha two one = ground (arith, e, one p hf)
    by_kind none (taken p) e a hf ha two one = ground (arith, e, a, two p ha)
    by_kind none (bad_value message) e a hf ha two one = ground (arith, e, a)
    by_kind none unknown e a hf ha two one = ground (arith, e, a)

-- The same options with another path of the configuration file.
abbrev pub at_path : Bytes → Options → Options
at_path path o = record o { config_path = path }

-- What the program runs with, but for the path.
abbrev pub settings : CommandLine → CommandLine
settings (run o) = run (at_path [] o)
settings help = help
settings (refused message) = refused message

abbrev elsewhere : Bytes → Option Options → Option Options
elsewhere path none = none
elsewhere path (some o) = some (at_path path o)

apply_flag-at_path :
    (path : Bytes) (o : Options) (arg : Bytes)
    → apply_flag (at_path path o) arg ≡ elsewhere path (apply_flag o arg)
unfolding apply_flag
apply_flag-at_path path o arg = ground arith

-- The same outcome but for the path of the options.
abbrev SameApplied : Applied → Applied → Type 0
SameApplied (taken o) (taken p) = at_path [] o ≡ at_path [] p
SameApplied (bad_value m) (bad_value n) = m ≡ n
SameApplied unknown unknown = Unit
SameApplied _ _ = ⊥

apply_option-at_path :
    (path : Bytes) (o : Options) (arg value : Bytes)
    → SameApplied (apply_option (at_path path o) arg value) (apply_option o arg value)
unfolding apply_option
apply_option-at_path path o arg value = ground arith

same_settings :
    (o p : Options) (args : List Bytes)
    → at_path [] o ≡ at_path [] p
    → ((path : Bytes) (q : Options)
        → settings (parse_arguments (at_path path q) args) ≡ settings (parse_arguments q args))
    → settings (parse_arguments o args) ≡ settings (parse_arguments p args)
same_settings o p args same all =
    ap (λ t. settings (parse_arguments (at_path o.config_path t) args)) same ∙ all o.config_path p

-- Nothing but the path that is printed depends on `--config`: the file is not read, so that neither the
-- settings, nor the seed nodes, nor what is refused are taken from it.
pub parse_arguments-at_path :
    (path : Bytes) (o : Options) (args : List Bytes)
    → settings (parse_arguments (at_path path o) args) ≡ settings (parse_arguments o args)
unfolding parse_arguments
parse_arguments-at_path path o [] = refl
parse_arguments-at_path path o (arg ∷ []) = by_flag (apply_flag o arg) refl
  where
    by_flag :
        (flagged : Option Options)
        → apply_flag o arg ≡ flagged
        → settings (parse_arguments (at_path path o) (arg ∷ []))
          ≡ settings (parse_arguments o (arg ∷ []))
    by_flag none e = ground (arith, e, apply_flag-at_path path o arg)
    by_flag (some p) e = ground (arith, e, apply_flag-at_path path o arg)
parse_arguments-at_path path o (arg ∷ value ∷ rest) =
    by_kind (apply_flag o arg) (apply_option (at_path path o) arg value) (apply_option o arg value)
      refl refl refl (apply_option-at_path path o arg value)
      (λ p q same. same_settings p q rest same (λ r t. parse_arguments-at_path r t rest))
      (λ p. parse_arguments-at_path path p (value ∷ rest))
  where
    by_kind :
        (flagged : Option Options) (there here : Applied)
        → apply_flag o arg ≡ flagged
        → apply_option (at_path path o) arg value ≡ there
        → apply_option o arg value ≡ here
        → SameApplied there here
        → ((p q : Options)
            → at_path [] p ≡ at_path [] q
            → settings (parse_arguments p rest) ≡ settings (parse_arguments q rest))
        → ((p : Options)
            → settings (parse_arguments (at_path path p) (value ∷ rest))
              ≡ settings (parse_arguments p (value ∷ rest)))
        → settings (parse_arguments (at_path path o) (arg ∷ value ∷ rest))
          ≡ settings (parse_arguments o (arg ∷ value ∷ rest))
    by_kind (some p) there here e a b same two one =
        ground (arith, e, apply_flag-at_path path o arg, one p)
    by_kind none (taken p) (taken q) e a b same two one =
        ground (arith, e, apply_flag-at_path path o arg, a, b, two p q same)
    by_kind none (bad_value m) (bad_value n) e a b same two one =
        ground (arith, e, apply_flag-at_path path o arg, a, b, same)
    by_kind none unknown unknown e a b same two one =
        ground (arith, e, apply_flag-at_path path o arg, a, b)
    by_kind none (taken p) (bad_value m) e a b same two one = absurd same
    by_kind none (taken p) unknown e a b same two one = absurd same
    by_kind none (bad_value m) (taken p) e a b same two one = absurd same
    by_kind none (bad_value m) unknown e a b same two one = absurd same
    by_kind none unknown (taken p) e a b same two one = absurd same
    by_kind none unknown (bad_value m) e a b same two one = absurd same
