-- ===== src/System/Dbus.antt =====
-- src/proxylib/system/_posix/_networkmanager.py: the proxy settings of NetworkManager over D-Bus, as
-- `dbus-send` prints them; and how src/proxylib/system/_run.py runs a program. Finding and running a program
-- are arguments.
pub mod Paths
use proxylib.Prelude.{
  ℕ, zero, suc, ◌+◌, ◌-◌, Bool, true, false, not, ◌&&◌, Option, none, some, List, [], ◌∷◌, ◌++◌,
  eqb, if◌then◌else◌, length, drop,
}
use proxylib.Python.Text.{Text, text, is_space, is_empty, starts_with, lstrip, cut, ◌==◌}
use proxylib.Python.Dict
use proxylib.Python.Dict.{Dict}

-- what a program that was found comes to: it cannot be run or is stopped, or its code and its output
pub data Ran : Type 0 where
  failed : Ran
  exited : ℕ → Text → Ran

-- `_which_cache`, and the rest of the program's state
pub record Programs (S : Type 0) : Type 0 where
  pub which_cache : Dict Text (Option Text)
  pub rest : S

module _ {S : Type 0} (find_program : Text → S → Option Text × S)
    (run_program : Text → List Text → S → Ran × S) where
  -- `which`
  unfoldable pub which : Text → Programs S → Option Text × Programs S
  which name w = elim (Dict.get ◌==◌ w.which_cache name) [
    | some found ↦ (found, w)
    | none ↦
        let (found, s) = find_program name w.rest in
        (found, record { which_cache = Dict.set ◌==◌ w.which_cache name found; rest = s })
  ]

  unfoldable pub output_of : Ran → Option Text
  output_of failed = none
  output_of (exited zero stdout) = some stdout
  output_of (exited (suc code) stdout) = none

  -- `run`, of a program and its arguments
  unfoldable pub run : Text → List Text → Programs S → Option Text × Programs S
  run name args w =
      let (program, w') = which name w in
      elim program [
        | none ↦ (none, w')
        | some path ↦
            let (ran, s) = run_program path args w'.rest in (output_of ran, record w' { rest = s })
      ]

-- a part of a regular expression at the start of a text: what it captures, and what is left
unfoldable pub literal : Text → Text → Option Text
literal word s = if starts_with s word then some (drop (length word) s) else none

-- `([^"]*)"`
unfoldable pub until_quote : Text → Option (Text × Text)
until_quote [] = none
until_quote (c ∷ s) =
    if eqb c b'"'
    then some ([], s)
    else elim (until_quote s) [ none ↦ none | some (captured, rest) ↦ some (c ∷ captured, rest) ]

-- `([^"]+)"`
unfoldable pub until_quote_some : Text → Option (Text × Text)
until_quote_some s = elim (until_quote s) [
  | none ↦ none
  | some (captured, rest) ↦ if is_empty captured then none else some (captured, rest)
]

-- `object path "([^"]+)"`
unfoldable pub path_at : Text → Option (Text × Text)
path_at s = elim (literal (text "object path \"") s) [ none ↦ none | some t ↦ until_quote_some t ]

-- `\s+string "([^"]*)"`
value_at : Text → Option (Text × Text)
value_at [] = none
value_at (c ∷ t) =
    if not (is_space c) then none else elim (literal (text "string \"") (lstrip is_space t)) [
      | none ↦ none
      | some u ↦ until_quote u
    ]

after_name : Text → Text → Option ((Text × Text) × Text)
after_name name t = elim (literal (text "variant") (lstrip is_space t)) [
  | none ↦ none
  | some u ↦ elim (value_at u) [ none ↦ none | some (value, rest) ↦ some ((name, value), rest) ]
]

-- `string "([^"]+)"\s*variant\s+string "([^"]*)"`
unfoldable pub pair_at : Text → Option ((Text × Text) × Text)
unfolding value_at after_name
pair_at s = elim (literal (text "string \"") s) [
  | none ↦ none
  | some t ↦ elim (until_quote_some t) [ none ↦ none | some (name, u) ↦ after_name name u ]
]

-- `re.findall`, of an expression that never matches an empty text: `skip` characters belong to the
-- match before
unfoldable pub find_all : {A : Type 0} → (Text → Option (A × Text)) → ℕ → Text → List A
find_all at skip [] = []
find_all at (suc skip) (c ∷ s) = find_all at skip s
find_all at zero (c ∷ s) = elim (at (c ∷ s)) [
  | none ↦ find_all at 0 s
  | some (captured, rest) ↦ captured ∷ find_all at (length s - length rest) s
]

-- `_object_paths`
unfoldable pub object_paths : Text → List Text
object_paths reply = find_all path_at 0 reply

-- the text up to the bracket that closes the first one, or to the end
unfoldable pub group_text : ℕ → Text → Text
group_text depth [] = []
group_text depth (c ∷ s) =
    let depth' = if eqb c b'[' then depth + 1 else if eqb c b']' then depth - 1 else depth in
    let rest = group_text depth' s in if eqb c b']' && eqb depth' 0 then c ∷ [] else c ∷ rest

-- the text from the first bracket on
unfoldable pub from_bracket : Text → Option Text
from_bracket s = elim (cut (text "[") s) [
  | none ↦ none
  | some (before, after) ↦ some (b'[' ∷ after)
]

unfoldable pub to_dict : List (Text × Text) → Dict Text Text → Dict Text Text
to_dict [] d = d
to_dict ((k, v) ∷ more) d = to_dict more (Dict.set ◌==◌ d k v)

-- `_proxy_group_values`
unfoldable pub proxy_group_values : Text → Dict Text Text
proxy_group_values reply = elim (cut (text "string \"proxy\"") reply) [
  | none ↦ []
  | some (before, after) ↦ elim (from_bracket after) [
    | none ↦ []
    | some group ↦ to_dict (find_all pair_at 0 (group_text 0 group)) []
  ]
]

-- `if not reply`
unfoldable pub given_reply : Option Text → Option Text
given_reply none = none
given_reply (some []) = none
given_reply (some (c ∷ s)) = some (c ∷ s)

module _ {S : Type 0} (find_program : Text → S → Option Text × S)
    (run_program : Text → List Text → S → Ran × S) where
  abbrev pub nm_dest : Text
  nm_dest = text "org.freedesktop.NetworkManager"

  -- `_dbus_send`
  unfoldable pub dbus_send : List Text → Programs S → Option Text × Programs S
  dbus_send args =
      run find_program run_program (text "dbus-send")
        (text "--system" ∷ text "--print-reply" ∷ (text "--dest=" ++ nm_dest) ∷ args)

  paths_in : Option Text → List Text
  paths_in none = []
  paths_in (some reply) = object_paths reply

  -- the settings of one connection, whose settings have the paths
  unfoldable pub group_at : List Text → Programs S → Dict Text Text × Programs S
  group_at [] w = ([], w)
  group_at (path ∷ more) w =
      let (reply, w') =
        dbus_send (path ∷ (nm_dest ++ text ".Settings.Connection.GetSettings") ∷ []) w in
      elim (given_reply reply) [
        | none ↦ ([], w')
        | some settings ↦ (proxy_group_values settings, w')
      ]

  -- the body of the loop over the active connections
  unfoldable pub group_of : Text → Programs S → Dict Text Text × Programs S
  unfolding paths_in
  group_of active_path w =
      let (reply, w') =
        dbus_send
          (active_path
            ∷ text "org.freedesktop.DBus.Properties.Get"
            ∷ (text "string:" ++ (nm_dest ++ text ".Connection.Active"))
            ∷ text "string:Connection"
            ∷ [])
          w in
      group_at (paths_in (given_reply reply)) w'

  unfoldable pub first_group : List Text → Programs S → Option (Dict Text Text) × Programs S
  first_group [] w = (none, w)
  first_group (active_path ∷ more) w =
      let (group, w') = group_of active_path w in
      elim group [ [] ↦ first_group more w' | e ∷ es ↦ (some (e ∷ es), w') ]

  groups_in : Option Text → Programs S → Option (Dict Text Text) × Programs S
  groups_in none w = (none, w)
  groups_in (some reply) w = first_group (object_paths reply) w

  found_sender : Option Text → Programs S → Option (Dict Text Text) × Programs S
  unfolding groups_in
  found_sender none w = (none, w)
  found_sender (some program) w =
      let (reply, w') =
        dbus_send
          (text "/org/freedesktop/NetworkManager"
            ∷ text "org.freedesktop.DBus.Properties.Get"
            ∷ (text "string:" ++ nm_dest)
            ∷ text "string:ActiveConnections"
            ∷ [])
          w in
      groups_in (given_reply reply) w'

  -- `_proxy_settings_via_dbus_send`
  unfoldable pub dbus_settings : Programs S → Option (Dict Text Text) × Programs S
  unfolding found_sender
  dbus_settings w =
      let (program, w') = which find_program run_program (text "dbus-send") w in
      found_sender program w'
