-- ===== src/Scripts/LedgerAdmin.antt =====
-- scripts/ledger_admin.py: the commands with their options, what each runs, and `_scopes`. How
-- `argparse` reads the command line is the parameter `parse_args`, which is given the options.
pub mod Words
pub mod Commands
use Prim.Native.Char.{Char, code}
use murray_context_ledger_mc.Base.{
  String, ◌==◌, not, ◌&&◌, eqb, Bool, true, false, Option, none, some, List, [], ◌∷◌, map, keep,
  is_space, if◌then◌else◌,
}
use murray_context_ledger_mc.Effect.{Exec, pure, ◌>>=◌}
use murray_context_ledger_mc.Config.{Settings}
use murray_context_ledger_mc.Store.{OrgRow, Membership, ClientRow}
use murray_context_ledger_mc.Admin.Interface.{Service}
use murray_context_ledger_mc.Admin.{
  create_org, list_orgs, add_member, remove_member, list_members, register_connector,
  set_connector_source, list_connectors, revoke_seat, reinstate_seat,
}

-- Python's `s.split(",")`
extend : Char → List String → List String
extend c [] = String.◌∷◌ c "" ∷ []
extend c (w ∷ ws) = String.◌∷◌ c w ∷ ws

unfoldable pub split_commas : String → List String
unfolding extend
split_commas String.[] = "" ∷ []
split_commas (String.◌∷◌ c s) =
    let rest = split_commas s in if eqb (code c) b',' then "" ∷ rest else extend c rest

-- Python's `s.strip()`
unfoldable pub lstrip : String → String
unfolding is_space
lstrip String.[] = ""
lstrip (String.◌∷◌ c s) = let rest = lstrip s in if is_space (code c) then rest else String.◌∷◌ c s

unfoldable pub rstrip : String → String
unfolding is_space
rstrip String.[] = ""
rstrip (String.◌∷◌ c s) =
    let rest = rstrip s in if rest == "" && is_space (code c) then "" else String.◌∷◌ c rest

unfoldable pub strip : String → String
unfolding lstrip rstrip
strip s = rstrip (lstrip s)

-- `_scopes`
unfoldable pub scopes : Option String → Option (List String)
unfolding split_commas strip
scopes none = none
scopes (some value) = some (keep (λ s. not (s == "")) (map strip (split_commas value)))

-- `p.add_argument(flag, required=…, choices=…)`
pub record Argument : Type 0 where
  pub flag : String
  pub required : Bool
  pub choices : Option (List String)

abbrev required_text : String → Argument
required_text flag = record { flag = flag; required = true; choices = none }

abbrev optional_text : String → Argument
optional_text flag = record { flag = flag; required = false; choices = none }

-- `admin.MEMBERSHIP_ROLES`
abbrev pub membership_roles : List String
membership_roles = "owner" ∷ "rep" ∷ "office" ∷ []

-- The namespace that `parse_args` returns, by the command that it has read.
pub data Command : Type 0 where
  create_org_command : String → Command
  list_orgs_command : Command
  -- org, user, role
  add_member_command : String → String → String → Command
  remove_member_command : String → String → Command
  list_members_command : String → Command
  -- org, client id, source, registered by, display name, scopes
  register_connector_command :
      String → String → String → String → Option String → Option String → Command
  set_connector_source_command : String → String → String → Command
  list_connectors_command : String → Command
  revoke_seat_command : String → String → Command
  reinstate_seat_command : String → String → Command

-- The subcommands of `build_parser` and their options.
unfoldable pub build_parser : List (String × List Argument)
build_parser =
    ("create-org", required_text "--name" ∷ [])
    ∷ ("list-orgs", [])
    ∷ (
      "add-member",
      required_text "--org"
          ∷ required_text "--user"
          ∷ record { flag = "--role"; required = true; choices = some membership_roles }
          ∷ [],
    )
    ∷ ("remove-member", required_text "--org" ∷ required_text "--user" ∷ [])
    ∷ ("list-members", required_text "--org" ∷ [])
    ∷ (
      "register-connector",
      required_text "--org"
          ∷ required_text "--client-id"
          ∷ required_text "--source"
          ∷ required_text "--registered-by"
          ∷ optional_text "--display-name"
          ∷ optional_text "--scopes"
          ∷ [],
    )
    ∷ (
      "set-connector-source",
      required_text "--org" ∷ required_text "--client-id" ∷ required_text "--source" ∷ [],
    )
    ∷ ("list-connectors", required_text "--org" ∷ [])
    ∷ ("revoke-seat", required_text "--org" ∷ required_text "--client-id" ∷ [])
    ∷ ("reinstate-seat", required_text "--org" ∷ required_text "--client-id" ∷ [])
    ∷ []

-- The name of the subcommand, and the option values that the namespace holds.
unfoldable pub command_name : Command → String
command_name (create_org_command name) = "create-org"
command_name list_orgs_command = "list-orgs"
command_name (add_member_command org user role) = "add-member"
command_name (remove_member_command org user) = "remove-member"
command_name (list_members_command org) = "list-members"
command_name (register_connector_command org client source by name scopes) = "register-connector"
command_name (set_connector_source_command org client source) = "set-connector-source"
command_name (list_connectors_command org) = "list-connectors"
command_name (revoke_seat_command org client) = "revoke-seat"
command_name (reinstate_seat_command org client) = "reinstate-seat"

-- What `args.func(args)` returns, before it is printed as JSON.
pub data Printed : Type 0 where
  org : OrgRow → Printed
  orgs : List OrgRow → Printed
  member : Membership → Printed
  members : List Membership → Printed
  seat : ClientRow → Printed
  seats : List ClientRow → Printed

module _ (S : Service) (settings : Settings) (now : String) (repr : String → String) where
  -- The lambdas of `set_defaults(func=…)`.
  unfoldable pub run_command : Command → Exec S.State Printed
  unfolding scopes
  run_command (create_org_command name) = create_org S settings now repr name >>= λ r. pure (org r)
  run_command list_orgs_command = list_orgs S settings now repr >>= λ rows. pure (orgs rows)
  run_command (add_member_command o user role) =
      add_member S settings now repr o user role >>= λ m. pure (member m)
  run_command (remove_member_command o user) =
      remove_member S settings now repr o user >>= λ rows. pure (members rows)
  run_command (list_members_command o) =
      list_members S settings now repr o >>= λ rows. pure (members rows)
  run_command (register_connector_command o client source by name value) =
      register_connector S settings now repr o client source by name (scopes value) >>= λ r.
      pure (seat r)
  run_command (set_connector_source_command o client source) =
      set_connector_source S settings now repr o client source >>= λ rows. pure (seats rows)
  run_command (list_connectors_command o) =
      list_connectors S settings now repr o >>= λ rows. pure (seats rows)
  run_command (revoke_seat_command o client) =
      revoke_seat S settings now repr o client >>= λ rows. pure (seats rows)
  run_command (reinstate_seat_command o client) =
      reinstate_seat S settings now repr o client >>= λ rows. pure (seats rows)

  -- `main`: the text that is printed, with exit code 0. `parse_args` ends the program with a code of
  -- its own, and nothing is run, where the command line does not fit the options or asks for help.
  module _ (Argv : Type 0) (parse_args : List (String × List Argument) → Argv → Option Command)
      (json_dumps : Printed → String) where
    main_with : Option Command → Exec S.State (Option String)
    unfolding run_command
    main_with none = pure none
    main_with (some command) = run_command command >>= λ result. pure (some (json_dumps result))

    unfoldable pub main : Argv → Exec S.State (Option String)
    unfolding main_with
    main argv = main_with (parse_args build_parser argv)
