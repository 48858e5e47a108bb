-- ===== src/Scripts/LedgerAdmin/Commands.antt =====
-- The options fit what the commands run.
use murray_context_ledger_mc.Base.{
  ◌≡◌, refl, String, Bool, true, false, Option, none, some, map, contains, arith,
}
use murray_context_ledger_mc.Store.{Role}
use murray_context_ledger_mc.Admin.{role_of}
use murray_context_ledger_mc.Scripts.LedgerAdmin.{
  Command, create_org_command, list_orgs_command, add_member_command, remove_member_command,
  list_members_command, register_connector_command, set_connector_source_command,
  list_connectors_command, revoke_seat_command, reinstate_seat_command, build_parser, command_name,
  membership_roles,
}

abbrev is_role : Option Role → Bool
is_role none = false
is_role (some r) = true

-- The choices of `--role` are the roles that `add_member` takes.
role_of-choices : (role : String) → is_role (role_of role) ≡ contains membership_roles role
unfolding role_of
role_of-choices role = ground arith

-- Every command that runs is one that the parser offers.
command_name-offered :
    (c : Command) → contains (map (λ (p : String × _). p.0) build_parser) (command_name c) ≡ true
unfolding build_parser command_name
command_name-offered (create_org_command name) = refl
command_name-offered list_orgs_command = refl
command_name-offered (add_member_command org user role) = refl
command_name-offered (remove_member_command org user) = refl
command_name-offered (list_members_command org) = refl
command_name-offered (register_connector_command org client source by name scopes) = refl
command_name-offered (set_connector_source_command org client source) = refl
command_name-offered (list_connectors_command org) = refl
command_name-offered (revoke_seat_command org client) = refl
command_name-offered (reinstate_seat_command org client) = refl
