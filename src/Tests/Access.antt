-- ===== src/Tests/Access.antt =====
-- Runs of whole tool calls, and of `_begin`, for the callers of the small ledger.
use murray_context_ledger_mc.Base.{
  ◌≡◌, ◌≢◌, refl, ◌≤◌, ◌⊎◌, String, false, ◌&&◌, some, none, List, [], ◌∷◌, length, contains, Has,
}
use murray_context_ledger_mc.Effect.{Result, ok, err, value_error}
use murray_context_ledger_mc.Effect.Runs.{Runs}
use murray_context_ledger_mc.Auth.{AccessToken}
use murray_context_ledger_mc.Db.{Client, client_for_subject}
use murray_context_ledger_mc.Store.{Tables, ClientRow, Membership, Role, SeatStatus, user_org_ids}
use murray_context_ledger_mc.Store.Returned.{OwnSeat}
use murray_context_ledger_mc.Server.Env.{Env}
use murray_context_ledger_mc.Server.Context.{
  ToolContext, resolve_membership, resolve_client, context, caller_client, begin, finish, audit_row,
  no_org_message, multi_org_message, unauthenticated_message, revoked_client_message,
}
use murray_context_ledger_mc.Server.Context.Org.{own, resolve_membership_classes}
use murray_context_ledger_mc.Server.Context.Seat.{Registered, resolve_client_returned}
use murray_context_ledger_mc.Server.Context.Begin.{Begun, begin_returned}
use murray_context_ledger_mc.Server.Scope.{may_review, effective_scopes}
use murray_context_ledger_mc.Server.Scope.Effective.{may_see, contains-effective_scopes}
use murray_context_ledger_mc.Server.Tools.Review.{review_denied_message}
use murray_context_ledger_mc.Server.Request.{
  ping_request, promote_request, tool_of, arguments_of, serve,
}
use murray_context_ledger_mc.Server.Request.Audited.{OneRow, serve-OneRow}
use murray_context_ledger_mc.Server.Request.Stopped.{
  UnchangedButLog, serve_unauthenticated, serve-revoked,
}
use murray_context_ledger_mc.Server.Request.Denied.{serve_denied}
use murray_context_ledger_mc.Tests.Seated.{memory-IsLawful}
use murray_context_ledger_mc.Tests.World.{
  world, as_user, as_user-IsLawfulEnv, token_of, ledger, coffee, owner_context, value, returned,
}

abbrev rep : Env
rep = as_user "u2" "app"

abbrev owner : Env
owner = as_user "u1" "app"

abbrev old_owner : Env
old_owner = as_user "u1" "old"

abbrev ping_run : Result String × Tables
ping_run = serve rep ping_request ledger

ping-Runs : Runs (serve rep ping_request) ledger (value "" ping_run) ping_run.1
unfolding serve murray_context_ledger_mc.Server.Tools.Read.ping begin client_for_subject
    user_org_ids audit_row
ping-Runs = returned (serve rep ping_request) ledger "" refl

serve-OneRow_example :
    OneRow rep (tool_of ping_request) (arguments_of ping_request) ledger ping_run.1
serve-OneRow_example =
    serve-OneRow rep (as_user-IsLawfulEnv "u2" "app") ping_request ledger (value "" ping_run)
      ping_run.1 ping-Runs

abbrev begin_run : Result ToolContext × Tables
begin_run = begin rep "ping" (arguments_of ping_request) ledger

begin-Runs :
    Runs
      (begin rep "ping" (arguments_of ping_request))
      ledger
      (value owner_context begin_run)
      begin_run.1
unfolding begin client_for_subject user_org_ids
begin-Runs = returned (begin rep "ping" (arguments_of ping_request)) ledger owner_context refl

begin_example :
    Begun rep "ping" (arguments_of ping_request) ledger (value owner_context begin_run) begin_run.1
begin_example =
    begin_returned rep (as_user-IsLawfulEnv "u2" "app") "ping" (arguments_of ping_request) ledger
      (value owner_context begin_run) begin_run.1 begin-Runs

abbrev no_seat : ClientRow
no_seat = record {
  id = "";
  org_id = "";
  user_id = "";
  oauth_client_id = "";
  display_name = "";
  granted_scopes = [];
  status = SeatStatus.active;
  connector_source = none;
  revoked_at = none;
  created_at = "";
}

-- The seat of a client that is not registered yet.
abbrev seat_run : Result ClientRow × Tables
seat_run = resolve_client owner owner_context.db "o1" "u1" "new" ledger

seat-Runs :
    Runs
      (resolve_client owner owner_context.db "o1" "u1" "new")
      ledger
      (value no_seat seat_run)
      seat_run.1
unfolding resolve_client user_org_ids
seat-Runs = returned (resolve_client owner owner_context.db "o1" "u1" "new") ledger no_seat refl

resolve_client_example :
    OwnSeat seat_run.1 "u1" "o1" "new" (value no_seat seat_run)
    × Registered ledger (value no_seat seat_run) seat_run.1
resolve_client_example =
    resolve_client_returned owner memory-IsLawful owner_context.db "o1" "u1" "new" refl ledger
      (value no_seat seat_run) seat_run.1 seat-Runs

abbrev memberships : List Membership
memberships = record { org_id = "o1"; user_id = "u1"; role = Role.owner } ∷ []

resolve_membership_example :
    (length (own ledger "u1") ≡ 0
      → resolve_membership owner owner_context.db "u1" ledger
        ≡ (err (value_error no_org_message), ledger))
    × (2 ≤ length (own ledger "u1")
        → resolve_membership owner owner_context.db "u1" ledger
          ≡ (err (value_error multi_org_message), ledger))
    × (length (own ledger "u1") ≡ 1
        → (m : Membership) × Has m ledger.memberships
          × (m.user_id ≡ "u1")
          × (resolve_membership owner owner_context.db "u1" ledger
              ≡ (ok (m.org_id, m.role), ledger)))
resolve_membership_example =
    resolve_membership_classes owner memory-IsLawful owner_context.db "u1" ledger memberships refl
      refl

abbrev office_context : ToolContext
office_context = record owner_context { role = Role.office }

contains-effective_scopes_example :
    ((scope : String)
      → contains (effective_scopes office_context none) scope
        ≡ (contains ("personal" ∷ "work" ∷ []) scope && may_see Role.office scope))
    × (Role.office ≡ Role.owner → effective_scopes office_context none ≡ "personal" ∷ "work" ∷ [])
contains-effective_scopes_example = contains-effective_scopes office_context none

no_token : (t : AccessToken) → none ≡ some t → (t.subject ≡ none) ⊎ (t.subject ≡ some "")
no_token t h = cc

serve_unauthenticated_example :
    serve (world none) (promote_request coffee) ledger
    ≡ (err (value_error unauthenticated_message), ledger)
serve_unauthenticated_example =
    serve_unauthenticated (world none) (promote_request coffee) ledger no_token

abbrev old_token : AccessToken
old_token = token_of "u1" "old"

abbrev old_client : Client
old_client = caller_client old_owner "u1" old_token.claims

abbrev org_run : Result (String × Role) × Tables
org_run = resolve_membership old_owner old_client "u1" ledger

abbrev org : String × Role
org = ("o1", Role.owner)

org_found : org_run.0 ≡ ok org
unfolding resolve_membership caller_client client_for_subject
org_found = refl

org-Runs : Runs (resolve_membership old_owner old_client "u1") ledger org org_run.1
org-Runs i = (org_found i, org_run.1)

abbrev old_seat_run : Result ClientRow × Tables
old_seat_run = resolve_client old_owner old_client "o1" "u1" "old" org_run.1

old_seat-Runs :
    Runs
      (resolve_client old_owner old_client "o1" "u1" "old")
      org_run.1
      (value no_seat old_seat_run)
      old_seat_run.1
unfolding resolve_client caller_client client_for_subject resolve_membership user_org_ids
old_seat-Runs =
    returned (resolve_client old_owner old_client "o1" "u1" "old") org_run.1 no_seat refl

abbrev old_context : ToolContext
old_context =
    context old_owner old_client "u1" org (value no_seat old_seat_run)
      (tool_of (promote_request coffee)) (arguments_of (promote_request coffee))

abbrev old_run : Result Unit × Tables
old_run = finish old_owner old_context [] old_seat_run.1

old-Runs : Runs (finish old_owner old_context []) old_seat_run.1 tt old_run.1
unfolding finish context caller_client client_for_subject user_org_ids audit_row resolve_client
    resolve_membership
old-Runs = returned (finish old_owner old_context []) old_seat_run.1 tt refl

revoked : (value no_seat old_seat_run).status ≡ SeatStatus.revoked
unfolding resolve_client caller_client client_for_subject user_org_ids resolve_membership
revoked = refl

abbrev first_user : String
first_user = "u1"

some_subject : first_user ≢ ""
some_subject h = cc

serve-revoked_example :
    (serve old_owner (promote_request coffee) ledger
      ≡ (err (value_error revoked_client_message), old_run.1))
    × UnchangedButLog old_owner ledger old_context old_run.1
serve-revoked_example =
    serve-revoked old_owner (as_user-IsLawfulEnv "u1" "old") (promote_request coffee) old_token "u1"
      org (value no_seat old_seat_run) ledger org_run.1 old_seat_run.1 old_run.1 refl refl
      some_subject org-Runs old_seat-Runs revoked old-Runs

abbrev denied_begin : Result ToolContext × Tables
denied_begin = begin rep "promote_fact" (arguments_of (promote_request coffee)) ledger

abbrev denied_context : ToolContext
denied_context = value owner_context denied_begin

denied_begins :
    Runs
      (begin rep "promote_fact" (arguments_of (promote_request coffee)))
      ledger
      denied_context
      denied_begin.1
unfolding begin client_for_subject user_org_ids
denied_begins =
    returned (begin rep "promote_fact" (arguments_of (promote_request coffee))) ledger owner_context
      refl

abbrev denied_run : Result Unit × Tables
denied_run = finish rep denied_context [] denied_begin.1

denied-Runs : Runs (finish rep denied_context []) denied_begin.1 tt denied_run.1
unfolding finish begin client_for_subject user_org_ids audit_row
denied-Runs = returned (finish rep denied_context []) denied_begin.1 tt refl

is_rep : may_review denied_context.role ≡ false
unfolding may_review begin client_for_subject user_org_ids
is_rep = refl

serve_denied_example :
    (serve rep (promote_request coffee) ledger
      ≡ (err (value_error review_denied_message), denied_run.1))
    × UnchangedButLog rep ledger denied_context denied_run.1
unfolding tool_of
serve_denied_example =
    serve_denied rep (as_user-IsLawfulEnv "u2" "app") (promote_request coffee) denied_context ledger
      denied_begin.1 denied_run.1 refl denied_begins is_rep denied-Runs
