-- ===== src/Admin.antt =====
-- server/app/admin.py: orgs, memberships and connector seats, over the service-role client. The
-- row order of a table is not specified, so an upsert may move its row.
pub mod Interface
pub mod Seats
pub mod Members
pub mod Register
use murray_context_ledger_mc.Base.{
  String, ◌<>◌, ◌==◌, Bool, true, false, Option, none, some, List, [], ◌∷◌, if◌then◌else◌, is_blank,
}
use murray_context_ledger_mc.Effect.{Exec, Result, value_error, index_error, pure, raise, ◌>>=◌}
use murray_context_ledger_mc.Config.{Settings}
use murray_context_ledger_mc.Db.{Client, service_client}
use murray_context_ledger_mc.Store.{OrgRow, Membership, Role, ClientRow, SeatStatus}
use murray_context_ledger_mc.Admin.Interface.{
  Service, SeatValues, no_values, SeatFilter, by_id, by_key, org_column, user_column, eq_member_org,
  eq_member_user,
}

-- `MEMBERSHIP_ROLES`, and the role that a text names.
unfoldable pub role_of : String → Option Role
role_of s =
    if s == "owner"
    then some Role.owner
    else if s == "rep"
    then some Role.rep
    else if s == "office"
    then some Role.office
    else none

-- `SEAT_STATUSES`, and the status that a text names.
unfoldable pub seat_status_of : String → Option SeatStatus
seat_status_of s =
    if s == "active"
    then some SeatStatus.active
    else if s == "revoked"
    then some SeatStatus.revoked
    else none

-- The first row of the answer, `data[0]`.
pub first_row : {S A : Type 0} → List A → Exec S A
first_row [] = raise index_error
first_row (r ∷ rows) = pure r

abbrev pub bad_status : String
bad_status = "status must be one of ('active', 'revoked')"

abbrev pub bad_source : String
bad_source = "connector_source must be non-empty"

-- The dict of an update of `set_seat_status`.
unfoldable pub status_values : String → SeatStatus → SeatValues
status_values now SeatStatus.active = record no_values {
  status = some SeatStatus.active;
  revoked_at = some none;
}
status_values now SeatStatus.revoked = record no_values {
  status = some SeatStatus.revoked;
  revoked_at = some (some now);
}

-- The dict that `register_connector` builds.
unfoldable pub seat_values :
    String → String → String → Option String → Option (List String) → SeatValues
seat_values org_id oauth_client_id connector_source display_name granted_scopes = record no_values {
  org_id = some org_id;
  oauth_client_id = some oauth_client_id;
  connector_source = some connector_source;
  status = some SeatStatus.active;
  revoked_at = some none;
  display_name = display_name;
  granted_scopes = granted_scopes;
}

-- `row.setdefault("display_name", display_name or oauth_client_id)`, where a name that was given
-- is in the dict already.
unfoldable pub default_name : Option String → String → Option String
default_name none oauth_client_id = some oauth_client_id
default_name (some name) oauth_client_id = some name

-- `now` is `datetime.now(UTC).isoformat()`, and `repr` Python's for texts.
module _ (S : Service) (settings : Settings) (now : String) (repr : String → String) where
  abbrev service : Client
  service = service_client settings

  unfoldable pub create_org : String → Exec S.State OrgRow
  unfolding first_row is_blank
  create_org name =
      if is_blank name
      then raise (value_error "org name must be non-empty")
      else S.insert_org service name >>= first_row

  pub list_orgs : Exec S.State (List OrgRow)
  list_orgs = S.select_orgs service

  add_as : String → String → String → Option Role → Exec S.State Membership
  unfolding first_row
  add_as org_id user_sub role none =
      raise (value_error ("role must be one of ('owner', 'rep', 'office'), got " <> repr role))
  add_as org_id user_sub role (some r) =
      S.upsert_membership service (record { org_id = org_id; user_id = user_sub; role = r })
        (org_column ∷ user_column ∷ [])
      >>= first_row

  unfoldable pub add_member : String → String → String → Exec S.State Membership
  unfolding add_as
  add_member org_id user_sub role = add_as org_id user_sub role (role_of role)

  unfoldable pub remove_member : String → String → Exec S.State (List Membership)
  remove_member org_id user_sub =
      S.delete_memberships service (eq_member_org org_id ∷ eq_member_user user_sub ∷ [])

  pub list_members : String → Exec S.State (List Membership)
  list_members org_id = S.select_members service org_id

  register_as :
      String → String → SeatValues → Option String → List ClientRow → Exec S.State ClientRow
  unfolding first_row default_name
  register_as by oauth_client_id row display_name [] =
      S.insert_seat service
        (record row { display_name = default_name display_name oauth_client_id; user_id = some by })
      >>= first_row
  register_as by oauth_client_id row display_name (r ∷ rows) =
      S.update_seats service row (by_id r.id) >>= first_row

  unfoldable pub register_connector :
      String
      → String
      → String
      → String
      → Option String
      → Option (List String)
      → Exec S.State ClientRow
  unfolding register_as seat_values
  register_connector org_id oauth_client_id connector_source by display_name granted_scopes =
      if is_blank connector_source
      then raise (value_error bad_source)
      else S.select_seats service org_id oauth_client_id
        >>= register_as by oauth_client_id
            (seat_values org_id oauth_client_id connector_source display_name granted_scopes)
            display_name

  unfoldable pub set_connector_source : String → String → String → Exec S.State (List ClientRow)
  set_connector_source org_id oauth_client_id connector_source =
      if is_blank connector_source
      then raise (value_error bad_source)
      else S.update_seats service (record no_values { connector_source = some connector_source })
          (by_key org_id oauth_client_id)

  pub list_connectors : String → Exec S.State (List ClientRow)
  list_connectors org_id = S.select_connectors service org_id

  set_as : String → String → Option SeatStatus → Exec S.State (List ClientRow)
  unfolding status_values
  set_as org_id oauth_client_id none = raise (value_error bad_status)
  set_as org_id oauth_client_id (some status) =
      S.update_seats service (status_values now status) (by_key org_id oauth_client_id)

  unfoldable pub set_seat_status : String → String → String → Exec S.State (List ClientRow)
  unfolding set_as
  set_seat_status org_id oauth_client_id status =
      set_as org_id oauth_client_id (seat_status_of status)

  unfoldable pub revoke_seat : String → String → Exec S.State (List ClientRow)
  unfolding set_seat_status
  revoke_seat org_id oauth_client_id = set_seat_status org_id oauth_client_id "revoked"

  unfoldable pub reinstate_seat : String → String → Exec S.State (List ClientRow)
  unfolding set_seat_status
  reinstate_seat org_id oauth_client_id = set_seat_status org_id oauth_client_id "active"
