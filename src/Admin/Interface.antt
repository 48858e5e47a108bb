-- ===== src/Admin/Interface.antt =====
-- What server/app/admin.py asks of PostgREST with the service-role key, which no policy restricts,
-- and what is relied on: a call that returned has done to the tables what it says.
use murray_context_ledger_mc.Base.{
  ◌≡◌, String, ◌==◌, Bool, true, ◌&&◌, Option, none, some, List, [], ◌∷◌, ◌++◌, map, keep, Has, All,
  if◌then◌else◌, not,
}
use murray_context_ledger_mc.Effect.{Exec, ok}
use murray_context_ledger_mc.Db.{Client}
use murray_context_ledger_mc.Store.{Tables, OrgRow, Membership, ClientRow, SeatStatus}

-- A dict of columns of `clients`; a key that is not set is `none`.
pub record SeatValues : Type 0 where
  pub org_id : Option String
  pub oauth_client_id : Option String
  pub user_id : Option String
  pub display_name : Option String
  pub connector_source : Option String
  pub granted_scopes : Option (List String)
  pub status : Option SeatStatus
  pub revoked_at : Option (Option String)

abbrev pub no_values : SeatValues
no_values = record {
  org_id = none;
  oauth_client_id = none;
  user_id = none;
  display_name = none;
  connector_source = none;
  granted_scopes = none;
  status = none;
  revoked_at = none;
}

-- `.eq("id", id)`, and `.eq("org_id", org).eq("oauth_client_id", oauth)`
pub data SeatFilter : Type 0 where
  by_id : String → SeatFilter
  by_key : String → String → SeatFilter

-- A column of `memberships` that `on_conflict` names.
pub data MemberColumn : Type 0 where
  org_column user_column : MemberColumn

-- `.eq("org_id", org)` and `.eq("user_id", user)` on `memberships`.
pub data MemberFilter : Type 0 where
  eq_member_org : String → MemberFilter
  eq_member_user : String → MemberFilter

-- What filters and conflicts read, for a reading of uuids.
module _ (canonical : String → String) where
  abbrev pub member_holds : MemberFilter → Membership → Bool
  member_holds (eq_member_org org) q = q.org_id == canonical org
  member_holds (eq_member_user user) q = q.user_id == user

  abbrev pub member_holds_all : List MemberFilter → Membership → Bool
  member_holds_all [] q = true
  member_holds_all (f ∷ []) q = member_holds f q
  member_holds_all (f ∷ g ∷ fs) q =
      let rest = member_holds_all (g ∷ fs) q in member_holds f q && rest

  abbrev pub agrees : MemberColumn → Membership → Membership → Bool
  agrees org_column m q = q.org_id == canonical m.org_id
  agrees user_column m q = q.user_id == m.user_id

  abbrev pub agrees_on : List MemberColumn → Membership → Membership → Bool
  agrees_on [] m q = true
  agrees_on (c ∷ []) m q = agrees c m q
  agrees_on (c ∷ d ∷ cs) m q = let rest = agrees_on (d ∷ cs) m q in agrees c m q && rest

abbrev pub given : {A : Type 0} → Option A → A → A
given none a = a
given (some b) a = b

abbrev pub given_source : Option String → Option String → Option String
given_source none a = a
given_source (some b) a = some b

pub record Service : Type 1 where
  pub State : Type 0
  pub tables : State → Tables
  -- Whether the key of a client is the service-role key.
  pub is_service : Client → Bool
  -- A uuid as Postgres prints it.
  pub canonical : String → String
  pub insert_org : Client → String → Exec State (List OrgRow)
  pub select_orgs : Client → Exec State (List OrgRow)
  pub upsert_membership : Client → Membership → List MemberColumn → Exec State (List Membership)
  pub delete_memberships : Client → List MemberFilter → Exec State (List Membership)
  pub select_members : Client → String → Exec State (List Membership)
  pub select_seats : Client → String → String → Exec State (List ClientRow)
  pub select_connectors : Client → String → Exec State (List ClientRow)
  pub insert_seat : Client → SeatValues → Exec State (List ClientRow)
  pub update_seats : Client → SeatValues → SeatFilter → Exec State (List ClientRow)

module _ (S : Service) where
  abbrev pub matches : SeatFilter → ClientRow → Bool
  matches (by_id id) r = r.id == S.canonical id
  matches (by_key org oauth) r = r.org_id == S.canonical org && r.oauth_client_id == oauth

  abbrev pub given_org : Option String → String → String
  given_org none a = a
  given_org (some org) a = S.canonical org

  -- A row with the values that are given.
  abbrev pub with_values : SeatValues → ClientRow → ClientRow
  with_values v r = record r {
    org_id = given_org v.org_id r.org_id;
    oauth_client_id = given v.oauth_client_id r.oauth_client_id;
    user_id = given v.user_id r.user_id;
    display_name = given v.display_name r.display_name;
    connector_source = given_source v.connector_source r.connector_source;
    granted_scopes = given v.granted_scopes r.granted_scopes;
    status = given v.status r.status;
    revoked_at = given v.revoked_at r.revoked_at;
  }

  abbrev pub updated_seats : SeatValues → SeatFilter → List ClientRow → List ClientRow
  updated_seats v f = map (λ r. if matches f r then with_values v r else r)

  abbrev pub same_pair : String → String → Membership → Bool
  same_pair org user m = m.org_id == S.canonical org && m.user_id == user

  pub record IsLawfulService : Type 0 where
    pub ids_canonical :
        (s : S.State) (r : ClientRow) → Has r (S.tables s).clients → S.canonical r.id ≡ r.id
    pub seats_keep :
        (c : Client) (org oauth : String) (s : S.State) → (S.select_seats c org oauth s).1 ≡ s
    pub seats_sound :
        (c : Client) (org oauth : String) (s : S.State) (rows : List ClientRow)
        → (S.select_seats c org oauth s).0 ≡ ok rows
        → All (λ r. Has r (S.tables s).clients × (matches (by_key org oauth) r ≡ true)) rows
    pub insert_seat_accepted :
        (c : Client) (v : SeatValues) (s : S.State) (rows : List ClientRow)
        → (S.insert_seat c v s).0 ≡ ok rows
        → (new : ClientRow) × (rows ≡ new ∷ [])
          × (with_values v new ≡ new)
          × (S.tables (S.insert_seat c v s).1
              ≡ record (S.tables s) { clients = (S.tables s).clients ++ (new ∷ []) })
    -- The rows that come back are rows that the update has met.
    pub update_seats_accepted :
        (c : Client) (v : SeatValues) (f : SeatFilter) (s : S.State) (rows : List ClientRow)
        → S.is_service c ≡ true
        → (S.update_seats c v f s).0 ≡ ok rows
        → (S.tables (S.update_seats c v f s).1
            ≡ record (S.tables s) { clients = updated_seats v f (S.tables s).clients })
          × All
              (λ r.
                (q : ClientRow) × Has q (S.tables s).clients
                × (matches f q ≡ true)
                × (r ≡ with_values v q))
              rows
    -- The row takes the place of those that agree with it on the columns of `on_conflict`.
    pub upsert_accepted :
        (c : Client) (m : Membership) (columns : List MemberColumn) (s : S.State)
        (rows : List Membership)
        → S.is_service c ≡ true
        → (S.upsert_membership c m columns s).0 ≡ ok rows
        → S.tables (S.upsert_membership c m columns s).1 ≡ record (S.tables s) {
          memberships =
              keep (λ q. not (agrees_on S.canonical columns m q)) (S.tables s).memberships
              ++ (record m { org_id = S.canonical m.org_id } ∷ []);
        }
    -- The rows that meet every filter are deleted, and come back, in any order.
    pub delete_accepted :
        (c : Client) (fs : List MemberFilter) (s : S.State) (rows : List Membership)
        → S.is_service c ≡ true
        → (S.delete_memberships c fs s).0 ≡ ok rows
        → (S.tables (S.delete_memberships c fs s).1 ≡ record (S.tables s) {
          memberships =
              keep (λ q. not (member_holds_all S.canonical fs q)) (S.tables s).memberships;
        })
          × ((m : Membership)
              → (Has m rows
                  → Has m (S.tables s).memberships × (member_holds_all S.canonical fs m ≡ true))
                × (Has m (S.tables s).memberships
                    → member_holds_all S.canonical fs m ≡ true
                    → Has m rows))
