-- ===== src/Tests/Office.antt =====
-- The provisioning calls over a database in memory.
use murray_context_ledger_mc.Base.{
  ◌≡◌, refl, sym, String, ◌==◌, Bool, true, not, Option, none, some, List, [], ◌∷◌, ◌++◌, map, keep,
  Has, All,
}
use murray_context_ledger_mc.Effect.{ok, err, api_error}
use murray_context_ledger_mc.Db.{Client}
use murray_context_ledger_mc.Store.{Tables, Membership, ClientRow, SeatStatus}
use murray_context_ledger_mc.Admin.Interface.{
  Service, IsLawfulService, SeatValues, SeatFilter, by_id, by_key, given, given_source, given_org,
  matches, with_values, updated_seats, MemberColumn, MemberFilter, member_holds_all, agrees_on,
}
use murray_context_ledger_mc.Admin.Members.{Has-keep, keep-Has}
use murray_context_ledger_mc.Tests.Memory.{outcome}
use murray_context_ledger_mc.Tests.Selected.{outcome-ok, outcome_done, outcome-state, keep_sound}

abbrev pub is_service : Client → Bool
is_service c = c.key == "service"

abbrev pub blank_seat : ClientRow
blank_seat = record {
  id = "seat";
  org_id = "";
  user_id = "";
  oauth_client_id = "";
  display_name = "";
  granted_scopes = "personal" ∷ "work" ∷ [];
  status = SeatStatus.active;
  connector_source = none;
  revoked_at = none;
  created_at = "";
}

-- What filters and values read: uuids are kept as they are written.
abbrev idle : Service
idle = record {
  State = Tables;
  tables = λ t. t;
  is_service = is_service;
  canonical = λ id. id;
  insert_org = λ c n t. (err (api_error "42501"), t);
  select_orgs = λ c t. (ok t.orgs, t);
  upsert_membership = λ c m columns t. (err (api_error "42501"), t);
  delete_memberships = λ c fs t. (err (api_error "42501"), t);
  select_members = λ c org t. (ok (keep (λ m. m.org_id == org) t.memberships), t);
  select_seats = λ c org oauth t. (err (api_error "42501"), t);
  select_connectors = λ c org t. (ok (keep (λ r. r.org_id == org) t.clients), t);
  insert_seat = λ c v t. (err (api_error "42501"), t);
  update_seats = λ c v f t. (err (api_error "42501"), t);
}

abbrev chosen : SeatFilter → List ClientRow → List ClientRow
chosen f = keep (matches idle f)

abbrev put : Membership → List MemberColumn → Tables → Tables
put m columns t = record t {
  memberships = keep (λ q. not (agrees_on (λ id. id) columns m q)) t.memberships ++ (m ∷ []);
}

abbrev removed : List MemberFilter → Tables → List Membership
removed fs t = keep (member_holds_all (λ id. id) fs) t.memberships

abbrev drop : List MemberFilter → Tables → Tables
drop fs t = record t {
  memberships = keep (λ q. not (member_holds_all (λ id. id) fs q)) t.memberships;
}

abbrev pub office : Service
office = record idle {
  upsert_membership = λ c m columns t. outcome (is_service c) "42501" (m ∷ []) (put m columns t) t;
  delete_memberships = λ c fs t. outcome (is_service c) "42501" (removed fs t) (drop fs t) t;
  select_seats =
      λ c org oauth t. outcome (is_service c) "42501" (chosen (by_key org oauth) t.clients) t t;
  insert_seat = λ c v t.
      outcome (is_service c) "42501" (with_values idle v blank_seat ∷ [])
        (record t { clients = t.clients ++ (with_values idle v blank_seat ∷ []) }) t;
  update_seats = λ c v f t.
      outcome (is_service c) "42501" (map (with_values idle v) (chosen f t.clients))
        (record t { clients = updated_seats idle v f t.clients }) t;
}

matches-office : (f : SeatFilter) (r : ClientRow) → matches office f r ≡ matches idle f r
matches-office (by_id id) r = refl
matches-office (by_key org oauth) r = refl

updated-office :
    (v : SeatValues) (f : SeatFilter) (rs : List ClientRow)
    → updated_seats idle v f rs ≡ updated_seats office v f rs
updated-office v f [] = refl
updated-office v f (r ∷ rs) = rw (matches-office f r, updated-office v f rs) refl

given_twice : {A : Type 0} (o : Option A) (a : A) → given o (given o a) ≡ given o a
given_twice none a = refl
given_twice (some b) a = refl

org_twice :
    (o : Option String) (a : String)
    → given_org office o (given_org office o a) ≡ given_org office o a
org_twice none a = refl
org_twice (some b) a = refl

source_twice : (o a : Option String) → given_source o (given_source o a) ≡ given_source o a
source_twice none a = refl
source_twice (some b) a = refl

-- A row that has its values keeps them.
with_values_twice :
    (v : SeatValues) (r : ClientRow)
    → with_values office v (with_values office v r) ≡ with_values office v r
with_values_twice v r = λ i. record r {
  org_id = org_twice v.org_id r.org_id i;
  oauth_client_id = given_twice v.oauth_client_id r.oauth_client_id i;
  user_id = given_twice v.user_id r.user_id i;
  display_name = given_twice v.display_name r.display_name i;
  connector_source = source_twice v.connector_source r.connector_source i;
  granted_scopes = given_twice v.granted_scopes r.granted_scopes i;
  status = given_twice v.status r.status i;
  revoked_at = given_twice v.revoked_at r.revoked_at i;
}

abbrev Met : SeatValues → SeatFilter → Tables → ClientRow → Type 0
Met v f t r =
    (q : ClientRow) × Has q t.clients × (matches office f q ≡ true) × (r ≡ with_values office v q)

met :
    (v : SeatValues) (f : SeatFilter) (t : Tables) (rs : List ClientRow)
    → All (λ q. Has q t.clients × (matches idle f q ≡ true)) rs
    → All (Met v f t) (map (with_values idle v) rs)
met v f t [] h = tt
met v f t (r ∷ rs) ((m, k), h) = ((r, m, rw matches-office k, refl), met v f t rs h)

pub office-IsLawfulService : IsLawfulService office
office-IsLawfulService = record {
  ids_canonical = λ s r m. refl;
  seats_keep = λ c org oauth s.
      outcome-state (λ t. t ≡ s) (is_service c) "42501" (chosen (by_key org oauth) s.clients) s s
        refl refl;
  seats_sound = λ c org oauth s rows h.
      rw (← (outcome-ok (is_service c) "42501" (chosen (by_key org oauth) s.clients) rows s s h).1)
        (keep_sound (matches idle (by_key org oauth)) s.clients);
  insert_seat_accepted = λ c v s rows h.
      let new = with_values idle v blank_seat in
      let t : Tables = record s { clients = s.clients ++ (new ∷ []) } in
      let (may, same) = outcome-ok (is_service c) "42501" (new ∷ []) rows t s h in
      (
        new,
        sym same,
        with_values_twice v blank_seat,
        outcome_done (is_service c) "42501" (new ∷ []) t s may,
      );
  update_seats_accepted = λ c v f s rows is h.
      let t : Tables = record s { clients = updated_seats idle v f s.clients } in
      let out = map (with_values idle v) (chosen f s.clients) in
      let (may, same) = outcome-ok (is_service c) "42501" out rows t s h in
      (
        rw (← updated-office v f s.clients) (outcome_done (is_service c) "42501" out t s may),
        rw (← same) (met v f s (chosen f s.clients) (keep_sound (matches idle f) s.clients)),
      );
  upsert_accepted = λ c m columns s rows is h.
      outcome_done (is_service c) "42501" (m ∷ []) (put m columns s) s is;
  delete_accepted = λ c fs s rows is h.
      let p = member_holds_all (λ id. id) fs in
      let same = (outcome-ok (is_service c) "42501" (removed fs s) rows (drop fs s) s h).1 in
      (
        outcome_done (is_service c) "42501" (removed fs s) (drop fs s) s is,
        λ m. (
          λ inside. Has-keep p m s.memberships (rw (← same) at inside),
          λ inside meets. rw (← same) (keep-Has p m s.memberships inside meets),
        ),
      );
}
