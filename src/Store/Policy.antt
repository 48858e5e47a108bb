-- ===== src/Store/Policy.antt =====
-- The row-level policies of supabase/migrations/0003_org_tenancy.sql, for a caller whose token
-- carries `sub`.
use murray_context_ledger_mc.Base.{String, Bool, ◌&&◌, List, map, keep, contains, ◌==◌}
use murray_context_ledger_mc.Store.Rows.{Tables, Membership, FactRow, ClientRow, AuditRow}

-- `public.user_org_ids()`, which reads the table of memberships.
unfoldable pub user_org_ids : List Membership → String → List String
user_org_ids memberships sub = map (λ m. m.org_id) (keep (λ m. m.user_id == sub) memberships)

-- `org_id = any (user_org_ids())`
abbrev pub is_member_of : Tables → String → String → Bool
is_member_of t sub org_id = contains (user_org_ids t.memberships sub) org_id

abbrev pub facts_select_org : Tables → String → FactRow → Bool
facts_select_org t sub r = is_member_of t sub r.org_id

-- `using` and `with check` are one condition, and no update of the server changes `org_id`.
abbrev pub facts_update_org : Tables → String → FactRow → Bool
facts_update_org t sub r = is_member_of t sub r.org_id

abbrev pub facts_insert_org : Tables → String → FactRow → Bool
facts_insert_org t sub r = is_member_of t sub r.org_id && r.user_id == sub

abbrev pub clients_select_org : Tables → String → ClientRow → Bool
clients_select_org t sub r = is_member_of t sub r.org_id

abbrev pub clients_insert_org : Tables → String → ClientRow → Bool
clients_insert_org t sub r = is_member_of t sub r.org_id && r.user_id == sub

abbrev pub audit_insert_org : Tables → String → AuditRow → Bool
audit_insert_org t sub r = is_member_of t sub r.org_id && r.user_id == sub

abbrev pub memberships_select_self : String → Membership → Bool
memberships_select_self sub m = m.user_id == sub
