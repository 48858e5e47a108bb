-- ===== src/Server/Scope.antt =====
-- The scopes a call may touch, and the two queries that every read starts from.
pub mod Visible
pub mod Effective
pub mod Defaults
use murray_context_ledger_mc.Base.{
  String, Bool, true, false, Option, none, some, List, [], ◌∷◌, keep, contains,
}
use murray_context_ledger_mc.Store.{
  Role, FactStatus, FactQuery, FactFilter, eq_status, overlaps_scope_tags,
}
use murray_context_ledger_mc.Server.Context.{ToolContext}

-- `ROLE_SCOPES`; `none` is no narrowing.
unfoldable pub role_scopes : Role → Option (List String)
role_scopes Role.owner = none
role_scopes Role.office = some ("account" ∷ "work" ∷ [])
role_scopes Role.rep = some ("account" ∷ "personal" ∷ [])

-- `ctx.role in REVIEW_ROLES`
unfoldable pub may_review : Role → Bool
may_review Role.owner = true
may_review Role.office = true
may_review Role.rep = false

narrow : Option (List String) → List String → List String
narrow none base = base
narrow (some allowed) base = keep (contains allowed) base

pub base_scopes : ToolContext → Option (List String) → List String
base_scopes ctx none = ctx.granted_scopes
base_scopes ctx (some scopes) = scopes

-- `_effective_scopes`
unfoldable pub effective_scopes : ToolContext → Option (List String) → List String
unfolding narrow base_scopes role_scopes
effective_scopes ctx scopes = narrow (role_scopes ctx.role) (base_scopes ctx scopes)

-- `_scoped_active_facts`: the query so far, to which a tool adds filters and an order.
unfoldable pub scoped_active_facts : ToolContext → String → Option (List String) → FactQuery
scoped_active_facts ctx columns scopes = record {
  columns = columns;
  filters = eq_status FactStatus.active ∷ overlaps_scope_tags (effective_scopes ctx scopes) ∷ [];
  orders = [];
  limit = none;
}

-- `_scoped_pending_facts`
unfoldable pub scoped_pending_facts : ToolContext → String → FactQuery
scoped_pending_facts ctx columns = record {
  columns = columns;
  filters =
      eq_status FactStatus.pending_review ∷ overlaps_scope_tags (effective_scopes ctx none) ∷ [];
  orders = [];
  limit = none;
}
