-- ===== src/Server/Scope/Effective.antt =====
-- `_effective_scopes`: what a role leaves of the scopes a call asks for.
use murray_context_ledger_mc.Base.{
  String, ◌≡◌, refl, ap, ◌∙◌, ◌==◌, ◌||◌, Bool, true, ◌&&◌, eq_iff, Option, none, some, List, [],
  ◌∷◌, keep, contains, arith,
}
use murray_context_ledger_mc.Store.{Role}
use murray_context_ledger_mc.Server.Context.{ToolContext}
use murray_context_ledger_mc.Server.Scope.{role_scopes, narrow, base_scopes, effective_scopes}

-- Whether a role's slice holds a scope.
abbrev pub in_slice : Option (List String) → String → Bool
in_slice none scope = true
in_slice (some allowed) scope = contains allowed scope

contains-keep :
    (p : String → Bool) (xs : List String) (scope : String)
    → contains (keep p xs) scope ≡ (contains xs scope && p scope)
contains-keep p [] scope = refl
contains-keep p (x ∷ xs) scope = ground (arith, eq_iff scope x, contains-keep p xs scope)

contains-narrow :
    (slice : Option (List String)) (base : List String) (scope : String)
    → contains (narrow slice base) scope ≡ (contains base scope && in_slice slice scope)
unfolding narrow
contains-narrow none base scope = ground arith
contains-narrow (some allowed) base scope = contains-keep (contains allowed) base scope

-- What each role may see: an owner everything, an office what concerns the account or work, a rep
-- what concerns the account or is personal.
abbrev pub may_see : Role → String → Bool
may_see Role.owner scope = true
may_see Role.office scope = scope == "account" || scope == "work"
may_see Role.rep scope = scope == "account" || scope == "personal"

in_slice-may_see :
    (role : Role) (scope : String) → in_slice (role_scopes role) scope ≡ may_see role scope
unfolding role_scopes
in_slice-may_see Role.owner scope = refl
in_slice-may_see Role.office scope = ground arith
in_slice-may_see Role.rep scope = ground arith

-- The scopes that a call starts from: those of the seat, unless it names some.
abbrev pub asked : List String → Option (List String) → List String
asked granted none = granted
asked granted (some scopes) = scopes

asked_lem :
    (ctx : ToolContext) (scopes : Option (List String))
    → base_scopes ctx scopes ≡ asked ctx.granted_scopes scopes
unfolding base_scopes
asked_lem ctx none = refl
asked_lem ctx (some scopes) = refl

contains-effective :
    (ctx : ToolContext) (scopes : Option (List String)) (scope : String)
    → contains (effective_scopes ctx scopes) scope
      ≡ (contains (asked ctx.granted_scopes scopes) scope && may_see ctx.role scope)
unfolding effective_scopes
contains-effective ctx scopes scope =
    contains-narrow (role_scopes ctx.role) (base_scopes ctx scopes) scope
    ∙ ap (λ xs. contains xs scope && in_slice (role_scopes ctx.role) scope) (asked_lem ctx scopes)
    ∙ ap (λ b. contains (asked ctx.granted_scopes scopes) scope && b)
        (in_slice-may_see ctx.role scope)

owner-effective_scopes :
    (ctx : ToolContext) (scopes : Option (List String))
    → ctx.role ≡ Role.owner
    → effective_scopes ctx scopes ≡ asked ctx.granted_scopes scopes
unfolding effective_scopes narrow role_scopes
owner-effective_scopes ctx scopes owner = rw owner (asked_lem ctx scopes)

-- A scope is effective exactly if the seat was granted it (or, where a call names scopes, it is one
-- of those) and the caller's role may see it: an owner may see every scope, an office "account" and
-- "work", a rep "account" and "personal". The scopes of an owner are those of the seat or of the
-- call as they are.
pub contains-effective_scopes :
    (ctx : ToolContext) (scopes : Option (List String))
    → ((scope : String)
        → contains (effective_scopes ctx scopes) scope
          ≡ (contains (asked ctx.granted_scopes scopes) scope && may_see ctx.role scope))
      × (ctx.role ≡ Role.owner → effective_scopes ctx scopes ≡ asked ctx.granted_scopes scopes)
contains-effective_scopes ctx scopes =
    (contains-effective ctx scopes, owner-effective_scopes ctx scopes)
