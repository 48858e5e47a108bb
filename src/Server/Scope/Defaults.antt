-- ===== src/Server/Scope/Defaults.antt =====
-- The defaults of server/app/schemas.py and of the table of seats, against the effective scopes.
use murray_context_ledger_mc.Base.{
  ◌≡◌, ◌∙◌, refl, arith, String, Bool, true, false, ◌&&◌, ◌||◌, none, List, [], ◌∷◌, any, contains,
}
use murray_context_ledger_mc.Schemas.{default_scope_tags}
use murray_context_ledger_mc.Store.{Tables, FactRow, FactStatus, ClientRow, ClientInsert}
use murray_context_ledger_mc.Store.Backend.{IsNewSeat}
use murray_context_ledger_mc.Server.Context.{ToolContext}
use murray_context_ledger_mc.Server.Scope.{effective_scopes}
use murray_context_ledger_mc.Server.Scope.Effective.{contains-effective_scopes, may_see}
use murray_context_ledger_mc.Server.Scope.Visible.{Visible}

account_ungranted :
    (granted : List String) (b : Bool)
    → granted ≡ "personal" ∷ "work" ∷ []
    → (contains granted "account" && b) ≡ false
account_ungranted granted b h = rw h refl

not_either : (b : Bool) → b ≡ false → (b || false) ≡ true → ⊥
not_either b h k = ground arith

-- A fact that has the scope tags which the schema gives when a caller sends none is not visible,
-- in any role and any status, to a context whose granted scopes are those of a seat as a first
-- contact registers it.
pub default_tags-Visible :
    (i : ClientInsert) (seat : ClientRow) (ctx : ToolContext) (status : FactStatus) (t : Tables)
    (r : FactRow)
    → IsNewSeat i seat
    → ctx.granted_scopes ≡ seat.granted_scopes
    → r.scope_tags ≡ default_scope_tags
    → ¬ Visible status ctx none t r
default_tags-Visible i seat ctx status t r fresh grants tags seen =
    let outside =
      (contains-effective_scopes ctx none).0 "account"
      ∙ account_ungranted ctx.granted_scopes (may_see ctx.role "account")
          (grants ∙ fresh.granted_scopes) in
    let inside : any (λ tag. contains (effective_scopes ctx none) tag) default_scope_tags ≡ true =
      rw tags at seen.in_scope in
    not_either (contains (effective_scopes ctx none) "account") outside inside
