-- ===== src/Server/Request/Kept.antt =====
-- What one call can do, whether it returns, raises, or stops half-way.
use murray_context_ledger_mc.Base.{◌≡◌, String, List, All}
use murray_context_ledger_mc.Store.{FactRow, ClientRow, AuditRow, Tables}
use murray_context_ledger_mc.Store.Change.{
  IsLinked, Carried, UniqueIds, UniqueKeys, elsewhere, Logged,
}
use murray_context_ledger_mc.Store.Change.Facts.{Carried-IsLinked}
use murray_context_ledger_mc.Server.Env.{Env, IsLawfulEnv}
use murray_context_ledger_mc.Server.Context.Kept.{Kept, caller}
use murray_context_ledger_mc.Server.Logic.Kept.{kept_logic}
use murray_context_ledger_mc.Server.Request.{Request, serve}
use murray_context_ledger_mc.Server.Request.Walk.{serve-Walk}

-- In no table a row of an org that the user is no member of has changed, joined or gone, and the
-- orgs and the memberships are the same.
abbrev pub UntouchedBy : String → Tables → Tables → Type 0
UntouchedBy sub before after =
    (after.orgs ≡ before.orgs)
    × (after.memberships ≡ before.memberships)
    × (elsewhere before sub (λ (r : FactRow). r.org_id) after.facts
        ≡ elsewhere before sub (λ (r : FactRow). r.org_id) before.facts)
    × (elsewhere before sub (λ (r : ClientRow). r.org_id) after.clients
        ≡ elsewhere before sub (λ (r : ClientRow). r.org_id) before.clients)
    × (elsewhere before sub (λ (r : AuditRow). r.org_id) after.audit_log
        ≡ elsewhere before sub (λ (r : AuditRow). r.org_id) before.audit_log)

-- A table of facts with unique ids, unique keys within an org, and links on superseded facts only.
pub record IsLedger (facts : List FactRow) : Type 0 where
  pub unique_ids : UniqueIds facts
  pub unique_keys : UniqueKeys facts
  pub linked : All IsLinked facts

module _ (E : Env) (L : IsLawfulEnv E) where
  serve-Kept : (q : Request) → Kept E (caller E.token) (serve E q)
  unfolding kept_logic
  serve-Kept q = serve-Walk E (kept_logic E L) q

  -- Isolation, over a lawful database: whatever tool is called, with whatever arguments, and
  -- whether the call returns or raises at any point, the orgs and the memberships are the same
  -- after it, and so are the facts, the seats and the audit rows of every org that the caller is
  -- no member of. The caller is the subject of the token; without one, no org is the caller's.
  pub serve-UntouchedBy :
      (q : Request) (s : E.backend.State)
      → UntouchedBy (caller E.token) (E.backend.tables s) (E.backend.tables (serve E q s).1)
  serve-UntouchedBy q s =
      let c = serve-Kept q s in
      (c.orgs, c.memberships, c.other_facts, c.other_clients, c.other_audit)

  -- Over a lawful database, any tool call, returned or raised, takes a ledger (unique ids, unique
  -- keys within an org, links on superseded facts only) to a ledger. Each row stands where it
  -- stood and has changed, if at all, in one of three ways: a pending fact was approved, a pending
  -- fact was declined, or a fact was superseded by another. The audit log has only been appended
  -- to, with rows of the caller.
  pub serve-IsLedger :
      (q : Request) (s : E.backend.State)
      → IsLedger (E.backend.tables s).facts
      → IsLedger (E.backend.tables (serve E q s).1).facts
        × Carried (E.backend.tables s).facts (E.backend.tables (serve E q s).1).facts
        × Logged
            (caller E.token)
            (E.backend.tables s).audit_log
            (E.backend.tables (serve E q s).1).audit_log
  serve-IsLedger q s ledger =
      let c = serve-Kept q s in
      let carried = c.evolved.carried ledger.unique_ids in
      (
        record {
          unique_ids = c.evolved.unique_ids ledger.unique_ids;
          unique_keys = c.evolved.unique_keys ledger.unique_keys;
          linked = Carried-IsLinked _ _ carried ledger.linked;
        },
        carried,
        c.logged,
      )
