-- ===== src/Server/Tools/Read/ActivityAnswers.antt =====
-- What `get_recent_activity` answers, and what it writes to the audit log.
use murray_context_ledger_mc.Base.{
  arith, ◌≡◌, refl, inl, inr, String, ◌<>◌, Bool, true, false, not, contains, Option, none, some,
  List, [], ◌∷◌,
}
use murray_context_ledger_mc.Effect.{pure, ◌>>◌}
use murray_context_ledger_mc.Effect.Runs.{Runs, Runs-bind, Runs-if}
use murray_context_ledger_mc.Json.{Json, object, field, end}
use murray_context_ledger_mc.Schemas.{FactType}
use murray_context_ledger_mc.Store.{Tables, FactRow, FactStatus, in_type}
use murray_context_ledger_mc.Server.Env.{Env, IsLawfulEnv}
use murray_context_ledger_mc.Server.Context.{ToolContext, finish}
use murray_context_ledger_mc.Server.Context.Begin.{Begun, begin_then_returned, finish-pure_returned}
use murray_context_ledger_mc.Server.Scope.{scoped_active_facts}
use murray_context_ledger_mc.Server.Search.Found.{scoped_returned}
use murray_context_ledger_mc.Server.Tools.Read.{
  ids, quoted, opt_text, activity_query, activity_text, recent, in_domain, get_recent_activity,
}
use murray_context_ledger_mc.Server.Tools.Read.Shown.{Recorded, Shown, show}

abbrev pub activity_arguments : Option String → Json
activity_arguments domain = object (field "domain" (opt_text domain) end)

abbrev pub domain_scopes : Option String → Option (List String)
domain_scopes none = none
domain_scopes (some domain) = some (domain ∷ [])

abbrev pub domain_denied : String → String
domain_denied domain =
    "Domain " <> (quoted domain <> " is not within this client's granted scopes.")

-- A domain that is asked for is one of the scopes that the seat was granted.
abbrev pub Granted : Option String → List String → Type 0
Granted none granted = Unit
Granted (some domain) granted = contains granted domain ≡ true

-- The two ways in which the tool returns.
pub data Activity (E : Env) (domain : Option String) (answer : String) (before after : Tables)
    : Type 0 where
  denied :
      (d : String)
      → domain ≡ some d
      → answer ≡ domain_denied d
      → (recorded : Recorded E "get_recent_activity" (activity_arguments domain) [] before after)
      → contains recorded.ctx.granted_scopes d ≡ false
      → Activity E domain answer before after
  answered :
      (rows : List FactRow)
      → answer ≡ activity_text domain rows
      → (shown : Shown E FactStatus.active "get_recent_activity"
          (activity_arguments domain)
          (domain_scopes domain)
          rows
          before
          after)
      → Granted domain shown.recorded.ctx.granted_scopes
      → Activity E domain answer before after

not-false : (b : Bool) → not b ≡ true → b ≡ false
not-false b h = ground arith

not-true : (b : Bool) → not b ≡ false → b ≡ true
not-true b h = ground arith

module _ (E : Env) (L : IsLawfulEnv E) where
  recent_returned :
      (domain : Option String) (before : Tables) (ctx : ToolContext) (s : E.backend.State)
      (answer : String) (t : E.backend.State)
      → Begun E "get_recent_activity" (activity_arguments domain) before ctx (E.backend.tables s)
      → Granted domain ctx.granted_scopes
      → Runs (recent E ctx domain (domain_scopes domain)) s answer t
      → Activity E domain answer before (E.backend.tables t)
  unfolding recent activity_query scoped_active_facts
  recent_returned domain before ctx s answer t b granted h =
      let q = activity_query ctx (domain_scopes domain) in
      let (rows, u, got, rest) =
        Runs-bind (E.backend.select_facts ctx.db q)
          (λ rows. finish E ctx (ids rows) >> pure (activity_text domain rows)) s answer t h in
      let (same, audited) =
        finish-pure_returned E L ctx (ids rows) (activity_text domain rows) u answer t b.subject
          rest in
      answered rows same
        (show E FactStatus.active "get_recent_activity" (activity_arguments domain)
          (domain_scopes domain) rows before ctx (E.backend.tables s) u t b
          (scoped_returned E L "get_recent_activity" (activity_arguments domain) before ctx
            (E.backend.tables s) b q FactStatus.active (domain_scopes domain)
            (in_type (FactType.state ∷ FactType.episodic ∷ FactType.behavioral ∷ []) ∷ []) s rows u
            refl refl got)
          audited)
        granted

  in_domain_returned :
      (domain : Option String) (before : Tables) (ctx : ToolContext) (s : E.backend.State)
      (answer : String) (t : E.backend.State)
      → Begun E "get_recent_activity" (activity_arguments domain) before ctx (E.backend.tables s)
      → Runs (in_domain E ctx domain) s answer t
      → Activity E domain answer before (E.backend.tables t)
  unfolding in_domain
  in_domain_returned none before ctx s answer t b h =
      recent_returned none before ctx s answer t b tt h
  in_domain_returned (some d) before ctx s answer t b h =
      elim (Runs-if (not (contains ctx.granted_scopes d))
        (finish E ctx [] >> pure (domain_denied d)) (recent E ctx (some d) (some (d ∷ []))) s answer
        t h) [
          | inl (outside, ended) ↦
              let (same, audited) =
                finish-pure_returned E L ctx [] (domain_denied d) s answer t b.subject ended in
              denied d refl same
                (record { ctx = ctx; mid = E.backend.tables s; begun = b; audited = audited })
                (not-false _ outside)
          | inr (inside, went) ↦
              recent_returned (some d) before ctx s answer t b (not-true _ inside) went
        ]

  -- When `get_recent_activity` returns for a domain that is not among the client's granted scopes
  -- it has said so, shown nothing and audited no id. It shows facts only for a granted domain or
  -- for none: then it answers the text of some active facts of the caller's org that carry the
  -- domain (or, with none, any granted scope) as an effective scope, and audits exactly their ids.
  pub get_recent_activity_returned :
      (domain : Option String) (s : E.backend.State) (answer : String) (t : E.backend.State)
      → Runs (get_recent_activity E domain) s answer t
      → Activity E domain answer (E.backend.tables s) (E.backend.tables t)
  unfolding get_recent_activity
  get_recent_activity_returned domain s answer t h =
      let (ctx, u, b, rest) =
        begin_then_returned E L "get_recent_activity" (activity_arguments domain)
          (λ c. in_domain E c domain) s answer t h in
      in_domain_returned domain (E.backend.tables s) ctx u answer t b rest
