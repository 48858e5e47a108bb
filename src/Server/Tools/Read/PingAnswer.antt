-- ===== src/Server/Tools/Read/PingAnswer.antt =====
-- What `ping` counts.
use murray_context_ledger_mc.Base.{
  ◌≡◌, refl, ap, ◌∙◌, String, ◌<>◌, ◌==◌, eq_iff, Bool, true, ◌&&◌, none, some, [], keep, keep_same,
  both_ways, any, any_same, contains, length, decimal, arith,
}
use murray_context_ledger_mc.Effect.{◌>>=◌}
use murray_context_ledger_mc.Effect.Runs.{Runs, Runs-bind, Runs-result}
use murray_context_ledger_mc.Json.{object, end}
use murray_context_ledger_mc.Store.{
  Tables, FactRow, FactStatus, status_eq, is_member_of, facts_select_org,
}
use murray_context_ledger_mc.Store.Backend.{holds_all}
use murray_context_ledger_mc.Store.Returned.{count_facts_returned}
use murray_context_ledger_mc.Server.Env.{Env, IsLawfulEnv}
use murray_context_ledger_mc.Server.Context.{ToolContext}
use murray_context_ledger_mc.Server.Context.Begin.{
  Begun, Begun-only_org, Begun-is_member_of, begin_then_returned, finish-pure_returned,
}
use murray_context_ledger_mc.Server.Scope.{effective_scopes}
use murray_context_ledger_mc.Server.Scope.Effective.{may_see, contains-effective_scopes}
use murray_context_ledger_mc.Server.Tools.Read.{count_or_zero, ping_query, answer_ping, ping}
use murray_context_ledger_mc.Server.Tools.Read.Shown.{Recorded}

-- A fact of the org that is active and has a tag which the seat was granted and the role may see.
abbrev pub is_counted : ToolContext → FactRow → Bool
is_counted ctx r =
    r.org_id == ctx.org_id
    && (status_eq r.status FactStatus.active
        && any (λ tag. contains ctx.granted_scopes tag && may_see ctx.role tag) r.scope_tags)

pub record Pings (E : Env) (answer : String) (before after : Tables) : Type 0 where
  pub recorded : Recorded E "ping" (object end) [] before after
  pub text :
      answer
      ≡ "ledger ok — "
        <> (decimal (length (keep (is_counted recorded.ctx) before.facts))
            <> " active facts for this user.")

and_same : (a b c d : Bool) → a ≡ c → b ≡ d → (a && (b && true)) ≡ (c && d)
and_same a b c d e f = ground arith

module _ (E : Env) (L : IsLawfulEnv E) where
  -- The query meets exactly the facts that count.
  counted :
      (before : Tables) (ctx : ToolContext) (mid : Tables)
      → Begun E "ping" (object end) before ctx mid
      → (r : FactRow)
      → (facts_select_org mid ctx.user_sub r && holds_all E.backend (ping_query ctx).filters r)
        ≡ is_counted ctx r
  unfolding ping_query
  counted before ctx mid b r =
      let in_org : is_member_of mid ctx.user_sub r.org_id ≡ (r.org_id == ctx.org_id) =
        both_ways _ _
          (λ member.
            (eq_iff r.org_id ctx.org_id).1
              (Begun-only_org E "ping" (object end) before ctx mid b r.org_id member))
          (λ same.
            rw ((eq_iff r.org_id ctx.org_id).0 same)
              (Begun-is_member_of E "ping" (object end) before ctx mid b)) in
      let in_scope : any (contains (effective_scopes ctx none)) r.scope_tags
          ≡ any (λ tag. contains ctx.granted_scopes tag && may_see ctx.role tag) r.scope_tags =
        any_same _ _ r.scope_tags (contains-effective_scopes ctx none).0 in
      ap
        (λ x.
          x
          && (status_eq r.status FactStatus.active
              && (any (contains (effective_scopes ctx none)) r.scope_tags && true)))
        in_org
      ∙ ap (λ x. (r.org_id == ctx.org_id) && x)
          (and_same (status_eq r.status FactStatus.active) _ _ _ refl in_scope)

  -- A call of `ping` that returns names the exact number of facts of the caller's org that are
  -- active and carry a scope which the seat was granted and the caller's role may see (for an
  -- owner, any granted one). It has changed no fact, and has added one audit row, without fact ids.
  pub ping_returned :
      (s : E.backend.State) (answer : String) (t : E.backend.State)
      → Runs (ping E) s answer t
      → Pings E answer (E.backend.tables s) (E.backend.tables t)
  unfolding ping answer_ping count_or_zero ping_query
  ping_returned s answer t h =
      let (ctx, u, b, rest) =
        begin_then_returned E L "ping" (object end)
          (λ c. E.backend.count_facts c.db (ping_query c) >>= answer_ping E c) s answer t h in
      let (count, v, got, last) =
        Runs-bind (E.backend.count_facts ctx.db (ping_query ctx)) (answer_ping E ctx) u answer t
          rest in
      let (same, audited) =
        finish-pure_returned E L ctx []
          ("ledger ok — " <> (decimal (count_or_zero count) <> " active facts for this user.")) v
          answer t b.subject last in
      let exact =
        L.lawful.on_facts.count_exact ctx.db (ping_query ctx) u ctx.user_sub count b.subject
          (Runs-result (E.backend.count_facts ctx.db (ping_query ctx)) u count v got) refl in
      let number : count ≡ some (length (keep (is_counted ctx) (E.backend.tables s).facts)) =
        exact
        ∙ ap (λ rows. some (length rows))
            (keep_same _ _ (E.backend.tables u).facts
              (counted (E.backend.tables s) ctx (E.backend.tables u) b))
        ∙ ap (λ (x : Tables). some (length (keep (is_counted ctx) x.facts))) b.frame in
      record {
        recorded = record {
          ctx = ctx;
          mid = E.backend.tables u;
          begun = b;
          audited =
              rw (count_facts_returned E.backend L.lawful ctx.db (ping_query ctx) u count v got) at
                audited;
        };
        text =
            same
            ∙ ap
                (λ n.
                  "ledger ok — " <> (decimal (count_or_zero n) <> " active facts for this user."))
                number;
      }
