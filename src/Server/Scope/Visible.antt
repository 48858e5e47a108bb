-- ===== src/Server/Scope/Visible.antt =====
-- The rows that the two scoped queries can return.
use murray_context_ledger_mc.Base.{
  String, ◌≡◌, refl, true, and_left, and_right, and_true, Option, List, [], ◌∷◌, any, contains, Has,
  All, arith,
}
use murray_context_ledger_mc.Store.{
  Tables, FactRow, FactStatus, FactFilter, FactQuery, eq_status, overlaps_scope_tags, status_eq,
  facts_select_org, is_member_of,
}
use murray_context_ledger_mc.Store.Backend.{Backend, holds_all}
use murray_context_ledger_mc.Store.Laws.{Answer}
use murray_context_ledger_mc.Server.Context.{ToolContext}
use murray_context_ledger_mc.Server.Scope.{effective_scopes}

-- A fact of the caller's org with this status, of which some tag is an effective scope.
pub record Visible (status : FactStatus) (ctx : ToolContext) (scopes : Option (List String))
    (t : Tables) (r : FactRow) : Type 0 where
  pub stored : Has r t.facts
  pub in_org : r.org_id ≡ ctx.org_id
  pub has_status : r.status ≡ status
  pub in_scope : any (λ tag. contains (effective_scopes ctx scopes) tag) r.scope_tags ≡ true

pub status_eq→eq : (a b : FactStatus) → status_eq a b ≡ true → a ≡ b
status_eq→eq FactStatus.pending_review b h = ground arith
status_eq→eq FactStatus.active b h = ground arith
status_eq→eq FactStatus.superseded b h = ground arith
status_eq→eq FactStatus.rejected b h = ground arith
status_eq→eq FactStatus.archived b h = ground arith

-- The filters that both scoped queries begin with.
abbrev pub scoped_filters :
    FactStatus → ToolContext → Option (List String) → List FactFilter → List FactFilter
scoped_filters status ctx scopes more =
    eq_status status ∷ overlaps_scope_tags (effective_scopes ctx scopes) ∷ more

module _ (B : Backend) (status : FactStatus) (ctx : ToolContext) (scopes : Option (List String))
    (t : Tables)
    (only_org : (org : String) → is_member_of t ctx.user_sub org ≡ true → org ≡ ctx.org_id) where
  visible_row :
      (more : List FactFilter) (r : FactRow)
      → Has r t.facts
      → facts_select_org t ctx.user_sub r ≡ true
      → holds_all B (scoped_filters status ctx scopes more) r ≡ true
      → Visible status ctx scopes t r
  visible_row more r m policy h = record {
    stored = m;
    in_org = only_org r.org_id policy;
    has_status = status_eq→eq r.status status (and_left _ _ h);
    in_scope = and_left _ _ (and_right _ _ h);
  }

  visible_rows :
      (more : List FactFilter) (rows : List FactRow)
      → All
          (λ r.
            Has r t.facts
            × (facts_select_org t ctx.user_sub r ≡ true)
            × (holds_all B (scoped_filters status ctx scopes more) r ≡ true))
          rows
      → All (Visible status ctx scopes t) rows
  visible_rows more [] h = tt
  visible_rows more (r ∷ rows) h =
      (visible_row more r h.0.0 h.0.1 h.0.2, visible_rows more rows h.1)

  -- What a query that begins with the scoped filters has answered.
  pub answer_visible :
      (q : FactQuery) (more : List FactFilter) (rows : List FactRow)
      → q.filters ≡ scoped_filters status ctx scopes more
      → Answer B t ctx.user_sub q rows
      → All (Visible status ctx scopes t) rows
  answer_visible q more rows e h = visible_rows more rows (rw e at h)

  more_rows :
      (more : List FactFilter) (rows : List FactRow)
      → All
          (λ r.
            Has r t.facts
            × (facts_select_org t ctx.user_sub r ≡ true)
            × (holds_all B (scoped_filters status ctx scopes more) r ≡ true))
          rows
      → All (λ r. holds_all B more r ≡ true) rows
  more_rows more [] h = tt
  more_rows more (r ∷ rows) h = (and_right _ _ (and_right _ _ h.0.2), more_rows more rows h.1)

  -- Its rows meet the other filters too.
  pub Answer-more :
      (q : FactQuery) (more : List FactFilter) (rows : List FactRow)
      → q.filters ≡ scoped_filters status ctx scopes more
      → Answer B t ctx.user_sub q rows
      → All (λ r. holds_all B more r ≡ true) rows
  Answer-more q more rows e h = more_rows more rows (rw e at h)

pub status_eq_refl : (a : FactStatus) → status_eq a a ≡ true
status_eq_refl FactStatus.pending_review = refl
status_eq_refl FactStatus.active = refl
status_eq_refl FactStatus.superseded = refl
status_eq_refl FactStatus.rejected = refl
status_eq_refl FactStatus.archived = refl

-- A visible row that meets the other filters meets the whole query.
pub visible-holds_all :
    (B : Backend) (status : FactStatus) (ctx : ToolContext) (scopes : Option (List String))
    (t : Tables) (more : List FactFilter) (r : FactRow)
    → Visible status ctx scopes t r
    → holds_all B more r ≡ true
    → holds_all B (scoped_filters status ctx scopes more) r ≡ true
visible-holds_all B status ctx scopes t more r v h =
    and_true _ _ (rw v.has_status (status_eq_refl status)) (and_true _ _ v.in_scope h)
