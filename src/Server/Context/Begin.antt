-- ===== src/Server/Context/Begin.antt =====
-- `_begin` and `_finish`: who a call that goes on acts for, and what it has done so far.
use murray_context_ledger_mc.Base.{
  ◌≡◌, refl, sym, ap, inl, inr, true, String, ◌==◌, Option, some, none, List, [], ◌∷◌, ◌++◌, Has,
  and_left,
}
use murray_context_ledger_mc.Effect.{Error, Result, value_error, raise, pure, ◌>>=◌, ◌>>◌}
use murray_context_ledger_mc.Effect.Runs.{Runs, Runs-bind, Runs-pure, Runs-raise, Runs-if}
use murray_context_ledger_mc.Json.{Json}
use murray_context_ledger_mc.Auth.{AccessToken}
use murray_context_ledger_mc.Store.{Tables, ClientRow, SeatStatus, is_member_of}
use murray_context_ledger_mc.Store.Laws.{stored}
use murray_context_ledger_mc.Store.Returned.{insert_audit_returned}
use murray_context_ledger_mc.Server.Env.{Env, IsLawfulEnv}
use murray_context_ledger_mc.Server.Context.{
  ToolContext, resolve_membership, resolve_client, audit_row, finish, context, admit, email_of,
  caller_client, begin_as, with_subject, with_token, begin, unauthenticated_message,
  revoked_client_message,
}
use murray_context_ledger_mc.Server.Context.Org.{resolve_membership_returned, is_member_of-Has}
use murray_context_ledger_mc.Server.Context.Seat.{Registered, resolve_client_returned}

-- The tables with one row more in the audit log.
abbrev pub logged : (E : Env) → ToolContext → List String → Tables → Tables
logged E ctx ids t = record t {
  audit_log = t.audit_log ++ (stored E.backend (audit_row E ctx ids) ∷ []);
}

-- What holds when `_begin` has returned a context, from the tables before and after it.
pub record Begun (E : Env) (tool : String) (arguments : Json) (before : Tables) (ctx : ToolContext)
    (after : Tables) : Type 0 where
  pub subject : E.backend.subject ctx.db ≡ some ctx.user_sub
  pub tool_is : ctx.tool ≡ tool
  pub arguments_are : ctx.arguments ≡ arguments
  -- The caller is the subject of the request's token.
  pub caller : (t : AccessToken) × (E.token ≡ some t) × (t.subject ≡ some ctx.user_sub)
  pub member :
      Has
        (record { org_id = ctx.org_id; user_id = ctx.user_sub; role = ctx.role })
        before.memberships
  pub only_org : (org : String) → is_member_of before ctx.user_sub org ≡ true → org ≡ ctx.org_id
  -- The seat is one of the caller's org, and it is not revoked.
  pub seat :
      (r : ClientRow) × Has r after.clients
      × (r.org_id ≡ ctx.org_id)
      × (r.id ≡ ctx.client_row_id)
      × (r.granted_scopes ≡ ctx.granted_scopes)
      × (r.status ≡ SeatStatus.active)
  pub frame : after ≡ record before { clients = after.clients }

-- The caller is a member of no other org, as the tables stand after `_begin` too.
pub Begun-only_org :
    (E : Env) (tool : String) (arguments : Json) (before : Tables) (ctx : ToolContext)
    (mid : Tables)
    → Begun E tool arguments before ctx mid
    → (org : String) → is_member_of mid ctx.user_sub org ≡ true
    → org ≡ ctx.org_id
Begun-only_org E tool arguments before ctx mid b =
    rw (ap (λ (t : Tables). t.memberships) b.frame) b.only_org

-- The caller's own membership makes the rows of the context's org visible.
pub Begun-is_member_of :
    (E : Env) (tool : String) (arguments : Json) (before : Tables) (ctx : ToolContext)
    (mid : Tables)
    → Begun E tool arguments before ctx mid
    → is_member_of mid ctx.user_sub ctx.org_id ≡ true
Begun-is_member_of E tool arguments before ctx mid b =
    rw (ap (λ (t : Tables). t.memberships) b.frame) (
      is_member_of-Has ctx.user_sub before.memberships
        (record { org_id = ctx.org_id; user_id = ctx.user_sub; role = ctx.role }) refl b.member)

pub Registered-frame :
    (before : Tables) (r : ClientRow) (after : Tables)
    → Registered before r after
    → after ≡ record before { clients = after.clients }
Registered-frame before r after (inl same) = rw same
Registered-frame before r after (inr grown) = rw grown.0

module _ (E : Env) (L : IsLawfulEnv E) where
  -- A call of `_finish` that returns has appended one audit row, and changed nothing else.
  pub finish_returned :
      (ctx : ToolContext) (ids : List String) (s t : E.backend.State)
      → E.backend.subject ctx.db ≡ some ctx.user_sub
      → Runs (finish E ctx ids) s tt t
      → (E.backend.tables t ≡ logged E ctx ids (E.backend.tables s))
        × (is_member_of (E.backend.tables s) ctx.user_sub ctx.org_id ≡ true)
  unfolding finish audit_row
  finish_returned ctx ids s t who h =
      let (grown, policy) =
        insert_audit_returned E.backend L.lawful ctx.db (audit_row E ctx ids) ctx.user_sub s t who
          h in
      (grown, and_left _ _ policy)

  admitted :
      (status : SeatStatus) (ctx ctx' : ToolContext) (s t : E.backend.State)
      → Runs (admit E status ctx) s ctx' t
      → (status ≡ SeatStatus.active) × (ctx ≡ ctx') × (s ≡ t)
  unfolding admit
  admitted SeatStatus.active ctx ctx' s t h =
      let (same, kept) = Runs-pure ctx s ctx' t h in (refl, same, kept)
  admitted SeatStatus.revoked ctx ctx' s t h =
      let (u, v, _, raised) =
        Runs-bind (finish E ctx []) (λ _. raise (value_error revoked_client_message)) s ctx' t h in
      absurd (Runs-raise (value_error revoked_client_message) v ctx' t raised)

  module _ (token : AccessToken) (sub : String) (tool : String) (arguments : Json)
      (here : E.token ≡ some token) (named : token.subject ≡ some sub) where
    begin_as_returned :
        (s : E.backend.State) (ctx : ToolContext) (t : E.backend.State)
        → Runs (begin_as E token sub tool arguments) s ctx t
        → Begun E tool arguments (E.backend.tables s) ctx (E.backend.tables t)
    unfolding begin_as caller_client context
    begin_as_returned s ctx t h =
        let db = caller_client E sub token.claims in
        let who : E.backend.subject db ≡ some sub = L.signed sub (email_of E token.claims) in
        let (m, u, resolved, rest) =
          Runs-bind (resolve_membership E db sub)
            (λ member. resolve_client E db member.0 sub token.client_id >>= λ row.
              admit E row.status (context E db sub member row tool arguments))
            s ctx t h in
        let (same, found, alone) =
          resolve_membership_returned E L.lawful db sub s m u who resolved in
        let (row, v, seated, last) =
          Runs-bind (resolve_client E db m.0 sub token.client_id)
            (λ row. admit E row.status (context E db sub m row tool arguments)) u ctx t rest in
        let (own, registered) =
          resolve_client_returned E L.lawful db m.0 sub token.client_id who u row v seated in
        let (active, is_ctx, kept) =
          admitted row.status (context E db sub m row tool arguments) ctx v t last in
        rw (← is_ctx, ← kept)
          (record {
            subject = who;
            tool_is = refl;
            arguments_are = refl;
            caller = (token, here, named);
            member = found;
            only_org = alone;
            seat = (row, own.0, own.2, refl, refl, active);
            frame =
                rw (← same)
                  (Registered-frame (E.backend.tables u) row (E.backend.tables v) registered);
          })

  with_subject_returned :
      (token : AccessToken) (subject : Option String) (tool : String) (arguments : Json)
      (s : E.backend.State) (ctx : ToolContext) (t : E.backend.State)
      → E.token ≡ some token
      → token.subject ≡ subject
      → Runs (with_subject E token subject tool arguments) s ctx t
      → Begun E tool arguments (E.backend.tables s) ctx (E.backend.tables t)
  unfolding with_subject
  with_subject_returned token none tool arguments s ctx t here named h =
      absurd (Runs-raise (value_error unauthenticated_message) s ctx t h)
  with_subject_returned token (some sub) tool arguments s ctx t here named h =
      elim (Runs-if (sub == "") (raise (value_error unauthenticated_message))
        (begin_as E token sub tool arguments) s ctx t h) [
          | inl (_, raised) ↦
              absurd (Runs-raise (value_error unauthenticated_message) s ctx t raised)
          | inr (_, went) ↦ begin_as_returned token sub tool arguments here named s ctx t went
        ]

  with_token_returned :
      (token : Option AccessToken) (tool : String) (arguments : Json) (s : E.backend.State)
      (ctx : ToolContext) (t : E.backend.State)
      → E.token ≡ token
      → Runs (with_token E token tool arguments) s ctx t
      → Begun E tool arguments (E.backend.tables s) ctx (E.backend.tables t)
  unfolding with_token
  with_token_returned none tool arguments s ctx t here h =
      absurd (Runs-raise (value_error unauthenticated_message) s ctx t h)
  with_token_returned (some token) tool arguments s ctx t here h =
      with_subject_returned token token.subject tool arguments s ctx t here refl h

  -- A call of `_begin` that returns acts for the subject of the token, in an org of which the
  -- caller is a member with the role found there, through a seat of that org that is not revoked;
  -- of the tables it has changed at most the one of seats.
  pub begin_returned :
      (tool : String) (arguments : Json) (s : E.backend.State) (ctx : ToolContext)
      (t : E.backend.State)
      → Runs (begin E tool arguments) s ctx t
      → Begun E tool arguments (E.backend.tables s) ctx (E.backend.tables t)
  unfolding begin
  begin_returned tool arguments s ctx t h =
      with_token_returned E.token tool arguments s ctx t refl h

  -- The common ends of a tool: an audit row, then a result or an error.
  pub finish-pure_returned :
      {A : Type 0} (ctx : ToolContext) (ids : List String) (a : A) (s : E.backend.State) (b : A)
      (t : E.backend.State)
      → E.backend.subject ctx.db ≡ some ctx.user_sub
      → Runs (finish E ctx ids >> pure a) s b t
      → (b ≡ a) × (E.backend.tables t ≡ logged E ctx ids (E.backend.tables s))
  finish-pure_returned ctx ids a s b t who h =
      let (u, v, went, rest) = Runs-bind (finish E ctx ids) (λ _. pure a) s b t h in
      let (same, kept) = Runs-pure a v b t rest in
      (sym same, rw (← kept) (finish_returned ctx ids s v who went).0)

  pub finish-raise_never :
      {A : Type 0} (ctx : ToolContext) (ids : List String) (e : Error) (s : E.backend.State) (b : A)
      (t : E.backend.State)
      → Runs (finish E ctx ids >> raise e) s b t
      → ⊥
  finish-raise_never ctx ids e s b t h =
      let (u, v, went, raised) = Runs-bind (finish E ctx ids) (λ _. raise e) s b t h in
      Runs-raise e v b t raised

  -- The common start of a tool.
  pub begin_then_returned :
      {A : Type 0} (tool : String) (arguments : Json)
      (body : ToolContext → E.backend.State → Result A × E.backend.State) (s : E.backend.State)
      (a : A) (t : E.backend.State)
      → Runs (begin E tool arguments >>= body) s a t
      → (ctx : ToolContext) × (u : E.backend.State) × Begun E tool arguments
          (E.backend.tables s)
          ctx
          (E.backend.tables u)
        × Runs (body ctx) u a t
  begin_then_returned tool arguments body s a t h =
      let (ctx, u, began, rest) = Runs-bind (begin E tool arguments) body s a t h in
      (ctx, u, begin_returned tool arguments s ctx u began, rest)
