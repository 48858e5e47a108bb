-- ===== src/Server/Request/Stopped.antt =====
-- Calls that end in `_begin`.
use murray_context_ledger_mc.Base.{◌≡◌, ◌≢◌, ◌⊎◌, refl, String, some, none, [], ◌∷◌, ◌++◌}
use murray_context_ledger_mc.Effect.{Error, value_error, err}
use murray_context_ledger_mc.Effect.Runs.{Runs}
use murray_context_ledger_mc.Auth.{AccessToken}
use murray_context_ledger_mc.Store.{Tables, ClientRow, SeatStatus, Role}
use murray_context_ledger_mc.Store.Laws.{stored}
use murray_context_ledger_mc.Server.Env.{Env, IsLawfulEnv}
use murray_context_ledger_mc.Server.Context.{
  ToolContext, resolve_membership, resolve_client, audit_row, finish, context, caller_client,
  email_of, begin, unauthenticated_message, revoked_client_message,
}
use murray_context_ledger_mc.Server.Context.Org.{resolve_membership_returned}
use murray_context_ledger_mc.Server.Context.Seat.{resolve_client_returned}
use murray_context_ledger_mc.Server.Context.Begin.{finish_returned, Registered-frame}
use murray_context_ledger_mc.Server.Context.Refused.{begin_unauthenticated, begin-revoked}
use murray_context_ledger_mc.Server.Tools.Profile.{get_profile}
use murray_context_ledger_mc.Server.Tools.Read.{
  search_context, get_recent_activity, search_ledger, fetch, ping,
}
use murray_context_ledger_mc.Server.Tools.Remember.{remember_facts}
use murray_context_ledger_mc.Server.Tools.Supersede.{supersede_fact}
use murray_context_ledger_mc.Server.Tools.Review.{
  tool_name, review_arguments, list_pending_facts, promote_fact, reject_fact,
}
use murray_context_ledger_mc.Server.Request.{
  Request, profile_request, context_request, activity_request, search_request, fetch_request,
  ping_request, remember_request, supersede_request, pending_request, promote_request,
  reject_request, tool_of, arguments_of, serve,
}

module _ (E : Env) where
  -- What `_begin` raises, every tool raises, and does nothing more.
  pub serve-begin_error :
      (q : Request) (s : E.backend.State) (e : Error) (t : E.backend.State)
      → begin E (tool_of q) (arguments_of q) s ≡ (err e, t)
      → serve E q s ≡ (err e, t)
  unfolding serve tool_of arguments_of get_profile search_context get_recent_activity search_ledger
      fetch ping remember_facts supersede_fact list_pending_facts promote_fact reject_fact tool_name
      review_arguments
  serve-begin_error profile_request s e t h = rw h
  serve-begin_error (context_request query) s e t h = rw h
  serve-begin_error (activity_request domain) s e t h = rw h
  serve-begin_error (search_request query) s e t h = rw h
  serve-begin_error (fetch_request id) s e t h = rw h
  serve-begin_error ping_request s e t h = rw h
  serve-begin_error (remember_request facts) s e t h = rw h
  serve-begin_error (supersede_request old fact) s e t h = rw h
  serve-begin_error (pending_request limit) s e t h = rw h
  serve-begin_error (promote_request id) s e t h = rw h
  serve-begin_error (reject_request id reason) s e t h = rw h

  -- Without a token, or with a token whose subject is missing or empty, every tool raises the
  -- message for unauthenticated requests and leaves the state as it was.
  pub serve_unauthenticated :
      (q : Request) (s : E.backend.State)
      → ((t : AccessToken) → E.token ≡ some t → (t.subject ≡ none) ⊎ (t.subject ≡ some ""))
      → serve E q s ≡ (err (value_error unauthenticated_message), s)
  serve_unauthenticated q s h =
      serve-begin_error q s (value_error unauthenticated_message) s
        (begin_unauthenticated E (tool_of q) (arguments_of q) s h)

  -- The log that the tables hold, after the row of a call that carried no facts.
  abbrev pub UnchangedButLog : Tables → ToolContext → Tables → Type 0
  UnchangedButLog before ctx after =
      (after.facts ≡ before.facts)
      × (after.audit_log ≡ before.audit_log ++ (stored E.backend (audit_row E ctx []) ∷ []))

  serve-revoked_error :
      (q : Request) (token : AccessToken) (sub : String) (m : String × Role) (seat : ClientRow)
      (s u v t : E.backend.State)
      → E.token ≡ some token
      → token.subject ≡ some sub
      → sub ≢ ""
      → Runs (resolve_membership E (caller_client E sub token.claims) sub) s m u
      → Runs (resolve_client E (caller_client E sub token.claims) m.0 sub token.client_id) u seat v
      → seat.status ≡ SeatStatus.revoked
      → Runs
          (finish E
            (context E (caller_client E sub token.claims) sub m seat (tool_of q) (arguments_of q))
            [])
          v
          tt
          t
      → serve E q s ≡ (err (value_error revoked_client_message), t)
  serve-revoked_error q token sub m seat s u v t here named some_sub member seated revoked audited =
      serve-begin_error q s (value_error revoked_client_message) t (
        begin-revoked E (tool_of q) (arguments_of q) token sub m seat s u v t here named some_sub
          member seated revoked audited)

module _ (E : Env) (L : IsLawfulEnv E) where
  -- A call of any tool by a caller whose seat is revoked, when its queries and its audit insert
  -- succeed: it raises the message for revoked clients; the facts are those before the call, and
  -- the log has one more row, of this caller, seat and tool, with no fact ids.
  pub serve-revoked :
      (q : Request) (token : AccessToken) (sub : String) (m : String × Role) (seat : ClientRow)
      (s u v t : E.backend.State)
      → E.token ≡ some token
      → token.subject ≡ some sub
      → sub ≢ ""
      → Runs (resolve_membership E (caller_client E sub token.claims) sub) s m u
      → Runs (resolve_client E (caller_client E sub token.claims) m.0 sub token.client_id) u seat v
      → seat.status ≡ SeatStatus.revoked
      → Runs
          (finish E
            (context E (caller_client E sub token.claims) sub m seat (tool_of q) (arguments_of q))
            [])
          v
          tt
          t
      → (serve E q s ≡ (err (value_error revoked_client_message), t))
        × UnchangedButLog E
            (E.backend.tables s)
            (context E (caller_client E sub token.claims) sub m seat (tool_of q) (arguments_of q))
            (E.backend.tables t)
  unfolding context caller_client
  serve-revoked q token sub m seat s u v t here named some_sub member seated revoked audited =
      let db = caller_client E sub token.claims in
      let ctx = context E db sub m seat (tool_of q) (arguments_of q) in
      let who : E.backend.subject db ≡ some sub = L.signed sub (email_of E token.claims) in
      let (same, _, _) = resolve_membership_returned E L.lawful db sub s m u who member in
      let (_, registered) =
        resolve_client_returned E L.lawful db m.0 sub token.client_id who u seat v seated in
      let frame = Registered-frame (E.backend.tables u) seat (E.backend.tables v) registered in
      let (grown, _) = finish_returned E L ctx [] v t who audited in
      (
        serve-revoked_error E q token sub m seat s u v t here named some_sub member seated revoked
            audited,
        rw grown (rw frame (rw same (refl, refl))),
      )
