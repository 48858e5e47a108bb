-- ===== src/Server/Context/Refused.antt =====
-- Where `_begin` raises: no caller, no single org, or a seat that is revoked.
use murray_context_ledger_mc.Base.{
  ◌≡◌, ◌≢◌, ◌⊎◌, refl, String, ◌==◌, eq_iff, Option, none, some, [], Bool-cases, inl, inr,
}
use murray_context_ledger_mc.Effect.{value_error, err}
use murray_context_ledger_mc.Effect.Runs.{Runs}
use murray_context_ledger_mc.Json.{Json}
use murray_context_ledger_mc.Auth.{AccessToken}
use murray_context_ledger_mc.Store.{ClientRow, SeatStatus, Role}
use murray_context_ledger_mc.Server.Env.{Env}
use murray_context_ledger_mc.Server.Context.{
  ToolContext, resolve_membership, resolve_client, finish, context, admit, caller_client, begin_as,
  with_subject, with_token, begin, unauthenticated_message, revoked_client_message,
}

module _ (E : Env) where
  -- Without a token, or with one that has no subject, `_begin` raises and does nothing.
  pub begin_unauthenticated :
      (tool : String) (arguments : Json) (s : E.backend.State)
      → ((t : AccessToken) → E.token ≡ some t → (t.subject ≡ none) ⊎ (t.subject ≡ some ""))
      → begin E tool arguments s ≡ (err (value_error unauthenticated_message), s)
  unfolding begin with_token with_subject
  begin_unauthenticated tool arguments s h = go E.token refl
    where
      named :
          (t : AccessToken)
          → (t.subject ≡ none) ⊎ (t.subject ≡ some "")
          → with_subject E t t.subject tool arguments s
            ≡ (err (value_error unauthenticated_message), s)
      named t (inl missing) = rw (missing, with_subject)
      named t (inr empty) = rw (empty, with_subject)

      go :
          (t : Option AccessToken)
          → E.token ≡ t
          → with_token E t tool arguments s ≡ (err (value_error unauthenticated_message), s)
      go none e = refl
      go (some t) e = named t (h t e)

  admit-revoked :
      (ctx : ToolContext) (v t : E.backend.State)
      → Runs (finish E ctx []) v tt t
      → admit E SeatStatus.revoked ctx v ≡ (err (value_error revoked_client_message), t)
  unfolding admit
  admit-revoked ctx v t h = rw h

  -- A caller whose seat is revoked: `_begin` writes the audit row and raises.
  pub begin-revoked :
      (tool : String) (arguments : Json) (token : AccessToken) (sub : String) (m : String × Role)
      (seat : ClientRow) (s u v t : E.backend.State)
      → E.token ≡ some token
      → token.subject ≡ some sub
      → sub ≢ ""
      → Runs (resolve_membership E (caller_client E sub token.claims) sub) s m u
      → Runs (resolve_client E (caller_client E sub token.claims) m.0 sub token.client_id) u seat v
      → seat.status ≡ SeatStatus.revoked
      → Runs
          (finish E (context E (caller_client E sub token.claims) sub m seat tool arguments) [])
          v
          tt
          t
      → begin E tool arguments s ≡ (err (value_error revoked_client_message), t)
  unfolding begin with_token with_subject begin_as
  begin-revoked tool arguments token sub m seat s u v t here named some_sub member seated revoked
        audited =
      rw (here, with_token)
        (rw (named, with_subject)
          (elim (Bool-cases (sub == "")) [
            | inl blank ↦ absurd (some_sub ((eq_iff sub "").0 blank))
            | inr fine ↦
                rw (fine, member, seated, revoked)
                  (admit-revoked
                    (context E (caller_client E sub token.claims) sub m seat tool arguments) v t
                    audited)
          ]))
