-- ===== src/Server/Context/Answers.antt =====
-- `_begin` and `_finish` on a database that is up: they end with a result or a message.
use murray_context_ledger_mc.Base.{
  ◌≡◌, refl, sym, ap, ◌∙◌, subst, String, ◌==◌, true, false, Option, none, some, List, [], ◌∷◌, Has,
  inl, inr, Bool-cases,
}
use murray_context_ledger_mc.Effect.{Result, value_error, api_error, raise, ◌>>=◌}
use murray_context_ledger_mc.Effect.Answers.{IsAnswer, IsAnswer-then, Settles}
use murray_context_ledger_mc.Effect.Runs.{Runs-result, Runs-state}
use murray_context_ledger_mc.Json.{Json}
use murray_context_ledger_mc.Auth.{AccessToken}
use murray_context_ledger_mc.Db.{Client}
use murray_context_ledger_mc.Store.{
  Tables, Membership, ClientRow, SeatStatus, ClientInsert, is_member_of,
}
use murray_context_ledger_mc.Store.Available.{IsAvailable, Speaks-IsAnswer}
use murray_context_ledger_mc.Server.Env.{Env, IsLawfulEnv}
use murray_context_ledger_mc.Server.Context.{
  ToolContext, one_membership, resolve_membership, first_seat, reselect, seat_conflict,
  register_seat, found_seat, resolve_client, audit_row, finish, context, admit, email_of,
  caller_client, begin_as, with_subject, with_token, begin, revoked_client_message,
}
use murray_context_ledger_mc.Server.Context.Org.{resolve_membership_returned, is_member_of-Has}
use murray_context_ledger_mc.Server.Context.Seat.{resolve_client_returned}
use murray_context_ledger_mc.Server.Context.Begin.{Registered-frame}
use murray_context_ledger_mc.Server.Context.Kept.{Kept, finish-Kept}

module _ (E : Env) (L : IsLawfulEnv E) (A : IsAvailable E.backend) where
  -- The caller of the context is a member of its org.
  abbrev pub Member : ToolContext → E.backend.State → Type 0
  Member ctx s = is_member_of (E.backend.tables s) ctx.user_sub ctx.org_id ≡ true

  -- No call changes the memberships, so it is enough to look at how it ends.
  pub settled :
      {A : Type 0} (ctx : ToolContext) (m : E.backend.State → Result A × E.backend.State)
      → Kept E ctx.user_sub m
      → ((s : E.backend.State) → Member ctx s → IsAnswer (m s).0)
      → Settles (Member ctx) m
  settled ctx m k h s i = (h s i, rw (k s).memberships i)

  finish-IsAnswer :
      (ctx : ToolContext) (ids : List String) (s : E.backend.State)
      → E.backend.subject ctx.db ≡ some ctx.user_sub
      → Member ctx s
      → IsAnswer (finish E ctx ids s).0
  unfolding finish audit_row
  finish-IsAnswer ctx ids s who i =
      Speaks-IsAnswer (E.backend.insert_audit ctx.db (audit_row E ctx ids) s).0
        (A.audit_answers ctx.db (audit_row E ctx ids) s)

  pub finish-Settles :
      (ctx : ToolContext) (ids : List String)
      → E.backend.subject ctx.db ≡ some ctx.user_sub
      → Settles (Member ctx) (finish E ctx ids)
  finish-Settles ctx ids who =
      settled ctx (finish E ctx ids) (finish-Kept E L ctx ids who)
        (λ s i. finish-IsAnswer ctx ids s who i)

  module _ (db : Client) (sub : String) (who : E.backend.subject db ≡ some sub) where
    one_membership-IsAnswer :
        (rows : List Membership) (s : E.backend.State) → IsAnswer (one_membership E rows s).0
    unfolding one_membership
    one_membership-IsAnswer [] s = tt
    one_membership-IsAnswer (m ∷ []) s = tt
    one_membership-IsAnswer (m ∷ n ∷ rest) s = tt

    resolve_membership-IsAnswer : (s : E.backend.State) → IsAnswer (resolve_membership E db sub s).0
    unfolding resolve_membership
    resolve_membership-IsAnswer s =
        IsAnswer-then (E.backend.select_memberships db sub) (one_membership E) s
          (Speaks-IsAnswer (E.backend.select_memberships db sub s).0 (A.members_answer db sub s))
          (λ rows u ran. one_membership-IsAnswer rows u)

    first_seat-IsAnswer :
        (rows : List ClientRow) (r : ClientRow) (s : E.backend.State)
        → Has r rows
        → IsAnswer (first_seat E rows s).0
    unfolding first_seat
    first_seat-IsAnswer [] r s m = absurd m
    first_seat-IsAnswer (x ∷ rows) r s m = tt

    module _ (org oauth : String) where
      abbrev new_seat : ClientInsert
      new_seat = record {
        org_id = org;
        user_id = sub;
        oauth_client_id = oauth;
        display_name = oauth;
      }

      -- The seat that another request has registered is found.
      conflict-IsAnswer :
          (s : E.backend.State) (r : ClientRow)
          → is_member_of (E.backend.tables s) sub org ≡ true
          → Has r (E.backend.tables s).clients
          → r.org_id ≡ org
          → r.oauth_client_id ≡ oauth
          → IsAnswer (seat_conflict E db org oauth (api_error "23505") s).0
      unfolding seat_conflict reselect
      conflict-IsAnswer s r member m o i =
          let look = E.backend.select_clients db org oauth in
          IsAnswer-then look (first_seat E) s
            (Speaks-IsAnswer (look s).0 (A.seats_answer db org oauth s))
            (λ rows u ran. first_seat-IsAnswer rows r u (
              L.lawful.on_seats.seats_complete db org oauth s sub rows r who
                (Runs-result look s rows u ran) m (rw o member) o i))

      -- Any other error is passed on.
      other-IsAnswer :
          (code : String) (s : E.backend.State)
          → (code == "23505") ≡ false
          → IsAnswer (seat_conflict E db org oauth (api_error code) s).0
      unfolding seat_conflict
      other-IsAnswer code s other = rw other other

      register_seat-IsAnswer :
          (s : E.backend.State)
          → is_member_of (E.backend.tables s) sub org ≡ true
          → IsAnswer (register_seat E db org sub oauth s).0
      unfolding register_seat first_seat
      register_seat-IsAnswer s member = elim (A.seat_answers db new_seat sub s who member refl) [
        | inl (inr (code, e, other)) ↦ rw e (other-IsAnswer code _ other)
        | inl (inl (rows, e)) ↦
            let (new, one, _, _, _) =
              L.lawful.on_seats.seat_accepted db new_seat s sub rows who e in
            rw (e, one) tt
        | inr (e, r, m, o, i) ↦ rw e (
            subst (λ u. IsAnswer (seat_conflict E db org oauth (api_error "23505") u).0)
              (sym (L.lawful.on_seats.seat_refused db new_seat s "23505" e))
              (conflict-IsAnswer s r member m o i))
      ]

      found_seat-IsAnswer :
          (rows : List ClientRow) (s : E.backend.State)
          → is_member_of (E.backend.tables s) sub org ≡ true
          → IsAnswer (found_seat E db org sub oauth rows s).0
      unfolding found_seat
      found_seat-IsAnswer [] s member = register_seat-IsAnswer s member
      found_seat-IsAnswer (r ∷ rows) s member = tt

      resolve_client-IsAnswer :
          (s : E.backend.State)
          → is_member_of (E.backend.tables s) sub org ≡ true
          → IsAnswer (resolve_client E db org sub oauth s).0
      unfolding resolve_client
      resolve_client-IsAnswer s member =
          let look = E.backend.select_clients db org oauth in
          let kept = L.lawful.on_seats.seats_keep db org oauth s in
          IsAnswer-then look (found_seat E db org sub oauth) s
            (Speaks-IsAnswer (look s).0 (A.seats_answer db org oauth s))
            (λ rows u ran.
              let same : u ≡ s = sym (Runs-state look s rows u ran) ∙ kept in
              found_seat-IsAnswer rows u (rw same member))

  admit-IsAnswer :
      (status : SeatStatus) (ctx : ToolContext) (s : E.backend.State)
      → E.backend.subject ctx.db ≡ some ctx.user_sub
      → Member ctx s
      → IsAnswer (admit E status ctx s).0
  unfolding admit
  admit-IsAnswer SeatStatus.active ctx s who i = tt
  admit-IsAnswer SeatStatus.revoked ctx s who i =
      IsAnswer-then (finish E ctx []) (λ _. raise (value_error revoked_client_message)) s
        (finish-IsAnswer ctx [] s who i) (λ _ u ran. tt)

  module _ (token : AccessToken) (tool : String) (arguments : Json) where
    begin_as-IsAnswer :
        (sub : String) (s : E.backend.State) → IsAnswer (begin_as E token sub tool arguments s).0
    unfolding begin_as caller_client context
    begin_as-IsAnswer sub s =
        let db = caller_client E sub token.claims in
        let who : E.backend.subject db ≡ some sub = L.signed sub (email_of E token.claims) in
        IsAnswer-then (resolve_membership E db sub)
          (λ member. resolve_client E db member.0 sub token.client_id >>= λ row.
            admit E row.status (context E db sub member row tool arguments))
          s (resolve_membership-IsAnswer db sub who s)
          (λ m u ran.
            let (same, found, _) = resolve_membership_returned E L.lawful db sub s m u who ran in
            let member : is_member_of (E.backend.tables u) sub m.0 ≡ true = rw same (
              is_member_of-Has sub (E.backend.tables s).memberships
                (record { org_id = m.0; user_id = sub; role = m.1 }) refl found) in
            IsAnswer-then (resolve_client E db m.0 sub token.client_id)
              (λ row. admit E row.status (context E db sub m row tool arguments)) u
              (resolve_client-IsAnswer db sub who m.0 token.client_id u member)
              (λ row v seated.
                let (_, registered) =
                  resolve_client_returned E L.lawful db m.0 sub token.client_id who u row v
                    seated in
                let frame =
                  Registered-frame (E.backend.tables u) row (E.backend.tables v) registered in
                admit-IsAnswer row.status (context E db sub m row tool arguments) v who
                  (rw (ap (λ (t : Tables). t.memberships) frame) member)))

    with_subject-IsAnswer :
        (subject : Option String) (s : E.backend.State)
        → IsAnswer (with_subject E token subject tool arguments s).0
    unfolding with_subject
    with_subject-IsAnswer none s = tt
    with_subject-IsAnswer (some sub) s = elim (Bool-cases (sub == "")) [
      | inl empty ↦ rw empty tt
      | inr named ↦ rw named (begin_as-IsAnswer sub s)
    ]

  with_token-IsAnswer :
      (token : Option AccessToken) (tool : String) (arguments : Json) (s : E.backend.State)
      → IsAnswer (with_token E token tool arguments s).0
  unfolding with_token
  with_token-IsAnswer none tool arguments s = tt
  with_token-IsAnswer (some token) tool arguments s =
      with_subject-IsAnswer token tool arguments token.subject s

  pub begin-IsAnswer :
      (tool : String) (arguments : Json) (s : E.backend.State)
      → IsAnswer (begin E tool arguments s).0
  unfolding begin
  begin-IsAnswer tool arguments s = with_token-IsAnswer E.token tool arguments s
