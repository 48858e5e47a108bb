-- ===== src/Server/Context/Kept.antt =====
-- `_begin` and `_finish`, returned or raised: what they can do to the tables.
use murray_context_ledger_mc.Base.{
  ◌≡◌, refl, subst, String, ◌==◌, Bool, Option, none, some, List, [], ◌∷◌, if◌then◌else◌,
}
use murray_context_ledger_mc.Effect.{
  Error, value_error, api_error, index_error, other_error, pure, raise, ◌>>=◌, ◌>>◌, catch,
}
use murray_context_ledger_mc.Effect.Runs.{Runs}
use murray_context_ledger_mc.Effect.Keeps.{
  Keeps, Keeps-if, Keeps-pure, Keeps-raise, Keeps-bind, Keeps-bind_at, Keeps-catch,
}
use murray_context_ledger_mc.Json.{Json}
use murray_context_ledger_mc.Auth.{AccessToken}
use murray_context_ledger_mc.Db.{Client}
use murray_context_ledger_mc.Store.{Tables, Membership, Role, ClientRow, SeatStatus, ClientInsert}
use murray_context_ledger_mc.Store.Changed.{
  Extends, Extends-refl, Extends-trans, select_memberships-Keeps, select_clients-Keeps,
  insert_client-Keeps, insert_audit-Keeps,
}
use murray_context_ledger_mc.Server.Env.{Env, IsLawfulEnv}
use murray_context_ledger_mc.Server.Context.{
  ToolContext, Call, one_membership, resolve_membership, first_seat, reselect, seat_conflict,
  register_seat, found_seat, resolve_client, audit_row, finish, context, admit, email_of,
  caller_client, begin_as, with_subject, with_token, begin, unauthenticated_message, no_org_message,
  multi_org_message, revoked_client_message,
}
use murray_context_ledger_mc.Server.Context.Begin.{Begun, begin_returned}

-- The subject that a request's token names; without one, a text that is nobody's.
unfoldable pub subject_named : Option String → String
subject_named none = ""
subject_named (some sub) = sub

unfoldable pub caller : Option AccessToken → String
unfolding subject_named
caller none = ""
caller (some token) = subject_named token.subject

module _ (E : Env) (sub : String) where
  -- Whatever comes of the call, it has done to the tables only what the user can do to them.
  abbrev pub Kept : {A : Type 0} → Call E A → Type 0
  Kept m = Keeps (Extends E.backend sub) m

  pub Kept-pure : {A : Type 0} (a : A) → Kept (pure a)
  Kept-pure a = Keeps-pure (Extends E.backend sub) (Extends-refl E.backend sub) a

  pub Kept-raise : (A : Type 0) (e : Error) → Kept {A = A} (raise e)
  Kept-raise A e = Keeps-raise (Extends E.backend sub) (Extends-refl E.backend sub) A e

  pub Kept-bind :
      {A B : Type 0} (m : Call E A) (f : A → Call E B)
      → Kept m
      → ((a : A) → Kept (f a))
      → Kept (m >>= f)
  Kept-bind m f = Keeps-bind (Extends E.backend sub) (Extends-trans E.backend sub) m f

  pub Kept-bind_at :
      {A B : Type 0} (m : Call E A) (f : A → Call E B) (s : E.backend.State)
      → Extends E.backend sub s (m s).1
      → ((a : A) (u : E.backend.State) → Runs m s a u → Extends E.backend sub u (f a u).1)
      → Extends E.backend sub s ((m >>= f) s).1
  Kept-bind_at m f s = Keeps-bind_at (Extends E.backend sub) (Extends-trans E.backend sub) m f s

  pub Kept-catch :
      {A : Type 0} (m : Call E A) (h : Error → Call E A)
      → Kept m
      → ((e : Error) → Kept (h e))
      → Kept (catch m h)
  Kept-catch m h = Keeps-catch (Extends E.backend sub) (Extends-trans E.backend sub) m h

  pub Kept-if :
      {A : Type 0} (c : Bool) (m n : Call E A) → Kept m → Kept n → Kept (if c then m else n)
  Kept-if c m n = Keeps-if (Extends E.backend sub) c m n

module _ (E : Env) (L : IsLawfulEnv E) where
  pub finish-Kept :
      (ctx : ToolContext) (ids : List String)
      → E.backend.subject ctx.db ≡ some ctx.user_sub
      → Kept E ctx.user_sub (finish E ctx ids)
  unfolding finish
  finish-Kept ctx ids who =
      insert_audit-Keeps E.backend ctx.user_sub L.lawful ctx.db who (audit_row E ctx ids)

  pub finish-pure-Kept :
      {A : Type 0} (ctx : ToolContext) (ids : List String) (a : A)
      → E.backend.subject ctx.db ≡ some ctx.user_sub
      → Kept E ctx.user_sub (finish E ctx ids >> pure a)
  finish-pure-Kept ctx ids a who =
      Kept-bind E ctx.user_sub (finish E ctx ids) (λ _. pure a) (finish-Kept ctx ids who)
        (λ _. Kept-pure E ctx.user_sub a)

  pub finish-raise-Kept :
      (A : Type 0) (ctx : ToolContext) (ids : List String) (e : Error)
      → E.backend.subject ctx.db ≡ some ctx.user_sub
      → Kept E ctx.user_sub {A = A} (finish E ctx ids >> raise e)
  finish-raise-Kept A ctx ids e who =
      Kept-bind E ctx.user_sub (finish E ctx ids) (λ _. raise e) (finish-Kept ctx ids who)
        (λ _. Kept-raise E ctx.user_sub A e)

  module _ (db : Client) (sub : String) (who : E.backend.subject db ≡ some sub) where
    one_membership-Kept : (rows : List Membership) → Kept E sub (one_membership E rows)
    unfolding one_membership
    one_membership-Kept [] = Kept-raise E sub (String × Role) (value_error no_org_message)
    one_membership-Kept (m ∷ []) = Kept-pure E sub {A = String × Role} (m.org_id, m.role)
    one_membership-Kept (m ∷ n ∷ rest) =
        Kept-raise E sub (String × Role) (value_error multi_org_message)

    resolve_membership-Kept : Kept E sub (resolve_membership E db sub)
    unfolding resolve_membership
    resolve_membership-Kept =
        Kept-bind E sub (E.backend.select_memberships db sub) (one_membership E)
          (select_memberships-Keeps E.backend sub L.lawful db sub) one_membership-Kept

    first_seat-Kept : (rows : List ClientRow) → Kept E sub (first_seat E rows)
    unfolding first_seat
    first_seat-Kept [] = Kept-raise E sub ClientRow index_error
    first_seat-Kept (r ∷ rest) = Kept-pure E sub r

    module _ (org oauth : String) where
      selected-Kept :
          (f : List ClientRow → Call E ClientRow)
          → ((rows : List ClientRow) → Kept E sub (f rows))
          → Kept E sub (E.backend.select_clients db org oauth >>= f)
      selected-Kept f =
          Kept-bind E sub (E.backend.select_clients db org oauth) f
            (select_clients-Keeps E.backend sub L.lawful db org oauth)

      seat_conflict-Kept : (e : Error) → Kept E sub (seat_conflict E db org oauth e)
      unfolding seat_conflict reselect
      seat_conflict-Kept (api_error code) =
          Kept-if E sub (code == "23505") (reselect E db org oauth) (raise (api_error code))
            (selected-Kept (first_seat E) first_seat-Kept)
            (Kept-raise E sub ClientRow (api_error code))
      seat_conflict-Kept (value_error m) = Kept-raise E sub ClientRow (value_error m)
      seat_conflict-Kept index_error = Kept-raise E sub ClientRow index_error
      seat_conflict-Kept (other_error m) = Kept-raise E sub ClientRow (other_error m)

      register_seat-Kept : Kept E sub (register_seat E db org sub oauth)
      unfolding register_seat
      register_seat-Kept =
          let new : ClientInsert = record {
            org_id = org;
            user_id = sub;
            oauth_client_id = oauth;
            display_name = oauth;
          } in
          Kept-catch E sub (E.backend.insert_client db new >>= first_seat E)
            (seat_conflict E db org oauth)
            (Kept-bind E sub (E.backend.insert_client db new) (first_seat E)
              (insert_client-Keeps E.backend sub L.lawful db who new) first_seat-Kept)
            seat_conflict-Kept

      found_seat-Kept : (rows : List ClientRow) → Kept E sub (found_seat E db org sub oauth rows)
      unfolding found_seat
      found_seat-Kept [] = register_seat-Kept
      found_seat-Kept (r ∷ rest) = Kept-pure E sub r

      resolve_client-Kept : Kept E sub (resolve_client E db org sub oauth)
      unfolding resolve_client
      resolve_client-Kept = selected-Kept (found_seat E db org sub oauth) found_seat-Kept

  admit-Kept :
      (status : SeatStatus) (ctx : ToolContext)
      → E.backend.subject ctx.db ≡ some ctx.user_sub
      → Kept E ctx.user_sub (admit E status ctx)
  unfolding admit
  admit-Kept SeatStatus.active ctx who = Kept-pure E ctx.user_sub ctx
  admit-Kept SeatStatus.revoked ctx who =
      finish-raise-Kept ToolContext ctx [] (value_error revoked_client_message) who

  begin_as-Kept :
      (token : AccessToken) (sub tool : String) (arguments : Json)
      → Kept E sub (begin_as E token sub tool arguments)
  unfolding begin_as caller_client context
  begin_as-Kept token sub tool arguments =
      let db = caller_client E sub token.claims in
      let who : E.backend.subject db ≡ some sub = L.signed sub (email_of E token.claims) in
      Kept-bind E sub (resolve_membership E db sub)
        (λ member. resolve_client E db member.0 sub token.client_id >>= λ row.
          admit E row.status (context E db sub member row tool arguments))
        (resolve_membership-Kept db sub who)
        (λ member.
          Kept-bind E sub (resolve_client E db member.0 sub token.client_id)
            (λ row. admit E row.status (context E db sub member row tool arguments))
            (resolve_client-Kept db sub who member.0 token.client_id)
            (λ row. admit-Kept row.status (context E db sub member row tool arguments) who))

  with_subject-Kept :
      (token : AccessToken) (subject : Option String) (tool : String) (arguments : Json)
      → Kept E (subject_named subject) (with_subject E token subject tool arguments)
  unfolding with_subject subject_named
  with_subject-Kept token none tool arguments =
      Kept-raise E "" ToolContext (value_error unauthenticated_message)
  with_subject-Kept token (some sub) tool arguments =
      Kept-if E sub (sub == "") (raise (value_error unauthenticated_message))
        (begin_as E token sub tool arguments)
        (Kept-raise E sub ToolContext (value_error unauthenticated_message))
        (begin_as-Kept token sub tool arguments)

  with_token-Kept :
      (token : Option AccessToken) (tool : String) (arguments : Json)
      → Kept E (caller token) (with_token E token tool arguments)
  unfolding with_token caller
  with_token-Kept none tool arguments =
      Kept-raise E "" ToolContext (value_error unauthenticated_message)
  with_token-Kept (some token) tool arguments = with_subject-Kept token token.subject tool arguments

  begin-Kept : (tool : String) (arguments : Json) → Kept E (caller E.token) (begin E tool arguments)
  unfolding begin
  begin-Kept tool arguments = with_token-Kept E.token tool arguments

  pub Begun-caller :
      (tool : String) (arguments : Json) (before : Tables) (ctx : ToolContext) (mid : Tables)
      → Begun E tool arguments before ctx mid
      → ctx.user_sub ≡ caller E.token
  unfolding caller subject_named
  Begun-caller tool arguments before ctx mid b =
      let (token, here, named) = b.caller in rw (here, named) refl

  -- A tool: `_begin`, then what it does for the caller that was admitted.
  pub begin_then-Kept :
      {A : Type 0} (tool : String) (arguments : Json) (body : ToolContext → Call E A)
      → ((ctx : ToolContext)
          → E.backend.subject ctx.db ≡ some ctx.user_sub
          → Kept E ctx.user_sub (body ctx))
      → Kept E (caller E.token) (begin E tool arguments >>= body)
  begin_then-Kept tool arguments body k s =
      Kept-bind_at E (caller E.token) (begin E tool arguments) body s (begin-Kept tool arguments s)
        (λ ctx u ran.
          let b = begin_returned E L tool arguments s ctx u ran in
          subst (λ sub. Extends E.backend sub u (body ctx u).1)
            (Begun-caller tool arguments (E.backend.tables s) ctx (E.backend.tables u) b)
            (k ctx b.subject u))
