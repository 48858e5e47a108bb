-- ===== src/Server/History.antt =====
-- The server over time: each HTTP request to /mcp carries its own token and is served in turn, on
-- the tables that the calls before it left, whatever became of those.
use mathlib.Core.List.{append-nil, append_assoc}
use murray_context_ledger_mc.Base.{
  ◌≡◌, refl, sym, ap, ◌∙◌, ℕ, String, ◌==◌, eq_iff, Bool, true, false, not, Option, List, [], ◌∷◌,
  ◌++◌, keep, All, Bool-cases, inl, inr,
}
use murray_context_ledger_mc.Auth.{AccessToken}
use murray_context_ledger_mc.Store.{Tables, FactRow, ClientRow, AuditRow, is_member_of}
use murray_context_ledger_mc.Store.Change.{Carried, elsewhere}
use murray_context_ledger_mc.Store.Change.Facts.{Carried-refl, Carried-trans}
use murray_context_ledger_mc.Server.Env.{Env, IsLawfulEnv}
use murray_context_ledger_mc.Server.Context.Kept.{caller}
use murray_context_ledger_mc.Server.Request.{Request, serve}
use murray_context_ledger_mc.Server.Request.Kept.{
  UntouchedBy, IsLedger, serve-UntouchedBy, serve-IsLedger,
}

-- One call: the token that `get_access_token()` returns in it, the clock, and the request.
pub record Event : Type 0 where
  pub token : Option AccessToken
  pub now : ℕ
  pub request : Request

-- The server in one call.
abbrev pub during : Env → Event → Env
during E e = record E { token = e.token; now = e.now }

unfoldable pub run : (E : Env) → List Event → E.backend.State → E.backend.State
run E [] s = s
run E (e ∷ es) s = run E es (serve (during E e) e.request s).1

-- What an org holds.
pub record Holdings : Type 0 where
  pub facts : List FactRow
  pub clients : List ClientRow
  pub audit_log : List AuditRow

unfoldable pub holdings : String → Tables → Holdings
holdings org t = record {
  facts = keep (λ r. r.org_id == org) t.facts;
  clients = keep (λ r. r.org_id == org) t.clients;
  audit_log = keep (λ r. r.org_id == org) t.audit_log;
}

module _ {A : Type 0} where
  keep-keep :
      (p q : A → Bool) (xs : List A)
      → ((x : A) → p x ≡ true → q x ≡ true)
      → keep p (keep q xs) ≡ keep p xs
  keep-keep p q [] h = refl
  keep-keep p q (x ∷ xs) h =
      let rest = keep-keep p q xs h in
      elim (Bool-cases (p x)) [
        | inl e ↦ rw (h x e, e, rest) refl
        | inr e ↦ elim (Bool-cases (q x)) [
          | inl d ↦ rw (d, e, rest) refl
          | inr d ↦ rw (d, e, rest) refl
        ]
      ]

  -- The rows of one org that a user is no member of, among those of all such orgs.
  of_org :
      (t : Tables) (sub org : String) (org_of : A → String) (before after : List A)
      → is_member_of t sub org ≡ false
      → elsewhere t sub org_of after ≡ elsewhere t sub org_of before
      → keep (λ r. org_of r == org) after ≡ keep (λ r. org_of r == org) before
  of_org t sub org org_of before after out e =
      let p = λ (r : A). org_of r == org in
      let q = λ (r : A). not (is_member_of t sub (org_of r)) in
      let outside : (r : A) → p r ≡ true → q r ≡ true =
        λ r h. rw ((eq_iff (org_of r) org).0 h, out) refl in
      sym (keep-keep p q after outside) ∙ ap (keep p) e ∙ keep-keep p q before outside

pub UntouchedBy-holdings :
    (sub org : String) (before after : Tables)
    → is_member_of before sub org ≡ false
    → UntouchedBy sub before after
    → holdings org after ≡ holdings org before
unfolding holdings
UntouchedBy-holdings sub org before after out (_, _, facts, clients, audit) =
    rw
      (
        of_org before sub org (λ (r : FactRow). r.org_id) before.facts after.facts out facts,
        of_org before sub org (λ (r : ClientRow). r.org_id) before.clients after.clients out
            clients,
        of_org before sub org (λ (r : AuditRow). r.org_id) before.audit_log after.audit_log out
            audit,
      )
      refl

abbrev pub SameMembers : Tables → Tables → Type 0
SameMembers before after = (after.orgs ≡ before.orgs) × (after.memberships ≡ before.memberships)

abbrev pub Extended : List AuditRow → List AuditRow → Type 0
Extended before after = (rows : List AuditRow) × (after ≡ before ++ rows)

-- None of the callers is a member of the org.
abbrev pub Strangers : String → Tables → List Event → Type 0
Strangers org t = All (λ e. is_member_of t (caller e.token) org ≡ false)

module _ (E : Env) (L : (e : Event) → IsLawfulEnv (during E e)) where
  -- The memberships decide who is a stranger, and no call changes them.
  Strangers-same :
      (org : String) (t u : Tables) (es : List Event)
      → u.memberships ≡ t.memberships
      → Strangers org t es
      → Strangers org u es
  Strangers-same org t u [] same h = tt
  Strangers-same org t u (e ∷ es) same h = (rw same h.0, Strangers-same org t u es same h.1)

  -- Isolation, over a lawful database: any sequence of calls, of any tools, with any arguments,
  -- returned or raised at any point, by any callers none of whom is a member of an org (a call
  -- without a token is by nobody), leaves that org its facts, its seats and its audit rows as they
  -- were, and does not change the orgs or the memberships.
  pub run-holdings :
      (org : String) (es : List Event) (s : E.backend.State)
      → Strangers org (E.backend.tables s) es
      → (holdings org (E.backend.tables (run E es s)) ≡ holdings org (E.backend.tables s))
        × SameMembers (E.backend.tables s) (E.backend.tables (run E es s))
  unfolding run
  run-holdings org [] s h = (refl, (refl, refl))
  run-holdings org (e ∷ es) s h =
      let untouched = serve-UntouchedBy (during E e) (L e) e.request s in
      let next = (serve (during E e) e.request s).1 in
      let (later, (orgs, members)) =
        run-holdings org es next
          (Strangers-same org (E.backend.tables s) (E.backend.tables next) es untouched.1 h.1) in
      (
        later
            ∙ UntouchedBy-holdings (caller e.token) org (E.backend.tables s) (E.backend.tables next)
                h.0 untouched,
        (orgs ∙ untouched.0, members ∙ untouched.1),
      )

  -- Over a lawful database, any sequence of calls, of any tools, returned or raised at any point, by
  -- any callers, takes a ledger (unique ids, unique keys within an org, links on superseded facts
  -- only) to a ledger. Each fact stands where it stood, and is as it was, or was pending and is now
  -- active or rejected, or is now superseded and names a successor; nothing else of it has changed.
  -- Other facts and rows of the audit log have only been appended.
  pub run-IsLedger :
      (es : List Event) (s : E.backend.State)
      → IsLedger (E.backend.tables s).facts
      → IsLedger (E.backend.tables (run E es s)).facts
        × Carried (E.backend.tables s).facts (E.backend.tables (run E es s)).facts
        × Extended (E.backend.tables s).audit_log (E.backend.tables (run E es s)).audit_log
  unfolding run
  run-IsLedger [] s ledger =
      (ledger, Carried-refl (E.backend.tables s).facts, ([], sym (append-nil _)))
  run-IsLedger (e ∷ es) s ledger =
      let next = (serve (during E e) e.request s).1 in
      let (ledger', carried, (rows, logged, _)) =
        serve-IsLedger (during E e) (L e) e.request s ledger in
      let (last, more, (later, extended)) = run-IsLedger es next ledger' in
      (
        last,
        Carried-trans _ (E.backend.tables next).facts _ carried more,
        (
          rows ++ later,
          extended
              ∙ ap (λ log. log ++ later) logged
              ∙ append_assoc (E.backend.tables s).audit_log rows later,
        ),
      )
