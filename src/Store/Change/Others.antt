-- ===== src/Store/Change/Others.antt =====
-- What a caller leaves alone: an order on tables, and its steps, one table at a time.
use mathlib.Core.List.{append-nil, append_assoc}
use murray_context_ledger_mc.Base.{
  ◌≡◌, refl, sym, ap, ◌∙◌, String, Bool, true, false, not, contains, List, [], ◌∷◌, ◌++◌, map, keep,
  All-append, arith, Bool-cases, inl, inr,
}
use murray_context_ledger_mc.Store.Rows.{Tables, FactRow, ClientRow, AuditRow, Membership}
use murray_context_ledger_mc.Store.Policy.{user_org_ids, is_member_of}
use murray_context_ledger_mc.Store.Change.{Evolved, elsewhere, Logged, Changed}
use murray_context_ledger_mc.Store.Change.Facts.{Evolved-refl, Evolved-trans}

module _ {A : Type 0} where
  keep-append_one :
      (p : A → Bool) (xs : List A) (x : A) → p x ≡ false → keep p (xs ++ (x ∷ [])) ≡ keep p xs
  keep-append_one p [] x h = rw h refl
  keep-append_one p (y ∷ ys) x h = rw (keep-append_one p ys x h) refl

  keep-map_same :
      (p : A → Bool) (f : A → A) (xs : List A)
      → ((x : A) → p (f x) ≡ p x)
      → ((x : A) → p x ≡ true → f x ≡ x)
      → keep p (map f xs) ≡ keep p xs
  keep-map_same p f [] same fixed = refl
  keep-map_same p f (x ∷ xs) same fixed =
      let rest = keep-map_same p f xs same fixed in
      elim (Bool-cases (p x)) [
        | inl h ↦ rw (same x, h, rest, fixed x h) refl
        | inr h ↦ rw (same x, h, rest) refl
      ]

  elsewhere_same :
      (t u : Tables) (sub : String) (org_of : A → String) (rows : List A)
      → t.memberships ≡ u.memberships
      → elsewhere t sub org_of rows ≡ elsewhere u sub org_of rows
  elsewhere_same t u sub org_of rows e =
      ap
        (λ (ms : List Membership). keep (λ r. not (contains (user_org_ids ms sub) (org_of r))) rows)
        e

  elsewhere-append :
      (t : Tables) (sub : String) (org_of : A → String) (rows : List A) (new : A)
      → is_member_of t sub (org_of new) ≡ true
      → elsewhere t sub org_of (rows ++ (new ∷ [])) ≡ elsewhere t sub org_of rows
  elsewhere-append t sub org_of rows new h =
      keep-append_one (λ r. not (is_member_of t sub (org_of r))) rows new (ap not h)

  elsewhere_trans :
      (t u : Tables) (sub : String) (org_of : A → String) (before mid after : List A)
      → u.memberships ≡ t.memberships
      → elsewhere t sub org_of mid ≡ elsewhere t sub org_of before
      → elsewhere u sub org_of after ≡ elsewhere u sub org_of mid
      → elsewhere t sub org_of after ≡ elsewhere t sub org_of before
  elsewhere_trans t u sub org_of before mid after e first second =
      elsewhere_same t u sub org_of after (sym e)
      ∙ second
      ∙ elsewhere_same u t sub org_of mid e
      ∙ first

Logged-refl : (sub : String) (log : List AuditRow) → Logged sub log log
Logged-refl sub log = ([], sym (append-nil log), tt)

Logged-trans :
    (sub : String) (before mid after : List AuditRow)
    → Logged sub before mid
    → Logged sub mid after
    → Logged sub before after
Logged-trans sub before mid after (xs, e, h) (ys, d, k) =
    (xs ++ ys, d ∙ ap (λ l. l ++ ys) e ∙ append_assoc before xs ys, All-append _ xs ys h k)

pub Changed-refl : (sub : String) (t : Tables) → Changed sub t t
Changed-refl sub t = record {
  orgs = refl;
  memberships = refl;
  evolved = Evolved-refl t.facts;
  logged = Logged-refl sub t.audit_log;
  other_facts = refl;
  other_clients = refl;
  other_audit = refl;
}

pub Changed-trans :
    (sub : String) (t u v : Tables) → Changed sub t u → Changed sub u v → Changed sub t v
Changed-trans sub t u v c d = record {
  orgs = d.orgs ∙ c.orgs;
  memberships = d.memberships ∙ c.memberships;
  evolved = Evolved-trans t.facts u.facts v.facts c.evolved d.evolved;
  logged = Logged-trans sub t.audit_log u.audit_log v.audit_log c.logged d.logged;
  other_facts =
      elsewhere_trans t u sub (λ (r : FactRow). r.org_id) t.facts u.facts v.facts c.memberships
        c.other_facts d.other_facts;
  other_clients =
      elsewhere_trans t u sub (λ (r : ClientRow). r.org_id) t.clients u.clients v.clients
        c.memberships c.other_clients d.other_clients;
  other_audit =
      elsewhere_trans t u sub (λ (r : AuditRow). r.org_id) t.audit_log u.audit_log v.audit_log
        c.memberships c.other_audit d.other_audit;
}

pub Changed-clients :
    (sub : String) (t : Tables) (new : ClientRow)
    → is_member_of t sub new.org_id ≡ true
    → Changed sub t (record t { clients = t.clients ++ (new ∷ []) })
Changed-clients sub t new h = record {
  orgs = refl;
  memberships = refl;
  evolved = Evolved-refl t.facts;
  logged = Logged-refl sub t.audit_log;
  other_facts = refl;
  other_clients = elsewhere-append t sub (λ (r : ClientRow). r.org_id) t.clients new h;
  other_audit = refl;
}

pub Changed-audit :
    (sub : String) (t : Tables) (new : AuditRow)
    → is_member_of t sub new.org_id ≡ true
    → new.user_id ≡ sub
    → Changed sub t (record t { audit_log = t.audit_log ++ (new ∷ []) })
Changed-audit sub t new h named = record {
  orgs = refl;
  memberships = refl;
  evolved = Evolved-refl t.facts;
  logged = (new ∷ [], refl, (named, tt));
  other_facts = refl;
  other_clients = refl;
  other_audit = elsewhere-append t sub (λ (r : AuditRow). r.org_id) t.audit_log new h;
}

pub Changed-insert :
    (sub : String) (t : Tables) (new : FactRow)
    → is_member_of t sub new.org_id ≡ true
    → Evolved t.facts (t.facts ++ (new ∷ []))
    → Changed sub t (record t { facts = t.facts ++ (new ∷ []) })
Changed-insert sub t new h evolved = record {
  orgs = refl;
  memberships = refl;
  evolved = evolved;
  logged = Logged-refl sub t.audit_log;
  other_facts = elsewhere-append t sub (λ (r : FactRow). r.org_id) t.facts new h;
  other_clients = refl;
  other_audit = refl;
}

pub Changed-update :
    (sub : String) (t : Tables) (f : FactRow → FactRow)
    → ((r : FactRow) → (f r).org_id ≡ r.org_id)
    → ((r : FactRow) → is_member_of t sub r.org_id ≡ false → f r ≡ r)
    → Evolved t.facts (map f t.facts)
    → Changed sub t (record t { facts = map f t.facts })
Changed-update sub t f keeps fixed evolved = record {
  orgs = refl;
  memberships = refl;
  evolved = evolved;
  logged = Logged-refl sub t.audit_log;
  other_facts =
      keep-map_same (λ r. not (is_member_of t sub r.org_id)) f t.facts
        (λ r. ap (λ (org : String). not (is_member_of t sub org)) (keeps r))
        (λ r h. fixed r (not_true (is_member_of t sub r.org_id) h));
  other_clients = refl;
  other_audit = refl;
}
  where
    not_true : (b : Bool) → not b ≡ true → b ≡ false
    not_true b h = ground arith
