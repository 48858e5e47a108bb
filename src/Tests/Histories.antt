-- ===== src/Tests/Histories.antt =====
-- A day of the small ledger: calls of all its callers, one after the other.
use murray_context_ledger_mc.Base.{
  ◌≡◌, ◌==◌, eq_iff, false, true, ◌∙◌, refl, sym, ap, inl, inr, String, none, some, List, [], ◌∷◌,
  All, All-Has,
}
use murray_context_ledger_mc.Db.{client_for_subject}
use murray_context_ledger_mc.Store.{Tables, FactRow, user_org_ids}
use murray_context_ledger_mc.Store.Change.{Carried, UniqueIds, UniqueKeys}
use murray_context_ledger_mc.Server.Env.{Env, IsLawfulEnv}
use murray_context_ledger_mc.Server.Context.Kept.{caller}
use murray_context_ledger_mc.Server.Request.{
  Request, remember_request, supersede_request, promote_request, serve,
}
use murray_context_ledger_mc.Server.Request.Kept.{IsLedger}
use murray_context_ledger_mc.Server.History.{
  Event, during, run, holdings, SameMembers, Extended, run-holdings, run-IsLedger,
}
use murray_context_ledger_mc.Effect.{Result}
use murray_context_ledger_mc.Effect.Runs.{Runs}
use murray_context_ledger_mc.Server.Tools.Review.{Reviewed, not_pending}
use murray_context_ledger_mc.Server.Board.{board, Promised}
use murray_context_ledger_mc.Server.Board.Refines.{serve-Promised}
use murray_context_ledger_mc.Tests.World.{
  value, returned, world, world-IsLawfulEnv, as_user, as_user-IsLawfulEnv, token_of, ledger, tea,
  coffee, tea_row, coffee_row, secret_row, sent,
}

abbrev event : String → Request → Event
event sub request = record { token = some (token_of sub "app"); now = 2000; request = request }

abbrev day : List Event
day =
    event "u1" (promote_request coffee)
    ∷ event "u2" (remember_request (sent "Cocoa" (some "drink") ∷ sent "Milk" none ∷ []))
    ∷ event "u2" (promote_request tea)
    ∷ event "u1" (supersede_request tea (sent "Mate" (some "mate")))
    ∷ []

abbrev server : Env
server = world none

during-IsLawfulEnv : (e : Event) → IsLawfulEnv (during server e)
unfolding client_for_subject
during-IsLawfulEnv e =
    let w = world-IsLawfulEnv e.token in
    record { lawful = w.lawful; signed = w.signed; validates = w.validates }

differs : (a b : String) → (a == b) ≡ false → a ≡ b → ⊥
differs a b h e = let equal : (a == b) ≡ true = (eq_iff a b).1 e in absurd (cc)

UniqueIds-cons :
    (x : FactRow) (rs : List FactRow)
    → All (λ (r : FactRow). (r.id == x.id) ≡ false) rs
    → UniqueIds rs
    → UniqueIds (x ∷ rs)
UniqueIds-cons x rs apart unique r q (inl a) (inl b) e = a ∙ sym b
UniqueIds-cons x rs apart unique r q (inl a) (inr m) e = absurd (
    differs q.id x.id (All-Has (λ (z : FactRow). (z.id == x.id) ≡ false) q rs apart m)
      (sym e ∙ ap (λ (z : FactRow). z.id) a))
UniqueIds-cons x rs apart unique r q (inr m) (inl b) e = absurd (
    differs r.id x.id (All-Has (λ (z : FactRow). (z.id == x.id) ≡ false) r rs apart m)
      (e ∙ ap (λ (z : FactRow). z.id) b))
UniqueIds-cons x rs apart unique r q (inr m) (inr n) e = unique r q m n e

UniqueKeys-cons :
    (x : FactRow) (rs : List FactRow)
    → All (λ (r : FactRow). r.dedupe_key ≡ none) rs
    → UniqueKeys (x ∷ rs)
UniqueKeys-cons x rs keyless r q key (inl a) (inl b) h k o = a ∙ sym b
UniqueKeys-cons x rs keyless r q key (inr m) n h k o =
    let none_here = All-Has (λ (z : FactRow). z.dedupe_key ≡ none) r rs keyless m in absurd (cc)
UniqueKeys-cons x rs keyless r q key (inl a) (inr n) h k o =
    let none_here = All-Has (λ (z : FactRow). z.dedupe_key ≡ none) q rs keyless n in absurd (cc)

IsLedger-IsLedger : IsLedger ledger.facts
IsLedger-IsLedger = record {
  unique_ids =
      UniqueIds-cons tea_row (coffee_row ∷ secret_row ∷ []) (refl, (refl, tt))
        (UniqueIds-cons coffee_row (secret_row ∷ []) (refl, tt)
          (UniqueIds-cons secret_row [] tt (λ r q m n e. absurd m)));
  unique_keys = UniqueKeys-cons tea_row (coffee_row ∷ secret_row ∷ []) (refl, (refl, tt));
  linked = (inl refl, (inl refl, (inl refl, tt)));
}

run-holdings_example :
    (holdings "o2" (run server day ledger) ≡ holdings "o2" ledger)
    × SameMembers ledger (run server day ledger)
unfolding user_org_ids caller
run-holdings_example =
    run-holdings server during-IsLawfulEnv "o2" day ledger (refl, (refl, (refl, (refl, tt))))

run-IsLedger_example :
    IsLedger (run server day ledger).facts
    × Carried ledger.facts (run server day ledger).facts
    × Extended ledger.audit_log (run server day ledger).audit_log
run-IsLedger_example = run-IsLedger server during-IsLawfulEnv day ledger IsLedger-IsLedger

abbrev owner : Env
owner = as_user "u1" "app"

abbrev promotion : Result Reviewed × Tables
promotion = serve owner (promote_request coffee) ledger

promotion-Runs :
    Runs (serve owner (promote_request coffee)) ledger (value not_pending promotion) promotion.1
unfolding serve murray_context_ledger_mc.Server.Tools.Review.promote_fact
    murray_context_ledger_mc.Server.Context.begin client_for_subject user_org_ids
    murray_context_ledger_mc.Uuid.is_uuid murray_context_ledger_mc.Server.Scope.scoped_pending_facts
    murray_context_ledger_mc.Server.Scope.effective_scopes
    murray_context_ledger_mc.Server.Context.audit_row
promotion-Runs = returned (serve owner (promote_request coffee)) ledger not_pending refl

serve-Promised_example :
    Promised
      (λ id. id)
      (promote_request coffee)
      (value not_pending promotion)
      (board "o1" ledger)
      (board "o1" promotion.1)
unfolding user_org_ids caller
serve-Promised_example =
    serve-Promised owner (as_user-IsLawfulEnv "u1" "app") ledger "o1" refl (promote_request coffee)
      (value not_pending promotion) promotion.1 IsLedger-IsLedger.unique_ids promotion-Runs
