-- ===== src/Store/Changed.antt =====
-- What each database call does to the tables, whether it returns or raises.
use murray_context_ledger_mc.Base.{
  ◌≡◌, ◌≢◌, refl, sym, ap, ◌∙◌, subst, ◌⊎◌, inl, inr, String, true, false, ◌&&◌, and_left,
  and_right, some, List, [], ◌∷◌, ◌++◌, map, Has, All, if◌then◌else◌, Bool-cases, eq_iff,
}
use murray_context_ledger_mc.Effect.{Error, Result, ok, err}
use murray_context_ledger_mc.Effect.Keeps.{Keeps}
use murray_context_ledger_mc.Db.{Client}
use murray_context_ledger_mc.Store.Rows.{Tables, FactRow, ClientRow, AuditRow}
use murray_context_ledger_mc.Store.Query.{
  FactFilter, FactQuery, FactInsert, FactPatch, ClientInsert,
}
use murray_context_ledger_mc.Store.Policy.{
  is_member_of, facts_update_org, facts_insert_org, audit_insert_org,
}
use murray_context_ledger_mc.Store.Backend.{Backend, facts, holds_all, IsStamped, patch_row}
use murray_context_ledger_mc.Store.Laws.{IsLawful, SameKey, stored}
use murray_context_ledger_mc.Store.Change.{Became, UniqueIds, Changed}
use murray_context_ledger_mc.Store.Change.Facts.{Evolved-append, Evolved-map}
use murray_context_ledger_mc.Store.Change.Others.{
  Changed-refl, Changed-trans, Changed-clients, Changed-audit, Changed-insert, Changed-update,
}

Result-cases : {A : Type 0} (r : Result A) → ((a : A) × (r ≡ ok a)) ⊎ ((e : Error) × (r ≡ err e))
Result-cases (ok a) = inl (a, refl)
Result-cases (err e) = inr (e, refl)

module _ (B : Backend) (sub : String) where
  abbrev pub Extends : B.State → B.State → Type 0
  Extends s t = Changed sub (B.tables s) (B.tables t)

  pub Extends-refl : (s : B.State) → Extends s s
  Extends-refl s = Changed-refl sub (B.tables s)

  pub Extends-trans : (s t u : B.State) → Extends s t → Extends t u → Extends s u
  Extends-trans s t u = Changed-trans sub (B.tables s) (B.tables t) (B.tables u)

  left_alone : (s t : B.State) → t ≡ s → Extends s t
  left_alone s t e = rw e (Extends-refl s)

  module _ (L : IsLawful B) where
    pub select_memberships-Keeps :
        (c : Client) (u : String) → Keeps Extends (B.select_memberships c u)
    select_memberships-Keeps c u s = left_alone s _ (L.on_seats.members_keep c u s)

    pub select_clients-Keeps :
        (c : Client) (org oauth : String) → Keeps Extends (B.select_clients c org oauth)
    select_clients-Keeps c org oauth s = left_alone s _ (L.on_seats.seats_keep c org oauth s)

    pub select_facts-Keeps : (c : Client) (q : FactQuery) → Keeps Extends (B.select_facts c q)
    select_facts-Keeps c q s = left_alone s _ (L.on_facts.select_keeps c q s)

    pub count_facts-Keeps : (c : Client) (q : FactQuery) → Keeps Extends (B.count_facts c q)
    count_facts-Keeps c q s = left_alone s _ (L.on_facts.count_keeps c q s)

    module _ (c : Client) (who : B.subject c ≡ some sub) where
      seated :
          (i : ClientInsert) (s : B.State) (rows : List ClientRow)
          → (B.tables (B.insert_client c i s).1).clients ≡ rows
          → Changed sub (B.tables s) (record (B.tables s) { clients = rows })
          → Extends s (B.insert_client c i s).1
      seated i s rows e = subst (Changed sub (B.tables s)) (
          sym (
            L.on_seats.seat_frame c i s
            ∙ ap (λ cs. let x : Tables = record (B.tables s) { clients = cs } in x) e))

      pub insert_client-Keeps : (i : ClientInsert) → Keeps Extends (B.insert_client c i)
      insert_client-Keeps i s = elim (Result-cases (B.insert_client c i s).0) [
        | inl (rows, e) ↦
            let (new, _, grown, _, may) = L.on_seats.seat_accepted c i s sub rows who e in
            seated i s _ grown (Changed-clients sub (B.tables s) new (and_left _ _ may))
        | inr (e, h) ↦ elim (L.on_seats.seat_failed c i s sub e who h) [
          | inl kept ↦ seated i s _ kept (Extends-refl s)
          | inr (new, grown, _, may) ↦
              seated i s _ grown (Changed-clients sub (B.tables s) new (and_left _ _ may))
        ]
      ]

      logged :
          (r : AuditRow) (s : B.State) (rows : List AuditRow)
          → (B.tables (B.insert_audit c r s).1).audit_log ≡ rows
          → Changed sub (B.tables s) (record (B.tables s) { audit_log = rows })
          → Extends s (B.insert_audit c r s).1
      logged r s rows e = subst (Changed sub (B.tables s)) (
          sym (
            L.on_audit.audit_frame c r s
            ∙ ap (λ rs. let x : Tables = record (B.tables s) { audit_log = rs } in x) e))

      appended :
          (r : AuditRow) (s : B.State)
          → audit_insert_org (B.tables s) sub r ≡ true
          → Changed sub
              (B.tables s)
              (record (B.tables s) { audit_log = (B.tables s).audit_log ++ (stored B r ∷ []) })
      appended r s may =
          Changed-audit sub (B.tables s) (stored B r) (and_left _ _ may)
            ((eq_iff r.user_id sub).0 (and_right _ _ may))

      pub insert_audit-Keeps : (r : AuditRow) → Keeps Extends (B.insert_audit c r)
      insert_audit-Keeps r s = elim (Result-cases (B.insert_audit c r s).0) [
        | inl (tt, e) ↦
            let (grown, may) = L.on_audit.audit_accepted c r s sub who e in
            logged r s _ grown (appended r s may)
        | inr (e, h) ↦ elim (L.on_audit.audit_failed c r s sub e who h) [
          | inl kept ↦ logged r s _ kept (Extends-refl s)
          | inr (grown, may) ↦ logged r s _ grown (appended r s may)
        ]
      ]

      joined :
          (i : FactInsert) (s : B.State) (rows : List FactRow)
          → facts B (B.insert_fact c i s).1 ≡ rows
          → Changed sub (B.tables s) (record (B.tables s) { facts = rows })
          → Extends s (B.insert_fact c i s).1
      joined i s rows e = subst (Changed sub (B.tables s)) (
          sym (
            L.on_facts.insert_frame c i s
            ∙ ap (λ fs. let x : Tables = record (B.tables s) { facts = fs } in x) e))

      stamped :
          (i : FactInsert) (s : B.State) (new : FactRow)
          → IsStamped B i new
          → facts_insert_org (B.tables s) sub new ≡ true
          → All (λ r. r.id ≢ new.id) (facts B s)
          → ((r : FactRow) → Has r (facts B s) → SameKey i r → ⊥)
          → Changed sub (B.tables s) (record (B.tables s) { facts = facts B s ++ (new ∷ []) })
      stamped i s new is may apart alone = Changed-insert sub (B.tables s) new (and_left _ _ may) (
          Evolved-append (facts B s) new is.superseded_by apart
            λ r key m kr kn same. alone r m (key, sym is.dedupe_key ∙ kn, kr, same ∙ is.org_id))

      pub insert_fact-Keeps : (i : FactInsert) → Keeps Extends (B.insert_fact c i)
      insert_fact-Keeps i s = elim (Result-cases (B.insert_fact c i s).0) [
        | inl (rows, e) ↦
            let (new, _, grown, is, may, apart) = L.on_facts.insert_accepted c i s sub rows who e in
            joined i s _ grown
              (stamped i s new is may apart λ r m k. L.on_facts.insert_unique c i s r rows m k e)
        | inr (e, h) ↦ elim (L.on_facts.insert_failed c i s sub e who h) [
          | inl kept ↦ joined i s _ kept (Extends-refl s)
          | inr (new, grown, is, may, apart, alone) ↦
              joined i s _ grown (stamped i s new is may apart alone)
        ]
      ]

      module _ (p : FactPatch) (fs : List FactFilter) (s : B.State) where
        -- What an update makes of one row.
        abbrev patched : FactRow → FactRow
        patched r =
            if facts_update_org (B.tables s) sub r && holds_all B fs r then patch_row p r else r

        patched-keeps :
            (r : FactRow)
            → ((patched r).id ≡ r.id)
              × ((patched r).dedupe_key ≡ r.dedupe_key)
              × ((patched r).org_id ≡ r.org_id)
        patched-keeps r =
            elim (Bool-cases (facts_update_org (B.tables s) sub r && holds_all B fs r)) [
              | inl h ↦ rw h (refl, refl, refl)
              | inr h ↦ rw h (refl, refl, refl)
            ]

        -- Every row that the update reaches may become what it makes of it.
        abbrev pub MayPatch : Type 0
        MayPatch =
            UniqueIds (facts B s)
            → (r : FactRow) → Has r (facts B s)
            → holds_all B fs r ≡ true
            → Became r (patch_row p r)

        patched-Became :
            MayPatch
            → UniqueIds (facts B s)
            → (r : FactRow) → Has r (facts B s)
            → Became r (patched r)
        patched-Became may unique r m =
            elim (Bool-cases (facts_update_org (B.tables s) sub r && holds_all B fs r)) [
              | inl h ↦ rw h (may unique r m (and_right _ _ h))
              | inr h ↦ rw h (Became.unchanged refl)
            ]

        patched_out : (r : FactRow) → is_member_of (B.tables s) sub r.org_id ≡ false → patched r ≡ r
        patched_out r h = rw h refl

        swapped :
            (rows : List FactRow)
            → facts B (B.update_facts c p fs s).1 ≡ rows
            → Changed sub (B.tables s) (record (B.tables s) { facts = rows })
            → Extends s (B.update_facts c p fs s).1
        swapped rows e = subst (Changed sub (B.tables s)) (
            sym (
              L.on_facts.update_frame c p fs s
              ∙ ap (λ rs. let x : Tables = record (B.tables s) { facts = rs } in x) e))

        carried_out :
            MayPatch
            → Changed sub (B.tables s) (record (B.tables s) { facts = map patched (facts B s) })
        carried_out may =
            Changed-update sub (B.tables s) patched (λ r. (patched-keeps r).2) patched_out
              (Evolved-map patched (facts B s) (λ r. (patched-keeps r).0)
                (λ r. ((patched-keeps r).1, (patched-keeps r).2)) (patched-Became may))

        pub update_facts-Extends : MayPatch → Extends s (B.update_facts c p fs s).1
        update_facts-Extends may = elim (Result-cases (B.update_facts c p fs s).0) [
          | inl (rows, e) ↦
              swapped _ (L.on_facts.update_accepted c p fs s sub rows who e) (carried_out may)
          | inr (e, h) ↦ elim (L.on_facts.update_failed c p fs s sub e who h) [
            | inl kept ↦ swapped _ kept (Extends-refl s)
            | inr done ↦ swapped _ done (carried_out may)
          ]
        ]
