-- ===== src/Store/Returned.antt =====
-- What a database call that returned has done to the tables: the laws, read off a run.
use murray_context_ledger_mc.Base.{
  ◌≡◌, sym, ap, ◌∙◌, subst, String, true, ◌&&◌, Option, some, List, [], ◌∷◌, ◌++◌, map, Has, All, ℕ,
  ◌≢◌, if◌then◌else◌,
}
use murray_context_ledger_mc.Effect.{Result}
use murray_context_ledger_mc.Effect.Runs.{Runs, Runs-result, Runs-state}
use murray_context_ledger_mc.Db.{Client}
use murray_context_ledger_mc.Store.Rows.{Tables, FactRow, ClientRow, Membership, AuditRow}
use murray_context_ledger_mc.Store.Query.{
  FactFilter, FactQuery, FactInsert, FactPatch, ClientInsert,
}
use murray_context_ledger_mc.Store.Policy.{
  facts_update_org, facts_insert_org, clients_select_org, clients_insert_org, audit_insert_org,
  memberships_select_self,
}
use murray_context_ledger_mc.Store.Backend.{
  Backend, facts, holds_all, IsStamped, IsNewSeat, patch_row,
}
use murray_context_ledger_mc.Store.Laws.{IsLawful, Answer, stored}

abbrev pub OwnSeat : Tables → String → String → String → ClientRow → Type 0
OwnSeat t sub org oauth r =
    Has r t.clients
    × (clients_select_org t sub r ≡ true)
    × (r.org_id ≡ org)
    × (r.oauth_client_id ≡ oauth)

abbrev pub OwnMembership : Tables → String → Membership → Type 0
OwnMembership t sub m =
    Has m t.memberships × (memberships_select_self sub m ≡ true) × (m.user_id ≡ sub)

-- The facts after an update that was carried out.
abbrev pub updated : Backend → Tables → String → FactPatch → List FactFilter → List FactRow
updated B t sub p fs =
    map (λ r. if facts_update_org t sub r && holds_all B fs r then patch_row p r else r) t.facts

module _ (B : Backend) (L : IsLawful B) where
  -- A read leaves the tables as they were.
  kept :
      {A : Type 0} (m : B.State → Result A × B.State) (s : B.State) (a : A) (t : B.State)
      → (m s).1 ≡ s
      → Runs m s a t
      → B.tables t ≡ B.tables s
  kept m s a t k h = ap B.tables (sym (Runs-state m s a t h) ∙ k)

  pub select_memberships_returned :
      (c : Client) (sub : String) (s : B.State) (rows : List Membership) (t : B.State)
      → B.subject c ≡ some sub
      → Runs (B.select_memberships c sub) s rows t
      → (B.tables t ≡ B.tables s) × All (OwnMembership (B.tables s) sub) rows
  select_memberships_returned c sub s rows t who h = (
    kept (B.select_memberships c sub) s rows t (L.on_seats.members_keep c sub s) h,
    L.on_seats.members_sound c sub s sub rows who
        (Runs-result (B.select_memberships c sub) s rows t h),
  )

  pub select_clients_returned :
      (c : Client) (org oauth sub : String) (s : B.State) (rows : List ClientRow) (t : B.State)
      → B.subject c ≡ some sub
      → Runs (B.select_clients c org oauth) s rows t
      → (B.tables t ≡ B.tables s) × All (OwnSeat (B.tables s) sub org oauth) rows
  select_clients_returned c org oauth sub s rows t who h = (
    kept (B.select_clients c org oauth) s rows t (L.on_seats.seats_keep c org oauth s) h,
    L.on_seats.seats_sound c org oauth s sub rows who
        (Runs-result (B.select_clients c org oauth) s rows t h),
  )

  pub insert_client_returned :
      (c : Client) (i : ClientInsert) (sub : String) (s : B.State) (rows : List ClientRow)
      (t : B.State)
      → B.subject c ≡ some sub
      → Runs (B.insert_client c i) s rows t
      → (new : ClientRow) × (rows ≡ new ∷ [])
        × (B.tables t ≡ record (B.tables s) { clients = (B.tables s).clients ++ (new ∷ []) })
        × IsNewSeat i new
        × (clients_insert_org (B.tables s) sub new ≡ true)
  insert_client_returned c i sub s rows t who h =
      let (new, one, grown, seat, policy) =
        L.on_seats.seat_accepted c i s sub rows who
          (Runs-result (B.insert_client c i) s rows t h) in
      (
        new,
        one,
        subst
            (λ u. B.tables u ≡ record (B.tables s) { clients = (B.tables s).clients ++ (new ∷ []) })
            (Runs-state (B.insert_client c i) s rows t h)
            (L.on_seats.seat_frame c i s
              ∙ ap (λ cs. let r : Tables = record (B.tables s) { clients = cs } in r) grown),
        seat,
        policy,
      )

  pub select_facts_returned :
      (c : Client) (q : FactQuery) (sub : String) (s : B.State) (rows : List FactRow) (t : B.State)
      → B.subject c ≡ some sub
      → Runs (B.select_facts c q) s rows t
      → (B.tables t ≡ B.tables s) × Answer B (B.tables s) sub q rows
  select_facts_returned c q sub s rows t who h = (
    kept (B.select_facts c q) s rows t (L.on_facts.select_keeps c q s) h,
    L.on_facts.select_sound c q s sub rows who (Runs-result (B.select_facts c q) s rows t h),
  )

  pub count_facts_returned :
      (c : Client) (q : FactQuery) (s : B.State) (n : Option ℕ) (t : B.State)
      → Runs (B.count_facts c q) s n t
      → B.tables t ≡ B.tables s
  count_facts_returned c q s n t h = kept (B.count_facts c q) s n t (L.on_facts.count_keeps c q s) h

  pub insert_fact_returned :
      (c : Client) (i : FactInsert) (sub : String) (s : B.State) (rows : List FactRow) (t : B.State)
      → B.subject c ≡ some sub
      → Runs (B.insert_fact c i) s rows t
      → (new : FactRow) × (rows ≡ new ∷ [])
        × (B.tables t ≡ record (B.tables s) { facts = facts B s ++ (new ∷ []) })
        × IsStamped B i new
        × (facts_insert_org (B.tables s) sub new ≡ true)
        × All (λ r. r.id ≢ new.id) (facts B s)
  insert_fact_returned c i sub s rows t who h =
      let (new, one, grown, stamped, policy, fresh) =
        L.on_facts.insert_accepted c i s sub rows who
          (Runs-result (B.insert_fact c i) s rows t h) in
      (
        new,
        one,
        subst (λ u. B.tables u ≡ record (B.tables s) { facts = facts B s ++ (new ∷ []) })
            (Runs-state (B.insert_fact c i) s rows t h)
            (L.on_facts.insert_frame c i s
              ∙ ap (λ fs. let r : Tables = record (B.tables s) { facts = fs } in r) grown),
        stamped,
        policy,
        fresh,
      )

  pub update_facts_returned :
      (c : Client) (p : FactPatch) (fs : List FactFilter) (sub : String) (s : B.State)
      (rows : List FactRow) (t : B.State)
      → B.subject c ≡ some sub
      → Runs (B.update_facts c p fs) s rows t
      → B.tables t ≡ record (B.tables s) { facts = updated B (B.tables s) sub p fs }
  update_facts_returned c p fs sub s rows t who h =
      subst (λ u. B.tables u ≡ record (B.tables s) { facts = updated B (B.tables s) sub p fs })
        (Runs-state (B.update_facts c p fs) s rows t h)
        (L.on_facts.update_frame c p fs s
          ∙ ap (λ rs. let r : Tables = record (B.tables s) { facts = rs } in r)
              (L.on_facts.update_accepted c p fs s sub rows who
                (Runs-result (B.update_facts c p fs) s rows t h)))

  pub insert_audit_returned :
      (c : Client) (r : AuditRow) (sub : String) (s t : B.State)
      → B.subject c ≡ some sub
      → Runs (B.insert_audit c r) s tt t
      → (B.tables t
          ≡ record (B.tables s) { audit_log = (B.tables s).audit_log ++ (stored B r ∷ []) })
        × (audit_insert_org (B.tables s) sub r ≡ true)
  insert_audit_returned c r sub s t who h =
      let (grown, policy) =
        L.on_audit.audit_accepted c r s sub who (Runs-result (B.insert_audit c r) s tt t h) in
      (
        subst
            (λ u.
              B.tables u
              ≡ record (B.tables s) { audit_log = (B.tables s).audit_log ++ (stored B r ∷ []) })
            (Runs-state (B.insert_audit c r) s tt t h)
            (L.on_audit.audit_frame c r s
              ∙ ap (λ rs. let x : Tables = record (B.tables s) { audit_log = rs } in x) grown),
        policy,
      )
