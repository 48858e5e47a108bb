-- ===== src/Tests/Seated.antt =====
-- The database in memory, for seats and the audit log.
use murray_context_ledger_mc.Base.{
  ◌≡◌, refl, sym, ap, inl, String, ◌==◌, eq_iff, Bool, true, ◌&&◌, and_left, and_right, and_true,
  some, List, [], ◌∷◌, ◌++◌, keep, Has, All,
}
use murray_context_ledger_mc.Effect.{ok}
use murray_context_ledger_mc.Db.{Client}
use murray_context_ledger_mc.Store.{
  Tables, ClientRow, Membership, AuditRow, ClientInsert, clients_select_org, clients_insert_org,
  audit_insert_org, memberships_select_self,
}
use murray_context_ledger_mc.Store.Backend.{IsNewSeat}
use murray_context_ledger_mc.Store.Laws.{IsLawful, SeatLaws, AuditLaws, stored}
use murray_context_ledger_mc.Tests.Memory.{
  subject_of, known, caller, seat_row, memory_with, memory, may_see_seat,
}
use murray_context_ledger_mc.Tests.Selected.{
  outcome-ok, outcome_done, outcome-error, outcome_undone, outcome-state, keep_sound, keep-complete,
  All-map, caller_is,
}
use murray_context_ledger_mc.Tests.Lawful.{memory-FactLaws}

abbrev own : Client → String → Tables → List Membership
own c u t = keep (λ m. memberships_select_self (caller c) m && m.user_id == u) t.memberships

abbrev seats : Client → String → String → Tables → List ClientRow
seats c org oauth t = keep (may_see_seat c org oauth t) t.clients

abbrev may_register : Client → ClientInsert → Tables → Bool
may_register c i t = known (subject_of c) && clients_insert_org t (caller c) (seat_row i)

abbrev seated : ClientInsert → Tables → Tables
seated i t = record t { clients = t.clients ++ (seat_row i ∷ []) }

abbrev may_log : Client → AuditRow → Tables → Bool
may_log c r t = known (subject_of c) && audit_insert_org t (caller c) r

module _ (writable : Bool) where
  abbrev logged_in : AuditRow → Tables → Tables
  logged_in r t = record t { audit_log = t.audit_log ++ (stored (memory_with writable) r ∷ []) }

  module _ (c : Client) (sub : String) (who : subject_of c ≡ some sub) where
    own_sound :
        (u : String) (t : Tables)
        → All
            (λ m. Has m t.memberships × (memberships_select_self sub m ≡ true) × (m.user_id ≡ u))
            (own c u t)
    own_sound u t =
        All-map _
          (λ m. Has m t.memberships × (memberships_select_self sub m ≡ true) × (m.user_id ≡ u))
          (own c u t)
          (λ m (inside, h). (
            inside,
            rw (← caller_is c sub who) (and_left _ _ h),
            (eq_iff m.user_id u).0 (and_right _ _ h),
          ))
          (keep_sound (λ m. memberships_select_self (caller c) m && m.user_id == u) t.memberships)

    seats_are_sound :
        (org oauth : String) (t : Tables)
        → All
            (λ r.
              Has r t.clients
              × (clients_select_org t sub r ≡ true)
              × (r.org_id ≡ org)
              × (r.oauth_client_id ≡ oauth))
            (seats c org oauth t)
    seats_are_sound org oauth t =
        All-map _
          (λ r.
            Has r t.clients
            × (clients_select_org t sub r ≡ true)
            × (r.org_id ≡ org)
            × (r.oauth_client_id ≡ oauth))
          (seats c org oauth t)
          (λ r (inside, h). (
            inside,
            rw (← caller_is c sub who) (and_left _ _ h),
            (eq_iff r.org_id org).0 (and_left _ _ (and_right _ _ h)),
            (eq_iff r.oauth_client_id oauth).0 (and_right _ _ (and_right _ _ h)),
          ))
          (keep_sound (may_see_seat c org oauth t) t.clients)

    seats_are_complete :
        (org oauth : String) (t : Tables) (r : ClientRow)
        → Has r t.clients
        → clients_select_org t sub r ≡ true
        → r.org_id ≡ org
        → r.oauth_client_id ≡ oauth
        → Has r (seats c org oauth t)
    seats_are_complete org oauth t r m seen o i =
        keep-complete (may_see_seat c org oauth t) r t.clients m (
          and_true _ _ (rw (caller_is c sub who) seen)
            (and_true _ _ ((eq_iff r.org_id org).1 o) ((eq_iff r.oauth_client_id oauth).1 i)))

    registered :
        (i : ClientInsert) (t : Tables) (rows : List ClientRow)
        → ((memory_with writable).insert_client c i t).0 ≡ ok rows
        → (new : ClientRow) × (rows ≡ new ∷ [])
          × (((memory_with writable).insert_client c i t).1.clients ≡ t.clients ++ (new ∷ []))
          × IsNewSeat i new
          × (clients_insert_org t sub new ≡ true)
    registered i t rows h =
        let new = seat_row i in
        let (may, same) =
          outcome-ok (may_register c i t) "42501" (new ∷ []) rows (seated i t) t h in
        (
          new,
          sym same,
          ap (λ (x : Tables). x.clients)
              (outcome_done (may_register c i t) "42501" (new ∷ []) (seated i t) t may),
          record {
            org_id = refl;
            user_id = refl;
            oauth_client_id = refl;
            display_name = refl;
            granted_scopes = refl;
            status = refl;
            connector_source = refl;
          },
          rw (← caller_is c sub who) (and_right _ _ may),
        )

  memory-SeatLaws : SeatLaws (memory_with writable)
  memory-SeatLaws = record {
    members_keep = λ c u s.
        outcome-state (λ t. t ≡ s) (known (subject_of c)) "42501" (own c u s) s s refl refl;
    members_sound = λ c u s sub rows who h.
        rw (← (outcome-ok (known (subject_of c)) "42501" (own c u s) rows s s h).1)
          (own_sound c sub who u s);
    members_complete = λ c u s sub rows who h.
        rw (← (outcome-ok (known (subject_of c)) "42501" (own c u s) rows s s h).1)
          (rw (caller_is c sub who) refl);
    seats_keep = λ c org oauth s.
        outcome-state (λ t. t ≡ s) (known (subject_of c)) "42501" (seats c org oauth s) s s refl
          refl;
    seats_sound = λ c org oauth s sub rows who h.
        rw (← (outcome-ok (known (subject_of c)) "42501" (seats c org oauth s) rows s s h).1)
          (seats_are_sound c sub who org oauth s);
    seats_complete = λ c org oauth s sub rows r who h m seen o i.
        rw (← (outcome-ok (known (subject_of c)) "42501" (seats c org oauth s) rows s s h).1)
          (seats_are_complete c sub who org oauth s r m seen o i);
    seat_frame = λ c i s.
        outcome-state (λ t. t ≡ record s { clients = t.clients }) (may_register c i s) "42501"
          (seat_row i ∷ []) (seated i s) s refl refl;
    seat_accepted = λ c i s sub rows who h. registered c sub who i s rows h;
    seat_failed = λ c i s sub e who h. inl (
        ap (λ (t : Tables). t.clients)
          (outcome_undone (may_register c i s) "42501" (seat_row i ∷ []) (seated i s) s e h));
    seat_refused = λ c i s code h.
        outcome-error (may_register c i s) "42501" code (seat_row i ∷ []) (seated i s) s h;
  }

  memory-AuditLaws : AuditLaws (memory_with writable)
  memory-AuditLaws = record {
    audit_frame = λ c r s.
        outcome-state (λ t. t ≡ record s { audit_log = t.audit_log }) (may_log c r s) "42501" tt
          (logged_in r s) s refl refl;
    audit_accepted = λ c r s sub who h.
        let (may, _) = outcome-ok (may_log c r s) "42501" tt tt (logged_in r s) s h in
        (
          ap (λ (x : Tables). x.audit_log)
              (outcome_done (may_log c r s) "42501" tt (logged_in r s) s may),
          rw (← caller_is c sub who) (and_right _ _ may),
        );
    audit_failed = λ c r s sub e who h. inl (
        ap (λ (t : Tables). t.audit_log)
          (outcome_undone (may_log c r s) "42501" tt (logged_in r s) s e h));
    audit_refused =
        λ c r s code h. outcome-error (may_log c r s) "42501" code tt (logged_in r s) s h;
  }

  pub memory_with-IsLawful : IsLawful (memory_with writable)
  memory_with-IsLawful = record {
    on_facts = memory-FactLaws writable;
    on_seats = memory-SeatLaws;
    on_audit = memory-AuditLaws;
  }

pub memory-IsLawful : IsLawful memory
memory-IsLawful = memory_with-IsLawful true
