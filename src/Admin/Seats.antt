-- ===== src/Admin/Seats.antt =====
-- What `register_connector` and `set_seat_status` have done to the seats when they return.
use murray_context_ledger_mc.Base.{
  ◌≡◌, refl, sym, ap, ◌∙◌, subst, ◌⊎◌, ◌==◌, ◌&&◌, eq_iff, arith, inl, inr, String, Bool, true,
  false, Bool-cases, Option, none, some, List, [], ◌∷◌, map, Has, All, if◌then◌else◌,
}
use murray_context_ledger_mc.Effect.Runs.{Runs, Runs-raise, Runs-result, Runs-state}
use murray_context_ledger_mc.Config.{Settings}
use murray_context_ledger_mc.Db.{service_client}
use murray_context_ledger_mc.Store.{Tables, ClientRow, SeatStatus}
use murray_context_ledger_mc.Admin.Interface.{
  Service, IsLawfulService, SeatValues, SeatFilter, by_key, matches, with_values, updated_seats,
}
use murray_context_ledger_mc.Admin.{
  seat_status_of, status_values, set_as, set_seat_status, revoke_seat, reinstate_seat,
}

pub if_true : {A : Type 0} {b : Bool} (x y : A) → b ≡ true → (if b then x else y) ≡ x
if_true x y h = rw h refl

pub if_false : {A : Type 0} {b : Bool} (x y : A) → b ≡ false → (if b then x else y) ≡ y
if_false x y h = rw h refl

named_revoked : seat_status_of "revoked" ≡ some SeatStatus.revoked
unfolding seat_status_of
named_revoked = refl

named_active : seat_status_of "active" ≡ some SeatStatus.active
unfolding seat_status_of
named_active = refl

is_revoked :
    (status : String) → seat_status_of status ≡ some SeatStatus.revoked → status ≡ "revoked"
unfolding seat_status_of
is_revoked status h = ground (arith, eq_iff status "active", eq_iff status "revoked")

is_active : (status : String) → seat_status_of status ≡ some SeatStatus.active → status ≡ "active"
unfolding seat_status_of
is_active status h = ground (arith, eq_iff status "active", eq_iff status "revoked")

module _ (S : Service) (L : IsLawfulService S) (settings : Settings) (now : String)
    (repr : String → String) (bypass : S.is_service (service_client settings) ≡ true) where
  pub updated-State :
      (v : SeatValues) (f : SeatFilter) (s : S.State) (rows : List ClientRow) (t : S.State)
      → Runs (S.update_seats (service_client settings) v f) s rows t
      → (S.tables t ≡ record (S.tables s) { clients = updated_seats S v f (S.tables s).clients })
        × All
            (λ r.
              (q : ClientRow) × Has q (S.tables s).clients
              × (matches S f q ≡ true)
              × (r ≡ with_values S v q))
            rows
  updated-State v f s rows t h =
      let c = service_client settings in
      let (now_is, met) =
        L.update_seats_accepted c v f s rows bypass
          (Runs-result (S.update_seats c v f) s rows t h) in
      (rw (← Runs-state (S.update_seats c v f) s rows t h) now_is, met)

  set_as_returned :
      (org oauth : String) (o : Option SeatStatus) (s : S.State) (rows : List ClientRow)
      (t : S.State)
      → Runs (set_as S settings now repr org oauth o) s rows t
      → (st : SeatStatus) × (o ≡ some st)
        × (S.tables t ≡ record (S.tables s) {
          clients = updated_seats S (status_values now st) (by_key org oauth) (S.tables s).clients;
        })
  unfolding set_as
  set_as_returned org oauth none s rows t h = absurd (Runs-raise _ s rows t h)
  set_as_returned org oauth (some st) s rows t h =
      (st, refl, (updated-State (status_values now st) (by_key org oauth) s rows t h).0)

  -- A seat of the key that is active and was never revoked, as every seat is when it is made.
  abbrev pub Untouched : String → String → ClientRow → Type 0
  Untouched org oauth r =
      matches S (by_key org oauth) r ≡ true → (r.status ≡ SeatStatus.active) × (r.revoked_at ≡ none)

  abbrev pub step : SeatStatus → String → String → ClientRow → ClientRow
  step st org oauth r =
      if matches S (by_key org oauth) r then with_values S (status_values now st) r else r

  step_back :
      (org oauth : String) (r : ClientRow)
      → Untouched org oauth r
      → step SeatStatus.active org oauth (step SeatStatus.revoked org oauth r) ≡ r
  unfolding status_values
  step_back org oauth r fresh = elim (Bool-cases (matches S (by_key org oauth) r)) [
    | inl hit ↦
        let gone = with_values S (status_values now SeatStatus.revoked) r in
        ap (step SeatStatus.active org oauth) (if_true _ _ hit)
        ∙ (if_true _ _ hit
            ∙ (λ i. record r { status = sym (fresh hit).0 i; revoked_at = sym (fresh hit).1 i }))
    | inr missed ↦ ap (step SeatStatus.active org oauth) (if_false _ _ missed) ∙ if_false _ _ missed
  ]

  there_and_back :
      (org oauth : String) (seats : List ClientRow)
      → All (Untouched org oauth) seats
      → map (step SeatStatus.active org oauth) (map (step SeatStatus.revoked org oauth) seats)
        ≡ seats
  there_and_back org oauth [] h = refl
  there_and_back org oauth (r ∷ rs) (fresh, rest) =
      λ i. step_back org oauth r fresh i ∷ there_and_back org oauth rs rest i

  named_step :
      (org oauth status : String) (s : S.State) (rows : List ClientRow) (t : S.State)
      → Runs (set_seat_status S settings now repr org oauth status) s rows t
      → (st : SeatStatus) × (seat_status_of status ≡ some st)
        × (S.tables t
            ≡ record (S.tables s) { clients = map (step st org oauth) (S.tables s).clients })
  unfolding set_seat_status
  named_step org oauth status s rows t h =
      set_as_returned org oauth (seat_status_of status) s rows t h

  -- The seats of an org and an OAuth client with another status and time of revocation.
  abbrev pub with_status :
      SeatStatus → Option String → String → String → List ClientRow → List ClientRow
  with_status st at_time org oauth = map (λ r.
      if r.org_id == S.canonical org && r.oauth_client_id == oauth
      then record r { status = st; revoked_at = at_time }
      else r)

  abbrev pub StatusSet : String → String → String → Tables → Tables → Type 0
  StatusSet org oauth status before after =
      ((status ≡ "revoked")
        × (after ≡ record before {
          clients = with_status SeatStatus.revoked (some now) org oauth before.clients;
        }))
      ⊎ ((status ≡ "active")
          × (after ≡ record before {
            clients = with_status SeatStatus.active none org oauth before.clients;
          }))

  named_status :
      (org oauth status : String) (st : SeatStatus) (before after : Tables)
      → seat_status_of status ≡ some st
      → after ≡ record before { clients = map (step st org oauth) before.clients }
      → StatusSet org oauth status before after
  unfolding status_values
  named_status org oauth status SeatStatus.revoked before after named now_is =
      inl (is_revoked status named, now_is)
  named_status org oauth status SeatStatus.active before after named now_is =
      inr (is_active status named, now_is)

  -- A call of `set_seat_status` over the service-role client that returns was given "revoked" or
  -- "active". For "revoked", exactly the seats of this org and OAuth client are now revoked, with the
  -- time of the call as the time of revocation; for "active" they are active and have none. Nothing
  -- else of these seats, no other seat and no other table has changed.
  pub set_seat_status_returned :
      (org oauth status : String) (s : S.State) (rows : List ClientRow) (t : S.State)
      → Runs (set_seat_status S settings now repr org oauth status) s rows t
      → StatusSet org oauth status (S.tables s) (S.tables t)
  set_seat_status_returned org oauth status s rows t h =
      let (st, named, now_is) = named_step org oauth status s rows t h in
      named_status org oauth status st (S.tables s) (S.tables t) named now_is

  status-State :
      (org oauth status : String) (st : SeatStatus) (s : S.State) (rows : List ClientRow)
      (t : S.State)
      → seat_status_of status ≡ some st
      → Runs (set_seat_status S settings now repr org oauth status) s rows t
      → S.tables t ≡ record (S.tables s) { clients = map (step st org oauth) (S.tables s).clients }
  status-State org oauth status st s rows t named h =
      let (st', named', now_is) = named_step org oauth status s rows t h in
      let same : st' ≡ st = cc in
      subst
        (λ x.
          S.tables t
          ≡ record (S.tables s) { clients = map (step x org oauth) (S.tables s).clients })
        same now_is

  -- If revoking a seat and then reinstating it both return, the tables are as they were before,
  -- where the seats of this org and OAuth client were active and had no time of revocation.
  pub reinstate_seat-revoke_seat :
      (org oauth : String) (s : S.State) (rows : List ClientRow) (t : S.State)
      (rows' : List ClientRow) (u : S.State)
      → All (Untouched org oauth) (S.tables s).clients
      → Runs (revoke_seat S settings now repr org oauth) s rows t
      → Runs (reinstate_seat S settings now repr org oauth) t rows' u
      → S.tables u ≡ S.tables s
  unfolding revoke_seat reinstate_seat
  reinstate_seat-revoke_seat org oauth s rows t rows' u fresh gone back =
      let first = status-State org oauth "revoked" SeatStatus.revoked s rows t named_revoked gone in
      let second = status-State org oauth "active" SeatStatus.active t rows' u named_active back in
      second
      ∙ (rw first (λ i. record (S.tables s) {
        clients = there_and_back org oauth (S.tables s).clients fresh i;
      }))
