-- ===== src/Server/Context/Seat.antt =====
-- `_resolve_client`: the seat of an OAuth client in an org, found or registered.
use murray_context_ledger_mc.Base.{
  ◌≡◌, refl, sym, ◌∙◌, ◌⊎◌, inl, inr, String, ◌==◌, some, List, [], ◌∷◌, ◌++◌, Has,
  Has-append_right, All-Has, and_left, ap,
}
use murray_context_ledger_mc.Effect.{Error, api_error, Result, err, raise, ◌>>=◌}
use murray_context_ledger_mc.Effect.Runs.{
  Runs, Runs-bind, Runs-pure, Runs-catch, Runs-if, Fails-bind,
}
use murray_context_ledger_mc.Db.{Client}
use murray_context_ledger_mc.Store.{Tables, ClientRow, SeatStatus, ClientInsert}
use murray_context_ledger_mc.Store.Laws.{IsLawful}
use murray_context_ledger_mc.Store.Returned.{
  OwnSeat, select_clients_returned, insert_client_returned,
}
use murray_context_ledger_mc.Server.Env.{Env}
use murray_context_ledger_mc.Server.Context.{
  first_seat, seat_conflict, register_seat, found_seat, resolve_client, reselect,
}

-- The tables as they were, or with one new seat, which is active and has the default scopes.
abbrev pub Registered : Tables → ClientRow → Tables → Type 0
Registered before r after =
    (after ≡ before)
    ⊎ ((after ≡ record before { clients = before.clients ++ (r ∷ []) })
        × (r.status ≡ SeatStatus.active)
        × (r.granted_scopes ≡ "personal" ∷ "work" ∷ []))

module _ (E : Env) (L : IsLawful E.backend) (db : Client) (org sub oauth : String)
    (who : E.backend.subject db ≡ some sub) where
  abbrev Seated : E.backend.State → ClientRow → E.backend.State → Type 0
  Seated s r t =
      OwnSeat (E.backend.tables t) sub org oauth r
      × Registered (E.backend.tables s) r (E.backend.tables t)

  first_seat-Runs :
      (rows : List ClientRow) (s : E.backend.State) (r : ClientRow) (t : E.backend.State)
      → Runs (first_seat E rows) s r t
      → (s ≡ t) × Has r rows
  unfolding first_seat
  first_seat-Runs [] s r t h = cc
  first_seat-Runs (k ∷ rows) s r t h =
      let (same, kept) = Runs-pure k s r t h in (kept, inl (sym same))

  -- A seat that a select has answered.
  selected :
      (s u : E.backend.State) (rows : List ClientRow) (r : ClientRow) (t : E.backend.State)
      → Runs (E.backend.select_clients db org oauth) s rows u
      → (u ≡ t) × Has r rows
      → Seated s r t
  selected s u rows r t got (same, found) =
      let (kept, sound) = select_clients_returned E.backend L db org oauth sub s rows u who got in
      let kept' : E.backend.tables t ≡ E.backend.tables s = rw (← same) kept in
      (
        rw kept' (All-Has (OwnSeat (E.backend.tables s) sub org oauth) r rows sound found),
        inl kept',
      )

  new_seat : ClientInsert
  new_seat = record { org_id = org; user_id = sub; oauth_client_id = oauth; display_name = oauth }

  only : (r new : ClientRow) (rows : List ClientRow) → rows ≡ new ∷ [] → Has r rows → r ≡ new
  only r new rows one found = elim (rw one at found) [
    | inl e ↦ e
    | inr none_left ↦ absurd none_left
  ]

  -- The insert went through.
  inserted :
      (s u : E.backend.State) (rows : List ClientRow) (r : ClientRow) (t : E.backend.State)
      → Runs (E.backend.insert_client db new_seat) s rows u
      → (u ≡ t) × Has r rows
      → Seated s r t
  unfolding new_seat
  inserted s u rows r t got (same, found) =
      let (new, one, grown, seat, policy) =
        insert_client_returned E.backend L db new_seat sub s rows u who got in
      let same_row : r ≡ new = only r new rows one found in
      let grown' : E.backend.tables t
          ≡ record (E.backend.tables s) { clients = (E.backend.tables s).clients ++ (r ∷ []) } =
        rw (← same, same_row) grown in
      (
        rw (grown', same_row)
            (
              Has-append_right new (E.backend.tables s).clients (new ∷ []) (inl refl),
              and_left _ _ policy,
              seat.org_id,
              seat.oauth_client_id,
            ),
        inr (grown', rw same_row seat.status, rw same_row seat.granted_scopes),
      )

  first_seat_refuses :
      (rows : List ClientRow) (s : E.backend.State) (code : String) (t : E.backend.State)
      → first_seat E rows s ≡ (err (api_error code), t)
      → ⊥
  unfolding first_seat
  first_seat_refuses [] s code t h = cc
  first_seat_refuses (k ∷ rows) s code t h = cc

  refused :
      (s u : E.backend.State) (code : String)
      → (E.backend.insert_client db new_seat >>= first_seat E) s ≡ (err (api_error code), u)
      → u ≡ s
  unfolding first_seat
  refused s u code h =
      elim (Fails-bind (E.backend.insert_client db new_seat) (first_seat E) s (api_error code) u
        h) [
          | inl at_once ↦
              sym (ap (λ (p : Result (List ClientRow) × E.backend.State). p.1) at_once)
              ∙ L.on_seats.seat_refused db new_seat s code
                  (ap (λ (p : Result (List ClientRow) × E.backend.State). p.0) at_once)
          | inr (rows, v, got, late) ↦ absurd (first_seat_refuses rows v code u late)
        ]

  -- The insert was refused, since another request had registered the seat.
  conflicted :
      (s u : E.backend.State) (e : Error) (r : ClientRow) (t : E.backend.State)
      → (E.backend.insert_client db new_seat >>= first_seat E) s ≡ (err e, u)
      → Runs (seat_conflict E db org oauth e) u r t
      → Seated s r t
  unfolding seat_conflict reselect
  conflicted s u (api_error code) r t failed h =
      elim (Runs-if (code == "23505") (reselect E db org oauth) (raise (api_error code)) u r t h) [
        | inl (unique, again) ↦
            let (rows, v, got, rest) =
              Runs-bind (E.backend.select_clients db org oauth) (first_seat E) u r t again in
            let back : u ≡ s = refused s u code failed in
            selected s v rows r t (rw (← back) got) (first_seat-Runs rows v r t rest)
        | inr (other, raised) ↦ cc
      ]
  conflicted s u e r t failed h = cc

  register_seat_returned :
      (s : E.backend.State) (r : ClientRow) (t : E.backend.State)
      → Runs (register_seat E db org sub oauth) s r t
      → Seated s r t
  unfolding register_seat new_seat
  register_seat_returned s r t h =
      elim (Runs-catch (E.backend.insert_client db new_seat >>= first_seat E)
        (seat_conflict E db org oauth) s r t h) [
          | inl went ↦
              let (rows, u, got, rest) =
                Runs-bind (E.backend.insert_client db new_seat) (first_seat E) s r t went in
              inserted s u rows r t got (first_seat-Runs rows u r t rest)
          | inr (e, u, failed, rest) ↦ conflicted s u e r t failed rest
        ]

  found_seat_returned :
      (s u : E.backend.State) (rows : List ClientRow) (r : ClientRow) (t : E.backend.State)
      → Runs (E.backend.select_clients db org oauth) s rows u
      → Runs (found_seat E db org sub oauth rows) u r t
      → Seated s r t
  unfolding found_seat
  found_seat_returned s u [] r t got h =
      let (kept, _) = select_clients_returned E.backend L db org oauth sub s [] u who got in
      rw (← kept) (register_seat_returned u r t h)
  found_seat_returned s u (k ∷ rows) r t got h =
      let (same, first) = Runs-pure k u r t h in
      selected s u (k ∷ rows) r t got (first, inl (sym same))

  -- For a client that acts for the subject: a call of `_resolve_client` that returns answers a
  -- seat of exactly this org and OAuth client. No seat that was there is changed: the tables are
  -- as before, or have gained this seat, which is then active.
  pub resolve_client_returned :
      (s : E.backend.State) (r : ClientRow) (t : E.backend.State)
      → Runs (resolve_client E db org sub oauth) s r t
      → OwnSeat (E.backend.tables t) sub org oauth r
        × Registered (E.backend.tables s) r (E.backend.tables t)
  unfolding resolve_client
  resolve_client_returned s r t h =
      let (rows, u, got, rest) =
        Runs-bind (E.backend.select_clients db org oauth) (found_seat E db org sub oauth) s r t h in
      found_seat_returned s u rows r t got rest
