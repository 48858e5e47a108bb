-- ===== src/Admin/Register.antt =====
-- What `register_connector` has done to the seats when it returns.
use murray_context_ledger_mc.Base.{
  ◌≡◌, refl, sym, ap, ◌∙◌, inl, inr, subst, String, eq_iff, true, false, Bool-cases, Option, none,
  some, List, [], ◌∷◌, ◌++◌, map, Has, All, All-Has, Has-map, Has-append_left, Has-append_right,
  if◌then◌else◌, is_blank,
}
use murray_context_ledger_mc.Effect.{value_error, raise, ◌>>=◌}
use murray_context_ledger_mc.Effect.Runs.{
  Runs, Runs-bind, Runs-if, Runs-raise, Runs-result, Runs-state,
}
use murray_context_ledger_mc.Config.{Settings}
use murray_context_ledger_mc.Db.{service_client}
use murray_context_ledger_mc.Store.{Tables, ClientRow, SeatStatus}
use murray_context_ledger_mc.Admin.Interface.{
  Service, IsLawfulService, SeatValues, by_id, by_key, matches, with_values,
}
use murray_context_ledger_mc.Admin.{
  first_row, seat_values, default_name, register_as, register_connector, bad_source,
}
use murray_context_ledger_mc.Admin.Members.{apart, first_row-Runs}
use murray_context_ledger_mc.Admin.Seats.{if_true, if_false, updated-State}

-- No two seats share an id.
abbrev pub UniqueIds : List ClientRow → Type 0
UniqueIds seats = (r q : ClientRow) → Has r seats → Has q seats → r.id ≡ q.id → r ≡ q

module _ (S : Service) (L : IsLawfulService S) (settings : Settings) (now : String)
    (repr : String → String) (bypass : S.is_service (service_client settings) ≡ true)
    (org oauth source by : String) (display : Option String) (scopes : Option (List String)) where
  -- The answer is the seat of this org and client, active and attributed, and the seats of other
  -- orgs and clients are still there as they were; no other table is changed.
  pub record Registers (answer : ClientRow) (before after : Tables) : Type 0 where
    pub stored : Has answer after.clients
    pub org_id : answer.org_id ≡ S.canonical org
    pub oauth_client_id : answer.oauth_client_id ≡ oauth
    pub connector_source : answer.connector_source ≡ some source
    pub status : answer.status ≡ SeatStatus.active
    pub revoked_at : answer.revoked_at ≡ none
    pub others :
        (q : ClientRow)
        → Has q before.clients
        → matches S (by_key org oauth) q ≡ false
        → Has q after.clients
    pub frame : after ≡ record before { clients = after.clients }

  abbrev values : SeatValues
  values = seat_values org oauth source display scopes

  inserted :
      (s : S.State) (answer : ClientRow) (t : S.State)
      → Runs (register_as S settings now repr by oauth values display []) s answer t
      → Registers answer (S.tables s) (S.tables t)
  unfolding register_as first_row seat_values
  inserted s answer t h =
      let c = service_client settings in
      let v : SeatValues = record values {
        display_name = default_name display oauth;
        user_id = some by;
      } in
      let (rows, u, went, rest) = Runs-bind (S.insert_seat c v) first_row s answer t h in
      let (new, one, has, grown) =
        L.insert_seat_accepted c v s rows (Runs-result (S.insert_seat c v) s rows u went) in
      let (inside, same) = first_row-Runs rows u answer t rest in
      let is_new : answer ≡ new = elim (rw one at inside) [ inl e ↦ e | inr x ↦ absurd x ] in
      let now_is : S.tables t
          ≡ record (S.tables s) { clients = (S.tables s).clients ++ (new ∷ []) } =
        rw (← same, ← Runs-state (S.insert_seat c v) s rows u went) grown in
      rw (is_new, now_is)
        (record {
          stored = Has-append_right new (S.tables s).clients (new ∷ []) (inl refl);
          org_id = sym (ap (λ (r : ClientRow). r.org_id) has);
          oauth_client_id = sym (ap (λ (r : ClientRow). r.oauth_client_id) has);
          connector_source = sym (ap (λ (r : ClientRow). r.connector_source) has);
          status = sym (ap (λ (r : ClientRow). r.status) has);
          revoked_at = sym (ap (λ (r : ClientRow). r.revoked_at) has);
          others = λ q m other. Has-append_left q (S.tables s).clients (new ∷ []) m;
          frame = refl;
        })

  -- An update by the id of a seat of the key leaves the seats of other keys alone.
  other_seat :
      (s : S.State) (r q : ClientRow)
      → UniqueIds (S.tables s).clients
      → Has r (S.tables s).clients
      → matches S (by_key org oauth) r ≡ true
      → Has q (S.tables s).clients
      → matches S (by_key org oauth) q ≡ false
      → matches S (by_id r.id) q ≡ false
  other_seat s r q unique m own k other = elim (Bool-cases (matches S (by_id r.id) q)) [
    | inl hit ↦
        let same =
          unique q r k m ((eq_iff q.id (S.canonical r.id)).0 hit ∙ L.ids_canonical s r m) in
        absurd (apart (ap (matches S (by_key org oauth)) same ∙ own) other)
    | inr missed ↦ missed
  ]

  updated :
      (s : S.State) (r : ClientRow) (rows : List ClientRow) (answer : ClientRow) (t : S.State)
      → UniqueIds (S.tables s).clients
      → Has r (S.tables s).clients
      → matches S (by_key org oauth) r ≡ true
      → Runs (register_as S settings now repr by oauth values display (r ∷ rows)) s answer t
      → Registers answer (S.tables s) (S.tables t)
  unfolding register_as first_row seat_values
  updated s r rows answer t unique m own h =
      let c = service_client settings in
      let before = (S.tables s).clients in
      let (out, u, went, rest) =
        Runs-bind (S.update_seats c values (by_id r.id)) first_row s answer t h in
      let (grown, met) =
        updated-State S L settings now repr bypass values (by_id r.id) s out u went in
      let (inside, same) = first_row-Runs out u answer t rest in
      let (q, k, hit, is_new) = All-Has _ answer out met inside in
      let now_is = ap S.tables (sym same) ∙ grown in
      let step : ClientRow → ClientRow =
        λ x. if matches S (by_id r.id) x then with_values S values x else x in
      rw (is_new, now_is)
        (record {
          stored = subst (λ x. Has x (map step before)) (if_true _ _ hit) (Has-map step q before k);
          org_id = refl;
          oauth_client_id = refl;
          connector_source = refl;
          status = refl;
          revoked_at = refl;
          others = λ p inside' other.
              subst (λ x. Has x (map step before))
                (if_false _ _ (other_seat s r p unique m own inside' other))
                (Has-map step p before inside');
          frame = refl;
        })

  registered :
      (s : S.State) (rows : List ClientRow) (answer : ClientRow) (t : S.State)
      → UniqueIds (S.tables s).clients
      → All (λ r. Has r (S.tables s).clients × (matches S (by_key org oauth) r ≡ true)) rows
      → Runs (register_as S settings now repr by oauth values display rows) s answer t
      → Registers answer (S.tables s) (S.tables t)
  registered s [] answer t unique sound h = inserted s answer t h
  registered s (r ∷ rows) answer t unique ((m, own), more) h =
      updated s r rows answer t unique m own h

  -- A call of `register_connector` that returns was given a source that is not blank. It answers
  -- the seat of this org and OAuth client, which is stored, active, not revoked and carries the
  -- source; the seats of other orgs and clients stay as they were, and so do the other tables.
  -- (Seat ids are unique, as the primary key has it.)
  pub register_connector_returned :
      (s : S.State) (answer : ClientRow) (t : S.State)
      → UniqueIds (S.tables s).clients
      → Runs (register_connector S settings now repr org oauth source by display scopes) s answer t
      → (is_blank source ≡ false) × Registers answer (S.tables s) (S.tables t)
  unfolding register_connector
  register_connector_returned s answer t unique h =
      let c = service_client settings in
      let rest = register_as S settings now repr by oauth values display in
      elim (Runs-if (is_blank source) (raise (value_error bad_source))
        (S.select_seats c org oauth >>= rest) s answer t h) [
          | inl (_, raised) ↦ absurd (Runs-raise _ s answer t raised)
          | inr (named, went) ↦
              let (rows, u, found, last) =
                Runs-bind (S.select_seats c org oauth) rest s answer t went in
              let sound =
                L.seats_sound c org oauth s rows
                  (Runs-result (S.select_seats c org oauth) s rows u found) in
              let kept : s ≡ u =
                sym (L.seats_keep c org oauth s)
                ∙ Runs-state (S.select_seats c org oauth) s rows u found in
              (named, registered s rows answer t unique sound (rw kept last))
        ]
