-- ===== src/Admin/Members.antt =====
-- What `add_member` and `remove_member` have done to the memberships when they return.
use murray_context_ledger_mc.Base.{
  ◌≡◌, refl, sym, ap, ◌⊎◌, inl, inr, String, eq_refl, eq_iff, ◌==◌, and_left, and_right, Bool, true,
  false, not, Bool-cases, Option, none, some, List, [], ◌∷◌, ◌++◌, keep, Has, Has-append,
  Has-append_left, Has-append_right, arith,
}
use murray_context_ledger_mc.Effect.{◌>>=◌}
use murray_context_ledger_mc.Effect.Runs.{
  Runs, Runs-bind, Runs-raise, Runs-pure, Runs-result, Runs-state,
}
use murray_context_ledger_mc.Config.{Settings}
use murray_context_ledger_mc.Db.{service_client}
use murray_context_ledger_mc.Store.{Tables, Membership, Role}
use murray_context_ledger_mc.Admin.Interface.{
  Service, IsLawfulService, same_pair, org_column, user_column, eq_member_org, eq_member_user,
}
use murray_context_ledger_mc.Admin.{role_of, first_row, add_as, add_member, remove_member}

module _ {A : Type 0} where
  pub Has-keep : (p : A → Bool) (x : A) (xs : List A) → Has x (keep p xs) → Has x xs × (p x ≡ true)
  Has-keep p x [] m = absurd m
  Has-keep p x (y ∷ ys) m = elim (Bool-cases (p y)) [
    | inl e ↦ elim (kept e m) [
      | inl same ↦ (inl same, rw same e)
      | inr rest ↦ let (inside, h) = Has-keep p x ys rest in (inr inside, h)
    ]
    | inr e ↦ let (inside, h) = Has-keep p x ys (rw e at m) in (inr inside, h)
  ]
    where
      kept : p y ≡ true → Has x (keep p (y ∷ ys)) → (x ≡ y) ⊎ Has x (keep p ys)
      kept e h = rw e at h

  pub keep-Has : (p : A → Bool) (x : A) (xs : List A) → Has x xs → p x ≡ true → Has x (keep p xs)
  keep-Has p x [] m h = absurd m
  keep-Has p x (y ∷ ys) (inl e) h = rw (← e, h) (inl refl)
  keep-Has p x (y ∷ ys) (inr m) h = elim (Bool-cases (p y)) [
    | inl e ↦ rw e (inr (keep-Has p x ys m h))
    | inr e ↦ rw e (keep-Has p x ys m h)
  ]

pub apart : {b : Bool} → b ≡ true → b ≡ false → ⊥
apart x y = cc

not-not : {b : Bool} → not b ≡ true → b ≡ false
not-not {b} h = ground arith

pub first_row-Runs :
    {S A : Type 0} (rows : List A) (s : S) (a : A) (t : S)
    → Runs (first_row rows) s a t
    → Has a rows × (s ≡ t)
unfolding first_row
first_row-Runs [] s a t h = absurd (Runs-raise _ s a t h)
first_row-Runs (r ∷ rows) s a t h = let (same, kept) = Runs-pure r s a t h in (inl (sym same), kept)

-- The memberships of other pairs are the same before and after.
abbrev pub OthersKept : (S : Service) → String → String → List Membership → List Membership → Type 0
OthersKept S org user before after =
    (m : Membership)
    → same_pair S org user m ≡ false
    → (Has m before → Has m after) × (Has m after → Has m before)

module _ (S : Service) (L : IsLawfulService S) (settings : Settings) (now : String)
    (repr : String → String) (bypass : S.is_service (service_client settings) ≡ true) where
  -- The three names of roles.
  abbrev pub Names : String → Role → Type 0
  Names role r =
      ((role ≡ "owner") × (r ≡ Role.owner))
      ⊎ ((role ≡ "rep") × (r ≡ Role.rep))
      ⊎ ((role ≡ "office") × (r ≡ Role.office))

  role_of-Names : (role : String) (r : Role) → role_of role ≡ some r → Names role r
  unfolding role_of
  role_of-Names role r h = elim (Bool-cases (role == "owner")) [
    | inl e ↦ inl ((eq_iff role "owner").0 e, some_same _ _ (rw e at h))
    | inr a ↦ elim (Bool-cases (role == "rep")) [
      | inl e ↦ inr (inl ((eq_iff role "rep").0 e, some_same _ _ (rw (a, e) at h)))
      | inr b ↦ elim (Bool-cases (role == "office")) [
        | inl e ↦ inr (inr ((eq_iff role "office").0 e, some_same _ _ (rw (a, b, e) at h)))
        | inr c ↦ absurd (none_some r (rw (a, b, c) at h))
      ]
    ]
  ]
    where
      some_same : (x y : Role) → some x ≡ some y → y ≡ x
      some_same x y e = cc

      none_some : (x : Role) → ◌≡◌ {A = Option Role} none (some x) → ⊥
      none_some x e = cc

  abbrev pub Added : String → String → String → List Membership → List Membership → Type 0
  Added org user role before after =
      (r : Role) × Names role r
      × Has (record { org_id = S.canonical org; user_id = user; role = r }) after
      × ((m : Membership) → Has m after → same_pair S org user m ≡ true → m.role ≡ r)
      × OthersKept S org user before after

  dropped :
      (org user : String) (ms : List Membership)
      → OthersKept S org user ms (keep (λ q. not (same_pair S org user q)) ms)
  dropped org user ms m other =
      (λ inside. keep-Has _ m ms inside (rw other refl), λ inside. (Has-keep _ m ms inside).0)

  paired : (org user : String) (r : Role) → Membership
  paired org user r = record { org_id = S.canonical org; user_id = user; role = r }

  replaced :
      (org user : String) (r : Role) (ms : List Membership)
      → OthersKept S org user ms
          (keep (λ q. not (same_pair S org user q)) ms ++ (paired org user r ∷ []))
  unfolding paired
  replaced org user r ms m other =
      let kept = keep (λ q. not (same_pair S org user q)) ms in
      (
        λ inside.
            Has-append_left m kept (paired org user r ∷ [])
              ((dropped org user ms m other).0 inside),
        λ inside. elim (Has-append m kept (paired org user r ∷ []) inside) [
          | inl l ↦ (dropped org user ms m other).1 l
          | inr (inl e) ↦
              absurd (apart (rw (e, eq_refl (S.canonical org), eq_refl user) refl) other)
          | inr (inr x) ↦ absurd x
        ],
      )

  only_role :
      (org user : String) (r : Role) (ms : List Membership) (m : Membership)
      → Has m (keep (λ q. not (same_pair S org user q)) ms ++ (paired org user r ∷ []))
      → same_pair S org user m ≡ true
      → m.role ≡ r
  unfolding paired
  only_role org user r ms m inside same =
      let kept = keep (λ q. not (same_pair S org user q)) ms in
      elim (Has-append m kept (paired org user r ∷ []) inside) [
        | inl l ↦ absurd (apart (Has-keep _ m ms l).1 (rw same refl))
        | inr (inl e) ↦ ap (λ (q : Membership). q.role) e
        | inr (inr x) ↦ absurd x
      ]

  upserted :
      (org user : String) (r : Role) (s : S.State) (answer : Membership) (t : S.State)
      → Runs
          (S.upsert_membership
              (service_client settings)
              (record { org_id = org; user_id = user; role = r })
              (org_column ∷ user_column ∷ [])
            >>= first_row)
          s
          answer
          t
      → (S.tables t).memberships
        ≡ keep (λ q. not (same_pair S org user q)) (S.tables s).memberships
          ++ (paired org user r ∷ [])
  unfolding paired
  upserted org user r s answer t h =
      let c = service_client settings in
      let m : Membership = record { org_id = org; user_id = user; role = r } in
      let pair = org_column ∷ user_column ∷ [] in
      let (rows, u, went, rest) = Runs-bind (S.upsert_membership c m pair) first_row s answer t h in
      let (inside, same) = first_row-Runs rows u answer t rest in
      rw (← same, ← Runs-state (S.upsert_membership c m pair) s rows u went)
        (ap (λ (x : Tables). x.memberships)
          (L.upsert_accepted c m pair s rows bypass
            (Runs-result (S.upsert_membership c m pair) s rows u went)))

  add_as_returned :
      (org user role : String) (o : Option Role) (s : S.State) (answer : Membership) (t : S.State)
      → role_of role ≡ o
      → Runs (add_as S settings now repr org user role o) s answer t
      → Added org user role (S.tables s).memberships (S.tables t).memberships
  unfolding add_as paired
  add_as_returned org user role none s answer t e h = absurd (Runs-raise _ s answer t h)
  add_as_returned org user role (some r) s answer t e h =
      let now_is = upserted org user r s answer t h in
      let before = (S.tables s).memberships in
      let kept = keep (λ q. not (same_pair S org user q)) before in
      rw now_is (
        r,
        role_of-Names role r e,
        Has-append_right (paired org user r) kept (paired org user r ∷ []) (inl refl),
        only_role org user r before,
        replaced org user r before,
      )

  -- A call of `add_member` over the service-role client that returns was given "owner", "rep" or
  -- "office". The user is then a member of the org with exactly the role of that name, whatever role
  -- there was before, and every membership of another user or org is as it was.
  pub add_member_returned :
      (org user role : String) (s : S.State) (answer : Membership) (t : S.State)
      → Runs (add_member S settings now repr org user role) s answer t
      → Added org user role (S.tables s).memberships (S.tables t).memberships
  unfolding add_member
  add_member_returned org user role s answer t h =
      add_as_returned org user role (role_of role) s answer t refl h

  remove_member_returned :
      (org user : String) (s : S.State) (rows : List Membership) (t : S.State)
      → Runs (remove_member S settings now repr org user) s rows t
      → ((m : Membership) → Has m (S.tables t).memberships → same_pair S org user m ≡ false)
        × OthersKept S org user (S.tables s).memberships (S.tables t).memberships
        × ((m : Membership)
            → (Has m rows → Has m (S.tables s).memberships × (same_pair S org user m ≡ true))
              × (Has m (S.tables s).memberships → same_pair S org user m ≡ true → Has m rows))
  unfolding remove_member
  remove_member_returned org user s rows t h =
      let c = service_client settings in
      let pair = eq_member_org org ∷ eq_member_user user ∷ [] in
      let before = (S.tables s).memberships in
      let (tables_are, answered) =
        L.delete_accepted c pair s rows bypass
          (Runs-result (S.delete_memberships c pair) s rows t h) in
      let now_is : (S.tables t).memberships ≡ keep (λ q. not (same_pair S org user q)) before =
        rw (← Runs-state (S.delete_memberships c pair) s rows t h)
          (ap (λ (x : Tables). x.memberships) tables_are) in
      (
        rw now_is (λ m inside. not-not (Has-keep _ m before inside).1),
        rw now_is (dropped org user before),
        answered,
      )

  same_row :
      (org user : String) (r : Role) (m : Membership)
      → same_pair S org user m ≡ true
      → m.role ≡ r
      → m ≡ paired org user r
  unfolding paired
  same_row org user r m same role = λ i. record {
    org_id = (eq_iff m.org_id (S.canonical org)).0 (and_left _ _ same) i;
    user_id = (eq_iff m.user_id user).0 (and_right _ _ same) i;
    role = role i;
  }

  -- What is left of a member that has been added with a role and removed again: the removal answers
  -- the one row with that role, the user is no member, and every membership of another user or org
  -- is as it was before the two calls.
  abbrev pub Undone :
      String → String → String → List Membership → List Membership → List Membership → Type 0
  Undone org user role rows before after =
      (r : Role) × Names role r
      × Has (record { org_id = S.canonical org; user_id = user; role = r }) rows
      × ((m : Membership)
          → Has m rows
          → m ≡ record { org_id = S.canonical org; user_id = user; role = r })
      × ((m : Membership) → Has m after → same_pair S org user m ≡ false)
      × OthersKept S org user before after

  -- If adding a user to an org with a role and then removing the user from the org both return,
  -- over the service-role client, the removal has answered exactly one membership, that of the user
  -- in the org with the role given, the user is no member of the org, and every membership of
  -- another user or another org is as it was before the two calls.
  pub remove_member-add_member :
      (org user role : String) (s : S.State) (answer : Membership) (t : S.State)
      (rows : List Membership) (u : S.State)
      → Runs (add_member S settings now repr org user role) s answer t
      → Runs (remove_member S settings now repr org user) t rows u
      → Undone org user role rows (S.tables s).memberships (S.tables u).memberships
  unfolding paired
  remove_member-add_member org user role s answer t rows u added gone =
      let (r, named, there, only, others) = add_member_returned org user role s answer t added in
      let (none_left, others', answered) = remove_member_returned org user t rows u gone in
      let own = paired org user r in
      (
        r,
        named,
        (answered own).1 there (rw (eq_refl (S.canonical org), eq_refl user) refl),
        λ m inside.
            let (m', same) = (answered m).0 inside in same_row org user r m same (only m m' same),
        none_left,
        λ m other. (
          λ inside. (others' m other).0 ((others m other).0 inside),
          λ inside. (others m other).1 ((others' m other).1 inside),
        ),
      )
