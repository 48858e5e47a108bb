-- ===== src/Server/Context/Org.antt =====
-- `_resolve_membership`: one org, or an error that says why not.
use murray_context_ledger_mc.Base.{
  ℕ, ◌≤◌, ◌≡◌, refl, subst, String, ◌==◌, ◌&&◌, true, some, List, [], ◌∷◌, length, keep, Has, All,
  arith, contains, Has→contains, Has-map, map, eq_iff, Bool-cases, inl, inr,
}
use murray_context_ledger_mc.Effect.{ok, err, value_error}
use murray_context_ledger_mc.Effect.Runs.{Runs, Runs-bind, Runs-pure, Runs-result}
use murray_context_ledger_mc.Db.{Client}
use murray_context_ledger_mc.Store.{
  Tables, Membership, Role, memberships_select_self, is_member_of, user_org_ids,
}
use murray_context_ledger_mc.Store.Laws.{IsLawful}
use murray_context_ledger_mc.Store.Returned.{OwnMembership, select_memberships_returned}
use murray_context_ledger_mc.Server.Env.{Env}
use murray_context_ledger_mc.Server.Context.{
  one_membership, resolve_membership, no_org_message, multi_org_message,
}

-- The rows of memberships that belong to a user.
abbrev pub own : Tables → String → List Membership
own t sub = keep (λ m. memberships_select_self sub m && m.user_id == sub) t.memberships

remake :
    (k : Membership) (sub : String) (ms : List Membership)
    → k.user_id ≡ sub
    → Has k ms
    → Has (record { org_id = k.org_id; user_id = sub; role = k.role }) ms
remake k sub ms e h =
    subst (λ u. Has (record { org_id = k.org_id; user_id = u; role = k.role }) ms) e h

length-keep_twice :
    (sub : String) (ms : List Membership)
    → length (keep (λ m. memberships_select_self sub m && m.user_id == sub) ms)
      ≡ length (keep (λ m. m.user_id == sub) ms)
length-keep_twice sub [] = refl
length-keep_twice sub (m ∷ ms) = ground (arith, length-keep_twice sub ms)

Has-keep :
    (sub : String) (k : Membership) (ms : List Membership)
    → k.user_id ≡ sub
    → Has k ms
    → Has k (keep (λ m. m.user_id == sub) ms)
Has-keep sub k [] e h = absurd h
Has-keep sub k (m ∷ ms) e (inl same) = rw ((eq_iff m.user_id sub).1 (rw (← same) e)) (inl same)
Has-keep sub k (m ∷ ms) e (inr more) = elim (Bool-cases (m.user_id == sub)) [
  | inl mine ↦ rw mine (inr (Has-keep sub k ms e more))
  | inr other ↦ rw other (Has-keep sub k ms e more)
]

pub is_member_of-Has :
    (sub : String) (ms : List Membership) (k : Membership)
    → k.user_id ≡ sub
    → Has k ms
    → contains (user_org_ids ms sub) k.org_id ≡ true
unfolding user_org_ids
is_member_of-Has sub ms k e h =
    Has→contains (map (λ m. m.org_id) (keep (λ m. m.user_id == sub) ms)) k.org_id (
      Has-map (λ (m : Membership). m.org_id) k (keep (λ m. m.user_id == sub) ms)
        (Has-keep sub k ms e h))

-- In a list of one membership.
only_org :
    (ms : List Membership) (k : Membership) (org : String)
    → length ms ≡ 1
    → Has k ms
    → contains (map (λ m. m.org_id) ms) org ≡ true
    → org ≡ k.org_id
only_org [] k org n h e = absurd h
only_org (m ∷ []) k org n (inl same) e = rw same (ground (arith, eq_iff org m.org_id))
only_org (m ∷ []) k org n (inr more) e = absurd more
only_org (m ∷ l ∷ ms) k org n h e = absurd (omega arith)

module _ (E : Env) (L : IsLawful E.backend) where
  one_membership_classes :
      (s : E.backend.State) (sub : String) (rows : List Membership) (n : ℕ)
      → All (OwnMembership (E.backend.tables s) sub) rows
      → length rows ≡ n
      → (n ≡ 0 → one_membership E rows s ≡ (err (value_error no_org_message), s))
        × (2 ≤ n → one_membership E rows s ≡ (err (value_error multi_org_message), s))
        × (n ≡ 1
            → (m : Membership) × Has m (E.backend.tables s).memberships
              × (m.user_id ≡ sub)
              × (one_membership E rows s ≡ (ok (m.org_id, m.role), s)))
  unfolding one_membership
  one_membership_classes s sub [] n h e =
      ((λ _. refl), (λ p. absurd (omega arith)), (λ p. absurd (omega arith)))
  one_membership_classes s sub (m ∷ []) n h e =
      ((λ p. absurd (omega arith)), (λ p. absurd (omega arith)), (λ _. (m, h.0.0, h.0.2, refl)))
  one_membership_classes s sub (m ∷ k ∷ rest) n h e =
      ((λ p. absurd (omega arith)), (λ _. refl), (λ p. absurd (omega arith)))

  -- Where the memberships could be read for a client that acts for the subject: with no membership
  -- row of the subject `_resolve_membership` raises the message for no org, with two or more the
  -- message for several; with one it answers that row's org and role. In every case nothing is
  -- changed.
  pub resolve_membership_classes :
      (db : Client) (sub : String) (s : E.backend.State) (rows : List Membership)
      → E.backend.subject db ≡ some sub
      → (E.backend.select_memberships db sub s).0 ≡ ok rows
      → (length (own (E.backend.tables s) sub) ≡ 0
          → resolve_membership E db sub s ≡ (err (value_error no_org_message), s))
        × (2 ≤ length (own (E.backend.tables s) sub)
            → resolve_membership E db sub s ≡ (err (value_error multi_org_message), s))
        × (length (own (E.backend.tables s) sub) ≡ 1
            → (m : Membership) × Has m (E.backend.tables s).memberships
              × (m.user_id ≡ sub)
              × (resolve_membership E db sub s ≡ (ok (m.org_id, m.role), s)))
  unfolding resolve_membership
  resolve_membership_classes db sub s rows h e =
      rw (e, L.on_seats.members_keep db sub s)
        (one_membership_classes s sub rows _ (L.on_seats.members_sound db sub s sub rows h e)
          (L.on_seats.members_complete db sub s sub rows h e))

  one_membership-Runs :
      (s : E.backend.State) (sub : String) (ts : Tables) (rows : List Membership)
      (m : String × Role) (t : E.backend.State)
      → All (OwnMembership ts sub) rows
      → length rows ≡ length (own ts sub)
      → Runs (one_membership E rows) s m t
      → (s ≡ t)
        × Has (record { org_id = m.0; user_id = sub; role = m.1 }) ts.memberships
        × ((org : String) → is_member_of ts sub org ≡ true → org ≡ m.0)
  unfolding one_membership user_org_ids
  one_membership-Runs s sub ts [] m t h n e = cc
  one_membership-Runs s sub ts (k ∷ []) m t h n e =
      let (same, kept) = Runs-pure (k.org_id, k.role) s m t e in
      let mine : List Membership = keep (λ x. x.user_id == sub) ts.memberships in
      let one : length mine ≡ 1 = omega (arith, n, length-keep_twice sub ts.memberships) in
      (
        kept,
        rw (← same) (remake k sub ts.memberships h.0.2 h.0.0),
        λ org listed.
            rw (← same)
              (only_org mine k org one (Has-keep sub k ts.memberships h.0.2 h.0.0) listed),
      )
  one_membership-Runs s sub ts (k ∷ l ∷ rest) m t h n e = cc

  -- A call that returns has found a row of the caller and has changed nothing, and the caller is
  -- a member of no other org.
  pub resolve_membership_returned :
      (db : Client) (sub : String) (s : E.backend.State) (m : String × Role) (t : E.backend.State)
      → E.backend.subject db ≡ some sub
      → Runs (resolve_membership E db sub) s m t
      → (E.backend.tables t ≡ E.backend.tables s)
        × Has (record { org_id = m.0; user_id = sub; role = m.1 }) (E.backend.tables s).memberships
        × ((org : String) → is_member_of (E.backend.tables s) sub org ≡ true → org ≡ m.0)
  unfolding resolve_membership
  resolve_membership_returned db sub s m t h e =
      let (rows, u, got, rest) =
        Runs-bind (E.backend.select_memberships db sub) (one_membership E) s m t e in
      let (kept, sound) = select_memberships_returned E.backend L db sub s rows u h got in
      let count =
        L.on_seats.members_complete db sub s sub rows h
          (Runs-result (E.backend.select_memberships db sub) s rows u got) in
      let (same, found, alone) =
        one_membership-Runs u sub (E.backend.tables s) rows m t sound count rest in
      (rw (← same) kept, found, alone)
