-- ===== src/Server/Board/Looks.antt =====
-- Looking an id up, in a table that has grown or been updated.
use murray_context_ledger_mc.Base.{
  ◌≡◌, refl, sym, ap, ◌∙◌, subst, String, ◌==◌, eq_iff, ◌&&◌, and_left, and_right, Bool, true,
  false, none, some, List, [], ◌∷◌, ◌++◌, map, Has, All, keep, inl, inr, Bool-cases, arith,
}
use murray_context_ledger_mc.Store.{FactRow}
use murray_context_ledger_mc.Store.Change.{UniqueIds}
use murray_context_ledger_mc.Server.Board.{Mark, mark_of, look}

abbrev hit : String → String → FactRow → Bool
hit org id r = r.org_id == org && r.id == id

hit-true : (org id : String) (r : FactRow) → hit org id r ≡ true → (r.org_id ≡ org) × (r.id ≡ id)
hit-true org id r h =
    ((eq_iff r.org_id org).0 (and_left _ _ h), (eq_iff r.id id).0 (and_right _ _ h))

true-hit : (org id : String) (r : FactRow) → r.org_id ≡ org → r.id ≡ id → hit org id r ≡ true
true-hit org id r e d = ground (arith, eq_iff r.org_id org, eq_iff r.id id)

pub look_free :
    (org id : String) (rs : List FactRow)
    → ((r : FactRow) → Has r rs → r.org_id ≡ org → r.id ≡ id → ⊥)
    → look org id rs ≡ none
look_free org id [] h = refl
look_free org id (r ∷ rs) h =
    let rest = look_free org id rs (λ q m. h q (inr m)) in
    elim (Bool-cases (hit org id r)) [
      | inl e ↦ let (o, i) = hit-true org id r e in absurd (h r (inl refl) o i)
      | inr e ↦ rw (e, rest) refl
    ]

pub look_found :
    (org id : String) (rs : List FactRow) (r : FactRow)
    → Has r rs
    → r.org_id ≡ org
    → r.id ≡ id
    → (m : Mark) × (look org id rs ≡ some m)
look_found org id [] r m o i = absurd m
look_found org id (q ∷ rs) r (inl e) o i =
    (mark_of q, rw (true-hit org id q (rw e at o) (rw e at i)) refl)
look_found org id (q ∷ rs) r (inr m) o i = elim (Bool-cases (hit org id q)) [
  | inl e ↦ (mark_of q, rw e refl)
  | inr e ↦ let (mark, found) = look_found org id rs r m o i in (mark, rw (e, found) refl)
]

-- What holds of every mark holds of the one that is found.
pub look-All :
    (P : Mark → Type 0) (org id : String) (rs : List FactRow) (m : Mark)
    → All (λ r. P (mark_of r)) rs
    → look org id rs ≡ some m
    → P m
look-All P org id [] m h found = cc
look-All P org id (r ∷ rs) m h found = elim (Bool-cases (hit org id r)) [
  | inl e ↦ subst P (some_same (mark_of r) m (rw e at found)) h.0
  | inr e ↦ look-All P org id rs m h.1 (rw e at found)
]
  where
    some_same : (a b : Mark) → some a ≡ some b → a ≡ b
    some_same a b h = cc

-- Where ids are unique, it is that row's mark.
pub look-Has :
    (org id : String) (rs : List FactRow) (r : FactRow)
    → UniqueIds rs
    → Has r rs
    → r.org_id ≡ org
    → r.id ≡ id
    → look org id rs ≡ some (mark_of r)
look-Has org id [] r u m o i = absurd m
look-Has org id (q ∷ rs) r u m o i = elim (Bool-cases (hit org id q)) [
  | inl e ↦ let (_, iq) = hit-true org id q e in rw (e, u q r (inl refl) m (iq ∙ sym i)) refl
  | inr e ↦ elim m [
    | inl same ↦ absurd (missed e (true-hit org id q (rw same at o) (rw same at i)))
    | inr later ↦ rw (e, look-Has org id rs r (λ x y mx my. u x y (inr mx) (inr my)) later o i) refl
  ]
]
  where
    missed : {b : Bool} → b ≡ false → b ≡ true → ⊥
    missed e h = cc

pub look-append_taken :
    (org id : String) (rs qs : List FactRow) (m : Mark)
    → look org id rs ≡ some m
    → look org id (rs ++ qs) ≡ some m
look-append_taken org id [] qs m h = cc
look-append_taken org id (r ∷ rs) qs m h = elim (Bool-cases (hit org id r)) [
  | inl e ↦ rw e (rw e at h)
  | inr e ↦ rw e (look-append_taken org id rs qs m (rw e at h))
]

pub look-append_free :
    (org id : String) (rs qs : List FactRow)
    → look org id rs ≡ none
    → look org id (rs ++ qs) ≡ look org id qs
look-append_free org id [] qs h = refl
look-append_free org id (r ∷ rs) qs h = elim (Bool-cases (hit org id r)) [
  | inl e ↦ absurd (taken (mark_of r) (rw e at h))
  | inr e ↦ rw e (look-append_free org id rs qs (rw e at h))
]
  where
    taken : (m : Mark) → some m ≡ none → ⊥
    taken m h = cc

-- Rows that have other ids make no difference.
pub look-append_other :
    (org id : String) (rs qs : List FactRow)
    → look org id qs ≡ none
    → look org id (rs ++ qs) ≡ look org id rs
look-append_other org id [] qs h = h
look-append_other org id (r ∷ rs) qs h = elim (Bool-cases (hit org id r)) [
  | inl e ↦ rw e refl
  | inr e ↦ rw e (look-append_other org id rs qs h)
]

module _ (org : String) (f : FactRow → FactRow) (same_org : (r : FactRow) → (f r).org_id ≡ r.org_id)
    (same_id : (r : FactRow) → (f r).id ≡ r.id) where
  same_hit : (id : String) (r : FactRow) → hit org id (f r) ≡ hit org id r
  same_hit id r = rw (same_org r, same_id r) refl

  pub look-map_other :
      (id : String) (rs : List FactRow)
      → ((r : FactRow) → r.id ≡ id → f r ≡ r)
      → look org id (map f rs) ≡ look org id rs
  look-map_other id [] h = refl
  look-map_other id (r ∷ rs) h =
      let rest = look-map_other id rs h in
      elim (Bool-cases (hit org id r)) [
        | inl e ↦ rw (same_hit id r, e, h r (hit-true org id r e).1) refl
        | inr e ↦ rw (same_hit id r, e, rest) refl
      ]

  pub look-map_hit :
      (id : String) (rs : List FactRow) (m : Mark) (set : Mark → Mark)
      → ((r : FactRow) → r.org_id ≡ org → r.id ≡ id → mark_of (f r) ≡ set (mark_of r))
      → look org id rs ≡ some m
      → look org id (map f rs) ≡ some (set m)
  look-map_hit id [] m set h found = cc
  look-map_hit id (r ∷ rs) m set h found = elim (Bool-cases (hit org id r)) [
    | inl e ↦
        let (o, i) = hit-true org id r e in
        rw (same_hit id r, e, h r o i) (ap (λ k. some (set k)) (some_same (rw e at found)))
    | inr e ↦ rw (same_hit id r, e) (look-map_hit id rs m set h (rw e at found))
  ]
    where
      some_same : {a b : Mark} → some a ≡ some b → a ≡ b
      some_same h = cc

-- Only the rows of the org count.
pub look-keep :
    (org id : String) (rs : List FactRow)
    → look org id (keep (λ r. r.org_id == org) rs) ≡ look org id rs
look-keep org id [] = refl
look-keep org id (r ∷ rs) =
    let rest = look-keep org id rs in
    elim (Bool-cases (r.org_id == org)) [
      | inl e ↦ rw e (rw (e, rest) refl)
      | inr e ↦ rw (e, rest) refl
    ]
