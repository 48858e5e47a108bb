-- ===== src/Store/Change/Facts.antt =====
-- What becomes of the rows of `facts`: an order, and the steps that respect it.
use murray_context_ledger_mc.Base.{
  ◌≡◌, ◌≢◌, refl, sym, ap, ◌∙◌, inl, inr, String, Option, none, some, List, [], ◌∷◌, ◌++◌, map, Has,
  All, All-Has, Has-append, Has-map_inv,
}
use murray_context_ledger_mc.Store.Rows.{FactRow, FactStatus}
use murray_context_ledger_mc.Store.Change.{
  Became, unchanged, approved, declined, retired, IsLinked, Carried, UniqueIds, UniqueKeys, Evolved,
}

-- A row that was decided on, or superseded, is not pending.
decided_once :
    (r q : FactRow) (s : FactStatus) (by : Option String)
    → q ≡ record r { status = s; superseded_by = by }
    → s ≢ FactStatus.pending_review
    → q.status ≡ FactStatus.pending_review
    → ⊥
decided_once r q s by e apart h = apart (sym (ap (λ (x : FactRow). x.status) e) ∙ h)

Became-trans : (r q p : FactRow) → Became r q → Became q p → Became r p
Became-trans r q p b (unchanged e) = rw e b
Became-trans r q p (unchanged d) c = rw (← d) c
Became-trans r q p (approved g d) (approved h e) =
    absurd (decided_once r q FactStatus.active r.superseded_by d (cc) h)
Became-trans r q p (declined g d) (approved h e) =
    absurd (decided_once r q FactStatus.rejected r.superseded_by d (cc) h)
Became-trans r q p (retired by d) (approved h e) =
    absurd (decided_once r q FactStatus.superseded (some by) d (cc) h)
Became-trans r q p (approved g d) (declined h e) =
    absurd (decided_once r q FactStatus.active r.superseded_by d (cc) h)
Became-trans r q p (declined g d) (declined h e) =
    absurd (decided_once r q FactStatus.rejected r.superseded_by d (cc) h)
Became-trans r q p (retired by d) (declined h e) =
    absurd (decided_once r q FactStatus.superseded (some by) d (cc) h)
Became-trans r q p (approved g d) (retired by' e) = retired by' (rw (e, d) refl)
Became-trans r q p (declined g d) (retired by' e) = retired by' (rw (e, d) refl)
Became-trans r q p (retired by d) (retired by' e) = retired by' (rw (e, d) refl)

Became-IsLinked : (r q : FactRow) → Became r q → IsLinked r → IsLinked q
Became-IsLinked r q (unchanged e) h = rw e h
Became-IsLinked r q (approved g e) (inl h) = inl cc
Became-IsLinked r q (approved g e) (inr h) = cc
Became-IsLinked r q (declined g e) (inl h) = inl cc
Became-IsLinked r q (declined g e) (inr h) = cc
Became-IsLinked r q (retired by e) h = inr cc

pub Carried-refl : (rs : List FactRow) → Carried rs rs
Carried-refl [] = tt
Carried-refl (r ∷ rs) = (unchanged refl, Carried-refl rs)

Carried-append : (rs : List FactRow) (new : FactRow) → IsLinked new → Carried rs (rs ++ (new ∷ []))
Carried-append [] new h = (h, tt)
Carried-append (r ∷ rs) new h = (unchanged refl, Carried-append rs new h)

Carried-map :
    (f : FactRow → FactRow) (rs : List FactRow)
    → ((r : FactRow) → Has r rs → Became r (f r))
    → Carried rs (map f rs)
Carried-map f [] h = tt
Carried-map f (r ∷ rs) h = (h r (inl refl), Carried-map f rs (λ q m. h q (inr m)))

pub Carried-IsLinked : (rs qs : List FactRow) → Carried rs qs → All IsLinked rs → All IsLinked qs
Carried-IsLinked [] qs c h = c
Carried-IsLinked (r ∷ rs) [] c h = absurd c
Carried-IsLinked (r ∷ rs) (q ∷ qs) c h =
    (Became-IsLinked r q c.0 h.0, Carried-IsLinked rs qs c.1 h.1)

pub Carried-trans : (rs qs ps : List FactRow) → Carried rs qs → Carried qs ps → Carried rs ps
Carried-trans [] qs ps c d = Carried-IsLinked qs ps d c
Carried-trans (r ∷ rs) [] ps c d = absurd c
Carried-trans (r ∷ rs) (q ∷ qs) [] c d = absurd d
Carried-trans (r ∷ rs) (q ∷ qs) (p ∷ ps) c d =
    (Became-trans r q p c.0 d.0, Carried-trans rs qs ps c.1 d.1)

-- Where each row keeps its id, its key and its org.
UniqueIds-map :
    (f : FactRow → FactRow) (rs : List FactRow)
    → ((r : FactRow) → (f r).id ≡ r.id)
    → UniqueIds rs
    → UniqueIds (map f rs)
UniqueIds-map f rs keeps unique r q mr mq e =
    let (x, mx, ex) = Has-map_inv f r rs mr in
    let (y, my, ey) = Has-map_inv f q rs mq in
    let one : x ≡ y = unique x y mx my (
      sym (keeps x)
      ∙ ap (λ (z : FactRow). z.id) (sym ex)
      ∙ e
      ∙ ap (λ (z : FactRow). z.id) ey
      ∙ keeps y) in
    ex ∙ ap f one ∙ sym ey

UniqueIds-append :
    (rs : List FactRow) (new : FactRow)
    → All (λ r. r.id ≢ new.id) rs
    → UniqueIds rs
    → UniqueIds (rs ++ (new ∷ []))
UniqueIds-append rs new apart unique r q mr mq e = elim (Has-append r rs (new ∷ []) mr) [
  | inl r_old ↦ elim (Has-append q rs (new ∷ []) mq) [
    | inl q_old ↦ unique r q r_old q_old e
    | inr (inl is) ↦ absurd (
        All-Has (λ (x : FactRow). x.id ≢ new.id) r rs apart r_old
          (e ∙ ap (λ (x : FactRow). x.id) is))
    | inr (inr none_left) ↦ absurd none_left
  ]
  | inr (inl is) ↦ elim (Has-append q rs (new ∷ []) mq) [
    | inl q_old ↦ absurd (
        All-Has (λ (x : FactRow). x.id ≢ new.id) q rs apart q_old
          (sym e ∙ ap (λ (x : FactRow). x.id) is))
    | inr (inl too) ↦ is ∙ sym too
    | inr (inr none_left) ↦ absurd none_left
  ]
  | inr (inr none_left) ↦ absurd none_left
]

UniqueKeys-map :
    (f : FactRow → FactRow) (rs : List FactRow)
    → ((r : FactRow) → ((f r).dedupe_key ≡ r.dedupe_key) × ((f r).org_id ≡ r.org_id))
    → UniqueKeys rs
    → UniqueKeys (map f rs)
UniqueKeys-map f rs keeps unique r q key mr mq kr kq e =
    let (x, mx, ex) = Has-map_inv f r rs mr in
    let (y, my, ey) = Has-map_inv f q rs mq in
    let one : x ≡ y =
      unique x y key mx my (sym (keeps x).0 ∙ ap (λ (z : FactRow). z.dedupe_key) (sym ex) ∙ kr)
        (sym (keeps y).0 ∙ ap (λ (z : FactRow). z.dedupe_key) (sym ey) ∙ kq)
        (sym (keeps x).1
          ∙ ap (λ (z : FactRow). z.org_id) (sym ex)
          ∙ e
          ∙ ap (λ (z : FactRow). z.org_id) ey
          ∙ (keeps y).1) in
    ex ∙ ap f one ∙ sym ey

-- A row that no row of the list shares its key with may join it.
pub UniqueKeys-append :
    (facts : List FactRow) (new : FactRow)
    → UniqueKeys facts
    → ((r : FactRow) (key : String)
        → Has r facts
        → r.dedupe_key ≡ some key
        → new.dedupe_key ≡ some key
        → r.org_id ≡ new.org_id
        → ⊥)
    → UniqueKeys (facts ++ (new ∷ []))
UniqueKeys-append facts new unique alone r q key mr mq kr kq same =
    elim (Has-append r facts (new ∷ []) mr) [
      | inl r_old ↦ elim (Has-append q facts (new ∷ []) mq) [
        | inl q_old ↦ unique r q key r_old q_old kr kq same
        | inr (inl e) ↦
            absurd (alone r key r_old kr (rw (← e) kq) (same ∙ ap (λ (x : FactRow). x.org_id) e))
        | inr (inr none_left) ↦ absurd none_left
      ]
      | inr (inl d) ↦ elim (Has-append q facts (new ∷ []) mq) [
        | inl q_old ↦
            absurd
              (alone q key q_old kq (rw (← d) kr) (sym same ∙ ap (λ (x : FactRow). x.org_id) d))
        | inr (inl e) ↦ d ∙ sym e
        | inr (inr none_left) ↦ absurd none_left
      ]
      | inr (inr none_left) ↦ absurd none_left
    ]

pub Evolved-refl : (rs : List FactRow) → Evolved rs rs
Evolved-refl rs = record {
  carried = λ u. Carried-refl rs;
  unique_ids = λ u. u;
  unique_keys = λ u. u;
}

pub Evolved-trans : (rs qs ps : List FactRow) → Evolved rs qs → Evolved qs ps → Evolved rs ps
Evolved-trans rs qs ps c d = record {
  carried = λ u. Carried-trans rs qs ps (c.carried u) (d.carried (c.unique_ids u));
  unique_ids = λ u. d.unique_ids (c.unique_ids u);
  unique_keys = λ u. d.unique_keys (c.unique_keys u);
}

-- A row joins, as an insert has stamped it.
pub Evolved-append :
    (rs : List FactRow) (new : FactRow)
    → new.superseded_by ≡ none
    → All (λ r. r.id ≢ new.id) rs
    → ((r : FactRow) (key : String)
        → Has r rs
        → r.dedupe_key ≡ some key
        → new.dedupe_key ≡ some key
        → r.org_id ≡ new.org_id
        → ⊥)
    → Evolved rs (rs ++ (new ∷ []))
Evolved-append rs new unlinked apart alone = record {
  carried = λ u. Carried-append rs new (inl unlinked);
  unique_ids = UniqueIds-append rs new apart;
  unique_keys = λ u. UniqueKeys-append rs new u alone;
}

-- Rows change, and none its id, its key or its org.
pub Evolved-map :
    (f : FactRow → FactRow) (rs : List FactRow)
    → ((r : FactRow) → (f r).id ≡ r.id)
    → ((r : FactRow) → ((f r).dedupe_key ≡ r.dedupe_key) × ((f r).org_id ≡ r.org_id))
    → (UniqueIds rs → (r : FactRow) → Has r rs → Became r (f r))
    → Evolved rs (map f rs)
Evolved-map f rs ids keys steps = record {
  carried = λ u. Carried-map f rs (steps u);
  unique_ids = UniqueIds-map f rs ids;
  unique_keys = UniqueKeys-map f rs keys;
}
