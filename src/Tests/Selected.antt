-- ===== src/Tests/Selected.antt =====
-- What the database in memory selects, and when its statements are carried out.
use murray_context_ledger_mc.Base.{
  ℕ, zero, suc, ◌≡◌, ◌≢◌, refl, sym, ◌∙◌, inl, inr, String, ◌==◌, eq_iff, Bool, true, false,
  Bool-cases, eq_refl, and_left, and_right, and_true, Option, none, some, List, [], ◌∷◌, keep, any,
  take, length-take, Has, All, arith,
}
use murray_context_ledger_mc.Effect.{Error, ok, err, api_error}
use murray_context_ledger_mc.Db.{Client}
use murray_context_ledger_mc.Store.{
  facts_select_org, Tables, FactRow, FactQuery, FactFilter, eq_id, eq_org_id, eq_dedupe_key,
  eq_type, eq_status, in_type, overlaps_scope_tags, ilike_content, text_search_content, FactInsert,
}
use murray_context_ledger_mc.Store.Backend.{holds, holds_all}
use murray_context_ledger_mc.Store.Laws.{SameKey, Answer, Within}
use murray_context_ledger_mc.Tests.Memory.{
  outcome, subject_of, caller, first, clash, closed, memory_with, visible, answer,
}

module _ {A : Type 0} where
  pub outcome-ok :
      (b : Bool) (code : String) (a x : A) (t u : Tables)
      → (outcome b code a t u).0 ≡ ok x
      → (b ≡ true) × (a ≡ x)
  outcome-ok true code a x t u h = (refl, cc)
  outcome-ok false code a x t u h = cc

  pub outcome_done :
      (b : Bool) (code : String) (a : A) (t u : Tables) → b ≡ true → (outcome b code a t u).1 ≡ t
  outcome_done true code a t u h = refl
  outcome_done false code a t u h = cc

  pub outcome-error :
      (b : Bool) (code other : String) (a : A) (t u : Tables)
      → (outcome b code a t u).0 ≡ err (api_error other)
      → (outcome b code a t u).1 ≡ u
  outcome-error true code other a t u h = cc
  outcome-error false code other a t u h = refl

  -- In memory a call that fails has not been carried out.
  pub outcome_undone :
      (b : Bool) (code : String) (a : A) (t u : Tables) (e : Error)
      → (outcome b code a t u).0 ≡ err e
      → (outcome b code a t u).1 ≡ u
  outcome_undone true code a t u e h = cc
  outcome_undone false code a t u e h = refl

  pub outcome-state :
      (P : Tables → Type 0) (b : Bool) (code : String) (a : A) (t u : Tables)
      → P t
      → P u
      → P (outcome b code a t u).1
  outcome-state P true code a t u h k = h
  outcome-state P false code a t u h k = k

  pub keep_sound : (p : A → Bool) (xs : List A) → All (λ x. Has x xs × (p x ≡ true)) (keep p xs)
  keep_sound p xs = go xs (λ x m. m)
    where
      go :
          (ys : List A)
          → ((x : A) → Has x ys → Has x xs)
          → All (λ x. Has x xs × (p x ≡ true)) (keep p ys)
      go [] inside = tt
      go (y ∷ ys) inside =
          let rest = go ys (λ x m. inside x (inr m)) in
          elim (Bool-cases (p y)) [
            | inl e ↦ rw e ((inside y (inl refl), e), rest)
            | inr e ↦ rw e rest
          ]

  pub keep-complete :
      (p : A → Bool) (x : A) (xs : List A) → Has x xs → p x ≡ true → Has x (keep p xs)
  keep-complete p x [] m h = absurd m
  keep-complete p x (y ∷ ys) (inl e) h = rw (← e, h) (inl refl)
  keep-complete p x (y ∷ ys) (inr m) h = elim (Bool-cases (p y)) [
    | inl e ↦ rw e (inr (keep-complete p x ys m h))
    | inr e ↦ rw e (keep-complete p x ys m h)
  ]

  pub any-Has : (p : A → Bool) (x : A) (xs : List A) → Has x xs → p x ≡ true → any p xs ≡ true
  any-Has p x [] m h = absurd m
  any-Has p x (y ∷ ys) (inl e) h = rw (← e, h) refl
  any-Has p x (y ∷ ys) (inr m) h = ground (arith, any-Has p x ys m h)

  pub any-none : (p : A → Bool) (xs : List A) → any p xs ≡ false → All (λ x. p x ≡ false) xs
  any-none p [] h = tt
  any-none p (y ∷ ys) h = elim (Bool-cases (p y)) [
    | inl e ↦ absurd (ground arith)
    | inr e ↦ (e, any-none p ys (ground arith))
  ]

  pub All-map : (P Q : A → Type 0) (xs : List A) → ((x : A) → P x → Q x) → All P xs → All Q xs
  All-map P Q [] f h = tt
  All-map P Q (x ∷ xs) f h = (f x h.0, All-map P Q xs f h.1)

  All-first : (P : A → Type 0) (n : ℕ) (xs : List A) → All P xs → All P (take n xs)
  All-first P zero xs h = tt
  All-first P (suc n) [] h = tt
  All-first P (suc n) (x ∷ xs) h = (h.0, All-first P n xs h.1)

pub caller_is : (c : Client) (sub : String) → subject_of c ≡ some sub → caller c ≡ sub
caller_is c sub h = rw h refl

pub clash-SameKey : (i : FactInsert) (new r : FactRow) → SameKey i r → clash i new r ≡ true
clash-SameKey i new r (k, a, b, c) = rw a (rw (b, c, eq_refl k, eq_refl i.org_id) refl)

pub fresh : (i : FactInsert) (new r : FactRow) → clash i new r ≡ false → r.id ≢ new.id
fresh i new r h e = elim (Bool-cases (r.id == new.id)) [
  | inl same ↦ absurd (ground arith)
  | inr other ↦ absurd (ground (arith, eq_iff r.id new.id))
]

first_sound :
    (P : FactRow → Type 0) (n : Option ℕ) (rows : List FactRow) → All P rows → All P (first n rows)
first_sound P none rows h = h
first_sound P (some n) rows h = All-first P n rows h

Has-first_none :
    (r : FactRow) (n : Option ℕ) (rows : List FactRow)
    → n ≡ none
    → Has r rows
    → Has r (first n rows)
Has-first_none r none rows h m = m
Has-first_none r (some n) rows h m = cc

module _ (writable : Bool) where
  holds-memory :
      (f : FactFilter) (r : FactRow) → holds (memory_with writable) f r ≡ holds closed f r
  holds-memory (eq_id v) r = refl
  holds-memory (eq_org_id v) r = refl
  holds-memory (eq_dedupe_key v) r = refl
  holds-memory (eq_type v) r = refl
  holds-memory (eq_status v) r = refl
  holds-memory (in_type v) r = refl
  holds-memory (overlaps_scope_tags v) r = refl
  holds-memory (ilike_content v) r = refl
  holds-memory (text_search_content v w x) r = refl

  pub holds_all-memory :
      (fs : List FactFilter) (r : FactRow)
      → holds_all (memory_with writable) fs r ≡ holds_all closed fs r
  holds_all-memory [] r = refl
  holds_all-memory (f ∷ fs) r = rw (holds-memory f r, holds_all-memory fs r) refl

  module _ (c : Client) (sub : String) (t : Tables) (who : subject_of c ≡ some sub) where
    pub answer_sound : (q : FactQuery) → Answer (memory_with writable) t sub q (answer c q t)
    answer_sound q = first_sound _ q.limit (keep (visible t (caller c) q.filters) t.facts) (
        All-map (λ r. Has r t.facts × (visible t (caller c) q.filters r ≡ true))
          (λ r.
            Has r t.facts
            × (facts_select_org t sub r ≡ true)
            × (holds_all (memory_with writable) q.filters r ≡ true))
          (keep (visible t (caller c) q.filters) t.facts)
          (λ r (m, v). (
            m,
            rw (← caller_is c sub who) (and_left _ _ v),
            holds_all-memory q.filters r ∙ and_right _ _ v,
          ))
          (keep_sound (visible t (caller c) q.filters) t.facts))

    pub answer_complete :
        (q : FactQuery) (r : FactRow)
        → q.limit ≡ none
        → Has r t.facts
        → facts_select_org t sub r ≡ true
        → holds_all (memory_with writable) q.filters r ≡ true
        → Has r (answer c q t)
    answer_complete q r unlimited m seen meets =
        Has-first_none r q.limit (keep (visible t (caller c) q.filters) t.facts) unlimited (
          keep-complete (visible t (caller c) q.filters) r t.facts m (
            and_true _ _ (rw (caller_is c sub who) seen)
              (sym (holds_all-memory q.filters r) ∙ meets)))

  pub answer-Within :
      (c : Client) (q : FactQuery) (t : Tables)
      → Within (memory_with writable) q.limit (answer c q t)
  answer-Within c q t = go q.limit (keep (visible t (caller c) q.filters) t.facts)
    where
      go : (n : Option ℕ) (rows : List FactRow) → Within (memory_with writable) n (first n rows)
      go none rows = tt
      go (some n) rows = length-take n rows
