-- ===== src/Tests/Lawful.antt =====
-- The database in memory has the behaviour that is relied on.
use murray_context_ledger_mc.Base.{
  ◌≡◌, refl, sym, ap, inl, ◌∙◌, String, Bool, true, false, not, ◌&&◌, and_left, and_right, none,
  some, List, [], ◌∷◌, ◌++◌, map, keep, keep_same, any, length, Has, All, ◌≢◌, if◌then◌else◌, arith,
}
use murray_context_ledger_mc.Effect.{Result, ok}
use murray_context_ledger_mc.Db.{Client}
use murray_context_ledger_mc.Store.{
  Tables, FactRow, FactFilter, FactQuery, FactPatch, FactInsert, facts_insert_org, facts_update_org,
  facts_select_org,
}
use murray_context_ledger_mc.Store.Backend.{IsStamped, holds_all, patch_row}
use murray_context_ledger_mc.Store.Laws.{FactLaws, SameKey}
use murray_context_ledger_mc.Tests.Memory.{
  outcome, subject_of, known, clash, stamp, may_insert, refusal, caller, first, visible,
  memory_with, patched, answer,
}
use murray_context_ledger_mc.Tests.Selected.{
  outcome-ok, outcome_done, outcome-error, outcome_undone, outcome-state, any-Has, any-none,
  All-map, caller_is, clash-SameKey, fresh, answer_sound, answer_complete, answer-Within,
  holds_all-memory,
}

map_same : {A B : Type 0} (f g : A → B) (xs : List A) → ((x : A) → f x ≡ g x) → map f xs ≡ map g xs
map_same f g [] e = refl
map_same f g (x ∷ xs) e = rw (e x, map_same f g xs e) refl

not-true : (b : Bool) → not b ≡ true → b ≡ false
not-true b h = ground arith

abbrev grown : FactInsert → Tables → Tables
grown i t = record t { facts = t.facts ++ (stamp i t.facts ∷ []) }

abbrev insert_outcome : Client → FactInsert → Tables → Result (List FactRow) × Tables
insert_outcome c i t = outcome (may_insert c i t) (refusal i) (stamp i t.facts ∷ []) (grown i t) t

may_insert_apart :
    (c : Client) (i : FactInsert) (t : Tables)
    → may_insert c i t ≡ true
    → any (clash i (stamp i t.facts)) t.facts ≡ false
may_insert_apart c i t h = not-true _ (and_right _ _ (and_right _ _ h))

module _ (writable : Bool) where
  inserted_row :
      (c : Client) (i : FactInsert) (t : Tables) (sub : String) (rows : List FactRow)
      → subject_of c ≡ some sub
      → ((memory_with writable).insert_fact c i t).0 ≡ ok rows
      → (new : FactRow) × (rows ≡ new ∷ [])
        × (((memory_with writable).insert_fact c i t).1.facts ≡ t.facts ++ (new ∷ []))
        × IsStamped (memory_with writable) i new
        × (facts_insert_org t sub new ≡ true)
        × All (λ r. r.id ≢ new.id) t.facts
  inserted_row c i t sub rows who h =
      let new = stamp i t.facts in
      let (may, same) = outcome-ok (may_insert c i t) (refusal i) (new ∷ []) rows (grown i t) t h in
      (
        new,
        sym same,
        rw may refl,
        record {
          org_id = refl;
          user_id = refl;
          type = refl;
          content = refl;
          confidence = refl;
          scope_tags = refl;
          source = refl;
          source_ref = refl;
          status = refl;
          dedupe_key = refl;
          superseded_by = refl;
          canonical = refl;
        },
        rw (← caller_is c sub who) (and_left _ _ (and_right _ _ may)),
        All-map (λ r. clash i new r ≡ false) (λ r. r.id ≢ new.id) t.facts (λ r e. fresh i new r e)
            (any-none (clash i new) t.facts (may_insert_apart c i t may)),
      )

  key_taken :
      (c : Client) (i : FactInsert) (t : Tables) (r : FactRow) (rows : List FactRow)
      → Has r t.facts
      → SameKey i r
      → ((memory_with writable).insert_fact c i t).0 ≢ ok rows
  key_taken c i t r rows m same h =
      let new = stamp i t.facts in
      let (may, _) = outcome-ok (may_insert c i t) (refusal i) (new ∷ []) rows (grown i t) t h in
      let taken = any-Has (clash i new) r t.facts m (clash-SameKey i new r same) in
      absurd (clashing _ taken (may_insert_apart c i t may))
    where
      clashing : (b : Bool) → b ≡ true → b ≡ false → ⊥
      clashing b x y = cc

  answer_unlimited :
      (c : Client) (q : FactQuery) (t : Tables) (sub : String)
      → subject_of c ≡ some sub
      → q.limit ≡ none
      → answer c q t
        ≡ keep
            (λ r. facts_select_org t sub r && holds_all (memory_with writable) q.filters r)
            t.facts
  answer_unlimited c q t sub who unlimited =
      ap (λ n. first n (keep (visible t (caller c) q.filters) t.facts)) unlimited
      ∙ keep_same _ _ t.facts
          (λ r. rw (holds_all-memory writable q.filters r, caller_is c sub who) refl)

  patched_row :
      (c : Client) (p : FactPatch) (fs : List FactFilter) (t : Tables) (sub : String)
      → subject_of c ≡ some sub
      → patched c p fs t
        ≡ map
            (λ r.
              if facts_update_org t sub r && holds_all (memory_with writable) fs r
              then patch_row p r
              else r)
            t.facts
  patched_row c p fs t sub who =
      map_same _ _ t.facts (λ r. rw (holds_all-memory writable fs r, caller_is c sub who) refl)

  pub memory-FactLaws : FactLaws (memory_with writable)
  memory-FactLaws = record {
    select_keeps = λ c q s.
        outcome-state (λ t. t ≡ s) (known (subject_of c)) "42501" (answer c q s) s s refl refl;
    select_sound = λ c q s sub rows who h.
        rw (← (outcome-ok (known (subject_of c)) "42501" (answer c q s) rows s s h).1)
          (answer_sound writable c sub s who q);
    select_complete = λ c q s sub rows r who h unlimited named m seen meets.
        rw (← (outcome-ok (known (subject_of c)) "42501" (answer c q s) rows s s h).1)
          (answer_complete writable c sub s who q r unlimited m seen meets);
    select_limit = λ c q s rows h.
        rw (← (outcome-ok (known (subject_of c)) "42501" (answer c q s) rows s s h).1)
          (answer-Within writable c q s);
    count_keeps = λ c q s.
        outcome-state (λ t. t ≡ s) (known (subject_of c)) "42501" (some (length (answer c q s))) s s
          refl refl;
    insert_frame = λ c i s.
        outcome-state (λ t. t ≡ record s { facts = t.facts }) (may_insert c i s) (refusal i)
          (stamp i s.facts ∷ []) (grown i s) s refl refl;
    count_exact = λ c q s sub n who h unlimited.
        sym (outcome-ok (known (subject_of c)) "42501" (some (length (answer c q s))) n s s h).1
        ∙ ap (λ rows. some (length rows)) (answer_unlimited c q s sub who unlimited);
    insert_accepted = inserted_row;
    insert_unique = key_taken;
    insert_failed = λ c i s sub e who h. inl (
        ap (λ (t : Tables). t.facts)
          (outcome_undone (may_insert c i s) (refusal i) (stamp i s.facts ∷ []) (grown i s) s e h));
    insert_refused = λ c i s code h.
        outcome-error (may_insert c i s) (refusal i) code (stamp i s.facts ∷ []) (grown i s) s h;
    update_frame = λ c p fs s.
        outcome-state (λ t. t ≡ record s { facts = t.facts }) (writable && known (subject_of c))
          "42501" (patched c p fs s) (record s { facts = patched c p fs s }) s refl refl;
    update_accepted = λ c p fs s sub rows who h.
        ap (λ (t : Tables). t.facts)
          (outcome_done (writable && known (subject_of c)) "42501" (patched c p fs s)
            (record s { facts = patched c p fs s }) s
            (outcome-ok (writable && known (subject_of c)) "42501" (patched c p fs s) rows
              (record s { facts = patched c p fs s }) s h).0)
        ∙ patched_row c p fs s sub who;
    update_failed = λ c p fs s sub e who h. inl (
        ap (λ (t : Tables). t.facts)
          (outcome_undone (writable && known (subject_of c)) "42501" (patched c p fs s)
            (record s { facts = patched c p fs s }) s e h));
    update_refused = λ c p fs s code h.
        outcome-error (writable && known (subject_of c)) "42501" code (patched c p fs s)
          (record s { facts = patched c p fs s }) s h;
  }
