-- ===== src/Server/Tools/Remember/Progress.antt =====
-- What rounds of the loop of `remember_facts` amount to.
use mathlib.Core.List.{append-nil, append_assoc, map-append}
use murray_context_ledger_mc.Base.{
  ℕ, ◌+◌, ◌≡◌, refl, sym, ap, ◌∙◌, ◌⊎◌, String, some, List, [], ◌∷◌, ◌++◌, Has, Has-append_left,
  All, All-append, All-prefix, ◌≢◌, length, length-append, inl, inr, arith,
}
use murray_context_ledger_mc.Json.{Json}
use murray_context_ledger_mc.Schemas.{FactInput}
use murray_context_ledger_mc.Store.{Tables, FactRow}
use murray_context_ledger_mc.Store.Backend.{IsStamped}
use murray_context_ledger_mc.Server.Env.{Env, Validated, valid, invalid, Problem}
use murray_context_ledger_mc.Server.Context.{ToolContext}
use murray_context_ledger_mc.Server.Write.{fact_row, validation_errors}
use murray_context_ledger_mc.Server.Write.Inserted.{HasKey}
use murray_context_ledger_mc.Server.Tools.Read.{ids}
use murray_context_ledger_mc.Server.Tools.Remember.{Rejected, Tally, reject}

module _ (E : Env) where
  -- The entries of `invalid` for facts from an index on: those that fail the validation.
  rejection : ℕ → Validated → List Rejected
  rejection index (valid f) = []
  rejection index (invalid problems) =
      record { index = index; errors = validation_errors problems } ∷ []

  unfoldable pub rejections : ℕ → List Json → List Rejected
  unfolding rejection
  rejections index [] = []
  rejections index (raw ∷ facts) =
      rejection index (E.model_validate raw) ++ rejections (index + 1) facts

  -- A row that was made from one of the facts sent, and stamped with the caller.
  abbrev pub MadeFrom : ToolContext → List Json → FactRow → Type 0
  MadeFrom ctx facts r =
      (raw : Json) × Has raw facts
      × (f : FactInput) × (E.model_validate raw ≡ valid f)
      × IsStamped E.backend (fact_row ctx f) r

  -- A fact of the org that has the key of a valid fact that was sent.
  abbrev pub RepeatedBy : ToolContext → List Json → Tables → String → Type 0
  RepeatedBy ctx facts t id =
      (r : FactRow) × Has r t.facts
      × (id ≡ r.id)
      × (raw : Json) × Has raw facts
      × (f : FactInput) × (E.model_validate raw ≡ valid f)
      × (key : String) × (f.dedupe_key ≡ some key)
      × HasKey ctx key r

  -- The deduped ids that a part of the loop has added are those of such facts.
  abbrev pub DedupedFrom : ToolContext → List Json → Tally → Tally → Tables → Type 0
  DedupedFrom ctx facts t t' after =
      (id : String) → Has id t'.deduped → Has id t.deduped ⊎ RepeatedBy ctx facts after id

  -- The id of a row is none of these rows'.
  abbrev pub Unlike : List FactRow → FactRow → Type 0
  Unlike rows new = All (λ r. r.id ≢ new.id) rows

  Unlike-before :
      (before news rows : List FactRow)
      → All (Unlike (before ++ news)) rows
      → All (Unlike before) rows
  Unlike-before before news [] h = tt
  Unlike-before before news (r ∷ rows) h =
      (All-prefix (λ x. x.id ≢ r.id) before news h.0, Unlike-before before news rows h.1)

  -- What the loop has added, from one tally and state of the tables to another.
  pub record Progress (ctx : ToolContext) (index : ℕ) (facts : List Json) (t t' : Tally)
      (before after : Tables) : Type 0 where
    pub news : List FactRow
    pub grown : after ≡ record before { facts = before.facts ++ news }
    pub made : All (MadeFrom ctx facts) news
    pub unlike : All (Unlike before.facts) news
    pub created_are : t'.created ≡ t.created ++ ids news
    pub invalid_are : t'.invalid ≡ t.invalid ++ rejections index facts
    pub deduped_from : DedupedFrom ctx facts t t' after
    pub counted :
        length t'.created + length t'.deduped + length t'.invalid
        ≡ length t.created + length t.deduped + length t.invalid + length facts
    pub touched_all :
        length t'.touched + length t.created + length t.deduped
        ≡ length t.touched + length t'.created + length t'.deduped

  widen :
      (ctx : ToolContext) (raw : Json) (facts : List Json) (rows : List FactRow)
      → All (MadeFrom ctx facts) rows
      → All (MadeFrom ctx (raw ∷ facts)) rows
  widen ctx raw facts [] h = tt
  widen ctx raw facts (r ∷ rows) ((x, m, f, v, made), h) =
      ((x, inr m, f, v, made), widen ctx raw facts rows h)

  first_of_list :
      (ctx : ToolContext) (raw : Json) (facts : List Json) (rows : List FactRow)
      → All (MadeFrom ctx (raw ∷ [])) rows
      → All (MadeFrom ctx (raw ∷ facts)) rows
  first_of_list ctx raw facts [] h = tt
  first_of_list ctx raw facts (r ∷ rows) ((x, inl e, f, v, made), h) =
      ((x, inl e, f, v, made), first_of_list ctx raw facts rows h)
  first_of_list ctx raw facts (r ∷ rows) ((x, inr none_left, f, v, made), h) = absurd none_left

  -- A later part of the loop keeps the facts that were there.
  later :
      (ctx : ToolContext) (raw : Json) (facts : List Json) (mid after : Tables) (id : String)
      (news : List FactRow)
      → after ≡ record mid { facts = mid.facts ++ news }
      → RepeatedBy ctx (raw ∷ []) mid id
      → RepeatedBy ctx (raw ∷ facts) after id
  later ctx raw facts mid after id news grown (r, m, e, x, inl sent, f, v, key, keyed, has) =
      (r, rw grown (Has-append_left r mid.facts news m), e, x, inl sent, f, v, key, keyed, has)
  later ctx raw facts mid after id news grown (r, m, e, x, inr none_left, f, v, key, keyed, has) =
      absurd none_left

  joined :
      (ctx : ToolContext) (raw : Json) (facts : List Json) (t t' t'' : Tally) (mid after : Tables)
      (news : List FactRow)
      → after ≡ record mid { facts = mid.facts ++ news }
      → DedupedFrom ctx (raw ∷ []) t t' mid
      → DedupedFrom ctx facts t' t'' after
      → DedupedFrom ctx (raw ∷ facts) t t'' after
  joined ctx raw facts t t' t'' mid after news grown p q id m = elim (q id m) [
    | inr (r, k, e, x, sent, f, v, key, keyed, has) ↦
        inr (r, k, e, x, inr sent, f, v, key, keyed, has)
    | inl earlier ↦ elim (p id earlier) [
      | inl old ↦ inl old
      | inr here ↦ inr (later ctx raw facts mid after id news grown here)
    ]
  ]

  -- One round, and then the others.
  pub Progress-cons :
      (ctx : ToolContext) (index : ℕ) (raw : Json) (facts : List Json) (t t' t'' : Tally)
      (before mid after : Tables)
      → Progress ctx index (raw ∷ []) t t' before mid
      → Progress ctx (index + 1) facts t' t'' mid after
      → Progress ctx index (raw ∷ facts) t t'' before after
  unfolding rejections
  Progress-cons ctx index raw facts t t' t'' before mid after p q = record {
    news = p.news ++ q.news;
    grown =
        q.grown
        ∙ ap (λ (m : Tables). let r : Tables = record m { facts = m.facts ++ q.news } in r) p.grown
        ∙ ap (λ (rs : List FactRow). let r : Tables = record before { facts = rs } in r)
            (append_assoc before.facts p.news q.news);
    made =
        All-append _ p.news q.news (first_of_list ctx raw facts p.news p.made)
          (widen ctx raw facts q.news q.made);
    unlike =
        All-append _ p.news q.news p.unlike
          (Unlike-before before.facts p.news q.news (rw p.grown at q.unlike));
    created_are =
        q.created_are
        ∙ ap (λ xs. xs ++ ids q.news) p.created_are
        ∙ append_assoc t.created (ids p.news) (ids q.news)
        ∙ ap (λ xs. t.created ++ xs) (sym (map-append (λ (r : FactRow). r.id) p.news q.news));
    invalid_are =
        q.invalid_are
        ∙ ap (λ xs. xs ++ rejections (index + 1) facts) p.invalid_are
        ∙ ap (λ xs. (t.invalid ++ xs) ++ rejections (index + 1) facts)
            (append-nil (rejection index (E.model_validate raw)))
        ∙ append_assoc t.invalid (rejection index (E.model_validate raw))
            (rejections (index + 1) facts);
    deduped_from =
        joined ctx raw facts t t' t'' mid after q.news q.grown p.deduped_from q.deduped_from;
    counted = omega (arith, p.counted, q.counted);
    touched_all = omega (arith, p.touched_all, q.touched_all);
  }

  -- A round that stores nothing.
  pub Progress-still :
      (ctx : ToolContext) (index : ℕ) (raw : Json) (t t' : Tally) (before after : Tables)
      → after ≡ before
      → t'.created ≡ t.created
      → t'.invalid ≡ t.invalid ++ rejections index (raw ∷ [])
      → DedupedFrom ctx (raw ∷ []) t t' after
      → length t'.created + length t'.deduped + length t'.invalid
        ≡ length t.created + length t.deduped + length t.invalid + 1
      → length t'.touched + length t.created + length t.deduped
        ≡ length t.touched + length t'.created + length t'.deduped
      → Progress ctx index (raw ∷ []) t t' before after
  Progress-still ctx index raw t t' before after kept same rejected from counted touched = record {
    news = [];
    grown =
        kept
        ∙ ap (λ (rs : List FactRow). let r : Tables = record before { facts = rs } in r)
            (sym (append-nil before.facts));
    made = tt;
    unlike = tt;
    created_are = same ∙ sym (append-nil t.created);
    invalid_are = rejected;
    deduped_from = from;
    counted = counted;
    touched_all = touched;
  }

  pub rejected :
      (ctx : ToolContext) (index : ℕ) (raw : Json) (problems : List Problem) (t : Tally)
      (before : Tables)
      → E.model_validate raw ≡ invalid problems
      → Progress ctx index (raw ∷ []) t (reject t index problems) before before
  unfolding reject rejections
  rejected ctx index raw problems t before e =
      let entry : Rejected = record { index = index; errors = validation_errors problems } in
      Progress-still ctx index raw t (reject t index problems) before before refl refl (rw e)
        (λ id m. inl m) (omega (arith, length-append t.invalid (entry ∷ []))) (omega arith)

  pub nothing :
      (ctx : ToolContext) (index : ℕ) (t : Tally) (before : Tables)
      → Progress ctx index [] t t before before
  unfolding rejections
  nothing ctx index t before = record {
    news = [];
    grown =
        ap (λ (rs : List FactRow). let r : Tables = record before { facts = rs } in r)
          (sym (append-nil before.facts));
    made = tt;
    unlike = tt;
    created_are = sym (append-nil t.created);
    invalid_are = sym (append-nil t.invalid);
    deduped_from = λ id m. inl m;
    counted = omega arith;
    touched_all = omega arith;
  }
