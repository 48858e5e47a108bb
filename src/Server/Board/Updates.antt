-- ===== src/Server/Board/Updates.antt =====
-- What the writes of a call do to the board of its org.
use murray_context_ledger_mc.Base.{
  ◌≡◌, ◌≢◌, refl, sym, ap, ◌∙◌, String, eq_iff, ◌&&◌, and_left, and_right, true, none, some, List,
  [], ◌∷◌, Has, All, All-Has, Has-map, Has-map_inv, leb, subst, ℕ, inl, inr, Bool-cases, arith,
  if◌then◌else◌,
}
use murray_context_ledger_mc.Json.{Json}
use murray_context_ledger_mc.Schemas.{FactInput}
use murray_context_ledger_mc.Store.{Tables, FactRow, FactPatch, eq_id, is_member_of}
use murray_context_ledger_mc.Store.Backend.{holds_all, IsStamped, patch_row}
use murray_context_ledger_mc.Store.Returned.{updated}
use murray_context_ledger_mc.Server.Env.{Env}
use murray_context_ledger_mc.Server.Context.{ToolContext}
use murray_context_ledger_mc.Server.Write.{fact_row, fact_status, auto_promote_confidence}
use murray_context_ledger_mc.Server.Tools.Read.{ids}
use murray_context_ledger_mc.Server.Tools.Remember.Progress.{MadeFrom, Unlike}
use murray_context_ledger_mc.Server.Board.{Mark, mark_of, look, IsNew}
use murray_context_ledger_mc.Server.Board.Looks.{
  look_free, look_found, look-All, look-map_other, look-map_hit,
}

abbrev facts_of : Tables → List FactRow
facts_of t = t.facts

-- A row as an insert stamps it has a new mark.
fact_status-IsNew :
    (confidence : ℕ) → IsNew (record { status = fact_status confidence; superseded_by = none })
unfolding fact_status
fact_status-IsNew confidence = elim (Bool-cases (leb auto_promote_confidence confidence)) [
  | inl h ↦ rw h (refl, inl refl)
  | inr h ↦ rw h (refl, inr refl)
]

module _ (E : Env) (ctx : ToolContext) where
  pub stamped_mark :
      (f : FactInput) (r : FactRow)
      → IsStamped E.backend (fact_row ctx f) r
      → mark_of r ≡ record { status = fact_status f.confidence; superseded_by = none }
  unfolding fact_row
  stamped_mark f r is = rw (is.status, is.superseded_by) refl

  made_org :
      (facts : List Json) (r : FactRow) (f : FactInput)
      → IsStamped E.backend (fact_row ctx f) r
      → r.org_id ≡ ctx.org_id
  unfolding fact_row
  made_org facts r f is = is.org_id

  made_marks :
      (facts : List Json) (news : List FactRow)
      → All (MadeFrom E ctx facts) news
      → All (λ r. IsNew (mark_of r)) news
  made_marks facts [] h = tt
  made_marks facts (r ∷ news) ((_, _, f, _, is), h) = (
    subst IsNew (sym (stamped_mark f r is)) (fact_status-IsNew f.confidence),
    made_marks facts news h,
  )

  -- New rows, by their ids.
  pub IsNew-marks :
      (facts : List Json) (before news : List FactRow) (id : String)
      → All (MadeFrom E ctx facts) news
      → All (Unlike E before) news
      → Has id (ids news)
      → (look ctx.org_id id before ≡ none)
        × (m : Mark) × (look ctx.org_id id news ≡ some m)
        × IsNew m
  IsNew-marks facts before news id made unlike taken =
      let (r, m, e) = Has-map_inv (λ (x : FactRow). x.id) id news taken in
      let (_, _, f, _, is) = All-Has (MadeFrom E ctx facts) r news made m in
      let free = All-Has (Unlike E before) r news unlike m in
      let (mark, found) = look_found ctx.org_id id news r m (made_org facts r f is) (sym e) in
      (
        look_free ctx.org_id id before
            (λ q mq _ i. All-Has (λ (x : FactRow). x.id ≢ r.id) q before free mq (i ∙ e)),
        mark,
        found,
        look-All IsNew ctx.org_id id news mark (made_marks facts news made) found,
      )

  pub made_elsewhere :
      (facts : List Json) (news : List FactRow) (id : String)
      → (Has id (ids news) → ⊥)
      → look ctx.org_id id news ≡ none
  made_elsewhere facts news id out =
      look_free ctx.org_id id news
        λ r m _ e. out (subst (λ i. Has i (ids news)) e (Has-map (λ (x : FactRow). x.id) r news m))

  -- An update by id, of the rows of the caller's org.
  module _ (t : Tables) (p : FactPatch) (old : String)
      (member : is_member_of t ctx.user_sub ctx.org_id ≡ true) where
    abbrev patched : FactRow → FactRow
    patched r =
        if is_member_of t ctx.user_sub r.org_id && holds_all E.backend (eq_id old ∷ []) r
        then patch_row p r
        else r

    patched-keeps : (r : FactRow) → ((patched r).org_id ≡ r.org_id) × ((patched r).id ≡ r.id)
    patched-keeps r =
        elim (Bool-cases
          (is_member_of t ctx.user_sub r.org_id && holds_all E.backend (eq_id old ∷ []) r)) [
            | inl h ↦ rw h (refl, refl)
            | inr h ↦ rw h (refl, refl)
          ]

    patched_other :
        (id : String) → id ≢ E.backend.canonical old → (r : FactRow) → r.id ≡ id → patched r ≡ r
    patched_other id apart r e =
        elim (Bool-cases
          (is_member_of t ctx.user_sub r.org_id && holds_all E.backend (eq_id old ∷ []) r)) [
            | inl h ↦ absurd (
                apart (
                  sym e
                  ∙ (eq_iff r.id (E.backend.canonical old)).0 (and_left _ _ (and_right _ _ h))))
            | inr h ↦ rw h refl
          ]

    patched_hit :
        (r : FactRow)
        → r.org_id ≡ ctx.org_id
        → r.id ≡ E.backend.canonical old
        → patched r ≡ patch_row p r
    patched_hit r o i =
        let test : is_member_of t ctx.user_sub r.org_id && holds_all E.backend (eq_id old ∷ []) r
            ≡ true =
          ground (arith, rw (← o) at member, eq_iff r.id (E.backend.canonical old), i) in
        rw test refl

    pub updated_other :
        (id : String)
        → id ≢ E.backend.canonical old
        → look ctx.org_id id (updated E.backend t ctx.user_sub p (eq_id old ∷ []))
          ≡ look ctx.org_id id t.facts
    updated_other id apart =
        look-map_other ctx.org_id patched (λ r. (patched-keeps r).0) (λ r. (patched-keeps r).1) id
          t.facts (patched_other id apart)

    abbrev pub set : Mark → Mark
    set m = record {
      status = p.status;
      superseded_by = elim p.superseded_by [ none ↦ m.superseded_by | some id ↦ some id ];
    }

    pub updated_hit :
        (m : Mark)
        → look ctx.org_id (E.backend.canonical old) t.facts ≡ some m
        → look ctx.org_id
            (E.backend.canonical old)
            (updated E.backend t ctx.user_sub p (eq_id old ∷ []))
          ≡ some (set m)
    updated_hit m =
        look-map_hit ctx.org_id patched (λ r. (patched-keeps r).0) (λ r. (patched-keeps r).1)
          (E.backend.canonical old) t.facts m set (λ r o i. ap mark_of (patched_hit r o i))
