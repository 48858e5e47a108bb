-- ===== src/Server/Board/Writes.antt =====
-- Each writing tool keeps what the board promises.
use murray_context_ledger_mc.Base.{
  ◌≡◌, ◌≢◌, refl, sym, ap, ◌∙◌, subst, String, true, false, none, some, List, [], ◌∷◌, ◌++◌, All,
  All-Has, inl, inr,
}
use murray_context_ledger_mc.Json.{Json}
use murray_context_ledger_mc.Schemas.{FactInput}
use murray_context_ledger_mc.Store.{Tables, FactRow, is_member_of}
use murray_context_ledger_mc.Store.Backend.{IsStamped}
use murray_context_ledger_mc.Store.Change.{UniqueIds}
use murray_context_ledger_mc.Server.Env.{Env, IsLawfulEnv}
use murray_context_ledger_mc.Server.Context.{ToolContext}
use murray_context_ledger_mc.Server.Write.{Outcome, fact_row, fact_status}
use murray_context_ledger_mc.Server.Write.Inserted.{Inserted, fresh, existing}
use murray_context_ledger_mc.Server.Tools.Remember.{Remembered}
use murray_context_ledger_mc.Server.Tools.Remember.Batch.{Batch}
use murray_context_ledger_mc.Server.Tools.Supersede.{Superseded, retire, was_deduped}
use murray_context_ledger_mc.Server.Tools.Supersede.Outcomes.{
  IsTarget, retired, Outcomes, rejected, absent, swapped,
}
use murray_context_ledger_mc.Server.Tools.Review.{Decision, Reviewed, new_status}
use murray_context_ledger_mc.Server.Tools.Review.Decided.{decided, Review, nothing, changed}
use murray_context_ledger_mc.Server.Board.{
  Mark, mark_of, look, board, Board, Remembers, Replaces, Supersedes, Decides,
}
use murray_context_ledger_mc.Server.Board.Looks.{
  look_free, look_found, look-All, look-Has, look-append_taken, look-append_free, look-append_other,
}
use murray_context_ledger_mc.Server.Board.Updates.{
  stamped_mark, IsNew-marks, made_elsewhere, updated_other, updated_hit,
}

abbrev pub facts_of : Tables → List FactRow
facts_of t = t.facts

-- The board of some rows, and what an answer promises from those of one table to those of another.
abbrev pub on : String → List FactRow → Board
on org rows id = look org id rows

module _ (E : Env) (L : IsLawfulEnv E) where
  pub remembered-Remembers :
      (facts : List Json) (answer : Remembered) (before after : Tables)
      → (b : Batch E L facts answer before after)
      → Remembers answer (board b.ctx.org_id before) (board b.ctx.org_id after)
  remembered-Remembers facts answer before after b =
      let start : b.mid.facts ≡ before.facts = ap facts_of b.begun.frame in
      let grown : after.facts ≡ before.facts ++ b.news =
        ap facts_of b.stored ∙ ap (λ rs. rs ++ b.news) start in
      let org = b.ctx.org_id in
      (
        (λ id taken.
            let (free, mark, found, new) =
              IsNew-marks E b.ctx facts before.facts b.news id b.made (rw start at b.unlike)
                (rw b.created_are at taken) in
            (free, mark, rw grown (look-append_free org id before.facts b.news free ∙ found), new)),
        (λ id out. rw grown (
            look-append_other org id before.facts b.news
              (made_elsewhere E b.ctx facts b.news id (rw b.created_are at out)))),
      )

module _ (E : Env) where
  module _ (ctx : ToolContext) (old : String) (mid : Tables)
      (member : is_member_of mid ctx.user_sub ctx.org_id ≡ true)
      (only : (org : String) → is_member_of mid ctx.user_sub org ≡ true → org ≡ ctx.org_id) where
    abbrev target_id : String
    target_id = E.backend.canonical old

    -- The board with one row more.
    module _ (fact : FactInput) (row : FactRow) (is : IsStamped E.backend (fact_row ctx fact) row)
        (apart : All (λ r. r.id ≢ row.id) mid.facts) where
      abbrev grown_by : Tables
      grown_by = record mid { facts = mid.facts ++ (row ∷ []) }

      abbrev new_mark : Mark
      new_mark = record { status = fact_status fact.confidence; superseded_by = none }

      free : look ctx.org_id row.id mid.facts ≡ none
      free =
          look_free ctx.org_id row.id mid.facts
            (λ q m _ i. All-Has (λ (x : FactRow). x.id ≢ row.id) q mid.facts apart m i)

      alone : look ctx.org_id row.id (row ∷ []) ≡ some new_mark
      unfolding fact_row
      alone =
          let (mark, found) =
            look_found ctx.org_id row.id (row ∷ []) row (inl refl) is.org_id refl in
          found
          ∙ ap some (
              look-All (λ m. m ≡ new_mark) ctx.org_id row.id (row ∷ []) mark
                (stamped_mark E ctx fact row is, tt) found)

      other_row : (id : String) → id ≢ row.id → look ctx.org_id id (row ∷ []) ≡ none
      other_row id unlike = look_free ctx.org_id id (row ∷ []) λ q m _ i. elim m [
        | inl e ↦ unlike (sym i ∙ ap (λ (x : FactRow). x.id) e)
        | inr none_left ↦ none_left
      ]

      taken : (mark : Mark) → look ctx.org_id target_id mid.facts ≡ some mark → row.id ≢ target_id
      taken mark found e =
          clash (sym (subst (λ i. look ctx.org_id i mid.facts ≡ none) e free) ∙ found)
        where
          clash : none ≡ some mark → ⊥
          clash h = cc

      fresh-Replaces :
          (mark : Mark)
          → look ctx.org_id target_id mid.facts ≡ some mark
          → Replaces target_id row.id
              (fact_status fact.confidence)
              false
              (board ctx.org_id mid)
              (board ctx.org_id (retired E ctx old row.id grown_by))
      unfolding retire
      fresh-Replaces mark found = (
        (mark, found),
        updated_hit E ctx grown_by (retire row.id) old member mark
            (look-append_taken ctx.org_id target_id mid.facts (row ∷ []) mark found),
        (λ h. absurd (not_true h)),
        (λ _. (
          free,
          updated_other E ctx grown_by (retire row.id) old member row.id (taken mark found)
              ∙ look-append_free ctx.org_id row.id mid.facts (row ∷ []) free
              ∙ alone,
        )),
        (λ id unlike unlike_new.
            updated_other E ctx grown_by (retire row.id) old member id unlike
            ∙ look-append_other ctx.org_id id mid.facts (row ∷ [])
                (other_row id (unlike_new refl))),
      )
        where
          not_true : false ≡ true → ⊥
          not_true h = cc

    swapped-Replaces :
        (fact : FactInput) (target : FactRow) (outcome : Outcome) (new : String) (between : Tables)
        → IsTarget E ctx old mid target
        → Inserted E ctx fact outcome new mid between
        → Replaces target_id new
            (fact_status fact.confidence)
            (was_deduped outcome)
            (board ctx.org_id mid)
            (board ctx.org_id (retired E ctx old new between))
    unfolding retire
    swapped-Replaces fact target outcome new between (m, policy, named)
          (fresh row made id_is grown is apart _) =
        let (mark, found) =
          look_found ctx.org_id target_id mid.facts target m (only target.org_id policy) named in
        rw (grown, made, id_is) (fresh-Replaces fact row is apart mark found)
    swapped-Replaces fact target outcome new between (m, policy, named)
          (existing r key made id_is kept _ mr has) =
        let org = only target.org_id policy in
        let (mark, found) = look_found ctx.org_id target_id mid.facts target m org named in
        let (mark', found') = look_found ctx.org_id new mid.facts r mr has.0 (sym id_is) in
        rw kept (
          rw made (
            (mark, found),
            updated_hit E ctx mid (retire new) old member mark found,
            (λ _. (mark', found')),
            (λ h. absurd (cc)),
            (λ id apart _. updated_other E ctx mid (retire new) old member id apart),
          ))

    pub outcome-Supersedes :
        (raw : Json) (answer : Superseded) (after : Tables)
        → Outcomes E ctx old raw answer mid after
        → Supersedes target_id answer (board ctx.org_id mid) (board ctx.org_id after)
    outcome-Supersedes raw answer after (rejected problems _ made audited) =
        rw made (λ id. ap (λ (t : Tables). look ctx.org_id id t.facts) audited)
    outcome-Supersedes raw answer after (absent fact _ made none_there audited) = rw made (
      look_free ctx.org_id target_id mid.facts (λ r m o i. none_there r (m, rw o member, i)),
      λ id. ap (λ (t : Tables). look ctx.org_id id t.facts) audited,
    )
    outcome-Supersedes raw answer after
          (swapped fact target outcome new between _ found stored made audited) =
        rw made (rw audited (swapped-Replaces fact target outcome new between found stored))

    -- The ids of the table are unique: the row found is the one on the board.
    pub Review-Decides :
        (decision : Decision) (answer : Reviewed) (after : Tables)
        → UniqueIds mid.facts
        → Review E ctx old decision answer mid after
        → Decides
            (new_status decision)
            target_id
            answer
            (board ctx.org_id mid)
            (board ctx.org_id after)
    Review-Decides decision answer after unique (nothing made _ audited) =
        rw made (λ id. ap (λ (t : Tables). look ctx.org_id id t.facts) audited)
    Review-Decides decision answer after unique (changed r (v, named) made audited) =
        let found = look-Has ctx.org_id target_id mid.facts r unique v.stored v.in_org named in
        rw made (
          rw audited (
            refl,
            (
              mark_of r,
              found,
              v.has_status,
              updated_hit E ctx mid (decided decision) old member (mark_of r) found,
            ),
            (λ id apart. updated_other E ctx mid (decided decision) old member id apart),
          ))
