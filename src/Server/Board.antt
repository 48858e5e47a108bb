-- ===== src/Server/Board.antt =====
-- What the tools promise about the facts of an org, with everything forgotten but the ids, the
-- statuses and the links: the order of the rows, their contents, and the tables they stand in.
pub mod Looks
pub mod Updates
pub mod Writes
pub mod Refines
use murray_context_ledger_mc.Base.{
  ◌≡◌, ◌≢◌, String, ◌==◌, ◌&&◌, Bool, true, false, Option, none, some, List, [], ◌∷◌, ◌⊎◌, Has,
  if◌then◌else◌,
}
use murray_context_ledger_mc.Store.{Tables, FactRow, FactStatus}
use murray_context_ledger_mc.Server.Tools.Remember.{Remembered}
use murray_context_ledger_mc.Server.Tools.Supersede.{Superseded, not_valid, not_found, replaced}
use murray_context_ledger_mc.Server.Tools.Review.{Reviewed, not_pending, reviewed}
use murray_context_ledger_mc.Server.Request.{
  Request, profile_request, context_request, activity_request, search_request, fetch_request,
  ping_request, remember_request, supersede_request, pending_request, promote_request,
  reject_request, Reply,
}

pub record Mark : Type 0 where
  pub status : FactStatus
  pub superseded_by : Option String

abbrev pub Board : Type 0
Board = String → Option Mark

abbrev pub mark_of : FactRow → Mark
mark_of r = record { status = r.status; superseded_by = r.superseded_by }

abbrev pub look : String → String → List FactRow → Option Mark
look org id [] = none
look org id (r ∷ rs) =
    let rest = look org id rs in if r.org_id == org && r.id == id then some (mark_of r) else rest

-- The board of an org, by id.
abbrev pub board : String → Tables → Board
board org t id = look org id t.facts

abbrev pub Same : Board → Board → Type 0
Same before after = (id : String) → after id ≡ before id

-- The mark of a fact that has just been written.
abbrev pub IsNew : Mark → Type 0
IsNew m =
    (m.superseded_by ≡ none)
    × ((m.status ≡ FactStatus.active) ⊎ (m.status ≡ FactStatus.pending_review))

-- The created ids were free and are taken now; nothing else has changed.
abbrev pub Remembers : Remembered → Board → Board → Type 0
Remembers a before after =
    ((id : String)
      → Has id a.created
      → (before id ≡ none) × (m : Mark) × (after id ≡ some m) × IsNew m)
    × ((id : String) → (Has id a.created → ⊥) → after id ≡ before id)

-- The old fact was there and is superseded by the new one, which was there before exactly if the
-- answer says so, and else has the status that the answer tells; nothing else has changed.
abbrev pub Replaces : String → String → FactStatus → Bool → Board → Board → Type 0
Replaces old new status was_deduped before after =
    ((m : Mark) × (before old ≡ some m))
    × (after old ≡ some (record { status = FactStatus.superseded; superseded_by = some new }))
    × (was_deduped ≡ true → (m : Mark) × (before new ≡ some m))
    × (was_deduped ≡ false
        → (before new ≡ none)
          × (after new ≡ some (record { status = status; superseded_by = none })))
    × ((id : String) → id ≢ old → (was_deduped ≡ false → id ≢ new) → after id ≡ before id)

abbrev pub Supersedes : String → Superseded → Board → Board → Type 0
Supersedes old (not_valid errors) before after = Same before after
Supersedes old not_found before after = (before old ≡ none) × Same before after
Supersedes old (replaced id new status was_deduped) before after =
    Replaces old new status was_deduped before after

-- The fact was pending and has the new status, and keeps its link; nothing else has changed.
abbrev pub Decides : FactStatus → String → Reviewed → Board → Board → Type 0
Decides status id not_pending before after = Same before after
Decides status id (reviewed answered told) before after =
    (told ≡ status)
    × ((m : Mark) × (before id ≡ some m)
        × (m.status ≡ FactStatus.pending_review)
        × (after id ≡ some (record { status = status; superseded_by = m.superseded_by })))
    × ((other : String) → other ≢ id → after other ≡ before other)

-- The specification: what each tool may do to the board of the caller's org, by what it answers.
-- `canonical` reads an id as Postgres does.
abbrev pub Promised : (String → String) → (q : Request) → Reply q → Board → Board → Type 0
Promised canonical profile_request a = Same
Promised canonical (context_request query) a = Same
Promised canonical (activity_request domain) a = Same
Promised canonical (search_request query) a = Same
Promised canonical (fetch_request id) a = Same
Promised canonical ping_request a = Same
Promised canonical (pending_request limit) a = Same
Promised canonical (remember_request facts) a = Remembers a
Promised canonical (supersede_request old fact) a = Supersedes (canonical old) a
Promised canonical (promote_request id) a = Decides FactStatus.active (canonical id) a
Promised canonical (reject_request id reason) a = Decides FactStatus.rejected (canonical id) a
