-- ===== src/Server/Tools/Read/FetchAnswers.antt =====
-- What `fetch` answers, and what it writes to the audit log.
use murray_context_ledger_mc.Base.{
  ◌≡◌, refl, inl, inr, String, ◌<>◌, eq_iff, true, and_left, none, List, [], ◌∷◌, All,
}
use murray_context_ledger_mc.Effect.{value_error, ◌>>=◌}
use murray_context_ledger_mc.Effect.Runs.{Runs, Runs-bind, Runs-if}
use murray_context_ledger_mc.Json.{Json, text, object, field, end}
use murray_context_ledger_mc.Uuid.{is_uuid}
use murray_context_ledger_mc.Store.{Tables, FactRow, FactStatus, eq_id}
use murray_context_ledger_mc.Store.Backend.{holds_all}
use murray_context_ledger_mc.Server.Env.{Env, IsLawfulEnv}
use murray_context_ledger_mc.Server.Context.{ToolContext}
use murray_context_ledger_mc.Server.Context.Begin.{
  Begun, begin_then_returned, finish-pure_returned, finish-raise_never,
}
use murray_context_ledger_mc.Server.Scope.{scoped_active_facts}
use murray_context_ledger_mc.Server.Search.Found.{Found, scoped_returned, scoped_more}
use murray_context_ledger_mc.Server.Tools.Read.{
  quoted, Fetched, fetched, fetch_query, answer_fetch, refuse_id, fetch_as, fetch,
}
use murray_context_ledger_mc.Server.Tools.Read.Shown.{Shown, show}

abbrev pub id_arguments : String → Json
id_arguments id = object (field "id" (text id) end)

module _ (E : Env) (L : IsLawfulEnv E) where
  -- A tool that refuses an id never returns.
  pub refuse_id_never :
      {A : Type 0} (ctx : ToolContext) (id : String) (s : E.backend.State) (a : A)
      (t : E.backend.State)
      → Runs (refuse_id E ctx id) s a t
      → ⊥
  unfolding refuse_id
  refuse_id_never ctx id s a t h =
      finish-raise_never E L ctx [] (value_error (quoted id <> " is not a valid fact id.")) s a t h

  -- The one row that `fetch` shows.
  abbrev pub Fetches : String → Fetched → Tables → Tables → Type 0
  Fetches id answer before after =
      (r : FactRow) × (answer ≡ fetched E r)
      × (r.id ≡ E.backend.canonical id)
      × Shown E FactStatus.active "fetch" (id_arguments id) none (r ∷ []) before after

  answer_fetch_returned :
      (id : String) (before : Tables) (ctx : ToolContext) (mid : Tables) (rows : List FactRow)
      (s : E.backend.State) (answer : Fetched) (t : E.backend.State)
      → Begun E "fetch" (id_arguments id) before ctx mid
      → Found E FactStatus.active ctx none mid rows s
      → All (λ r. holds_all E.backend (eq_id id ∷ []) r ≡ true) rows
      → Runs (answer_fetch E ctx rows) s answer t
      → Fetches id answer before (E.backend.tables t)
  unfolding answer_fetch
  answer_fetch_returned id before ctx mid [] s answer t b found named h = absurd (
      finish-raise_never E L ctx [] (value_error "Fact not found or not accessible to this client.")
        s answer t h)
  answer_fetch_returned id before ctx mid (r ∷ rows) s answer t b (kept, sound) named h =
      let (same, audited) =
        finish-pure_returned E L ctx (r.id ∷ []) (fetched E r) s answer t b.subject h in
      (
        r,
        same,
        (eq_iff r.id (E.backend.canonical id)).0 (and_left _ _ named.0),
        show E FactStatus.active "fetch" (id_arguments id) none (r ∷ []) before ctx mid s t b
            (kept, (sound.0, tt)) audited,
      )

  fetch_as_returned :
      (id : String) (before : Tables) (ctx : ToolContext) (s : E.backend.State) (answer : Fetched)
      (t : E.backend.State)
      → Begun E "fetch" (id_arguments id) before ctx (E.backend.tables s)
      → Runs (fetch_as E ctx id) s answer t
      → (is_uuid id ≡ true) × Fetches id answer before (E.backend.tables t)
  unfolding fetch_as fetch_query scoped_active_facts
  fetch_as_returned id before ctx s answer t b h =
      let q = fetch_query ctx id in
      elim (Runs-if (is_uuid id) (E.backend.select_facts ctx.db q >>= answer_fetch E ctx)
        (refuse_id E ctx id) s answer t h) [
          | inl (good, went) ↦
              let (rows, u, got, rest) =
                Runs-bind (E.backend.select_facts ctx.db q) (answer_fetch E ctx) s answer t went in
              (
                good,
                answer_fetch_returned id before ctx (E.backend.tables s) rows u answer t b
                    (scoped_returned E L "fetch" (id_arguments id) before ctx (E.backend.tables s) b
                      q FactStatus.active none (eq_id id ∷ []) s rows u refl refl got)
                    (scoped_more E L "fetch" (id_arguments id) before ctx (E.backend.tables s) b q
                      FactStatus.active none (eq_id id ∷ []) s rows u refl refl got)
                    rest,
              )
          | inr (bad, refused) ↦ absurd (refuse_id_never ctx id s answer t refused)
        ]

  -- `fetch` returns only for a text that is a uuid, and then answers a stored row with that id,
  -- which is an active fact of the caller's org within the caller's effective scopes; its one
  -- audit row lists exactly the id of that row.
  pub fetch_returned :
      (id : String) (s : E.backend.State) (answer : Fetched) (t : E.backend.State)
      → Runs (fetch E id) s answer t
      → (is_uuid id ≡ true) × Fetches id answer (E.backend.tables s) (E.backend.tables t)
  unfolding fetch
  fetch_returned id s answer t h =
      let (ctx, u, b, rest) =
        begin_then_returned E L "fetch" (id_arguments id) (λ c. fetch_as E c id) s answer t h in
      fetch_as_returned id (E.backend.tables s) ctx u answer t b rest
