-- ===== src/Server/Logic/Answers.antt =====
-- The tools on a database that is up.
use murray_context_ledger_mc.Base.{◌≡◌, String, some, List, [], ◌∷◌, none}
use murray_context_ledger_mc.Effect.{pure, ◌>>=◌, ◌>>◌}
use murray_context_ledger_mc.Effect.Answers.{
  IsAnswer, IsAnswer-then, Settles, Settles-pure, Settles-refuse, Settles-bind,
}
use murray_context_ledger_mc.Json.{Json}
use murray_context_ledger_mc.Store.{FactRow, FactStatus, FactQuery, FactPatch, FactFilter, eq_id}
use murray_context_ledger_mc.Store.Available.{IsAvailable, Speaks-IsAnswer}
use murray_context_ledger_mc.Store.Changed.{select_facts-Keeps, count_facts-Keeps}
use murray_context_ledger_mc.Server.Env.{Env, IsLawfulEnv}
use murray_context_ledger_mc.Server.Context.{ToolContext, Call, begin, finish}
use murray_context_ledger_mc.Server.Context.Begin.{begin_returned, Begun-is_member_of}
use murray_context_ledger_mc.Server.Context.Answers.{
  Member, settled, finish-Settles, begin-IsAnswer,
}
use murray_context_ledger_mc.Server.Write.{insert_fact}
use murray_context_ledger_mc.Server.Write.Kept.{insert_fact-Kept}
use murray_context_ledger_mc.Server.Write.Answers.{insert_fact-IsAnswer}
use murray_context_ledger_mc.Server.Tools.Review.{
  Decision, not_pending, reviewed, new_status, review_query, decide_found,
}
use murray_context_ledger_mc.Server.Logic.{Logic}

module _ (E : Env) (L : IsLawfulEnv E) (A : IsAvailable E.backend) where
  module _ (ctx : ToolContext) (who : E.backend.subject ctx.db ≡ some ctx.user_sub) where
    pub select-Settles :
        (q : FactQuery) → Settles (Member E L A ctx) (E.backend.select_facts ctx.db q)
    select-Settles q =
        settled E L A ctx (E.backend.select_facts ctx.db q)
          (select_facts-Keeps E.backend ctx.user_sub L.lawful ctx.db q)
          (λ s i. Speaks-IsAnswer (E.backend.select_facts ctx.db q s).0 (A.facts_answer ctx.db q s))

    pub count-Settles :
        (q : FactQuery) → Settles (Member E L A ctx) (E.backend.count_facts ctx.db q)
    count-Settles q =
        settled E L A ctx (E.backend.count_facts ctx.db q)
          (count_facts-Keeps E.backend ctx.user_sub L.lawful ctx.db q)
          (λ s i. Speaks-IsAnswer (E.backend.count_facts ctx.db q s).0 (A.count_answers ctx.db q s))

    -- An update leaves the memberships alone, whatever it does to the facts.
    pub update-Settles :
        (p : FactPatch) (fs : List FactFilter)
        → Settles (Member E L A ctx) (E.backend.update_facts ctx.db p fs)
    update-Settles p fs s i = (
      Speaks-IsAnswer (E.backend.update_facts ctx.db p fs s).0 (A.update_answers ctx.db p fs s),
      rw (L.lawful.on_facts.update_frame ctx.db p fs s) i,
    )

    pub decide_found-Settles :
        (id : String) (decision : Decision) (rows : List FactRow)
        → Settles (Member E L A ctx) (decide_found E ctx id decision rows)
    unfolding decide_found
    decide_found-Settles id decision [] =
        Settles-bind (Member E L A ctx) (finish E ctx []) (λ _. pure not_pending)
          (finish-Settles E L A ctx [] who) (λ _. Settles-pure (Member E L A ctx) not_pending)
    decide_found-Settles id decision (r ∷ rows) =
        let p : FactPatch = record { superseded_by = none; status = new_status decision } in
        let answer = reviewed id (new_status decision) in
        Settles-bind (Member E L A ctx) (E.backend.update_facts ctx.db p (eq_id id ∷ []))
          (λ _. finish E ctx (id ∷ []) >> pure answer) (update-Settles p (eq_id id ∷ []))
          (λ _.
            Settles-bind (Member E L A ctx) (finish E ctx (id ∷ [])) (λ _. pure answer)
              (finish-Settles E L A ctx (id ∷ []) who)
              (λ _. Settles-pure (Member E L A ctx) answer))

  pub begins-IsAnswer :
      {T : Type 0} (tool : String) (arguments : Json) (body : ToolContext → Call E T)
      → ((ctx : ToolContext)
          → E.backend.subject ctx.db ≡ some ctx.user_sub
          → Settles (Member E L A ctx) (body ctx))
      → (s : E.backend.State) → IsAnswer ((begin E tool arguments >>= body) s).0
  begins-IsAnswer tool arguments body k s =
      IsAnswer-then (begin E tool arguments) body s (begin-IsAnswer E L A tool arguments s)
        (λ ctx u ran.
          let b = begin_returned E L tool arguments s ctx u ran in
          (k ctx b.subject u (
            Begun-is_member_of E tool arguments (E.backend.tables s) ctx (E.backend.tables u) b)).0)

  unfoldable pub answers_logic : Logic E
  answers_logic = record {
    Whole = λ T m. (s : E.backend.State) → IsAnswer (m s).0;
    Inside = λ ctx T m. E.backend.subject ctx.db ≡ some ctx.user_sub → Settles (Member E L A ctx) m;
    begins = λ T tool arguments body k. begins-IsAnswer tool arguments body k;
    returns = λ ctx T a who. Settles-pure (Member E L A ctx) a;
    refuses = λ ctx T message who. Settles-refuse (Member E L A ctx) T message;
    binds = λ ctx T U m f k l who. Settles-bind (Member E L A ctx) m f (k who) (λ a. l a who);
    selects = λ ctx q who. select-Settles ctx who q;
    counts = λ ctx q who. count-Settles ctx who q;
    audits = λ ctx ids who. finish-Settles E L A ctx ids who;
    stores = λ ctx raw fact e who.
        settled E L A ctx (insert_fact E ctx fact) (insert_fact-Kept E L ctx who fact)
          (λ s i. insert_fact-IsAnswer E L A ctx who fact s i);
    retires = λ ctx old new who.
        update-Settles ctx who (record { superseded_by = some new; status = FactStatus.superseded })
          (eq_id old ∷ []);
    decides = λ ctx id decision who.
        Settles-bind (Member E L A ctx) (E.backend.select_facts ctx.db (review_query ctx id))
          (decide_found E ctx id decision) (select-Settles ctx who (review_query ctx id))
          (decide_found-Settles ctx who id decision);
  }
