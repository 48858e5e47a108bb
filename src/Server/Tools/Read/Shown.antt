-- ===== src/Server/Tools/Read/Shown.antt =====
-- What a reading tool that returned has shown and audited.
use murray_context_ledger_mc.Base.{◌≡◌, String, Option, List, All}
use murray_context_ledger_mc.Json.{Json}
use murray_context_ledger_mc.Store.{Tables, FactRow, FactStatus}
use murray_context_ledger_mc.Server.Env.{Env}
use murray_context_ledger_mc.Server.Context.{ToolContext}
use murray_context_ledger_mc.Server.Context.Begin.{Begun, logged}
use murray_context_ledger_mc.Server.Scope.Visible.{Visible}
use murray_context_ledger_mc.Server.Search.Found.{Found}
use murray_context_ledger_mc.Server.Tools.Read.{ids}

-- A call that began, and whose only write besides the seat is one audit row with these ids.
pub record Recorded (E : Env) (tool : String) (arguments : Json) (fact_ids : List String)
    (before after : Tables) : Type 0 where
  pub ctx : ToolContext
  pub mid : Tables
  pub begun : Begun E tool arguments before ctx mid
  pub audited : after ≡ logged E ctx fact_ids mid

-- Such a call that has shown these rows, each of them visible to the caller, and audited them all.
pub record Shown (E : Env) (status : FactStatus) (tool : String) (arguments : Json)
    (scopes : Option (List String)) (rows : List FactRow) (before after : Tables) : Type 0 where
  pub recorded : Recorded E tool arguments (ids rows) before after
  pub visible : All (Visible status recorded.ctx scopes recorded.mid) rows

abbrev pub show :
    (E : Env) (status : FactStatus) (tool : String) (arguments : Json)
    (scopes : Option (List String)) (rows : List FactRow) (before : Tables) (ctx : ToolContext)
    (mid : Tables) (s t : E.backend.State)
    → Begun E tool arguments before ctx mid
    → Found E status ctx scopes mid rows s
    → E.backend.tables t ≡ logged E ctx (ids rows) (E.backend.tables s)
    → Shown E status tool arguments scopes rows before (E.backend.tables t)
show E status tool arguments scopes rows before ctx mid s t b (kept, sound) audited = record {
  recorded = record { ctx = ctx; mid = mid; begun = b; audited = rw kept at audited };
  visible = sound;
}
