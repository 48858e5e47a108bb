-- ===== src/Server/Request/Answers.antt =====
-- How a call ends, on a database that is up.
use murray_context_ledger_mc.Base.{◌≡◌, String, ◌==◌, false, ◌⊎◌}
use murray_context_ledger_mc.Effect.{Result, ok, err, value_error, api_error}
use murray_context_ledger_mc.Server.Env.{Env}
use murray_context_ledger_mc.Server.Write.{unique_violation}
use murray_context_ledger_mc.Server.Request.{Request}

-- A result, the message of a `ValueError`, or the SQL state with which the database refused a
-- statement, other than that of a unique violation.
abbrev pub Told : {A : Type 0} → Result A → Type 0
Told {A} r =
    ((a : A) × (r ≡ ok a))
    ⊎ ((message : String) × (r ≡ err (value_error message)))
    ⊎ ((code : String) × (r ≡ err (api_error code)) × ((code == unique_violation) ≡ false))
