-- ===== src/Tests/Scripting.antt =====
-- The scripts at work.
use murray_context_ledger_mc.Base.{
  ◌≡◌, refl, String, Option, some, List, [], ◌∷◌, size, decimal, ◌==◌, if◌then◌else◌,
}
use murray_context_ledger_mc.Base.Int.{ℤ, pos}
use murray_context_ledger_mc.Effect.{Result, ok}
use murray_context_ledger_mc.Scripts.LedgerAdmin.{scopes, strip}
use murray_context_ledger_mc.Scripts.LedgerAdmin.Words.{scopes-join}
use murray_context_ledger_mc.Scripts.RestProxy.{Header, Received, Response, forwarded, forward}
use murray_context_ledger_mc.Scripts.RestProxy.Headers.{Passed, forward-Passed}

scopes_test : scopes (some "account, personal ,,work") ≡ some ("account" ∷ "personal" ∷ "work" ∷ [])
unfolding scopes
scopes_test = refl

scopes-join_example : scopes (some "account,field work") ≡ some ("account" ∷ "field work" ∷ [])
unfolding strip
scopes-join_example = scopes-join ("account" ∷ "field work" ∷ []) (
  record { no_comma_in = refl; stripped = refl; not_empty = refl },
  (record { no_comma_in = refl; stripped = refl; not_empty = refl }, tt),
)

-- A reading of header names that is enough for those below.
abbrev lower : String → String
lower name =
    if name == "Content-Length"
    then "content-length"
    else if name == "Connection"
    then "connection"
    else name

abbrev int_of : String → Result ℤ
int_of value = ok (pos (size value))

abbrev read : ℤ → String
read n = "[]"

abbrev upstream : String → String → Option String → List Header → Result Response
upstream command path sent headers = ok (record {
  status = 200;
  headers = ("connection", "close") ∷ ("content-length", "99") ∷ ("etag", "a") ∷ [];
  payload = "[]";
})

abbrev received : Received
received = record {
  command = "GET";
  path = "/rest/v1/facts";
  headers = ("Connection", "close") ∷ ("accept", "json") ∷ ("accept", "text") ∷ [];
}

abbrev answer : Response
answer = record {
  status = 200;
  headers = ("etag", "a") ∷ ("Content-Length", "2") ∷ [];
  payload = "[]";
}

forwarded_test : forwarded lower received.headers ≡ ("accept", "text") ∷ []
unfolding forwarded
forwarded_test = refl

answer_test : forward lower int_of read size upstream received ≡ ok answer
unfolding forward decimal
answer_test = refl

forward-Passed_example : Passed lower refl int_of read size upstream received answer
forward-Passed_example =
    forward-Passed lower refl int_of read size upstream received answer answer_test
