-- ===== src/Lib.antt =====
-- A model of the Murray context ledger, an MCP server through which assistants read and write the
-- facts that an org stores about its users.
--
-- Parts. A request reaches server/app/mcp_server.py with the access token that server/app/auth.py
-- has verified. `_begin` mints a short-lived database token for the caller (server/app/db.py),
-- resolves the caller's one org and role and the seat of the OAuth client, and gives the context
-- of the call; the tool then reads or writes facts through PostgREST, under the row-level policies
-- of supabase/migrations; `_finish` appends the row of the audit log, before the tool answers.
--
-- Files and code.
--   Base/, Effect/: shared tests, lists and texts; calls over a state that may raise. A raise keeps
--     the state, since what was committed stays committed. Keeps and Answers are the logics of
--     what any outcome of a call keeps, and of calls that always answer.
--   Json: the arguments of a tool, and json.dumps with sorted keys as `_finish` calls it.
--   Schemas, Config, Db, Auth: server/app/schemas.py, config.py, db.py, auth.py, and the token
--     verifier and `_oauth_client_identity` of mcp_server.py.
--   Uuid: the texts that Python's uuid.UUID accepts.
--   Store/: the tables (Rows), queries (Query, Builder) and policies (Policy) of
--     supabase/migrations; the record `Backend` of the calls that the server makes, and what is
--     relied on in them (`IsLawful` in Laws, read off a call that returned in Returned). Change says
--     how the tables may change, Changed that each call changes them so, whatever its outcome, and
--     Available is a database that is up.
--   Server/Env: what a call depends on besides its arguments.
--   Server/Context: `ToolContext`, `_begin`, `_resolve_membership`, `_resolve_client`, `_finish`.
--   Server/Scope: ROLE_SCOPES, REVIEW_ROLES, `_effective_scopes`, the two scoped queries.
--   Server/Render, Server/Search: `_estimate_tokens`, `_fact_line`, `_fact_url`, `_search_facts`.
--   Server/Write: `_fact_status`, `_fact_row`, `_insert_fact`, `_validation_errors`.
--   Server/Tools/Profile, Read, Remember, Supersede, Review: the eleven tools.
--   Server/Request: a call of one of the tools, as data, and how it is served.
--   Server/Registry: `_register_tools` and `build_mcp`: the names, the descriptions, the settings of
--     the MCP server.
--   Server/App: server/app/main.py: `create_app`, `healthz`, the metadata of the resource.
--   Server/Logic, the modules called Walk: a property that the calls of the database have and that
--     composition keeps, taken through the code of every tool once; Logic/Kept and Logic/Answers
--     are its two uses.
--   Server/History: any sequence of calls by any callers. Server/Board: what is known of each id in
--     an org (status and link), the abstract view, and what each tool promises of it.
--   Admin, Admin/: server/app/admin.py; the calls of the service-role client are the record
--     `Service` of Admin/Interface.
--   Scripts/LedgerAdmin, Scripts/RestProxy: scripts/ledger_admin.py and scripts/rest_prefix_proxy.py.
--   Tests/: a database in memory that has the behaviour relied on, a small ledger, and runs.
--
-- Correspondence. A table is a list of rows. A call is a function from a state to a result and a
-- state; `Runs m s a t` says that from s the call m returns a and leaves t. Each round trip to the
-- database is one field of `Backend`, and no other request runs between the round trips of one
-- call: calls run in turn, each with its own token and clock, on what the calls before it left,
-- whether those returned or raised. The two places where the code meets another request (a seat or
-- a key that has just been taken) are reached by the unique violation that an insert may raise.
-- `IsAvailable` asks of the database that it answers each statement or refuses it with an SQL state,
-- and that the state of a unique violation comes only from an insert whose key a row has. It leaves
-- lost connections out; only the theorem that names it assumes it.
-- No select is relied on to be complete but those for one id or key, since PostgREST cuts the
-- others off at `max_rows`; a count is exact.
--
-- Bounds and fuel. Numbers are natural numbers without bound, as Python's are; a limit that a
-- caller sends may be negative. A float from 0 up is the exact count of units of 2^-1074; negative
-- ones and NaN, which the schema refuses as a confidence, have no value in the model. The
-- only fuel is that of printing a natural number n in decimal: n + 1 rounds, and any more print it
-- alike.
--
-- Not modelled. PostgREST and Postgres, PyJWT, pydantic, SHA-256 and urlparse are parameters, and so
-- are argparse, which is given the options of each command, and the sockets and the `str.lower` of
-- the proxy. The order of rows is not specified, only which rows are returned and how many. The
-- routing and the lifespan of FastAPI, the MCP transport and its reading of arguments, the start of
-- the two scripts' processes, pipeline/ (an empty package) and the tests are left aside, as is an
-- interleaving of two calls inside their round trips.
pub mod Base
pub mod Effect
pub mod Json
pub mod Schemas
pub mod Config
pub mod Db
pub mod Uuid
pub mod Auth
pub mod Store
pub mod Server
pub mod Admin
pub mod Scripts
pub mod Tests
