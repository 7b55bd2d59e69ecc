-- ===== src/Lib.antt =====
-- OmniLedger, a bank's back end in Go: accounts and a double-entry ledger in PostgreSQL,
-- idempotency keys and revoked tokens in Redis, JSON over HTTP.
--
-- A request comes through the middleware (internal/auth), which reads a token from a cookie, to
-- a handler (internal/handler), which calls a service (internal/service). A service runs
-- statements of the store (internal/store), in a transaction of the database where they change
-- rows, and talks to Redis. The rate limiter (internal/middleware) stands before the endpoints
-- of transfers, login and registration. Errors are values: a service wraps the error of a lower
-- layer, and the handler maps it to an HTTP status.
--
--   Errs: internal/errs/errors.go, and Go's wrapped errors with errors.Is.
--
--   Model: internal/model/model.go. A UUID is a number, a time is a number of nanoseconds, and
--     the type of amounts is a parameter.
--
--   External: what the program uses of PostgreSQL, Redis and shopspring/decimal, as records of
--     operations and of the laws that the code relies on.
--
--   Store.Db: the four tables of sql/V1__init_schema.sql, the constraints that an INSERT can
--     violate, and the balance as the sum over the ledger.
--
--   Store.Action: a session with the database (tables, row locks, clock of the transaction,
--     count of calls), actions on it that return a value or an error, and `with_tx` for
--     WithTx.
--
--   Store.Statements, Store.Queries: one action per method of Store. Store.Inversion,
--     Store.Atomicity, Store.Keeps and Store.Runs say what follows from how an action ended;
--     Store.Balance and Store.Consistency hold the invariants of the tables.
--
--   Store.Users: the statements on users and accounts, each a transaction of its own, and the
--     constraints of the two tables; Store.Roster: the invariant of these tables.
--
--   Transfer: internal/service/transfer.go. `transfer_funds` is TransferFunds: `run_claimed`
--     goes on from the reply of SETNX, `transfer_tx`, `transfer_roles` and `post_transfer` are
--     the parts of the function that is handed to WithTx, and `finish` is the deferred release
--     of the key and the end. Transfer.Verdict decides the answer from the tables alone, for
--     an outside that does not fail.
--
--   Funding: internal/service/funding.go. `fund_account` is FundAccount.
--
--   Bank: the money of the two services with no table in sight: balances and used keys, and
--     the moves of a transfer and of a funding. Bank.Refinement takes the services' calls to
--     these moves.
--
--   Auth.Token, Auth.Middleware, Auth.Guards, Auth.Revocation: internal/auth/token.go and
--     middleware.go. `protect` is Protect, with one function for each step of its pipeline.
--     The JWT library is a parameter. Auth.Revocation follows a token that has been revoked,
--     over the states of Redis as time passes.
--
--   Auth.Service: internal/service/auth.go. `register` is Register, with `enroll` for its part
--     from the new user on; `login` and `logout` are Login and Logout; `token_cookie` and
--     `cleared_cookie` are what SetTokenCookie and ClearTokenCookie set. The package bcrypt is
--     a parameter. Auth.Enrollment, Auth.Registration and Auth.Residue follow a registration,
--     Auth.Login a login, and Auth.Tickets, Auth.Admission and Auth.Entry go from a
--     registration to a request with its token.
--
--   Handler.Sessions: internal/handler/auth_handler.go. The panic of a slice is an answer that
--     is missing.
--
--   RateLimit: internal/middleware/ratelimit.go. `check` runs the pipeline and `decide` goes
--     on from its replies; `limit` is Limit at a time. RateLimit.Sets says what the commands
--     do to sorted sets: a pipeline may fail after some of its commands, and may be sent
--     again. RateLimit.Pipelines, RateLimit.Window and RateLimit.Budget go from one pipeline
--     over one request to a sequence of requests.
--
--   Email: internal/email/worker.go. A pool is the state of the two channels and of every
--     goroutine, with a history for the proofs of what has happened to the jobs; a `Step` is
--     one operation of a goroutine on the channels, or the return of `send`: `enqueue` is the
--     select of Enqueue, `closes_quit` and `closes_jobs` are Shutdown, and the rest are the
--     cases of the select in process and the end of send. A send on a closed channel panics,
--     and is no step. The lines that the program logs about a job are written after these
--     operations, and are left out. Email.Mail is internal/email/templates.go with the message
--     that `send` makes, and Email.Mail.Lines what a reader of mails finds in it.
--
--   Config: internal/config/config.go. The settings that `load` makes are those that the
--     routes run with.
--
--   Routes: cmd/api/main.go, the routes behind the rate limiter, in the order in which the
--     middleware is mounted.
--
--   Server: cmd/api/main.go, the mux, with the patterns that `main` and the handlers' Register
--     functions mount. `find_route` is how net/http picks among them, by method and path, and
--     `serve` runs the handler of the route; `Outside` gathers what the program uses and its
--     settings. Server.Change and Server.Invariant go from one request to any sequence of
--     requests.
--
--   Concurrent: internal/service/transfer.go and WithTx of internal/store/store.go, the
--     transactions of many transfers at once, at the level SERIALIZABLE as PostgreSQL has it.
--     A `System` is what is committed, how far each transaction is, the snapshot that it reads
--     from, and whether a transaction that has committed since is in conflict with it. A
--     `Move` is the next step of one of them: the snapshot is taken with the first statement,
--     a lock that is free is taken, the checks are made in the snapshot, the row of the
--     transaction is inserted unless another open transaction has inserted one with its key,
--     the rest is written, and the transaction commits. Two transfers that have each read the
--     ledger rows that the other adds to do not both commit: `conflicts`, `commit_system`; the
--     second is rolled back with a serialization failure, `is_aborted`, as can be one that
--     alone has read what the other has written. A step that must wait has no move, and any
--     transaction may fail from outside. What Redis keeps out before a transaction begins is
--     not in this part. Concurrent.Alone relates these steps to `transfer_funds`.
--
--   Handler.Accounts: internal/handler/account_handler.go. `handle_owned` is the start that
--     the endpoints on one account share, with verifyOwnership as `check_owner`; an `int`
--     keeps its wrap-around at 64 bits. The statements behind them are in Store.History.
--
--   Handler: internal/handler/handler.go and funding_handler.go, from the decoded body to the
--     response, and the order in which the funding route is mounted.
--
-- The outside is an `Env`: for the n-th call it says whether a statement fails and with which
-- message, how a COMMIT ends (also with a lost reply), what the clock shows, which row a LIMIT
-- without ORDER BY picks, how rows of one creation time are ordered and which UUID is drawn. A
-- theorem that does not say otherwise holds for every `Env`, so for every pattern of failures. A
-- stored amount is a count of ten-thousandths, as NUMERIC(18,4) keeps it; rounding on the way in
-- is the decimal package's.
--
-- No definition runs on fuel: every operation is a finite sequence of calls, and the lists are
-- gone through by structural recursion. The number of pages is computed with float64 in the
-- source, which is exact below 2^53 rows.
--
-- Not modelled: logging and latencies; that a Redis key expires, other than through the laws
-- (that of a revoked token does, in Auth.Revocation); two sessions at once, other than the
-- transactions of transfers (elsewhere a session's statements run without those of another
-- between them, and in Concurrent two draws of one UUID are not followed); JSON; net/smtp; and
-- of cmd/api/main.go what opens connections, listens and shuts down.
pub mod Prelude
pub mod Errs
pub mod Model
pub mod External
pub mod Store
pub mod Transfer
pub mod Funding
pub mod Auth
pub mod Handler
pub mod RateLimit
pub mod Routes
pub mod Server
pub mod Email
pub mod Bank
pub mod Concurrent
pub mod Config
mod Fixtures
