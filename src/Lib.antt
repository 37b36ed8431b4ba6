-- ===== src/Lib.antt =====
-- ServGrid: a model of the API of a field-service and sales business, with its correctness
-- theorems.
--
-- The program is an HTTP API (apps/api) over PostgreSQL and a package of rules that the API and
-- the mobile app share (packages/shared). A route checks the role, parses the body and calls a
-- service; a service opens a transaction, locks the row it is about, checks it, writes the row
-- and an event, and answers with the card in the projection of the caller's role.
--
-- Shared models packages/shared/src: Shared/Errors (errors.ts), Shared/Status (status.ts),
-- Shared/Sequence (sequence.ts) and Shared/Permissions (permissions.ts). Store models the
-- database: Store/Rows the rows of the tables, Store/Events the append-only trails, Store/Db the
-- state, and Store/Tx the actions on it, with transactions (db/tx.ts) and the mapping of refused
-- statements (mapDbRefusal). An action takes the state and gives a result and a state; what is
-- thrown is a value of Failure. Rbac models plugins/rbac.ts: the predicate that scopes a query
-- to the caller's rows. Api/Clock and Api/Sequences model the date helpers of the services and
-- lib/sequences.ts, Api/Limiter lib/rate-limit.ts, and Api/Idempotency plugins/idempotency.ts:
-- the statements on the row of one key, a request as a machine of phases
-- (Api/Idempotency/Schedule), and interleavings of requests, crashes and prunes as lists of
-- turns. Jobs models apps/api/src/modules/jobs: Jobs/Repo and Jobs/Lookups the statements of
-- repo.ts, Jobs/Cards the projections, Jobs/Rules what the doors share, and a module per door of
-- service.ts: Jobs/Status (changeStatus), Jobs/Assign (assignJob), Jobs/Assign/Bulk
-- (bulkAssign), Jobs/Create (createJob), Jobs/Reschedule (rescheduleJob), Jobs/Cancel
-- (cancelJob), Jobs/Complete (completeJob; Jobs/Complete/Faults says what its lines and units
-- can be refused for), Jobs/Amend (amendCompletion). A child called Outcome says how a request
-- to that door can end. Jobs/Sound is what holds of the tables between two requests. Cash models
-- apps/api/src/modules/cash: Cash/Repo and Cash/Queue the statements and the views, Cash/Declare
-- and Cash/Answer the doors of service.ts, Cash/Ledger what holds between requests and
-- Cash/Invariant its preservation; Cash/Frozen is about runs of requests. Jobs/Invariant is the
-- same for the jobs service. Sales/Pricing models the prices of a sale's lines
-- (apps/api/src/modules/sales/service.ts), Sales/Repo, Sales/Items and Sales/Doors the
-- statements and the doors of the sales service, Sales/Books what holds between two requests and
-- what a request keeps, and Sales/Frozen that every door does so. Payments models
-- apps/api/src/modules/payments. Witnesses applies the theorems at concrete inputs.
--
-- Conventions. Ids are numbers, and gen_random_uuid() is a counter of which only freshness is
-- used. Instants are milliseconds and dates are days, both since the epoch; money is in
-- hundredths, so numeric(12,2) is exact and its overflow is checked where a statement can meet
-- it. Text is a list of code points. A request reads the clock once (Env.now). The JavaScript
-- Date's getUTCFullYear and getUTCMonth are fields of Env, for code that is not in the
-- repository, and lower() of PostgreSQL is an argument of the completion. In the idempotency
-- guard the API and the database read one clock, in microseconds, which advances between two
-- statements on a row. A table is an association list by primary key. Requests to one row run
-- one after the other, which is what the row lock gives, so a request is a function from a state
-- to a result and a state. The loops run over the lists of a request. Only the printing of a
-- numeral (Common/Texts/Decimal) is on fuel, n + 1 for the number n, which has at most that many
-- digits.
--
-- Not modelled: messages and details of errors (only the codes), created_at and updated_at,
-- foreign keys other than the employee of a declaration and the product of a part, of a unit and
-- of a line of a sale, the HTTP layer and its schemas, sessions, push delivery, attachments, the
-- remaining modules of the API, and the mobile app.
pub mod Common
pub mod Shared
pub mod Store
pub mod Rbac
pub mod Api
pub mod Jobs
pub mod Cash
pub mod Sales
pub mod Payments
mod Witnesses
