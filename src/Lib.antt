-- ===== src/Lib.antt =====
-- NexusCRM: a customer relationship manager for many tenants, with a payment rail for USDC.
--
-- The backend (crm-backend/src) is a set of NestJS services over one PostgreSQL database, reached
-- through the Prisma client. Every query passes an extension of the client that adds the tenant of
-- the request to it. Deals that are won queue a payment intent; the payments service keeps the
-- lifecycle of each payment, and settles a confirmed payment in a double-entry ledger. Wallets are
-- kept by a custody provider. Roles decide which requests a user may make, and leads are scored and
-- converted to contacts and deals. Changes of records are events of an automation engine, which runs
-- the workflows that a tenant has set up for them.
--
-- The files and the code they model:
--   Tenancy      crm-backend/src/core/database/prisma.service.ts ($allOperations) and
--                common/middleware/tenant-context.middleware.ts.
--   Payments     crm-backend/src/modules/payments: StateMachine is payment-state-machine.ts,
--                Repository is payments.repository.ts, Service is payments.service.ts.
--   Ledger       crm-backend/src/modules/ledger: Repository is ledger.repository.ts, Service is
--                ledger.service.ts.
--   Wallets      crm-backend/src/modules/wallets: Service is wallets.service.ts with
--                wallets.repository.ts.
--   Workers      crm-backend/src/jobs/workers: Deposits is blockchain-events.worker.ts, Confirmations
--                is transaction-confirmation.worker.ts, Jobs is payment-processing.worker.ts.
--   Deals        crm-backend/src/modules/deals/deals.service.ts: Service is create and moveStage,
--                Board is getKanbanBoard.
--   Leads        crm-backend/src/modules/leads: Service is leads.service.ts with leads.repository.ts.
--   Tickets      crm-backend/src/modules/tickets: Service is tickets.service.ts with
--                tickets.repository.ts.
--   Pipelines    crm-backend/src/modules/pipelines: Service is pipelines.service.ts with
--                pipelines.repository.ts.
--   Automation   crm-backend/src/modules/automation: Conditions is engine/condition-evaluator.ts,
--                Actions is engine/action-executor.ts, Service is automation.service.ts; Types has
--                the trees and actions of crm-backend/src/shared/types/events.types.ts.
--   Auth         crm-backend/src/modules/auth: Service is auth.service.ts with auth.repository.ts.
--   Billing      crm-backend/src/modules/billing: Service, Stripe and Paypal are billing.service.ts
--                with billing.repository.ts, the payments in crypto currency and the webhooks of
--                Stripe and PayPal.
--   Rbac         crm-backend/src/modules/rbac/rbac.service.ts and common/guards/roles.guard.ts.
--   LeadScoring  crm-backend/src/modules/analytics/lead-scoring.service.ts.
--   Pagination   crm-backend/src/shared/utils/pagination.utils.ts.
--   Prisma       the interface of the database client, and tables in memory that fill it.
--   Base         names, tests and lemmas that the others share.
--   Tests        the theorems at concrete inputs.
-- A function keeps the name of the method it models, written with underscores; a method that changes
-- the database is a function of the state before it to its result and the state after it. What a
-- call throws is an error value, and the callback of a transaction that throws leaves the tables as
-- they were.
--
-- The database client, the custody provider, the chain, the decimal library, the hashes and
-- signatures, the answers of Stripe and PayPal, the templates, and the language's conversions and
-- numbers are not code of the repository: they are parameters. A table is a record of the calls
-- that the repositories make (findUnique, findFirst, findMany, create, update, delete, updateMany,
-- deleteMany) and of what the client's documentation says of them; the tables in memory show that
-- these laws can hold together. The clock, the tenant context and whether an outer transaction
-- commits are the record Env.
--
-- Amounts of USDC are whole millionths, the scale of their columns, and the decimal arithmetic is
-- taken as exact, which it is below the twenty significant digits of the library. They are not
-- negative; the validation of requests does let a negative amount through, which is left out. Times
-- are numbers of milliseconds. LedgerService.settlePayment calls itself after it has created
-- missing accounts; its model is given a number of calls, and two are enough, since a call that has
-- created the accounts finds them.
--
-- Queues and sockets are the lists of the jobs and messages handed to them; whether the webhook
-- queue takes a job of the payments service is a parameter, and so it is for the calls of the
-- automation engine; the workers of the payment rail and of the automation engine are modelled for
-- one job, and no retries. Calls that the source runs by Promise.all are run one after the other in
-- the order in which it starts them. The workers look payments up without a tenant, as the code
-- does; the theorems about them say what follows. A condition tree is a mutual block of groups and
-- conditions, so that its evaluation is structural recursion; the walk over the workflows of an
-- event is recursion on their list.
--
-- Not modelled: HTTP controllers and validation, the registration of tenants and the blacklist of
-- tokens, the other calls that start, change and refund a subscription at Stripe and PayPal,
-- the language-model features, the chain listeners and the smart contract, analytics, tasks
-- and the plain queries of the other record types, and the frontend, which holds no rules of its own.
pub mod Base
pub mod Prisma
pub mod Tenancy
pub mod Ledger
pub mod Rbac
pub mod LeadScoring
pub mod Pagination
pub mod Payments
pub mod Pipelines
pub mod Automation
pub mod Auth
pub mod Billing
pub mod Tickets
pub mod Leads
pub mod Workers
pub mod Wallets
pub mod Deals
pub mod Tests
