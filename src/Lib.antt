-- ===== src/Lib.antt =====
-- CRM Silmer: verification library of the commercial core. People and a bot talk with contacts in
-- the inbox; a conversation becomes a deal, which moves along five stages; work is handed from the
-- bot to people by handoffs and tasks; and an order is opened for a conversation, filled in,
-- generated and reopened. Each part stands behind a repository port with an in-memory reference
-- adapter, and the application services and the PostgreSQL adapters follow those. The models are
-- of the reference adapters, of the domain rules that they and the services share, and of the deal
-- commands.
--
-- Base: equality, results, lists, the JavaScript `Map` (Base/Tables, in insertion order), white
-- space and `trim` (Base/Texts), decimal digits and JSON texts (Base/Decimal, Base/Json), and the
-- invariant of versions against logs (Base/Counted).
--
-- Work: modules/work-management/src/in-memory-work-management-repository.js. Work.antt has the
-- state and the private lookups (`#deal` is get_deal, `#assign` is assign), Work/Tasks
-- `createTask` and `updateTask`, Work/Handoffs `createHandoff`, Work/Answers `updateHandoff` and
-- `claimHandoff`, Work/Commands runs of them. Work/Inversion, Work/Answered and Work/Frames say
-- what a successful command wrote; Work/Exclusive, Work/Counted and Work/Fence are about handoffs,
-- histories and the fence against the bot.
--
-- Orders: modules/orders/src/domain/order.js with the artwork test and the principal points of
-- ficha.js. Orders/Calendar has the days, Orders/Confirmation `confirmOrder`, `reopenOrder` and
-- `recordMilestones`, Orders/Ready their theorems. Orders/Money is domain/money.js, Orders/Amounts
-- about it. Orders/Repository and its children are
-- modules/orders/src/adapters/in-memory-order-repository.js: Stores has the store orders, Writes
-- `#write` and its callers, Commands the runs, Effects, Events, Payments and Pending the theorems.
-- Queries has the finders and the summary, Listing the pages of `list`, Reports and Pages their
-- theorems.
--
-- Inbox: modules/inbox-channels/src/adapters/in-memory-inbox-repository.js and domain/inbox.js.
-- Inbox.antt has the maps and the rollback of `#exclusive`, Inbox/Inbounds `receiveInbound` and
-- `recordSuggestion`, Inbox/Mutations `mutateConversation`; Inbox/Effects, Active, Ended and
-- Replays are about runs.
--
-- Deals: modules/deals-pipeline/src. Deals.antt has domain/deal.js and
-- adapters/in-memory-deal-repository.js, Deals/Validation and Deals/Commands
-- application/deal-command-service.js, Deals/Executor the record store and the executor of
-- modules/integration-reliability/src/idempotency.js; Deals/Checks, Changes, Trace and Retries are
-- about them.
--
-- Contacts: modules/contacts/src. Contacts.antt has `#exclusive`, the scope of an identity and
-- `resolveInboundIdentity` of adapters/in-memory-contact-identity-repository.js, Contacts/Merging
-- its `mergeIdentity` and `unmergeIdentity`, Contacts/Inputs the checks of domain/identity.js and
-- Contacts/Service the service; Checks, Anchored, Moved, Runs, Undo and Retries are about them.
--
-- Catalog: modules/catalog/src. Catalog.antt has domain/catalog-version.js and Catalog/Service
-- `publish`, `select` and the rows of the adapter; Entries, Valid, Versions and Selections are
-- about them.
--
-- Configuration: modules/configuration/src. Configuration.antt and Configuration/Versions have
-- domain/configuration-version.js over JSON values (Base/Documents), Configuration/Service
-- `createVersion`, `readChannelConfiguration` and the rows of the adapter; Secrets and History are
-- about them.
--
-- Qualification: modules/qualification/src. Qualification.antt has the state of
-- in-memory-qualification-repository.js, Qualification/Registry field-registry.js, Gates and
-- Evaluate the gates, Patches, Items and Apply `applyPatch`; Sound and Blocked are about them.
--
-- Throttle: modules/identity-access/src/authentication-throttle.js. Throttle.antt has the rows
-- that the SQL statements of `recordFailure` and `check` change and read; Bounds and Blocks are
-- about them.
--
-- Access: modules/identity-access/src/authorization.js with the rows of postgres-access.js;
-- Access/Admins is about the administrators.
--
-- Jobs: modules/integration-reliability/src/postgres-job-queue.js. Jobs.antt has the rows and the
-- decisions, Jobs/Rows the shared statements and the turns of the loops, Jobs/Commands and
-- Jobs/Settling the methods. Safe, Turns, Expired, Selected, Claims, Leases and Settled carry the
-- invariant through them, Runs and Recovered state what it gives.
--
-- Store: modules/orders/src/domain/store-order.js with store-catalog.js (Store.antt,
-- Store/Products, Store/Built) and application/store-order-service.js (Store/Service) over
-- Orders/Repository; Sold, Recorded and Retries are about them. modules/orders/src/domain/sizes.js
-- is Orders/Sizes (the tokens) and Orders/Lines (their lines); Orders/Pairs, Orders/Tokens and
-- Orders/Grades are about it.
--
-- A method is a function of its state to a `Result`; where a method may throw after it wrote (the
-- inbox, the contacts, the deal commands), it returns the result and the state that it leaves. A
-- run takes any sequence of commands, answered or refused. What `idFactory`, a clock, a cipher, a
-- port or SHA-256 answers is an argument. Instants are milliseconds, and a text that the code
-- looks into is its code points. Numbers do not wrap: sequences, versions and epochs stay below
-- 2^53 by far, and an amount is tested against that bound. Writing a number takes as much fuel as
-- one more than the number, and a step of it divides by ten.
--
-- Not modelled: SQL, HTTP, browser and worker code, which is input and output; what the methods
-- return besides what a theorem needs (public views, clones, frozen objects, constant fields); two
-- deal commands that overlap on one key; the encoding of cursors and the validation of list
-- queries, the sections of the ficha, the service that checks the patches of a qualification, the
-- reading of the store's request, and sessions and passwords.
pub mod Base
pub mod Work
pub mod Orders
pub mod Inbox
pub mod Deals
pub mod Contacts
pub mod Catalog
pub mod Configuration
pub mod Qualification
pub mod Throttle
pub mod Access
pub mod Jobs
pub mod Store
