-- ===== src/Lib.antt =====
-- Trackora is a back end for delivery companies (tenants): merchants hand in shipments, couriers
-- deliver them and collect cash (COD), wallets hold what is owed to the merchants, and payouts take
-- it out. The services are NestJS classes over a database (Prisma) and Redis. This library models
-- the services of src/modules and proves what makes them correct. Paths are from the repository's
-- root, without the leading src/ of the TypeScript sources: modules/payouts/... is
-- src/modules/payouts/....
--
-- Base      tests, lists and integers over the native numbers; exceptions as values, and actions
--           that return or throw with the state they reach, with rules for postconditions.
-- Prisma    the Prisma client, a third-party package, as an interface with its documented
--           behaviour (Prisma/Memory is an implementation over lists, for tests), and lemmas on
--           the rows of a table (Prisma/Rows, Prisma/Rivals, Prisma/Keys,
--           Prisma/Lookup).
-- Numbers   the numbers of JavaScript that a request brings, beside the whole cents of the columns,
--           as an interface (with_tenths is an implementation for tests).
-- External  Redis, bcryptjs and @nestjs/jwt as interfaces, with implementations for tests.
-- Model     the rows of prisma/schema.prisma that the services use; Model/Enums its enumerations.
-- Payouts   modules/payouts/services/payouts.service.ts. Defs has one definition for each method
--           (requestPayout is request_payout, its transaction request_body, and so on), Invariant
--           what is kept between calls, Writes the effect of each method, Safety and Runs the
--           proofs for one call and for any sequence of calls.
-- Shipments modules/shipments/services: StateMachine is state-machine.service.ts, Status is
--           updateStatus of shipments.service.ts with verifyDeliveryOtp, Create its create with
--           tracking-number.service.ts, Risk fraud-detection.service.ts, Pages its findAllCursor;
--           Transitions, Delivery, Texts, Fraud and the children of Status, Create and Pages the proofs.
-- Wallets   modules/wallets: Fees is fee-calculator.service.ts, Locking is createTransaction of
--           transactions.service.ts, Credit is shipment-delivered.listener.ts, Versions and Ledger
--           the proofs.
-- Subscriptions  modules/platform/subscriptions: Defs is the service with its repository, Live the
--           invariant, Runs the proofs.
-- Access    common/constants/permissions.constant.ts (Permissions), jwt.strategy.ts of modules/auth
--           with common/tenant/effective-tenant.ts (Session), common/guards (Guards),
--           otp.service.ts of modules/auth (Otp); Scope has the proofs of the tenant's scope.
-- Auth      auth.service.ts of modules/auth with its repository (Defs); Issue, Refresh and Runs the
--           proofs. The secret and the life time of refresh tokens are configuration.
-- Support   modules/platform/support with writeAuditLog of modules/platform/audit-logs (Defs); Sessions,
--           Runs and Tokens the proofs.
-- Assignments  modules/assignments: Defs is the service with its repository, Active, Capacity and
--           Runs the proofs.
-- Couriers  modules/couriers: App is courier-app.service.ts, which calls updateStatus of Shipments and
--           completeAssignment of Assignments, Roster couriers.service.ts; Deposits, Tasks, Sync and
--           Staffing the proofs.
-- Billing   modules/platform/billing: Csv is toCsv and csvValue of platform-billing.service.ts, Invoices
--           its createInvoice and updateInvoice with the repository; RoundTrip, which has a reader of
--           CSV, and Amounts the proofs.
-- Plans     modules/platform/plans: Flags is normalizeFeatureFlags of platform-plans.service.ts, Defs
--           the rest of the service with its repository; Names, Calls and Runs the proofs.
-- Features  modules/platform/feature-flags (Defs); Effect and Tenants the proofs.
--
-- How they interact: updateStatus sends shipment.delivered (an event in the list of Shipments.Status),
-- on which the listener (Wallets.Credit) credits the wallet from which payouts are taken. The flags of a
-- plan that Plans writes are read by Features. The tokens that Auth and Support issue are read by
-- validate and effective_tenant of Access.Session.
--
-- State. A service's method is an action on the tables: a function that returns a value or an
-- exception, with the tables as they are then. A transaction that throws leaves the tables as they
-- were. Calls happen one after the other, except in Wallets, where `others` is what other sessions
-- commit between the reads of a transaction and its writes.
--
-- Money in the tables is in whole cents, and a rate in ten-thousandths, as the columns Decimal(10, 2)
-- and Decimal(5, 4) have them; a merchant's rate and fee may be negative. The rounding of a product to
-- cents is a parameter of which it is assumed that it gives a nearest cent. The amounts of payouts and
-- deposits are numbers of a request, which may be below a cent (Numbers); the other amounts of requests
-- are taken in cents. That a sum is too large for its column, which the database refuses, is not
-- modelled. Ids, keys, passwords and times are natural numbers. A new id and the time are
-- arguments.
--
-- Failures of the database are modelled where they matter to a statement, in the creation of shipments,
-- whose two inserts are in no transaction; elsewhere the database carries out the writes, but for
-- those that its unique columns and missing rows refuse.
--
-- Loops. The loop of attempts in Wallets runs on the number of attempts that are left, from the
-- MAX_RETRIES = 3 of the source, and the loop over shipments in Assignments on their list; the
-- loop over draws of tracking numbers runs on the 10 attempts of the source, and the loop over updates
-- of a synchronisation on their list. A client that asks for all pages (Shipments.Pages) and the reader
-- of CSV (Billing.RoundTrip) run on fuel, of which one more than there are rows, and eleven more than
-- there are lines, is enough.
--
-- Not modelled: lists with their filters and pages, response objects, logging, controllers and
-- declarative validation (which the framework interprets), free text and display data, delays
-- between attempts. The other services of the repository are not modelled.
pub mod Base
pub mod Prisma
pub mod Model
pub mod External
pub mod Access
pub mod Assignments
pub mod Auth
pub mod Billing
pub mod Couriers
pub mod Features
pub mod Numbers
pub mod Payouts
pub mod Plans
pub mod Shipments
pub mod Subscriptions
pub mod Support
pub mod Wallets
