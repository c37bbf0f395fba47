-- ===== src/Lib.antt =====
-- The back end of a CRM: an HTTP gateway (apps/api-gateway) with its services on a PostgreSQL
-- database, and two services behind a message broker, for tasks (apps/tasks-service) and for
-- notifications (apps/notifications-service). Tables and roles that they share are in libs/shared,
-- the database's models in prisma/schema.prisma.
--
-- Parts
--   * Prelude: tests on numbers, lists as tables with a primary key, integers, the result of a
--     method that may throw (`Result`, with one rule for each way in which a method goes on), and
--     history tables as trails (Prelude.Trail).
--   * Shared.Workflow, Shared.Access: the statuses of orders and payments with their transition
--     tables, the roles, the role lists of the routes and RolesGuard (libs/shared/src/constants,
--     modules/auth/guards/roles.guard.ts of the gateway).
--   * Billing: orders and payments (modules/orders, modules/payments of the gateway). Money and
--     Store hold the arithmetic and the tables, Orders and Payments the methods of the two
--     services under their own names in snake case. Solvency and Audit state the two invariants,
--     on the money paid on an order and on the history of its status. Service serves requests one
--     after another; Interleaving and Races let the transactions of requests that run at the same
--     time follow one another in any order. A payment's method ends with `recalc_status`, which
--     moves the order that it belongs to. Refunds compares the two routes that give money back,
--     Views has the reads of both services, and Shown what they have in common.
--   * Auth: AuthService (modules/auth/auth.service.ts of the gateway). Lockout is about failed
--     logins, Races about logins that overlap, Sessions about tokens, Renewals about renewals
--     that overlap, Confirmation about addresses, Visits about browsers and the time that is left
--     of a lock, Captcha is CaptchaService.
--   * Http: AuthController and the two strategies (modules/auth/auth.controller.ts, strategies)
--     with the cookies that a browser keeps; Sessions and Logout have the theorems.
--   * Deals: DealsService (modules/deals of the gateway). Data has the tables and private
--     helpers, Methods what creates, edits and deletes deals, Stages the state machine of the
--     stages, Reminders the processor of the reminders; Transitions, Responsibles, Assigned and
--     Shown have the theorems. What a method sends to the notifications service is part of its
--     result.
--   * Tasks: TasksService and the processor of its reminders (apps/tasks-service/src/tasks).
--     Changes, Reminders and Listing have the theorems.
--   * Notifications: NotificationsService
--     (apps/notifications-service/src/notifications/notifications.service.ts). Its handlers take
--     the events of Tasks and Deals; Inbox has the theorems on reading and deleting, Mine the
--     list of a user's notifications.
--   * Delivery: Tasks, Deals and Notifications together. Their calls put events into the queue of
--     notifications-service, whose handlers put rows into the inbox and into the queue of the
--     gateway, which pushes them; a queue gives its messages in any order. Told and Drained are
--     about all histories, Assigned follows one call to the users' screens.
--   * Realtime: the sockets of the browser, ChatGateway with the pushes of ChatController and the
--     connections of NotificationsGateway. Cookies and Headers are about the header of the
--     cookies, Rooms, Private and Twice about who receives what and how often, Refusals about
--     connections that fail.
--   * Chat: ChatService (modules/chat/chat.service.ts of the gateway). Unread is about the counts
--     of unread messages, Reading about sending and reading, Counters has the specification that
--     the table of messages implements.
--   * Wake: how the gateway waits for a notifications service that sleeps
--     (libs/shared/src/utils/rpc.util.ts and modules/notifications/notifications.controller.ts).
--     Budget bounds the time.
--   * Throttle: RedisThrottlerStorage (common/throttle/redis-throttler.storage.ts of the
--     gateway). Window counts what a window lets through, Expiry is about a window that never
--     ends.
--   * Users, Customers, Comments: modules/users, modules/customers and modules/comments of the
--     gateway, with a module for each of their theorems. The search for users of the chat is in
--     Users.
--   * Demo: clearDemoData (libs/database/src/demo-seed.ts) and the nightly reset of DemoService
--     (modules/demo/demo.service.ts of the gateway). Its database is made of the rows of the
--     other parts. Exact and References are about what a reset deletes, Midnight about when it
--     runs, Schedule about its timer.
--   * NullBytes: RejectNullBytesInterceptor (common/interceptors of the gateway) on parsed JSON.
--   * Examples: the theorems applied at concrete inputs.
--
-- Conventions
--   A method takes the state and returns its value with the new state, or the exception. Prisma's
--   calls are operations on lists of rows. Uuids, and texts that are only compared, are numbers;
--   uuids, the time and random bytes that a call draws are arguments. Money is in integers of
--   1/100000 (Billing.Money), so amounts and totals have at most five decimals. Sums of whole
--   hundredths are exact, as `round2` makes those of the doubles; where an amount need not be
--   whole, what `round2` makes of the doubles is a field of `Env` with the hypothesis `Nearest`,
--   which leaves open what becomes of a value halfway between two hundredths. What PostgreSQL
--   documents about the rounding of a column is the hypothesis `Rounds`. Times are milliseconds
--   from 1970, and a difference that would be negative is compared before it is taken. Only the
--   wait of Wake has fuel, one unit for each millisecond of the budget; a round takes more than
--   one, so the fuel is never used up. All other recursion is structural. Redis is the parameter
--   of Throttle, with the laws `IsRedis`; what PostgreSQL does in a search is `Matching` of Users,
--   and the clock of a time zone an argument of Demo.Midnight. Texts that are taken apart are
--   lists of their characters' codes (Prelude.Text). argon2, the JWT service and the captcha are
--   the parameter `Library` of Auth; the verification of tokens is `Jwt` in Http and, with
--   decodeURIComponent, `Library` in Realtime.
--
-- Not modelled
--   The rows of the seed of the demonstration, e-mail, the controllers and proxies that only pass
--   a call on, the validation of requests by class-validator (but that of a profile, in
--   Users.Validation), reads that only assemble rows for display, what the cache of the list of
--   tasks keeps, start-up, migrations. Failures of the database or of the message broker are left
--   out, except for writes to missing rows, foreign keys of a reset and the wait of Wake.
pub mod Prelude
pub mod Shared
pub mod Billing
pub mod Auth
pub mod Tasks
pub mod Notifications
pub mod Deals
pub mod Chat
pub mod Wake
pub mod Throttle
pub mod Users
pub mod Customers
pub mod Comments
pub mod Demo
pub mod Realtime
pub mod Http
pub mod Delivery
pub mod NullBytes
mod Examples
