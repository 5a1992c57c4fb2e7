-- ===== src/Lib.antt =====
-- Latache backend: the money of the Taskers, the calls of a conversation, the work on a booking,
-- and times of day.
--
-- Latache is a marketplace: customers book Taskers and pay by card, wallet or cash. This library
-- models the service that keeps what the platform owes a Tasker and what the Tasker owes the
-- platform, src/modules/tasker-finance/tasker-finance.service.ts, and the service for the voice and
-- video calls between the two participants of a booking,
-- src/modules/realtime/realtime-calls.service.ts, over the tables of prisma/schema.prisma. The
-- service by which a Tasker pays what is owed,
-- src/modules/tasker-finance/platform-payable-settlements.service.ts, works on the tables of the
-- first, and calls its applyPayableSettlement. The service for the proofs and codes of the work on
-- a booking is src/modules/bookings/booking-work-verification.service.ts, and requests for a time
-- outside a Tasker's listed hours are those of
-- src/modules/bookings/custom-time-requests.service.ts. The times of day, dates and offered hours
-- of src/common/utils stand for themselves.
--
-- A paid booking gives an earning, which waits in the pending balance until its clearance date and
-- until no dispute holds it. Its release pays the Tasker's debt first, oldest receivable first, and
-- makes the rest available. A cash booking gives a receivable, the platform's share of the cash
-- that the Tasker holds; the sum of the receivables is the debt of the Tasker's platform account,
-- and a debt above the configured limit keeps the Tasker from further cash bookings. Refunds
-- reverse earnings and receivables.
--
-- A call rings until its recipient accepts or rejects it, its initiator cancels it, or its time is
-- up; an accepted call is ended by a participant or by the system. Requests read a call first and
-- write later, in a transaction that tests the status again. The calls and the finances do not call
-- each other.
--
-- A Tasker pays the debt out of the wallet, by card, or by a transfer that the finance staff
-- approve or reject; the staff may record a payment too. A card payment is completed by an event of
-- Stripe, which may be delivered again, and which is honoured even for a payment that was cancelled
-- before.
--
-- A Tasker who arrived proves it with an image; a code that the Customer is given then starts the
-- work. An image of the completed work stops the timer, and a second code completes the booking. A
-- wrong code is counted, and too many of them make a new code necessary.
--
-- A customer who asks a Tasker for a custom time waits for the answer; an accepted request lets one
-- booking use that time within a short window, and requests that are not answered or used expire.
--
-- Files and code. A request is a function from the database and the request's arguments to a result:
-- a new database, or an error, which is the exception that rolls the transaction back.
--   Prelude       shared names; Prelude/Int signed amounts, Prelude/Rows rows of a table,
--                 Prelude/Results results of a request
--   Finance       the tables, the constants of tasker-finance.constants.ts and the errors
--   Finance/Entries      upserts of a wallet and an account, rows of the two ledgers with unique keys
--   Finance/Restriction  applyRestrictionPolicy, assertCashBookingAllowed, reconcileCashRestrictions
--   Finance/Payables     the loop over the open receivables, applyPayableSettlement
--   Finance/Release      releaseMatureEarning, creditPlanRevenueShare
--   Finance/Earnings     createPendingEarning, blockForDispute, unblockAfterDispute, earningAction
--   Finance/Cash         confirmCashCollection, markMatureCashReceivablesCleared
--   Finance/Refunds      applyRefundAdjustment, applyConfirmedCashRefundReceivableReversal
--   Finance/Refunds/Reimbursement, Finance/Refunds/Replay   its wallet, and the same refund again
--   Finance/Ledger       the invariant between an account and its receivables
--   Finance/Coverage     the invariant between a pending balance and the unreleased earnings
--   Finance/Tests        the theorems at sample rows
--   Calls         the tables of calls, notifications and outbox, the conditional update of a call
--   Calls/Handlers       finishRinging, finishSystemCall, the two expiries, and the requests on a call
--                        that was read before: accept, reject, cancel, end, signalTarget
--   Calls/Requests       initiate, requireCall, the whole requests, expireStaleCalls; sequences of
--                        transactions of any requests
--   Calls/Steps          what one transaction keeps
--   Calls/Opening, Calls/Exclusive, Calls/Races, Calls/Tests
--   Settlements   the rows of the payments, complete and payFromWallet
--   Settlements/Requests, Settlements/Reviews, Settlements/Webhook
--                        create and cancel; adminRecord, approve and reject; handleIntent
--   Settlements/Parts    what complete does
--   Settlements/Orderly  the invariant of the payments, what each request keeps, sequences of requests
--   Settlements/Life     the abstract machine of a payment's status, which all requests follow
--   Settlements/Outcomes what holds whatever the outcome of a request
--   Settlements/Wallet, Settlements/Once, Settlements/Delivery, Settlements/Tests
--   Work          the rows of a booking, its timer and its proofs; Work/Codes is matchesOtp
--   Work/Starting        attachFrontDoor, issueStartCode, startWork
--   Work/Finishing       attachCompletion, issueCompletionCode, finishWork
--   Work/Order           the order of the steps, what each request keeps, sequences of requests
--   Work/Path, Work/Path/Finish, Work/Tests
--   Times         the rows of requests for a time
--   Times/Requests       all operations of custom-time-requests.service.ts
--   Times/Single, Times/Single/Runs, Times/Use, Times/Tests
--   Clock         texts; Clock/Times is common/utils/time.util.ts, Clock/Dates date.util.ts, and
--                 Clock/Slots availability.util.ts; Clock/Tests
--   Clock/Times/RoundTrip, Clock/Times/Halves   what is printed is read back; bounds
--   Clock/Times/Overlap, Clock/Dates/Calendar, Clock/Slots/Apart
--
-- Numbers. Amounts are whole cents, as the columns are Decimal(14, 2) and `money` rounds to cents;
-- a comparison with half a cent of tolerance is then the comparison of cents. Balances that a
-- decrement can take below zero are signed. Times are milliseconds. The two products of floating
-- point numbers, a percentage and a pro rata share, are parameters `percent_of` and `prorate` of
-- which nothing is assumed. Recursion is over the lists of rows; only the digits of a number and
-- the days that Date.UTC carries to a later month take fuel, the number plus one and the day, which
-- is enough as each step divides by ten or takes a month's days off.
--
-- The database is a record. The locks of the service make the transactions on one Tasker and
-- booking serial, so a transaction is one step. An identifier that the database gives to a new row
-- is an argument. Receivables stand in the order in which the service reads them. The active
-- complaints and card disputes of a booking are numbers that the service counts.
--
-- The creation of a card payment and Stripe's answer to it are one request, though the service asks
-- Stripe after its transaction; the answer is an argument, an error's message already cut to the
-- column's length. Stripe gives each payment intent to one settlement, so the uniqueness of its
-- reference in the table is not modelled.
--
-- The digest of a code, an HMAC of node:crypto, is a parameter of Work; where a theorem needs it,
-- it is assumed to be 64 hexadecimal digits. The rows of a booking, its timer and its proofs have
-- the booking's identifier as a unique key, and are one record. The configured maximum of attempts
-- is a parameter. The statuses of a booking that the service does not name are one, elsewhere; an
-- event of the timer has no reason.
--
-- What the queries on the Tasker and the service answer to a request for a time is an argument, and
-- so are the candidates of the sweep. Of a pair of customer and Tasker, creations are serial by a
-- lock, so the partial unique index on pending requests is not modelled.
--
-- A text of Clock is the list of its UTF-16 units. The date of today and the minutes of the day so
-- far are arguments of the checks of offered hours.
--
-- A request on a call that throws may have written before, so it returns the database with its
-- answer. What a request read may be old: it is an argument, and a transaction works on the
-- database of its time. The identifiers that the queries of expireStaleCalls select are an argument
-- too.
--
-- Not modelled: the views (list and serialize functions), texts of notifications and descriptions,
-- the payloads of realtime events, the free texts of the reasons for which a call ended, the
-- metadata of audit rows, the conversions between texts and dates of date.util.ts, and the services
-- around these.
pub mod Prelude
pub mod Finance
pub mod Calls
pub mod Settlements
pub mod Clock
pub mod Work
pub mod Times
