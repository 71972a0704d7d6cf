-- ===== src/Lib.antt =====
-- BarberBookings: appointments of barbers at one or more locations, what they cost and who is paid,
-- and who may do what.
--
-- The parts and how they interact. The storage (server/storage.ts) keeps the tables; routes call its
-- methods to create, move, change and cancel appointments, and most of these leave notification
-- events for a worker to send. Completing an appointment freezes the compensation rule of its barber
-- on the row (server/appointment-finance.ts), and the finances of any list of appointments are
-- computed from the rows, the extras and the rules. Access (shared/auth) turns the scopes of a user
-- into the capabilities that the guards of the routes (server/auth-authorization.ts) ask for. The
-- booking page computes the free slots from the public list of appointments; a booking goes to the
-- storage, which checks it again. Workers and webhooks share the outbox of the events call by call.
--
-- Which file models which part:
--   Schema, Schema/*: the enumerations and rows of shared/schema.ts.
--   Storage/State to Storage/Service: `MemoryStorage` of server/storage.ts, a record of its tables
--     and counters. A method is a function from the storage to a `Run`: it returns or throws, and both
--     carry the storage as the method left it. `createAppointments` is create_appointments (Create),
--     `createRecurringAppointmentSeries` is in Series, `updateAppointment`, `rescheduleAppointment`,
--     `cancelAppointment` and the changes of a status are in Change,
--     `updateAppointmentWithNotification` in Notify, the conflict check in Conflict, extras in Extras,
--     patches in Patch, `deleteService` in Service. Storage/Calls lists them as calls and has the
--     storages that sequences of calls reach, and Storage/History/Runs the sequences. The other files
--     of Storage hold proofs.
--   Finance/Rules, Amounts, Base, ChairRent, Totals: server/appointment-finance.ts.
--   Calendar: the dates of `Date.UTC` that these parts use; Calendar/Text their texts.
--   Access/Capabilities, Access/Scopes: shared/auth. Access/Validation: the schemas of scopes in
--     shared/auth/user-management.ts. Access/Middleware: server/auth-authorization.ts; a guard is a
--     function to a reply. Access/Grants, Validated and Replies hold proofs.
--   Availability, Availability/Slots: client/src/lib/availability.ts; Availability/Booked has the
--     public list of appointments of server/routes.ts. The other files of Availability hold proofs.
--   Terms: shared/appointment-service-terms.ts, service-location-terms.ts, appointment-completion.ts.
--   TimeZone: server/calendar-timezone.ts and the client's `calendarTimeInTimeZone`; Reminders:
--     server/appointment-reminders.ts.
--   RateLimit: server/auth-rate-limit.ts; the map is a list of items, a call takes the clock.
--   Delivery, Delivery/Columns: the claims of events in `MemoryStorage`; Delivery/Calls has them
--     as calls that may interleave. Delivery/Receipts: the statuses of server/meta-webhook.ts.
--     Delivery/Inbox: receipts and automatic replies in `MemoryStorage`. Verification: its codes for
--     a phone.
--   Notification, Notification/Effects, Email, Messages, Reconcile, Recurring, Worker: the worker of
--     server/appointment-notifications.ts, with the receipts that it reconciles (server/meta-webhook.ts).
--     A function is the tree of its runs, which stop at each `await` for an answer. Notification/System
--     has any number of runs that interleave. Notification/Guarded, Budget, Spending and Once hold
--     proofs.
--   Booking: shared/booking-slot-interval.ts, the start times on offer.
--   Expenses: shared/business-expense-recurrence.ts, the dates of recurring expenses.
--   Expenses/SeriesState: `setRecurringExpenseSeriesState` of server/recurring-expenses.ts, on the rows
--     of one series; the locks and the roll-back of a transaction are the database's.
--   Window: shared/public-booking-window.ts, the dates that the public may book.
--   Common: shared helpers; Examples: concrete runs.
--
-- Choices. Instants are milliseconds since 1970, money is whole cents, and an amount that can be
-- negative is an integer. A call reads the clock once. Loops are structural recursion; the search
-- for the year of a date has the day number as fuel, more than there are years before it, and a
-- loop that counts up to a stop (Common/Steps) has the stop as fuel, as a round counts up by one
-- or more. The time zone of the shop, which the code asks `Intl` for, is a parameter, and so is
-- the list of service prices. The loop of `calendarDateTimeToInstant` has its own 6 rounds as
-- fuel; the search for a free date has the end of the range plus one, and each round takes one
-- day. The loop of the notification worker has its own 25 rounds.
--
-- Not modelled: the other functions of server/recurring-expenses.ts; `DatabaseStorage`, whose
-- statements run in PostgreSQL; the HTTP layer beyond the guards and the public list; the timer of
-- the notification worker and the senders of messages; the tables of barbers, catalogue, notes and
-- expenses; the pages of the web client; scripts and migrations.
pub mod Access
pub mod Availability
pub mod Booking
pub mod Calendar
pub mod Common
pub mod Delivery
pub mod Examples
pub mod Expenses
pub mod Finance
pub mod Notification
pub mod RateLimit
pub mod Reminders
pub mod Schema
pub mod Storage
pub mod Terms
pub mod TimeZone
pub mod Verification
pub mod Window
