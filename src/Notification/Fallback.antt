-- ===== src/Notification/Fallback.antt =====
-- The order of events in a fallback to e-mail (server/appointment-notifications.ts), as the states that
-- a run may be in.
use barber_bookings.Common.{Bool, false, Option, ◌≡◌, if◌then◌else◌}
use barber_bookings.Schema.Events.{RecurringNotificationSnapshot}
use barber_bookings.Delivery.{is_email_sent}
use barber_bookings.Delivery.Columns.{DeliveryRow}
use barber_bookings.Notification.Effects.{
  Answer, Effect, Program, await, get_appointment, get_series, pure, send_email, send_whatsapp,
}
use barber_bookings.Notification.{Channel, email, is_current_event, is_current_found, no_channel}
use barber_bookings.Notification.Email.{email_result}

-- Nothing is known of the event; the last read showed it current; an e-mail went out, or failed.
pub data Stage : Type 0 where
  unconfirmed confirmed : Stage
  mailed : Bool → Stage

abbrev read_shows : Bool → Stage
read_shows current = if current then confirmed else unconfirmed

abbrev channel_for : Bool → Channel
channel_for sent = if sent then email else no_channel

-- What an answer shows, of an appointment or of a series.
abbrev pub Reader : Type 0
Reader = (e : Effect) → Answer e → Stage → Stage

abbrev pub appointment_reader : DeliveryRow → Reader
appointment_reader row (get_appointment id) a stage = read_shows (is_current_event a row)
appointment_reader row _ a stage = stage

abbrev pub series_reader : DeliveryRow → RecurringNotificationSnapshot → Reader
series_reader row snapshot (get_series id) found stage =
    read_shows (is_current_found row snapshot found)
series_reader row snapshot _ a stage = stage

module _ (row : DeliveryRow) (reads : Reader) where
  -- An e-mail goes out from `confirmed` alone and if the row shows none sent; the run returns "email" if
  -- the row shows one, or if the sender says that this one did; no WhatsApp message is sent.
  unfoldable pub Follows : Stage → Program Channel → Type 0
  Follows unconfirmed (pure c) = c ≡ channel_for (is_email_sent row.email_status)
  Follows confirmed (pure c) = c ≡ no_channel
  Follows (mailed sent) (pure c) = c ≡ channel_for sent
  Follows stage (await (send_whatsapp m) k) = ⊥
  Follows stage (await (send_email m) k) =
      (stage ≡ confirmed)
      × (is_email_sent row.email_status ≡ false)
      × ((a : Option _) → Follows (mailed (email_result a).sent) (k a))
  Follows stage (await e k) = (a : Answer e) → Follows (reads e a stage) (k a)
