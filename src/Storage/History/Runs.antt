-- ===== src/Storage/History/Runs.antt =====
-- Sequences of calls of the storage (server/storage.ts), and what they leave true of a row.
use barber_bookings.Common.{ℕ, List, [], ◌∷◌, All}
use barber_bookings.Schema.{Appointment, Instant}
use barber_bookings.Storage.State.{MemoryStorage, Run, finished, threw}
use barber_bookings.Storage.Invariant.{EndsIn}
use barber_bookings.Storage.Change.{status_patch}
use barber_bookings.Storage.Notify.{without_revision}
use barber_bookings.Storage.Calls.{
  Call, cancel, configure, create, create_series, end_state, perform, remove_service, reschedule,
  set_status, set_status_if, update, update_notified,
}
use barber_bookings.Storage.History.{Holds, Lasts, Permits}
use barber_bookings.Storage.History.Notified.{update_appointment_with_notification-Holds}
use barber_bookings.Storage.History.Steps.{
  cancel_appointment-Holds, create_appointments-Holds, create_recurring_appointment_series-Holds,
  delete_service-Holds, reschedule_appointment-Holds, update_appointment-Holds,
  update_appointment_status-Holds, update_appointment_status_if_current-Holds,
}

-- Calls in order, each at its time.
unfoldable pub perform_all : List (Instant × Call) → MemoryStorage → MemoryStorage
perform_all [] s = s
perform_all ((now, c) ∷ rest) s = perform_all rest (perform now c s)

module _ (id : ℕ) (P : Appointment → Type 0) where
  -- The patch of a call leaves `P` true of the row with the id.
  abbrev pub Respects : Call → Type 0
  Respects (update k p expected) = Permits id P k p
  Respects (update_notified k p notify expected extras at) = Permits id P k (without_revision p)
  Respects (set_status k status method) =
      (now : Instant) (s : MemoryStorage) → Permits id P k (status_patch now k status method s)
  Respects (set_status_if k from to method) =
      (now : Instant) (s : MemoryStorage) → Permits id P k (status_patch now k to method s)
  Respects _ = Unit

end_of_EndsIn : {A : Type 0} (Q : MemoryStorage → Type 0) (m : Run A) → EndsIn Q m → Q (end_state m)
end_of_EndsIn Q (finished a t) q = q
end_of_EndsIn Q (threw e t) q = q

module _ (id : ℕ) (P : Appointment → Type 0) (lasts : Lasts P) where
  perform-Holds :
      (now : Instant) (c : Call) (s : MemoryStorage)
      → Respects id P c
      → Holds id P s
      → Holds id P (perform now c s)
  unfolding perform
  perform-Holds now (create rs) s q h =
      end_of_EndsIn (Holds id P) _ (create_appointments-Holds id P lasts now rs s h)
  perform-Holds now (create_series r) s q h =
      end_of_EndsIn (Holds id P) _ (create_recurring_appointment_series-Holds id P lasts now r s h)
  perform-Holds now (update k p expected) s q h =
      end_of_EndsIn (Holds id P) _ (update_appointment-Holds id P lasts now k p expected s q h)
  perform-Holds now (update_notified k p notify expected extras at) s q h =
      end_of_EndsIn (Holds id P) _ (
        update_appointment_with_notification-Holds id P lasts now k p notify expected extras at s q
          h)
  perform-Holds now (reschedule k revision start at) s q h =
      end_of_EndsIn (Holds id P) _
        (reschedule_appointment-Holds id P lasts now k revision start at s h)
  perform-Holds now (cancel k late) s q h =
      end_of_EndsIn (Holds id P) _ (cancel_appointment-Holds id P lasts now k late s h)
  perform-Holds now (set_status k status method) s q h =
      end_of_EndsIn (Holds id P) _
        (update_appointment_status-Holds id P lasts now k status method s (q now s) h)
  perform-Holds now (set_status_if k from to method) s q h =
      end_of_EndsIn (Holds id P) _
        (update_appointment_status_if_current-Holds id P lasts now k from to method s (q now s) h)
  perform-Holds now (remove_service k) s q h =
      end_of_EndsIn (Holds id P) _ (delete_service-Holds id P lasts now k s h)
  perform-Holds now (configure definitions rules) s q h = h

  -- What lasts over each call lasts over all.
  pub perform_all-Holds :
      (calls : List (Instant × Call)) (s : MemoryStorage)
      → All (λ x. Respects id P x.1) calls
      → Holds id P s
      → Holds id P (perform_all calls s)
  unfolding perform_all
  perform_all-Holds [] s q h = h
  perform_all-Holds ((now, c) ∷ rest) s q h =
      perform_all-Holds rest (perform now c s) q.1 (perform-Holds now c s q.0 h)
