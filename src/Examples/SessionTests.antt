-- ===== src/Examples/SessionTests.antt =====
-- Concrete instances for the TCP session.
use cpp_chat.Base.{
  any_by, Prefix, Text, bytes, ℤ, pos, ◌≡◌, refl, ◌⊎◌, true, false, List, [], ◌∷◌, ◌++◌, map,
}
use cpp_chat.Session.{
  new_session, bind_authenticated_user, close_here, is_empty, send, notify_offline, handle_write,
  run_job,
}
use cpp_chat.Session.Steps.{step, run, Event, sends, notifies_offline, binds, runs, write_ends}
use cpp_chat.Session.Delivery.{accepted_in, run-in_order}
use cpp_chat.Session.Wakeup.{starts, run-no_lost_wakeup}
use cpp_chat.Session.Closing.{run-new-Ends, Ends}

abbrev offline : ℤ → Text
offline uid = bytes "off"

-- A login, two messages, a kick, and the strand's jobs.
abbrev history : List Event
history =
    binds (pos 5) (bytes "android")
    ∷ sends (1 ∷ 2 ∷ []) 1024
    ∷ sends (3 ∷ []) 1018
    ∷ runs 0 10
    ∷ write_ends false
    ∷ notifies_offline (pos 5)
    ∷ sends (4 ∷ []) 1018
    ∷ write_ends false
    ∷ runs 0 11
    ∷ write_ends false
    ∷ []

run-in_order_example :
    let s = run offline history new_session in
    Prefix s.wire (accepted_in offline history new_session)
    × ((s.closed ≡ true) ⊎ (s.wire ++ s.send_queue ≡ accepted_in offline history new_session))
run-in_order_example = run-in_order offline history

run-no_lost_wakeup_example :
    let s = run offline history new_session in
    (s.closed ≡ true)
    ⊎ (is_empty s.send_queue ≡ true)
    ⊎ (s.write_active ≡ true)
    ⊎ (any_by starts s.jobs ≡ true)
run-no_lost_wakeup_example = run-no_lost_wakeup offline history

run-new-Ends_example : Ends (run offline history new_session)
run-new-Ends_example = run-new-Ends offline history

-- The kicked session has sent its messages and the notice, is closed, and was cleaned up for user 5.
history_end :
    let s = run offline history new_session in
    (map (λ n. n.message_id) s.wire ≡ 1024 ∷ 1018 ∷ 1021 ∷ [])
    × (s.closed ≡ true)
    × (s.cleanups ≡ pos 5 ∷ [])
unfolding run step bind_authenticated_user send notify_offline handle_write run_job close_here
history_end = (refl, refl, refl)
