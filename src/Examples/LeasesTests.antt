-- ===== src/Examples/LeasesTests.antt =====
-- Concrete instances for the session leases: user 7 logs in on the desktop with a pending token.
use cpp_chat.Base.{
  get_or, Text, bytes, text_eq, pos, digits, to_string, ◌≡◌, refl, ap, ◌≢◌, ◌⊎◌, none, some, List,
  [], ◌∷◌, arith,
}
use cpp_chat.Redis.{answered, not_run, reply_lost}
use cpp_chat.Redis.Store.{store_redis, empty_store, store_redis-IsRedis, Store}
use cpp_chat.Leases.{
  success, token_invalid, desktop, android, valid_device, device_key, user_session, user_ip,
  resource_token, token_key, register_script, register_session, refresh_script, refresh_session,
  release_script, release_session,
}
use cpp_chat.Leases.Keys.{valid_device-desktop, valid_device-android}
use cpp_chat.Leases.Release.{Unchanged, Gone, release_session-Unchanged}
use cpp_chat.Leases.Once.{register_session-once}
use cpp_chat.Leases.History.{
  step, run, last_login, Coherent, run-Coherent, Event, registers, refreshes, releases, issues,
  passes,
}

abbrev token : Text
token = bytes "t1"

abbrev issued : Store
issued = store_redis.set_for (token_key (pos 7) token) token 300 empty_store

abbrev logged_in : Store
logged_in =
    (register_session store_redis answered (pos 7) (bytes "s1") (bytes "n1") token desktop issued).0

login_succeeds :
    (register_session store_redis answered (pos 7) (bytes "s1") (bytes "n1") token desktop issued).1
    ≡ success
unfolding register_session register_script valid_device text_eq to_string digits
login_succeeds = refl

desktop_differs : android ≢ desktop
desktop_differs e = omega (arith, ap (λ t. get_or t 0 0) e)

no_phone : store_redis.get (resource_token (device_key (pos 7) android)) issued ≢ some token
unfolding text_eq to_string digits
no_phone e = absurd (cc e)

register_session-once_example :
    register_session store_redis answered (pos 7) (bytes "s2") (bytes "n2") token android logged_in
    ≡ (logged_in, token_invalid)
register_session-once_example =
    register_session-once store_redis store_redis-IsRedis (pos 7) desktop token (bytes "s1")
      (bytes "n1") android (bytes "s2") (bytes "n2") issued valid_device-desktop
      valid_device-android desktop_differs no_phone login_succeeds

release_session-Unchanged_example :
    let t = (release_session store_redis answered reply_lost (pos 7) (bytes "s0") logged_in).0 in
    Unchanged store_redis (device_key (pos 7) desktop) logged_in t
    ⊎ ((pos 7 ≡ pos 7)
        × (store_redis.get (user_session (device_key (pos 7) desktop)) logged_in
            ≡ some (bytes "s0"))
        × Gone store_redis (device_key (pos 7) desktop) t)
release_session-Unchanged_example =
    release_session-Unchanged store_redis store_redis-IsRedis answered reply_lost (pos 7) (pos 7)
      (bytes "s0") desktop logged_in valid_device-desktop

abbrev history : List Event
history =
    issues (bytes "7:t1") token 300
    ∷ registers answered (pos 7) (bytes "s1") (bytes "n1") token desktop
    ∷ passes 2000
    ∷ refreshes answered not_run (pos 7) (bytes "s1")
    ∷ registers reply_lost (pos 7) (bytes "s2") (bytes "n2") token desktop
    ∷ releases answered answered (pos 7) (bytes "s1")
    ∷ []

run-Coherent_example :
    Coherent store_redis
      (device_key (pos 7) desktop)
      (last_login store_redis (device_key (pos 7) desktop) history empty_store none)
      (run store_redis history empty_store)
run-Coherent_example =
    run-Coherent store_redis store_redis-IsRedis (device_key (pos 7) desktop) history empty_store
      (refl, refl, refl)

-- The second login replaced the first, and the late release of the first left it alone.
history_end :
    store_redis.get (user_ip (device_key (pos 7) desktop)) (run store_redis history empty_store)
    ≡ some (bytes "n2")
unfolding run step register_session register_script refresh_session refresh_script release_session
    release_script valid_device text_eq to_string digits
history_end = refl
