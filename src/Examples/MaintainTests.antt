-- ===== src/Examples/MaintainTests.antt =====
-- A concrete instance for the scan of the connections: one session owns its slot, one has lost it, one is
-- silent, and one is closed.
use cpp_chat.Base.{
  Text, bytes, text_eq, ℤ, pos, digits, to_string, ◌≡◌, refl, Bool, true, false, List, [], ◌∷◌,
}
use cpp_chat.Redis.{answered}
use cpp_chat.Redis.Store.{store_redis, empty_store, Store}
use cpp_chat.Leases.{
  desktop, device_key, user_session, resource_token, refresh_script, refresh_session,
}
use cpp_chat.Session.{new_session}
use cpp_chat.Server.Maintain.{maintain_session, maintain_sessions, Member}

abbrev member : Text → ℤ → Bool → Bool → Member
member id uid expired closed = record {
  id = id;
  session = record new_session { user_id = uid; closed = closed };
  expired = expired;
  ends = (answered, answered);
}

abbrev members : List Member
members =
    member (bytes "s1") (pos 7) false false
    ∷ member (bytes "s2") (pos 8) false false
    ∷ member (bytes "s3") (pos 0) true false
    ∷ member (bytes "s4") (pos 9) true true
    ∷ []

abbrev leases : Store
leases = store_redis.set_for (user_session (device_key (pos 7) desktop)) (bytes "s1") 3600 (
    store_redis.set_for (resource_token (device_key (pos 7) desktop)) (bytes "t1") 3600 empty_store)

closed_ids : (maintain_sessions store_redis 9 members leases).1 ≡ bytes "s2" ∷ bytes "s3" ∷ []
unfolding maintain_sessions maintain_session refresh_session refresh_script text_eq to_string digits
closed_ids = refl
