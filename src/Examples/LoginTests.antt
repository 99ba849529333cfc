-- ===== src/Examples/LoginTests.antt =====
-- Concrete instances for the login: user 7 logs in on the desktop, while an older session is there.
use cpp_chat.Base.{Text, bytes, text_eq, pos, digits, to_string, ◌≡◌, refl, ◌≢◌, true, none, some}
use cpp_chat.Redis.{answered}
use cpp_chat.Redis.Store.{store_redis, empty_store, store_redis-IsRedis, Store}
use cpp_chat.Leases.{
  success, desktop, valid_device, device_key, user_ip, token_key, read, register_script,
  register_session,
}
use cpp_chat.Session.{new_session, bind_authenticated_user, notify_offline}
use cpp_chat.Login.{find_credential, log_in_locked, log_in, Node, World, matched}
use cpp_chat.Login.Outcome.{log_in-LoggedIn, LoggedIn}

abbrev token : Text
token = bytes "t1"

abbrev world : World Store
world = record {
  status = (success, token);
  user_found = true;
  applications = success;
  friends = success;
  lock_taken = true;
  credential_reads = (answered, answered, answered);
  route_read = answered;
  health_read = answered;
  kick = success;
  register_end = answered;
  release_ends = (answered, answered);
  offline_body = λ uid. bytes "off";
  before_lock = λ n. n;
  before_bind = λ n. n;
}

abbrev node : Node Store
node = record {
  redis =
      store_redis.set_for (token_key (pos 7) token) token 300
        (store_redis.set_for (user_ip (device_key (pos 7) desktop)) (bytes "n1") 3600 empty_store);
  session = new_session;
  occupant = some (bytes "s0", new_session);
  retired = none;
}

login_succeeds :
    (log_in store_redis world (pos 7) token desktop (bytes "s1") (bytes "n1") node).0 ≡ success
unfolding log_in log_in_locked find_credential read register_session register_script
    bind_authenticated_user notify_offline valid_device text_eq to_string digits
login_succeeds = refl

log_in-LoggedIn_example :
    (find_credential store_redis world (pos 7) token desktop node.redis ≡ matched)
    × (k : Node Store) × LoggedIn store_redis store_redis-IsRedis world
        (pos 7)
        token
        desktop
        (bytes "s1")
        (bytes "n1")
        k
        (log_in store_redis world (pos 7) token desktop (bytes "s1") (bytes "n1") node).1
log_in-LoggedIn_example =
    log_in-LoggedIn store_redis store_redis-IsRedis world (pos 7) token desktop (bytes "s1")
      (bytes "n1") node login_succeeds

wrong_token : find_credential store_redis world (pos 7) (bytes "t2") desktop node.redis ≢ matched
unfolding find_credential read text_eq to_string digits
wrong_token e = absurd (cc e)
