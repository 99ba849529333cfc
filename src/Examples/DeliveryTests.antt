-- ===== src/Examples/DeliveryTests.antt =====
-- Concrete instances for the delivery of messages: user 7 is on the desktop at this node and on the phone
-- at another.
use cpp_chat.Base.{
  if◌then◌else◌, bytes, text_eq, pos, digits, to_string, ◌≡◌, refl, true, false, not, ◌&&◌, none,
  List, [], ◌∷◌, map,
}
use cpp_chat.Redis.Store.{store_redis, empty_store, Store}
use cpp_chat.Leases.{success, desktop, android, device_key, user_ip, destinations}
use cpp_chat.Messages.{present_message, Message, Services, Shown}
use cpp_chat.Messages.Delivery.{
  get_sessions, text_request, notify, deliver, Target, Sent, notified, forwarded,
}
use cpp_chat.Messages.Reach.{notices, requests_to, is_routed, may_receive, deliver-reaches}

abbrev services : Services
services = record {
  get_group = λ actor thread. 1018;
  check_friendship = λ actor other. success;
  redis_get = λ key. none;
  add_chat_msg = λ ms. true;
}

abbrev routes : Store
routes =
    store_redis.set_for (user_ip (device_key (pos 7) android)) (bytes "n2") 3600
      (store_redis.set_for (user_ip (device_key (pos 7) desktop)) (bytes "n1") 3600 empty_store)

abbrev message : Message
message = record {
  message_id = pos 4;
  thread_id = pos 9;
  sender_id = pos 1;
  recv_id = pos 7;
  unique_id = bytes "u";
  content = bytes "hello";
  chat_time = [];
  status = pos 2;
  msg_type = pos 0;
  media_size = 0;
}

abbrev payload : List Shown
payload =
    record {
      msg_type = pos 0;
      content = bytes "hello";
      msg_content = bytes "hello";
      media_size = 0;
      media_format = none;
      duration_ms = none;
    }
    ∷ []

-- The session on the desktop, and one that is closed.
abbrev slots : List Target
slots =
    record { session_id = bytes "s1"; is_shut = false; voice_messages = true; file_messages = true }
    ∷ record {
      session_id = bytes "s0";
      is_shut = true;
      voice_messages = true;
      file_messages = true;
    }
    ∷ []

abbrev sent : List Sent
sent =
    deliver (bytes "f") (bytes "v") (bytes "n1") services (pos 1) (pos 7) (pos 9) (message ∷ [])
      payload (destinations store_redis true true (pos 7) routes) slots

both_reached :
    sent
    ≡ notified (bytes "s1") payload
      ∷ forwarded (bytes "n2") (text_request (pos 1) (pos 7) (pos 9) (message ∷ []))
      ∷ []
unfolding deliver destinations present_message text_eq to_string digits
both_reached = refl

deliver-reaches_example :
    (notices sent ≡ (
      if may_receive services (pos 1) (pos 7) (pos 9) (message ∷ [])
        && is_routed store_redis true true (pos 7) (bytes "n1") routes
      then map (notify (bytes "f") (bytes "v") payload) (get_sessions slots)
      else []))
    × (requests_to (bytes "n2") sent ≡ (
        if may_receive services (pos 1) (pos 7) (pos 9) (message ∷ [])
          && (not (text_eq (bytes "n2") (bytes "n1"))
              && is_routed store_redis true true (pos 7) (bytes "n2") routes)
        then text_request (pos 1) (pos 7) (pos 9) (message ∷ []) ∷ []
        else []))
deliver-reaches_example =
    deliver-reaches store_redis services (bytes "f") (bytes "v") (bytes "n1") true true (pos 1)
      (pos 7) (pos 9) (message ∷ []) payload slots (bytes "n2") routes refl refl
