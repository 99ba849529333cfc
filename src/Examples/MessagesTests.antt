-- ===== src/Examples/MessagesTests.antt =====
-- Concrete instances for messages, contact tags and the metrics log.
use cpp_chat.Base.{
  Text, bytes, pos, ℕ, ◌+◌, ◌-◌, max, ◌≡◌, refl, true, false, none, some, List, [], ◌∷◌,
}
use cpp_chat.Leases.{success}
use cpp_chat.Executor.{no_metrics, Doubles}
use cpp_chat.Messages.{Message, Services, Shown}
use cpp_chat.ContactTags.{string, Input, array}
use cpp_chat.MetricsLog.{check, warning, Policy}
use cpp_chat.MetricsLog.Spacing.{reports, Check}

abbrev upload_id : Text
upload_id = bytes "00112233445566778899aabbccddeeff"

abbrev services : Services
services = record {
  get_group = λ actor thread. 1018;
  check_friendship = λ actor other. success;
  redis_get = λ key. some (bytes "file:1:2:77");
  add_chat_msg = λ ms. true;
}

abbrev sent : Message
sent = record {
  message_id = pos 0;
  thread_id = pos 9;
  sender_id = pos 1;
  recv_id = pos 2;
  unique_id = bytes "u";
  content = upload_id;
  chat_time = [];
  status = pos 0;
  msg_type = pos 2;
  media_size = 0;
}

abbrev saved : List Message
saved = record sent { media_size = 77 } ∷ []

abbrev voice : Shown
voice = record {
  msg_type = pos 3;
  content = upload_id;
  msg_content = upload_id;
  media_size = 32044;
  media_format = none;
  duration_ms = none;
}

abbrev upgrade : Text
upgrade = bytes "upgrade"

abbrev typed : Input
typed = array (string (bytes " work ") ∷ string (bytes "work") ∷ string (bytes "home") ∷ [])

abbrev tags : List Text
tags = bytes "work" ∷ bytes "home" ∷ []

abbrev doubles : Doubles
doubles = record {
  Double = ℕ;
  zero_ms = 0;
  plus = λ a b. a + b;
  maximum = max;
  millis = λ a b. a - b;
}

abbrev policy : Policy ℕ
policy = record {
  reported = no_metrics doubles;
  last_summary = 0;
  last_warning = 0;
  interval = 300;
  warned = false;
}

-- A failure, a second one after 30 seconds, and the same state after 70.
abbrev checks : List (Check ℕ)
checks =
    record { now = 10; current = record (no_metrics doubles) { failed = 1 } }
    ∷ record { now = 40; current = record (no_metrics doubles) { failed = 2 } }
    ∷ record { now = 80; current = record (no_metrics doubles) { failed = 2 } }
    ∷ []

two_warnings : reports 1 checks policy ≡ (10, warning) ∷ (80, warning) ∷ []
unfolding reports check
two_warnings = refl
