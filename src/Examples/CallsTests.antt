-- ===== src/Examples/CallsTests.antt =====
-- Concrete instances for calls: user 1 on the desktop calls user 2 on the phone.
use cpp_chat.Base.{
  ltb, bytes, text_eq, pos, digits, to_string, ℕ, ◌+◌, ◌-◌, ◌*◌, ◌/◌, min, ◌≡◌, refl, ◌≢◌, ◌⊎◌,
  true, false, some, [], arith,
}
use cpp_chat.Redis.{answered}
use cpp_chat.Redis.Store.{store_redis, empty_store, store_redis-IsRedis, Store}
use cpp_chat.Leases.{desktop, android, valid_device, device_key, user_session}
use cpp_chat.Calls.{
  is_first, take_media, act, decide, Numbers, Action, invite, accept, frame, active, Call, Request,
  refuse, update,
}
use cpp_chat.Calls.Script.{new_call, voice_script, voice_transition, Codec}
use cpp_chat.Calls.Replay.{IsParty, decide-IsParty}
use cpp_chat.Calls.Runs.{no_replay, start}
use cpp_chat.Calls.Invite.{voice_transition-Invited, Invited}

-- Milliseconds, with credits in thousandths.
abbrev numbers : Numbers
numbers = record {
  Num = ℕ;
  num = λ n. n * 1000;
  thousandths = λ n. n;
  plus = λ a b. a + b;
  minus = λ a b. a - b;
  times = λ a b. a * b / 1000;
  least = min;
  less = ltb;
}

abbrev request : Action → ℕ → Request
request action n = record {
  uid = pos 1;
  peer = pos 2;
  session = bytes "s1";
  call = bytes "c";
  action = action;
  sequence = n;
  wants_video = false;
  camera_enabled = true;
  device = desktop;
  peer_device = android;
  peer_session = [];
}

-- The same call, as the callee sees it.
abbrev reply : Action → Request
reply action = record {
  uid = pos 2;
  peer = pos 1;
  session = bytes "s2";
  call = bytes "c";
  action = action;
  sequence = 0;
  wants_video = false;
  camera_enabled = true;
  device = android;
  peer_device = desktop;
  peer_session = [];
}

abbrev ringing_call : Call ℕ
ringing_call = new_call numbers 1000 (request invite 0) (bytes "s2")

abbrev active_call : Call ℕ
active_call = record ringing_call { stage = active; ta = 2000; tb = 2000 }

abbrev call_with_frame : Call ℕ
call_with_frame = record active_call {
  ta = 3000;
  audio_a = record { sequence = 5; last = some 3000; credit = some 9000 };
}

answer_taken :
    decide numbers 2000 (reply accept) (bytes "s1") ringing_call ringing_call ≡ update active_call
unfolding decide text_eq
answer_taken = refl

frame_taken :
    decide numbers 3000 (request frame 5) (bytes "s2") active_call active_call
    ≡ update call_with_frame
unfolding decide take_media text_eq
frame_taken = refl

decide-IsParty_example :
    ((code : ℕ) × (decide numbers 3000 (request frame 5) (bytes "s2") active_call active_call
        ≡ refuse code))
    ⊎ (IsParty numbers (request frame 5) (bytes "s2") active_call
        × (decide numbers 3000 (request frame 5) (bytes "s2") active_call active_call
            ≡ act numbers
                (is_first (request frame 5) active_call)
                3000
                (request frame 5)
                frame
                active_call))
decide-IsParty_example =
    decide-IsParty numbers 3000 (request frame 5) (bytes "s2") active_call active_call

no_replay_example :
    decide numbers 3100 (request frame 5) (bytes "s2") call_with_frame call_with_frame
    ≢ update call_with_frame
no_replay_example =
    no_replay numbers false 3000 3100 (request frame 5) (request frame 5) (bytes "s2") (bytes "s2")
      active_call active_call call_with_frame call_with_frame call_with_frame refl frame_taken start
      refl refl (omega arith) call_with_frame

-- A call's text is its id; what is read back is the active call of that id.
abbrev codec : Codec ℕ
codec = record { encode = λ c. c.id; decode = λ t. some (record active_call { id = t }) }

abbrev both_online : Store
both_online =
    store_redis.set_for (user_session (device_key (pos 1) desktop)) (bytes "s1") 3600 (
      store_redis.set_for (user_session (device_key (pos 2) android)) (bytes "s2") 3600 empty_store)

abbrev calling : Store
calling =
    (voice_transition store_redis numbers codec answered 1000 (request invite 0) both_online).0

voice_transition-Invited_example :
    Invited store_redis store_redis-IsRedis numbers codec 1000
      (request invite 0)
      both_online
      calling
unfolding voice_transition voice_script valid_device text_eq to_string digits
voice_transition-Invited_example =
    voice_transition-Invited store_redis store_redis-IsRedis numbers codec 1000 (request invite 0)
      both_online refl refl
