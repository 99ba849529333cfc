-- ===== src/Calls/Script.antt =====
-- VoiceTransition on Redis (ChatServerShared/RedisMgr.cpp): the keys of a call and their updates.
use cpp_chat.Base.{
  ◌==◌, if◌then◌else◌, length, is_some, Text, bytes, text_eq, ℤ, to_string, ℕ, Bool, true, false,
  not, ◌&&◌, ◌||◌, Option, none, some, ◌++◌,
}
use cpp_chat.Redis.{Redis, Fate, answered, not_run, reply_lost}
use cpp_chat.Leases.{
  success, token_invalid, redis_error, valid_device, device_key, user_session, holds,
}
use cpp_chat.Calls.{
  voice_busy, voice_offline, voice_invalid, voice_rate_limited, lease_seconds, or_else, decide,
  Numbers, Action, invite, ringing, Lane, Call, Request, Verdict, refuse, finish, update,
}

-- cjson.encode and cjson.decode; `none` is a decoding error, which ends the script.
pub record Codec (Num : Type 0) : Type 0 where
  pub encode : Call Num → Text
  pub decode : Text → Option (Call Num)

abbrev pub voice_key : ℤ → Text
voice_key uid = bytes "voice:" ++ to_string uid

abbrev pub rate_key : ℤ → Text
rate_key uid = bytes "voice-rate:" ++ to_string uid

abbrev pub is_invite : Action → Bool
is_invite invite = true
is_invite op = false

module _ (N : Numbers) where
  open N use {Num}

  abbrev pub new_lane : Lane Num
  new_lane = record { sequence = 0; last = none; credit = none }

  abbrev pub new_call : Num → Request → Text → Call Num
  new_call now r ps = record {
    id = r.call;
    a = r.uid;
    b = r.peer;
    sa = r.session;
    sb = ps;
    da = r.device;
    db = r.peer_device;
    stage = ringing;
    has_video = r.wants_video;
    ea = true;
    eb = true;
    ta = now;
    tb = now;
    audio_a = new_lane;
    audio_b = new_lane;
    video_a = new_lane;
    video_b = new_lane;
  }

module _ (R : Redis) (N : Numbers) (codec : Codec N.Num) where
  open R use {State, get, set_for, del}
  open N use {Num}
  open codec use {encode, decode}

  abbrev pub write_both : Text → ℕ → Request → State → State
  write_both v seconds r s =
      set_for (voice_key r.peer) v seconds (set_for (voice_key r.uid) v seconds s)

  -- op=='invite'
  abbrev pub invite_call : Num → Request → Text → State → State × Option ℕ
  invite_call now r ps s =
      if is_some (get (voice_key r.uid) s) || is_some (get (voice_key r.peer) s)
      then (s, some voice_busy)
      else if is_some (get (rate_key r.uid) s)
      then (s, some voice_rate_limited)
      else (
        set_for (rate_key r.uid) (bytes "1") 3 (write_both (encode (new_call N now r ps)) 40 r s),
        some success,
      )

  abbrev pub settle : Verdict Num → Request → State → State × Option ℕ
  settle (refuse code) r s = (s, some code)
  settle (finish code) r s = (del (voice_key r.peer) (del (voice_key r.uid) s), some code)
  settle (update c) r s = (write_both (encode c) lease_seconds r s, some success)

  abbrev pub use_decoded :
      Num → Request → Text → Option (Call Num) → Option (Call Num) → State → State × Option ℕ
  use_decoded now r ps (some c) (some d) s = settle (decide N now r ps c d) r s
  use_decoded now r ps none d s = (s, none)
  use_decoded now r ps (some c) none s = (s, none)

  abbrev pub use_call : Num → Request → Text → Option Text → Option Text → State → State × Option ℕ
  use_call now r ps (some raw) (some raw') s = use_decoded now r ps (decode raw) (decode raw') s
  use_call now r ps none raw' s = (s, some voice_invalid)
  use_call now r ps (some raw) none s = (s, some voice_invalid)

  abbrev pub with_peer : Num → Request → Option Text → State → State × Option ℕ
  with_peer now r none s = (s, some voice_offline)
  with_peer now r (some ps) s =
      if not (length r.peer_session == 0) && not (text_eq ps r.peer_session)
      then (s, some token_invalid)
      else if is_invite r.action
      then invite_call now r ps s
      else use_call now r ps (get (voice_key r.uid) s) (get (voice_key r.peer) s) s

  -- The script; `now` is Redis's TIME, `none` an error reply.
  unfoldable pub voice_script : Num → Request → State → State × Option ℕ
  voice_script now r s =
      if not (holds (get (user_session (device_key r.uid r.device)) s) r.session)
      then (s, some token_invalid)
      else with_peer now r (get (user_session (device_key r.peer r.peer_device)) s) s

  -- The result of Evaluate, or RedisError without one.
  abbrev pub evaluated : Fate → State × Option ℕ → State → State × ℕ
  evaluated answered (t, result) s = (t, or_else result redis_error)
  evaluated not_run r s = (s, redis_error)
  evaluated reply_lost (t, result) s = (t, redis_error)

  -- VoiceTransition.
  unfoldable pub voice_transition : Fate → Num → Request → State → State × ℕ
  voice_transition fate now r s =
      if not (valid_device r.device) || not (valid_device r.peer_device)
      then (s, token_invalid)
      else evaluated fate (voice_script now r s) s
