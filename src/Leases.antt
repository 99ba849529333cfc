-- ===== src/Leases.antt =====
-- The session leases of RedisMgr (ChatServerShared/RedisMgr.cpp, ServicePolicy.h): registering,
-- refreshing, releasing and routing a login. Each Lua script is one step of Redis.
pub mod Keys
pub mod Release
pub mod Login
pub mod Once
pub mod History
pub mod Refresh
use cpp_chat.Base.{
  ◌==◌, if◌then◌else◌, head?, is_some, any_by, Text, bytes, text_eq, ℤ, to_string, ℕ, zero, ◌+◌,
  ◌-◌, ◌/◌, Bool, true, false, not, ◌&&◌, ◌||◌, Option, none, some, List, [], ◌∷◌, ◌++◌,
}
use cpp_chat.Redis.{Redis, Fate, answered, not_run, reply_lost}

-- ErrorCodes of const.h.
abbrev pub success : ℕ
success = 0

abbrev pub token_invalid : ℕ
token_invalid = 1010

abbrev pub redis_error : ℕ
redis_error = 1015

abbrev pub active_session_seconds : ℕ
active_session_seconds = 3600

abbrev pub desktop : Text
desktop = bytes "desktop"

abbrev pub android : Text
android = bytes "android"

-- ServicePolicy::ValidDevice.
unfoldable pub valid_device : Text → Bool
valid_device device = text_eq device desktop || text_eq device android

-- ServicePolicy::DeviceKey.
abbrev pub suffix_of : Text → Text
suffix_of device = if text_eq device android then bytes ":android" else []

abbrev pub device_key : ℤ → Text → Text
device_key uid device = to_string uid ++ suffix_of device

abbrev pub user_session : Text → Text
user_session id = bytes "usession_" ++ id

abbrev pub user_ip : Text → Text
user_ip id = bytes "uip_" ++ id

abbrev pub resource_token : Text → Text
resource_token id = bytes "resource_token_" ++ id

abbrev pub pending_token : ℤ → Text
pending_token uid = bytes "utoken_" ++ to_string uid

abbrev pub token_key : ℤ → Text → Text
token_key uid token = pending_token uid ++ (58 ∷ token)

-- redis.call('get', key) == value
abbrev pub holds : Option Text → Text → Bool
holds none value = false
holds (some v) value = text_eq v value

-- RedisReadStatus of Read.
pub data ReadStatus : Type 0 where
  found : Text → ReadStatus
  missing error : ReadStatus

abbrev pub read_reply : Option Text → ReadStatus
read_reply none = missing
read_reply (some v) = found v

-- The body of the loop of Destinations.
abbrev pub add_route : Option Text → List Text → List Text
add_route none result = result
add_route (some node) result =
    if is_some (head? node) && not (any_by (λ r. text_eq r node) result)
    then result ++ node ∷ []
    else result

module _ (R : Redis) where
  open R use {State, get, leased, set_for, del, expire}

  -- Read.
  unfoldable pub read : Fate → Text → Bool → State → ReadStatus
  read answered key require_expiry s =
      if require_expiry && not (leased key s) then missing else read_reply (get key s)
  read not_run key require_expiry s = error
  read reply_lost key require_expiry s = error

  abbrev pub is_credential : Text → Text → State → Bool
  is_credential key token s = holds (get key s) token && leased key s

  -- The Lua script of RegisterSession.
  unfoldable pub register_script : ℤ → Text → Text → Text → Text → State → State × ℕ
  register_script uid device token session_id server_name s =
      let id = device_key uid device in
      let pending = pending_token uid in
      if not (
        is_credential pending token s
        || (is_credential (token_key uid token) token s
            || is_credential (resource_token id) token s))
      then (s, 0)
      else (let a = set_for (resource_token id) token active_session_seconds s in
          let b = set_for (user_session id) session_id active_session_seconds a in
          let c = set_for (user_ip id) server_name active_session_seconds b in
          let d = if holds (get pending c) token then del pending c else c in
          (del (token_key uid token) d, 1))

  -- What Evaluate gives RegisterSession of its script's run.
  abbrev pub registered : Fate → State × ℕ → State → State × ℕ
  registered answered (t, result) s = (t, if result == 1 then success else token_invalid)
  registered not_run r s = (s, redis_error)
  registered reply_lost (t, result) s = (t, redis_error)

  -- RegisterSession.
  unfoldable pub register_session : Fate → ℤ → Text → Text → Text → Text → State → State × ℕ
  register_session fate uid session_id server_name token device s =
      if not (valid_device device)
      then (s, token_invalid)
      else registered fate (register_script uid device token session_id server_name s) s

  -- The Lua script of RefreshSession.
  unfoldable pub refresh_script : ℤ → Text → Text → State → State × ℕ
  refresh_script uid device session_id s =
      let id = device_key uid device in
      if not (holds (get (user_session id) s) session_id)
        || not (is_some (get (resource_token id) s))
      then (s, 0)
      else (
        expire (user_ip id) active_session_seconds (
            expire (resource_token id) active_session_seconds
              (expire (user_session id) active_session_seconds s)),
        1,
      )

  -- RefreshSession; `none` is -1. Each device's script has its own fate.
  abbrev pub refresh_device : Fate → ℤ → Text → Text → State → State × Option ℕ
  refresh_device answered uid device session_id s =
      let r = refresh_script uid device session_id s in (r.0, some r.1)
  refresh_device not_run uid device session_id s = (s, none)
  refresh_device reply_lost uid device session_id s =
      ((refresh_script uid device session_id s).0, none)

  abbrev pub refresh_next : Fate → ℤ → Text → State × Option ℕ → State × Option ℕ
  refresh_next fate uid session_id (s, some zero) = refresh_device fate uid android session_id s
  refresh_next fate uid session_id r = r

  unfoldable pub refresh_session : Fate → Fate → ℤ → Text → State → State × Option ℕ
  refresh_session first second uid session_id s =
      refresh_next second uid session_id (refresh_device first uid desktop session_id s)

  -- The Lua script of ReleaseSession.
  unfoldable pub release_script : ℤ → Text → Text → State → State
  release_script uid device session_id s =
      let id = device_key uid device in
      if holds (get (user_session id) s) session_id
      then del (user_ip id) (del (resource_token id) (del (user_session id) s))
      else s

  -- ReleaseSession.
  abbrev pub release_device : Fate → ℤ → Text → Text → State → State × Bool
  release_device answered uid device session_id s = (release_script uid device session_id s, true)
  release_device not_run uid device session_id s = (s, false)
  release_device reply_lost uid device session_id s =
      (release_script uid device session_id s, false)

  unfoldable pub release_session : Fate → Fate → ℤ → Text → State → State × Bool
  release_session first second uid session_id s =
      let r = release_device first uid desktop session_id s in
      if r.1 then release_device second uid android session_id r.0 else r

  -- The route of a slot; `answers` tells whether the GET is answered.
  abbrev pub route : Bool → ℤ → Text → State → Option Text
  route true uid device s = get (user_ip (device_key uid device)) s
  route false uid device s = none

  -- Destinations.
  unfoldable pub destinations : Bool → Bool → ℤ → State → List Text
  destinations first second uid s =
      add_route (route second uid android s) (add_route (route first uid desktop s) [])
