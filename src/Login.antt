-- ===== src/Login.antt =====
-- The login of a connection (SessionService::Login, ChatServerShared/SessionService.cpp), over the session
-- leases and the TCP session. What other services answer, and what happens to the node while they are
-- asked, are parameters; of the response, the error code is kept.
pub mod Outcome
use cpp_chat.Base.{
  ◌==◌, if◌then◌else◌, length, Text, bytes, text_eq, is_positive, ℤ, ℕ, ◌+◌, ◌-◌, ◌/◌, Bool, true,
  false, not, ◌&&◌, ◌||◌, Option, none, some, [], ◌++◌,
}
use cpp_chat.Redis.{Redis, Fate}
use cpp_chat.Leases.{
  success, token_invalid, redis_error, valid_device, device_key, user_ip, resource_token,
  pending_token, token_key, read, register_session, release_session, route, ReadStatus, found,
  missing, error,
}
use cpp_chat.Session.{is_closed, bind_authenticated_user, notify_offline, Session}

abbrev pub rpc_failed : ℕ
rpc_failed = 1002

abbrev pub unknown_user : ℕ
unknown_user = 1011

abbrev pub node_health : Text → Text
node_health name = bytes "chat_node_" ++ name

-- The node: Redis, the session that logs in, the session of UserMgr in the slot of its user and device
-- (with its id), and the session that this login has retired.
pub record Node (State : Type 0) : Type 0 where
  pub redis : State
  pub session : Session
  pub occupant : Option (Text × Session)
  pub retired : Option Session

pub record World (State : Type 0) : Type 0 where
  -- StatusGrpcClient::Login: an error code and the token.
  pub status : ℕ × Text
  pub user_found : Bool
  -- FriendService::Applications and FriendService::List.
  pub applications : ℕ
  pub friends : ℕ
  pub lock_taken : Bool
  -- How the reads of Redis end: three credentials, the route, the health of a node.
  pub credential_reads : Fate × Fate × Fate
  pub route_read : Fate
  pub health_read : Fate
  -- NotifyKickUser.
  pub kick : ℕ
  pub register_end : Fate
  pub release_ends : Fate × Fate
  pub offline_body : ℤ → Text
  -- What other threads do before the lock is taken, and before the session is bound.
  pub before_lock : Node State → Node State
  pub before_bind : Node State → Node State

pub data Credential : Type 0 where
  matched unmatched broken : Credential

abbrev pub next_credential : Text → ReadStatus → Credential → Credential
next_credential token error rest = broken
next_credential token missing rest = rest
next_credential token (found v) rest = if text_eq v token then matched else rest

abbrev pub previous_of : ReadStatus → Text
previous_of (found v) = v
previous_of missing = []
previous_of error = []

abbrev pub is_error : ReadStatus → Bool
is_error error = true
is_error r = false

abbrev pub is_found : ReadStatus → Bool
is_found (found v) = true
is_found r = false

-- The rest of a login, if the lock was taken.
abbrev pub under_lock : {State : Type 0} → Bool → Node State → ℕ × Node State → ℕ × Node State
under_lock true n rest = rest
under_lock false n rest = (rpc_failed, n)

module _ (R : Redis) (w : World R.State) where
  open R use {State}
  open w use {status, credential_reads, route_read, health_read, offline_body}

  -- The loop over the credential keys.
  unfoldable pub find_credential : ℤ → Text → Text → State → Credential
  find_credential uid token device s =
      next_credential token (read R credential_reads.0 (token_key uid token) true s) (
        next_credential token (read R credential_reads.1 (pending_token uid) true s) (
          next_credential token
            (read R credential_reads.2 (resource_token (device_key uid device)) true s) unmatched))

  -- The local session of the slot is told, and leaves UserMgr.
  abbrev pub retire_local : ℤ → Text → Option (Text × Session) → Node State → Node State
  retire_local uid sid none n = n
  retire_local uid sid (some (old_id, s)) n =
      if text_eq old_id sid
      then n
      else record n { occupant = none; retired = some (notify_offline offline_body uid s) }

  -- A login elsewhere: `some code` stops this one.
  abbrev pub retire_remote : Text → State → Option ℕ
  retire_remote previous s =
      let health = read R health_read (node_health previous) true s in
      if is_error health
      then some redis_error
      else if is_found health && not (w.kick == success)
      then some rpc_failed
      else none

  abbrev pub bind_session : ℤ → Text → Text → Node State → ℕ × Node State
  bind_session uid sid device n =
      let b = bind_authenticated_user uid device n.session in
      if b.1 then (success, record n { session = b.0; occupant = some (sid, b.0) }) else (
        token_invalid,
        record n {
          redis = (release_session R w.release_ends.0 w.release_ends.1 uid sid n.redis).0;
        },
      )

  abbrev pub register_and_bind : ℤ → Text → Text → Text → Node State → ℕ × Node State
  register_and_bind uid sid self_name device n =
      let r = register_session R w.register_end uid sid self_name status.1 device n.redis in
      let m = record n { redis = r.0 } in
      if not (r.1 == success) then (r.1, m) else bind_session uid sid device (w.before_bind m)

  abbrev pub after_kick : Option ℕ → ℤ → Text → Text → Text → Node State → ℕ × Node State
  after_kick (some code) uid sid self_name device n = (code, n)
  after_kick none uid sid self_name device n = register_and_bind uid sid self_name device n

  abbrev pub replace_previous : ℤ → Text → Text → Text → Node State → ℕ × Node State
  replace_previous uid sid self_name device n =
      let previous = read R route_read (user_ip (device_key uid device)) false n.redis in
      if is_error previous
      then (redis_error, n)
      else if text_eq (previous_of previous) self_name
      then register_and_bind uid sid self_name device (retire_local uid sid n.occupant n)
      else if length (previous_of previous) == 0
      then register_and_bind uid sid self_name device n
      else after_kick (retire_remote (previous_of previous) n.redis) uid sid self_name device n

  abbrev pub after_credential : Credential → ℤ → Text → Text → Text → Node State → ℕ × Node State
  after_credential broken uid sid self_name device n = (redis_error, n)
  after_credential unmatched uid sid self_name device n = (token_invalid, n)
  after_credential matched uid sid self_name device n = replace_previous uid sid self_name device n

  -- Under the account's lock.
  unfoldable pub log_in_locked : ℤ → Text → Text → Text → Text → Node State → ℕ × Node State
  log_in_locked uid token device sid self_name n =
      under_lock w.lock_taken n
        (after_credential (find_credential uid token device n.redis) uid sid self_name device n)

  -- Login.
  unfoldable pub log_in : ℤ → Text → Text → Text → Text → Node State → ℕ × Node State
  log_in uid token device sid self_name n =
      if not (valid_device device) || (is_closed n.session || is_positive n.session.user_id)
      then (token_invalid, n)
      else if not (status.0 == success)
      then (status.0, n)
      else if not w.user_found
      then (unknown_user, n)
      else if not (w.applications == success)
      then (w.applications, n)
      else if not (w.friends == success)
      then (w.friends, n)
      else log_in_locked uid token device sid self_name (w.before_lock n)
