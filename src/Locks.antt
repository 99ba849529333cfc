-- ===== src/Locks.antt =====
-- The distributed lock (ChatServerShared/DistLock.cpp) and the health lease of a chat node (PublishNode and
-- RemoveNode of ChatServerShared/RedisMgr.cpp): keys that only their owner may write or delete.
pub mod Owners
use cpp_chat.Base.{
  ◌==◌, if◌then◌else◌, length, is_some, Text, bytes, is_positive, ℤ, pos, negsuc, ℕ, ◌+◌, ◌-◌, ◌/◌,
  Bool, true, false, not, ◌||◌, Option, none, some, List, [], ◌∷◌, ◌++◌,
}
use cpp_chat.Redis.{Redis, Fate, answered, not_run, reply_lost}
use cpp_chat.Leases.{holds, error}

abbrev pub node_lease_seconds : ℕ
node_lease_seconds = 30

abbrev pub lock_key : Text → Text
lock_key name = bytes "lock:" ++ name

abbrev pub health_key : Text → Text
health_key name = bytes "chat_node_" ++ name

-- std::to_string of a positive timeout, as Redis reads it.
abbrev pub seconds_of : ℤ → ℕ
seconds_of (pos n) = n
seconds_of (negsuc n) = 0

module _ (R : Redis) where
  open R use {State, get, set_for, del}

  -- SET key value NX EX seconds: nil if the key is there.
  abbrev pub set_new : Text → Text → ℕ → State → State × Bool
  set_new key value seconds s =
      if is_some (get key s) then (s, false) else (set_for key value seconds s, true)

  -- A turn of the loop: what happens to Redis before its command, and how the command ends. Without an
  -- answer the connection has an error.
  pub record Attempt : Type 0 where
    pub meanwhile : State → State
    pub end : Fate

  abbrev pub attempt_result : Fate → Text → State × Bool → State → State × Option Text
  attempt_result answered identifier (t, true) s = (t, some identifier)
  attempt_result answered identifier (t, false) s = (s, none)
  attempt_result not_run identifier r s = (s, some [])
  attempt_result reply_lost identifier (t, ok) s = (t, some [])

  -- The loop of Acquire up to its deadline: `none` goes on.
  abbrev pub resume : State × Option Text → (State → State × Text) → State × Text
  resume (s, some result) rest = (s, result)
  resume (s, none) rest = rest s

  unfoldable pub attempts : Text → Text → ℕ → List Attempt → State → State × Text
  attempts key identifier seconds [] s = (s, [])
  attempts key identifier seconds (a ∷ later) s =
      let u = a.meanwhile s in
      resume (attempt_result a.end identifier (set_new key identifier seconds u) u)
        (attempts key identifier seconds later)

  -- Acquire; the empty text is a failure, and the timeouts of a caller are positive or refused.
  unfoldable pub acquire : Text → Text → ℤ → ℤ → List Attempt → State → State × Text
  acquire name identifier lock_timeout acquire_timeout tries s =
      if length name == 0 || (not (is_positive lock_timeout) || not (is_positive acquire_timeout))
      then (s, [])
      else attempts (lock_key name) identifier (seconds_of lock_timeout) tries s

  -- The script of Release.
  abbrev pub delete_own : Text → Text → State → State × Bool
  delete_own key identifier s =
      if holds (get key s) identifier then (del key s, true) else (s, false)

  abbrev pub owner_result : Fate → State × Bool → State → State × Bool
  owner_result answered r s = r
  owner_result not_run r s = (s, false)
  owner_result reply_lost (t, ok) s = (t, false)

  -- Release.
  unfoldable pub release : Fate → Text → Text → State → State × Bool
  release fate name identifier s =
      if length name == 0 || length identifier == 0
      then (s, false)
      else owner_result fate (delete_own (lock_key name) identifier s) s

  -- cjson.decode(v).instance_id; `none` is a decoding error, which ends the script.
  module _ (instance_of : Text → Option Text) where
    abbrev pub may_publish : Option Text → Text → Bool
    may_publish none instance_id = true
    may_publish (some v) instance_id = holds (instance_of v) instance_id

    -- PublishNode.
    unfoldable pub publish_node : Fate → Text → Text → Text → State → State × Bool
    publish_node fate name instance_id health s =
        let key = health_key name in
        owner_result fate
          (if may_publish (get key s) instance_id
            then (set_for key health node_lease_seconds s, true)
            else (s, false))
          s

    abbrev pub is_own : Option Text → Text → Bool
    is_own none instance_id = false
    is_own (some v) instance_id = holds (instance_of v) instance_id

    -- RemoveNode.
    unfoldable pub remove_node : Fate → Text → Text → State → State
    remove_node fate name instance_id s =
        let key = health_key name in
        (owner_result fate
          (if is_own (get key s) instance_id then (del key s, true) else (s, false)) s).0
