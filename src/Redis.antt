-- ===== src/Redis.antt =====
-- What ChatServerShared/RedisMgr.cpp uses of a Redis server, which is not code of the repository: its
-- commands on string keys, as operations on a state at the present moment, and the documented laws of
-- these commands.
pub mod Store
use cpp_chat.Base.{Text, ℕ, ◌-◌, ◌/◌, ◌<◌, ◌≡◌, ◌≢◌, ◌⊎◌, Bool, true, not, Option, none, some}

pub record Redis : Type 1 where
  pub State : Type 0
  -- GET; `none` is nil, also for a key that has expired.
  pub get : Text → State → Option Text
  -- TTL > 0
  pub leased : Text → State → Bool
  -- SET key value EX seconds
  pub set_for : Text → Text → ℕ → State → State
  pub del : Text → State → State
  -- EXPIRE key seconds
  pub expire : Text → ℕ → State → State
  -- Time that passes.
  pub elapse : ℕ → State → State

module _ (R : Redis) where
  open R use {State, get, leased, set_for, del, expire, elapse}

  pub record IsRedis : Type 0 where
    pub get_set : (k v : Text) (n : ℕ) (s : State) → 0 < n → get k (set_for k v n s) ≡ some v
    pub leased_set : (k v : Text) (n : ℕ) (s : State) → 0 < n → leased k (set_for k v n s) ≡ true
    pub get_set_other :
        (k v k' : Text) (n : ℕ) (s : State) → k' ≢ k → get k' (set_for k v n s) ≡ get k' s
    pub get_del : (k : Text) (s : State) → get k (del k s) ≡ none
    pub get_del_other : (k k' : Text) (s : State) → k' ≢ k → get k' (del k s) ≡ get k' s
    pub get_expire : (k k' : Text) (n : ℕ) (s : State) → 0 < n → get k' (expire k n s) ≡ get k' s
    pub get_elapse :
        (k : Text) (n : ℕ) (s : State)
        → (get k (elapse n s) ≡ none) ⊎ (get k (elapse n s) ≡ get k s)

-- How a command ends for its caller: with Redis's answer, or without one, in which case Redis may have
-- run it or not (no connection, a time-out, an error reply).
pub data Fate : Type 0 where
  answered not_run reply_lost : Fate
