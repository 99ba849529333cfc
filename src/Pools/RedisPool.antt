-- ===== src/Pools/RedisPool.antt =====
-- ChatServerShared/RedisConPool.{h,cpp}: the queue of idle connections, the atomic `_stopped` and
-- `_live_connections`, and the calls in progress. Between two accesses of the atomics and the sections
-- under the mutex other calls may step, as they may while a connection is made.
use cpp_chat.Base.{
  ◌==◌, if◌then◌else◌, length, get_elem?, set, add64, sub64, ℕ, Bool, true, false, not, ◌&&◌,
  Option, none, some, List, [], ◌∷◌, ◌++◌,
}

-- A call: a borrower with its connection; ReturnConnection after it freed a broken connection, after
-- CreateConnection gave a new one, after it found no live connection, and before it takes the mutex;
-- Close between its exchange and its drain; and a call that is over.
pub data RedisCall (Conn : Type 0) : Type 0 where
  holding : Conn → RedisCall Conn
  renewing : RedisCall Conn
  renewed : Conn → RedisCall Conn
  giving_up : RedisCall Conn
  pushing : Conn → RedisCall Conn
  draining : RedisCall Conn
  ended : RedisCall Conn

pub record RedisPool (Conn : Type 0) : Type 0 where
  pub idle : List Conn
  pub stopped : Bool
  pub live : ℕ
  pub calls : List (RedisCall Conn)

-- A step of some call; `i` is its place among the calls.
pub data RedisEvent (Conn : Type 0) : Type 0 where
  borrows : RedisEvent Conn
  hands_back : ℕ → Bool → RedisEvent Conn
  creates : ℕ → Option Conn → RedisEvent Conn
  counts : ℕ → RedisEvent Conn
  gives_up : ℕ → RedisEvent Conn
  pushes : ℕ → RedisEvent Conn
  begins_close : RedisEvent Conn
  drains : ℕ → RedisEvent Conn

module _ {Conn : Type 0} where
  abbrev pub made : List (Option Conn) → List Conn
  made [] = []
  made (none ∷ rest) = made rest
  made (some c ∷ rest) = c ∷ made rest

  abbrev pub is_empty : List Conn → Bool
  is_empty [] = true
  is_empty (c ∷ rest) = false

  -- The constructor; `connects` tells what each CreateConnection gives.
  unfoldable pub new_redis_pool : List (Option Conn) → RedisPool Conn
  new_redis_pool connects =
      let idle = made connects in
      record { idle = idle; stopped = is_empty idle; live = length idle; calls = [] }

  abbrev pub with_call : ℕ → RedisCall Conn → RedisPool Conn → RedisPool Conn
  with_call i call p = record p { calls = set p.calls i call }

  abbrev pub take_idle : List Conn → RedisPool Conn → RedisPool Conn
  take_idle [] p = p
  take_idle (c ∷ rest) p = record p { idle = rest; calls = p.calls ++ holding c ∷ [] }

  -- GetConnection; nothing is borrowed after a time-out.
  unfoldable pub borrow : RedisPool Conn → RedisPool Conn
  borrow p = if p.stopped then p else take_idle p.idle p

  -- redisFree and --_live_connections.
  abbrev pub free_one : ℕ → RedisCall Conn → RedisPool Conn → RedisPool Conn
  free_one i call p = record p { live = sub64 p.live 1; calls = set p.calls i call }

  -- ReturnConnection up to CreateConnection; `broken` is context->err != 0.
  abbrev pub hand_back_of : Option (RedisCall Conn) → ℕ → Bool → RedisPool Conn → RedisPool Conn
  hand_back_of (some (holding c)) i broken p =
      if p.stopped
      then free_one i ended p
      else if broken
      then free_one i renewing p
      else with_call i (pushing c) p
  hand_back_of _ i broken p = p

  -- What CreateConnection gives; without a connection the atomic count is read.
  abbrev pub create_of : Option (RedisCall Conn) → Option Conn → ℕ → RedisPool Conn → RedisPool Conn
  create_of (some renewing) (some c) i p = with_call i (renewed c) p
  create_of (some renewing) none i p = with_call i (if p.live == 0 then giving_up else ended) p
  create_of _ result i p = p

  -- ++_live_connections.
  abbrev pub count_of : Option (RedisCall Conn) → ℕ → RedisPool Conn → RedisPool Conn
  count_of (some (renewed c)) i p = record p {
    live = add64 p.live 1;
    calls = set p.calls i (pushing c);
  }
  count_of _ i p = p

  -- _stopped = true, for want of a connection.
  abbrev pub give_up_of : Option (RedisCall Conn) → ℕ → RedisPool Conn → RedisPool Conn
  give_up_of (some giving_up) i p = record p { stopped = true; calls = set p.calls i ended }
  give_up_of _ i p = p

  -- The section under the mutex at the end of ReturnConnection.
  abbrev pub push_of : Option (RedisCall Conn) → ℕ → RedisPool Conn → RedisPool Conn
  push_of (some (pushing c)) i p =
      if p.stopped
      then free_one i ended p
      else record p { idle = p.idle ++ c ∷ []; calls = set p.calls i ended }
  push_of _ i p = p

  -- Close: the exchange, and the drain of the queue.
  unfoldable pub begin_close : RedisPool Conn → RedisPool Conn
  begin_close p =
      if p.stopped then p else record p { stopped = true; calls = p.calls ++ draining ∷ [] }

  abbrev pub drain_of : Option (RedisCall Conn) → ℕ → RedisPool Conn → RedisPool Conn
  drain_of (some draining) i p = record p {
    idle = [];
    live = sub64 p.live (length p.idle);
    calls = set p.calls i ended;
  }
  drain_of _ i p = p

  -- IsAvailable.
  unfoldable pub is_available : RedisPool Conn → Bool
  is_available p = not p.stopped && not (p.live == 0)

  unfoldable pub redis_step : RedisEvent Conn → RedisPool Conn → RedisPool Conn
  redis_step borrows p = borrow p
  redis_step (hands_back i broken) p = hand_back_of (get_elem? p.calls i) i broken p
  redis_step (creates i result) p = create_of (get_elem? p.calls i) result i p
  redis_step (counts i) p = count_of (get_elem? p.calls i) i p
  redis_step (gives_up i) p = give_up_of (get_elem? p.calls i) i p
  redis_step (pushes i) p = push_of (get_elem? p.calls i) i p
  redis_step begins_close p = begin_close p
  redis_step (drains i) p = drain_of (get_elem? p.calls i) i p

  abbrev pub redis_run : List (RedisEvent Conn) → RedisPool Conn → RedisPool Conn
  redis_run [] p = p
  redis_run (e ∷ rest) p = redis_run rest (redis_step e p)
