-- ===== src/Pools/RedisLost.antt =====
-- A race in ReturnConnection of ChatServerShared/RedisConPool.cpp: between a call's reading of a zero count
-- and its store of `_stopped` another call may put a new connection back. The pool is then stopped with
-- a live connection, which neither a borrower nor Close ever takes.
use cpp_chat.Base.{
  ◌==◌, if◌then◌else◌, get_elem?, set, sum_by, sum_by-set, ℕ, ◌≡◌, refl, Bool, true, false, Option,
  none, some, List, [], ◌∷◌, arith,
}
use cpp_chat.Pools.RedisPool.{
  borrow, hand_back_of, create_of, count_of, give_up_of, push_of, begin_close, drain_of, redis_step,
  redis_run, RedisCall, holding, renewing, renewed, giving_up, pushing, draining, ended, RedisPool,
  RedisEvent, borrows, hands_back, creates, counts, gives_up, pushes, begins_close, drains,
}
use cpp_chat.Pools.RedisReturn.{is_draining}

module _ {Conn : Type 0} (kept : List Conn) where
  -- A stopped pool that no call drains, with its idle connections.
  abbrev pub Stuck : List Conn → Bool → List (RedisCall Conn) → Type 0
  Stuck idle stopped calls = (idle ≡ kept) × (stopped ≡ true) × (sum_by is_draining calls ≡ 0)

  abbrev pub IsStuck : RedisPool Conn → Type 0
  IsStuck p = Stuck p.idle p.stopped p.calls

  moved :
      (idle : List Conn) (stopped : Bool) (calls : List (RedisCall Conn)) (i : ℕ)
      (x y : RedisCall Conn)
      → get_elem? calls i ≡ some x
      → is_draining y ≡ 0
      → Stuck idle stopped calls
      → Stuck idle stopped (set calls i y)
  moved idle stopped calls i x y e h s =
      (s.0, s.1, omega (arith, s.2, sum_by-set is_draining calls i x y e, h))

  borrow-IsStuck :
      (idle : List Conn) (stopped : Bool) (live : ℕ) (calls : List (RedisCall Conn))
      → Stuck idle stopped calls
      → IsStuck (borrow (record { idle = idle; stopped = stopped; live = live; calls = calls }))
  unfolding borrow
  borrow-IsStuck idle true live calls h = h
  borrow-IsStuck idle false live calls h = absurd (cc h.1)

  hand_back-IsStuck :
      (i : ℕ) (broken : Bool) (call : Option (RedisCall Conn)) (idle : List Conn) (stopped : Bool)
      (live : ℕ) (calls : List (RedisCall Conn))
      → get_elem? calls i ≡ call
      → Stuck idle stopped calls
      → IsStuck (
          hand_back_of call i broken
            (record { idle = idle; stopped = stopped; live = live; calls = calls }))
  hand_back-IsStuck i broken (some (holding c)) idle true live calls e h =
      moved idle true calls i (holding c) ended e refl h
  hand_back-IsStuck i broken (some (holding c)) idle false live calls e h = absurd (cc h.1)
  hand_back-IsStuck i broken none idle stopped live calls e h = h
  hand_back-IsStuck i broken (some renewing) idle stopped live calls e h = h
  hand_back-IsStuck i broken (some (renewed c)) idle stopped live calls e h = h
  hand_back-IsStuck i broken (some giving_up) idle stopped live calls e h = h
  hand_back-IsStuck i broken (some (pushing c)) idle stopped live calls e h = h
  hand_back-IsStuck i broken (some draining) idle stopped live calls e h = h
  hand_back-IsStuck i broken (some ended) idle stopped live calls e h = h

  create-IsStuck :
      (i : ℕ) (result : Option Conn) (call : Option (RedisCall Conn)) (idle : List Conn)
      (stopped : Bool) (live : ℕ) (calls : List (RedisCall Conn))
      → get_elem? calls i ≡ call
      → Stuck idle stopped calls
      → IsStuck (
          create_of call result i
            (record { idle = idle; stopped = stopped; live = live; calls = calls }))
  create-IsStuck i (some c) (some renewing) idle stopped live calls e h =
      moved idle stopped calls i renewing (renewed c) e refl h
  create-IsStuck i none (some renewing) idle stopped live calls e h =
      moved idle stopped calls i renewing (if live == 0 then giving_up else ended) e (ground arith)
        h
  create-IsStuck i result none idle stopped live calls e h = h
  create-IsStuck i result (some (holding c)) idle stopped live calls e h = h
  create-IsStuck i result (some (renewed c)) idle stopped live calls e h = h
  create-IsStuck i result (some giving_up) idle stopped live calls e h = h
  create-IsStuck i result (some (pushing c)) idle stopped live calls e h = h
  create-IsStuck i result (some draining) idle stopped live calls e h = h
  create-IsStuck i result (some ended) idle stopped live calls e h = h

  count-IsStuck :
      (i : ℕ) (call : Option (RedisCall Conn)) (idle : List Conn) (stopped : Bool) (live : ℕ)
      (calls : List (RedisCall Conn))
      → get_elem? calls i ≡ call
      → Stuck idle stopped calls
      → IsStuck
          (count_of call i (record { idle = idle; stopped = stopped; live = live; calls = calls }))
  count-IsStuck i (some (renewed c)) idle stopped live calls e h =
      moved idle stopped calls i (renewed c) (pushing c) e refl h
  count-IsStuck i none idle stopped live calls e h = h
  count-IsStuck i (some (holding c)) idle stopped live calls e h = h
  count-IsStuck i (some renewing) idle stopped live calls e h = h
  count-IsStuck i (some giving_up) idle stopped live calls e h = h
  count-IsStuck i (some (pushing c)) idle stopped live calls e h = h
  count-IsStuck i (some draining) idle stopped live calls e h = h
  count-IsStuck i (some ended) idle stopped live calls e h = h

  give_up-IsStuck :
      (i : ℕ) (call : Option (RedisCall Conn)) (idle : List Conn) (stopped : Bool) (live : ℕ)
      (calls : List (RedisCall Conn))
      → get_elem? calls i ≡ call
      → Stuck idle stopped calls
      → IsStuck (
          give_up_of call i (record { idle = idle; stopped = stopped; live = live; calls = calls }))
  give_up-IsStuck i (some giving_up) idle stopped live calls e h =
      let m = moved idle stopped calls i giving_up ended e refl h in (m.0, refl, m.2)
  give_up-IsStuck i none idle stopped live calls e h = h
  give_up-IsStuck i (some (holding c)) idle stopped live calls e h = h
  give_up-IsStuck i (some renewing) idle stopped live calls e h = h
  give_up-IsStuck i (some (renewed c)) idle stopped live calls e h = h
  give_up-IsStuck i (some (pushing c)) idle stopped live calls e h = h
  give_up-IsStuck i (some draining) idle stopped live calls e h = h
  give_up-IsStuck i (some ended) idle stopped live calls e h = h

  push-IsStuck :
      (i : ℕ) (call : Option (RedisCall Conn)) (idle : List Conn) (stopped : Bool) (live : ℕ)
      (calls : List (RedisCall Conn))
      → get_elem? calls i ≡ call
      → Stuck idle stopped calls
      → IsStuck
          (push_of call i (record { idle = idle; stopped = stopped; live = live; calls = calls }))
  push-IsStuck i (some (pushing c)) idle true live calls e h =
      moved idle true calls i (pushing c) ended e refl h
  push-IsStuck i (some (pushing c)) idle false live calls e h = absurd (cc h.1)
  push-IsStuck i none idle stopped live calls e h = h
  push-IsStuck i (some (holding c)) idle stopped live calls e h = h
  push-IsStuck i (some renewing) idle stopped live calls e h = h
  push-IsStuck i (some (renewed c)) idle stopped live calls e h = h
  push-IsStuck i (some giving_up) idle stopped live calls e h = h
  push-IsStuck i (some draining) idle stopped live calls e h = h
  push-IsStuck i (some ended) idle stopped live calls e h = h

  drain-IsStuck :
      (i : ℕ) (call : Option (RedisCall Conn)) (idle : List Conn) (stopped : Bool) (live : ℕ)
      (calls : List (RedisCall Conn))
      → get_elem? calls i ≡ call
      → Stuck idle stopped calls
      → IsStuck
          (drain_of call i (record { idle = idle; stopped = stopped; live = live; calls = calls }))
  drain-IsStuck i (some draining) idle stopped live calls e h =
      absurd (omega (arith, h.2, sum_by-set is_draining calls i draining ended e))
  drain-IsStuck i none idle stopped live calls e h = h
  drain-IsStuck i (some (holding c)) idle stopped live calls e h = h
  drain-IsStuck i (some renewing) idle stopped live calls e h = h
  drain-IsStuck i (some (renewed c)) idle stopped live calls e h = h
  drain-IsStuck i (some giving_up) idle stopped live calls e h = h
  drain-IsStuck i (some (pushing c)) idle stopped live calls e h = h
  drain-IsStuck i (some ended) idle stopped live calls e h = h

  close-IsStuck :
      (idle : List Conn) (stopped : Bool) (live : ℕ) (calls : List (RedisCall Conn))
      → Stuck idle stopped calls
      → IsStuck
          (begin_close (record { idle = idle; stopped = stopped; live = live; calls = calls }))
  unfolding begin_close
  close-IsStuck idle true live calls h = h
  close-IsStuck idle false live calls h = absurd (cc h.1)

  step-IsStuck : (e : RedisEvent Conn) (p : RedisPool Conn) → IsStuck p → IsStuck (redis_step e p)
  unfolding redis_step
  step-IsStuck borrows p h = borrow-IsStuck p.idle p.stopped p.live p.calls h
  step-IsStuck (hands_back i broken) p h =
      hand_back-IsStuck i broken (get_elem? p.calls i) p.idle p.stopped p.live p.calls refl h
  step-IsStuck (creates i result) p h =
      create-IsStuck i result (get_elem? p.calls i) p.idle p.stopped p.live p.calls refl h
  step-IsStuck (counts i) p h =
      count-IsStuck i (get_elem? p.calls i) p.idle p.stopped p.live p.calls refl h
  step-IsStuck (gives_up i) p h =
      give_up-IsStuck i (get_elem? p.calls i) p.idle p.stopped p.live p.calls refl h
  step-IsStuck (pushes i) p h =
      push-IsStuck i (get_elem? p.calls i) p.idle p.stopped p.live p.calls refl h
  step-IsStuck begins_close p h = close-IsStuck p.idle p.stopped p.live p.calls h
  step-IsStuck (drains i) p h =
      drain-IsStuck i (get_elem? p.calls i) p.idle p.stopped p.live p.calls refl h

  run-IsStuck :
      (events : List (RedisEvent Conn)) (p : RedisPool Conn)
      → IsStuck p
      → IsStuck (redis_run events p)
  run-IsStuck [] p h = h
  run-IsStuck (e ∷ rest) p h = run-IsStuck rest (redis_step e p) (step-IsStuck e p h)

module _ {Conn : Type 0} where
  gives_up-IsStuck :
      (i : ℕ) (call : Option (RedisCall Conn)) (p : RedisPool Conn)
      → get_elem? p.calls i ≡ call
      → call ≡ some giving_up
      → sum_by is_draining p.calls ≡ 0
      → IsStuck p.idle (give_up_of call i p)
  gives_up-IsStuck i (some giving_up) p e h d =
      (refl, refl, omega (arith, d, sum_by-set is_draining p.calls i giving_up ended e))
  gives_up-IsStuck i none p e h d = absurd (cc h)
  gives_up-IsStuck i (some (holding c)) p e h d = absurd (cc h)
  gives_up-IsStuck i (some renewing) p e h d = absurd (cc h)
  gives_up-IsStuck i (some (renewed c)) p e h d = absurd (cc h)
  gives_up-IsStuck i (some (pushing c)) p e h d = absurd (cc h)
  gives_up-IsStuck i (some draining) p e h d = absurd (cc h)
  gives_up-IsStuck i (some ended) p e h d = absurd (cc h)

  -- If a call of the pool has read a count of zero, and no Close is under way, then after its store of
  -- `_stopped` no further steps of any calls, a Close among them, take or free a connection that is
  -- idle at that moment, and the pool stays stopped.
  pub redis_run-IsStuck :
      (p : RedisPool Conn) (i : ℕ) (events : List (RedisEvent Conn))
      → get_elem? p.calls i ≡ some giving_up
      → sum_by is_draining p.calls ≡ 0
      → IsStuck p.idle (redis_run (gives_up i ∷ events) p)
  unfolding redis_step
  redis_run-IsStuck p i events e d =
      run-IsStuck p.idle events (give_up_of (get_elem? p.calls i) i p)
        (gives_up-IsStuck i (get_elem? p.calls i) p refl e d)
