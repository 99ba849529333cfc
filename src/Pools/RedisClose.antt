-- ===== src/Pools/RedisClose.antt =====
-- Close of ChatServerShared/RedisConPool.cpp: it frees every connection, unless the pool was stopped before
-- for want of a connection.
use cpp_chat.Base.{
  ◌==◌, if◌then◌else◌, length, get_elem?, set, sum_by, all_by, sum_by-set, sum_by-append, ℕ, ◌^◌,
  ◌<◌, ◌≡◌, refl, ap, ◌⊎◌, inl, inr, Bool, true, false, Option, none, some, List, [], ◌∷◌, arith,
}
use cpp_chat.Pools.RedisPool.{
  made, is_empty, new_redis_pool, borrow, hand_back_of, create_of, count_of, push_of, begin_close,
  drain_of, redis_step, redis_run, RedisCall, holding, renewing, renewed, giving_up, pushing,
  draining, ended, RedisPool, RedisEvent, borrows, hands_back, creates, counts, gives_up, pushes,
  begins_close, drains,
}
use cpp_chat.Pools.RedisReturn.{counted, is_draining, Counts}
use cpp_chat.Pools.RedisCount.{redis_run-IsCounted}

module _ {Conn : Type 0} where
  abbrev pub gives_no_up : RedisEvent Conn → Bool
  gives_no_up (gives_up i) = false
  gives_no_up e = true

  -- A stopped pool has no idle connection, or a call is about to drain it.
  abbrev pub Drains : List Conn → Bool → List (RedisCall Conn) → Type 0
  Drains idle false calls = Unit
  Drains idle true calls = (idle ≡ []) ⊎ (0 < sum_by is_draining calls)

  abbrev pub IsDrained : RedisPool Conn → Type 0
  IsDrained p = Drains p.idle p.stopped p.calls

  kept_draining :
      (calls : List (RedisCall Conn)) (i : ℕ) (x y : RedisCall Conn)
      → get_elem? calls i ≡ some x
      → is_draining x ≡ 0
      → 0 < sum_by is_draining calls
      → 0 < sum_by is_draining (set calls i y)
  kept_draining calls i x y e h d = omega (arith, sum_by-set is_draining calls i x y e, h)

  changed :
      (idle : List Conn) (stopped : Bool) (calls : List (RedisCall Conn)) (i : ℕ)
      (x y : RedisCall Conn)
      → get_elem? calls i ≡ some x
      → is_draining x ≡ 0
      → Drains idle stopped calls
      → Drains idle stopped (set calls i y)
  changed idle false calls i x y e h d = tt
  changed idle true calls i x y e h (inl none_idle) = inl none_idle
  changed idle true calls i x y e h (inr d) = inr (kept_draining calls i x y e h d)

  borrow-IsDrained :
      (idle : List Conn) (stopped : Bool) (live : ℕ) (calls : List (RedisCall Conn))
      → Drains idle stopped calls
      → IsDrained (borrow (record { idle = idle; stopped = stopped; live = live; calls = calls }))
  unfolding borrow
  borrow-IsDrained idle true live calls h = h
  borrow-IsDrained [] false live calls h = tt
  borrow-IsDrained (c ∷ rest) false live calls h = tt

  hand_back-IsDrained :
      (i : ℕ) (broken : Bool) (call : Option (RedisCall Conn)) (idle : List Conn) (stopped : Bool)
      (live : ℕ) (calls : List (RedisCall Conn))
      → get_elem? calls i ≡ call
      → Drains idle stopped calls
      → IsDrained (
          hand_back_of call i broken
            (record { idle = idle; stopped = stopped; live = live; calls = calls }))
  hand_back-IsDrained i broken (some (holding c)) idle true live calls e h =
      changed idle true calls i (holding c) ended e refl h
  hand_back-IsDrained i true (some (holding c)) idle false live calls e h = tt
  hand_back-IsDrained i false (some (holding c)) idle false live calls e h = tt
  hand_back-IsDrained i broken none idle stopped live calls e h = h
  hand_back-IsDrained i broken (some renewing) idle stopped live calls e h = h
  hand_back-IsDrained i broken (some (renewed c)) idle stopped live calls e h = h
  hand_back-IsDrained i broken (some giving_up) idle stopped live calls e h = h
  hand_back-IsDrained i broken (some (pushing c)) idle stopped live calls e h = h
  hand_back-IsDrained i broken (some draining) idle stopped live calls e h = h
  hand_back-IsDrained i broken (some ended) idle stopped live calls e h = h

  create-IsDrained :
      (i : ℕ) (result : Option Conn) (call : Option (RedisCall Conn)) (idle : List Conn)
      (stopped : Bool) (live : ℕ) (calls : List (RedisCall Conn))
      → get_elem? calls i ≡ call
      → Drains idle stopped calls
      → IsDrained (
          create_of call result i
            (record { idle = idle; stopped = stopped; live = live; calls = calls }))
  create-IsDrained i (some c) (some renewing) idle stopped live calls e h =
      changed idle stopped calls i renewing (renewed c) e refl h
  create-IsDrained i none (some renewing) idle stopped live calls e h =
      changed idle stopped calls i renewing (if live == 0 then giving_up else ended) e refl h
  create-IsDrained i result none idle stopped live calls e h = h
  create-IsDrained i result (some (holding c)) idle stopped live calls e h = h
  create-IsDrained i result (some (renewed c)) idle stopped live calls e h = h
  create-IsDrained i result (some giving_up) idle stopped live calls e h = h
  create-IsDrained i result (some (pushing c)) idle stopped live calls e h = h
  create-IsDrained i result (some draining) idle stopped live calls e h = h
  create-IsDrained i result (some ended) idle stopped live calls e h = h

  count-IsDrained :
      (i : ℕ) (call : Option (RedisCall Conn)) (idle : List Conn) (stopped : Bool) (live : ℕ)
      (calls : List (RedisCall Conn))
      → get_elem? calls i ≡ call
      → Drains idle stopped calls
      → IsDrained
          (count_of call i (record { idle = idle; stopped = stopped; live = live; calls = calls }))
  count-IsDrained i (some (renewed c)) idle stopped live calls e h =
      changed idle stopped calls i (renewed c) (pushing c) e refl h
  count-IsDrained i none idle stopped live calls e h = h
  count-IsDrained i (some (holding c)) idle stopped live calls e h = h
  count-IsDrained i (some renewing) idle stopped live calls e h = h
  count-IsDrained i (some giving_up) idle stopped live calls e h = h
  count-IsDrained i (some (pushing c)) idle stopped live calls e h = h
  count-IsDrained i (some draining) idle stopped live calls e h = h
  count-IsDrained i (some ended) idle stopped live calls e h = h

  push-IsDrained :
      (i : ℕ) (call : Option (RedisCall Conn)) (idle : List Conn) (stopped : Bool) (live : ℕ)
      (calls : List (RedisCall Conn))
      → get_elem? calls i ≡ call
      → Drains idle stopped calls
      → IsDrained
          (push_of call i (record { idle = idle; stopped = stopped; live = live; calls = calls }))
  push-IsDrained i (some (pushing c)) idle true live calls e h =
      changed idle true calls i (pushing c) ended e refl h
  push-IsDrained i (some (pushing c)) idle false live calls e h = tt
  push-IsDrained i none idle stopped live calls e h = h
  push-IsDrained i (some (holding c)) idle stopped live calls e h = h
  push-IsDrained i (some renewing) idle stopped live calls e h = h
  push-IsDrained i (some (renewed c)) idle stopped live calls e h = h
  push-IsDrained i (some giving_up) idle stopped live calls e h = h
  push-IsDrained i (some draining) idle stopped live calls e h = h
  push-IsDrained i (some ended) idle stopped live calls e h = h

  drain-IsDrained :
      (i : ℕ) (call : Option (RedisCall Conn)) (idle : List Conn) (stopped : Bool) (live : ℕ)
      (calls : List (RedisCall Conn))
      → get_elem? calls i ≡ call
      → Drains idle stopped calls
      → IsDrained
          (drain_of call i (record { idle = idle; stopped = stopped; live = live; calls = calls }))
  drain-IsDrained i (some draining) idle true live calls e h = inl refl
  drain-IsDrained i (some draining) idle false live calls e h = tt
  drain-IsDrained i none idle stopped live calls e h = h
  drain-IsDrained i (some (holding c)) idle stopped live calls e h = h
  drain-IsDrained i (some renewing) idle stopped live calls e h = h
  drain-IsDrained i (some (renewed c)) idle stopped live calls e h = h
  drain-IsDrained i (some giving_up) idle stopped live calls e h = h
  drain-IsDrained i (some (pushing c)) idle stopped live calls e h = h
  drain-IsDrained i (some ended) idle stopped live calls e h = h

  close-IsDrained :
      (idle : List Conn) (stopped : Bool) (live : ℕ) (calls : List (RedisCall Conn))
      → Drains idle stopped calls
      → IsDrained
          (begin_close (record { idle = idle; stopped = stopped; live = live; calls = calls }))
  unfolding begin_close
  close-IsDrained idle true live calls h = h
  close-IsDrained idle false live calls h =
      inr (omega (arith, sum_by-append is_draining calls (draining ∷ [])))

  step-IsDrained :
      (e : RedisEvent Conn) (p : RedisPool Conn)
      → gives_no_up e ≡ true
      → IsDrained p
      → IsDrained (redis_step e p)
  unfolding redis_step
  step-IsDrained borrows p g h = borrow-IsDrained p.idle p.stopped p.live p.calls h
  step-IsDrained (hands_back i broken) p g h =
      hand_back-IsDrained i broken (get_elem? p.calls i) p.idle p.stopped p.live p.calls refl h
  step-IsDrained (creates i result) p g h =
      create-IsDrained i result (get_elem? p.calls i) p.idle p.stopped p.live p.calls refl h
  step-IsDrained (counts i) p g h =
      count-IsDrained i (get_elem? p.calls i) p.idle p.stopped p.live p.calls refl h
  step-IsDrained (gives_up i) p g h = absurd (cc g)
  step-IsDrained (pushes i) p g h =
      push-IsDrained i (get_elem? p.calls i) p.idle p.stopped p.live p.calls refl h
  step-IsDrained begins_close p g h = close-IsDrained p.idle p.stopped p.live p.calls h
  step-IsDrained (drains i) p g h =
      drain-IsDrained i (get_elem? p.calls i) p.idle p.stopped p.live p.calls refl h

  run-IsDrained :
      (events : List (RedisEvent Conn)) (p : RedisPool Conn)
      → all_by gives_no_up events ≡ true
      → IsDrained p
      → IsDrained (redis_run events p)
  run-IsDrained [] p g h = h
  run-IsDrained (e ∷ rest) p g h =
      run-IsDrained rest (redis_step e p) (ground arith) (step-IsDrained e p (ground arith) h)

  new-IsDrained : (idle : List Conn) → Drains idle (is_empty idle) []
  new-IsDrained [] = inl refl
  new-IsDrained (c ∷ rest) = tt

  released :
      (n : ℕ) (idle : List Conn) (stopped : Bool) (live : ℕ) (calls : List (RedisCall Conn))
      → Counts n idle live calls
      → Drains idle stopped calls
      → stopped ≡ true
      → sum_by is_draining calls ≡ 0
      → sum_by counted calls ≡ 0
      → (idle ≡ []) × (live ≡ 0)
  released n idle false live calls h d s none_draining none_counted = absurd (cc s)
  released n idle true live calls h (inr d) s none_draining none_counted =
      absurd (omega (arith, d, none_draining))
  released n idle true live calls h (inl e) s none_draining none_counted =
      (e, omega (arith, h.exact, ap length e, none_counted))

  abbrev pub reached : List (Option Conn) → List (RedisEvent Conn) → RedisPool Conn
  reached connects events = redis_run events (new_redis_pool connects)

  -- If the pool was never stopped for want of a connection, then after its stop, once no Close is under
  -- way and no call has a connection that is counted, every connection is freed: none is idle and
  -- `_live_connections` is zero. The steps before may be in any order.
  pub redis_run-releases :
      (connects : List (Option Conn)) (events : List (RedisEvent Conn))
      → length connects < 2 ^ 64
      → all_by gives_no_up events ≡ true
      → (reached connects events).stopped ≡ true
      → sum_by is_draining (reached connects events).calls ≡ 0
      → sum_by counted (reached connects events).calls ≡ 0
      → ((reached connects events).idle ≡ []) × ((reached connects events).live ≡ 0)
  unfolding new_redis_pool
  redis_run-releases connects events small g =
      let p = reached connects events in
      released (length connects) p.idle p.stopped p.live p.calls
        (redis_run-IsCounted connects events small)
        (run-IsDrained events (new_redis_pool connects) g (new-IsDrained (made connects)))
