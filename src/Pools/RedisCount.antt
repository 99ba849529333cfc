-- ===== src/Pools/RedisCount.antt =====
-- What ChatServerShared/RedisConPool.cpp counts: `_live_connections` is the number of the connections that
-- exist, never more than were made at the start, and after Close the idle ones are gone.
use cpp_chat.Base.{
  length, get_elem?, sum_by-append, ℕ, ◌^◌, ◌≤◌, ◌<◌, ◌≡◌, refl, Bool, true, false, Option, none,
  some, List, [], ◌∷◌, arith,
}
use cpp_chat.Pools.RedisPool.{
  made, new_redis_pool, borrow, begin_close, drain_of, redis_step, redis_run, RedisCall, holding,
  renewing, renewed, giving_up, pushing, draining, ended, RedisPool, RedisEvent, borrows,
  hands_back, creates, counts, gives_up, pushes, begins_close, drains,
}
use cpp_chat.Pools.RedisReturn.{
  counted_le, change, hand_back-IsCounted, create-IsCounted, count-IsCounted, give_up-IsCounted,
  push-IsCounted, counted, in_use, Counts, IsCounted,
}

module _ {Conn : Type 0} where
  module _ (n : ℕ) (small : n < 2 ^ 64) where
    borrow-IsCounted :
        (idle : List Conn) (stopped : Bool) (live : ℕ) (calls : List (RedisCall Conn))
        → Counts n idle live calls
        → IsCounted n
            (borrow (record { idle = idle; stopped = stopped; live = live; calls = calls }))
    unfolding borrow
    borrow-IsCounted idle true live calls h = h
    borrow-IsCounted [] false live calls h = h
    borrow-IsCounted (c ∷ rest) false live calls h = record {
      exact = omega (arith, h.exact, sum_by-append counted calls (holding c ∷ []));
      bounded = omega (arith, h.bounded, sum_by-append in_use calls (holding c ∷ []));
    }

    drain-IsCounted :
        (i : ℕ) (call : Option (RedisCall Conn)) (idle : List Conn) (stopped : Bool) (live : ℕ)
        (calls : List (RedisCall Conn))
        → get_elem? calls i ≡ call
        → Counts n idle live calls
        → IsCounted n (
            drain_of call i (record { idle = idle; stopped = stopped; live = live; calls = calls }))
    drain-IsCounted i (some draining) idle stopped live calls e h = record {
      exact = omega (
        arith,
        h.exact,
        h.bounded,
        small,
        counted_le n small calls,
        (change n small calls i draining ended e).0,
      );
      bounded = omega (arith, h.bounded, (change n small calls i draining ended e).1);
    }
    drain-IsCounted i none idle stopped live calls e h = h
    drain-IsCounted i (some (holding c)) idle stopped live calls e h = h
    drain-IsCounted i (some renewing) idle stopped live calls e h = h
    drain-IsCounted i (some (renewed c)) idle stopped live calls e h = h
    drain-IsCounted i (some giving_up) idle stopped live calls e h = h
    drain-IsCounted i (some (pushing c)) idle stopped live calls e h = h
    drain-IsCounted i (some ended) idle stopped live calls e h = h

    close-IsCounted :
        (idle : List Conn) (stopped : Bool) (live : ℕ) (calls : List (RedisCall Conn))
        → Counts n idle live calls
        → IsCounted n
            (begin_close (record { idle = idle; stopped = stopped; live = live; calls = calls }))
    unfolding begin_close
    close-IsCounted idle true live calls h = h
    close-IsCounted idle false live calls h = record {
      exact = omega (arith, h.exact, sum_by-append counted calls (draining ∷ []));
      bounded = omega (arith, h.bounded, sum_by-append in_use calls (draining ∷ []));
    }

    step-IsCounted :
        (e : RedisEvent Conn) (p : RedisPool Conn) → IsCounted n p → IsCounted n (redis_step e p)
    unfolding redis_step
    step-IsCounted borrows p h = borrow-IsCounted p.idle p.stopped p.live p.calls h
    step-IsCounted (hands_back i broken) p h =
        hand_back-IsCounted n small i broken (get_elem? p.calls i) p.idle p.stopped p.live p.calls
          refl h
    step-IsCounted (creates i result) p h =
        create-IsCounted n small i result (get_elem? p.calls i) p.idle p.stopped p.live p.calls refl
          h
    step-IsCounted (counts i) p h =
        count-IsCounted n small i (get_elem? p.calls i) p.idle p.stopped p.live p.calls refl h
    step-IsCounted (gives_up i) p h =
        give_up-IsCounted n small i (get_elem? p.calls i) p.idle p.stopped p.live p.calls refl h
    step-IsCounted (pushes i) p h =
        push-IsCounted n small i (get_elem? p.calls i) p.idle p.stopped p.live p.calls refl h
    step-IsCounted begins_close p h = close-IsCounted p.idle p.stopped p.live p.calls h
    step-IsCounted (drains i) p h =
        drain-IsCounted i (get_elem? p.calls i) p.idle p.stopped p.live p.calls refl h

    run-IsCounted :
        (events : List (RedisEvent Conn)) (p : RedisPool Conn)
        → IsCounted n p
        → IsCounted n (redis_run events p)
    run-IsCounted [] p h = h
    run-IsCounted (e ∷ rest) p h = run-IsCounted rest (redis_step e p) (step-IsCounted e p h)

  length-made : (connects : List (Option Conn)) → length (made connects) ≤ length connects
  length-made [] = omega arith
  length-made (none ∷ rest) = omega (arith, length-made rest)
  length-made (some c ∷ rest) = omega (arith, length-made rest)

  pub redis_run-IsCounted :
      (connects : List (Option Conn)) (events : List (RedisEvent Conn))
      → length connects < 2 ^ 64
      → IsCounted (length connects) (redis_run events (new_redis_pool connects))
  unfolding new_redis_pool
  redis_run-IsCounted connects events small =
      run-IsCounted (length connects) small events (new_redis_pool connects)
        (record { exact = omega arith; bounded = omega (arith, length-made connects) })
