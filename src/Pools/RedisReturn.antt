-- ===== src/Pools/RedisReturn.antt =====
-- What ReturnConnection of ChatServerShared/RedisConPool.cpp does to the count of the connections: each of
-- its steps keeps it exact and bounded.
use cpp_chat.Base.{
  ◌==◌, Bool-cases, length, get_elem?, set, sum_by, length-append, sum_by-set, ℕ, ◌+◌, ◌^◌, ◌≤◌,
  ◌<◌, ◌≡◌, inl, inr, Bool, true, false, Option, none, some, List, [], ◌∷◌, arith,
}
use cpp_chat.Pools.RedisPool.{
  hand_back_of, create_of, count_of, give_up_of, push_of, RedisCall, holding, renewing, renewed,
  giving_up, pushing, draining, ended, RedisPool,
}

module _ {Conn : Type 0} where
  -- A call with a connection that the pool counts.
  abbrev pub counted : RedisCall Conn → ℕ
  counted (holding c) = 1
  counted (pushing c) = 1
  counted call = 0

  -- A call with a connection, or about to make one.
  abbrev pub in_use : RedisCall Conn → ℕ
  in_use (holding c) = 1
  in_use renewing = 1
  in_use (renewed c) = 1
  in_use (pushing c) = 1
  in_use call = 0

  abbrev pub is_draining : RedisCall Conn → ℕ
  is_draining draining = 1
  is_draining call = 0

  -- The pool was stopped for want of a connection, or is about to be.
  abbrev pub is_giving_up : RedisCall Conn → ℕ
  is_giving_up giving_up = 1
  is_giving_up call = 0

  pub record Counts (n : ℕ) (idle : List Conn) (live : ℕ) (calls : List (RedisCall Conn))
      : Type 0 where
    pub exact : live ≡ length idle + sum_by counted calls
    pub bounded : length idle + sum_by in_use calls ≤ n

  abbrev pub IsCounted : ℕ → RedisPool Conn → Type 0
  IsCounted n p = Counts n p.idle p.live p.calls

  module _ (n : ℕ) (small : n < 2 ^ 64) where
    pub counted_le : (calls : List (RedisCall Conn)) → sum_by counted calls ≤ sum_by in_use calls
    counted_le [] = omega arith
    counted_le (holding c ∷ calls) = omega (arith, counted_le calls)
    counted_le (pushing c ∷ calls) = omega (arith, counted_le calls)
    counted_le (renewing ∷ calls) = omega (arith, counted_le calls)
    counted_le (renewed c ∷ calls) = omega (arith, counted_le calls)
    counted_le (giving_up ∷ calls) = omega (arith, counted_le calls)
    counted_le (draining ∷ calls) = omega (arith, counted_le calls)
    counted_le (ended ∷ calls) = omega (arith, counted_le calls)

    -- A call that changes its phase.
    pub change :
        (calls : List (RedisCall Conn)) (i : ℕ) (x y : RedisCall Conn)
        → get_elem? calls i ≡ some x
        → (sum_by counted (set calls i y) + counted x ≡ sum_by counted calls + counted y)
          × (sum_by in_use (set calls i y) + in_use x ≡ sum_by in_use calls + in_use y)
    change calls i x y e = (sum_by-set counted calls i x y e, sum_by-set in_use calls i x y e)

    pub hand_back-IsCounted :
        (i : ℕ) (broken : Bool) (call : Option (RedisCall Conn)) (idle : List Conn) (stopped : Bool)
        (live : ℕ) (calls : List (RedisCall Conn))
        → get_elem? calls i ≡ call
        → Counts n idle live calls
        → IsCounted n (
            hand_back_of call i broken
              (record { idle = idle; stopped = stopped; live = live; calls = calls }))
    hand_back-IsCounted i broken (some (holding c)) idle true live calls e h = record {
      exact = omega (
        arith,
        h.exact,
        h.bounded,
        small,
        counted_le calls,
        (change calls i (holding c) ended e).0,
      );
      bounded = omega (arith, h.bounded, (change calls i (holding c) ended e).1);
    }
    hand_back-IsCounted i true (some (holding c)) idle false live calls e h = record {
      exact = omega (
        arith,
        h.exact,
        h.bounded,
        small,
        counted_le calls,
        (change calls i (holding c) renewing e).0,
      );
      bounded = omega (arith, h.bounded, (change calls i (holding c) renewing e).1);
    }
    hand_back-IsCounted i false (some (holding c)) idle false live calls e h = record {
      exact = omega (arith, h.exact, (change calls i (holding c) (pushing c) e).0);
      bounded = omega (arith, h.bounded, (change calls i (holding c) (pushing c) e).1);
    }
    hand_back-IsCounted i broken none idle stopped live calls e h = h
    hand_back-IsCounted i broken (some renewing) idle stopped live calls e h = h
    hand_back-IsCounted i broken (some (renewed c)) idle stopped live calls e h = h
    hand_back-IsCounted i broken (some giving_up) idle stopped live calls e h = h
    hand_back-IsCounted i broken (some (pushing c)) idle stopped live calls e h = h
    hand_back-IsCounted i broken (some draining) idle stopped live calls e h = h
    hand_back-IsCounted i broken (some ended) idle stopped live calls e h = h

    -- A connection that is made and not yet counted leaves room.
    counted_lt :
        (calls : List (RedisCall Conn)) (i : ℕ) {c : Conn}
        → get_elem? calls i ≡ some (renewed c)
        → sum_by counted calls < sum_by in_use calls
    counted_lt calls i {c} e = omega (
      arith,
      counted_le (set calls i ended),
      (change calls i (renewed c) ended e).0,
      (change calls i (renewed c) ended e).1,
    )

    pub create-IsCounted :
        (i : ℕ) (result : Option Conn) (call : Option (RedisCall Conn)) (idle : List Conn)
        (stopped : Bool) (live : ℕ) (calls : List (RedisCall Conn))
        → get_elem? calls i ≡ call
        → Counts n idle live calls
        → IsCounted n (
            create_of call result i
              (record { idle = idle; stopped = stopped; live = live; calls = calls }))
    create-IsCounted i (some c) (some renewing) idle stopped live calls e h = record {
      exact = omega (arith, h.exact, (change calls i renewing (renewed c) e).0);
      bounded = omega (arith, h.bounded, (change calls i renewing (renewed c) e).1);
    }
    create-IsCounted i none (some renewing) idle stopped live calls e h =
        elim (Bool-cases (live == 0)) [
          | inl nothing_left ↦ rw nothing_left (record {
            exact = omega (arith, h.exact, (change calls i renewing giving_up e).0);
            bounded = omega (arith, h.bounded, (change calls i renewing giving_up e).1);
          })
          | inr others_left ↦ rw others_left (record {
            exact = omega (arith, h.exact, (change calls i renewing ended e).0);
            bounded = omega (arith, h.bounded, (change calls i renewing ended e).1);
          })
        ]
    create-IsCounted i result none idle stopped live calls e h = h
    create-IsCounted i result (some (holding c)) idle stopped live calls e h = h
    create-IsCounted i result (some (renewed c)) idle stopped live calls e h = h
    create-IsCounted i result (some giving_up) idle stopped live calls e h = h
    create-IsCounted i result (some (pushing c)) idle stopped live calls e h = h
    create-IsCounted i result (some draining) idle stopped live calls e h = h
    create-IsCounted i result (some ended) idle stopped live calls e h = h

    pub count-IsCounted :
        (i : ℕ) (call : Option (RedisCall Conn)) (idle : List Conn) (stopped : Bool) (live : ℕ)
        (calls : List (RedisCall Conn))
        → get_elem? calls i ≡ call
        → Counts n idle live calls
        → IsCounted n (
            count_of call i (record { idle = idle; stopped = stopped; live = live; calls = calls }))
    count-IsCounted i (some (renewed c)) idle stopped live calls e h = record {
      exact = omega (
        arith,
        h.exact,
        h.bounded,
        small,
        counted_le calls,
        counted_lt calls i e,
        (change calls i (renewed c) (pushing c) e).0,
      );
      bounded = omega (arith, h.bounded, (change calls i (renewed c) (pushing c) e).1);
    }
    count-IsCounted i none idle stopped live calls e h = h
    count-IsCounted i (some (holding c)) idle stopped live calls e h = h
    count-IsCounted i (some renewing) idle stopped live calls e h = h
    count-IsCounted i (some giving_up) idle stopped live calls e h = h
    count-IsCounted i (some (pushing c)) idle stopped live calls e h = h
    count-IsCounted i (some draining) idle stopped live calls e h = h
    count-IsCounted i (some ended) idle stopped live calls e h = h

    pub give_up-IsCounted :
        (i : ℕ) (call : Option (RedisCall Conn)) (idle : List Conn) (stopped : Bool) (live : ℕ)
        (calls : List (RedisCall Conn))
        → get_elem? calls i ≡ call
        → Counts n idle live calls
        → IsCounted n (
            give_up_of call i
              (record { idle = idle; stopped = stopped; live = live; calls = calls }))
    give_up-IsCounted i (some giving_up) idle stopped live calls e h = record {
      exact = omega (arith, h.exact, (change calls i giving_up ended e).0);
      bounded = omega (arith, h.bounded, (change calls i giving_up ended e).1);
    }
    give_up-IsCounted i none idle stopped live calls e h = h
    give_up-IsCounted i (some (holding c)) idle stopped live calls e h = h
    give_up-IsCounted i (some renewing) idle stopped live calls e h = h
    give_up-IsCounted i (some (renewed c)) idle stopped live calls e h = h
    give_up-IsCounted i (some (pushing c)) idle stopped live calls e h = h
    give_up-IsCounted i (some draining) idle stopped live calls e h = h
    give_up-IsCounted i (some ended) idle stopped live calls e h = h

    pub push-IsCounted :
        (i : ℕ) (call : Option (RedisCall Conn)) (idle : List Conn) (stopped : Bool) (live : ℕ)
        (calls : List (RedisCall Conn))
        → get_elem? calls i ≡ call
        → Counts n idle live calls
        → IsCounted n
            (push_of call i (record { idle = idle; stopped = stopped; live = live; calls = calls }))
    push-IsCounted i (some (pushing c)) idle true live calls e h = record {
      exact = omega (
        arith,
        h.exact,
        h.bounded,
        small,
        counted_le calls,
        (change calls i (pushing c) ended e).0,
      );
      bounded = omega (arith, h.bounded, (change calls i (pushing c) ended e).1);
    }
    push-IsCounted i (some (pushing c)) idle false live calls e h = record {
      exact =
          omega
            (arith, h.exact, (change calls i (pushing c) ended e).0, length-append idle (c ∷ []));
      bounded =
          omega
            (arith, h.bounded, (change calls i (pushing c) ended e).1, length-append idle (c ∷ []));
    }
    push-IsCounted i none idle stopped live calls e h = h
    push-IsCounted i (some (holding c)) idle stopped live calls e h = h
    push-IsCounted i (some renewing) idle stopped live calls e h = h
    push-IsCounted i (some (renewed c)) idle stopped live calls e h = h
    push-IsCounted i (some giving_up) idle stopped live calls e h = h
    push-IsCounted i (some draining) idle stopped live calls e h = h
    push-IsCounted i (some ended) idle stopped live calls e h = h
