-- ===== src/Examples/PoolsTests.antt =====
-- Concrete instances for the connection pools; a connection is a number.
use cpp_chat.Base.{sum_by, pos, ℕ, ◌<◌, ◌≡◌, refl, true, false, none, some, List, [], ◌∷◌, arith}
use cpp_chat.Pools.MysqlPool.{
  new_mysql_pool, begin_get, end_get, give_back, mysql_step, mysql_run, MysqlOptions, MysqlPool,
  MysqlEvent, get_begins, get_ends, returns,
}
use cpp_chat.Pools.MysqlSlots.{HasSlots, mysql_run-HasSlots}
use cpp_chat.Pools.RedisPool.{
  new_redis_pool, borrow, begin_close, redis_step, redis_run, giving_up, ended, RedisPool,
  RedisEvent, borrows, hands_back, creates, counts, gives_up, pushes, begins_close, drains,
}
use cpp_chat.Pools.RedisReturn.{counted, is_draining}
use cpp_chat.Pools.RedisClose.{reached, redis_run-releases}
use cpp_chat.Pools.RedisLost.{IsStuck, redis_run-IsStuck}

abbrev three_seconds : MysqlOptions
three_seconds = record {
  borrow_timeout = pos 3000;
  connect_timeout = pos 3;
  read_timeout = pos 5;
  write_timeout = pos 5;
}

abbrev two_slots : MysqlPool ℕ
two_slots = record { slots = some 1 ∷ none ∷ []; halted = false; calls = [] }

-- The database goes away under one call while the other gives its connection back.
abbrev outage : List (MysqlEvent ℕ)
outage = get_begins ∷ get_begins ∷ get_ends 0 none ∷ get_ends 1 (some 2) ∷ returns 1 ∷ []

two_slots_new : new_mysql_pool three_seconds (some 1 ∷ none ∷ []) ≡ some two_slots
unfolding new_mysql_pool
two_slots_new = refl

mysql_run-HasSlots_example : (0 < 2) × HasSlots 2 (mysql_run outage two_slots)
mysql_run-HasSlots_example =
    mysql_run-HasSlots three_seconds (some 1 ∷ none ∷ []) two_slots outage two_slots_new

after_outage : (mysql_run outage two_slots).slots ≡ none ∷ some 2 ∷ []
unfolding mysql_step begin_get end_get give_back
after_outage = refl

abbrev work : List (RedisEvent ℕ)
work = borrows ∷ hands_back 0 true ∷ creates 0 (some 2) ∷ counts 0 ∷ pushes 0 ∷ []

abbrev work_and_close : List (RedisEvent ℕ)
work_and_close = borrows ∷ begins_close ∷ hands_back 0 false ∷ drains 1 ∷ []

closed_stopped : (reached (some 1 ∷ some 2 ∷ []) work_and_close).stopped ≡ true
unfolding redis_step borrow begin_close new_redis_pool
closed_stopped = refl

closed_drained : sum_by is_draining (reached (some 1 ∷ some 2 ∷ []) work_and_close).calls ≡ 0
unfolding redis_step borrow begin_close new_redis_pool
closed_drained = refl

closed_counted : sum_by counted (reached (some 1 ∷ some 2 ∷ []) work_and_close).calls ≡ 0
unfolding redis_step borrow begin_close new_redis_pool
closed_counted = refl

redis_run-releases_example :
    ((reached (some 1 ∷ some 2 ∷ []) work_and_close).idle ≡ [])
    × ((reached (some 1 ∷ some 2 ∷ []) work_and_close).live ≡ 0)
redis_run-releases_example =
    redis_run-releases (some 1 ∷ some 2 ∷ []) work_and_close (omega arith) refl closed_stopped
      closed_drained closed_counted

-- Two broken connections: one call finds no connection, the other makes one and puts it back.
abbrev race : List (RedisEvent ℕ)
race =
    borrows
    ∷ borrows
    ∷ hands_back 0 true
    ∷ hands_back 1 true
    ∷ creates 0 none
    ∷ creates 1 (some 3)
    ∷ counts 1
    ∷ pushes 1
    ∷ []

abbrev raced : RedisPool ℕ
raced = record { idle = 3 ∷ []; stopped = false; live = 1; calls = giving_up ∷ ended ∷ [] }

race_lem : redis_run race (new_redis_pool (some 1 ∷ some 2 ∷ [])) ≡ raced
unfolding redis_step borrow new_redis_pool
race_lem = refl

redis_run-IsStuck_example : IsStuck (3 ∷ []) (redis_run (gives_up 0 ∷ begins_close ∷ []) raced)
redis_run-IsStuck_example = redis_run-IsStuck raced 0 (begins_close ∷ []) refl refl
