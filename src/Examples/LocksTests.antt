-- ===== src/Examples/LocksTests.antt =====
-- Concrete instances for the lock and the health lease.
use cpp_chat.Base.{
  get_or, Text, bytes, text_eq, pos, ◌≡◌, refl, ap, ◌≢◌, some, List, [], ◌∷◌, arith,
}
use cpp_chat.Redis.{answered}
use cpp_chat.Redis.Store.{store_redis, empty_store, Store}
use cpp_chat.Locks.{lock_key, health_key, attempts, acquire, Attempt}

abbrev name : Text
name = bytes "u7"

abbrev mine : Text
mine = bytes "m"

-- Held by another caller at the first try, and expired before the second.
abbrev held : Store
held = store_redis.set_for (lock_key name) (bytes "o") 30 empty_store

abbrev tries : List (Attempt store_redis)
tries =
    record { meanwhile = λ s. s; end = answered }
    ∷ record { meanwhile = λ s. store_redis.elapse 40 s; end = answered }
    ∷ []

abbrev locked : Store
locked = (acquire store_redis name mine (pos 30) (pos 5) tries held).0

taken : (acquire store_redis name mine (pos 30) (pos 5) tries held).1 ≡ mine
unfolding acquire attempts text_eq
taken = refl

mine_is_some : mine ≢ []
mine_is_some e = absurd (cc e)

abbrev published : Store
published = store_redis.set_for (health_key (bytes "n1")) (bytes "i2") 30 empty_store

published_get : store_redis.get (health_key (bytes "n1")) published ≡ some (bytes "i2")
unfolding text_eq
published_get = refl

instances_differ : bytes "i2" ≢ bytes "i1"
instances_differ e = omega (arith, ap (λ t. get_or t 1 0) e)
