-- ===== src/Pools/MysqlPool.antt =====
-- ChatServerShared/MySqlPool.{h,cpp}: slots with a connection or without one.
use cpp_chat.Base.{
  leb, ◌==◌, if◌then◌else◌, length, get_elem?, set, is_positive, ℤ, pos, negsuc, ℕ, Bool, true,
  false, not, ◌&&◌, Option, none, some, List, [], ◌∷◌, ◌++◌,
}

-- The options of the pool; durations in milliseconds and seconds.
pub record MysqlOptions : Type 0 where
  pub borrow_timeout : ℤ
  pub connect_timeout : ℤ
  pub read_timeout : ℤ
  pub write_timeout : ℤ

-- x <= n, for a number n that is not negative.
abbrev at_most : ℕ → ℤ → Bool
at_most n (pos m) = leb m n
at_most n (negsuc m) = true

abbrev valid_seconds : ℤ → Bool
valid_seconds s = is_positive s && at_most 300 s

abbrev pub valid_options : ℕ → MysqlOptions → Bool
valid_options pool_size o =
    not (pool_size == 0)
    && (is_positive o.borrow_timeout
        && (at_most 300000 o.borrow_timeout
            && (valid_seconds o.connect_timeout
                && (valid_seconds o.read_timeout && valid_seconds o.write_timeout))))

-- A call on the pool: GetConnection while it checks its slot, a caller that holds a connection, and
-- a call that is over.
pub data MysqlCall (Conn : Type 0) : Type 0 where
  ensuring : Option Conn → MysqlCall Conn
  borrowed : Conn → MysqlCall Conn
  over : MysqlCall Conn

pub record MysqlPool (Conn : Type 0) : Type 0 where
  pub slots : List (Option Conn)
  pub halted : Bool
  pub calls : List (MysqlCall Conn)

-- A step: GetConnection's first section, its end with what the driver gives, ReturnConnection, Close.
pub data MysqlEvent (Conn : Type 0) : Type 0 where
  get_begins : MysqlEvent Conn
  get_ends : ℕ → Option Conn → MysqlEvent Conn
  returns : ℕ → MysqlEvent Conn
  closes : MysqlEvent Conn

module _ {Conn : Type 0} where
  -- The constructor; `connects` tells what each CreateConnection gives, and `none` is the exception.
  unfoldable pub new_mysql_pool : MysqlOptions → List (Option Conn) → Option (MysqlPool Conn)
  new_mysql_pool o connects =
      if valid_options (length connects) o
      then some (record { slots = connects; halted = false; calls = [] })
      else none

  abbrev pub take_slot : List (Option Conn) → MysqlPool Conn → MysqlPool Conn
  take_slot [] p = p
  take_slot (slot ∷ rest) p = record p { slots = rest; calls = p.calls ++ ensuring slot ∷ [] }

  -- GetConnection up to the release of the mutex; nothing is taken after a time-out.
  unfoldable pub begin_get : MysqlPool Conn → MysqlPool Conn
  begin_get p = if p.halted then p else take_slot p.slots p

  -- GetConnection from EnsureConnected on; `none` is its SQLException.
  abbrev pub ensured : Option Conn → ℕ → MysqlPool Conn → MysqlPool Conn
  ensured none i p = record p {
    slots = if p.halted then p.slots else p.slots ++ none ∷ [];
    calls = set p.calls i over;
  }
  ensured (some c) i p = record p { calls = set p.calls i (if p.halted then over else borrowed c) }

  abbrev pub end_get_of :
      Option (MysqlCall Conn) → Option Conn → ℕ → MysqlPool Conn → MysqlPool Conn
  end_get_of (some (ensuring slot)) result i p = ensured result i p
  end_get_of _ result i p = p

  unfoldable pub end_get : ℕ → Option Conn → MysqlPool Conn → MysqlPool Conn
  end_get i result p = end_get_of (get_elem? p.calls i) result i p

  -- ReturnConnection of the connection that the call holds.
  abbrev pub give_back_of : Option (MysqlCall Conn) → ℕ → MysqlPool Conn → MysqlPool Conn
  give_back_of (some (borrowed c)) i p = record p {
    slots = if p.halted then p.slots else p.slots ++ some c ∷ [];
    calls = set p.calls i over;
  }
  give_back_of _ i p = p

  unfoldable pub give_back : ℕ → MysqlPool Conn → MysqlPool Conn
  give_back i p = give_back_of (get_elem? p.calls i) i p

  -- Close.
  unfoldable pub close_mysql : MysqlPool Conn → MysqlPool Conn
  close_mysql p = record p { slots = []; halted = true }

  unfoldable pub mysql_step : MysqlEvent Conn → MysqlPool Conn → MysqlPool Conn
  mysql_step get_begins p = begin_get p
  mysql_step (get_ends i result) p = end_get i result p
  mysql_step (returns i) p = give_back i p
  mysql_step closes p = close_mysql p

  abbrev pub mysql_run : List (MysqlEvent Conn) → MysqlPool Conn → MysqlPool Conn
  mysql_run [] p = p
  mysql_run (e ∷ rest) p = mysql_run rest (mysql_step e p)
