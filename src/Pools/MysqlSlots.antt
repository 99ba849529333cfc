-- ===== src/Pools/MysqlSlots.antt =====
-- No slot of ChatServerShared/MySqlPool.cpp is lost: whatever the database does, the capacity of an open
-- pool stays what it was.
use cpp_chat.Base.{
  Bool-cases, length, get_elem?, sum_by, length-append, sum_by-set, sum_by-append, ℕ, ◌+◌, ◌≤◌, ◌<◌,
  ◌≡◌, refl, subst, inl, inr, Bool, true, false, Option, none, some, List, [], ◌∷◌, arith,
}
use cpp_chat.Pools.MysqlPool.{
  valid_options, new_mysql_pool, begin_get, end_get_of, end_get, give_back_of, give_back,
  close_mysql, mysql_step, mysql_run, MysqlOptions, MysqlCall, ensuring, borrowed, over, MysqlPool,
  MysqlEvent, get_begins, get_ends, returns, closes,
}

module _ {Conn : Type 0} where
  -- A call that keeps a slot.
  abbrev pub keeps_slot : MysqlCall Conn → ℕ
  keeps_slot (ensuring slot) = 1
  keeps_slot (borrowed c) = 1
  keeps_slot over = 0

  -- The slots of an open pool and of its calls are n; a closed pool has no idle slot, and its calls at
  -- most n.
  abbrev pub Slots : ℕ → List (Option Conn) → Bool → List (MysqlCall Conn) → Type 0
  Slots n slots false calls = length slots + sum_by keeps_slot calls ≡ n
  Slots n slots true calls = (slots ≡ []) × (sum_by keeps_slot calls ≤ n)

  abbrev pub HasSlots : ℕ → MysqlPool Conn → Type 0
  HasSlots n p = Slots n p.slots p.halted p.calls

  module _ (n : ℕ) where
    begin_get-HasSlots :
        (slots : List (Option Conn)) (halted : Bool) (calls : List (MysqlCall Conn))
        → Slots n slots halted calls
        → HasSlots n (begin_get (record { slots = slots; halted = halted; calls = calls }))
    unfolding begin_get
    begin_get-HasSlots slots true calls h = h
    begin_get-HasSlots [] false calls h = h
    begin_get-HasSlots (slot ∷ rest) false calls h =
        omega (arith, h, sum_by-append keeps_slot calls (ensuring slot ∷ []))

    end_get-HasSlots :
        (i : ℕ) (result : Option Conn) (call : Option (MysqlCall Conn)) (slots : List (Option Conn))
        (halted : Bool) (calls : List (MysqlCall Conn))
        → get_elem? calls i ≡ call
        → Slots n slots halted calls
        → HasSlots n
            (end_get_of call result i (record { slots = slots; halted = halted; calls = calls }))
    end_get-HasSlots i (some c) (some (ensuring slot)) slots true calls e h =
        (h.0, omega (arith, h.1, sum_by-set keeps_slot calls i (ensuring slot) over e))
    end_get-HasSlots i none (some (ensuring slot)) slots true calls e h =
        (h.0, omega (arith, h.1, sum_by-set keeps_slot calls i (ensuring slot) over e))
    end_get-HasSlots i (some c) (some (ensuring slot)) slots false calls e h =
        omega (arith, h, sum_by-set keeps_slot calls i (ensuring slot) (borrowed c) e)
    end_get-HasSlots i none (some (ensuring slot)) slots false calls e h = omega (
      arith,
      h,
      sum_by-set keeps_slot calls i (ensuring slot) over e,
      length-append slots (none ∷ []),
    )
    end_get-HasSlots i result (some (borrowed c)) slots halted calls e h = h
    end_get-HasSlots i result (some over) slots halted calls e h = h
    end_get-HasSlots i result none slots halted calls e h = h

    give_back-HasSlots :
        (i : ℕ) (call : Option (MysqlCall Conn)) (slots : List (Option Conn)) (halted : Bool)
        (calls : List (MysqlCall Conn))
        → get_elem? calls i ≡ call
        → Slots n slots halted calls
        → HasSlots n
            (give_back_of call i (record { slots = slots; halted = halted; calls = calls }))
    give_back-HasSlots i (some (borrowed c)) slots true calls e h =
        (h.0, omega (arith, h.1, sum_by-set keeps_slot calls i (borrowed c) over e))
    give_back-HasSlots i (some (borrowed c)) slots false calls e h = omega (
      arith,
      h,
      sum_by-set keeps_slot calls i (borrowed c) over e,
      length-append slots (some c ∷ []),
    )
    give_back-HasSlots i (some (ensuring slot)) slots halted calls e h = h
    give_back-HasSlots i (some over) slots halted calls e h = h
    give_back-HasSlots i none slots halted calls e h = h

    close-HasSlots :
        (slots : List (Option Conn)) (halted : Bool) (calls : List (MysqlCall Conn))
        → Slots n slots halted calls
        → HasSlots n (close_mysql (record { slots = slots; halted = halted; calls = calls }))
    unfolding close_mysql
    close-HasSlots slots false calls h = (refl, omega (arith, h))
    close-HasSlots slots true calls h = (refl, h.1)

    step-HasSlots :
        (e : MysqlEvent Conn) (p : MysqlPool Conn) → HasSlots n p → HasSlots n (mysql_step e p)
    unfolding mysql_step end_get give_back
    step-HasSlots get_begins p h = begin_get-HasSlots p.slots p.halted p.calls h
    step-HasSlots (get_ends i result) p h =
        end_get-HasSlots i result (get_elem? p.calls i) p.slots p.halted p.calls refl h
    step-HasSlots (returns i) p h =
        give_back-HasSlots i (get_elem? p.calls i) p.slots p.halted p.calls refl h
    step-HasSlots closes p h = close-HasSlots p.slots p.halted p.calls h

    run-HasSlots :
        (events : List (MysqlEvent Conn)) (p : MysqlPool Conn)
        → HasSlots n p
        → HasSlots n (mysql_run events p)
    run-HasSlots [] p h = h
    run-HasSlots (e ∷ rest) p h = run-HasSlots rest (mysql_step e p) (step-HasSlots e p h)

  -- The MySQL pool never loses a slot: after any steps of any calls, whether connections are made or
  -- fail, the idle slots and those of the calls under way are as many as at the start while the pool is
  -- open; a closed pool keeps no connection, and its calls have at most as many.
  pub mysql_run-HasSlots :
      (o : MysqlOptions) (connects : List (Option Conn)) (p : MysqlPool Conn)
      (events : List (MysqlEvent Conn))
      → new_mysql_pool o connects ≡ some p
      → (0 < length connects) × HasSlots (length connects) (mysql_run events p)
  unfolding new_mysql_pool
  mysql_run-HasSlots o connects p events h = elim (Bool-cases (valid_options (length connects) o)) [
    | inr bad ↦ absurd (ground arith)
    | inl good ↦
        let start : record { slots = connects; halted = false; calls = [] } ≡ p = ground arith in
        (
          ground arith,
          run-HasSlots (length connects) events p
              (subst (HasSlots (length connects)) start (omega arith)),
        )
  ]
