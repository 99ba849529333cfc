-- ===== src/Executor/Steps.antt =====
-- The interleavings of an executor: any thread may submit or stop, and any worker may take its next
-- locked section, in any order. A run is a list of such events.
use cpp_chat.Base.{ℕ, Bool, Option, none, some, List, [], ◌∷◌, Text}
use cpp_chat.Executor.{Doubles, Executor, submit, begin_stop, stop, wake, complete}

pub data Event (A : Type 0) : Type 0 where
  submits : Text → Option A → ℕ → Event A
  begins_stop : Event A
  stops : Bool → Event A
  wakes : ℕ → Event A
  completes : ℕ → ℕ → ℕ → Bool → Event A

-- A worker that cannot take its section goes on waiting.
abbrev pub or_stay {ℓ} : {A : Type ℓ} → A → Option A → A
or_stay a none = a
or_stay a (some b) = b

module _ (F : Doubles) {A : Type 0} (hash : Text → ℕ) where
  open F use {Double}

  unfoldable pub step : Event A → Executor Double A → Executor Double A
  step (submits key task now) e = (submit hash key task now e).0
  step begins_stop e = begin_stop e
  step (stops drain) e = (stop drain e).0
  step (wakes i) e = or_stay e (wake i e)
  step (completes i started finished threw) e = or_stay e (complete F i started finished threw e)

  unfoldable pub run : List (Event A) → Executor Double A → Executor Double A
  run [] e = e
  run (ev ∷ evs) e = run evs (step ev e)
