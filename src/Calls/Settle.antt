-- ===== src/Calls/Settle.antt =====
-- What VoiceTransition leaves in Redis: the two copies of a call are written and deleted together.
use cpp_chat.Base.{
  Bool-cases, get_or, Text, bytes, text_eq, text_eq_iff, ℤ, to_string-injective, ℕ, ◌<◌, ◌≡◌, ap,
  ◌∙◌, ◌≢◌, ◌⊎◌, inl, inr, Option, none, some, arith,
}
use cpp_chat.Redis.{Redis, IsRedis}
use cpp_chat.Leases.{success, redis_error, device_key, user_session}
use cpp_chat.Leases.Release.{text_eq-false}
use cpp_chat.Leases.Keys.{cancel_head}
use cpp_chat.Calls.{or_else, decide, Numbers, Call, Request, Verdict, finish, update}
use cpp_chat.Calls.Script.{voice_key, rate_key, write_both, Codec}

voice_key-injective : (a b : ℤ) → voice_key a ≡ voice_key b → a ≡ b
voice_key-injective a b e = to_string-injective a b (cancel_head (bytes "voice:") _ _ e)

pub rate_key-voice_key : (a b : ℤ) → voice_key b ≢ rate_key a
rate_key-voice_key a b e = omega (arith, ap (λ t. get_or t 5 0) e)

pub or_else-success : (o : Option ℕ) → or_else o redis_error ≡ success → o ≡ some success
or_else-success none h = absurd (omega (arith, h))
or_else-success (some n) h = cc h

module _ (R : Redis) (L : IsRedis R) (N : Numbers) (codec : Codec N.Num) where
  open R use {State, get, set_for, del}
  open L use {get_set, get_set_other, get_del, get_del_other}
  open N use {Num}
  open codec use {encode, decode}

  -- The two copies of a call have this text, or are gone.
  abbrev pub Copies : Request → Option Text → State → Type 0
  Copies r o s = (get (voice_key r.uid) s ≡ o) × (get (voice_key r.peer) s ≡ o)

  pub write_both-Copies :
      (v : Text) (seconds : ℕ) (r : Request) (s : State)
      → 0 < seconds
      → Copies r (some v) (write_both R N codec v seconds r s)
  write_both-Copies v seconds r s h = (
    elim (Bool-cases (text_eq (voice_key r.uid) (voice_key r.peer))) [
      | inl same ↦
          rw ((text_eq_iff (voice_key r.uid) (voice_key r.peer)).0 same)
            (get_set (voice_key r.peer) v seconds _ h)
      | inr apart ↦
          get_set_other (voice_key r.peer) v (voice_key r.uid) seconds _ (text_eq-false _ _ apart)
          ∙ get_set (voice_key r.uid) v seconds s h
    ],
    get_set (voice_key r.peer) v seconds _ h,
  )

  -- A verdict that reports success, and the two copies after it.
  abbrev Done : Request → Verdict Num → State → Type 0
  Done r v t =
      ((v ≡ finish success) × Copies r none t)
      ⊎ ((e : Call Num) × (v ≡ update e) × Copies r (some (encode e)) t)

  abbrev pub read_call : Option Text → Option (Call Num)
  read_call none = none
  read_call (some raw) = decode raw

  -- A successful step of a call, from the state `s` to `t`: the actor's session is the current one of its
  -- device, both copies of the call were there, and they were deleted or both written.
  pub record Settled (now : Num) (r : Request) (s t : State) : Type 0 where
    pub peer_session : Text
    pub c : Call Num
    pub d : Call Num
    pub current : get (user_session (device_key r.uid r.device)) s ≡ some r.session
    pub peer : get (user_session (device_key r.peer r.peer_device)) s ≡ some peer_session
    pub copy : read_call (get (voice_key r.uid) s) ≡ some c
    pub peer_copy : read_call (get (voice_key r.peer) s) ≡ some d
    pub done :
        ((decide N now r peer_session c d ≡ finish success) × Copies r none t)
        ⊎ ((e : Call Num) × (decide N now r peer_session c d ≡ update e)
            × Copies r (some (encode e)) t)
