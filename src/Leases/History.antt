-- ===== src/Leases/History.antt =====
-- The leases of a slot over any history: commands of both nodes, of the status server, and time.
use cpp_chat.Base.{
  if◌then◌else◌, Bool-cases, is_some, Text, bytes, text_eq, text_eq_iff, ℤ, ℕ, zero, suc, ◌≡◌, refl,
  ◌∙◌, ◌⊎◌, inl, inr, Bool, true, false, not, ◌&&◌, ◌||◌, Option, none, some, List, [], ◌∷◌, ◌++◌,
  arith,
}
use mathlib.Core.Option
use cpp_chat.Redis.{Redis, IsRedis, Fate, answered, not_run, reply_lost}
use cpp_chat.Leases.{
  desktop, android, valid_device, device_key, user_session, user_ip, resource_token, holds,
  register_script, registered, register_session, refresh_script, refresh_device, refresh_next,
  refresh_session, release_device, release_session,
}
use cpp_chat.Leases.Keys.{user_session-utoken, user_ip-utoken, resource_token-utoken}
use cpp_chat.Leases.Release.{text_eq-false, Unchanged, Gone, release_device-Outcome}
use cpp_chat.Leases.Login.{
  authorised, consume-Registered, register_script-authorised, register_script-refused,
}
use cpp_chat.Leases.Once.{register_script-Unchanged}

pub data Event : Type 0 where
  registers : Fate → ℤ → Text → Text → Text → Text → Event
  refreshes : Fate → Fate → ℤ → Text → Event
  releases : Fate → Fate → ℤ → Text → Event
  -- The status server writes a pending credential.
  issues : Text → Text → ℕ → Event
  passes : ℕ → Event

pub record Login : Type 0 where
  pub session_id : Text
  pub token : Text
  pub server : Text

abbrev pub has_run : Fate → Bool
has_run answered = true
has_run not_run = false
has_run reply_lost = true

module _ (R : Redis) where
  open R use {State, get, set_for, elapse}

  unfoldable pub step : Event → State → State
  step (registers fate uid sid server token device) s =
      (register_session R fate uid sid server token device s).0
  step (refreshes first second uid sid) s = (refresh_session R first second uid sid s).0
  step (releases first second uid sid) s = (release_session R first second uid sid s).0
  step (issues rest token seconds) s = set_for (bytes "utoken_" ++ rest) token seconds s
  step (passes n) s = elapse n s

  unfoldable pub run : List Event → State → State
  run [] s = s
  run (ev ∷ evs) s = run evs (step ev s)

  -- The last login that was registered in the slot `id`.
  unfoldable pub login_after : Text → Event → State → Option Login → Option Login
  login_after id (registers fate uid sid server token device) s o =
      if valid_device device
        && (has_run fate && (text_eq id (device_key uid device) && authorised R uid device token s))
      then some (record { session_id = sid; token = token; server = server })
      else o
  login_after id (refreshes first second uid sid) s o = o
  login_after id (releases first second uid sid) s o = o
  login_after id (issues rest token seconds) s o = o
  login_after id (passes n) s o = o

  unfoldable pub last_login : Text → List Event → State → Option Login → Option Login
  last_login id [] s o = o
  last_login id (ev ∷ evs) s o = last_login id evs (step ev s) (login_after id ev s o)

  abbrev pub Is : Text → Option Text → State → Type 0
  Is k o s = (get k s ≡ none) ⊎ (get k s ≡ o)

  -- What is left of the slot `id` is of the login `o`.
  abbrev pub Coherent : Text → Option Login → State → Type 0
  Coherent id o s =
      Is (user_session id) (Option.map (λ (l : Login). l.session_id) o) s
      × Is (resource_token id) (Option.map (λ (l : Login). l.token) o) s
      × Is (user_ip id) (Option.map (λ (l : Login). l.server) o) s

module _ (R : Redis) (L : IsRedis R) (id : Text) where
  open R use {State, get, set_for, expire, elapse}
  open L use {get_set_other, get_expire, get_elapse}

  Is-same : (k : Text) (o : Option Text) (s t : State) → get k t ≡ get k s → Is R k o s → Is R k o t
  Is-same k o s t e (inl n) = inl (e ∙ n)
  Is-same k o s t e (inr v) = inr (e ∙ v)

  Is-later : (k : Text) (o : Option Text) (n : ℕ) (s : State) → Is R k o s → Is R k o (elapse n s)
  Is-later k o n s h = elim (get_elapse k n s) [ inl e ↦ inl e | inr e ↦ Is-same k o s _ e h ]

  Coherent-Unchanged :
      (o : Option Login) (s t : State) → Unchanged R id s t → Coherent R id o s → Coherent R id o t
  Coherent-Unchanged o s t u c = (
    Is-same (user_session id) _ s t u.0 c.0,
    Is-same (resource_token id) _ s t u.1 c.1,
    Is-same (user_ip id) _ s t u.2 c.2,
  )

  Coherent-Gone : (o : Option Login) (t : State) → Gone R id t → Coherent R id o t
  Coherent-Gone o t g = (inl g.0, inl g.1, inl g.2)

  refresh_script-get :
      (k : Text) (uid : ℤ) (device sid : Text) (s : State)
      → get k (refresh_script R uid device sid s).0 ≡ get k s
  unfolding refresh_script
  refresh_script-get k uid device sid s =
      let i = device_key uid device in
      elim (Bool-cases
        (not (holds (get (user_session i) s) sid) || not (is_some (get (resource_token i) s)))) [
          | inl e ↦ rw e refl
          | inr e ↦ rw e (
              get_expire (user_ip i) k _ _ (omega arith)
              ∙ get_expire (resource_token i) k _ _ (omega arith)
              ∙ get_expire (user_session i) k _ s (omega arith))
        ]

  refresh_device-get :
      (k : Text) (fate : Fate) (uid : ℤ) (device sid : Text) (s : State)
      → get k (refresh_device R fate uid device sid s).0 ≡ get k s
  refresh_device-get k answered uid device sid s = refresh_script-get k uid device sid s
  refresh_device-get k not_run uid device sid s = refl
  refresh_device-get k reply_lost uid device sid s = refresh_script-get k uid device sid s

  refresh_next-get :
      (k : Text) (fate : Fate) (uid : ℤ) (sid : Text) (r : State × Option ℕ)
      → get k (refresh_next R fate uid sid r).0 ≡ get k r.0
  refresh_next-get k fate uid sid (s, none) = refl
  refresh_next-get k fate uid sid (s, some zero) = refresh_device-get k fate uid android sid s
  refresh_next-get k fate uid sid (s, some (suc n)) = refl

  -- A refresh changes no value.
  pub refresh_session-get :
      (k : Text) (first second : Fate) (uid : ℤ) (sid : Text) (s : State)
      → get k (refresh_session R first second uid sid s).0 ≡ get k s
  unfolding refresh_session
  refresh_session-get k first second uid sid s =
      refresh_next-get k second uid sid _ ∙ refresh_device-get k first uid desktop sid s

  release_device-Coherent :
      (fate : Fate) (uid : ℤ) (device sid : Text) (o : Option Login) (s : State)
      → Coherent R id o s
      → Coherent R id o (release_device R fate uid device sid s).0
  release_device-Coherent fate uid device sid o s c =
      elim (release_device-Outcome R L id fate uid device sid s) [
        | inl u ↦ Coherent-Unchanged o s _ u c
        | inr (e, h, g) ↦ Coherent-Gone o _ g
      ]

  release_session-Coherent :
      (first second : Fate) (uid : ℤ) (sid : Text) (o : Option Login) (s : State)
      → Coherent R id o s
      → Coherent R id o (release_session R first second uid sid s).0
  unfolding release_session
  release_session-Coherent first second uid sid o s c =
      let r = release_device R first uid desktop sid s in
      let a = release_device-Coherent first uid desktop sid o s c in
      elim (Bool-cases r.1) [
        | inr stopped ↦ rw stopped a
        | inl going ↦ rw going (release_device-Coherent second uid android sid o r.0 a)
      ]

  registered-state :
      (fate : Fate) (r : State × ℕ) (s : State)
      → (registered R fate r s).0 ≡ (if has_run fate then r.0 else s)
  registered-state answered r s = refl
  registered-state not_run r s = refl
  registered-state reply_lost r s = refl

  -- A registration whose script runs and is authorised.
  register-Coherent :
      (uid : ℤ) (sid server token device : Text) (o : Option Login) (s : State)
      → Coherent R id o s
      → Coherent R id
          (if text_eq id (device_key uid device) && authorised R uid device token s
            then some (record { session_id = sid; token = token; server = server })
            else o)
          (register_script R uid device token sid server s).0
  register-Coherent uid sid server token device o s c =
      elim (Bool-cases (text_eq id (device_key uid device))) [
        | inr other ↦ rw other (
            Coherent-Unchanged o s _
              (register_script-Unchanged R L uid device token sid server id s
                (text_eq-false id (device_key uid device) other))
              c)
        | inl same ↦ elim (Bool-cases (authorised R uid device token s)) [
          | inr denied ↦
              rw (same, denied, register_script-refused R L uid device token sid server s denied) c
          | inl may ↦
              let e = (text_eq_iff id (device_key uid device)).0 same in
              let r = consume-Registered R L uid device token sid server s in
              rw (same, may, register_script-authorised R L uid device token sid server s may, e)
                (inr r.session, inr r.credential, inr r.routed)
        ]
      ]

  register_session-Coherent :
      (fate : Fate) (uid : ℤ) (sid server token device : Text) (o : Option Login) (s : State)
      → Coherent R id o s
      → Coherent R id
          (login_after R id (registers fate uid sid server token device) s o)
          (register_session R fate uid sid server token device s).0
  unfolding login_after register_session
  register_session-Coherent fate uid sid server token device o s c =
      elim (Bool-cases (valid_device device)) [
        | inr refused ↦ rw refused c
        | inl valid ↦ elim (Bool-cases (has_run fate)) [
          | inr lost ↦ rw (valid, registered-state fate _ s, lost) c
          | inl ran ↦
              rw (valid, registered-state fate _ s, ran)
                (register-Coherent uid sid server token device o s c)
        ]
      ]

  step-Coherent :
      (ev : Event) (o : Option Login) (s : State)
      → Coherent R id o s
      → Coherent R id (login_after R id ev s o) (step R ev s)
  unfolding step login_after
  step-Coherent (registers fate uid sid server token device) o s c =
      register_session-Coherent fate uid sid server token device o s c
  step-Coherent (refreshes first second uid sid) o s c =
      Coherent-Unchanged o s _
        (
          refresh_session-get _ first second uid sid s,
          refresh_session-get _ first second uid sid s,
          refresh_session-get _ first second uid sid s,
        )
        c
  step-Coherent (releases first second uid sid) o s c =
      release_session-Coherent first second uid sid o s c
  step-Coherent (issues rest token seconds) o s c =
      Coherent-Unchanged o s _
        (
          get_set_other _ token _ seconds s (user_session-utoken id rest),
          get_set_other _ token _ seconds s (resource_token-utoken id rest),
          get_set_other _ token _ seconds s (user_ip-utoken id rest),
        )
        c
  step-Coherent (passes n) o s c = (
    Is-later (user_session id) _ n s c.0,
    Is-later (resource_token id) _ n s c.1,
    Is-later (user_ip id) _ n s c.2,
  )

  run-from :
      (evs : List Event) (o : Option Login) (s : State)
      → Coherent R id o s
      → Coherent R id (last_login R id evs s o) (run R evs s)
  unfolding run last_login
  run-from [] o s c = c
  run-from (ev ∷ evs) o s c = run-from evs _ _ (step-Coherent ev o s c)

  -- From a Redis without leases in the slot: over any history, each of its session, credential and
  -- route is absent or is that of the last login registered in it. Leases of two logins never mix.
  pub run-Coherent :
      (evs : List Event) (s : State)
      → Gone R id s
      → Coherent R id (last_login R id evs s none) (run R evs s)
  run-Coherent evs s g = run-from evs none s (Coherent-Gone none s g)
