-- ===== src/Server/Maintain.antt =====
-- The periodic scan of the connections (CServer::MaintainSessions, ChatServerShared/CServer.cpp), over the
-- session leases.
use cpp_chat.Base.{
  ◌==◌, if◌then◌else◌, Text, is_positive, ℕ, zero, suc, ◌≡◌, ◌⊎◌, Bool, true, false, not, ◌&&◌,
  ◌||◌, Option, none, some, List, [], ◌∷◌,
}
use cpp_chat.Redis.{Redis, Fate}
use cpp_chat.Leases.{desktop, android, refresh_session}
use cpp_chat.Leases.Refresh.{owns}
use cpp_chat.Session.{is_closed, Session}

-- A session of the snapshot, as the scan finds it: whether its heartbeat has expired, and how its two
-- refresh scripts end.
pub record Member : Type 0 where
  pub id : Text
  pub session : Session
  pub expired : Bool
  pub ends : Fate × Fate

-- refreshed == 0
abbrev pub is_lost : Option ℕ → Bool
is_lost none = false
is_lost (some n) = n == 0

abbrev pub keep_or_close : Bool → Text → List Text → List Text
keep_or_close true id rest = id ∷ rest
keep_or_close false id rest = rest

-- The count of online sessions that is published.
unfoldable pub online_count : List Member → ℕ
online_count [] = 0
online_count (m ∷ ms) =
    let rest = online_count ms in
    if not (is_closed m.session) && (not m.expired && is_positive m.session.user_id)
    then suc rest
    else rest

module _ (R : Redis) where
  open R use {State, get}

  -- What the scan does with one session: Redis after it, and whether it closes the session.
  unfoldable pub maintain_session : Member → State → State × Bool
  maintain_session m s =
      if is_closed m.session
      then (s, false)
      else if m.expired
      then (s, true)
      else if is_positive m.session.user_id
      then (let r = refresh_session R m.ends.0 m.ends.1 m.session.user_id m.id s in
          (r.0, is_lost r.1))
      else (s, false)

  -- The second loop; it breaks when `stopping_` is seen, before the member that `budget` counts to. The
  -- ids of the sessions that it closes.
  unfoldable pub maintain_sessions : ℕ → List Member → State → State × List Text
  maintain_sessions zero ms s = (s, [])
  maintain_sessions (suc budget) [] s = (s, [])
  maintain_sessions (suc budget) (m ∷ ms) s =
      let r = maintain_session m s in
      let rest = maintain_sessions budget ms r.0 in (rest.0, keep_or_close r.1 m.id rest.1)

  -- A session that the scan may close: it is open, and its heartbeat expired or it is logged in and owns
  -- no slot of its user.
  abbrev pub is_dead : State → Member → Bool
  is_dead s m =
      not (is_closed m.session)
      && (m.expired
          || (is_positive m.session.user_id
              && not (
                  owns R m.session.user_id m.id desktop s
                  || owns R m.session.user_id m.id android s)))

  -- Every closed session is a dead one of the snapshot.
  abbrev pub AllDead : State → List Text → List Member → Type 0
  AllDead s ids [] = ids ≡ []
  AllDead s [] (m ∷ ms) = Unit
  AllDead s (id ∷ ids) (m ∷ ms) =
      ((id ≡ m.id) × (is_dead s m ≡ true) × AllDead s ids ms) ⊎ AllDead s (id ∷ ids) ms
