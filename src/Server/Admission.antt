-- ===== src/Server/Admission.antt =====
-- The number of connections never exceeds the limit.
use cpp_chat.Base.{
  Bool-cases, length, get_elem?, remove_at, length-append, length-map, Text, is_positive, ℤ, pos, ℕ,
  ◌≤◌, ◌≡◌, refl, inl, inr, Bool, Option, none, some, List, [], ◌∷◌, map, arith,
}
use cpp_chat.Server.{
  rmv_user_session, handle_accept, stop_accepting, set_user, bind_user, take_session, clear_session,
  cleanup_session, end_cleanup, run_cleanup, stop_cleanup, Connection, Server,
}

pub data Event : Type 0 where
  accepts : Text → Event
  binds : Text → ℤ → Text → Event
  cleans : Text → ℤ → Bool → Event
  runs : ℕ → Event
  stops_accepting stops_cleanup : Event

unfoldable pub step : Event → Server → Server
step (accepts uuid) s = (handle_accept uuid s).0
step (binds uuid uid device) s = bind_user uuid uid device s
step (cleans uuid uid admitted) s = cleanup_session uuid uid admitted s
step (runs k) s = run_cleanup k s
step stops_accepting s = stop_accepting s
step stops_cleanup s = stop_cleanup s

unfoldable pub run : List Event → Server → Server
run [] s = s
run (ev ∷ evs) s = run evs (step ev s)

length-take_session :
    (uuid : Text) (cs : List Connection) → length (take_session uuid cs).1 ≤ length cs
unfolding take_session
length-take_session uuid [] = omega arith
length-take_session uuid (c ∷ cs) = ground (arith, length-take_session uuid cs)

-- A step keeps the limit, and the number of connections under it.
abbrev pub Bounded : Server → Server → Type 0
Bounded s t =
    (t.max_connections ≡ s.max_connections)
    × (length s.sessions ≤ s.max_connections → length t.sessions ≤ t.max_connections)

clear_session-bounded :
    (uuid : Text) (s : Server)
    → ((clear_session uuid s).max_connections ≡ s.max_connections)
      × (length (clear_session uuid s).sessions ≤ length s.sessions)
unfolding clear_session
clear_session-bounded uuid s = (refl, length-take_session uuid s.sessions)

length-map_set :
    (uuid : Text) (uid : ℤ) (cs : List Connection) → length (map (set_user uuid uid) cs) ≡ length cs
length-map_set uuid uid cs = length-map cs (set_user uuid uid)

end_cleanup-Bounded : (o : Option (Text × ℤ)) (s : Server) → Bounded s (end_cleanup o s)
end_cleanup-Bounded none s = (refl, λ h. h)
end_cleanup-Bounded (some (uuid, uid)) s =
    let c = clear_session-bounded uuid s in (c.0, λ h. rw c.0 (omega (arith, c.1, h)))

cleanup_session-Bounded :
    (uuid : Text) (uid : ℤ) (admitted : Bool) (s : Server)
    → Bounded s (cleanup_session uuid uid admitted s)
unfolding cleanup_session
cleanup_session-Bounded uuid uid admitted s =
    let c = clear_session-bounded uuid s in
    let d = clear_session-bounded uuid (record s { users = rmv_user_session uid uuid s.users }) in
    elim (Bool-cases (is_positive uid)) [
      | inr stranger ↦ rw stranger (c.0, λ h. rw c.0 (omega (arith, c.1, h)))
      | inl user ↦ elim (Bool-cases admitted) [
        | inl later ↦ rw (user, later) (refl, λ h. h)
        | inr now ↦ rw (user, now) (d.0, λ h. rw d.0 (omega (arith, d.1, h)))
      ]
    ]

step-Bounded : (ev : Event) (s : Server) → Bounded s (step ev s)
unfolding step
step-Bounded (accepts uuid) s =
    unfold handle_accept in
    (
      ground arith,
      λ h. ground (arith, length-append s.sessions (record { uuid = uuid; user_id = pos 0 } ∷ [])),
    )
step-Bounded (binds uuid uid device) s =
    (refl, λ h. omega (arith, length-map_set uuid uid s.sessions, h))
step-Bounded (cleans uuid uid admitted) s = cleanup_session-Bounded uuid uid admitted s
step-Bounded (runs k) s =
    unfold run_cleanup in
    end_cleanup-Bounded (get_elem? s.cleanups k) (record s { cleanups = remove_at s.cleanups k })
step-Bounded stops_accepting s = (refl, λ h. h)
step-Bounded stops_cleanup s = (refl, λ h. omega arith)

-- The number of connections, those that wait for their cleanup included, never exceeds the limit that
-- the server started with, whatever accepts, logins, cleanups and stops there are, in any order.
pub run-admitted :
    (evs : List Event) (s : Server)
    → length s.sessions ≤ s.max_connections
    → length (run evs s).sessions ≤ s.max_connections
unfolding run
run-admitted [] s h = h
run-admitted (ev ∷ evs) s h =
    let b = step-Bounded ev s in omega (arith, run-admitted evs (step ev s) (b.1 h), b.0)
