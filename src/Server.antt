-- ===== src/Server.antt =====
-- The table of logged-in sessions (ChatServerShared/UserMgr.cpp) and the server's table of connections:
-- admission, cleanup and maintenance (ChatServerShared/CServer.cpp). Locked sections are single steps. A
-- session is known by its id; the cleanup executor's waiting tasks are a list, run in any order.
pub mod Slots
pub mod Admission
pub mod Maintain
use cpp_chat.Base.{
  ltb, if◌then◌else◌, length, get_elem?, remove_at, any_by, Text, text_eq, is_positive, int_eq, ℤ,
  pos, ℕ, ◌+◌, ◌-◌, ◌/◌, Bool, true, false, not, ◌&&◌, Option, none, some, List, [], ◌∷◌, ◌++◌, map,
}

-- A device's entry of a user in _uid_to_session.
pub record Slot : Type 0 where
  pub uid : ℤ
  pub device : Text
  pub session_id : Text

abbrev pub is_slot : ℤ → Text → Slot → Bool
is_slot uid device x = int_eq x.uid uid && text_eq x.device device

-- UserMgr::GetSession.
unfoldable pub get_session : ℤ → Text → List Slot → Option Text
get_session uid device [] = none
get_session uid device (x ∷ xs) =
    let rest = get_session uid device xs in if is_slot uid device x then some x.session_id else rest

-- UserMgr::SetUserSession.
unfoldable pub set_user_session : ℤ → Text → Text → List Slot → List Slot
set_user_session uid device id [] = record { uid = uid; device = device; session_id = id } ∷ []
set_user_session uid device id (x ∷ xs) =
    let rest = set_user_session uid device id xs in
    if is_slot uid device x then record x { session_id = id } ∷ xs else x ∷ rest

-- UserMgr::RmvUserSession.
unfoldable pub rmv_user_session : ℤ → Text → List Slot → List Slot
rmv_user_session uid id [] = []
rmv_user_session uid id (x ∷ xs) =
    let rest = rmv_user_session uid id xs in
    if int_eq x.uid uid && text_eq x.session_id id then xs else x ∷ rest

-- An entry of CServer's sessions_, with the user of its session.
pub record Connection : Type 0 where
  pub uuid : Text
  pub user_id : ℤ

pub record Server : Type 0 where
  pub sessions : List Connection
  pub users : List Slot
  pub cleanups : List (Text × ℤ)
  pub stopping : Bool
  pub max_connections : ℕ

abbrev pub has_uuid : Text → Connection → Bool
has_uuid uuid c = text_eq c.uuid uuid

-- CheckValid.
unfoldable pub check_valid : Text → Server → Bool
check_valid uuid s = any_by (has_uuid uuid) s.sessions

-- HandleAccept of a connection without error; `false` closes it. emplace keeps an entry that is there.
unfoldable pub handle_accept : Text → Server → Server × Bool
unfolding check_valid
handle_accept uuid s =
    if not s.stopping && ltb (length s.sessions) s.max_connections
    then (
      if check_valid uuid s
          then s
          else record s { sessions = s.sessions ++ record { uuid = uuid; user_id = pos 0 } ∷ [] },
      true,
    )
    else (s, false)

-- StopAccepting.
abbrev pub stop_accepting : Server → Server
stop_accepting s = record s { stopping = true }

abbrev pub set_user : Text → ℤ → Connection → Connection
set_user uuid uid c = if has_uuid uuid c then record c { user_id = uid } else c

-- A login binds the session (CSession::BindAuthenticatedUser).
abbrev pub bind_user : Text → ℤ → Text → Server → Server
bind_user uuid uid device s = record s {
  sessions = map (set_user uuid uid) s.sessions;
  users = set_user_session uid device uuid s.users;
}

-- sessions_.find and erase: the user of the entry, and the others.
unfoldable pub take_session : Text → List Connection → Option ℤ × List Connection
take_session uuid [] = (none, [])
take_session uuid (c ∷ cs) =
    let rest = take_session uuid cs in
    if has_uuid uuid c then (some c.user_id, cs) else (rest.0, c ∷ rest.1)

abbrev pub forget_user : Text → Option ℤ → List Slot → List Slot
forget_user uuid none users = users
forget_user uuid (some uid) users =
    if is_positive uid then rmv_user_session uid uuid users else users

-- ClearSession.
unfoldable pub clear_session : Text → Server → Server
unfolding take_session
clear_session uuid s =
    let r = take_session uuid s.sessions in
    record s { sessions = r.1; users = forget_user uuid r.0 s.users }

-- CleanupSession; `admitted` is what the cleanup executor's Submit returns.
unfoldable pub cleanup_session : Text → ℤ → Bool → Server → Server
unfolding clear_session
cleanup_session uuid uid admitted s =
    if not (is_positive uid)
    then clear_session uuid s
    else (let t = record s { users = rmv_user_session uid uuid s.users } in
        if admitted
        then record t { cleanups = t.cleanups ++ (uuid, uid) ∷ [] }
        else clear_session uuid t)

-- The end of a cleanup task, after ReleaseSession, whatever that returned or threw.
abbrev pub end_cleanup : Option (Text × ℤ) → Server → Server
end_cleanup none s = s
end_cleanup (some (uuid, uid)) s = clear_session uuid s

unfoldable pub run_cleanup : ℕ → Server → Server
run_cleanup k s =
    end_cleanup (get_elem? s.cleanups k) (record s { cleanups = remove_at s.cleanups k })

-- The end of StopCleanup: tasks that did not run are left to their leases.
abbrev pub stop_cleanup : Server → Server
stop_cleanup s = record s { sessions = []; cleanups = [] }
