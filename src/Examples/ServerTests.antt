-- ===== src/Examples/ServerTests.antt =====
-- Concrete instances for the server's tables: a limit of two connections, and a relogin.
use cpp_chat.Base.{
  length, get_or, bytes, text_eq, pos, ◌≤◌, ◌≡◌, refl, ap, ◌≢◌, true, false, List, [], ◌∷◌, map,
  arith,
}
use cpp_chat.Server.{
  check_valid, handle_accept, bind_user, take_session, clear_session, cleanup_session, run_cleanup,
  Server,
}
use cpp_chat.Server.Admission.{step, run, run-admitted, Event, accepts, binds, cleans, runs}

abbrev small_server : Server
small_server = record {
  sessions = [];
  users = [];
  cleanups = [];
  stopping = false;
  max_connections = 2;
}

abbrev history : List Event
history =
    accepts (bytes "a")
    ∷ accepts (bytes "b")
    ∷ accepts (bytes "c")
    ∷ binds (bytes "a") (pos 7) (bytes "desktop")
    ∷ cleans (bytes "a") (pos 7) true
    ∷ accepts (bytes "d")
    ∷ runs 0
    ∷ accepts (bytes "e")
    ∷ []

run-admitted_example : length (run history small_server).sessions ≤ 2
run-admitted_example = run-admitted history small_server (omega arith)

-- The refused connections have no entry; the cleaned one made room.
history_end : map (λ c. c.uuid) (run history small_server).sessions ≡ bytes "b" ∷ bytes "e" ∷ []
unfolding run step handle_accept cleanup_session run_cleanup clear_session take_session check_valid
    text_eq
history_end = refl

names_differ : bytes "a" ≢ bytes "b"
names_differ e = omega (arith, ap (λ t. get_or t 0 0) e)

abbrev relogged : Server
relogged =
    cleanup_session (bytes "a") (pos 7) true
      (bind_user (bytes "b") (pos 7) (bytes "desktop") (run history small_server))
