-- ===== src/Examples/StatusTests.antt =====
-- Concrete instances for the status server: a node that is down and two with the same load.

use mathlib.Core.List.Perm
use cpp_chat.Base.{
  if◌then◌else◌, get_or, Text, bytes, text_eq, pos, ◌-◌, ◌≡◌, refl, ap, ◌≢◌, ◌⊎◌, true, Option,
  none, some, List, [], ◌∷◌, arith,
}
use cpp_chat.Redis.{answered}
use cpp_chat.Redis.Store.{store_redis, empty_store, store_redis-IsRedis}
use cpp_chat.Leases.{success, desktop, valid_device, register_session, ReadStatus, found, missing}
use cpp_chat.Requests.{text}
use cpp_chat.Status.{
  load_of, consider, text_lt, insert, sort, scan, choose_chat_server, get_chat_server, status_login,
  ChatServer, Health, Chosen,
}
use cpp_chat.Status.Choice.{reference_choice, choose_chat_server-reference_choice}
use cpp_chat.Status.Sorting.{Distinct}
use cpp_chat.Status.Order.{choose_chat_server-forgets_order}
use cpp_chat.Status.Tickets.{
  all_answered, is_known, login_answer, status_login-is_known, get_chat_server-admits,
}

abbrev node : Text → ChatServer
node name = record { host = bytes "h"; port = bytes "1"; name = name; con_count = 0 }

-- A report is the text of the load's digit.
abbrev toy_parse : Text → Option Health
toy_parse [] = none
toy_parse (d ∷ rest) =
    some (record { is_object = true; instance_id = text (bytes "i"); online = some (d - 48) })

abbrev toy_health : Text → ReadStatus
toy_health name = if text_eq name (bytes "b") then missing else found (bytes "4")

abbrev three_nodes : List ChatServer
three_nodes = node (bytes "c") ∷ node (bytes "b") ∷ node (bytes "a") ∷ []

second_turn :
    (choose_chat_server toy_parse toy_health three_nodes 5).chosen
    ≡ some (record (node (bytes "c")) { con_count = 4 })
unfolding choose_chat_server scan consider sort insert text_lt load_of text_eq
second_turn = refl

choose_chat_server-reference_choice_example :
    choose_chat_server toy_parse toy_health three_nodes 5
    ≡ reference_choice toy_parse toy_health three_nodes 5
choose_chat_server-reference_choice_example =
    choose_chat_server-reference_choice toy_parse toy_health three_nodes 5

nodes-Distinct : Distinct (node (bytes "a") ∷ node (bytes "b") ∷ [])
nodes-Distinct = (((λ e. omega (arith, ap (λ t. get_or t 0 0) e)), tt), (tt, tt))

choose_chat_server-forgets_order_example :
    choose_chat_server toy_parse toy_health (node (bytes "a") ∷ node (bytes "b") ∷ []) 5
    ≡ choose_chat_server toy_parse toy_health (node (bytes "b") ∷ node (bytes "a") ∷ []) 5
choose_chat_server-forgets_order_example =
    choose_chat_server-forgets_order toy_parse toy_health (node (bytes "a") ∷ node (bytes "b") ∷ [])
      (node (bytes "b") ∷ node (bytes "a") ∷ []) 5
      (Perm.swap (node (bytes "b")) (node (bytes "a")) []) nodes-Distinct

status_login-is_known_example :
    (status_login store_redis all_answered (pos 7) (bytes "t") empty_store
      ≡ login_answer store_redis (pos 7) (bytes "t") empty_store)
    × ((status_login store_redis all_answered (pos 7) (bytes "t") empty_store ≢ success)
        ⊎ (is_known store_redis (pos 7) (bytes "t") empty_store ≡ true))
status_login-is_known_example =
    status_login-is_known store_redis all_answered (pos 7) (bytes "t") empty_store

abbrev choice : Chosen
choice = record { error_code = 0; chosen = some (node (bytes "a")); next_choice = 1 }

token_filled : bytes "t" ≢ []
token_filled e = cc e

desktop_valid : valid_device desktop ≡ true
unfolding valid_device text_eq
desktop_valid = refl

ticket_issued :
    (get_chat_server store_redis answered (pos 7) (bytes "t") choice empty_store).1.code ≡ success
unfolding get_chat_server
ticket_issued = refl

get_chat_server-admits_example :
    (status_login store_redis all_answered
        (pos 7)
        (bytes "t")
        (get_chat_server store_redis answered (pos 7) (bytes "t") choice empty_store).0
      ≡ success)
    × ((register_session store_redis answered
          (pos 7)
          (bytes "s")
          (bytes "n")
          (bytes "t")
          desktop
          (get_chat_server store_redis answered (pos 7) (bytes "t") choice empty_store).0).1
        ≡ success)
get_chat_server-admits_example =
    get_chat_server-admits store_redis store_redis-IsRedis (pos 7) (bytes "t") choice empty_store
      (bytes "s") (bytes "n") desktop token_filled desktop_valid ticket_issued
