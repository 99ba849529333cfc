-- ===== src/Examples/DispatchTests.antt =====
-- Concrete instances for the handlers: a user who deletes a friend, and pages of messages.
use cpp_chat.Base.{
  bytes, text_eq, ℤ, pos, ℕ, ◌≡◌, refl, ◌≢◌, true, false, some, List, [], ◌∷◌, arith,
}
use cpp_chat.Requests.{valid_id}
use cpp_chat.Dispatch.Values.{
  with_field, accepts_request, Json, null, integer, fields, bare, entry, Parsed,
}
use cpp_chat.Dispatch.Programs.{IsOwn, delete_friend, ask, Client}
use cpp_chat.Dispatch.Contacts.{remove_friend, send_code, delete_friend_of}
use cpp_chat.Dispatch.Gate.{handle_message-IsOwn}
use cpp_chat.Dispatch.{chat_login, callbacks, run_handler, handle_message, Libraries}

abbrev toy_libraries : Libraries
toy_libraries = record { size = λ j. 100; decode_block = λ t. some t; encode_block = λ t. t }

abbrev member : Client
member = record { user_id = pos 7; is_shut = false; voice_messages = true; file_messages = true }

abbrev stranger : Client
stranger = record member { user_id = pos 0 }

abbrev deletion : Parsed
deletion = record {
  parsed = true;
  value = fields (entry (bytes "friend_uid") (integer (pos 9)) bare);
}

deletes :
    handle_message toy_libraries member remove_friend deletion
    ≡ ask (delete_friend (pos 7) (pos 9)) (
        send_code remove_friend deletion.value
          (with_field (bytes "friend_uid") (integer (pos 9)) null))
unfolding handle_message run_handler callbacks delete_friend_of text_eq
deletes = refl

-- A request id that ParseRequest would refuse.
abbrev bad_id_deletion : Parsed
bad_id_deletion = record {
  parsed = true;
  value = fields (
      entry (bytes "request_id") (integer (pos 1))
        (entry (bytes "friend_uid") (integer (pos 9)) bare));
}

bad_id_refused : accepts_request bad_id_deletion ≡ false
unfolding accepts_request text_eq valid_id
bad_id_refused = refl

bad_id_deletes :
    handle_message toy_libraries member remove_friend bad_id_deletion
    ≡ ask (delete_friend (pos 7) (pos 9)) (
        send_code remove_friend bad_id_deletion.value
          (with_field (bytes "friend_uid") (integer (pos 9)) null))
unfolding handle_message run_handler callbacks delete_friend_of text_eq
bad_id_deletes = refl

handle_message-IsOwn_example :
    IsOwn (pos 7) (handle_message toy_libraries member remove_friend deletion)
handle_message-IsOwn_example = handle_message-IsOwn toy_libraries member deletion remove_friend

not_login : remove_friend ≢ chat_login
not_login e = omega (arith, e)

abbrev two_messages : List (ℤ × Json)
two_messages = (pos 1, null) ∷ (pos 2, null) ∷ []

abbrev growing_size : Json → ℕ
growing_size j = 16368
