-- ===== src/Dispatch.antt =====
-- The business side of ChatServerShared/LogicSystem.cpp: which handler a message goes to, and what it may
-- do before its session has logged in. A handler is a program that calls services and sends replies
-- (Programs); Contacts, Chats, Threads and Profile have the handlers, the other children the proofs.
-- The services return; what throws here are the conversions of JSON values.
pub mod Values
pub mod Programs
pub mod Contacts
pub mod Chats
pub mod Threads
pub mod Profile
pub mod ContactsProper
pub mod ChatsProper
pub mod ProfileProper
pub mod Gate
pub mod Paging
use cpp_chat.Base.{
  ltb, ◌==◌, if◌then◌else◌, length, Text, bytes, is_positive, int_eq, ℤ, pos, ℕ, ◌-◌, ◌/◌, Bool,
  false, not, ◌&&◌, ◌||◌, Option, none, some, List, [], ◌∷◌,
}
use cpp_chat.Dispatch.Values.{
  has_field, field, with_field, is_int, is_str, is_bool, as_int, int_of, text_of, accepts_request,
  echo, with_error, Json, null, integer, boolean, Parsed,
}
use cpp_chat.Dispatch.Programs.{
  voice, set_abilities, log_in, build_frames, Program, ask, send, finish, close, drain, Client,
}
use cpp_chat.Dispatch.Contacts.{
  error_json, search_user, add_friend, auth_friend, remove_friend, set_contact_tags, rsp,
  search_info, add_friend_apply, auth_friend_apply, delete_friend_of, set_contact_tags_of,
}
use cpp_chat.Dispatch.Chats.{text_chat, deal_chat_text_msg}
use cpp_chat.Dispatch.Threads.{
  load_threads, create_private_chat, load_chat, get_user_threads, create_private_of, load_chat_msg,
}
use cpp_chat.Dispatch.Profile.{
  token_invalid, heart_beat, profile_update, get_avatar_request, group_request, group_request_of,
  heart_beat_of, update_profile_of, get_avatar,
}

abbrev pub chat_login : ℕ
chat_login = 1005

abbrev pub voice_req : ℕ
voice_req = 1070

abbrev pub voice_frame : ℕ
voice_frame = 1072

abbrev pub video_frame : ℕ
video_frame = 1074

abbrev pub internal_error : ℕ
internal_error = 1016

-- The libraries that the handlers use.
pub record Libraries : Type 0 where
  pub size : Json → ℕ
  pub decode_block : Text → Option Text
  pub encode_block : Text → Text

abbrev pub is_given_as : (Json → Bool) → Text → Json → Bool
is_given_as test key request = not (has_field key request) || test (field key request)

abbrev pub bad_login : Json → Bool
bad_login request =
    not (is_int (field (bytes "uid") request))
    || (not (is_str (field (bytes "token") request))
        || (ltb 128 (length (text_of (field (bytes "token") request)))
            || (not (is_given_as is_str (bytes "device") request)
                || not (is_given_as is_bool (bytes "login_chunks") request))))

abbrev pub is_true : Json → Bool
is_true (boolean b) = b
is_true j = false

abbrev pub login_failure : Json → ℤ → Program → Program
login_failure request code rest =
    send (rsp chat_login) (echo request (with_field (bytes "error") (integer code) null)) rest

abbrev pub send_frames : List Json → Program
send_frames [] = finish
send_frames (frame ∷ rest) = send (rsp chat_login) frame (send_frames rest)

abbrev pub snapshot_frames : Json → Option (List Json) → Program
snapshot_frames request none = login_failure request (pos internal_error) drain
snapshot_frames request (some frames) = send_frames frames

-- LoginHandler from the answer of SessionService::Login on; an error that asInt throws for closes.
abbrev pub login_answered : Json → Json → Option ℤ → Program
login_answered request response none = close
login_answered request response (some code) =
    if int_eq code (pos 0)
    then ask (build_frames (echo request response) (is_true (field (bytes "login_chunks") request)))
        (snapshot_frames request)
    else login_failure request code (if int_eq code (pos internal_error) then drain else finish)

abbrev pub device_of : Json → Text
device_of request =
    if is_str (field (bytes "device") request)
    then text_of (field (bytes "device") request)
    else bytes "desktop"

abbrev pub log_in_with : Json → Program
log_in_with request =
    ask
      (log_in (int_of (field (bytes "uid") request)) (text_of (field (bytes "token") request))
        (device_of request))
      (λ response. login_answered request response (as_int (field (bytes "error") response)))

-- LoginHandler.
unfoldable pub login_handler : Client → Parsed → Program
login_handler c p =
    if not (accepts_request p) || bad_login p.value
    then login_failure p.value (pos error_json) finish
    else if int_eq c.user_id (pos 0)
    then ask
        (set_abilities (is_true (field (bytes "voice_messages") p.value))
          (is_true (field (bytes "file_messages") p.value)))
        (λ a. log_in_with p.value)
    else log_in_with p.value

abbrev pub Handler : Type 0
Handler = Client → Parsed → Program

abbrev pub voice_handler : Handler
voice_handler c p = ask (voice c.user_id) (λ a. finish)

-- RegisterCallbacks, as pairs of a message type and its handler.
unfoldable pub callbacks : Libraries → List (ℕ × Handler)
callbacks l =
    (voice_req, voice_handler)
    ∷ (voice_frame, voice_handler)
    ∷ (video_frame, voice_handler)
    ∷ (group_request, group_request_of)
    ∷ (chat_login, login_handler)
    ∷ (search_user, λ c p. search_info p)
    ∷ (set_contact_tags, set_contact_tags_of)
    ∷ (add_friend, add_friend_apply)
    ∷ (auth_friend, auth_friend_apply)
    ∷ (text_chat, deal_chat_text_msg)
    ∷ (heart_beat, heart_beat_of l.size)
    ∷ (load_threads, get_user_threads)
    ∷ (create_private_chat, create_private_of)
    ∷ (load_chat, load_chat_msg l.size)
    ∷ (profile_update, update_profile_of l.decode_block)
    ∷ (get_avatar_request, get_avatar l.encode_block)
    ∷ (remove_friend, delete_friend_of)
    ∷ []

abbrev pub find_handler : ℕ → List (ℕ × Handler) → Option Handler
find_handler id [] = none
find_handler id ((kind, handler) ∷ rest) = if kind == id then some handler else find_handler id rest

-- The refusal of a message before the login.
abbrev pub refuse_stranger : ℕ → Parsed → Program
refuse_stranger id p =
    let response = with_error token_invalid null in
    send (rsp id) (if accepts_request p then echo p.value response else response) finish

unfoldable pub run_handler : Option Handler → Client → ℕ → Parsed → Program
run_handler none c id p = finish
run_handler (some handler) c id p =
    if not (id == chat_login) && not (is_positive c.user_id)
    then refuse_stranger id p
    else handler c p

-- HandleMessage.
unfoldable pub handle_message : Libraries → Client → ℕ → Parsed → Program
handle_message l c id p =
    if c.is_shut then finish else run_handler (find_handler id (callbacks l)) c id p
