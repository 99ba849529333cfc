-- ===== src/Dispatch/Threads.antt =====
-- The handlers of ChatServerShared/LogicSystem.cpp for a user's chats: GetUserThreadsHandler,
-- CreatePrivateChat and LoadChatMsg. The length of a JSON value's text is a parameter.
use cpp_chat.Base.{
  ltb, ◌==◌, if◌then◌else◌, bytes, text_eq, is_positive, int_eq, ℤ, pos, ℕ, ◌-◌, Bool, true, false,
  not, ◌||◌, Option, none, some, List, [], ◌∷◌,
}
use cpp_chat.Dispatch.Values.{
  field_or, field, with_field, append_to, is_int, as_int, int_of, accepts_request, echo, with_error,
  Json, null, integer, boolean, list, end, Parsed,
}
use cpp_chat.Dispatch.Programs.{
  reply, or_close, ThreadInfo, Page, group_of, list_threads, create_private, load_messages, Program,
  ask, finish, Client,
}
use cpp_chat.Dispatch.Contacts.{error_json, uid_invalid, rsp, refuse, chats}

abbrev pub load_threads : ℕ
load_threads = 1025

abbrev pub create_private_chat : ℕ
create_private_chat = 1027

abbrev pub load_chat : ℕ
load_chat = 1029

abbrev pub load_chat_failed : ℕ
load_chat_failed = 1013

-- MAX_LENGTH.
abbrev pub max_length : ℕ
max_length = 16384

-- The threads in the response of GetUserThreadsHandler; a group is shown with what its members see,
-- and left out if that cannot be had.
abbrev pub add_thread : Json → Json → Json
add_thread shown response =
    with_field (bytes "threads") (append_to (field (bytes "threads") response) shown) response

abbrev pub shown_group : Json → Json → ℕ × Json → Json
shown_group shown response (code, group) =
    if code == 0 then add_thread (with_field (bytes "group") group shown) response else response

abbrev pub show_threads : ℤ → Json → List ThreadInfo → Json → Program
show_threads uid request [] response = reply (rsp load_threads) request response finish
show_threads uid request (t ∷ more) response =
    if text_eq t.kind (bytes "group")
    then ask (group_of uid t.thread)
        (λ a. show_threads uid request more (shown_group t.shown response a))
    else show_threads uid request more (add_thread t.shown response)

abbrev pub threads_reply : ℤ → Json → Option (List ThreadInfo × Bool × ℤ) → Program
threads_reply uid request none = refuse load_threads request uid_invalid null
threads_reply uid request (some (threads, load_more, next_last_id)) =
    show_threads uid request threads (
      with_field (bytes "next_last_id") (integer next_last_id) (
        with_field (bytes "load_more") (boolean load_more)
          (with_field (bytes "uid") (integer uid) (with_error 0 null))))

-- GetUserThreadsHandler.
unfoldable pub get_user_threads : Client → Parsed → Program
get_user_threads c p =
    let uid = field (bytes "uid") p.value in
    if not (accepts_request p) || not (is_int uid)
    then refuse load_threads p.value error_json null
    else or_close (rsp load_threads) p.value null
        (as_int (field_or (bytes "thread_id") p.value (integer (pos 0))))
        (λ last_id.
          if not (is_positive (int_of uid)) || not (int_eq (int_of uid) c.user_id)
          then refuse load_threads p.value uid_invalid null
          else ask (list_threads (int_of uid) last_id) (threads_reply (int_of uid) p.value))

abbrev pub created : Json → Json → ℕ × ℤ → Program
created request response (code, thread) =
    let coded = with_error code response in
    reply (rsp create_private_chat) request
      (if code == 0 then with_field (bytes "thread_id") (integer thread) coded else coded) finish

-- CreatePrivateChat.
unfoldable pub create_private_of : Client → Parsed → Program
create_private_of c p =
    let uid = field (bytes "uid") p.value in
    let peer = field (bytes "other_id") p.value in
    if not (accepts_request p) || (not (is_int uid) || not (is_int peer))
    then refuse create_private_chat p.value error_json null
    else (let response = with_field (bytes "other_id") peer (with_field (bytes "uid") uid null) in
        if not (is_positive (int_of uid)) || not (int_eq (int_of uid) c.user_id)
        then refuse create_private_chat p.value uid_invalid response
        else ask (create_private (int_of uid) (int_of peer)) (created p.value response))

-- The page with one more message.
abbrev pub candidate_of : ℤ × Json → Json → Json
candidate_of (id, shown) response =
    with_field (bytes "last_message_id") (integer id)
      (with_field chats (append_to (field chats response) shown) response)

-- Where the page ends: an error if not even its first message fits.
abbrev pub cut_page : Bool → Json → Json
cut_page true response =
    with_field (bytes "load_more") (boolean false) (with_error load_chat_failed response)
cut_page false response = with_field (bytes "load_more") (boolean true) response

module _ (size : Json → ℕ) where
  abbrev pub too_large : Json → Bool
  too_large j = ltb (max_length - 16) (size j)

  -- The loop of LoadChatMsg; `empty` tells whether the page has no message yet.
  unfoldable pub fill_page : Bool → List (ℤ × Json) → Json → Json
  fill_page empty [] response = response
  fill_page empty (m ∷ more) response =
      let candidate = candidate_of m response in
      let rest = fill_page false more candidate in
      if too_large candidate then cut_page empty response else rest

  abbrev pub loaded : Json → ℤ → ℤ → Json → ℕ × Page → Program
  loaded request thread message response (code, page) =
      if not (code == 0)
      then refuse load_chat request code response
      else reply (rsp load_chat) request
          (fill_page true page.messages (
            with_field chats (list end) (
              with_field (bytes "load_more") (boolean page.load_more) (
                with_field (bytes "last_message_id") (integer message)
                  (with_field (bytes "thread_id") (integer thread) (with_error 0 response))))))
          finish

  -- LoadChatMsg.
  unfoldable pub load_chat_msg : Client → Parsed → Program
  load_chat_msg c p =
      let thread = field (bytes "thread_id") p.value in
      if not (accepts_request p) || not (is_int thread)
      then refuse load_chat p.value error_json null
      else or_close (rsp load_chat) p.value null
          (as_int (field_or (bytes "message_id") p.value (integer (pos 0))))
          (λ message. ask (load_messages c.user_id (int_of thread) message) (
            loaded p.value (int_of thread) message
              (with_field (bytes "thread_id") thread (echo p.value null))))
