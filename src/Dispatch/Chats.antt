-- ===== src/Dispatch/Chats.antt =====
-- DealChatTextMsg of ChatServerShared/LogicSystem.cpp: a text message, stored and delivered.
use cpp_chat.Base.{
  ◌==◌, if◌then◌else◌, Text, bytes, is_positive, is_negative, int_eq, ℤ, pos, to_string, ℕ, Bool,
  not, ◌&&◌, ◌||◌, Option, none, some, List, [], ◌∷◌,
}
use cpp_chat.Dispatch.Values.{
  field_or, field, with_field, without_field, is_int, is_str, is_list, is_null, is_fields, as_int,
  int_of, as_string, text_of, items_of, accepts_request, echo, with_error, Json, null, integer, str,
  Items, end, item, Parsed,
}
use cpp_chat.Dispatch.Programs.{
  reply, NewMessage, store, deliver, group_of, Program, ask, finish, close, Client,
}
use cpp_chat.Dispatch.Contacts.{error_json, uid_invalid, rsp, refuse, add_chats}

abbrev pub text_chat : ℕ
text_chat = 1017

-- What becomes of text_array: the messages, the refusal of one, or an exception.
pub data Collected : Type 0 where
  collected : List NewMessage → Collected
  refused_message : Collected
  thrown : Collected

abbrev pub then_message : NewMessage → Collected → Collected
then_message m (collected ms) = collected (m ∷ ms)
then_message m r = r

-- A message that the session's client did not say it can show.
abbrev pub unsupported : Client → ℤ → Bool
unsupported c msg_type =
    (int_eq msg_type (pos 3) && not c.voice_messages)
    || (int_eq msg_type (pos 2) && not c.file_messages)

-- The item's unique_id or msgid, and its msg_type; `none` is an exception.
abbrev pub id_text : Json → Option Text
id_text j = as_string (field_or (bytes "unique_id") j (field_or (bytes "msgid") j (str [])))

abbrev pub type_of : Json → Option ℤ
type_of j = as_int (field_or (bytes "msg_type") j (integer (pos 0)))

abbrev pub message_of : ℤ → ℤ → ℤ → Text → Text → ℤ → NewMessage
message_of uid to thread unique_id content msg_type = record {
  thread_id = thread;
  sender_id = uid;
  recv_id = if int_eq to (pos 0) then uid else to;
  unique_id = unique_id;
  content = content;
  msg_type = msg_type;
}

abbrev pub collect_typed : Client → NewMessage → Collected → Collected
collect_typed c m rest = if unsupported c m.msg_type then refused_message else then_message m rest

-- One item with a content; the rest of the loop is run only if nothing ends it here.
abbrev pub collect_item : Client → ℤ → ℤ → ℤ → Option Text → Text → Option ℤ → Collected → Collected
collect_item c uid to thread none content msg_type rest = thrown
collect_item c uid to thread (some unique_id) content none rest = thrown
collect_item c uid to thread (some unique_id) content (some msg_type) rest =
    collect_typed c (message_of uid to thread unique_id content msg_type) rest

-- The loop over text_array; operator[] throws on an item that is no object.
unfoldable pub collect : Client → ℤ → ℤ → ℤ → Items → Collected
collect c uid to thread end = collected []
collect c uid to thread (item j more) =
    let rest = collect c uid to thread more in
    let content = field (bytes "content") j in
    if not (is_null j || is_fields j)
    then thrown
    else if not (is_str content)
    then rest
    else collect_item c uid to thread (id_text j) (text_of content) (type_of j) rest

-- The last statement: the sender's other device.
abbrev pub deliver_self : ℤ → ℤ → Json → Program → Program
deliver_self uid thread response rest = ask (deliver uid uid thread response) (λ a. rest)

-- The recipients among the members of a group, whose uid is converted by asInt.
abbrev pub deliver_all : ℤ → ℤ → Json → Items → Program → Program
deliver_all uid thread response end rest = rest
deliver_all uid thread response (item m more) rest =
    let others = deliver_all uid thread response more rest in
    elim (as_int (field (bytes "uid") m)) [
      | none ↦ close
      | some recipient ↦
          if int_eq recipient uid
          then others
          else ask (deliver uid recipient thread response) (λ a. others)
    ]

-- The sender's name among `member_names`; `none` is an exception.
abbrev pub name_sender : ℤ → Items → Json → Option Json
name_sender uid end names = some names
name_sender uid (item m more) names = elim (as_int (field (bytes "uid") m)) [
  | none ↦ none
  | some member_uid ↦ name_sender uid more (
      if int_eq member_uid uid
      then with_field (to_string uid) (field (bytes "name") m) names
      else names)
]

-- The group as it is delivered: without its members, with the sender's name where there is one.
abbrev pub named_group : Json → Json → Json
named_group group null = without_field (bytes "members") group
named_group group names =
    with_field (bytes "member_names") names (without_field (bytes "members") group)

abbrev pub deliver_named : ℤ → ℤ → Json → Json → Option Json → Program
deliver_named uid thread response group none = close
deliver_named uid thread response group (some names) =
    let shown = with_field (bytes "group") (named_group group names) response in
    deliver_all uid thread shown (items_of (field (bytes "members") group))
      (deliver_self uid thread shown finish)

abbrev pub deliver_group : ℤ → ℤ → Json → ℕ × Json → Program
deliver_group uid thread response (code, group) =
    if code == 0
    then deliver_named uid thread response group (
        name_sender uid (items_of (field (bytes "members") group))
          (field (bytes "member_names") group))
    else deliver_self uid thread response finish

-- DealChatTextMsg after MessageService::Store: the acknowledgement comes first for a group.
abbrev pub stored_messages : ℤ → ℤ → ℤ → Json → Json → ℕ × Items → Program
stored_messages uid to thread request response (code, messages) =
    if not (code == 0)
    then refuse text_chat request code response
    else (let done = add_chats messages (with_error 0 response) in
        if int_eq to (pos 0)
        then reply (rsp text_chat) request done
            (ask (group_of uid thread) (deliver_group uid thread (echo request done)))
        else ask (deliver uid to thread done)
            (λ a. deliver_self uid thread done (reply (rsp text_chat) request done finish)))

abbrev pub store_collected : ℤ → ℤ → ℤ → Json → Json → Collected → Program
store_collected uid to thread request response (collected messages) =
    ask (store uid messages) (stored_messages uid to thread request response)
store_collected uid to thread request response refused_message =
    refuse text_chat request error_json response
store_collected uid to thread request response thrown = reply (rsp text_chat) request response close

abbrev pub bad_parties : ℤ → ℤ → ℤ → ℤ → Bool
bad_parties self uid to thread =
    not (is_positive uid)
    || (not (int_eq uid self) || (is_negative to || (int_eq to uid || not (is_positive thread))))

-- DealChatTextMsg.
unfoldable pub deal_chat_text_msg : Client → Parsed → Program
deal_chat_text_msg c p =
    let from = field (bytes "fromuid") p.value in
    let to = field (bytes "touid") p.value in
    let thread = field (bytes "thread_id") p.value in
    let texts = field (bytes "text_array") p.value in
    if not (accepts_request p)
      || (not (is_int from) || (not (is_int to) || (not (is_int thread) || not (is_list texts))))
    then refuse text_chat p.value error_json null
    else if bad_parties c.user_id (int_of from) (int_of to) (int_of thread)
    then refuse text_chat p.value uid_invalid null
    else store_collected (int_of from) (int_of to) (int_of thread) p.value
        (with_field (bytes "thread_id") thread
          (with_field (bytes "touid") to (with_field (bytes "fromuid") from null)))
        (collect c (int_of from) (int_of to) (int_of thread) (items_of texts))
