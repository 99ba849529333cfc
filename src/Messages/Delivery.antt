-- ===== src/Messages/Delivery.antt =====
-- Deliver of ChatServerShared/MessageService.cpp, with GetSessions of ChatServerShared/UserMgr.cpp: where
-- a stored message is sent, by the routes that Redis has of its recipient.
use cpp_chat.Base.{
  ◌==◌, if◌then◌else◌, concat_by, filter_by, Text, text_eq, int_eq, ℤ, ℕ, Bool, false, not, ◌&&◌,
  List, [], ◌∷◌, map,
}
use cpp_chat.Leases.{success}
use cpp_chat.Messages.{present_message, Message, Services, Shown}

-- A session in a slot of the recipient.
pub record Target : Type 0 where
  pub session_id : Text
  pub is_shut : Bool
  pub voice_messages : Bool
  pub file_messages : Bool

-- UserMgr::GetSessions, of the sessions in the slots of the user.
abbrev pub get_sessions : List Target → List Target
get_sessions slots = filter_by (λ t. not t.is_shut) slots

-- A message of TextChatMsgReq.
pub record TextMsg : Type 0 where
  pub msgid : Text
  pub msgcontent : Text
  pub message_id : ℤ
  pub chat_time : Text
  pub status : ℤ
  pub msg_type : ℤ
  pub media_size : ℕ

pub record TextChatMsgReq : Type 0 where
  pub fromuid : ℤ
  pub touid : ℤ
  pub thread_id : ℤ
  pub textmsgs : List TextMsg

abbrev pub text_msg : Message → TextMsg
text_msg m = record {
  msgid = m.unique_id;
  msgcontent = m.content;
  message_id = m.message_id;
  chat_time = m.chat_time;
  status = m.status;
  msg_type = m.msg_type;
  media_size = m.media_size;
}

-- A notification to a session, by its chat_datas, or a request to another node.
pub data Sent : Type 0 where
  notified : Text → List Shown → Sent
  forwarded : Text → TextChatMsgReq → Sent

-- The messages are of a group: their recv_id is the sender.
abbrev pub is_for_group : ℤ → List Message → Bool
is_for_group from [] = false
is_for_group from (m ∷ ms) = int_eq m.recv_id from

abbrev pub text_request : ℤ → ℤ → ℤ → List Message → TextChatMsgReq
text_request from to thread messages = record {
  fromuid = from;
  touid = to;
  thread_id = thread;
  textmsgs = map text_msg messages;
}

module _ (file_notice voice_notice : Text) where
  -- A notification shows each message as the session's client supports it.
  abbrev pub notify : List Shown → Target → Sent
  notify payload t =
      notified t.session_id
        (map (present_message file_notice voice_notice t.voice_messages t.file_messages) payload)

module _ (file_notice voice_notice self_name : Text) where
  -- The body of the loop over the nodes.
  abbrev pub deliver_to : TextChatMsgReq → List Shown → List Target → Text → List Sent
  deliver_to request payload slots destination =
      if text_eq destination self_name
      then map (notify file_notice voice_notice payload) (get_sessions slots)
      else forwarded destination request ∷ []

  -- Deliver; `nodes` is what Destinations gives for the recipient.
  unfoldable pub deliver :
      Services → ℤ → ℤ → ℤ → List Message → List Shown → List Text → List Target → List Sent
  deliver v from to thread messages payload nodes slots =
      if is_for_group from messages && not (v.get_group to thread == success)
      then []
      else concat_by (deliver_to (text_request from to thread messages) payload slots) nodes
