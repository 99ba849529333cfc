-- ===== src/Messages/Stored.antt =====
-- What Store gives to the database: messages of the actor alone, with media that the actor uploaded for
-- this conversation.
use cpp_chat.Base.{
  length, all_by, Text, bytes, is_positive, ℤ, ◌≡◌, ◌⊎◌, Bool, true, false, Option, some, ◌++◌,
}
use cpp_chat.Leases.{success}
use cpp_chat.Messages.{
  is_hex, stoull, has_type, bad_type, type_prefix, scope_of, bad_audio_size, front_is_group,
  group_access, friend_access, Message, Services,
}

module _ (v : Services) (is_group : Bool) (actor : ℤ) where
  open v use {get_group, check_friendship, redis_get, add_chat_msg}

  -- The upload of a media message: Redis has it as ready, for this actor, kind and conversation, with
  -- this size.
  pub record IsUpload (m : Message) : Type 0 where
    pub rest : Text
    pub named : (length m.content ≡ 32) × (all_by is_hex m.content ≡ true)
    pub ready :
        redis_get (bytes "resource_ready_" ++ m.content)
        ≡ some ((type_prefix m.msg_type ++ scope_of is_group actor m) ++ rest)
    pub size : stoull rest ≡ some m.media_size
    pub audio : bad_audio_size m.msg_type m.media_size ≡ false

  pub record IsStorable (m : Message) : Type 0 where
    pub sender : m.sender_id ≡ actor
    pub receiver : is_positive m.recv_id ≡ true
    pub thread : is_positive m.thread_id ≡ true
    pub kind : bad_type m.msg_type ≡ false
    pub media : (has_type m.msg_type 0 ≡ true) ⊎ IsUpload m

-- The actor may write to the conversation of the first message: it is in the group, or a friend.
abbrev pub Allowed : Services → ℤ → Option Message → Type 0
Allowed v actor front =
    (group_access v (front_is_group v front) actor front ≡ success)
    × (friend_access v (front_is_group v front) actor front ≡ success)
