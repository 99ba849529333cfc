-- ===== src/Messages.antt =====
-- Storing messages (MessageService::Store, ChatServerShared/MessageService.cpp) and what a client of each
-- age is shown of one (PresentMessage). The database and Redis answer as records of functions.
pub mod Stored
pub mod Errors
pub mod Access
pub mod Presented
pub mod Delivery
pub mod Reach
use cpp_chat.Base.{
  ltb, leb, ◌==◌, if◌then◌else◌, length, all_by, Text, bytes, is_positive, int_eq, ℤ, pos, negsuc,
  digits, to_string, ℕ, ◌+◌, ◌-◌, ◌*◌, ◌/◌, ◌%◌, ◌^◌, ◌<◌, ◌⊎◌, inl, inr, Bool, true, false, not,
  ◌&&◌, ◌||◌, Option, none, some, List, [], ◌∷◌, ◌++◌,
}
use cpp_chat.Leases.{success, redis_error, missing, error}
use cpp_chat.Media.{wave_header_bytes, pcm_bytes_per_second, min_pcm_bytes, max_pcm_bytes}

-- ErrorCodes of const.h.
abbrev pub error_json : ℕ
error_json = 1001

abbrev pub uid_invalid : ℕ
uid_invalid = 1011

abbrev pub database_error : ℕ
database_error = 1014

-- ChatMessage of data.h.
pub record Message : Type 0 where
  pub message_id : ℤ
  pub thread_id : ℤ
  pub sender_id : ℤ
  pub recv_id : ℤ
  pub unique_id : Text
  pub content : Text
  pub chat_time : Text
  pub status : ℤ
  pub msg_type : ℤ
  pub media_size : ℕ

-- MysqlMgr and RedisMgr, at the moment of the call.
pub record Services : Type 0 where
  pub get_group : ℤ → ℤ → ℕ
  pub check_friendship : ℤ → ℤ → ℕ
  pub redis_get : Text → Option Text
  pub add_chat_msg : List Message → Bool

-- std::isxdigit
abbrev pub is_hex : ℕ → Bool
is_hex c = (leb 48 c && leb c 57) || ((leb 65 c && leb c 70) || (leb 97 c && leb c 102))

-- std::isspace, in the C locale
abbrev pub is_space : ℕ → Bool
is_space c = c == 32 || (leb 9 c && leb c 13)

abbrev pub is_decimal : ℕ → Bool
is_decimal c = leb 48 c && leb c 57

abbrev pub decimal_prefix : ℕ → Text → ℕ
decimal_prefix acc [] = acc
decimal_prefix acc (c ∷ cs) =
    let rest = decimal_prefix (10 * acc + (c - 48)) cs in if is_decimal c then rest else acc

abbrev pub starts_decimal : Text → Bool
starts_decimal [] = false
starts_decimal (c ∷ cs) = is_decimal c

-- The digits of std::stoull; `none` is an exception.
abbrev pub stoull_digits : Bool → Text → Option ℕ
stoull_digits minus text =
    if not (starts_decimal text) || leb (2 ^ 64) (decimal_prefix 0 text)
    then none
    else some (if minus then (2 ^ 64 - decimal_prefix 0 text) % 2 ^ 64 else decimal_prefix 0 text)

abbrev pub stoull_sign : Text → Option ℕ
stoull_sign [] = none
stoull_sign (c ∷ cs) =
    if c == 45
    then stoull_digits true cs
    else if c == 43
    then stoull_digits false cs
    else stoull_digits false (c ∷ cs)

-- std::stoull
unfoldable pub stoull : Text → Option ℕ
stoull [] = none
stoull (c ∷ cs) = let rest = stoull cs in if is_space c then rest else stoull_sign (c ∷ cs)

-- ready.rfind(prefix, 0) == 0, with the rest of the text
unfoldable pub after_prefix : Text → Text → Option Text
after_prefix [] text = some text
after_prefix (p ∷ ps) [] = none
after_prefix (p ∷ ps) (c ∷ cs) = let rest = after_prefix ps cs in if p == c then rest else none

-- An error code, or the message with its media size.
pub data Checked : Type 0 where
  bad : ℕ → Checked
  good : Message → Checked

abbrev pub has_type : ℤ → ℕ → Bool
has_type t n = int_eq t (pos n)

-- msg_type < 0 || msg_type > 3
abbrev pub bad_type : ℤ → Bool
bad_type (pos n) = ltb 3 n
bad_type (negsuc n) = true

abbrev pub type_prefix : ℤ → Text
type_prefix t = if has_type t 3 then bytes "audio:" else if has_type t 2 then bytes "file:" else []

abbrev pub scope_of : Bool → ℤ → Message → Text
scope_of is_group actor m =
    if is_group
    then bytes "group:" ++ (to_string actor ++ (58 ∷ (to_string m.thread_id ++ 58 ∷ [])))
    else to_string actor ++ (58 ∷ (to_string m.recv_id ++ 58 ∷ []))

abbrev pub bad_audio_size : ℤ → ℕ → Bool
bad_audio_size msg_type size =
    has_type msg_type 3
    && (ltb size (wave_header_bytes + min_pcm_bytes)
        || ltb (wave_header_bytes + max_pcm_bytes) size)

abbrev pub sized : Message → Option ℕ → Checked
sized m none = bad error_json
sized m (some size) =
    if bad_audio_size m.msg_type size then bad error_json else good (record m { media_size = size })

abbrev pub owned : Message → Option Text → Checked
owned m none = bad error_json
owned m (some rest) = sized m (stoull rest)

abbrev pub uploaded : Bool → ℤ → Message → Option Text → Checked
uploaded is_group actor m none = bad redis_error
uploaded is_group actor m (some ready) =
    owned m (after_prefix (type_prefix m.msg_type ++ scope_of is_group actor m) ready)

module _ (v : Services) where
  open v use {get_group, check_friendship, redis_get, add_chat_msg}

  -- The body of the loop.
  unfoldable pub check_message : Bool → ℤ → Option Message → Checked
  check_message is_group actor none = bad uid_invalid
  check_message is_group actor (some m) =
      if not (int_eq m.sender_id actor)
        || (not (is_positive m.recv_id) || not (is_positive m.thread_id))
      then bad uid_invalid
      else if bad_type m.msg_type
      then bad error_json
      else if has_type m.msg_type 0
      then good m
      else if not (length m.content == 32) || not (all_by is_hex m.content)
      then bad error_json
      else uploaded is_group actor m (redis_get (bytes "resource_ready_" ++ m.content))

  abbrev pub cons_checked : Checked → ℕ ⊎ List Message → ℕ ⊎ List Message
  cons_checked (bad code) rest = inl code
  cons_checked (good m) (inl code) = inl code
  cons_checked (good m) (inr ms) = inr (m ∷ ms)

  -- The loop: the first error, or the messages.
  unfoldable pub check_messages : Bool → ℤ → List (Option Message) → ℕ ⊎ List Message
  check_messages is_group actor [] = inr []
  check_messages is_group actor (m ∷ ms) =
      cons_checked (check_message is_group actor m) (check_messages is_group actor ms)

  abbrev pub front_is_group : Option Message → Bool
  front_is_group none = false
  front_is_group (some m) = int_eq m.sender_id m.recv_id

  abbrev pub group_access : Bool → ℤ → Option Message → ℕ
  group_access true actor (some m) = get_group actor m.thread_id
  group_access is_group actor m = success

  abbrev pub friend_access : Bool → ℤ → Option Message → ℕ
  friend_access false actor (some m) = check_friendship actor m.recv_id
  friend_access is_group actor m = success

  -- The code that is returned, and the messages that are given to AddChatMsg.
  abbrev pub save : ℤ → Bool → Option Message → ℕ ⊎ List Message → ℕ × Option (List Message)
  save actor is_group front (inl code) = (code, none)
  save actor is_group front (inr ms) =
      let friendship = friend_access is_group actor front in
      if not (friendship == success)
      then (friendship, none)
      else (if add_chat_msg ms then success else database_error, some ms)

  -- Store.
  unfoldable pub store : ℤ → List (Option Message) → ℕ × Option (List Message)
  store actor [] = (uid_invalid, none)
  store actor (front ∷ ms) =
      let is_group = front_is_group front in
      let access = group_access is_group actor front in
      if not (is_positive actor)
      then (uid_invalid, none)
      else if not (access == success)
      then (access, none)
      else save actor is_group front (check_messages is_group actor (front ∷ ms))

-- What PresentMessage reads and writes of a message's JSON; a missing msg_type is 0, a missing
-- media_size is 0.
pub record Shown : Type 0 where
  pub msg_type : ℤ
  pub content : Text
  pub msg_content : Text
  pub media_size : ℕ
  pub media_format : Option Text
  pub duration_ms : Option ℕ

abbrev pub as_notice : Text → Shown → Shown
as_notice notice m = record m {
  msg_type = pos 0;
  content = notice;
  msg_content = notice;
  media_size = 0;
}

-- PresentMessage; the two notices ask the user to upgrade.
unfoldable pub present_message : Text → Text → Bool → Bool → Shown → Shown
present_message file_notice voice_notice voice_messages file_messages m =
    if has_type m.msg_type 2 && not file_messages
    then as_notice file_notice m
    else if not (has_type m.msg_type 3)
    then m
    else if not voice_messages
    then as_notice voice_notice m
    else record m {
      media_format = some (bytes "wav/pcm_s16le/16000/mono");
      duration_ms = some (
          if leb wave_header_bytes m.media_size
          then (m.media_size - wave_header_bytes) * 1000 / pcm_bytes_per_second
          else 0);
    }
