-- ===== src/Messages/Presented.antt =====
-- A client is shown only what it supports, and the length of a voice message.
use cpp_chat.Base.{
  leb, if◌then◌else◌, Text, ◌-◌, ◌*◌, ◌/◌, ◌≡◌, ◌⊎◌, Bool, true, false, some, arith,
}
use cpp_chat.Media.{wave_header_bytes, pcm_bytes_per_second}
use cpp_chat.Messages.{has_type, present_message, Shown}

-- What is shown has no type that the client lacks; showing it again changes nothing; and a voice message
-- of an allowed size is shown with a duration of one second to one minute.
pub present_message-supported :
    (file_notice voice_notice : Text) (voice_messages file_messages : Bool) (m : Shown)
    → let shown = present_message file_notice voice_notice voice_messages file_messages m in
      ((has_type shown.msg_type 2 ≡ false) ⊎ (file_messages ≡ true))
      × ((has_type shown.msg_type 3 ≡ false)
          ⊎ ((voice_messages ≡ true)
              × (shown.media_size ≡ m.media_size)
              × (shown.duration_ms
                  ≡ some (
                      if leb wave_header_bytes m.media_size
                      then (m.media_size - wave_header_bytes) * 1000 / pcm_bytes_per_second
                      else 0))))
      × (present_message file_notice voice_notice voice_messages file_messages shown ≡ shown)
unfolding present_message
present_message-supported file_notice voice_notice voice_messages file_messages m =
    (ground arith, ground arith, ground arith)
