-- ===== src/Dispatch/Profile.antt =====
-- The other handlers of ChatServerShared/LogicSystem.cpp: HeartBeatHandler, UpdateProfile, GetAvatar and
-- GroupRequest. The length of a JSON value's text and OpenSSL's Base64 are parameters.
use cpp_chat.Base.{
  ltb, leb, ◌==◌, if◌then◌else◌, length, take, get_or, Text, bytes, is_positive, ℤ, sub64, ℕ, ◌+◌,
  ◌-◌, ◌%◌, Bool, true, false, not, ◌&&◌, ◌||◌, Option, none, some, [], ◌∷◌,
}
use cpp_chat.Dispatch.Values.{
  has_field, field_or, field, with_field, without_field, is_int, is_str, int_of, text_of,
  accepts_request, echo, with_error, Json, null, integer, str, boolean, Parsed,
}
use cpp_chat.Dispatch.Programs.{
  reply, heartbeat, update_profile, avatar_of, change_group, Program, ask, send, finish, Client,
}
use cpp_chat.Dispatch.Contacts.{error_json, database_error, rsp, refuse}
use cpp_chat.Dispatch.Threads.{max_length}

-- ErrorCodes and MessageIds of const.h.
abbrev pub token_invalid : ℕ
token_invalid = 1010

abbrev pub heart_beat : ℕ
heart_beat = 1023

abbrev pub profile_update : ℕ
profile_update = 1031

abbrev pub get_avatar_request : ℕ
get_avatar_request = 1033

abbrev pub group_request : ℕ
group_request = 1060

abbrev pub snapshot_of : Json → Option ℤ
snapshot_of (integer n) = some n
snapshot_of j = none

-- GroupRequest.
abbrev pub group_changed : Json → Json → ℕ × Json → Program
group_changed request response (code, group) =
    reply (rsp group_request) request (with_error code (with_field (bytes "group") group response))
      finish

unfoldable pub group_request_of : Client → Parsed → Program
group_request_of c p =
    if not (accepts_request p)
    then refuse group_request p.value error_json null
    else ask (change_group c.user_id p.value) (
        group_changed p.value
          (with_field (bytes "op") (field_or (bytes "op") p.value (str [])) null))

module _ (size : Json → ℕ) where
  -- The reply to a heartbeat: without the friends, if it would not fit.
  abbrev pub fit_beat : Json → Json
  fit_beat response =
      if leb max_length (size response)
      then without_field (bytes "friend_ids") response
      else response

  -- HeartBeatHandler.
  unfoldable pub heart_beat_of : Client → Parsed → Program
  heart_beat_of c p =
      if not (accepts_request p)
      then refuse heart_beat p.value error_json null
      else ask (heartbeat c.user_id (snapshot_of (field (bytes "friend_snapshot_id") p.value)))
          (λ response. send (rsp heart_beat) (fit_beat (echo p.value response)) finish)

abbrev is_byte_at : Text → ℕ → ℕ → Bool
is_byte_at t i c = get_or t i 0 == c

-- Starts and ends as a JPEG does.
abbrev pub is_jpeg : Text → Bool
is_jpeg t =
    is_byte_at t 0 255
    && (is_byte_at t 1 216 && (is_byte_at t (length t - 2) 255 && is_byte_at t (length t - 1) 217))

abbrev pub equals_signs : Text → ℕ
equals_signs t =
    (if is_byte_at t (length t - 1) 61 then 1 else 0)
    + (if is_byte_at t (length t - 2) 61 then 1 else 0)

abbrev pub check_avatar : Text → Option Text
check_avatar t = if leb (length t) 8192 && (leb 4 (length t) && is_jpeg t) then some t else none

abbrev pub trim_avatar : Text → Option Text → Option Text
trim_avatar encoded none = none
trim_avatar encoded (some decoded) =
    check_avatar (take (sub64 (length decoded) (equals_signs encoded)) decoded)

abbrev pub updated : Json → Json → Bool → Json → ℕ × Bool → Program
updated request uid has_avatar profile (code, committed) =
    let coded = with_error code null in
    reply (rsp profile_update) request
      (if committed
        then with_field (bytes "committed") (boolean true) (
            with_field (bytes "avatar_changed") (boolean has_avatar) (
              with_field (bytes "desc") (field (bytes "desc") profile) (
                with_field (bytes "nick") (field (bytes "nick") profile) (
                  with_field (bytes "name") (field (bytes "name") profile)
                    (with_field (bytes "uid") uid coded)))))
        else coded)
      finish

abbrev pub bad_profile : Json → Bool
bad_profile request =
    not (is_str (field (bytes "name") request))
    || (not (is_str (field (bytes "nick") request))
        || (not (is_str (field (bytes "desc") request))
            || (has_field (bytes "avatar") request
                && not (is_str (field (bytes "avatar") request)))))

abbrev pub bad_lengths : Text → Text → Text → Bool
bad_lengths name nick description =
    length name == 0
    || (ltb 64 (length name) || (ltb 64 (length nick) || ltb 255 (length description)))

module _ (decode_block : Text → Option Text) where
  -- DecodeAvatar; `none` is false.
  unfoldable pub decode_avatar : Text → Option Text
  decode_avatar encoded =
      if length encoded == 0 || (ltb 12000 (length encoded) || not (length encoded % 4 == 0))
      then none
      else trim_avatar encoded (decode_block encoded)

  -- The avatar of the request: `some none` is a request without one, and `none` a bad one.
  abbrev pub avatar_given : Json → Option (Option Text)
  avatar_given request =
      if has_field (bytes "avatar") request
      then elim (decode_avatar (text_of (field (bytes "avatar") request))) [
        | none ↦ none
        | some t ↦ some (some t)
      ]
      else some none

  abbrev pub update_with : ℤ → Json → Text → Text → Text → Option (Option Text) → Program
  update_with uid request name nick description none = refuse profile_update request error_json null
  update_with uid request name nick description (some none) =
      ask (update_profile uid name nick description [] false)
        (updated request (integer uid) false request)
  update_with uid request name nick description (some (some avatar)) =
      ask (update_profile uid name nick description avatar true)
        (updated request (integer uid) true request)

  -- UpdateProfile.
  unfoldable pub update_profile_of : Client → Parsed → Program
  update_profile_of c p =
      let name = text_of (field (bytes "name") p.value) in
      let nick = text_of (field (bytes "nick") p.value) in
      let description = text_of (field (bytes "desc") p.value) in
      if not (is_positive c.user_id)
      then send (rsp profile_update) (with_error token_invalid null) finish
      else if not (accepts_request p) || bad_profile p.value
      then refuse profile_update p.value error_json null
      else if bad_lengths name nick description
      then refuse profile_update p.value error_json null
      else update_with c.user_id p.value name nick description (avatar_given p.value)

module _ (encode_block : Text → Text) where
  -- EncodeAvatar; OpenSSL gives the length of what it writes.
  abbrev pub shown_avatar : Text → Text
  shown_avatar [] = []
  shown_avatar (b ∷ bs) = encode_block (b ∷ bs)

  abbrev pub avatar_reply : Json → Json → Option Text → Program
  avatar_reply request response none = refuse get_avatar_request request database_error response
  avatar_reply request response (some avatar) =
      if ltb 8192 (length avatar)
      then refuse get_avatar_request request database_error response
      else reply (rsp get_avatar_request) request
          (with_field (bytes "avatar") (str (shown_avatar avatar)) (with_error 0 response)) finish

  -- GetAvatar.
  unfoldable pub get_avatar : Client → Parsed → Program
  get_avatar c p =
      let uid = field (bytes "uid") p.value in
      if not (is_positive c.user_id)
      then send (rsp get_avatar_request) (with_error token_invalid null) finish
      else if not (accepts_request p) || (not (is_int uid) || not (is_positive (int_of uid)))
      then refuse get_avatar_request p.value error_json null
      else ask (avatar_of (int_of uid)) (avatar_reply p.value (with_field (bytes "uid") uid null))
