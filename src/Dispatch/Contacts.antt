-- ===== src/Dispatch/Contacts.antt =====
-- The handlers of ChatServerShared/LogicSystem.cpp for contacts: SearchInfo, AddFriendApply,
-- AuthFriendApply, DeleteFriend and SetContactTags. Each takes the request as the reader left it.
use mathlib.Core.Option
use cpp_chat.Base.{
  leb, ◌==◌, if◌then◌else◌, length, all_by, Text, bytes, is_positive, int_eq, ℤ, pos, to_string, ℕ,
  ◌+◌, ◌-◌, ◌*◌, Bool, not, ◌&&◌, ◌||◌, Option, none, some, List, [], ◌∷◌,
}
use cpp_chat.ContactTags.{normalize_contact_tags, valid_contact_remark, Item, string, no_string}
use cpp_chat.Dispatch.Values.{
  has_field, field_or, field, with_field, append_to, with_members, is_int, is_null, is_fields,
  as_int, int_of, as_string, request_id, accepts_request, tags_input, texts, with_error, Json, null,
  integer, str, list, Items, end, item, Members, Parsed,
}
use cpp_chat.Dispatch.Programs.{
  reply, or_close, user_by_id, user_by_name, apply_friend, accept_friend, friend_metadata,
  notify_acceptance, delete_friend, set_tags, Program, ask, finish, Client,
}

-- ErrorCodes and MessageIds of const.h.
abbrev pub error_json : ℕ
error_json = 1001

abbrev pub uid_invalid : ℕ
uid_invalid = 1011

abbrev pub database_error : ℕ
database_error = 1014

abbrev pub search_user : ℕ
search_user = 1007

abbrev pub add_friend : ℕ
add_friend = 1009

abbrev pub auth_friend : ℕ
auth_friend = 1013

abbrev pub remove_friend : ℕ
remove_friend = 1035

abbrev pub set_contact_tags : ℕ
set_contact_tags = 1038

-- The type of a reply.
abbrev pub rsp : ℕ → ℕ
rsp id = id + 1

abbrev pub refuse : ℕ → Json → ℕ → Json → Program
refuse id request code response = reply (rsp id) request (with_error code response) finish

abbrev pub is_digit : ℕ → Bool
is_digit c = leb 48 c && leb c 57

-- IsPureDigit.
unfoldable pub is_pure_digit : Text → Bool
is_pure_digit text = not (length text == 0) && all_by is_digit text

abbrev decimal : ℕ → Text → ℕ
decimal n [] = n
decimal n (c ∷ cs) = decimal (10 * n + (c - 48)) cs

-- std::stoi of digits; `none` is out_of_range.
unfoldable pub stoi : Text → Option ℤ
stoi text = if leb (decimal 0 text) 2147483647 then some (pos (decimal 0 text)) else none

-- The profile in the response, and UidInvalid without a user.
abbrev pub profile_reply : ℕ → Json → Option Members → Program
profile_reply id request none = refuse id request uid_invalid null
profile_reply id request (some user) =
    reply (rsp id) request (with_members user (with_error 0 null)) finish

-- GetUserByUid.
abbrev pub get_user_by_uid : Json → Option ℤ → Program
get_user_by_uid request none = refuse search_user request uid_invalid null
get_user_by_uid request (some uid) = ask (user_by_id uid) (profile_reply search_user request)

-- The query of SearchInfo: the string, or the digits of the integer.
abbrev pub query_of : Json → Option Text
query_of (str t) = some t
query_of j = Option.map to_string (as_int j)

-- SearchInfo from the query on, GetUserByName included.
unfoldable pub search : Json → Text → Program
search request query =
    if is_pure_digit query
    then get_user_by_uid request (stoi query)
    else ask (user_by_name query) (profile_reply search_user request)

unfoldable pub search_info : Parsed → Program
search_info p =
    let uid = field (bytes "uid") p.value in
    if not (accepts_request p) || is_null uid
    then refuse search_user p.value error_json null
    else or_close (rsp search_user) p.value null (query_of uid) (search p.value)

-- NormalizeContactTags of a member that is an empty array where it is missing.
abbrev pub given_tags : Json → Option (List Text)
given_tags request =
    normalize_contact_tags (tags_input (field_or (bytes "tags") request (list end)))

abbrev pub send_code : ℕ → Json → Json → ℕ → Program
send_code id request response code = refuse id request code response

abbrev pub apply_with : ℤ → ℤ → Json → Text → Text → Option (List Text) → Program
apply_with uid to request description remark none = refuse add_friend request error_json null
apply_with uid to request description remark (some tags) =
    ask (apply_friend uid to description remark tags) (send_code add_friend request null)

-- AddFriendApply from its conversions on.
unfoldable pub apply_friend_of : ℤ → ℤ → ℤ → Json → Text → Text → Program
apply_friend_of self uid to request description remark =
    if not (int_eq uid self)
    then refuse add_friend request error_json null
    else apply_with uid to request description remark (given_tags request)

-- AddFriendApply.
unfoldable pub add_friend_apply : Client → Parsed → Program
add_friend_apply c p =
    let uid = field (bytes "uid") p.value in
    let to = field (bytes "touid") p.value in
    if not (accepts_request p) || (not (is_int uid) || not (is_int to))
    then refuse add_friend p.value error_json null
    else or_close (rsp add_friend) p.value null
        (as_string (field_or (bytes "applyname") p.value (str [])))
        (λ description.
          or_close (rsp add_friend) p.value null
            (as_string (field_or (bytes "bakname") p.value (str [])))
            (apply_friend_of c.user_id (int_of uid) (int_of to) p.value description))

-- The end of AuthFriendApply with new messages: the reply, and the notice to the other user.
abbrev pub notify_new : ℤ → ℤ → Json → Json → Program
notify_new uid to request response =
    ask (notify_acceptance uid to response) (λ a. reply (rsp auth_friend) request response finish)

abbrev pub chats : Text
chats = bytes "chat_datas"

abbrev pub add_chats : Items → Json → Json
add_chats end response = response
add_chats (item m rest) response =
    add_chats rest (with_field chats (append_to (field chats response) m) response)

-- An acceptance that was made before: the remark and the tags that are stored.
abbrev pub stored_metadata : Json → Json → ℕ × Text × Json → Program
stored_metadata request response (code, back, tags) =
    if code == 0
    then reply (rsp auth_friend) request
        (with_field (bytes "tags") tags (with_field (bytes "back") (str back) response)) finish
    else refuse auth_friend request code response

-- AuthFriendApply after the look at the profile.
abbrev pub accepted : ℤ → ℤ → Json → List Text → Items → Json → Program
accepted uid to request tags end response =
    ask (friend_metadata uid to) (stored_metadata request response)
accepted uid to request tags (item m rest) response = notify_new uid to request (
    add_chats (item m rest) (
      with_field (bytes "tags") (list (texts tags))
        (with_field (bytes "back") (field_or (bytes "back") request (str [])) response)))

abbrev pub with_profile : Option Members → Json → Json
with_profile none response = response
with_profile (some user) response = with_members user response

abbrev pub after_accept : ℤ → ℤ → Json → List Text → Option Items → Program
after_accept uid to request tags none = refuse auth_friend request database_error null
after_accept uid to request tags (some messages) = ask (user_by_id to) (λ user.
    accepted uid to request tags messages
      (with_profile user (with_field (bytes "uid") (integer to) (with_error 0 null))))

abbrev pub accept_with : ℤ → ℤ → Json → Option (List Text) → Program
accept_with uid to request none = refuse auth_friend request error_json null
accept_with uid to request (some tags) =
    or_close (rsp auth_friend) request null (as_string (field_or (bytes "back") request (str [])))
      (λ back. ask (accept_friend uid to back tags) (after_accept uid to request tags))

-- AuthFriendApply.
unfoldable pub auth_friend_apply : Client → Parsed → Program
auth_friend_apply c p =
    let uid = field (bytes "fromuid") p.value in
    let to = field (bytes "touid") p.value in
    if not (accepts_request p) || (not (is_int uid) || not (is_int to))
    then refuse auth_friend p.value error_json null
    else if not (is_positive (int_of uid))
        || (not (int_eq (int_of uid) c.user_id)
            || (not (is_positive (int_of to)) || int_eq (int_of uid) (int_of to)))
    then refuse auth_friend p.value uid_invalid null
    else accept_with (int_of uid) (int_of to) p.value (given_tags p.value)

-- DeleteFriend, whose reader does not ask for a valid request id.
unfoldable pub delete_friend_of : Client → Parsed → Program
delete_friend_of c p =
    let friend = field (bytes "friend_uid") p.value in
    if not p.parsed || (not (is_fields p.value) || not (is_int friend))
    then refuse remove_friend p.value error_json null
    else ask (delete_friend c.user_id (int_of friend))
        (send_code remove_friend p.value (with_field (bytes "friend_uid") friend null))

abbrev pub tags_response : Json → List Text → Json → Json
tags_response request tags response =
    let with_tags = with_field (bytes "tags") (list (texts tags)) response in
    if has_field (bytes "back") request
    then with_field (bytes "back") (field (bytes "back") request) with_tags
    else with_tags

abbrev pub tags_reply : Json → Json → List Text → ℕ → Program
tags_reply request response tags code =
    let coded = with_error code response in
    reply (rsp set_contact_tags) request
      (if code == 0 then tags_response request tags coded else coded) finish

abbrev pub remark_of : Json → Item
remark_of (str t) = string t
remark_of j = no_string

abbrev pub set_tags_with : ℤ → Json → Json → Option (List Text) → Program
set_tags_with self request response none = refuse set_contact_tags request error_json response
set_tags_with self request response (some tags) =
    let friend = field (bytes "friend_uid") request in
    ask
      (set_tags self (int_of friend) (field (bytes "tags") request) tags
        (field_or (bytes "back") request null))
      (tags_reply request (with_field (bytes "friend_uid") friend response) tags)

abbrev pub bad_remark : Json → Bool
bad_remark request =
    has_field (bytes "back") request
    && not (valid_contact_remark (remark_of (field (bytes "back") request)))

-- SetContactTags; the answer of the service is an error code.
unfoldable pub set_contact_tags_of : Client → Parsed → Program
set_contact_tags_of c p =
    let response = with_field request_id (field_or request_id p.value (str [])) null in
    if not (accepts_request p)
    then refuse set_contact_tags p.value error_json null
    else if not (is_int (field (bytes "friend_uid") p.value)) || bad_remark p.value
    then refuse set_contact_tags p.value error_json response
    else set_tags_with c.user_id p.value response
        (normalize_contact_tags (tags_input (field (bytes "tags") p.value)))
