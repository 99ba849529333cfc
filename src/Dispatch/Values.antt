-- ===== src/Dispatch/Values.antt =====
-- The JSON values that ChatServerShared/LogicSystem.cpp reads and writes, as jsoncpp gives and takes them:
-- an integer in the range of int, another number with what asInt and asString make of it, and so on.
use cpp_chat.Base.{
  if◌then◌else◌, is_some, Text, bytes, text_eq, ℤ, pos, to_string, ℕ, Bool, true, false, not, ◌&&◌,
  ◌||◌, Option, none, some, List, [], ◌∷◌,
}
use cpp_chat.Requests.{valid_id, is_member, Member, absent, text, other, Request}
use cpp_chat.ContactTags.{Item, string, no_string, Input, array, no_array}

mutual
  pub data Json : Type 0 where
    null : Json
    integer : ℤ → Json
    number : Option ℤ → Text → Json
    str : Text → Json
    boolean : Bool → Json
    list : Items → Json
    fields : Members → Json

  pub data Items : Type 0 where
    end : Items
    item : Json → Items → Items

  pub data Members : Type 0 where
    bare : Members
    entry : Text → Json → Members → Members

abbrev pub find_member : Text → Members → Option Json
find_member key bare = none
find_member key (entry k v rest) = if text_eq k key then some v else find_member key rest

-- isMember
abbrev pub has_field : Text → Json → Bool
has_field key (fields ms) = is_some (find_member key ms)
has_field key j = false

abbrev pub or_default : Option Json → Json → Json
or_default none d = d
or_default (some j) d = j

-- get(key, default)
abbrev pub field_or : Text → Json → Json → Json
field_or key (fields ms) d = or_default (find_member key ms) d
field_or key j d = d

-- operator[] for reading
abbrev pub field : Text → Json → Json
field key j = field_or key j null

abbrev pub put_member : Text → Json → Members → Members
put_member key v bare = entry key v bare
put_member key v (entry k w rest) =
    let later = entry k w (put_member key v rest) in if text_eq k key then entry k v rest else later

-- operator[] for writing, on an object or a null value.
abbrev pub with_field : Text → Json → Json → Json
with_field key v (fields ms) = fields (put_member key v ms)
with_field key v j = fields (entry key v bare)

abbrev pub drop_member : Text → Members → Members
drop_member key bare = bare
drop_member key (entry k v rest) =
    let later = entry k v (drop_member key rest) in if text_eq k key then rest else later

-- removeMember
abbrev pub without_field : Text → Json → Json
without_field key (fields ms) = fields (drop_member key ms)
without_field key j = j

abbrev pub append_items_of : Items → Json → Items
append_items_of end v = item v end
append_items_of (item j rest) v = item j (append_items_of rest v)

-- append, on an array or a null value.
abbrev pub append_to : Json → Json → Json
append_to (list js) v = list (append_items_of js v)
append_to j v = list (item v end)

-- The members of an object, each set in the other.
abbrev pub with_members : Members → Json → Json
with_members bare j = j
with_members (entry k v rest) j = with_members rest (with_field k v j)

abbrev pub is_int : Json → Bool
is_int (integer n) = true
is_int j = false

abbrev pub is_str : Json → Bool
is_str (str t) = true
is_str j = false

abbrev pub is_bool : Json → Bool
is_bool (boolean b) = true
is_bool j = false

abbrev pub is_list : Json → Bool
is_list (list js) = true
is_list j = false

abbrev pub is_null : Json → Bool
is_null null = true
is_null j = false

abbrev pub is_fields : Json → Bool
is_fields (fields ms) = true
is_fields j = false

-- asInt; `none` is the exception.
abbrev pub as_int : Json → Option ℤ
as_int (integer n) = some n
as_int (number n t) = n
as_int null = some (pos 0)
as_int (boolean true) = some (pos 1)
as_int (boolean false) = some (pos 0)
as_int j = none

-- asInt of a value that isInt.
abbrev pub int_of : Json → ℤ
int_of (integer n) = n
int_of j = pos 0

-- asString; `none` is the exception.
abbrev pub as_string : Json → Option Text
as_string (str t) = some t
as_string (integer n) = some (to_string n)
as_string (number n t) = some t
as_string null = some []
as_string (boolean true) = some (bytes "true")
as_string (boolean false) = some (bytes "false")
as_string j = none

-- asString of a value that isString.
abbrev pub text_of : Json → Text
text_of (str t) = t
text_of j = []

abbrev pub items_of : Json → Items
items_of (list js) = js
items_of j = end

-- What RequestContract asks of a member.
abbrev pub member_of : Option Json → Member
member_of none = absent
member_of (some (str t)) = text t
member_of (some j) = other

abbrev pub request_id : Text
request_id = bytes "request_id"

abbrev id_member : Json → Member
id_member (fields ms) = member_of (find_member request_id ms)
id_member j = absent

abbrev id_request : Json → Request Json
id_request j = record { is_object = is_fields j; request_id = id_member j; rest = j }

-- What a reader leaves: whether it parsed the text, and the value.
pub record Parsed : Type 0 where
  pub parsed : Bool
  pub value : Json

-- ParseRequest.
unfoldable pub accepts_request : Parsed → Bool
accepts_request p =
    p.parsed
    && (is_fields p.value && (not (is_member (id_member p.value)) || valid_id (id_member p.value)))

-- EchoId.
unfoldable pub echo : Json → Json → Json
echo request response =
    if is_fields request && valid_id (id_member request)
    then with_field request_id (field request_id request) response
    else response

abbrev tag_items : Items → List Item
tag_items end = []
tag_items (item (str t) rest) = string t ∷ tag_items rest
tag_items (item j rest) = no_string ∷ tag_items rest

abbrev pub tags_input : Json → Input
tags_input (list js) = array (tag_items js)
tags_input j = no_array

abbrev pub texts : List Text → Items
texts [] = end
texts (t ∷ rest) = item (str t) (texts rest)

-- response["error"] = code
abbrev pub error_code_of : ℕ → Json
error_code_of code = integer (pos code)

abbrev pub with_error : ℕ → Json → Json
with_error code response = with_field (bytes "error") (error_code_of code) response
