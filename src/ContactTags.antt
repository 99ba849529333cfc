-- ===== src/ContactTags.antt =====
-- The tags and the remark of a contact (ChatServerShared/ContactTags.h). A JSON value is what the code
-- asks of it: an array of items, each a string or not. The texts are those that asString gives.
pub mod Normal
use cpp_chat.Base.{
  ltb, leb, ◌==◌, if◌then◌else◌, length, any_by, filter_by, Text, text_eq, ℕ, ◌+◌, ◌-◌, ◌/◌, Bool,
  true, false, not, ◌&&◌, ◌||◌, Option, none, some, List, [], ◌∷◌, ◌++◌,
}

pub data Item : Type 0 where
  string : Text → Item
  no_string : Item

pub data Input : Type 0 where
  array : List Item → Input
  no_array : Input

abbrev pub max_tags : ℕ
max_tags = 12

abbrev pub max_tag_bytes : ℕ
max_tag_bytes = 128

-- One of " \t\r\n".
abbrev pub is_blank : ℕ → Bool
is_blank c = c == 32 || (c == 9 || (c == 13 || c == 10))

abbrev pub is_control : ℕ → Bool
is_control c = ltb c 32

abbrev pub is_nil : Text → Bool
is_nil [] = true
is_nil (c ∷ cs) = false

-- The text from find_first_not_of on; empty for npos.
unfoldable pub skip_blanks : Text → Text
skip_blanks [] = []
skip_blanks (c ∷ cs) = let rest = skip_blanks cs in if is_blank c then rest else c ∷ cs

-- The text up to find_last_not_of.
unfoldable pub cut_blanks : Text → Text
cut_blanks [] = []
cut_blanks (c ∷ cs) = let rest = cut_blanks cs in if is_blank c && is_nil rest then [] else c ∷ rest

-- The trimmed text of an item; `none` rejects the input.
unfoldable pub trim : Text → Option Text
trim text =
    if is_nil (skip_blanks text)
    then none
    else (let t = cut_blanks (skip_blanks text) in
        if ltb max_tag_bytes (length t) || any_by is_control t then none else some t)

abbrev pub read_item : Item → Option Text
read_item (string text) = trim text
read_item no_string = none

-- The loop over `tags`, and the append.
unfoldable pub append_tag : Text → List Text → List Text
append_tag text tags = if any_by (λ t. text_eq t text) tags then tags else tags ++ text ∷ []

abbrev pub append_item : Option Text → List Text → Option (List Text)
append_item none tags = none
append_item (some text) tags = some (append_tag text tags)

-- The loop over the items.
unfoldable pub append_items : List Item → Option (List Text) → Option (List Text)
append_items items none = none
append_items [] (some tags) = some tags
append_items (item ∷ items) (some tags) = append_items items (append_item (read_item item) tags)

-- NormalizeContactTags; `none` is false.
unfoldable pub normalize_contact_tags : Input → Option (List Text)
normalize_contact_tags no_array = none
normalize_contact_tags (array items) =
    if ltb max_tags (length items) then none else append_items items (some [])

-- The number of code points of a UTF-8 text: (c & 0xc0) != 0x80.
abbrev pub starts_code_point : ℕ → Bool
starts_code_point c = ltb c 128 || leb 192 c

-- ValidContactRemark.
unfoldable pub valid_contact_remark : Item → Bool
valid_contact_remark no_string = false
valid_contact_remark (string text) =
    if ltb 256 (length text) || any_by (λ c. ltb c 32 || c == 127) text
    then false
    else leb (length (filter_by starts_code_point text)) 64
