-- ===== src/Uploads/Checks.antt =====
-- The checks and the stages of the requests of ResourceServer/ResourceStore.cpp that do not depend on
-- OpenSSL.
use cpp_chat.Base.{
  ltb, ◌==◌, if◌then◌else◌, length, get_elem?, take, all_by, Text, bytes, text_eq, is_positive,
  is_negative, int_eq, ℤ, pos, sub64, ℕ, ◌+◌, ◌-◌, Bool, true, false, not, ◌&&◌, ◌||◌, Option, none,
  some, [],
}
use cpp_chat.Media.{wave_header_bytes, min_pcm_bytes, max_pcm_bytes}
use cpp_chat.Uploads.{
  maximum_image_size, Outcome, fail, group_member, is_hex_digit, valid_wave, mark_ready, part_file,
  done_file, Meta, Entry, Outside, Request, opened, progressed,
}

abbrev is_equals_sign : Option ℕ → Bool
is_equals_sign none = false
is_equals_sign (some c) = c == 61

-- The padding of an encoded text: its `=` in the last two places.
abbrev pub padding : Text → ℕ
padding encoded =
    (if is_equals_sign (get_elem? encoded (length encoded - 1)) then 1 else 0)
    + (if is_equals_sign (get_elem? encoded (length encoded - 2)) then 1 else 0)

abbrev pub trim_decoded : Text → Option Text → Text
trim_decoded encoded none = []
trim_decoded encoded (some decoded) = take (sub64 (length decoded) (padding encoded)) decoded

abbrev pub is_media : ℤ → Bool
is_media t = int_eq t (pos 1) || (int_eq t (pos 2) || int_eq t (pos 3))

-- The recipient of the request: none for a group, else another user.
abbrev pub bad_recipient : ℤ → Request → Bool
bad_recipient uid q =
    if is_positive q.thread_id
    then not (int_eq q.recipient (pos 0))
    else not (is_positive q.recipient) || int_eq q.recipient uid

abbrev pub bad_upload_size : Request → Bool
bad_upload_size q =
    q.size == 0
    || (ltb maximum_image_size q.size
        || (int_eq q.media_type (pos 3)
            && (ltb q.size (wave_header_bytes + min_pcm_bytes)
                || ltb (wave_header_bytes + max_pcm_bytes) q.size)))

unfoldable pub bad_metadata : ℤ → Request → Bool
bad_metadata uid q =
    is_negative q.thread_id
    || (bad_recipient uid q
        || (not (is_media q.media_type)
            || (bad_upload_size q
                || (not (length q.sha256 == 64) || not (all_by is_hex_digit q.sha256)))))

abbrev pub new_meta : ℤ → Request → Meta
new_meta uid q = record {
  uid = uid;
  recipient = q.recipient;
  thread_id = q.thread_id;
  media_type = q.media_type;
  size = q.size;
  sha256 = q.sha256;
}

unfoldable pub is_same_upload : ℤ → Request → Meta → Bool
is_same_upload uid q m =
    int_eq m.uid uid
    && (int_eq m.recipient q.recipient
        && (int_eq m.thread_id q.thread_id
            && (int_eq m.media_type q.media_type
                && (m.size == q.size && text_eq m.sha256 q.sha256))))

abbrev pub plays : ℤ → Text → Bool
plays media content = not (int_eq media (pos 3)) || valid_wave content

abbrev pub stored_plays : ℤ → Option Text → Bool
stored_plays media none = not (int_eq media (pos 3))
stored_plays media (some content) = plays media content

abbrev pub size_of : Option Text → ℕ
size_of none = 0
size_of (some content) = length content

abbrev pub finish_init : Request → Entry × Bool → Outcome
finish_init q (e, true) = (e, some (opened q.size true 4))
finish_init q (e, false) = fail e (bytes "Redis is unavailable")

unfoldable pub announce : Outside → ℤ → Request → Entry × Bool → Outcome
announce w uid q (e, false) = (e, some (opened (size_of (part_file e)) false 4))
announce w uid q (e, true) =
    if not (stored_plays q.media_type (done_file e))
    then fail e (bytes "invalid PCM wave")
    else finish_init q (mark_ready w uid q.recipient q.size q.thread_id q.media_type e)

abbrev pub finish_chunk : ℕ → Entry × Bool → Outcome
finish_chunk offset (e, true) = (e, some (progressed offset true))
finish_chunk offset (e, false) = fail e (bytes "Redis is unavailable")

abbrev pub mark_meta : Outside → ℤ → Meta → Entry → Entry × Bool
mark_meta w uid m e = mark_ready w uid m.recipient m.size m.thread_id m.media_type e

abbrev pub content_of : Option Text → Text
content_of none = []
content_of (some content) = content

abbrev pub fetched : Option ℕ → Text → Text
fetched none piece = piece
fetched (some k) piece = take k piece

-- Who may download.
unfoldable pub may_read : Outside → ℤ → Text → Meta → Bool
may_read w uid token m =
    if is_positive m.thread_id
    then group_member w uid token m.thread_id
    else int_eq m.uid uid || int_eq m.recipient uid

-- All that the store keeps: the entry of every file id.
abbrev pub Disk : Type 0
Disk = Text → Entry

abbrev pub replace : Text → Entry → Disk → Disk
replace id e disk key = if text_eq id key then e else disk key

-- A file id with nothing stored.
abbrev pub blank : Entry
blank = record { metas = λ f. none; parts = λ f. none; dones = λ f. none; ready = none }
