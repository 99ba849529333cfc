-- ===== src/Uploads.antt =====
-- The upload store of the resource server: ResourceServer/ResourceStore.cpp, ResourceProtocol.h and
-- GroupMember of ResourceAuthorizer.cpp. This file has the files of an upload, what surrounds a
-- request and the checks; Uploads/Handlers the requests, and the other children the proofs. JSON
-- values arrive converted to the types that the code asks for, with its defaults. A rename and a
-- removal of a file succeed; the per-file mutex makes a request one step.
pub mod Checks
pub mod Handlers
pub mod Held
pub mod Sound
pub mod Init
pub mod Chunks
pub mod Owner
pub mod Base64
pub mod Transfer
pub mod Fetch
use cpp_chat.Base.{
  ltb, leb, ◌==◌, if◌then◌else◌, length, take, is_some, all_by, Text, bytes, text_eq, is_positive,
  int_eq, ℤ, pos, to_string, ℕ, ◌+◌, ◌-◌, ◌*◌, ◌/◌, ◌<◌, Bool, true, false, not, ◌&&◌, ◌||◌, Option,
  none, some, List, [], ◌∷◌, ◌++◌,
}
use cpp_chat.Redis.{Redis, Fate, answered, not_run, reply_lost}
use cpp_chat.Media.{wave_header_bytes, wave_duration_ms, write}

abbrev pub chunk_size : ℕ
chunk_size = 32 * 1024

abbrev pub maximum_image_size : ℕ
maximum_image_size = 20 * 1024 * 1024

abbrev pub upload_init_request : ℕ
upload_init_request = 1050

abbrev pub upload_chunk_request : ℕ
upload_chunk_request = 1052

abbrev pub download_request : ℕ
download_request = 1054

-- The metadata that UploadInit writes.
pub record Meta : Type 0 where
  pub uid : ℤ
  pub recipient : ℤ
  pub thread_id : ℤ
  pub media_type : ℤ
  pub size : ℕ
  pub sha256 : Text

-- A metadata file: written whole, or cut off and no JSON.
pub data MetaFile : Type 0 where
  written : Meta → MetaFile
  garbled : MetaFile

-- settings_.directory / "files", "audio", "groups", and the directory itself.
pub data Folder : Type 0 where
  files audio groups root : Folder

abbrev pub folder_eq : Folder → Folder → Bool
folder_eq files files = true
folder_eq audio audio = true
folder_eq groups groups = true
folder_eq root root = true
folder_eq _ _ = false

-- What is stored under one file id: <id>.json, <id>.part and <id>.bin of each directory, and the value
-- of resource_ready_<id> in Redis.
pub record Entry : Type 0 where
  pub metas : Folder → Option MetaFile
  pub parts : Folder → Option Text
  pub dones : Folder → Option Text
  pub ready : Option Text

-- A write of a metadata file: complete, cut off, or refused.
pub data Saving : Type 0 where
  saved cut_off refused : Saving

-- What surrounds one request: Redis and its resource tokens, the answers of the chat nodes to
-- AuthorizeGroup in the order of the stubs, and how the operations on files end. `writes` and `fetches`
-- are `none` where all bytes are written or read, and otherwise how many are.
pub record Outside : Type 0 where
  pub connected : Bool
  pub token_at : Text → Option Text
  pub nodes : ℤ → Text → ℤ → List (Option ℤ)
  pub saves : Saving
  pub opens : Bool
  pub writes : Option ℕ
  pub hashes : Bool
  pub fetches : Option ℕ
  pub marks : Fate

pub record Request : Type 0 where
  pub uid : ℤ
  pub token : Text
  pub file_id : Text
  pub recipient : ℤ
  pub thread_id : ℤ
  pub media_type : ℤ
  pub size : ℕ
  pub sha256 : Text
  pub offset : ℕ
  pub payload : Text

-- A reply by its members: `error`; `error` with `offset`; `offset`, `complete` and, of UploadInit,
-- `upload_window`; those of a download.
pub data Reply : Type 0 where
  failed : Text → Reply
  mismatch : ℕ → Reply
  opened : ℕ → Bool → ℕ → Reply
  progressed : ℕ → Bool → Reply
  served : ℕ → ℕ → Text → Text → Bool → Reply

-- The entry after a request and its reply; `none` is an exception.
abbrev pub Outcome : Type 0
Outcome = Entry × Option Reply

abbrev pub fail : Entry → Text → Outcome
fail e message = (e, some (failed message))

-- Authenticated, without the connection.
abbrev pub token_matches : Outside → Text → Text → Bool
token_matches w key token = elim (w.token_at key) [
  | none ↦ false
  | some value ↦ text_eq value token
]

unfoldable pub authenticated : Outside → ℤ → Text → Bool
authenticated w uid token =
    let key = bytes "resource_token_" ++ to_string uid in
    if not (is_positive uid) || length token == 0
    then false
    else if not w.connected
    then false
    else token_matches w key token || token_matches w (key ++ bytes ":android") token

-- GroupMember: the first node that answers decides.
abbrev pub first_answer : List (Option ℤ) → Bool
first_answer [] = false
first_answer (none ∷ rest) = first_answer rest
first_answer (some error ∷ rest) = int_eq error (pos 0)

unfoldable pub group_member : Outside → ℤ → Text → ℤ → Bool
group_member w uid token thread = first_answer (w.nodes uid token thread)

-- isxdigit in the C locale.
abbrev pub is_hex_digit : ℕ → Bool
is_hex_digit c = (leb 48 c && leb c 57) || ((leb 65 c && leb c 70) || (leb 97 c && leb c 102))

-- ValidId.
unfoldable pub valid_file_id : Text → Bool
valid_file_id id = length id == 32 && all_by is_hex_digit id

-- ValidWave of the content of a file.
unfoldable pub valid_wave : Text → Bool
valid_wave content =
    leb wave_header_bytes (length content)
    && ltb 0 (wave_duration_ms (take wave_header_bytes content) (length content))

-- The value that MarkReady writes.
abbrev pub ready_scope : ℤ → ℤ → ℕ → ℤ → Text
ready_scope sender recipient size thread =
    if is_positive thread
    then bytes "group:"
      ++ to_string sender
      ++ bytes ":"
      ++ to_string thread
      ++ bytes ":"
      ++ to_string (pos size)
    else to_string sender ++ bytes ":" ++ to_string recipient ++ bytes ":" ++ to_string (pos size)

unfoldable pub ready_value : ℤ → ℤ → ℕ → ℤ → ℤ → Text
ready_value sender recipient size thread media =
    (if int_eq media (pos 3)
      then bytes "audio:"
      else if int_eq media (pos 2)
      then bytes "file:"
      else [])
    ++ ready_scope sender recipient size thread

-- MarkReady: the entry, and whether Redis answered OK.
abbrev pub set_ready : Text → Fate → Entry → Entry × Bool
set_ready value answered e = (record e { ready = some value }, true)
set_ready value not_run e = (e, false)
set_ready value reply_lost e = (record e { ready = some value }, false)

unfoldable pub mark_ready : Outside → ℤ → ℤ → ℕ → ℤ → ℤ → Entry → Entry × Bool
mark_ready w sender recipient size thread media e =
    if not w.connected
    then (e, false)
    else set_ready (ready_value sender recipient size thread media) w.marks e

-- The directory of MetaPath, PartPath and DonePath.
unfoldable pub meta_folder : Entry → Folder
meta_folder e =
    if is_some (e.metas files)
    then files
    else if is_some (e.metas audio)
    then audio
    else if is_some (e.metas groups)
    then groups
    else root

-- ReadMeta: `none` is the exception of the parser, `some none` the null value.
abbrev pub parse_meta : Option MetaFile → Option (Option Meta)
parse_meta none = some none
parse_meta (some garbled) = none
parse_meta (some (written m)) = some (some m)

unfoldable pub read_meta : Entry → Option (Option Meta)
read_meta e = parse_meta (e.metas (meta_folder e))

-- The directory that WriteMeta writes to.
abbrev pub folder_of : Meta → Folder
folder_of m =
    if int_eq m.media_type (pos 2)
    then files
    else if int_eq m.media_type (pos 3)
    then audio
    else if is_positive m.thread_id
    then groups
    else root

abbrev pub put {ℓ} : {A : Type ℓ} → Folder → A → (Folder → A) → Folder → A
put f a table g = if folder_eq f g then a else table g

-- WriteMeta: the entry, and whether it returned.
abbrev pub write_meta : Saving → Meta → Entry → Entry × Bool
write_meta saved m e = (record e { metas = put (folder_of m) (some (written m)) e.metas }, true)
write_meta cut_off m e = (record e { metas = put (folder_of m) (some garbled) e.metas }, false)
write_meta refused m e = (e, false)

unfoldable pub part_file : Entry → Option Text
part_file e = e.parts (meta_folder e)

unfoldable pub done_file : Entry → Option Text
done_file e = e.dones (meta_folder e)

unfoldable pub set_part : Option Text → Entry → Entry
set_part content e = record e { parts = put (meta_folder e) content e.parts }

-- fs::rename of the part to the finished file.
unfoldable pub rename_part : Entry → Entry
rename_part e = record e {
  dones = put (meta_folder e) (part_file e) e.dones;
  parts = put (meta_folder e) none e.parts;
}
