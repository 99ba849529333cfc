-- ===== src/Examples/UploadsTests.antt =====
-- Concrete instances for the upload store: a coding of three bytes by four numbers, a digest, a user
-- who sends five bytes and one who fetches them.
use cpp_chat.Base.{
  length, replicate, All, Text, bytes, text_eq, pos, digits, to_string, ℕ, suc, ◌+◌, ◌-◌, ◌*◌, ◌/◌,
  ◌≡◌, refl, ap, ◌∙◌, ◌≢◌, true, none, some, [], ◌∷◌, ◌++◌, arith,
}
use cpp_chat.Redis.{answered}
use cpp_chat.Uploads.{
  upload_init_request, authenticated, valid_file_id, meta_folder, read_meta, part_file, done_file,
  set_part, Entry, saved, Outside, Request, Reply, served,
}
use cpp_chat.Uploads.Checks.{padding, bad_metadata, new_meta, announce, may_read, blank}
use cpp_chat.Uploads.Handlers.{
  decode_base64, recover_part, init_with, upload_init, append_part, chunk_into, chunk_with,
  upload_chunk, dispatch, handle, Openssl,
}
use cpp_chat.Uploads.Held.{held}
use cpp_chat.Uploads.Sound.{IsSound}
use cpp_chat.Uploads.Base64.{IsBase64}
use cpp_chat.Uploads.Transfer.{calm, send_pieces, fetch, IsPiece, IsUpload}
use cpp_chat.Uploads.Fetch.{fetch-send_pieces, IsReader}
use cpp_chat.Uploads.Owner.{handle-foreign}
use cpp_chat.Uploads.Chunks.{run, run-IsSound}

-- Data bytes are moved past `=`, which only pads.
abbrev encode4 : Text → Text
encode4 [] = []
encode4 (a ∷ []) = (a + 62) ∷ 0 ∷ 61 ∷ 61 ∷ []
encode4 (a ∷ b ∷ []) = (a + 62) ∷ (b + 62) ∷ 0 ∷ 61 ∷ []
encode4 (a ∷ b ∷ c ∷ rest) = (a + 62) ∷ (b + 62) ∷ (c + 62) ∷ 0 ∷ encode4 rest

abbrev decode4 : Text → Text
decode4 (a ∷ b ∷ c ∷ d ∷ rest) = (a - 62) ∷ (b - 62) ∷ (c - 62) ∷ decode4 rest
decode4 _ = []

abbrev toy_ssl : Openssl
toy_ssl = record {
  digest = λ t. replicate 64 97;
  decode_block = λ t. some (decode4 t);
  encode_block = encode4;
}

length-encode4 : (p : Text) → length (encode4 p) ≡ (length p + 2) / 3 * 4
length-encode4 [] = refl
length-encode4 (a ∷ []) = refl
length-encode4 (a ∷ b ∷ []) = refl
length-encode4 (a ∷ b ∷ c ∷ rest) = omega (arith, length-encode4 rest)

padding_cons : (x y z : ℕ) (t : Text) → padding (x ∷ y ∷ z ∷ t) ≡ padding (y ∷ z ∷ t)
padding_cons x y z t =
    let e1 : suc (suc (suc (length t))) - 1 ≡ suc (suc (length t)) = omega arith in
    let e2 : suc (suc (suc (length t))) - 2 ≡ suc (length t) = omega arith in
    let e3 : suc (suc (length t)) - 1 ≡ suc (length t) = omega arith in
    let e4 : suc (suc (length t)) - 2 ≡ length t = omega arith in rw (e1, e2, e3, e4)

pad_block : (a b c d y z : ℕ) (t : Text) → padding (a ∷ b ∷ c ∷ d ∷ y ∷ z ∷ t) ≡ padding (y ∷ z ∷ t)
pad_block a b c d y z t =
    padding_cons a b c (d ∷ y ∷ z ∷ t)
    ∙ padding_cons b c d (y ∷ z ∷ t)
    ∙ padding_cons c d y (z ∷ t)
    ∙ padding_cons d y z t

padding_block :
    (a b c : ℕ) (rest : Text)
    → padding ((a + 62) ∷ (b + 62) ∷ (c + 62) ∷ 0 ∷ encode4 rest) ≡ padding (encode4 rest)
padding_block a b c [] = ground arith
padding_block a b c (x ∷ []) = pad_block (a + 62) (b + 62) (c + 62) 0 (x + 62) 0 (61 ∷ 61 ∷ [])
padding_block a b c (x ∷ y ∷ []) =
    pad_block (a + 62) (b + 62) (c + 62) 0 (x + 62) (y + 62) (0 ∷ 61 ∷ [])
padding_block a b c (x ∷ y ∷ z ∷ rest) =
    pad_block (a + 62) (b + 62) (c + 62) 0 (x + 62) (y + 62) ((z + 62) ∷ 0 ∷ encode4 rest)

minus_plus : (n : ℕ) → n + 62 - 62 ≡ n
minus_plus n = omega arith

decode4-encode4 : (p : Text) → decode4 (encode4 p) ≡ p ++ replicate (padding (encode4 p)) 0
decode4-encode4 [] = refl
decode4-encode4 (a ∷ []) = rw (minus_plus a)
decode4-encode4 (a ∷ b ∷ []) = ground arith
decode4-encode4 (a ∷ b ∷ c ∷ rest) =
    rw (minus_plus a, minus_plus b, minus_plus c, padding_block a b c rest, decode4-encode4 rest)

toy_ssl-IsBase64 : IsBase64 toy_ssl
toy_ssl-IsBase64 = record {
  encoded_length = length-encode4;
  decoded = λ p h. ap some (decode4-encode4 p);
}

abbrev plain : Outside
plain = record {
  connected = true;
  token_at = λ key. some (bytes "key");
  nodes = λ uid token thread. [];
  saves = saved;
  opens = true;
  writes = none;
  hashes = true;
  fetches = none;
  marks = answered;
}

abbrev piece1 : Text
piece1 = 1 ∷ 2 ∷ 3 ∷ []

abbrev piece2 : Text
piece2 = 61 ∷ 255 ∷ []

abbrev five_bytes : Text
five_bytes = 1 ∷ 2 ∷ 3 ∷ 61 ∷ 255 ∷ []

abbrev upload : Request
upload = record {
  uid = pos 7;
  token = bytes "key";
  file_id = replicate 32 48;
  recipient = pos 8;
  thread_id = pos 0;
  media_type = pos 1;
  size = 5;
  sha256 = replicate 64 97;
  offset = 0;
  payload = [];
}

abbrev reading : Request
reading = record upload { uid = pos 8 }

upload-IsUpload : IsUpload toy_ssl plain upload five_bytes
unfolding authenticated to_string digits text_eq valid_file_id bad_metadata
upload-IsUpload = record {
  admitted = refl;
  identified = refl;
  described = refl;
  member = refl;
  sized = refl;
  checked = refl;
  playable = refl;
}

reading-IsReader : IsReader toy_ssl plain reading (new_meta (pos 7) upload)
unfolding authenticated to_string digits text_eq valid_file_id may_read
reading-IsReader = record { admitted = refl; identified = refl; allowed = refl }

pieces-IsPiece : All IsPiece (piece1 ∷ piece2 ∷ [])
pieces-IsPiece = (
  record { nonempty = omega arith; bounded = omega arith; bytewise = omega arith },
  (record { nonempty = omega arith; bounded = omega arith; bytewise = omega arith }, tt),
)

fetch-send_pieces_example :
    fetch toy_ssl 5
      (calm plain)
      reading
      (send_pieces toy_ssl
        (calm plain)
        upload
        (piece1 ∷ piece2 ∷ [])
        0
        (handle toy_ssl (calm plain) upload_init_request upload blank).0)
      0
    ≡ some five_bytes
fetch-send_pieces_example =
    fetch-send_pieces toy_ssl plain plain upload reading piece1 (piece2 ∷ []) toy_ssl-IsBase64
      pieces-IsPiece upload-IsUpload reading-IsReader

abbrev first_chunk : Request
first_chunk = record upload { payload = encode4 piece1 }

run-IsSound_example : IsSound toy_ssl (
    run toy_ssl
      ((plain, 1050, upload) ∷ (record plain { writes = some 2 }, 1052, first_chunk) ∷ [])
      (λ id. blank)
      (replicate 32 48))
run-IsSound_example =
    run-IsSound toy_ssl
      ((plain, 1050, upload) ∷ (record plain { writes = some 2 }, 1052, first_chunk) ∷ [])
      (replicate 32 48)

-- A write that fails leaves a part, which counts.
half_written :
    part_file (
      run toy_ssl
        ((plain, 1050, upload) ∷ (record plain { writes = some 2 }, 1052, first_chunk) ∷ [])
        (λ id. blank)
        (replicate 32 48))
    ≡ some (1 ∷ 2 ∷ [])
unfolding handle dispatch upload_init upload_chunk init_with chunk_with chunk_into append_part
    read_meta meta_folder part_file done_file set_part recover_part announce authenticated to_string
    digits text_eq valid_file_id bad_metadata decode_base64
half_written = ground arith

other_user : reading.uid ≢ upload.uid
other_user e = ground arith

handle-foreign_example :
    (handle toy_ssl plain upload_init_request reading
      (held (new_meta (pos 7) upload) (some piece1) none none)).0
    ≡ held (new_meta (pos 7) upload) (some piece1) none none
handle-foreign_example =
    handle-foreign toy_ssl plain reading (new_meta (pos 7) upload) (some piece1) none none
      upload_init_request other_user

abbrev finished_upload : Entry
finished_upload = held (new_meta (pos 7) upload) none (some five_bytes) none

abbrev whole_reply : Reply
whole_reply = served 5 5 (replicate 64 97) (encode4 five_bytes) true
