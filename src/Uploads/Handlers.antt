-- ===== src/Uploads/Handlers.antt =====
-- The requests of ResourceServer/ResourceStore.cpp: UploadInit, UploadChunk, Download and Handle. The
-- SHA-256 of a content, in lower-case digits, and OpenSSL's Base64 are parameters. Each stage of a
-- handler that follows a call is a function of that call's result.
use cpp_chat.Base.{
  ltb, leb, ◌==◌, if◌then◌else◌, length, take, drop, is_some, Text, bytes, text_eq, is_positive,
  int_eq, ℤ, add64, ℕ, ◌+◌, ◌-◌, ◌*◌, ◌/◌, ◌%◌, min, Bool, true, false, not, ◌&&◌, ◌||◌, Option,
  none, some, [], ◌++◌,
}
use cpp_chat.Uploads.{
  chunk_size, upload_init_request, upload_chunk_request, download_request, Outcome, fail,
  authenticated, group_member, valid_file_id, read_meta, write_meta, part_file, done_file, set_part,
  rename_part, Meta, Entry, Outside, Request, Reply, failed, mismatch, progressed, served,
}
use cpp_chat.Uploads.Checks.{
  trim_decoded, bad_metadata, new_meta, is_same_upload, plays, announce, finish_chunk, mark_meta,
  content_of, fetched, may_read, Disk, replace,
}

-- What the store uses of OpenSSL; `decode_block` is `none` where EVP_DecodeBlock returns -1.
pub record Openssl : Type 0 where
  pub digest : Text → Text
  pub decode_block : Text → Option Text
  pub encode_block : Text → Text

module _ (ssl : Openssl) where
  open ssl use {digest, decode_block, encode_block}

  -- Sha256; the empty text where the file or the digest fails.
  unfoldable pub sha256_of : Outside → Text → Text
  sha256_of w content = if w.hashes then digest content else []

  -- DecodeBase64.
  unfoldable pub decode_base64 : Text → Text
  decode_base64 encoded =
      if length encoded == 0
        || (not (length encoded % 4 == 0) || ltb ((chunk_size + 2) / 3 * 4) (length encoded))
      then []
      else trim_decoded encoded (decode_block encoded)

  unfoldable pub encode_base64 : Text → Text
  encode_base64 content = encode_block content

  -- The content is all of the upload: its size, its digest and its format are right.
  abbrev pub is_whole : Outside → Request → Text → Bool
  is_whole w q content =
      length content == q.size
      && (text_eq (sha256_of w content) q.sha256 && plays q.media_type content)

  -- A full part becomes the finished file if it is right, and is removed if not.
  unfoldable pub recover_part : Outside → Request → Entry → Option Text → Option Text → Entry × Bool
  recover_part w q e (some content) part = (e, true)
  recover_part w q e none none = (e, false)
  recover_part w q e none (some content) =
      if leb q.size (length content)
      then if is_whole w q content then (rename_part e, true) else (set_part none e, false)
      else (e, false)

  abbrev pub resume_upload : Outside → ℤ → Request → Entry → Outcome
  resume_upload w uid q e = announce w uid q (recover_part w q e (done_file e) (part_file e))

  abbrev pub after_write : Outside → ℤ → Request → Entry × Bool → Outcome
  after_write w uid q (e, true) = resume_upload w uid q e
  after_write w uid q (e, false) = (e, none)

  unfoldable pub init_with : Outside → ℤ → Request → Entry → Option (Option Meta) → Outcome
  init_with w uid q e none = (e, none)
  init_with w uid q e (some none) = after_write w uid q (write_meta w.saves (new_meta uid q) e)
  init_with w uid q e (some (some m)) =
      if is_same_upload uid q m
      then resume_upload w uid q e
      else fail e (bytes "file id belongs to another upload")

  -- UploadInit.
  unfoldable pub upload_init : Outside → ℤ → Request → Entry → Outcome
  upload_init w uid q e =
      if bad_metadata uid q
      then fail e (bytes "invalid image metadata")
      else if is_positive q.thread_id && not (group_member w uid q.token q.thread_id)
      then fail e (bytes "group access denied")
      else init_with w uid q e (read_meta e)

  -- UploadChunk after its last byte is written.
  unfoldable pub complete_upload : Outside → ℤ → Meta → Entry → Text → Outcome
  complete_upload w uid m e content =
      if not (text_eq (sha256_of w content) m.sha256)
      then fail (set_part none e) (bytes "image checksum mismatch")
      else if not (plays m.media_type content)
      then fail (set_part none e) (bytes "invalid PCM wave")
      else finish_chunk m.size (mark_meta w uid m (rename_part e))

  -- UploadChunk from the write of the file on; `content` is what the part holds after a full write.
  unfoldable pub append_part : Outside → ℤ → Meta → Text → Text → Option ℕ → Entry → Outcome
  append_part w uid m old piece (some k) e =
      fail (set_part (some (old ++ take k piece)) e) (bytes "upload write failed")
  append_part w uid m old piece none e =
      let content = old ++ piece in
      let appended = set_part (some content) e in
      let next_offset = add64 (length old) (length piece) in
      if next_offset == m.size
      then complete_upload w uid m appended content
      else (appended, some (progressed next_offset false))

  -- UploadChunk from the opening of the part on.
  abbrev pub open_part : Outside → ℤ → Meta → Text → Text → Entry → Bool → Outcome
  open_part w uid m old piece e false = fail e (bytes "cannot open upload file")
  open_part w uid m old piece e true = append_part w uid m old piece w.writes e

  unfoldable pub chunk_into : Outside → ℤ → Request → Meta → Text → Text → Entry → Outcome
  chunk_into w uid q m old piece e =
      if not (q.offset == length old)
      then (e, some (mismatch (length old)))
      else if length piece == 0
          || (ltb chunk_size (length piece) || ltb m.size (add64 (length old) (length piece)))
      then fail e (bytes "invalid chunk")
      else open_part w uid m old piece e w.opens

  unfoldable pub chunk_with : Outside → ℤ → Request → Entry → Option (Option Meta) → Outcome
  chunk_with w uid q e none = (e, none)
  chunk_with w uid q e (some none) = fail e (bytes "upload not initialized")
  chunk_with w uid q e (some (some m)) =
      if not (int_eq m.uid uid)
      then fail e (bytes "upload not initialized")
      else if is_positive m.thread_id && not (group_member w uid q.token m.thread_id)
      then fail e (bytes "group access denied")
      else if is_some (done_file e)
      then finish_chunk m.size (mark_meta w uid m e)
      else chunk_into w uid q m (content_of (part_file e)) (decode_base64 q.payload) e

  -- UploadChunk.
  unfoldable pub upload_chunk : Outside → ℤ → Request → Entry → Outcome
  upload_chunk w uid q e = chunk_with w uid q e (read_meta e)

  abbrev pub serve_piece : Meta → ℕ → Text → Reply
  serve_piece m offset piece =
      let next = add64 offset (length piece) in
      served next m.size m.sha256 (encode_base64 piece) (next == m.size)

  -- Download from a finished file.
  unfoldable pub serve : Outside → Meta → ℕ → Text → Reply
  serve w m offset content =
      if ltb m.size offset
      then failed (bytes "invalid download offset")
      else if not w.opens
      then failed (bytes "cannot read image")
      else serve_piece m offset
          (fetched w.fetches (take (min chunk_size (m.size - offset)) (drop offset content)))

  abbrev pub serve_done : Outside → Meta → ℕ → Option Text → Reply
  serve_done w m offset none = failed (bytes "image is not ready")
  serve_done w m offset (some content) = serve w m offset content

  unfoldable pub download_with :
      Outside → ℤ → Request → Option Text → Option (Option Meta) → Option Reply
  download_with w uid q stored none = none
  download_with w uid q stored (some none) = some (failed (bytes "access denied"))
  download_with w uid q stored (some (some m)) =
      if may_read w uid q.token m
      then some (serve_done w m q.offset stored)
      else some (failed (bytes "access denied"))

  -- Download.
  unfoldable pub download : Outside → ℤ → Request → Entry → Outcome
  download w uid q e = (e, download_with w uid q (done_file e) (read_meta e))

  unfoldable pub dispatch : Outside → ℕ → Request → Entry → Outcome
  dispatch w id q e =
      if id == upload_init_request
      then upload_init w q.uid q e
      else if id == upload_chunk_request
      then upload_chunk w q.uid q e
      else if id == download_request
      then download w q.uid q e
      else fail e (bytes "unknown request")

  -- Handle, on what is stored under the request's file id.
  unfoldable pub handle : Outside → ℕ → Request → Entry → Outcome
  handle w id q e =
      if not (authenticated w q.uid q.token)
      then fail e (bytes "invalid token")
      else if not (valid_file_id q.file_id)
      then fail e (bytes "invalid file id")
      else dispatch w id q e

  abbrev pub handle_on : Outside → ℕ → Request → Disk → Disk
  handle_on w id q disk = replace q.file_id (handle w id q (disk q.file_id)).0 disk
