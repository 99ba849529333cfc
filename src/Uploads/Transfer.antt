-- ===== src/Uploads/Transfer.antt =====
-- A file that is sent piece by piece to ResourceServer/ResourceStore.cpp and then fetched is the same
-- file. The client sends each piece at the offset that it has reached, and fetches from the offset that
-- the last reply gave.
use cpp_chat.Base.{
  ltb, ◌==◌, if◌then◌else◌, length, concat_by, All, length-append, map_option, Text, text_eq_refl,
  is_positive, int_eq, int_eq_iff, add64, ℕ, zero, suc, ◌+◌, ◌≤◌, ◌<◌, ◌≡◌, refl, sym, ap, ◌∙◌,
  true, false, not, ◌&&◌, ◌||◌, Option, none, some, List, [], ◌∷◌, ◌++◌, append-nil, append_assoc,
  arith,
}
use cpp_chat.Redis.{answered}
use cpp_chat.Uploads.{
  chunk_size, maximum_image_size, upload_init_request, upload_chunk_request, download_request,
  authenticated, group_member, valid_file_id, mark_ready, meta_folder, read_meta, folder_of, Meta,
  written, Entry, saved, Outside, Request, Reply, served,
}
use cpp_chat.Uploads.Checks.{bad_metadata, new_meta, plays, announce, content_of, blank}
use cpp_chat.Uploads.Handlers.{
  sha256_of, decode_base64, encode_base64, recover_part, init_with, upload_init, complete_upload,
  append_part, chunk_into, chunk_with, upload_chunk, dispatch, handle, Openssl,
}
use cpp_chat.Uploads.Held.{
  held, read_meta-kept, part_file-kept, done_file-kept, set_part-kept, rename_part-kept,
  write_meta-blank,
}
use cpp_chat.Uploads.Sound.{mark_of}
use cpp_chat.Uploads.Base64.{IsByte, decode_base64-encode_base64, IsBase64}

-- Surroundings in which Redis answers and no operation on a file fails.
abbrev pub calm : Outside → Outside
calm w = record w {
  connected = true;
  saves = saved;
  opens = true;
  writes = none;
  hashes = true;
  fetches = none;
  marks = answered;
}

abbrev pub piece_request : Request → ℕ → Text → Request
piece_request q offset payload = record q { offset = offset; payload = payload }

-- A piece that one request may carry.
pub record IsPiece (p : Text) : Type 0 where
  pub nonempty : 0 < length p
  pub bounded : length p ≤ chunk_size
  pub bytewise : All IsByte p

abbrev pub join : List Text → Text
join pieces = concat_by (λ p. p) pieces

module _ (ssl : Openssl) where
  open ssl use {digest}

  abbrev pub send_piece : Outside → Request → ℕ → Text → Entry → Entry
  send_piece w q offset p e =
      (handle ssl w upload_chunk_request (piece_request q offset (encode_base64 ssl p)) e).0

  unfoldable pub send_pieces : Outside → Request → List Text → ℕ → Entry → Entry
  send_pieces w q [] offset e = e
  send_pieces w q (p ∷ ps) offset e =
      send_pieces w q ps (offset + length p) (send_piece w q offset p e)

  -- What the client does with a reply to a download; `none` is a failure.
  abbrev pub after_reply : Option Reply → (ℕ → Option Text) → Option Text
  after_reply (some (served next size sha payload last)) rest =
      if last
      then some (decode_base64 ssl payload)
      else map_option (λ t. decode_base64 ssl payload ++ t) (rest next)
  after_reply reply rest = none

  unfoldable pub fetch : ℕ → Outside → Request → Entry → ℕ → Option Text
  fetch zero w q e offset = none
  fetch (suc fuel) w q e offset =
      after_reply (handle ssl w download_request (piece_request q offset []) e).1 (fetch fuel w q e)

  -- A request of the upload's owner, which the server accepts.
  pub record IsUpload (w : Outside) (q : Request) (content : Text) : Type 0 where
    pub admitted : authenticated (calm w) q.uid q.token ≡ true
    pub identified : valid_file_id q.file_id ≡ true
    pub described : bad_metadata q.uid q ≡ false
    pub member :
        (is_positive q.thread_id && not (group_member (calm w) q.uid q.token q.thread_id)) ≡ false
    pub sized : length content ≡ q.size
    pub checked : digest content ≡ q.sha256
    pub playable : plays q.media_type content ≡ true

  module _ (w : Outside) (q : Request) (content : Text) (u : IsUpload w q content) where
    abbrev theirs : Meta
    theirs = new_meta q.uid q

    init_blank :
        (init_with ssl (calm w) q.uid q blank (read_meta blank)).0 ≡ held theirs none none none
    unfolding init_with read_meta meta_folder recover_part announce
    init_blank = rw (
      write_meta-blank (folder_of theirs) (written theirs),
      done_file-kept (folder_of theirs) (written theirs) none none none,
      part_file-kept (folder_of theirs) (written theirs) none none none,
    )

    pub init_lem : (handle ssl (calm w) upload_init_request q blank).0 ≡ held theirs none none none
    unfolding handle dispatch upload_init
    init_lem = rw (u.admitted, u.identified, u.described, u.member) init_blank

    module _ (part : Option Text) (p : Text) (laws : IsBase64 ssl) (piece : IsPiece p) where
      abbrev old : Text
      old = content_of part

      abbrev chunk_request : Request
      chunk_request = piece_request q (length old) (encode_base64 ssl p)

      append_lem :
          (e : Entry)
          → length old + length p ≤ q.size
          → q.size ≤ maximum_image_size
          → (chunk_into ssl (calm w) q.uid chunk_request theirs old p e)
            ≡ append_part ssl (calm w) q.uid theirs old p none e
      unfolding chunk_into
      append_lem e room small =
          let here : (length old == length old) ≡ true = ground arith in
          let fits : (length p == 0
                || (ltb chunk_size (length p) || ltb q.size (add64 (length old) (length p))))
              ≡ false =
            ground (arith, piece.nonempty, piece.bounded) in
          rw (here, fits)

      chunk_lem :
          (handle ssl (calm w) upload_chunk_request chunk_request (held theirs part none none)).0
          ≡ (chunk_into ssl
              (calm w)
              q.uid
              chunk_request
              theirs
              old
              p
              (held theirs part none none)).0
      unfolding handle dispatch upload_chunk chunk_with
      chunk_lem =
          let own : int_eq q.uid q.uid ≡ true = (int_eq_iff q.uid q.uid).1 refl in
          rw (
            u.admitted,
            u.identified,
            read_meta-kept (folder_of theirs) (written theirs) part none none,
            own,
            u.member,
            done_file-kept (folder_of theirs) (written theirs) part none none,
            part_file-kept (folder_of theirs) (written theirs) part none none,
            decode_base64-encode_base64 ssl p laws piece.bytewise piece.nonempty piece.bounded,
          )

      more_lem :
          length old + length p < q.size
          → q.size ≤ maximum_image_size
          → (append_part ssl (calm w) q.uid theirs old p none (held theirs part none none)).0
            ≡ held theirs (some (old ++ p)) none none
      unfolding append_part
      more_lem room small =
          let short : (add64 (length old) (length p) == q.size) ≡ false = ground arith in
          rw (
            set_part-kept (folder_of theirs) (written theirs) part none none (some (old ++ p)),
            short,
          )

      last_lem :
          old ++ p ≡ content
          → length old + length p ≡ q.size
          → q.size ≤ maximum_image_size
          → (append_part ssl (calm w) q.uid theirs old p none (held theirs part none none)).0
            ≡ held theirs none (some content) (some (mark_of ssl theirs))
      unfolding append_part complete_upload sha256_of mark_ready
      last_lem all full small =
          let done : (add64 (length old) (length p) == q.size) ≡ true = ground arith in
          rw (
            set_part-kept (folder_of theirs) (written theirs) part none none (some (old ++ p)),
            done,
            all,
            u.checked,
            text_eq_refl q.sha256,
            u.playable,
            rename_part-kept (folder_of theirs) (written theirs) (some content) none none,
          )

    pub sent_lem :
        (pieces : List Text) (p : Text) (part : Option Text)
        → IsBase64 ssl
        → All IsPiece (p ∷ pieces)
        → content_of part ++ join (p ∷ pieces) ≡ content
        → q.size ≤ maximum_image_size
        → send_pieces
            (calm w)
            q
            (p ∷ pieces)
            (length (content_of part))
            (held theirs part none none)
          ≡ held theirs none (some content) (some (mark_of ssl theirs))
    unfolding send_pieces
    sent_lem [] p part laws good all small =
        let e : content_of part ++ p ≡ content =
          ap (λ t. content_of part ++ t) (sym (append-nil p)) ∙ all in
        let full : length (content_of part) + length p ≡ q.size =
          sym (length-append (content_of part) p) ∙ ap length e ∙ u.sized in
        chunk_lem part p laws good.0
        ∙ ap (λ r. r.0)
            (append_lem part p laws good.0 (held theirs part none none) (omega (arith, full)) small)
        ∙ last_lem part p laws good.0 e full small
    sent_lem (p' ∷ pieces) p part laws good all small =
        let old = content_of part in
        let more : length old + length p < q.size = omega (
          arith,
          length-append old (p ++ (p' ++ join pieces)),
          length-append p (p' ++ join pieces),
          length-append p' (join pieces),
          ap length all,
          u.sized,
          good.1.0.nonempty,
        ) in
        let sent : send_piece (calm w) q (length old) p (held theirs part none none)
            ≡ held theirs (some (old ++ p)) none none =
          chunk_lem part p laws good.0
          ∙ ap (λ r. r.0)
              (append_lem part p laws good.0 (held theirs part none none) (omega (arith, more))
                small)
          ∙ more_lem part p laws good.0 more small in
        ap (send_pieces (calm w) q (p' ∷ pieces) (length old + length p)) sent
        ∙ ap (λ n. send_pieces (calm w) q (p' ∷ pieces) n (held theirs (some (old ++ p)) none none))
            (sym (length-append old p))
        ∙ sent_lem pieces p' (some (old ++ p)) laws good.1
            (append_assoc old p (join (p' ∷ pieces)) ∙ all) small
