-- ===== src/Uploads/Fetch.antt =====
-- What a client fetches chunk by chunk from ResourceServer/ResourceStore.cpp is the finished file.
use cpp_chat.Base.{
  ltb, ◌==◌, Bool-cases, length, take, drop, All, All-append, take-append-drop, length-take,
  length-drop, Text, add64, ℕ, zero, suc, ◌+◌, ◌-◌, ◌≤◌, ◌<◌, min, ◌≡◌, refl, sym, ap, ◌∙◌, inl,
  inr, true, false, Option, none, some, List, [], ◌∷◌, ◌++◌, append-nil, arith,
}
use cpp_chat.Uploads.{
  chunk_size, maximum_image_size, upload_init_request, download_request, authenticated,
  valid_file_id, folder_of, Meta, written, Outside, Request, served,
}
use cpp_chat.Uploads.Checks.{new_meta, may_read, blank}
use cpp_chat.Uploads.Handlers.{
  decode_base64, encode_base64, serve, download_with, download, dispatch, handle, Openssl,
}
use cpp_chat.Uploads.Held.{held, read_meta-kept, done_file-kept}
use cpp_chat.Uploads.Sound.{mark_of}
use cpp_chat.Uploads.Init.{accepts}
use cpp_chat.Uploads.Base64.{IsByte, decode_base64-encode_base64, IsBase64}
use cpp_chat.Uploads.Transfer.{
  calm, piece_request, join, send_pieces, after_reply, fetch, init_lem, sent_lem, IsPiece, IsUpload,
}

drop_nil : (n : ℕ) → drop {A = ℕ} n [] ≡ []
drop_nil zero = refl
drop_nil (suc n) = refl

drop-drop : (m n : ℕ) (xs : Text) → drop n (drop m xs) ≡ drop (m + n) xs
drop-drop zero n xs = ap (λ k. drop k xs) (omega arith)
drop-drop (suc m) n [] = drop_nil n ∙ sym (drop_nil (suc m + n))
drop-drop (suc m) n (x ∷ xs) =
    let shift : suc (m + n) ≡ suc m + n = omega arith in
    drop-drop m n xs ∙ ap (λ k. drop k (x ∷ xs)) shift

drop_all : (n : ℕ) (xs : Text) → length xs ≤ n → drop n xs ≡ []
drop_all zero [] h = refl
drop_all zero (x ∷ xs) h = absurd (omega arith)
drop_all (suc n) [] h = refl
drop_all (suc n) (x ∷ xs) h = drop_all n xs (omega arith)

All-take : (P : ℕ → Type 0) (n : ℕ) (xs : Text) → All P xs → All P (take n xs)
All-take P zero xs h = tt
All-take P (suc n) [] h = tt
All-take P (suc n) (x ∷ xs) h = (h.0, All-take P n xs h.1)

All-drop : (P : ℕ → Type 0) (n : ℕ) (xs : Text) → All P xs → All P (drop n xs)
All-drop P zero xs h = h
All-drop P (suc n) [] h = tt
All-drop P (suc n) (x ∷ xs) h = All-drop P n xs h.1

All-join : (pieces : List Text) → All IsPiece pieces → All IsByte (join pieces)
All-join [] h = tt
All-join (p ∷ ps) h = All-append IsByte p (join ps) h.0.bytewise (All-join ps h.1)

module _ (ssl : Openssl) where
  -- A reader of the upload, whom the server lets read.
  pub record IsReader (w : Outside) (q : Request) (m : Meta) : Type 0 where
    pub admitted : authenticated (calm w) q.uid q.token ≡ true
    pub identified : valid_file_id q.file_id ≡ true
    pub allowed : may_read (calm w) q.uid q.token m ≡ true

  module _ (w : Outside) (q : Request) (m : Meta) (content : Text) (mark : Option Text)
      (reader : IsReader w q m) (small : m.size ≤ maximum_image_size)
      (sized : length content ≡ m.size) (bytewise : All IsByte content) (laws : IsBase64 ssl) where
    abbrev slice : ℕ → Text
    slice offset = take (min chunk_size (m.size - offset)) (drop offset content)

    length-slice :
        (offset : ℕ) → offset ≤ m.size → length (slice offset) ≡ min chunk_size (m.size - offset)
    length-slice offset h = omega (
      arith,
      length-take (min chunk_size (m.size - offset)) (drop offset content),
      length-drop offset content,
    )

    reply_lem :
        (offset : ℕ)
        → offset < m.size
        → (handle ssl
            (calm w)
            download_request
            (piece_request q offset [])
            (held m none (some content) mark)).1
          ≡ some (
              served
                (offset + length (slice offset))
                m.size
                m.sha256
                (encode_base64 ssl (slice offset))
                (offset + length (slice offset) == m.size))
    unfolding handle dispatch download download_with serve
    reply_lem offset h =
        let range : ltb m.size offset ≡ false = ground arith in
        let no_wrap : add64 offset (length (slice offset)) ≡ offset + length (slice offset) =
          omega (arith, length-slice offset (omega arith)) in
        rw (
          reader.admitted,
          reader.identified,
          done_file-kept (folder_of m) (written m) none (some content) mark,
          read_meta-kept (folder_of m) (written m) none (some content) mark,
          reader.allowed,
          range,
          no_wrap,
        )

    decoded_slice :
        (offset : ℕ)
        → offset < m.size
        → decode_base64 ssl (encode_base64 ssl (slice offset)) ≡ slice offset
    decoded_slice offset h =
        decode_base64-encode_base64 ssl (slice offset) laws
          (All-take IsByte (min chunk_size (m.size - offset)) (drop offset content)
            (All-drop IsByte offset content bytewise))
          (omega (arith, length-slice offset (omega arith)))
          (omega (arith, length-slice offset (omega arith)))

    rest_slice :
        (offset : ℕ)
        → offset < m.size
        → slice offset ++ drop (offset + length (slice offset)) content ≡ drop offset content
    rest_slice offset h =
        let n = min chunk_size (m.size - offset) in
        ap (λ k. slice offset ++ drop (offset + k) content) (length-slice offset (omega arith))
        ∙ ap (λ t. slice offset ++ t) (sym (drop-drop offset n content))
        ∙ take-append-drop n (drop offset content)

    last_slice :
        (offset : ℕ)
        → offset < m.size
        → (offset + length (slice offset) == m.size) ≡ true
        → slice offset ≡ drop offset content
    last_slice offset h e =
        let full : length content ≤ offset + length (slice offset) = ground (arith, sized) in
        sym (append-nil (slice offset))
        ∙ ap (λ t. slice offset ++ t) (sym (drop_all (offset + length (slice offset)) content full))
        ∙ rest_slice offset h

    pub fetch_lem :
        (fuel offset : ℕ)
        → offset < m.size
        → m.size ≤ offset + fuel
        → fetch ssl fuel (calm w) q (held m none (some content) mark) offset
          ≡ some (drop offset content)
    unfolding fetch
    fetch_lem zero offset h enough = absurd (omega arith)
    fetch_lem (suc fuel) offset h enough =
        let next = offset + length (slice offset) in
        let again = fetch ssl fuel (calm w) q (held m none (some content) mark) in
        ap (λ r. after_reply ssl r again) (reply_lem offset h)
        ∙ rw (decoded_slice offset h) (elim (Bool-cases (next == m.size)) [
          | inl last ↦ rw last (ap some (last_slice offset h last))
          | inr more ↦
              rw
                (
                  more,
                  fetch_lem fuel next (further offset h more)
                      (omega (arith, length-slice offset (omega arith))),
                )
                (ap some (rest_slice offset h))
        ])
      where
        further :
            (offset : ℕ)
            → offset < m.size
            → (offset + length (slice offset) == m.size) ≡ false
            → offset + length (slice offset) < m.size
        further offset h more = ground (arith, length-slice offset (omega arith))

  -- A file that its owner sends in pieces, each of at most a chunk, to a server where nothing is stored
  -- under its id, is what every user fetches who may read it, with one request for each byte at most.
  -- Nothing fails in the surroundings of the requests, and the file has the size, the digest and, if it
  -- is a voice message, the form that the first request announced.
  pub fetch-send_pieces :
      (w v : Outside) (q r : Request) (piece : Text) (pieces : List Text)
      → IsBase64 ssl
      → All IsPiece (piece ∷ pieces)
      → IsUpload ssl w q (join (piece ∷ pieces))
      → IsReader v r (new_meta q.uid q)
      → fetch ssl q.size
          (calm v)
          r
          (send_pieces ssl
            (calm w)
            q
            (piece ∷ pieces)
            0
            (handle ssl (calm w) upload_init_request q blank).0)
          0
        ≡ some (join (piece ∷ pieces))
  fetch-send_pieces w v q r piece pieces laws good u reader =
      let content = join (piece ∷ pieces) in
      let a = accepts q.uid q u.described in
      ap (λ e. fetch ssl q.size (calm v) r (send_pieces ssl (calm w) q (piece ∷ pieces) 0 e) 0)
        (init_lem ssl w q content u)
      ∙ ap (λ e. fetch ssl q.size (calm v) r e 0)
          (sent_lem ssl w q content u pieces piece none laws good refl a.bounded)
      ∙ fetch_lem v r (new_meta q.uid q) content (some (mark_of ssl (new_meta q.uid q))) reader
          a.bounded u.sized (All-join (piece ∷ pieces) good) laws q.size 0 a.not_empty (omega arith)
