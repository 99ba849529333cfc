-- ===== src/Uploads/Chunks.antt =====
-- UploadChunk of ResourceServer/ResourceStore.cpp keeps what is stored sound, and so do all requests.
use cpp_chat.Base.{
  ltb, ◌==◌, if◌then◌else◌, Bool-cases, length, take, is_some, length-append, length-take, Text,
  text_eq, is_positive, int_eq, int_eq_iff, ℤ, add64, ℕ, ◌+◌, ◌≤◌, ◌≡◌, refl, sym, subst, inl, inr,
  Bool, true, false, not, ◌&&◌, ◌||◌, Option, none, some, List, [], ◌∷◌, ◌++◌, arith,
}
use cpp_chat.Uploads.{
  chunk_size, upload_init_request, upload_chunk_request, download_request, authenticated,
  group_member, valid_file_id, meta_folder, read_meta, folder_of, Meta, written, garbled, Entry,
  Outside, Request,
}
use cpp_chat.Uploads.Checks.{plays, finish_chunk, mark_meta, content_of, Disk, blank}
use cpp_chat.Uploads.Handlers.{
  sha256_of, decode_base64, complete_upload, append_part, open_part, chunk_into, chunk_with,
  upload_chunk, download, dispatch, handle, handle_on, Openssl,
}
use cpp_chat.Uploads.Held.{
  held, read_meta-kept, part_file-kept, done_file-kept, set_part-kept, rename_part-kept,
}
use cpp_chat.Uploads.Sound.{
  Agrees, held-IsSound, digest_checked, mark-IsSound, finish_chunk-IsSound, IsAccepted, IsSound,
  nothing, broken, stored,
}
use cpp_chat.Uploads.Init.{upload_init-IsSound}

module _ (ssl : Openssl) where
  -- UploadChunk with room for the piece.
  module _ (w : Outside) (m : Meta) (accepted : IsAccepted m) where
    complete-IsSound :
        (content : Text) (mark : Option Text)
        → length content ≡ m.size
        → mark ≡ none
        → IsSound ssl (complete_upload ssl w m.uid m (held m (some content) none mark) content).0
    unfolding complete_upload
    complete-IsSound content mark l unmarked =
        elim (Bool-cases (text_eq (sha256_of ssl w content) m.sha256)) [
          | inr bad ↦
              rw (bad, set_part-kept (folder_of m) (written m) (some content) none mark none)
                (held-IsSound ssl m none none mark accepted (omega arith, unmarked))
          | inl right ↦ elim (Bool-cases (plays m.media_type content)) [
            | inr bad ↦
                rw
                  (
                    right,
                    bad,
                    set_part-kept (folder_of m) (written m) (some content) none mark none,
                  )
                  (held-IsSound ssl m none none mark accepted (omega arith, unmarked))
            | inl good ↦
                rw
                  (right, good, rename_part-kept (folder_of m) (written m) (some content) none mark)
                  (finish_chunk-IsSound ssl m.size
                    (mark_meta w m.uid m (held m none (some content) mark))
                    (mark-IsSound ssl w m content mark accepted (
                      record {
                        sized = l;
                        checked = digest_checked ssl w content m.sha256 accepted.hashed right;
                        playable = good;
                      },
                      refl,
                      inl unmarked,
                    )))
          ]
        ]

    append-IsSound :
        (part mark : Option Text) (piece : Text) (writes : Option ℕ)
        → mark ≡ none
        → length (content_of part) + length piece ≤ m.size
        → IsSound ssl
            (append_part ssl w m.uid m (content_of part) piece writes (held m part none mark)).0
    unfolding append_part
    append-IsSound part mark piece (some k) unmarked room =
        let old = content_of part in
        rw (set_part-kept (folder_of m) (written m) part none mark (some (old ++ take k piece))) (
          held-IsSound ssl m (some (old ++ take k piece)) none mark accepted
            (omega (arith, length-append old (take k piece), length-take k piece), unmarked))
    append-IsSound part mark piece none unmarked room =
        let old = content_of part in
        let content = old ++ piece in
        rw (set_part-kept (folder_of m) (written m) part none mark (some content))
          (elim (Bool-cases (add64 (length old) (length piece) == m.size)) [
            | inl full ↦
                rw full (complete-IsSound content mark (full_length old piece full room) unmarked)
            | inr short ↦ rw short (
                held-IsSound ssl m (some content) none mark accepted
                  (omega (arith, length-append old piece), unmarked))
          ])
      where
        full_length :
            (old piece : Text)
            → (add64 (length old) (length piece) == m.size) ≡ true
            → length old + length piece ≤ m.size
            → length (old ++ piece) ≡ m.size
        full_length old piece full room = ground (arith, length-append old piece, accepted.bounded)

  module _ (w : Outside) (q : Request) where
    open-IsSound :
        (m : Meta) (part mark : Option Text) (piece : Text)
        → IsAccepted m
        → Agrees ssl m part none mark
        → length (content_of part) + length piece ≤ m.size
        → (b : Bool)
        → IsSound ssl (open_part ssl w m.uid m (content_of part) piece (held m part none mark) b).0
    open-IsSound m part mark piece a g room false = held-IsSound ssl m part none mark a g
    open-IsSound m part mark piece a g room true =
        append-IsSound w m a part mark piece w.writes g.1 room

    chunk_into-IsSound :
        (m : Meta) (part mark : Option Text)
        → IsAccepted m
        → Agrees ssl m part none mark
        → IsSound ssl
            (chunk_into ssl w m.uid q m
              (content_of part)
              (decode_base64 ssl q.payload)
              (held m part none mark)).0
    unfolding chunk_into
    chunk_into-IsSound m part mark a g =
        let old = content_of part in
        let piece = decode_base64 ssl q.payload in
        let still = held-IsSound ssl m part none mark a g in
        elim (Bool-cases (q.offset == length old)) [
          | inr wrong ↦ rw wrong still
          | inl right ↦
              elim (Bool-cases (
                length piece == 0
                || (ltb chunk_size (length piece)
                    || ltb m.size (add64 (length old) (length piece))))) [
                      | inl bad ↦ rw (right, bad) still
                      | inr fits ↦
                          rw (right, fits)
                            (open-IsSound m part mark piece a g (room m old piece a fits g.0)
                              w.opens)
                    ]
        ]
      where
        room :
            (m : Meta) (old piece : Text)
            → IsAccepted m
            → (length piece == 0
                || (ltb chunk_size (length piece)
                    || ltb m.size (add64 (length old) (length piece))))
              ≡ false
            → length old ≤ m.size
            → length old + length piece ≤ m.size
        room m old piece a fits h = ground (arith, a.bounded)

    chunk_held-IsSound :
        (uid : ℤ) (m : Meta) (part content mark : Option Text)
        → IsAccepted m
        → Agrees ssl m part content mark
        → IsSound ssl (chunk_with ssl w uid q (held m part content mark) (some (some m))).0
    unfolding chunk_with
    chunk_held-IsSound uid m part content mark a g = elim (Bool-cases (int_eq m.uid uid)) [
      | inr foreign ↦ rw foreign (held-IsSound ssl m part content mark a g)
      | inl own ↦
          elim (Bool-cases
            (is_positive m.thread_id && not (group_member w uid q.token m.thread_id))) [
              | inl denied ↦ rw (own, denied) (held-IsSound ssl m part content mark a g)
              | inr allowed ↦
                  rw
                    (
                      own,
                      allowed,
                      done_file-kept (folder_of m) (written m) part content mark,
                      part_file-kept (folder_of m) (written m) part content mark,
                    )
                    (subst
                      (λ u.
                        IsSound ssl
                          (if is_some content
                            then finish_chunk m.size (mark_meta w u m (held m part content mark))
                            else chunk_into ssl w u q m (content_of part)
                                (decode_base64 ssl q.payload) (held m part content mark)).0)
                      ((int_eq_iff m.uid uid).0 own) (of_content content g))
            ]
    ]
      where
        of_content :
            (content : Option Text)
            → Agrees ssl m part content mark
            → IsSound ssl
                (if is_some content
                  then finish_chunk m.size (mark_meta w m.uid m (held m part content mark))
                  else chunk_into ssl w m.uid q m
                      (content_of part)
                      (decode_base64 ssl q.payload)
                      (held m part content mark)).0
        of_content none g = chunk_into-IsSound m part mark a g
        of_content (some content) g =
            subst
              (λ p.
                IsSound ssl
                  (finish_chunk m.size (mark_meta w m.uid m (held m p (some content) mark))).0)
              (sym g.1)
              (finish_chunk-IsSound ssl m.size
                (mark_meta w m.uid m (held m none (some content) mark))
                (mark-IsSound ssl w m content mark a (g.0, refl, g.2)))

    upload_chunk-IsSound :
        (uid : ℤ) (e : Entry) → IsSound ssl e → IsSound ssl (upload_chunk ssl w uid q e).0
    unfolding upload_chunk chunk_with read_meta meta_folder
    upload_chunk-IsSound uid e (nothing b) =
        subst (λ x. IsSound ssl (upload_chunk ssl w uid q x).0) (sym b) (nothing refl)
    upload_chunk-IsSound uid e (broken f b) =
        subst (λ x. IsSound ssl (upload_chunk ssl w uid q x).0) (sym b)
          (rw (read_meta-kept f garbled none none none) (broken f refl))
    upload_chunk-IsSound uid e (stored m part content mark b a g) =
        subst (λ x. IsSound ssl (upload_chunk ssl w uid q x).0) (sym b)
          (rw (read_meta-kept (folder_of m) (written m) part content mark)
            (chunk_held-IsSound uid m part content mark a g))

    dispatch-IsSound : (id : ℕ) (e : Entry) → IsSound ssl e → IsSound ssl (dispatch ssl w id q e).0
    unfolding dispatch download
    dispatch-IsSound id e h = elim (Bool-cases (id == upload_init_request)) [
      | inl is_init ↦ rw is_init (upload_init-IsSound ssl w q.uid q e h)
      | inr not_init ↦ elim (Bool-cases (id == upload_chunk_request)) [
        | inl is_chunk ↦ rw (not_init, is_chunk) (upload_chunk-IsSound q.uid e h)
        | inr not_chunk ↦ elim (Bool-cases (id == download_request)) [
          | inl is_download ↦ rw (not_init, not_chunk, is_download) h
          | inr unknown ↦ rw (not_init, not_chunk, unknown) h
        ]
      ]
    ]

    pub handle-IsSound : (id : ℕ) (e : Entry) → IsSound ssl e → IsSound ssl (handle ssl w id q e).0
    unfolding handle
    handle-IsSound id e h = elim (Bool-cases (authenticated w q.uid q.token)) [
      | inr wrong ↦ rw wrong h
      | inl right ↦ elim (Bool-cases (valid_file_id q.file_id)) [
        | inr bad ↦ rw (right, bad) h
        | inl good ↦ rw (right, good) (dispatch-IsSound id e h)
      ]
    ]

  -- Requests one after the other, each in its surroundings.
  abbrev pub run : List (Outside × ℕ × Request) → Disk → Disk
  run [] disk = disk
  run ((w, id, q) ∷ rest) disk = run rest (handle_on ssl w id q disk)

  run-AllSound :
      (requests : List (Outside × ℕ × Request)) (disk : Disk)
      → ((file : Text) → IsSound ssl (disk file))
      → (file : Text) → IsSound ssl (run requests disk file)
  run-AllSound [] disk h file = h file
  run-AllSound ((w, id, q) ∷ rest) disk h file =
      run-AllSound rest (handle_on ssl w id q disk)
        (λ key. elim (Bool-cases (text_eq q.file_id key)) [
          | inl e ↦ rw e (handle-IsSound w q id (disk q.file_id) (h q.file_id))
          | inr e ↦ rw e (h key)
        ])
        file

  -- After any requests to an empty store, in any order and whatever fails around them, what is stored
  -- under a file id is sound: a part is no longer than its upload, a finished file has the announced
  -- size and digest and, if it is a voice message, is a canonical wave, and the mark in Redis, which
  -- names the upload's owner, receiver and size, is there only with a finished file.
  pub run-IsSound :
      (requests : List (Outside × ℕ × Request)) (file : Text)
      → IsSound ssl (run requests (λ id. blank) file)
  run-IsSound requests file = run-AllSound requests (λ id. blank) (λ id. nothing refl) file
