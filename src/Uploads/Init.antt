-- ===== src/Uploads/Init.antt =====
-- UploadInit of ResourceServer/ResourceStore.cpp keeps what is stored sound.
use cpp_chat.Base.{
  leb, Bool-cases, length, Text, text_eq_iff, is_positive, int_eq_iff, ℤ, ◌≡◌, refl, sym, subst,
  inl, inr, true, false, not, ◌&&◌, Option, none, some, arith,
}
use cpp_chat.Media.{differs}
use cpp_chat.Uploads.{
  group_member, meta_folder, read_meta, folder_of, write_meta, done_file, Meta, written, garbled,
  Entry, Saving, saved, cut_off, refused, Outside, Request,
}
use cpp_chat.Uploads.Checks.{
  bad_metadata, new_meta, is_same_upload, stored_plays, announce, mark_meta, blank,
}
use cpp_chat.Uploads.Handlers.{
  is_whole, recover_part, resume_upload, after_write, init_with, upload_init, Openssl,
}
use cpp_chat.Uploads.Held.{
  held, read_meta-kept, part_file-kept, done_file-kept, set_part-kept, rename_part-kept,
  write_meta-blank,
}
use cpp_chat.Uploads.Sound.{
  Agrees, held-IsSound, digest_checked, mark-IsSound, finish_init-IsSound, IsAccepted, IsWhole,
  IsSound, nothing, broken, stored,
}

pub accepts : (uid : ℤ) (q : Request) → bad_metadata uid q ≡ false → IsAccepted (new_meta uid q)
unfolding bad_metadata
accepts uid q h = record { not_empty = ground arith; bounded = ground arith; hashed = ground arith }

module _ (ssl : Openssl) where
  open ssl use {digest}

  module _ (w : Outside) (uid : ℤ) (q : Request) (accepted : IsAccepted (new_meta uid q)) where
    abbrev asked : Meta
    asked = new_meta uid q

    announce-IsSound :
        (content : Text) (mark : Option Text)
        → Agrees ssl asked none (some content) mark
        → IsSound ssl (announce w uid q (held asked none (some content) mark, true)).0
    unfolding announce
    announce-IsSound content mark g =
        let e = held asked none (some content) mark in
        elim (Bool-cases (not (stored_plays q.media_type (done_file e)))) [
          | inl bad ↦ rw bad (held-IsSound ssl asked none (some content) mark accepted g)
          | inr good ↦ rw good (
              finish_init-IsSound ssl q (mark_meta w uid asked e)
                (mark-IsSound ssl w asked content mark accepted g))
        ]

    whole_part : (content : Text) → is_whole ssl w q content ≡ true → IsWhole ssl asked content
    whole_part content h = record {
      sized = ground arith;
      checked = digest_checked ssl w content q.sha256 accepted.hashed (ground arith);
      playable = ground arith;
    }

    recovered-IsSound :
        (part content mark : Option Text)
        → Agrees ssl asked part content mark
        → IsSound ssl
            (announce w uid q (recover_part ssl w q (held asked part content mark) content part)).0
    unfolding recover_part announce
    recovered-IsSound part (some content) mark g =
        subst (λ p. IsSound ssl (announce w uid q (held asked p (some content) mark, true)).0)
          (sym g.1) (announce-IsSound content mark (g.0, refl, g.2))
    recovered-IsSound none none mark g = held-IsSound ssl asked none none mark accepted g
    recovered-IsSound (some part) none mark g = elim (Bool-cases (leb q.size (length part))) [
      | inr short ↦ rw short (held-IsSound ssl asked (some part) none mark accepted g)
      | inl full ↦ elim (Bool-cases (is_whole ssl w q part)) [
        | inl good ↦
            rw
              (full, good, rename_part-kept (folder_of asked) (written asked) (some part) none mark)
              (announce-IsSound part mark (whole_part part good, refl, inl g.1))
        | inr bad ↦
            rw
              (
                full,
                bad,
                set_part-kept (folder_of asked) (written asked) (some part) none mark none,
              )
              (held-IsSound ssl asked none none mark accepted (omega arith, g.1))
      ]
    ]

    resume-IsSound :
        (part content mark : Option Text)
        → Agrees ssl asked part content mark
        → IsSound ssl (resume_upload ssl w uid q (held asked part content mark)).0
    resume-IsSound part content mark g =
        rw
          (
            done_file-kept (folder_of asked) (written asked) part content mark,
            part_file-kept (folder_of asked) (written asked) part content mark,
          )
          (recovered-IsSound part content mark g)

    write-IsSound :
        (s : Saving) → IsSound ssl (after_write ssl w uid q (write_meta s asked blank)).0
    write-IsSound saved =
        rw (write_meta-blank (folder_of asked) (written asked))
          (resume-IsSound none none none (omega arith, refl))
    write-IsSound cut_off = broken (folder_of asked) (write_meta-blank (folder_of asked) garbled)
    write-IsSound refused = nothing refl

  same_upload :
      (uid : ℤ) (q : Request) (m : Meta) → is_same_upload uid q m ≡ true → m ≡ new_meta uid q
  unfolding is_same_upload
  same_upload uid q m h =
      let e0 : m.uid ≡ uid = ground (arith, int_eq_iff m.uid uid) in
      let e1 : m.recipient ≡ q.recipient = ground (arith, int_eq_iff m.recipient q.recipient) in
      let e2 : m.thread_id ≡ q.thread_id = ground (arith, int_eq_iff m.thread_id q.thread_id) in
      let e3 : m.media_type ≡ q.media_type = ground (arith, int_eq_iff m.media_type q.media_type) in
      let e4 : m.size ≡ q.size = ground arith in
      let e5 : m.sha256 ≡ q.sha256 = ground (arith, text_eq_iff m.sha256 q.sha256) in
      λ i. record {
        uid = e0 i;
        recipient = e1 i;
        thread_id = e2 i;
        media_type = e3 i;
        size = e4 i;
        sha256 = e5 i;
      }

  module _ (w : Outside) (uid : ℤ) (q : Request) where
    init_stored-IsSound :
        (m : Meta) (part content mark : Option Text)
        → IsAccepted m
        → Agrees ssl m part content mark
        → IsSound ssl (init_with ssl w uid q (held m part content mark) (some (some m))).0
    unfolding init_with
    init_stored-IsSound m part content mark a g = elim (Bool-cases (is_same_upload uid q m)) [
      | inr differs ↦ rw differs (held-IsSound ssl m part content mark a g)
      | inl agrees ↦ rw agrees (
          let same = same_upload uid q m agrees in
          subst
            (λ n.
              IsAccepted n
              → Agrees ssl n part content mark
              → IsSound ssl (resume_upload ssl w uid q (held n part content mark)).0)
            (sym same) (λ b h. resume-IsSound w uid q b part content mark h) a g)
    ]

    init_with-IsSound :
        (e : Entry)
        → bad_metadata uid q ≡ false
        → IsSound ssl e
        → IsSound ssl (init_with ssl w uid q e (read_meta e)).0
    unfolding init_with read_meta meta_folder
    init_with-IsSound e h (nothing b) =
        subst (λ x. IsSound ssl (init_with ssl w uid q x (read_meta x)).0) (sym b)
          (write-IsSound w uid q (accepts uid q h) w.saves)
    init_with-IsSound e h (broken f b) =
        subst (λ x. IsSound ssl (init_with ssl w uid q x (read_meta x)).0) (sym b)
          (rw (read_meta-kept f garbled none none none) (broken f refl))
    init_with-IsSound e h (stored m part content mark b a g) =
        subst (λ x. IsSound ssl (init_with ssl w uid q x (read_meta x)).0) (sym b)
          (rw (read_meta-kept (folder_of m) (written m) part content mark)
            (init_stored-IsSound m part content mark a g))

    pub upload_init-IsSound :
        (e : Entry) → IsSound ssl e → IsSound ssl (upload_init ssl w uid q e).0
    unfolding upload_init
    upload_init-IsSound e s = elim (Bool-cases (bad_metadata uid q)) [
      | inl bad ↦ rw bad s
      | inr good ↦
          elim (Bool-cases
            (is_positive q.thread_id && not (group_member w uid q.token q.thread_id))) [
              | inl denied ↦ rw (good, denied) s
              | inr allowed ↦ rw (good, allowed) (init_with-IsSound e good s)
            ]
    ]
