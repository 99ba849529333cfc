-- ===== src/Uploads/Owner.antt =====
-- Who may change and who may read an upload of ResourceServer/ResourceStore.cpp.
use cpp_chat.Base.{
  ◌==◌, Bool-cases, length, take, drop, Text, is_positive, int_eq, int_eq_iff, ℤ, ℕ, ◌+◌, ◌-◌, ◌≤◌,
  min, ◌≡◌, sym, ◌≢◌, inl, inr, true, false, not, ◌&&◌, Option, some, arith,
}
use cpp_chat.Uploads.{
  chunk_size, authenticated, group_member, read_meta, folder_of, done_file, Meta, written, Entry,
  Outside, Request, Reply, served,
}
use cpp_chat.Uploads.Checks.{bad_metadata, is_same_upload, may_read}
use cpp_chat.Uploads.Handlers.{
  encode_base64, init_with, upload_init, chunk_with, upload_chunk, download, dispatch, handle,
  Openssl,
}
use cpp_chat.Uploads.Held.{held, read_meta-kept}
use cpp_chat.Uploads.Sound.{IsWhole}

module _ (ssl : Openssl) where
  open ssl use {digest}

  foreign_upload :
      (uid : ℤ) (q : Request) (m : Meta) → int_eq m.uid uid ≡ false → is_same_upload uid q m ≡ false
  unfolding is_same_upload
  foreign_upload uid q m h = ground arith

  module _ (w : Outside) (q : Request) (m : Meta) (part content mark : Option Text) where
    init_foreign :
        int_eq m.uid q.uid ≡ false
        → (upload_init ssl w q.uid q (held m part content mark)).0 ≡ held m part content mark
    unfolding upload_init init_with
    init_foreign h =
        let e = held m part content mark in
        elim (Bool-cases (bad_metadata q.uid q)) [
          | inl bad ↦ rw bad
          | inr good ↦
              elim (Bool-cases
                (is_positive q.thread_id && not (group_member w q.uid q.token q.thread_id))) [
                  | inl denied ↦ rw (good, denied)
                  | inr allowed ↦ rw (
                    good,
                    allowed,
                    read_meta-kept (folder_of m) (written m) part content mark,
                    foreign_upload q.uid q m h,
                  )
                ]
        ]

    chunk_foreign :
        int_eq m.uid q.uid ≡ false
        → (upload_chunk ssl w q.uid q (held m part content mark)).0 ≡ held m part content mark
    unfolding upload_chunk chunk_with
    chunk_foreign h = rw (read_meta-kept (folder_of m) (written m) part content mark, h)

    -- No request of another user than the one who opened an upload changes anything of it, whatever
    -- the request is, its token and its surroundings.
    pub handle-foreign :
        (id : ℕ)
        → q.uid ≢ m.uid
        → (handle ssl w id q (held m part content mark)).0 ≡ held m part content mark
    unfolding handle dispatch download
    handle-foreign id other_user =
        let h : int_eq m.uid q.uid ≡ false = elim (Bool-cases (int_eq m.uid q.uid)) [
          | inl same ↦ absurd (other_user (sym ((int_eq_iff m.uid q.uid).0 same)))
          | inr e ↦ e
        ] in
        ground (arith, init_foreign h, chunk_foreign h)

  -- What a download that is served has read.
  pub record IsServed (w : Outside) (q : Request) (e : Entry) (reply : Reply) : Type 0 where
    pub meta : Meta
    pub content : Text
    pub described : read_meta e ≡ some (some meta)
    pub finished : done_file e ≡ some content
    pub admitted : authenticated w q.uid q.token ≡ true
    pub allowed : may_read w q.uid q.token meta ≡ true
    pub is_whole : IsWhole ssl meta content
    pub in_range : q.offset ≤ meta.size
    pub answer : reply ≡ (
        let piece = take (min chunk_size (meta.size - q.offset)) (drop q.offset content) in
        served
          (q.offset + length piece)
          meta.size
          (digest content)
          (encode_base64 ssl piece)
          (q.offset + length piece == meta.size))
