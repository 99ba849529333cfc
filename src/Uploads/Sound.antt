-- ===== src/Uploads/Sound.antt =====
-- What ResourceServer/ResourceStore.cpp stores under a file id is sound after any requests: whatever
-- fails, a finished file is the whole upload and a mark in Redis stands for a finished file.
use cpp_chat.Base.{
  if◌then◌else◌, Bool-cases, length, Text, text_eq, text_eq_iff, ℕ, ◌≤◌, ◌<◌, ◌≡◌, refl, ◌⊎◌, inl,
  inr, Bool, true, false, Option, none, some, [], ◌∷◌, arith,
}
use cpp_chat.Redis.{Fate, answered, not_run, reply_lost}
use cpp_chat.Uploads.{
  maximum_image_size, ready_value, set_ready, mark_ready, Meta, garbled, Folder, Entry, Outside,
  Request,
}
use cpp_chat.Uploads.Checks.{plays, finish_init, finish_chunk, mark_meta, content_of, blank}
use cpp_chat.Uploads.Handlers.{sha256_of, Openssl}
use cpp_chat.Uploads.Held.{kept, held}

-- Metadata that UploadInit accepts.
pub record IsAccepted (m : Meta) : Type 0 where
  pub not_empty : 0 < m.size
  pub bounded : m.size ≤ maximum_image_size
  pub hashed : length m.sha256 ≡ 64

module _ (ssl : Openssl) where
  open ssl use {digest}

  -- The content is the upload that the metadata announce.
  pub record IsWhole (m : Meta) (content : Text) : Type 0 where
    pub sized : length content ≡ m.size
    pub checked : digest content ≡ m.sha256
    pub playable : plays m.media_type content ≡ true

  abbrev pub mark_of : Meta → Text
  mark_of m = ready_value m.uid m.recipient m.size m.thread_id m.media_type

  -- Either a part that is no longer than the upload and no mark, or a finished file that is whole, no
  -- part, and perhaps its mark.
  abbrev pub Agrees : Meta → Option Text → Option Text → Option Text → Type 0
  Agrees m part none mark = (length (content_of part) ≤ m.size) × (mark ≡ none)
  Agrees m part (some content) mark =
      IsWhole m content × (part ≡ none) × ((mark ≡ none) ⊎ (mark ≡ some (mark_of m)))

  -- Nothing, metadata that were cut off and nothing else, or an upload.
  pub data IsSound (e : Entry) : Type 0 where
    nothing : e ≡ blank → IsSound e
    broken : (f : Folder) → e ≡ kept f (some garbled) none none none → IsSound e
    stored :
        (m : Meta) (part done mark : Option Text)
        → e ≡ held m part done mark
        → IsAccepted m
        → Agrees m part done mark
        → IsSound e

  pub held-IsSound :
      (m : Meta) (part done mark : Option Text)
      → IsAccepted m
      → Agrees m part done mark
      → IsSound (held m part done mark)
  held-IsSound m part done mark a g = stored m part done mark refl a g

  chosen_digest :
      (b : Bool) (content sha : Text)
      → length sha ≡ 64
      → text_eq (if b then digest content else []) sha ≡ true
      → digest content ≡ sha
  unfolding text_eq
  chosen_digest true content sha l h = (text_eq_iff (digest content) sha).0 h
  chosen_digest false content [] l h = absurd (omega (arith, l))
  chosen_digest false content (c ∷ sha) l h = absurd (cc h)

  pub digest_checked :
      (w : Outside) (content sha : Text)
      → length sha ≡ 64
      → text_eq (sha256_of ssl w content) sha ≡ true
      → digest content ≡ sha
  unfolding sha256_of
  digest_checked w content sha l h = chosen_digest w.hashes content sha l h

  -- MarkReady of a finished upload.
  pub mark-IsSound :
      (w : Outside) (m : Meta) (content : Text) (mark : Option Text)
      → IsAccepted m
      → Agrees m none (some content) mark
      → IsSound (mark_meta w m.uid m (held m none (some content) mark)).0
  unfolding mark_ready
  mark-IsSound w m content mark a g = elim (Bool-cases w.connected) [
    | inl on ↦ rw on (set_ready-IsSound w.marks)
    | inr off ↦ rw off (held-IsSound m none (some content) mark a g)
  ]
    where
      set_ready-IsSound :
          (f : Fate) → IsSound (set_ready (mark_of m) f (held m none (some content) mark)).0
      set_ready-IsSound answered =
          held-IsSound m none (some content) (some (mark_of m)) a (g.0, refl, inr refl)
      set_ready-IsSound not_run = held-IsSound m none (some content) mark a g
      set_ready-IsSound reply_lost =
          held-IsSound m none (some content) (some (mark_of m)) a (g.0, refl, inr refl)

  pub finish_init-IsSound :
      (q : Request) (r : Entry × Bool) → IsSound r.0 → IsSound (finish_init q r).0
  finish_init-IsSound q (e, true) h = h
  finish_init-IsSound q (e, false) h = h

  pub finish_chunk-IsSound : (n : ℕ) (r : Entry × Bool) → IsSound r.0 → IsSound (finish_chunk n r).0
  finish_chunk-IsSound n (e, true) h = h
  finish_chunk-IsSound n (e, false) h = h
