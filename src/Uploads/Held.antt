-- ===== src/Uploads/Held.antt =====
-- What is stored under one file id lies in one directory: the entry of an upload in its normal form,
-- and the file operations of ResourceServer/ResourceStore.cpp on it.
use mathlib.Core.Path.{fun_ext}
use cpp_chat.Base.{Text, ◌≡◌, refl, Option, none, some, arith}
use cpp_chat.Uploads.{
  meta_folder, parse_meta, read_meta, folder_of, put, part_file, done_file, set_part, rename_part,
  Meta, MetaFile, written, Folder, files, audio, groups, root, Entry,
}
use cpp_chat.Uploads.Checks.{blank}

abbrev pub only {ℓ} : {A : Type ℓ} → Folder → Option A → Folder → Option A
only f a = put f a (λ g. none)

-- The files of one id, all of them in the directory `f`.
abbrev pub kept : Folder → Option MetaFile → Option Text → Option Text → Option Text → Entry
kept f meta part whole mark = record {
  metas = only f meta;
  parts = only f part;
  dones = only f whole;
  ready = mark;
}

-- An upload with its metadata, its part, its finished file and its mark in Redis.
abbrev pub held : Meta → Option Text → Option Text → Option Text → Entry
held m part whole mark = kept (folder_of m) (some (written m)) part whole mark

put-put {ℓ} : {A : Type ℓ} (f : Folder) (a b : A) (t : Folder → A) → put f a (put f b t) ≡ put f a t
put-put f a b t = fun_ext λ g. ground arith

pub meta_folder-kept :
    (f : Folder) (meta : MetaFile) (part whole mark : Option Text)
    → meta_folder (kept f (some meta) part whole mark) ≡ f
unfolding meta_folder
meta_folder-kept files meta part whole mark = refl
meta_folder-kept audio meta part whole mark = refl
meta_folder-kept groups meta part whole mark = refl
meta_folder-kept root meta part whole mark = refl

only_self {ℓ} : {A : Type ℓ} (f : Folder) (a : Option A) → only f a f ≡ a
only_self files a = refl
only_self audio a = refl
only_self groups a = refl
only_self root a = refl

module _ (f : Folder) (meta : MetaFile) (part whole mark : Option Text) where
  pub read_meta-kept : read_meta (kept f (some meta) part whole mark) ≡ parse_meta (some meta)
  unfolding read_meta
  read_meta-kept = rw (meta_folder-kept f meta part whole mark, only_self f (some meta))

  pub part_file-kept : part_file (kept f (some meta) part whole mark) ≡ part
  unfolding part_file
  part_file-kept = rw (meta_folder-kept f meta part whole mark) (only_self f part)

  pub done_file-kept : done_file (kept f (some meta) part whole mark) ≡ whole
  unfolding done_file
  done_file-kept = rw (meta_folder-kept f meta part whole mark) (only_self f whole)

  pub set_part-kept :
      (content : Option Text)
      → set_part content (kept f (some meta) part whole mark)
        ≡ kept f (some meta) content whole mark
  unfolding set_part
  set_part-kept content =
      rw (meta_folder-kept f meta part whole mark, put-put f content part (λ g. none))

  pub rename_part-kept :
      rename_part (kept f (some meta) part whole mark) ≡ kept f (some meta) none part mark
  unfolding rename_part
  rename_part-kept = rw (
    part_file-kept,
    meta_folder-kept f meta part whole mark,
    put-put f part whole (λ g. none),
    put-put f none part (λ g. none),
  )

only-none {ℓ} : {A : Type ℓ} (f : Folder) → only {A = A} f none ≡ λ g. none
only-none f = fun_ext λ g. ground arith

pub write_meta-blank :
    (f : Folder) (meta : MetaFile)
    → record blank { metas = only f (some meta) } ≡ kept f (some meta) none none none
write_meta-blank f meta = rw (only-none {A = Text} f)
