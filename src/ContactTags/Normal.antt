-- ===== src/ContactTags/Normal.antt =====
-- What NormalizeContactTags accepts is normal: trimmed, short, printable and distinct tags, on which it
-- has no further effect.
use cpp_chat.Base.{
  ltb, Bool-cases, length, any_by, All, Text, text_eq, ◌≤◌, ◌≡◌, refl, inl, inr, Bool, false, ◌&&◌,
  ◌||◌, some, List, [], ◌∷◌, ◌++◌, arith,
}
use cpp_chat.ContactTags.{
  max_tags, max_tag_bytes, is_blank, is_control, is_nil, skip_blanks, cut_blanks, trim,
}

cut_blanks-again : (xs : Text) → cut_blanks (cut_blanks xs) ≡ cut_blanks xs
unfolding cut_blanks
cut_blanks-again [] = refl
cut_blanks-again (c ∷ cs) = elim (Bool-cases (is_blank c && is_nil (cut_blanks cs))) [
  | inl e ↦ rw e refl
  | inr e ↦ rw (e, cut_blanks-again cs, e) refl
]

skip_blanks-cut :
    (xs : Text) → skip_blanks (cut_blanks (skip_blanks xs)) ≡ cut_blanks (skip_blanks xs)
unfolding skip_blanks cut_blanks
skip_blanks-cut [] = refl
skip_blanks-cut (c ∷ cs) = elim (Bool-cases (is_blank c)) [
  | inl e ↦ rw e (skip_blanks-cut cs)
  | inr e ↦ rw (e, e, e) refl
]

is_nil-cut :
    (xs : Text) → is_nil (skip_blanks xs) ≡ false → is_nil (cut_blanks (skip_blanks xs)) ≡ false
unfolding skip_blanks cut_blanks
is_nil-cut [] h = h
is_nil-cut (c ∷ cs) h = elim (Bool-cases (is_blank c)) [
  | inl e ↦ rw e (is_nil-cut cs (rw e at h))
  | inr e ↦ rw (e, e) refl
]

-- A tag that trimming accepts and leaves as it is.
pub trim-again : (text t : Text) → trim text ≡ some t → trim t ≡ some t
unfolding trim
trim-again text t h =
    let nonempty : is_nil (skip_blanks text) ≡ false = ground arith in
    let same : t ≡ cut_blanks (skip_blanks text) = ground arith in
    let good : (ltb max_tag_bytes (length t) || any_by is_control t) ≡ false = ground arith in
    rw (same, skip_blanks-cut text, cut_blanks-again (skip_blanks text), is_nil-cut text nonempty)
      (ground arith)

abbrev pub names : Text → List Text → Bool
names text tags = any_by (λ t. text_eq t text) tags

-- The tags, each new beside those before it (`seen`).
abbrev pub Fresh : List Text → List Text → Type 0
Fresh seen [] = Unit
Fresh seen (t ∷ ts) = (names t seen ≡ false) × Fresh (seen ++ t ∷ []) ts

-- Trimmed tags, at most 12, with no repetition.
pub record IsNormal (tags : List Text) : Type 0 where
  pub trimmed : All (λ t. trim t ≡ some t) tags
  pub fresh : Fresh [] tags
  pub few : length tags ≤ max_tags
