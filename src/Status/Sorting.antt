-- ===== src/Status/Sorting.antt =====
-- std::sort of the candidates in StatusServer/StatusServiceImpl.cpp gives the same list for each order of
-- nodes whose names differ.
use mathlib.Core.List.{Permᴰ}
use mathlib.Core.Path.{ap₂}
use cpp_chat.Base.{
  ltb, ◌==◌, Bool-cases, All, Text, ◌≡◌, refl, sym, ap, subst, ◌∙◌, ◌≢◌, ◌⊎◌, inl, inr, true, false,
  List, [], ◌∷◌, arith,
}
use cpp_chat.Status.{text_lt, insert, sort, ChatServer}

text_lt-asym : (a b : Text) → text_lt a b ≡ true → text_lt b a ≡ false
unfolding text_lt
text_lt-asym [] [] h = refl
text_lt-asym [] (y ∷ b) h = refl
text_lt-asym (x ∷ a) [] h = absurd (cc h)
text_lt-asym (x ∷ a) (y ∷ b) h = ground (arith, text_lt-asym a b)

text_lt_trans : (a b c : Text) → text_lt a b ≡ true → text_lt b c ≡ true → text_lt a c ≡ true
unfolding text_lt
text_lt_trans [] [] c h k = k
text_lt_trans [] (y ∷ b) [] h k = absurd (cc k)
text_lt_trans [] (y ∷ b) (z ∷ c) h k = refl
text_lt_trans (x ∷ a) [] c h k = absurd (cc h)
text_lt_trans (x ∷ a) (y ∷ b) [] h k = absurd (cc k)
text_lt_trans (x ∷ a) (y ∷ b) (z ∷ c) h k = ground (arith, text_lt_trans a b c)

text_lt-total : (a b : Text) → a ≢ b → (text_lt a b ≡ true) ⊎ (text_lt b a ≡ true)
unfolding text_lt
text_lt-total [] [] h = absurd (h refl)
text_lt-total [] (y ∷ b) h = inl refl
text_lt-total (x ∷ a) [] h = inr refl
text_lt-total (x ∷ a) (y ∷ b) h = elim (Bool-cases (x == y)) [
  | inl same ↦
      let e : x ≡ y = ground arith in
      elim (text_lt-total a b (λ r. h (ap₂ ◌∷◌ e r))) [
        | inl less ↦ inl (ground arith)
        | inr more ↦ inr (ground arith)
      ]
  | inr apart ↦ elim (Bool-cases (ltb x y)) [
    | inl less ↦ inl (ground arith)
    | inr more ↦ inr (ground arith)
  ]
]

ordered_inserts :
    (s t u : ChatServer) (l : List ChatServer)
    → text_lt s.name t.name ≡ true
    → insert s (insert t l) ≡ insert t (insert s l)
    → insert s (insert t (u ∷ l)) ≡ insert t (insert s (u ∷ l))
unfolding insert
ordered_inserts s t u l less ih =
    let more = text_lt-asym s.name t.name less in
    elim (Bool-cases (text_lt t.name u.name)) [
      | inl before ↦ rw (before, text_lt_trans s.name t.name u.name less before, less, more, before)
      | inr after ↦ elim (Bool-cases (text_lt s.name u.name)) [
        | inl first ↦ rw (after, first, more, after)
        | inr last ↦ rw (after, last, after) (ap (λ r. u ∷ r) ih)
      ]
    ]

-- Two nodes of different names are inserted in either order.
insert-insert :
    (s t : ChatServer) (l : List ChatServer)
    → s.name ≢ t.name
    → insert s (insert t l) ≡ insert t (insert s l)
unfolding insert
insert-insert s t [] h = elim (text_lt-total s.name t.name h) [
  | inl less ↦ rw (less, text_lt-asym s.name t.name less)
  | inr more ↦ rw (more, text_lt-asym t.name s.name more)
]
insert-insert s t (u ∷ l) h = elim (text_lt-total s.name t.name h) [
  | inl less ↦ ordered_inserts s t u l less (insert-insert s t l h)
  | inr more ↦ sym (ordered_inserts t s u l more (sym (insert-insert s t l h)))
]

-- The names of the nodes differ, as those of the keys of a map do.
abbrev pub Named : ChatServer → List ChatServer → Type 0
Named s rest = All (λ t. s.name ≢ t.name) rest

abbrev pub Distinct : List ChatServer → Type 0
Distinct [] = Unit
Distinct (s ∷ rest) = Named s rest × Distinct rest

All-perm : (P : ChatServer → Type 0) {xs ys : List ChatServer} → Permᴰ xs ys → All P xs → All P ys
All-perm P Permᴰ.nil h = tt
All-perm P (Permᴰ.cons e d) h = (subst P e h.0, All-perm P d h.1)
All-perm P (Permᴰ.swap e f) h = (subst P f h.1.0, (subst P e h.0, h.1.1))
All-perm P (Permᴰ.trans d e) h = All-perm P e (All-perm P d h)

pub Distinct-perm : {xs ys : List ChatServer} → Permᴰ xs ys → Distinct xs → Distinct ys
Distinct-perm Permᴰ.nil h = tt
Distinct-perm (Permᴰ.cons {l₂ = l₂} e d) h =
    (subst (λ s. Named s l₂) e (All-perm _ d h.0), Distinct-perm d h.1)
Distinct-perm (Permᴰ.swap {l = l} e f) h =
    subst Distinct (ap₂ (λ x y. x ∷ y ∷ l) f e)
      (((λ same. h.0.0 (sym same)), h.1.0), (h.0.1, h.1.1))
Distinct-perm (Permᴰ.trans d e) h = Distinct-perm e (Distinct-perm d h)

pub sort-perm : {xs ys : List ChatServer} → Permᴰ xs ys → Distinct xs → sort xs ≡ sort ys
unfolding sort
sort-perm Permᴰ.nil h = refl
sort-perm (Permᴰ.cons e d) h = ap₂ insert e (sort-perm d h.1)
sort-perm (Permᴰ.swap {a = a} {b = b} {l = l} e f) h =
    insert-insert a b (sort l) h.0.0 ∙ ap₂ (λ x y. insert x (insert y (sort l))) f e
sort-perm (Permᴰ.trans d e) h = sort-perm d h ∙ sort-perm e (Distinct-perm d h)
