-- ===== src/Status/Order.antt =====
-- getChatServer of StatusServer/StatusServiceImpl.cpp walks an unordered map: its choice does not depend
-- on the order of the nodes.
use mathlib.Core.List.{Perm, Permᴰ}
use mathlib.Core.Logic.{∥∥₁_elim}
use mathlib.Core.List.Permᴰ
use mathlib.Core.Path.{ap₂}
use cpp_chat.Base.{
  ◌==◌, if◌then◌else◌, Bool-cases, length, concat_by, filter_by, All, Text, ℕ, suc, min, ◌≡◌, refl,
  sym, ap, subst, ◌∙◌, ◌≢◌, inl, inr, Bool, true, Option, none, some, List, [], ◌∷◌, ◌++◌,
  append_assoc, arith,
}
use cpp_chat.Leases.{redis_error, ReadStatus}
use cpp_chat.Status.{none_left, choose_chat_server, ChatServer, Health}
use cpp_chat.Status.Choice.{
  least, has_load, lightest, is_error, with_load, take_turn, reported, healthy, any_error,
  choose_chat_server-reference_choice,
}
use cpp_chat.Status.Sorting.{Named, Distinct, sort-perm}

least-perm : {xs ys : List ChatServer} → Permᴰ xs ys → least xs ≡ least ys
least-perm Permᴰ.nil = refl
least-perm (Permᴰ.cons e d) = ap₂ (λ s n. min s.con_count n) e (least-perm d)
least-perm (Permᴰ.swap {a = a} {b = b} {l = l} e f) =
    let turn : min a.con_count (min b.con_count (least l))
        ≡ min b.con_count (min a.con_count (least l)) =
      omega arith in
    turn ∙ ap₂ (λ s t. min s.con_count (min t.con_count (least l))) f e
least-perm (Permᴰ.trans d e) = least-perm d ∙ least-perm e

-- Parts that are swapped before a rest.
swap_parts : (xs ys l : List ChatServer) → Permᴰ (xs ++ (ys ++ l)) (ys ++ (xs ++ l))
swap_parts xs ys l =
    subst (λ t. Permᴰ t (ys ++ (xs ++ l))) (append_assoc xs ys l)
      (subst (Permᴰ ((xs ++ ys) ++ l)) (append_assoc ys xs l)
        (Permᴰ.append_right l (Permᴰ.append_comm xs ys)))

concat_by-perm :
    (f : ChatServer → List ChatServer) {xs ys : List ChatServer}
    → Permᴰ xs ys
    → Permᴰ (concat_by f xs) (concat_by f ys)
concat_by-perm f Permᴰ.nil = Permᴰ.nil
concat_by-perm f (Permᴰ.cons {a = a} {l₁ = l₁} {l₂ = l₂} e d) =
    subst (λ t. Permᴰ (f a ++ concat_by f l₁) (f t ++ concat_by f l₂)) e
      (Permᴰ.append_left (f a) (concat_by-perm f d))
concat_by-perm f (Permᴰ.swap {a = a} {b = b} {l = l} e g) =
    subst (Permᴰ (f a ++ (f b ++ concat_by f l))) (ap₂ (λ s t. f s ++ (f t ++ concat_by f l)) g e)
      (swap_parts (f a) (f b) (concat_by f l))
concat_by-perm f (Permᴰ.trans d e) = Permᴰ.trans (concat_by-perm f d) (concat_by-perm f e)

filter_by-concat_by :
    (p : ChatServer → Bool) (xs : List ChatServer)
    → filter_by p xs ≡ concat_by (λ s. if p s then s ∷ [] else []) xs
filter_by-concat_by p [] = refl
filter_by-concat_by p (x ∷ xs) = ground (arith, filter_by-concat_by p xs)

filter_by-perm :
    (p : ChatServer → Bool) {xs ys : List ChatServer}
    → Permᴰ xs ys
    → Permᴰ (filter_by p xs) (filter_by p ys)
filter_by-perm p {xs} {ys} d =
    rw (filter_by-concat_by p xs, filter_by-concat_by p ys)
      (concat_by-perm (λ s. if p s then s ∷ [] else []) d)

length-perm : {xs ys : List ChatServer} → Permᴰ xs ys → length xs ≡ length ys
length-perm Permᴰ.nil = refl
length-perm (Permᴰ.cons e d) = ap suc (length-perm d)
length-perm (Permᴰ.swap e f) = refl
length-perm (Permᴰ.trans d e) = length-perm d ∙ length-perm e

none_left-length : (xs : List ChatServer) → none_left xs ≡ (length xs == 0)
none_left-length [] = refl
none_left-length (x ∷ xs) = ground arith

All-filter_by :
    (P : ChatServer → Type 0) (p : ChatServer → Bool) (xs : List ChatServer)
    → All P xs
    → All P (filter_by p xs)
All-filter_by P p [] h = tt
All-filter_by P p (x ∷ xs) h = elim (Bool-cases (p x)) [
  | inl kept ↦ rw kept (h.0, All-filter_by P p xs h.1)
  | inr gone ↦ rw gone (All-filter_by P p xs h.1)
]

Distinct-filter_by :
    (p : ChatServer → Bool) (xs : List ChatServer) → Distinct xs → Distinct (filter_by p xs)
Distinct-filter_by p [] h = tt
Distinct-filter_by p (x ∷ xs) h = elim (Bool-cases (p x)) [
  | inl kept ↦ rw kept (All-filter_by _ p xs h.0, Distinct-filter_by p xs h.1)
  | inr gone ↦ rw gone (Distinct-filter_by p xs h.1)
]

module _ (parse : Text → Option Health) (health : Text → ReadStatus) where
  healthy-concat_by :
      (xs : List ChatServer)
      → healthy parse health xs
        ≡ concat_by (λ s. with_load (reported parse health (health s.name)) s) xs
  healthy-concat_by [] = refl
  healthy-concat_by (x ∷ xs) =
      ap (λ l. with_load (reported parse health (health x.name)) x ++ l) (healthy-concat_by xs)

  Named-healthy :
      (x : ChatServer) (xs : List ChatServer) → Named x xs → Named x (healthy parse health xs)
  Named-healthy x [] h = tt
  Named-healthy x (y ∷ ys) h =
      named (reported parse health (health y.name)) h.0 (Named-healthy x ys h.1)
    where
      named :
          (o : Option ℕ)
          → x.name ≢ y.name
          → Named x (healthy parse health ys)
          → Named x (with_load o y ++ healthy parse health ys)
      named none ne rest = rest
      named (some n) ne rest = (ne, rest)

  Distinct-healthy : (xs : List ChatServer) → Distinct xs → Distinct (healthy parse health xs)
  Distinct-healthy [] h = tt
  Distinct-healthy (x ∷ xs) h =
      distinct (reported parse health (health x.name)) (Named-healthy x xs h.0)
        (Distinct-healthy xs h.1)
    where
      distinct :
          (o : Option ℕ)
          → Named x (healthy parse health xs)
          → Distinct (healthy parse health xs)
          → Distinct (with_load o x ++ healthy parse health xs)
      distinct none named rest = rest
      distinct (some n) named rest = (named, rest)

  healthy-perm :
      {xs ys : List ChatServer}
      → Permᴰ xs ys
      → Permᴰ (healthy parse health xs) (healthy parse health ys)
  healthy-perm {xs} {ys} d =
      rw (healthy-concat_by xs, healthy-concat_by ys)
        (concat_by-perm (λ s. with_load (reported parse health (health s.name)) s) d)

  any_error-perm :
      {xs ys : List ChatServer}
      → Permᴰ xs ys
      → any_error parse health xs ≡ any_error parse health ys
  any_error-perm Permᴰ.nil = refl
  any_error-perm (Permᴰ.cons e d) =
      ap₂ (λ s b. if is_error (health s.name) then true else b) e (any_error-perm d)
  any_error-perm (Permᴰ.swap {a = a} {b = b} {l = l} e f) =
      let rest = any_error parse health l in
      let turn : (if is_error (health a.name)
            then true
            else if is_error (health b.name)
            then true
            else rest)
          ≡ (if is_error (health b.name)
              then true
              else if is_error (health a.name)
              then true
              else rest) =
        ground arith in
      turn
      ∙ ap₂
          (λ s t.
            if is_error (health s.name)
            then true
            else if is_error (health t.name)
            then true
            else rest)
          f e
  any_error-perm (Permᴰ.trans d e) = any_error-perm d ∙ any_error-perm e

  lightest-perm : {xs ys : List ChatServer} → Permᴰ xs ys → Permᴰ (lightest xs) (lightest ys)
  lightest-perm {xs} {ys} d =
      subst (λ n. Permᴰ (lightest xs) (filter_by (has_load n) ys)) (least-perm d)
        (filter_by-perm (has_load (least xs)) d)

  take_turn-perm :
      {xs ys : List ChatServer} (next : ℕ)
      → Permᴰ xs ys
      → Distinct xs
      → take_turn xs next ≡ take_turn ys next
  take_turn-perm {xs} {ys} next d h =
      rw (none_left-length xs, none_left-length ys, length-perm d, sort-perm d h)

  choose_chat_server-perm :
      (xs ys : List ChatServer) (next : ℕ)
      → Permᴰ xs ys
      → Distinct xs
      → choose_chat_server parse health xs next ≡ choose_chat_server parse health ys next
  choose_chat_server-perm xs ys next d h =
      let servers = healthy-perm d in
      choose_chat_server-reference_choice parse health xs next
      ∙ ap₂
          (λ b c.
            if b then record { error_code = redis_error; chosen = none; next_choice = next } else c)
          (any_error-perm d)
          (take_turn-perm next (lightest-perm servers) (
            Distinct-filter_by (has_load (least (healthy parse health xs)))
              (healthy parse health xs) (Distinct-healthy xs h)))
      ∙ sym (choose_chat_server-reference_choice parse health ys next)

  -- getChatServer chooses the same node, with the same error and the same next turn, in whatever order
  -- the unordered map gives the nodes, whose names differ.
  pub choose_chat_server-forgets_order :
      (xs ys : List ChatServer) (next : ℕ)
      → Perm xs ys
      → Distinct xs
      → choose_chat_server parse health xs next ≡ choose_chat_server parse health ys next
  choose_chat_server-forgets_order xs ys next p h =
      ∥∥₁_elim p (hlevel) (λ d. choose_chat_server-perm xs ys next d h)
