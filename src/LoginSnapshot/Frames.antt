-- ===== src/LoginSnapshot/Frames.antt =====
-- The frames of a login reply hold its lists, in order and whole, within the limits of the protocol.
use cpp_chat.Base.{
  ltb, Bool-cases, length, concat_by, sum_by, All, length-append, sum_by-append, All-append,
  length-map, concat_by-append, Text, ℕ, suc, ◌+◌, ◌≤◌, ◌<◌, ◌≡◌, refl, sym, ap, subst, ◌∙◌, inl,
  inr, Bool, true, false, ◌&&◌, Option, none, some, List, [], ◌∷◌, ◌++◌, map, map-append,
  append-nil, append_assoc, arith,
}
use cpp_chat.Framing.{max_length}
use cpp_chat.LoginSnapshot.{
  max_chunks, max_bytes, nothing, add_item, with_more, append_frame, start_next, put_item,
  put_items, Snapshot, Build, Which, applies, friends,
}

module _ {Rest Item : Type 0} where
  -- Frame k carries the number k and says that more frames come.
  abbrev pub Numbered : ℕ → List (Snapshot Rest Item) → Type 0
  Numbered k [] = Unit {0}
  Numbered k (s ∷ ss) = (s.chunk ≡ some (true, k)) × Numbered (suc k) ss

  Numbered-append :
      (k : ℕ) (ss : List (Snapshot Rest Item)) (s : Snapshot Rest Item)
      → Numbered k ss
      → s.chunk ≡ some (true, k + length ss)
      → Numbered k (ss ++ s ∷ [])
  Numbered-append k [] s h e = ground arith
  Numbered-append k (t ∷ ss) s h e = (h.0, Numbered-append (suc k) ss s h.1 (ground arith))

abbrev pub xs_after : {Item : Type 0} → Which → Item → List Item → List Item
xs_after applies x xs = xs ++ x ∷ []
xs_after friends x xs = xs

abbrev pub ys_after : {Item : Type 0} → Which → Item → List Item → List Item
ys_after applies x ys = ys
ys_after friends x ys = ys ++ x ∷ []

module _ {Rest Item : Type 0} (styled : Snapshot Rest Item → Text) (base : Snapshot Rest Item)
    (bare : (base.apply_list ≡ []) × (base.friend_list ≡ [])) where
  -- `sent` are the frames so far; `xs` and `ys` are the items put so far.
  pub record Sent (sent : List (Snapshot Rest Item)) (xs ys : List Item) (b : Build Rest Item)
      : Type 0 where
    pub texts : b.frames ≡ map styled sent
    pub applied : concat_by (λ s. s.apply_list) sent ++ b.current.apply_list ≡ xs
    pub befriended : concat_by (λ s. s.friend_list) sent ++ b.current.friend_list ≡ ys
    pub numbered : Numbered 0 sent
    pub number : b.current.chunk ≡ some (false, length sent)
    pub rests : All (λ s. s.rest ≡ base.rest) sent
    pub rest : b.current.rest ≡ base.rest
    pub few : length sent ≤ max_chunks
    pub small : All (λ t. length t ≤ max_length) b.frames
    pub total : sum_by length b.frames ≡ b.total_bytes
    pub within : b.total_bytes ≤ max_bytes

  abbrev pub body_of : Bool → Build Rest Item → Text
  body_of more b = styled (with_more more b.current)

  -- What a successful append_frame has checked and done.
  pub record Appended (more : Bool) (b b' : Build Rest Item) : Type 0 where
    pub frames : b'.frames ≡ b.frames ++ body_of more b ∷ []
    pub bytes_sum : b'.total_bytes ≡ b.total_bytes + length (body_of more b)
    pub current : b'.current ≡ record base { chunk = some (false, suc (length b.frames)) }
    pub room : length b.frames < max_chunks
    pub small : length (body_of more b) ≤ max_length
    pub within : b.total_bytes + length (body_of more b) ≤ max_bytes

  pub append_frame-Appended :
      (more : Bool) (b b' : Build Rest Item)
      → append_frame styled base more b ≡ some b'
      → Appended more b b'
  unfolding append_frame
  append_frame-Appended more b b' h = ground arith

  -- A frame is sent: what it held is in `sent`.
  append_frame-Sent :
      (sent : List (Snapshot Rest Item)) (xs ys : List Item) (b b' : Build Rest Item)
      → Sent sent xs ys b
      → append_frame styled base true b ≡ some b'
      → Sent (sent ++ with_more true b.current ∷ []) xs ys b'
  append_frame-Sent sent xs ys b b' v h =
      let a = append_frame-Appended true b b' h in
      let last = with_more true b.current in
      let n : length b.frames ≡ length sent = rw v.texts (length-map sent styled) in
      record {
        texts = a.frames ∙ rw v.texts (sym (map-append styled sent (last ∷ [])));
        applied =
            rw
              (
                a.current,
                bare.0,
                concat_by-append (λ s. s.apply_list) sent (last ∷ []),
                append-nil,
                append-nil,
              )
              v.applied;
        befriended =
            rw
              (
                a.current,
                bare.1,
                concat_by-append (λ s. s.friend_list) sent (last ∷ []),
                append-nil,
                append-nil,
              )
              v.befriended;
        numbered = Numbered-append 0 sent last v.numbered (rw v.number (ground arith));
        number = rw (a.current, n, length-append) (ground arith);
        rests = All-append (λ s. s.rest ≡ base.rest) sent (last ∷ []) v.rests (v.rest, tt);
        rest = rw a.current;
        few = omega (arith, n, a.room, length-append sent (last ∷ []));
        small =
            rw a.frames (All-append (λ t. length t ≤ max_length) b.frames _ v.small (a.small, tt));
        total = omega (
          arith,
          a.bytes_sum,
          ap (sum_by length) a.frames,
          v.total,
          sum_by-append length b.frames (body_of true b ∷ []),
        );
        within = omega (arith, a.bytes_sum, a.within);
      }

  add-Sent :
      (w : Which) (x : Item) (sent : List (Snapshot Rest Item)) (xs ys : List Item)
      (b : Build Rest Item)
      → Sent sent xs ys b
      → Sent sent
          (xs_after w x xs)
          (ys_after w x ys)
          (record b { current = add_item w x b.current })
  add-Sent applies x sent xs ys b v =
      ground
        (arith, append_assoc (concat_by (λ s. s.apply_list) sent) b.current.apply_list (x ∷ []))
  add-Sent friends x sent xs ys b v =
      ground
        (arith, append_assoc (concat_by (λ s. s.friend_list) sent) b.current.friend_list (x ∷ []))

  unfoldable pub Reaches : List Item → List Item → Build Rest Item → Type 0
  Reaches xs ys b = (sent : List (Snapshot Rest Item)) × Sent sent xs ys b

  start_next-Sent :
      (w : Which) (x : Item) (xs ys : List Item) (o : Option (Build Rest Item))
      (b' : Build Rest Item)
      → ((b : Build Rest Item) → o ≡ some b → Reaches xs ys b)
      → start_next styled base w x o ≡ some b'
      → Reaches (xs_after w x xs) (ys_after w x ys) b'
  unfolding Reaches
  start_next-Sent w x xs ys none b' v h = cc
  start_next-Sent w x xs ys (some b) b' v h =
      let (sent, r) = v b refl in
      let e : record b { current = add_item w x b.current } ≡ b' = ground arith in
      (sent, subst (Sent sent (xs_after w x xs) (ys_after w x ys)) e (add-Sent w x sent xs ys b r))

  put_item-Sent :
      (w : Which) (x : Item) (xs ys : List Item) (b b' : Build Rest Item)
      → Reaches xs ys b
      → put_item styled base w x b ≡ some b'
      → Reaches (xs_after w x xs) (ys_after w x ys) b'
  unfolding put_item Reaches
  put_item-Sent w x xs ys b b' (sent, v) h =
      elim (Bool-cases (ltb max_length (length (styled (add_item w x b.current))))) [
        | inl big ↦
            elim (Bool-cases (nothing b.current.apply_list && nothing b.current.friend_list)) [
              | inl alone ↦ absurd (ground arith)
              | inr more ↦
                  start_next-Sent w x xs ys (append_frame styled base true b) b'
                    (λ c e. (_, append_frame-Sent sent xs ys b c v e)) (ground arith)
            ]
        | inr small ↦
            let e : record b { current = add_item w x b.current } ≡ b' = ground arith in
            (
              sent,
              subst (Sent sent (xs_after w x xs) (ys_after w x ys)) e (add-Sent w x sent xs ys b v),
            )
      ]

  abbrev pub xs_all : Which → List Item → List Item → List Item
  xs_all applies zs xs = xs ++ zs
  xs_all friends zs xs = xs

  abbrev pub ys_all : Which → List Item → List Item → List Item
  ys_all applies zs ys = ys
  ys_all friends zs ys = ys ++ zs

  after-all-xs :
      (w : Which) (z : Item) (zs xs : List Item)
      → xs_all w zs (xs_after w z xs) ≡ xs_all w (z ∷ zs) xs
  after-all-xs applies z zs xs = append_assoc xs (z ∷ []) zs
  after-all-xs friends z zs xs = refl

  after-all-ys :
      (w : Which) (z : Item) (zs ys : List Item)
      → ys_all w zs (ys_after w z ys) ≡ ys_all w (z ∷ zs) ys
  after-all-ys applies z zs ys = refl
  after-all-ys friends z zs ys = append_assoc ys (z ∷ []) zs

  xs_all-nil : (w : Which) (xs : List Item) → xs_all w [] xs ≡ xs
  xs_all-nil applies xs = append-nil xs
  xs_all-nil friends xs = refl

  ys_all-nil : (w : Which) (ys : List Item) → ys_all w [] ys ≡ ys
  ys_all-nil applies ys = refl
  ys_all-nil friends ys = append-nil ys

  pub put_items-Sent :
      (w : Which) (zs xs ys : List Item) (o : Option (Build Rest Item)) (b' : Build Rest Item)
      → ((b : Build Rest Item) → o ≡ some b → Reaches xs ys b)
      → put_items styled base w zs o ≡ some b'
      → Reaches (xs_all w zs xs) (ys_all w zs ys) b'
  unfolding put_items
  put_items-Sent w [] xs ys none b' v h = cc
  put_items-Sent w (z ∷ zs) xs ys none b' v h = cc
  put_items-Sent w [] xs ys (some b) b' v h =
      rw (xs_all-nil w xs, ys_all-nil w ys) (subst (Reaches xs ys) (ground arith) (v b refl))
  put_items-Sent w (z ∷ zs) xs ys (some b) b' v h =
      rw (← after-all-xs w z zs xs, ← after-all-ys w z zs ys)
        (put_items-Sent w zs (xs_after w z xs) (ys_after w z ys) (put_item styled base w z b) b'
          (λ c e. put_item-Sent w z xs ys b c (v b refl) e) h)
