-- ===== src/LoginSnapshot/Split.antt =====
-- What BuildFrames returns: the reply itself, or a split of it.
use cpp_chat.Base.{
  ltb, leb, Bool-cases, Option-cases, length, concat_by, sum_by, All, length-append, sum_by-append,
  All-append, length-map, concat_by-append, Text, ◌≤◌, ◌≡◌, refl, sym, ap, subst, ◌∙◌, ◌⊎◌, inl,
  inr, Bool, true, false, not, ◌||◌, Option, none, some, List, [], ◌∷◌, ◌++◌, map, map-append,
  append-nil, arith,
}
use cpp_chat.Framing.{max_length}
use cpp_chat.LoginSnapshot.{
  max_chunks, max_bytes, with_more, base_of, append_frame, put_items, finish, begin, build_frames,
  Snapshot, Build, applies, friends,
}
use cpp_chat.LoginSnapshot.Frames.{
  Numbered, body_of, append_frame-Appended, Reaches, put_items-Sent, Sent, Appended,
}

-- A reply is sent as the frames `sent` and `last`: they hold the two lists of the reply, whole and in
-- order, beside its other members; they are numbered from 0, and all but the last say that more come;
-- and their texts keep the limits on a frame, on the number of frames and on their sum.
pub record IsSplit {Rest Item : Type 0} (styled : Snapshot Rest Item → Text)
    (response : Snapshot Rest Item) (frames : List Text) (sent : List (Snapshot Rest Item))
    (last : Snapshot Rest Item) : Type 0 where
  pub texts : frames ≡ map styled (sent ++ last ∷ [])
  pub applied : concat_by (λ s. s.apply_list) (sent ++ last ∷ []) ≡ response.apply_list
  pub befriended : concat_by (λ s. s.friend_list) (sent ++ last ∷ []) ≡ response.friend_list
  pub numbered : Numbered 0 sent
  pub ends : last.chunk ≡ some (false, length sent)
  pub rests : All (λ s. s.rest ≡ response.rest) (sent ++ last ∷ [])
  pub few : length frames ≤ max_chunks
  pub small : All (λ t. length t ≤ max_length) frames
  pub total : sum_by length frames ≤ max_bytes

module _ {Rest Item : Type 0} (styled : Snapshot Rest Item → Text)
    (response : Snapshot Rest Item) where
  close-IsSplit :
      (frames : List Text) (sent : List (Snapshot Rest Item)) (b b' : Build Rest Item)
      → Sent styled (base_of response) (refl, refl) sent response.apply_list response.friend_list b
      → Appended styled (base_of response) (refl, refl) false b b'
      → frames ≡ b'.frames
      → IsSplit styled response frames sent (with_more false b.current)
  close-IsSplit frames sent b b' r a same =
      let last = with_more false b.current in
      let n : length b.frames ≡ length sent = rw r.texts (length-map sent styled) in
      record {
        texts = same ∙ a.frames ∙ rw r.texts (sym (map-append styled sent (last ∷ [])));
        applied = rw (concat_by-append (λ s. s.apply_list) sent (last ∷ []), append-nil) r.applied;
        befriended =
            rw (concat_by-append (λ s. s.friend_list) sent (last ∷ []), append-nil) r.befriended;
        numbered = r.numbered;
        ends = rw r.number;
        rests = All-append (λ s. s.rest ≡ response.rest) sent (last ∷ []) r.rests (r.rest, tt);
        few = omega (
          arith,
          ap length same,
          ap length a.frames,
          a.room,
          length-append b.frames (body_of styled (base_of response) (refl, refl) false b ∷ []),
        );
        small =
            rw (same, a.frames)
              (All-append (λ t. length t ≤ max_length) b.frames _ r.small (a.small, tt));
        total = omega (
          arith,
          ap (sum_by length) same,
          ap (sum_by length) a.frames,
          r.total,
          a.within,
          sum_by-append length b.frames
              (body_of styled (base_of response) (refl, refl) false b ∷ []),
        );
      }

  finish-IsSplit :
      (frames : List Text) (o : Option (Build Rest Item))
      → ((b : Build Rest Item)
          → o ≡ some b
          → Reaches styled
              (base_of response)
              (refl, refl)
              response.apply_list
              response.friend_list
              b)
      → finish styled (base_of response) o ≡ some frames
      → (sent : List (Snapshot Rest Item)) × (last : Snapshot Rest Item) × IsSplit styled response
          frames sent last
  unfolding Reaches
  finish-IsSplit frames none v h = cc
  finish-IsSplit frames (some b) v h =
      let (sent, r) = v b refl in
      elim (Option-cases (append_frame styled (base_of response) false b)) [
        | inl stuck ↦ absurd (cc (rw stuck at h))
        | inr (b', e) ↦
            let a = append_frame-Appended styled (base_of response) (refl, refl) false b b' e in
            (sent, with_more false b.current, close-IsSplit frames sent b b' r a (ground arith))
      ]

  begin-Sent :
      length (styled (base_of response)) ≤ max_length
      → Reaches styled (base_of response) (refl, refl) [] [] (begin styled (base_of response))
  unfolding Reaches
  begin-Sent h = (
    [],
    record {
      texts = refl;
      applied = refl;
      befriended = refl;
      numbered = tt;
      number = refl;
      rests = tt;
      rest = refl;
      few = omega arith;
      small = tt;
      total = refl;
      within = omega arith;
    },
  )

  -- What the two loops have put before the last frame, if they do not fail.
  chunks-IsSplit :
      (frames : List Text)
      → length (styled (base_of response)) ≤ max_length
      → finish styled (base_of response) (
          put_items styled (base_of response) friends response.friend_list (
            put_items styled
              (base_of response)
              applies
              response.apply_list
              (some (begin styled (base_of response)))))
        ≡ some frames
      → (sent : List (Snapshot Rest Item)) × (last : Snapshot Rest Item) × IsSplit styled response
          frames sent last
  chunks-IsSplit frames small h =
      let base = base_of response in
      let start = some (begin styled base) in
      let applied = put_items styled base applies response.apply_list start in
      finish-IsSplit frames (put_items styled base friends response.friend_list applied)
        (λ b e.
          put_items-Sent styled base (refl, refl) friends response.friend_list response.apply_list
            [] applied b
            (λ c d.
              put_items-Sent styled base (refl, refl) applies response.apply_list [] [] start c
                (λ s g. subst (Reaches styled base (refl, refl) [] []) (cc g) (begin-Sent small)) d)
            e)
        h

  -- What BuildFrames returns, if it returns frames, is the reply itself in one frame, where that fits;
  -- otherwise chunks were allowed and it is a split of the reply: its lists whole and in order, the
  -- frames numbered, and the limits on their sizes, their number and their sum kept.
  pub build_frames-IsSplit :
      (allow_chunks : Bool) (frames : List Text)
      → build_frames styled response allow_chunks ≡ some frames
      → ((frames ≡ styled response ∷ []) × (length (styled response) ≤ max_length))
        ⊎ ((allow_chunks ≡ true)
            × (sent : List (Snapshot Rest Item)) × (last : Snapshot Rest Item) × IsSplit styled
                response frames sent last)
  unfolding build_frames
  build_frames-IsSplit allow frames h =
      elim (Bool-cases (leb (length (styled response)) max_length)) [
        | inl fits ↦ inl (ground arith)
        | inr long ↦ elim (Bool-cases (not allow || ltb max_bytes (length (styled response)))) [
          | inl refused ↦ absurd (ground arith)
          | inr allowed ↦ elim (Bool-cases (ltb max_length (length (styled (base_of response))))) [
            | inl large ↦ absurd (ground arith)
            | inr small ↦
                let r = chunks-IsSplit frames (ground arith) (rw (long, allowed, small) at h) in
                inr (ground arith, r.0, r.1, r.2)
          ]
        ]
      ]
