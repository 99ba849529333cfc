-- ===== src/LoginSnapshot.antt =====
-- LoginSnapshot (ChatServerShared/LoginSnapshot.h): a login reply is cut into frames. A reply is its two
-- lists, the members that mark a frame, and the rest of its members; the text of a reply
-- (Json::Value::toStyledString) is a parameter.
pub mod Frames
pub mod Split
use cpp_chat.Base.{
  ltb, leb, if◌then◌else◌, length, Text, ℕ, suc, ◌+◌, ◌-◌, ◌*◌, ◌/◌, Bool, true, false, not, ◌&&◌,
  ◌||◌, Option, none, some, List, [], ◌∷◌, ◌++◌, map,
}
use mathlib.Core.Option
use cpp_chat.Framing.{max_length, frame}

abbrev pub max_chunks : ℕ
max_chunks = 256

abbrev pub max_bytes : ℕ
max_bytes = 4 * 1024 * 1024

pub record Snapshot (Rest Item : Type 0) : Type 0 where
  pub rest : Rest
  pub apply_list : List Item
  pub friend_list : List Item
  -- login_chunk_more and login_chunk
  pub chunk : Option (Bool × ℕ)

-- The variables of the loop.
pub record Build (Rest Item : Type 0) : Type 0 where
  pub frames : List Text
  pub total_bytes : ℕ
  pub current : Snapshot Rest Item

-- The two rounds of the outer loop.
pub data Which : Type 0 where
  applies friends : Which

abbrev pub nothing {ℓ} : {A : Type ℓ} → List A → Bool
nothing [] = true
nothing (x ∷ xs) = false

-- current["login_chunk_more"] = more
abbrev pub mark_more : Bool → Option (Bool × ℕ) → Option (Bool × ℕ)
mark_more more none = some (more, 0)
mark_more more (some (m, n)) = some (more, n)

module _ {Rest Item : Type 0} where
  -- candidate[list].append(item)
  abbrev pub add_item : Which → Item → Snapshot Rest Item → Snapshot Rest Item
  add_item applies x s = record s { apply_list = s.apply_list ++ x ∷ [] }
  add_item friends x s = record s { friend_list = s.friend_list ++ x ∷ [] }

  abbrev pub with_more : Bool → Snapshot Rest Item → Snapshot Rest Item
  with_more more s = record s { chunk = mark_more more s.chunk }

  abbrev pub base_of : Snapshot Rest Item → Snapshot Rest Item
  base_of response = record response { apply_list = []; friend_list = []; chunk = some (false, 0) }

module _ {Rest Item : Type 0} (styled : Snapshot Rest Item → Text) (base : Snapshot Rest Item) where
  -- append_frame.
  unfoldable pub append_frame : Bool → Build Rest Item → Option (Build Rest Item)
  append_frame more b =
      let body = styled (with_more more b.current) in
      if leb max_chunks (length b.frames)
        || (ltb max_length (length body) || ltb max_bytes (b.total_bytes + length body))
      then none
      else some (record {
        frames = b.frames ++ body ∷ [];
        total_bytes = b.total_bytes + length body;
        current = record base { chunk = some (false, suc (length b.frames)) };
      })

  -- The item goes to a new frame.
  abbrev pub start_next : Which → Item → Option (Build Rest Item) → Option (Build Rest Item)
  start_next w x none = none
  start_next w x (some b) =
      let candidate = add_item w x b.current in
      if ltb max_length (length (styled candidate))
      then none
      else some (record b { current = candidate })

  -- The body of the inner loop.
  unfoldable pub put_item : Which → Item → Build Rest Item → Option (Build Rest Item)
  put_item w x b =
      let candidate = add_item w x b.current in
      if ltb max_length (length (styled candidate))
      then (if nothing b.current.apply_list && nothing b.current.friend_list
          then none
          else start_next w x (append_frame true b))
      else some (record b { current = candidate })

  -- The inner loop.
  unfoldable pub put_items : Which → List Item → Option (Build Rest Item) → Option (Build Rest Item)
  put_items w xs none = none
  put_items w [] (some b) = some b
  put_items w (x ∷ xs) (some b) = put_items w xs (put_item w x b)

  abbrev pub finish : Option (Build Rest Item) → Option (List Text)
  finish none = none
  finish (some b) = Option.map (λ (c : Build Rest Item). c.frames) (append_frame false b)

  abbrev pub begin : Build Rest Item
  begin = record { frames = []; total_bytes = 0; current = base }

-- BuildFrames: the frames, or `none` where it returns false (and has cleared them).
unfoldable pub build_frames :
    {Rest Item : Type 0}
    → (Snapshot Rest Item → Text)
    → Snapshot Rest Item
    → Bool
    → Option (List Text)
build_frames styled response allow_chunks =
    let base = base_of response in
    if leb (length (styled response)) max_length
    then some (styled response ∷ [])
    else if not allow_chunks || ltb max_bytes (length (styled response))
    then none
    else if ltb max_length (length (styled base))
    then none
    else finish styled base (
        put_items styled base friends response.friend_list
          (put_items styled base applies response.apply_list (some (begin styled base))))
