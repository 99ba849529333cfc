-- ===== src/Examples/SnapshotTests.antt =====
-- Concrete instances for the login snapshot: two applications and three friends, in frames of two.
use cpp_chat.Base.{
  length, replicate, Text, ℕ, ◌+◌, ◌*◌, ◌≤◌, ◌≡◌, refl, ◌⊎◌, true, none, some, List, [], ◌∷◌,
}
use cpp_chat.Framing.{max_length}
use cpp_chat.LoginSnapshot.{append_frame, put_item, put_items, build_frames, Snapshot}
use cpp_chat.LoginSnapshot.Split.{IsSplit, build_frames-IsSplit}

-- A reply's text, as long as its items.
abbrev styled : Snapshot ℕ ℕ → Text
styled s = replicate (10 + 7000 * (length s.apply_list + length s.friend_list)) s.rest

abbrev response : Snapshot ℕ ℕ
response = record { rest = 7; apply_list = 1 ∷ 2 ∷ []; friend_list = 3 ∷ 4 ∷ 5 ∷ []; chunk = none }

abbrev frames : List Text
frames = replicate 14010 7 ∷ replicate 14010 7 ∷ replicate 7010 7 ∷ []

response_frames : build_frames styled response true ≡ some frames
unfolding build_frames put_items put_item append_frame
response_frames = refl

build_frames-IsSplit_example :
    ((frames ≡ styled response ∷ []) × (length (styled response) ≤ max_length))
    ⊎ ((true ≡ true)
        × (sent : List (Snapshot ℕ ℕ)) × (last : Snapshot ℕ ℕ) × IsSplit styled response frames sent
            last)
build_frames-IsSplit_example = build_frames-IsSplit styled response true frames response_frames
