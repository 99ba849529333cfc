-- ===== src/Calls/Runs.antt =====
-- The life of a call: its updates in any order, by either end, on either node.
use cpp_chat.Base.{Text, ℕ, ◌≤◌, ◌<◌, ◌≡◌, subst, ◌≢◌, Bool, true, false, arith}
use cpp_chat.Calls.{
  is_ringing, lane_of, is_first, take_media, act_live, act, decide, Numbers, Action, accept, frame,
  video, Call, Request, update,
}
use cpp_chat.Calls.Replay.{
  Extends-refl, Extends-trans, guarded-update, decide-acts, act-live, decide-Extends, Extends,
}

module _ (N : Numbers) where
  open N use {Num}

  -- The calls that follow from `c` by updates. What is read back from Redis may have other times and
  -- credits than what was written, since cjson rounds numbers.
  pub data Reach (c : Call Num) : Call Num → Type 0 where
    start : Reach c c
    update_next :
        (e d f g : Call Num) (now : Num) (r : Request) (ps : Text)
        → Reach c e
        → decide N now r ps e d ≡ update f
        → Extends f g
        → Reach c g

  Reach-Extends : (c e : Call Num) → Reach c e → Extends c e
  Reach-Extends c _ start = Extends-refl c
  Reach-Extends c _ (update_next e d f g now r ps h u k) =
      Extends-trans c e g (Reach-Extends c e h)
        (Extends-trans e f g (decide-Extends N now r ps e d f u) k)

  -- A sequence number that was taken is the lane's from then on.
  take_media-sequence :
      (picture first : Bool) (now : Num) (n : ℕ) (c e : Call Num)
      → take_media N picture first now n c ≡ update e
      → (lane_of picture first e).sequence ≡ n
  unfolding take_media
  take_media-sequence true true now n c e h = ground arith
  take_media-sequence true false now n c e h = ground arith
  take_media-sequence false true now n c e h = ground arith
  take_media-sequence false false now n c e h = ground arith

  take_media-above :
      (picture first : Bool) (now : Num) (n : ℕ) (c e : Call Num)
      → take_media N picture first now n c ≡ update e
      → (lane_of picture first c).sequence < n
  unfolding take_media
  take_media-above picture first now n c e h = ground arith

  lane-Extends :
      (picture first : Bool) (c e : Call Num)
      → Extends c e
      → (lane_of picture first c).sequence ≤ (lane_of picture first e).sequence
  lane-Extends true true c e x = x.video_a
  lane-Extends true false c e x = x.video_b
  lane-Extends false true c e x = x.audio_a
  lane-Extends false false c e x = x.audio_b

  abbrev pub medium : Bool → Action
  medium true = video
  medium false = frame

  -- An update by an operation is one by the live part of the script.
  taken-live :
      (op : Action) (now : Num) (r : Request) (ps : Text) (c d e : Call Num)
      → r.action ≡ op
      → decide N now r ps c d ≡ update e
      → act_live N (is_first r c) now r op c ≡ update e
  taken-live op now r ps c d e m h =
      (act-live N (is_first r c) now r op c e (
        subst (λ o. act N (is_first r c) now r o c ≡ update e) m
          (decide-acts N now r ps c d e h).1)).1

  media-taken :
      (picture : Bool) (now : Num) (r : Request) (ps : Text) (c d e : Call Num)
      → r.action ≡ medium picture
      → decide N now r ps c d ≡ update e
      → take_media N picture (is_first r c) now r.sequence c ≡ update e
  media-taken true now r ps c d e m h =
      (guarded-update N (is_first r c) now r video c e (taken-live video now r ps c d e m h)).1
  media-taken false now r ps c d e m h =
      (guarded-update N (is_first r c) now r frame c e (taken-live frame now r ps c d e m h)).1

  accept-stages :
      (first : Bool) (now : Num) (r : Request) (c e : Call Num)
      → act_live N first now r accept c ≡ update e
      → (first ≡ false) × (is_ringing c.stage ≡ true) × (is_ringing e.stage ≡ false)
  accept-stages first now r c e h = ground arith

  -- No frame is taken twice: after a frame of a medium was taken from one end, whatever the updates that
  -- follow, a frame of the same medium from the same end with a sequence number that is not larger does
  -- not update the call.
  pub no_replay :
      (picture : Bool) (now now' : Num) (r r' : Request) (ps ps' : Text) (c d e f d' : Call Num)
      → r.action ≡ medium picture
      → decide N now r ps c d ≡ update e
      → Reach e f
      → r'.action ≡ medium picture
      → is_first r' f ≡ is_first r c
      → r'.sequence ≤ r.sequence
      → (g : Call Num) → decide N now' r' ps' f d' ≢ update g
  no_replay picture now now' r r' ps ps' c d e f d' m h reach m' same low g k =
      let first = is_first r c in
      let old =
        take_media-sequence picture first now r.sequence c e
          (media-taken picture now r ps c d e m h) in
      let grown = lane-Extends picture first e f (Reach-Extends e f reach) in
      let new =
        take_media-above picture (is_first r' f) now' r'.sequence f g
          (media-taken picture now' r' ps' f d' g m' k) in
      omega (arith, old, grown, rw same at new)

  -- A call is answered once: after an answer was taken, no later answer updates the call.
  pub answered_once :
      (now now' : Num) (r r' : Request) (ps ps' : Text) (c d e f d' : Call Num)
      → r.action ≡ accept
      → decide N now r ps c d ≡ update e
      → Reach e f
      → r'.action ≡ accept
      → (g : Call Num) → decide N now' r' ps' f d' ≢ update g
  answered_once now now' r r' ps ps' c d e f d' m h reach m' g k =
      let a = accept-stages (is_first r c) now r c e (taken-live accept now r ps c d e m h) in
      let b =
        accept-stages (is_first r' f) now' r' f g (taken-live accept now' r' ps' f d' g m' k) in
      absurd (cc (a.2, (Reach-Extends e f reach).answered_once b.1))
