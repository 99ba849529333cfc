-- ===== src/Calls/Replay.antt =====
-- A call's state machine: who may move it, that it is answered once, and that no frame is taken twice.
use cpp_chat.Base.{
  if◌then◌else◌, Bool-cases, Text, text_eq, text_eq_iff, int_eq_iff, ℕ, ◌≤◌, ◌≡◌, refl, sym, ◌∙◌,
  ◌⊎◌, inl, inr, Bool, true, false, not, ◌&&◌, ◌||◌, arith,
}
use cpp_chat.Leases.{token_invalid}
use cpp_chat.Calls.{
  voice_invalid, timeout_ms, is_ringing, is_first, is_second, devices_match, sessions_match,
  take_media, act_active, act_live, act, decide, Numbers, Action, invite, accept, reject, cancel,
  hangup, frame, video, ping, camera, other, Call, Request, Verdict, refuse, finish, update,
}

module _ {Num : Type 0} where
  -- What an update keeps of a call, and what only grows.
  pub record Extends (c e : Call Num) : Type 0 where
    pub id : e.id ≡ c.id
    pub caller : (e.a ≡ c.a) × (e.sa ≡ c.sa) × (e.da ≡ c.da)
    pub callee : (e.b ≡ c.b) × (e.sb ≡ c.sb) × (e.db ≡ c.db)
    pub medium : e.has_video ≡ c.has_video
    pub answered_once : is_ringing e.stage ≡ true → is_ringing c.stage ≡ true
    pub audio_a : c.audio_a.sequence ≤ e.audio_a.sequence
    pub audio_b : c.audio_b.sequence ≤ e.audio_b.sequence
    pub video_a : c.video_a.sequence ≤ e.video_a.sequence
    pub video_b : c.video_b.sequence ≤ e.video_b.sequence

  pub Extends-refl : (c : Call Num) → Extends c c
  Extends-refl c = record {
    id = refl;
    caller = (refl, refl, refl);
    callee = (refl, refl, refl);
    medium = refl;
    answered_once = λ h. h;
    audio_a = omega arith;
    audio_b = omega arith;
    video_a = omega arith;
    video_b = omega arith;
  }

  pub Extends-trans : (c e f : Call Num) → Extends c e → Extends e f → Extends c f
  Extends-trans c e f x y = record {
    id = y.id ∙ x.id;
    caller = (y.caller.0 ∙ x.caller.0, y.caller.1 ∙ x.caller.1, y.caller.2 ∙ x.caller.2);
    callee = (y.callee.0 ∙ x.callee.0, y.callee.1 ∙ x.callee.1, y.callee.2 ∙ x.callee.2);
    medium = y.medium ∙ x.medium;
    answered_once = λ h. x.answered_once (y.answered_once h);
    audio_a = omega (arith, x.audio_a, y.audio_a);
    audio_b = omega (arith, x.audio_b, y.audio_b);
    video_a = omega (arith, x.video_a, y.video_a);
    video_b = omega (arith, x.video_b, y.video_b);
  }

module _ (N : Numbers) where
  open N use {Num}

  take_media-Extends :
      (picture first : Bool) (now : Num) (n : ℕ) (c e : Call Num)
      → take_media N picture first now n c ≡ update e
      → Extends c e
  unfolding take_media
  take_media-Extends true true now n c e h = ground arith
  take_media-Extends true false now n c e h = ground arith
  take_media-Extends false true now n c e h = ground arith
  take_media-Extends false false now n c e h = ground arith

  act_active-Extends :
      (first : Bool) (now : Num) (r : Request) (op : Action) (c e : Call Num)
      → act_active N first now r op c ≡ update e
      → Extends c e
  act_active-Extends first now r frame c e h = take_media-Extends false first now r.sequence c e h
  act_active-Extends first now r video c e h = take_media-Extends true first now r.sequence c e h
  act_active-Extends true now r ping c e h = ground arith
  act_active-Extends false now r ping c e h = ground arith
  act_active-Extends true now r camera c e h = ground arith
  act_active-Extends false now r camera c e h = ground arith
  act_active-Extends first now r invite c e h = absurd (cc h)
  act_active-Extends first now r accept c e h = absurd (cc h)
  act_active-Extends first now r reject c e h = absurd (cc h)
  act_active-Extends first now r cancel c e h = absurd (cc h)
  act_active-Extends first now r hangup c e h = absurd (cc h)
  act_active-Extends first now r other c e h = absurd (cc h)

  -- An operation on an active call of which the peer is alive.
  abbrev pub guarded : Bool → Num → Request → Action → Call Num → Verdict Num
  guarded first now r op c =
      if is_ringing c.stage
      then refuse voice_invalid
      else if N.less (N.num timeout_ms) (N.minus now (if first then c.tb else c.ta))
      then finish voice_invalid
      else act_active N first now r op c

  pub guarded-update :
      (first : Bool) (now : Num) (r : Request) (op : Action) (c e : Call Num)
      → guarded first now r op c ≡ update e
      → (is_ringing c.stage ≡ false) × (act_active N first now r op c ≡ update e)
  guarded-update first now r op c e h = ground arith

  -- What lets the script update a call: its two copies are of this call, and the caller of the script is
  -- one end of it, by its account, device and current session, with the peer's.
  abbrev pub IsParty : Request → Text → Call Num → Type 0
  IsParty r ps c =
      (c.id ≡ r.call)
      × (((c.a ≡ r.uid)
            × (c.b ≡ r.peer)
            × (c.sa ≡ r.session)
            × (c.sb ≡ ps)
            × (c.da ≡ r.device)
            × (c.db ≡ r.peer_device))
          ⊎ ((c.b ≡ r.uid)
              × (c.a ≡ r.peer)
              × (c.sb ≡ r.session)
              × (c.sa ≡ ps)
              × (c.db ≡ r.device)
              × (c.da ≡ r.peer_device)))

  -- The devices and sessions of the two ends, from the script's tests.
  ends-IsParty :
      (r : Request) (ps : Text) (c : Call Num)
      → text_eq c.id r.call ≡ true
      → (not (is_first r c) && not (is_second r c)) ≡ false
      → devices_match (is_first r c) r c ≡ true
      → sessions_match (is_first r c) r ps c ≡ true
      → IsParty r ps c
  ends-IsParty r ps c i p d s = (
    (text_eq_iff c.id r.call).0 i,
    elim (Bool-cases (is_first r c)) [
      | inl first ↦ inl (
          ground (
            arith,
            int_eq_iff c.a r.uid,
            int_eq_iff c.b r.peer,
            rw first at d,
            rw first at s,
            text_eq_iff c.sa r.session,
            text_eq_iff c.sb ps,
            text_eq_iff c.da r.device,
            text_eq_iff c.db r.peer_device,
          ))
      | inr second ↦ inr (
          ground (
            arith,
            int_eq_iff c.b r.uid,
            int_eq_iff c.a r.peer,
            rw second at d,
            rw second at s,
            text_eq_iff c.sb r.session,
            text_eq_iff c.sa ps,
            text_eq_iff c.db r.device,
            text_eq_iff c.da r.peer_device,
          ))
    ],
  )

  -- Either the script refuses and leaves the call as it is, or its caller is one end of the call, by its
  -- account, device and current session and those of the peer, and the verdict is the operation's.
  pub decide-IsParty :
      (now : Num) (r : Request) (ps : Text) (c d : Call Num)
      → ((code : ℕ) × (decide N now r ps c d ≡ refuse code))
        ⊎ (IsParty r ps c × (decide N now r ps c d ≡ act N (is_first r c) now r r.action c))
  unfolding decide
  decide-IsParty now r ps c d =
      elim (Bool-cases (not (text_eq c.id r.call) || not (text_eq d.id r.call))) [
        | inl g1 ↦ inl (voice_invalid, rw g1 refl)
        | inr g1 ↦ elim (Bool-cases (not (is_first r c) && not (is_second r c))) [
          | inl g2 ↦ inl (voice_invalid, rw (g1, g2) refl)
          | inr g2 ↦ elim (Bool-cases (devices_match (is_first r c) r c)) [
            | inr g3 ↦ inl (token_invalid, rw (g1, g2, g3) refl)
            | inl g3 ↦ elim (Bool-cases (sessions_match (is_first r c) r ps c)) [
              | inr g4 ↦ inl (token_invalid, rw (g1, g2, g3, g4) refl)
              | inl g4 ↦ inr (ends-IsParty r ps c (ground arith) g2 g3 g4, rw (g1, g2, g3, g4) refl)
            ]
          ]
        ]
      ]

  pub decide-acts :
      (now : Num) (r : Request) (ps : Text) (c d e : Call Num)
      → decide N now r ps c d ≡ update e
      → IsParty r ps c × (act N (is_first r c) now r r.action c ≡ update e)
  decide-acts now r ps c d e h = elim (decide-IsParty now r ps c d) [
    | inl (code, g) ↦ absurd (cc (g, h))
    | inr (p, g) ↦ (p, sym g ∙ h)
  ]

  act_live-Extends :
      (first : Bool) (now : Num) (r : Request) (op : Action) (c e : Call Num)
      → act_live N first now r op c ≡ update e
      → Extends c e
  act_live-Extends first now r accept c e h = ground arith
  act_live-Extends first now r invite c e h =
      act_active-Extends first now r invite c e (guarded-update first now r invite c e h).1
  act_live-Extends first now r reject c e h =
      act_active-Extends first now r reject c e (guarded-update first now r reject c e h).1
  act_live-Extends first now r cancel c e h =
      act_active-Extends first now r cancel c e (guarded-update first now r cancel c e h).1
  act_live-Extends first now r hangup c e h =
      act_active-Extends first now r hangup c e (guarded-update first now r hangup c e h).1
  act_live-Extends first now r frame c e h =
      act_active-Extends first now r frame c e (guarded-update first now r frame c e h).1
  act_live-Extends first now r video c e h =
      act_active-Extends first now r video c e (guarded-update first now r video c e h).1
  act_live-Extends first now r ping c e h =
      act_active-Extends first now r ping c e (guarded-update first now r ping c e h).1
  act_live-Extends first now r camera c e h =
      act_active-Extends first now r camera c e (guarded-update first now r camera c e h).1
  act_live-Extends first now r other c e h =
      act_active-Extends first now r other c e (guarded-update first now r other c e h).1

  -- An operation other than an end of the call.
  abbrev pub ending : Action → Bool
  ending hangup = true
  ending reject = true
  ending cancel = true
  ending op = false

  pub act-live :
      (first : Bool) (now : Num) (r : Request) (op : Action) (c e : Call Num)
      → act N first now r op c ≡ update e
      → (ending op ≡ false) × (act_live N first now r op c ≡ update e)
  act-live first now r hangup c e h = absurd (cc h)
  act-live first now r reject c e h = absurd (ground arith)
  act-live first now r cancel c e h = absurd (ground arith)
  act-live first now r invite c e h = ground arith
  act-live first now r accept c e h = ground arith
  act-live first now r frame c e h = ground arith
  act-live first now r video c e h = ground arith
  act-live first now r ping c e h = ground arith
  act-live first now r camera c e h = ground arith
  act-live first now r other c e h = ground arith

  -- An update keeps the call's id, ends and medium; no sequence number falls, and a call that was
  -- answered does not ring again.
  pub decide-Extends :
      (now : Num) (r : Request) (ps : Text) (c d e : Call Num)
      → decide N now r ps c d ≡ update e
      → Extends c e
  decide-Extends now r ps c d e h =
      act_live-Extends (is_first r c) now r r.action c e
        (act-live (is_first r c) now r r.action c e (decide-acts now r ps c d e h).1).1
