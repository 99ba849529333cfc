-- ===== src/Calls/Invite.antt =====
-- An invitation that succeeds: both accounts were free, and both copies of the new call are written.
use cpp_chat.Base.{
  ◌==◌, Bool-cases, length, is_some, Text, bytes, text_eq, ◌≡◌, refl, ◌∙◌, inl, inr, true, false,
  not, ◌&&◌, ◌||◌, Option, none, some, arith,
}
use cpp_chat.Redis.{Redis, IsRedis, answered}
use cpp_chat.Leases.{success, redis_error, valid_device, device_key, user_session, holds}
use cpp_chat.Leases.Release.{holds_iff}
use cpp_chat.Calls.{or_else, Numbers, Request}
use cpp_chat.Calls.Script.{
  voice_key, rate_key, is_invite, new_call, invite_call, with_peer, voice_script, voice_transition,
  Codec,
}
use cpp_chat.Calls.Settle.{rate_key-voice_key, or_else-success, Copies, write_both-Copies}

module _ (R : Redis) (L : IsRedis R) (N : Numbers) (codec : Codec N.Num) where
  open R use {State, get, set_for}
  open L use {get_set, get_set_other}
  open N use {Num}
  open codec use {encode}

  -- Both accounts were free and the caller had not just called; the sessions of the call are the current
  -- ones of its two devices; both copies of the call are written; and the caller must wait.
  pub record Invited (now : Num) (r : Request) (s t : State) : Type 0 where
    pub peer_session : Text
    pub current : get (user_session (device_key r.uid r.device)) s ≡ some r.session
    pub peer : get (user_session (device_key r.peer r.peer_device)) s ≡ some peer_session
    pub free : Copies R L N codec r none s
    pub rested : get (rate_key r.uid) s ≡ none
    pub limited : get (rate_key r.uid) t ≡ some (bytes "1")
    pub written : Copies R L N codec r (some (encode (new_call N now r peer_session))) t

  is_some-none : (o : Option Text) → is_some o ≡ false → o ≡ none
  is_some-none none h = refl
  is_some-none (some v) h = absurd (cc h)

  -- What an invitation that succeeds needs of the keys of the call and leaves in them.
  invite_call-written :
      (now : Num) (r : Request) (ps : Text) (s : State)
      → (invite_call R N codec now r ps s).1 ≡ some success
      → let t = (invite_call R N codec now r ps s).0 in
        Copies R L N codec r none s
        × (get (rate_key r.uid) s ≡ none)
        × (get (rate_key r.uid) t ≡ some (bytes "1"))
        × Copies R L N codec r (some (encode (new_call N now r ps))) t
  invite_call-written now r ps s h =
      elim (Bool-cases (is_some (get (voice_key r.uid) s) || is_some (get (voice_key r.peer) s))) [
        | inl busy ↦ absurd (ground arith)
        | inr free ↦ elim (Bool-cases (is_some (get (rate_key r.uid) s))) [
          | inl limited ↦ absurd (ground arith)
          | inr rested ↦
              rw (free, rested)
                (let w =
                    write_both-Copies R L N codec (encode (new_call N now r ps)) 40 r s
                      (omega arith) in
                  (
                    (is_some-none _ (ground arith), is_some-none _ (ground arith)),
                    is_some-none _ rested,
                    get_set (rate_key r.uid) (bytes "1") 3 _ (omega arith),
                    (
                      get_set_other (rate_key r.uid) (bytes "1") (voice_key r.uid) 3 _
                            (rate_key-voice_key r.uid r.uid)
                          ∙ w.0,
                      get_set_other (rate_key r.uid) (bytes "1") (voice_key r.peer) 3 _
                            (rate_key-voice_key r.uid r.peer)
                          ∙ w.1,
                    ),
                  ))
        ]
      ]

  with_peer-written :
      (now : Num) (r : Request) (o : Option Text) (s : State)
      → is_invite r.action ≡ true
      → (with_peer R N codec now r o s).1 ≡ some success
      → let t = (with_peer R N codec now r o s).0 in
        (ps : Text) × (o ≡ some ps)
        × Copies R L N codec r none s
        × (get (rate_key r.uid) s ≡ none)
        × (get (rate_key r.uid) t ≡ some (bytes "1"))
        × Copies R L N codec r (some (encode (new_call N now r ps))) t
  with_peer-written now r none s i h = absurd (ground arith)
  with_peer-written now r (some ps) s i h =
      elim (Bool-cases (not (length r.peer_session == 0) && not (text_eq ps r.peer_session))) [
        | inl wrong ↦ absurd (ground arith)
        | inr right ↦
            let w = invite_call-written now r ps s (rw (right, i) at h) in
            (ps, refl, w.0, w.1, rw (right, i) w.2, rw (right, i) w.3)
      ]

  -- An invitation that reports success found both accounts without a call and its caller rested; it has
  -- written the new call, bound to the current sessions of both devices, to both accounts.
  pub voice_transition-Invited :
      (now : Num) (r : Request) (s : State)
      → is_invite r.action ≡ true
      → (voice_transition R N codec answered now r s).1 ≡ success
      → Invited now r s (voice_transition R N codec answered now r s).0
  unfolding voice_transition voice_script
  voice_transition-Invited now r s i h =
      let o = get (user_session (device_key r.peer r.peer_device)) s in
      elim (Bool-cases (not (valid_device r.device) || not (valid_device r.peer_device))) [
        | inl invalid ↦ absurd (ground arith)
        | inr valid ↦
            elim (Bool-cases
              (not (holds (get (user_session (device_key r.uid r.device)) s) r.session))) [
                | inl old ↦ absurd (ground arith)
                | inr held ↦
                    let k : or_else (with_peer R N codec now r o s).1 redis_error ≡ success =
                      rw (valid, held) at h in
                    let w =
                      with_peer-written now r o s i
                        (or_else-success (with_peer R N codec now r o s).1 k) in
                    record {
                      peer_session = w.0;
                      current = (holds_iff _ _).0 (ground arith);
                      peer = w.1;
                      free = w.2;
                      rested = w.3;
                      limited = rw (valid, held) w.4;
                      written = rw (valid, held) w.5;
                    }
              ]
      ]
