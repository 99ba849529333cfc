-- ===== src/Leases/Release.antt =====
-- Releasing a session removes the leases of its own slot only: compare and delete.
use cpp_chat.Base.{
  Bool-cases, Text, text_eq, text_eq_iff, ℤ, ◌≡◌, refl, sym, ◌∙◌, ◌≢◌, ◌↔◌, ◌⊎◌, inl, inr, true,
  false, Option, none, some, arith,
}
use cpp_chat.Redis.{Redis, IsRedis, Fate, answered, not_run, reply_lost}
use cpp_chat.Leases.{
  desktop, android, valid_device, device_key, user_session, user_ip, resource_token, holds,
  release_script, release_device, release_session,
}
use cpp_chat.Leases.Keys.{
  device_key-injective, user_session-user_ip, user_session-resource_token, user_ip-resource_token,
  user_session-injective, user_ip-injective, resource_token-injective, valid_device-desktop,
  valid_device-android,
}

pub holds_iff : (o : Option Text) (v : Text) → (holds o v ≡ true) ↔ (o ≡ some v)
holds_iff none v = ground arith
holds_iff (some w) v = ground (arith, text_eq_iff w v)

pub text_eq-false : (a b : Text) → text_eq a b ≡ false → a ≢ b
text_eq-false a b h e = absurd (cc (h, (text_eq_iff a b).1 e))

module _ (R : Redis) where
  open R use {State, get, set_for, del, expire}

  -- The session, the credential and the route of a slot.
  abbrev pub Unchanged : Text → State → State → Type 0
  Unchanged id s t =
      (get (user_session id) t ≡ get (user_session id) s)
      × (get (resource_token id) t ≡ get (resource_token id) s)
      × (get (user_ip id) t ≡ get (user_ip id) s)

  abbrev pub Gone : Text → State → Type 0
  Gone id s =
      (get (user_session id) s ≡ none)
      × (get (resource_token id) s ≡ none)
      × (get (user_ip id) s ≡ none)

module _ (R : Redis) (L : IsRedis R) where
  open R use {State, get, set_for, del, expire}
  open L use {get_del, get_del_other}

  three_dels-Gone :
      (id : Text) (s : State)
      → Gone R id (del (user_ip id) (del (resource_token id) (del (user_session id) s)))
  three_dels-Gone id s = (
    get_del_other (user_ip id) _ _ (user_session-user_ip id id)
        ∙ get_del_other (resource_token id) _ _ (user_session-resource_token id id)
        ∙ get_del (user_session id) s,
    get_del_other (user_ip id) _ _ (λ e. user_ip-resource_token id id (sym e))
        ∙ get_del (resource_token id) _,
    get_del (user_ip id) _,
  )

  three_dels-Unchanged :
      (id other : Text) (s : State)
      → other ≢ id
      → Unchanged R other s (del (user_ip id) (del (resource_token id) (del (user_session id) s)))
  three_dels-Unchanged id other s h = (
    get_del_other (user_ip id) _ _ (user_session-user_ip other id)
        ∙ get_del_other (resource_token id) _ _ (user_session-resource_token other id)
        ∙ get_del_other (user_session id) _ s (λ e. h (user_session-injective other id e)),
    get_del_other (user_ip id) _ _ (λ e. user_ip-resource_token id other (sym e))
        ∙ get_del_other (resource_token id) _ _ (λ e. h (resource_token-injective other id e))
        ∙ get_del_other (user_session id) _ s (λ e. user_session-resource_token id other (sym e)),
    get_del_other (user_ip id) _ _ (λ e. h (user_ip-injective other id e))
        ∙ get_del_other (resource_token id) _ _ (user_ip-resource_token other id)
        ∙ get_del_other (user_session id) _ s (λ e. user_session-user_ip id other (sym e)),
  )

  -- What a release does to a slot: nothing, or it was the slot of that session and is gone.
  abbrev pub Outcome : Text → ℤ → Text → Text → State → State → Type 0
  Outcome id uid device sid s t =
      Unchanged R id s t
      ⊎ ((id ≡ device_key uid device) × (get (user_session id) s ≡ some sid) × Gone R id t)

  release_script-Outcome :
      (id : Text) (uid : ℤ) (device sid : Text) (s : State)
      → Outcome id uid device sid s (release_script R uid device sid s)
  unfolding release_script
  release_script-Outcome id uid device sid s =
      elim (Bool-cases (holds (get (user_session (device_key uid device)) s) sid)) [
        | inr kept ↦ rw kept (inl (refl, refl, refl))
        | inl held ↦ rw held (elim (Bool-cases (text_eq id (device_key uid device))) [
          | inr other ↦
              inl (three_dels-Unchanged (device_key uid device) id s (text_eq-false _ _ other))
          | inl same ↦
              let e = (text_eq_iff id (device_key uid device)).0 same in
              rw e (inr (refl, (holds_iff _ _).0 held, three_dels-Gone (device_key uid device) s))
        ])
      ]

  pub release_device-Outcome :
      (id : Text) (fate : Fate) (uid : ℤ) (device sid : Text) (s : State)
      → Outcome id uid device sid s (release_device R fate uid device sid s).0
  release_device-Outcome id answered uid device sid s = release_script-Outcome id uid device sid s
  release_device-Outcome id not_run uid device sid s = inl (refl, refl, refl)
  release_device-Outcome id reply_lost uid device sid s = release_script-Outcome id uid device sid s

  -- An outcome for a slot of any user.
  abbrev Result : Text → ℤ → ℤ → Text → State → State → Type 0
  Result id uid' uid sid s t =
      Unchanged R id s t ⊎ ((uid' ≡ uid) × (get (user_session id) s ≡ some sid) × Gone R id t)

  Outcome-Result :
      (uid' uid : ℤ) (device' device sid : Text) (s t : State)
      → valid_device device' ≡ true
      → valid_device device ≡ true
      → Outcome (device_key uid' device') uid device sid s t
      → Result (device_key uid' device') uid' uid sid s t
  Outcome-Result uid' uid device' device sid s t v w (inl u) = inl u
  Outcome-Result uid' uid device' device sid s t v w (inr (e, h, g)) =
      inr ((device_key-injective uid' uid device' device v w e).0, h, g)

  Result-trans :
      (id : Text) (uid' uid : ℤ) (sid : Text) (s t u : State)
      → Result id uid' uid sid s t
      → Result id uid' uid sid t u
      → Result id uid' uid sid s u
  Result-trans id uid' uid sid s t u (inl a) (inl b) = inl (b.0 ∙ a.0, b.1 ∙ a.1, b.2 ∙ a.2)
  Result-trans id uid' uid sid s t u (inl a) (inr (e, h, g)) = inr (e, sym a.0 ∙ h, g)
  Result-trans id uid' uid sid s t u (inr (e, h, g)) (inl b) =
      inr (e, h, (b.0 ∙ g.0, b.1 ∙ g.1, b.2 ∙ g.2))
  Result-trans id uid' uid sid s t u (inr (e, h, g)) (inr (e', h', g')) = inr (e, h, g')

  -- However the two scripts of a release end, a slot of any user either keeps its session, credential
  -- and route, or it is a slot of this user that held the released session, and has lost all three: a
  -- release cannot revoke a later login, another device or another user.
  pub release_session-Unchanged :
      (first second : Fate) (uid uid' : ℤ) (sid device' : Text) (s : State)
      → valid_device device' ≡ true
      → let t = (release_session R first second uid sid s).0 in
        Unchanged R (device_key uid' device') s t
        ⊎ ((uid' ≡ uid)
            × (get (user_session (device_key uid' device')) s ≡ some sid)
            × Gone R (device_key uid' device') t)
  unfolding release_session
  release_session-Unchanged first second uid uid' sid device' s v =
      let id = device_key uid' device' in
      let r = release_device R first uid desktop sid s in
      let a =
        Outcome-Result uid' uid device' desktop sid s r.0 v valid_device-desktop
          (release_device-Outcome id first uid desktop sid s) in
      elim (Bool-cases r.1) [
        | inr stopped ↦ rw stopped a
        | inl going ↦ rw going (
            Result-trans id uid' uid sid s r.0 _ a (
              Outcome-Result uid' uid device' android sid r.0 _ v valid_device-android
                (release_device-Outcome id second uid android sid r.0)))
      ]

  release_script-released :
      (uid : ℤ) (device sid : Text) (s : State)
      → get (user_session (device_key uid device)) (release_script R uid device sid s) ≢ some sid
  unfolding release_script
  release_script-released uid device sid s h =
      elim (Bool-cases (holds (get (user_session (device_key uid device)) s) sid)) [
        | inl held ↦ absurd (cc ((three_dels-Gone (device_key uid device) s).0, rw held at h))
        | inr kept ↦ absurd (cc (kept, (holds_iff _ _).1 (rw kept at h)))
      ]

  -- When both scripts of a release are answered, it reports success and the session is in no slot of its
  -- user any more.
  pub release_session-released :
      (uid : ℤ) (sid device : Text) (s : State)
      → valid_device device ≡ true
      → let r = release_session R answered answered uid sid s in
        (r.1 ≡ true) × (get (user_session (device_key uid device)) r.0 ≢ some sid)
  unfolding release_session valid_device
  release_session-released uid sid device s v =
      let t = release_script R uid desktop sid s in
      let last = release_script R uid android sid t in
      let gone : get (user_session (device_key uid desktop)) last ≢ some sid = λ h.
        elim (release_script-Outcome (device_key uid desktop) uid android sid t) [
          | inl u ↦ release_script-released uid desktop sid s (sym u.0 ∙ h)
          | inr (e, k, g) ↦ absurd (cc (g.0, h))
        ] in
      (
        refl,
        elim (Bool-cases (text_eq device desktop)) [
          | inl d ↦ rw ((text_eq_iff device desktop).0 d) gone
          | inr n ↦
              rw ((text_eq_iff device android).0 (ground arith))
                (release_script-released uid android sid t)
        ],
      )
