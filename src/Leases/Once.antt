-- ===== src/Leases/Once.antt =====
-- The results of RegisterSession, and that a credential admits one login.
use cpp_chat.Base.{
  Bool-cases, Text, ℤ, ◌≡◌, refl, sym, ◌∙◌, ◌≢◌, ◌⊎◌, inl, inr, true, false, Option, some,
}
use cpp_chat.Redis.{Redis, IsRedis, Fate, answered, not_run, reply_lost}
use cpp_chat.Leases.{
  success, token_invalid, valid_device, device_key, resource_token, pending_token, holds,
  register_script, registered, register_session,
}
use cpp_chat.Leases.Keys.{device_key-injective}
use cpp_chat.Leases.Release.{holds_iff, Unchanged}
use cpp_chat.Leases.Login.{
  authorised, published-Unchanged, consume-Unchanged, consume-Registered,
  register_script-authorised, register_script-refused, Registered,
}

holds-false : (o : Option Text) (v : Text) → o ≢ some v → holds o v ≡ false
holds-false o v h = elim (Bool-cases (holds o v)) [
  | inl e ↦ absurd (h ((holds_iff o v).0 e))
  | inr e ↦ e
]

module _ (R : Redis) (L : IsRedis R) (uid : ℤ) (device token sid server : Text) where
  open R use {State, get, leased}

  -- Once Redis answers, a registration on a valid device succeeds exactly if one of the three keys
  -- holds the token under a lease. Then the session, credential and route of the slot are those of this
  -- login and the pending credential is consumed; otherwise it is refused and Redis is as before.
  pub register_session-Registered :
      (s : State)
      → valid_device device ≡ true
      → let r = register_session R answered uid sid server token device s in
        ((authorised R uid device token s ≡ true)
          × (r.1 ≡ success)
          × Registered R uid device token sid server r.0)
        ⊎ ((authorised R uid device token s ≡ false) × (r ≡ (s, token_invalid)))
  unfolding register_session
  register_session-Registered s v = elim (Bool-cases (authorised R uid device token s)) [
    | inl may ↦ inl (
      may,
      rw (v, register_script-authorised R L uid device token sid server s may) refl,
      rw (v, register_script-authorised R L uid device token sid server s may)
          (consume-Registered R L uid device token sid server s),
    )
    | inr denied ↦
        inr (denied, rw (v, register_script-refused R L uid device token sid server s denied) refl)
  ]

  pub register_script-Unchanged :
      (id : Text) (s : State)
      → id ≢ device_key uid device
      → Unchanged R id s (register_script R uid device token sid server s).0
  register_script-Unchanged id s h = elim (Bool-cases (authorised R uid device token s)) [
    | inl may ↦ rw (register_script-authorised R L uid device token sid server s may) (
        let a = published-Unchanged R L uid device token sid server id s h in
        let b = consume-Unchanged R L uid device token sid server id _ in
        (b.0 ∙ a.0, b.1 ∙ a.1, b.2 ∙ a.2))
    | inr denied ↦
        rw (register_script-refused R L uid device token sid server s denied) (refl, refl, refl)
  ]

  registered-Unchanged :
      (fate : Fate) (id : Text) (s : State)
      → Unchanged R id s (register_script R uid device token sid server s).0
      → Unchanged R id s (registered R fate (register_script R uid device token sid server s) s).0
  registered-Unchanged answered id s u = u
  registered-Unchanged not_run id s u = (refl, refl, refl)
  registered-Unchanged reply_lost id s u = u

  -- However a registration ends, it leaves the session, credential and route of every other device and
  -- of every other user as they were.
  pub register_session-Unchanged :
      (fate : Fate) (uid' : ℤ) (device' : Text) (s : State)
      → valid_device device' ≡ true
      → (uid' ≢ uid) ⊎ (device' ≢ device)
      → Unchanged R
          (device_key uid' device')
          s
          (register_session R fate uid sid server token device s).0
  unfolding register_session
  register_session-Unchanged fate uid' device' s v apart = elim (Bool-cases (valid_device device)) [
    | inr refused ↦ rw refused (refl, refl, refl)
    | inl valid ↦ rw valid (
        let h : device_key uid' device' ≢ device_key uid device = λ e.
          let same = device_key-injective uid' uid device' device v valid e in
          elim apart [ inl u ↦ u same.0 | inr d ↦ d same.1 ] in
        registered-Unchanged fate (device_key uid' device') s
          (register_script-Unchanged (device_key uid' device') s h))
  ]

  -- A credential admits one login: after a registration with it succeeded, no other device of the user
  -- can register with it, unless that device's own active credential was already this token.
  pub register_session-once :
      (device' sid' server' : Text) (s : State)
      → valid_device device ≡ true
      → valid_device device' ≡ true
      → device' ≢ device
      → get (resource_token (device_key uid device')) s ≢ some token
      → (register_session R answered uid sid server token device s).1 ≡ success
      → let t = (register_session R answered uid sid server token device s).0 in
        register_session R answered uid sid' server' token device' t ≡ (t, token_invalid)
  register_session-once device' sid' server' s v v' apart fresh ok =
      let t = (register_session R answered uid sid server token device s).0 in
      elim (register_session-Registered s v) [
        | inr (denied, e) ↦ absurd (cc (ok, e))
        | inl (may, o, r) ↦
            let u = register_session-Unchanged answered uid device' s v' (inr apart) in
            let unauthorised : authorised R uid device' token t ≡ false =
              rw
                (
                  r.consumed,
                  holds-false (get (pending_token uid) t) token r.replaced,
                  holds-false (get (resource_token (device_key uid device')) t) token
                      (λ h. fresh (sym u.1 ∙ h)),
                )
                refl in
            unfold register_session in
            rw (v', register_script-refused R L uid device' token sid' server' t unauthorised) refl
      ]
