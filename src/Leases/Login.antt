-- ===== src/Leases/Login.antt =====
-- Registering a session: it needs a live credential, publishes the three leases of its slot together,
-- consumes the credential, and leaves the other slots alone.
use cpp_chat.Base.{
  if◌then◌else◌, Bool-cases, length, length-append, Text, ℤ, ◌≡◌, refl, sym, ap, ◌∙◌, ◌≢◌, inl, inr,
  Bool, true, false, ◌||◌, none, some, ◌∷◌, arith,
}
use cpp_chat.Redis.{Redis, IsRedis}
use cpp_chat.Leases.{
  active_session_seconds, device_key, user_session, user_ip, resource_token, pending_token,
  token_key, holds, is_credential, register_script,
}
use cpp_chat.Leases.Keys.{
  user_session-user_ip, user_session-resource_token, user_ip-resource_token, user_session-utoken,
  user_ip-utoken, resource_token-utoken, user_session-injective, user_ip-injective,
  resource_token-injective,
}
use cpp_chat.Leases.Release.{holds_iff, Unchanged}

token_key-pending : (uid : ℤ) (token : Text) → token_key uid token ≢ pending_token uid
token_key-pending uid token e =
    omega (arith, ap length e, length-append (pending_token uid) (58 ∷ token))

module _ (R : Redis) where
  open R use {State, get, leased, set_for, del}

  -- One of the three keys holds the token under a lease.
  abbrev pub authorised : ℤ → Text → Text → State → Bool
  authorised uid device token s =
      is_credential R (pending_token uid) token s
      || (is_credential R (token_key uid token) token s
          || is_credential R (resource_token (device_key uid device)) token s)

  -- What a login with `token` leaves in Redis.
  pub record Registered (uid : ℤ) (device token sid server : Text) (s : State) : Type 0 where
    pub session : get (user_session (device_key uid device)) s ≡ some sid
    pub credential : get (resource_token (device_key uid device)) s ≡ some token
    pub routed : get (user_ip (device_key uid device)) s ≡ some server
    pub consumed : get (token_key uid token) s ≡ none
    pub replaced : get (pending_token uid) s ≢ some token

module _ (R : Redis) (L : IsRedis R) (uid : ℤ) (device token sid server : Text) where
  open R use {State, get, leased, set_for, del}
  open L use {get_set, get_set_other, get_del, get_del_other}

  -- The writes of the script, before the pending credential is consumed.
  abbrev published : State → State
  published s =
      let id = device_key uid device in
      set_for (user_ip id) server active_session_seconds (
        set_for (user_session id) sid active_session_seconds
          (set_for (resource_token id) token active_session_seconds s))

  abbrev consume : State → State
  consume c =
      del (token_key uid token)
        (if holds (get (pending_token uid) c) token then del (pending_token uid) c else c)

  published-session :
      (s : State) → get (user_session (device_key uid device)) (published s) ≡ some sid
  published-session s =
      get_set_other (user_ip _) server _ _ _ (user_session-user_ip _ _)
      ∙ get_set (user_session _) sid _ _ (omega arith)

  published-credential :
      (s : State) → get (resource_token (device_key uid device)) (published s) ≡ some token
  published-credential s =
      get_set_other (user_ip _) server _ _ _ (λ e. user_ip-resource_token _ _ (sym e))
      ∙ get_set_other (user_session _) sid _ _ _ (λ e. user_session-resource_token _ _ (sym e))
      ∙ get_set (resource_token _) token _ s (omega arith)

  published-routed : (s : State) → get (user_ip (device_key uid device)) (published s) ≡ some server
  published-routed s = get_set (user_ip _) server _ _ (omega arith)

  pub published-Unchanged :
      (other : Text) (s : State) → other ≢ device_key uid device → Unchanged R other s (published s)
  published-Unchanged other s h = (
    get_set_other (user_ip _) server _ _ _ (user_session-user_ip _ _)
        ∙ get_set_other (user_session _) sid _ _ _ (λ e. h (user_session-injective _ _ e))
        ∙ get_set_other (resource_token _) token _ _ s (user_session-resource_token _ _),
    get_set_other (user_ip _) server _ _ _ (λ e. user_ip-resource_token _ _ (sym e))
        ∙ get_set_other (user_session _) sid _ _ _ (λ e. user_session-resource_token _ _ (sym e))
        ∙ get_set_other (resource_token _) token _ _ s (λ e. h (resource_token-injective _ _ e)),
    get_set_other (user_ip _) server _ _ _ (λ e. h (user_ip-injective _ _ e))
        ∙ get_set_other (user_session _) sid _ _ _ (λ e. user_session-user_ip _ _ (sym e))
        ∙ get_set_other (resource_token _) token _ _ s (user_ip-resource_token _ _),
  )

  -- The keys of the slots are not those of pending credentials.
  consume-other :
      (k : Text) (c : State)
      → k ≢ token_key uid token
      → k ≢ pending_token uid
      → get k (consume c) ≡ get k c
  consume-other k c h g =
      get_del_other (token_key uid token) k _ h
      ∙ elim (Bool-cases (holds (get (pending_token uid) c) token)) [
        | inl e ↦ rw e (get_del_other (pending_token uid) k c g)
        | inr e ↦ rw e refl
      ]

  pub consume-Unchanged : (id : Text) (c : State) → Unchanged R id c (consume c)
  consume-Unchanged id c = (
    consume-other (user_session id) c (user_session-utoken id _) (user_session-utoken id _),
    consume-other (resource_token id) c (resource_token-utoken id _) (resource_token-utoken id _),
    consume-other (user_ip id) c (user_ip-utoken id _) (user_ip-utoken id _),
  )

  consume-replaced : (c : State) → get (pending_token uid) (consume c) ≢ some token
  consume-replaced c h =
      let h' =
        sym (
          get_del_other (token_key uid token) (pending_token uid) _
            (λ e. token_key-pending uid token (sym e)))
        ∙ h in
      elim (Bool-cases (holds (get (pending_token uid) c) token)) [
        | inl e ↦ absurd (cc (get_del (pending_token uid) c, rw e at h'))
        | inr e ↦ absurd (cc (e, (holds_iff _ _).1 (rw e at h')))
      ]

  pub consume-Registered :
      (s : State) → Registered R uid device token sid server (consume (published s))
  consume-Registered s =
      let u = consume-Unchanged (device_key uid device) (published s) in
      record {
        session = u.0 ∙ published-session s;
        credential = u.1 ∙ published-credential s;
        routed = u.2 ∙ published-routed s;
        consumed = get_del (token_key uid token) _;
        replaced = consume-replaced (published s);
      }

  pub register_script-authorised :
      (s : State)
      → authorised R uid device token s ≡ true
      → register_script R uid device token sid server s ≡ (consume (published s), 1)
  unfolding register_script
  register_script-authorised s a = rw a refl

  pub register_script-refused :
      (s : State)
      → authorised R uid device token s ≡ false
      → register_script R uid device token sid server s ≡ (s, 0)
  unfolding register_script
  register_script-refused s a = rw a refl
