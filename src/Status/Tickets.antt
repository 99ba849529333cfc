-- ===== src/Status/Tickets.antt =====
-- The tokens of StatusServer/StatusServiceImpl.cpp: what Login accepts, and that what GetChatServer issues
-- is accepted by Login and by the chat server.
use cpp_chat.Base.{
  ◌==◌, if◌then◌else◌, Bool-cases, length, Text, bytes, text_eq, text_eq_iff, text_eq_refl,
  is_positive, ℤ, to_string, ℕ, ◌≡◌, refl, sym, ap, subst, ◌∙◌, ◌≢◌, ◌⊎◌, inl, inr, Bool, true,
  false, not, ◌&&◌, ◌||◌, Option, none, some, [], ◌∷◌, ◌++◌, arith,
}
use cpp_chat.Redis.{Redis, IsRedis, Fate, answered, not_run, reply_lost}
use cpp_chat.Leases.{
  success, token_invalid, valid_device, resource_token, pending_token, token_key, holds, read_reply,
  read, is_credential, register_session, ReadStatus, found, missing, error,
}
use cpp_chat.Leases.Once.{register_session-Registered}
use cpp_chat.Status.{
  uid_invalid, pending_token_seconds, check_read, get_chat_server, status_login, Chosen, Fates,
}

abbrev pub all_answered : Fates
all_answered = record {
  issued = answered;
  pending = answered;
  active = answered;
  active_android = answered;
}

holding :
    (o : Option Text) (b : Bool) (token : Text) (otherwise : ℕ)
    → check_read (if true && not b then missing else read_reply o) token otherwise
      ≡ (if holds o token && b then success else otherwise)
holding none b token otherwise = ground arith
holding (some v) b token otherwise = ground arith

-- A read that fails or finds another value does not accept the token.
checked :
    (r : ReadStatus) (token : Text) (otherwise : ℕ)
    → check_read r token otherwise ≡ success
    → (r ≡ found token) ⊎ (otherwise ≡ success)
checked error token otherwise h = absurd (omega (arith, h))
checked missing token otherwise h = inr h
checked (found value) token otherwise h = elim (Bool-cases (text_eq value token)) [
  | inl same ↦ inl (ap found ((text_eq_iff value token).0 same))
  | inr apart ↦ inr (ground arith)
]

first_true :
    (a b c d : Bool)
    → (if a
        then success
        else if b
        then success
        else if c
        then success
        else if d
        then success
        else token_invalid)
      ≡ (if a || (b || (c || d)) then success else token_invalid)
first_true a b c d = ground arith

filled : (t : Text) → t ≢ [] → (length t == 0) ≡ false
filled [] h = absurd (h refl)
filled (c ∷ t) h = ground arith

module _ (R : Redis) where
  open R use {State, get, leased}

  -- The token is under one of the four keys, and that key expires.
  unfoldable pub is_known : ℤ → Text → State → Bool
  is_known uid token s =
      is_credential R (token_key uid token) token s
      || (is_credential R (pending_token uid) token s
          || (is_credential R (resource_token (to_string uid)) token s
              || is_credential R (resource_token (to_string uid ++ bytes ":android")) token s))

  check_answered :
      (key token : Text) (otherwise : ℕ) (s : State)
      → check_read (read R answered key true s) token otherwise
        ≡ (if is_credential R key token s then success else otherwise)
  unfolding read
  check_answered key token otherwise s = holding (get key s) (leased key s) token otherwise

  found_credential :
      (fate : Fate) (key token : Text) (s : State)
      → read R fate key true s ≡ found token
      → is_credential R key token s ≡ true
  unfolding read
  found_credential answered key token s h = stored_credential (get key s) (leased key s) h
    where
      stored_credential :
          (o : Option Text) (b : Bool)
          → (if true && not b then missing else read_reply o) ≡ found token
          → (holds o token && b) ≡ true
      stored_credential o false h = absurd (cc h)
      stored_credential none true h = absurd (cc h)
      stored_credential (some v) true h =
          let same : v ≡ token = cc h in rw (same, text_eq_refl token)
  found_credential not_run key token s h = absurd (cc h)
  found_credential reply_lost key token s h = absurd (cc h)

  module _ (uid : ℤ) (token : Text) (s : State) where
    abbrev reads : Fates → ℕ
    reads f = check_read (read R f.issued (token_key uid token) true s) token (
        check_read (read R f.pending (pending_token uid) true s) token (
          check_read (read R f.active (resource_token (to_string uid)) true s) token (
            check_read
              (read R f.active_android (resource_token (to_string uid ++ bytes ":android")) true s)
              token token_invalid)))

    reads-is_known : reads all_answered ≡ (if is_known uid token s then success else token_invalid)
    unfolding is_known
    reads-is_known =
        let k1 = token_key uid token in
        let k2 = pending_token uid in
        let k3 = resource_token (to_string uid) in
        let k4 = resource_token (to_string uid ++ bytes ":android") in
        let check = λ (k : Text) (n : ℕ). check_read (read R answered k true s) token n in
        let test = λ (k : Text) (n : ℕ). if is_credential R k token s then success else n in
        ap (λ n. check k1 (check k2 (check k3 n))) (check_answered k4 token token_invalid s)
        ∙ ap (λ n. check k1 (check k2 n)) (check_answered k3 token (test k4 token_invalid) s)
        ∙ ap (check k1) (check_answered k2 token (test k3 (test k4 token_invalid)) s)
        ∙ check_answered k1 token (test k2 (test k3 (test k4 token_invalid))) s
        ∙ first_true (is_credential R k1 token s) (is_credential R k2 token s)
            (is_credential R k3 token s) (is_credential R k4 token s)

    reads-known : (f : Fates) → reads f ≡ success → is_known uid token s ≡ true
    unfolding is_known
    reads-known f h =
        let k1 = token_key uid token in
        let k2 = pending_token uid in
        let k3 = resource_token (to_string uid) in
        let k4 = resource_token (to_string uid ++ bytes ":android") in
        elim (checked (read R f.issued k1 true s) token _ h) [
          | inl e ↦ ground (arith, found_credential f.issued k1 token s e)
          | inr h2 ↦ elim (checked (read R f.pending k2 true s) token _ h2) [
            | inl e ↦ ground (arith, found_credential f.pending k2 token s e)
            | inr h3 ↦ elim (checked (read R f.active k3 true s) token _ h3) [
              | inl e ↦ ground (arith, found_credential f.active k3 token s e)
              | inr h4 ↦ elim (checked (read R f.active_android k4 true s) token _ h4) [
                | inl e ↦ ground (arith, found_credential f.active_android k4 token s e)
                | inr h5 ↦ absurd (omega (arith, h5))
              ]
            ]
          ]
        ]

  accepted :
      (f : Fates) (uid : ℤ) (token : Text) (s : State)
      → status_login R f uid token s ≡ success
      → is_known uid token s ≡ true
  unfolding status_login
  accepted f uid token s h = reads-known uid token s f (ground arith)

  -- What Login answers when all its reads are answered.
  abbrev pub login_answer : ℤ → Text → State → ℕ
  login_answer uid token s =
      if not (is_positive uid)
      then uid_invalid
      else if length token == 0
      then token_invalid
      else if is_known uid token s
      then success
      else token_invalid

  -- Login of the status server accepts a token only if Redis has it, with a time to live, under the
  -- user's issued, pending or active keys, whatever its reads meet; and if every read is answered, it
  -- answers success exactly for such a token that is not empty, of a user whose id is positive.
  pub status_login-is_known :
      (f : Fates) (uid : ℤ) (token : Text) (s : State)
      → (status_login R all_answered uid token s ≡ login_answer uid token s)
        × ((status_login R f uid token s ≢ success) ⊎ (is_known uid token s ≡ true))
  unfolding status_login
  status_login-is_known f uid token s = (
    rw (reads-is_known uid token s) refl,
    elim (Bool-cases (is_known uid token s)) [
      | inl known ↦ inr known
      | inr unknown ↦ inl (λ h. cc (accepted f uid token s h, unknown))
    ],
  )

  known_login :
      (uid : ℤ) (token : Text) (s : State)
      → is_positive uid ≡ true
      → token ≢ []
      → is_known uid token s ≡ true
      → status_login R all_answered uid token s ≡ success
  known_login uid token s p t k =
      (status_login-is_known all_answered uid token s).0 ∙ rw (p, filled token t, k)

  module _ (laws : IsRedis R) (uid : ℤ) (token : Text) (c : Chosen) (s : State) where
    abbrev issued_state : State
    issued_state = R.set_for (token_key uid token) token pending_token_seconds s

    issued_credential : is_credential R (token_key uid token) token issued_state ≡ true
    issued_credential =
        rw
          (
            laws.get_set (token_key uid token) token pending_token_seconds s (omega arith),
            laws.leased_set (token_key uid token) token pending_token_seconds s (omega arith),
          )
          (ground (arith, text_eq_refl token))

    issued_lem :
        (get_chat_server R answered uid token c s).1.code ≡ success
        → (is_positive uid ≡ true) × ((get_chat_server R answered uid token c s).0 ≡ issued_state)
    unfolding get_chat_server
    issued_lem h = elim (Bool-cases (is_positive uid)) [
      | inr bad ↦ absurd (ground arith)
      | inl good ↦ elim (Bool-cases (c.error_code == success)) [
        | inr failed ↦ absurd (ground arith)
        | inl chosen ↦ (good, rw (good, chosen))
      ]
    ]

    registered_lem :
        (session server device : Text)
        → valid_device device ≡ true
        → (register_session R answered uid session server token device issued_state).1 ≡ success
    registered_lem session server device v =
        elim (register_session-Registered R laws uid device token session server issued_state v) [
          | inl accepted ↦ accepted.1
          | inr refused ↦ absurd (ground (arith, issued_credential, refused.0))
        ]

    issued_known : is_known uid token issued_state ≡ true
    unfolding is_known
    issued_known = ground (arith, issued_credential)

    -- A token that GetChatServer hands out is accepted, until something else happens, by the Login of
    -- the status server and by the chat server's RegisterSession for any session on a known device.
    pub get_chat_server-admits :
        (session server device : Text)
        → token ≢ []
        → valid_device device ≡ true
        → (get_chat_server R answered uid token c s).1.code ≡ success
        → let s' = (get_chat_server R answered uid token c s).0 in
          (status_login R all_answered uid token s' ≡ success)
          × ((register_session R answered uid session server token device s').1 ≡ success)
    get_chat_server-admits session server device t v h =
        let r = issued_lem h in
        subst
          (λ s'.
            (status_login R all_answered uid token s' ≡ success)
            × ((register_session R answered uid session server token device s').1 ≡ success))
          (sym r.1)
          (
            known_login uid token issued_state r.0 t issued_known,
            registered_lem session server device v,
          )
