-- ===== src/Login/Outcome.antt =====
-- The results of a login.
use cpp_chat.Base.{
  ◌==◌, ==_iff, Bool-cases, length, Text, text_eq, is_positive, ℤ, ℕ, ◌≡◌, refl, sym, ap, ◌∙◌, ◌≢◌,
  ◌⊎◌, inl, inr, Bool, true, false, not, ◌&&◌, ◌||◌, Option, none, some, arith,
}
use cpp_chat.Redis.{Redis, IsRedis, Fate, answered, not_run, reply_lost}
use cpp_chat.Leases.{success, valid_device, device_key, user_ip, read, register_session}
use cpp_chat.Leases.Login.{Registered}
use cpp_chat.Leases.Once.{register_session-Registered}
use cpp_chat.Session.{is_closed, bind_authenticated_user, Session}
use cpp_chat.Login.{
  node_health, previous_of, is_error, is_found, under_lock, find_credential, retire_local,
  retire_remote, bind_session, register_and_bind, after_kick, replace_previous, after_credential,
  log_in_locked, log_in, Node, World, Credential, matched, unmatched, broken,
}

some_eq : {m n : ℕ} → some m ≡ some n → m ≡ n
some_eq e = cc e

abbrev is_answered : Fate → Bool
is_answered answered = true
is_answered not_run = false
is_answered reply_lost = false

-- Without an answer, a registration does not succeed.
refused-end :
    (R : Redis) (fate : Fate) (uid : ℤ) (sid server token device : Text) (s : R.State)
    → is_answered fate ≡ false
    → (register_session R fate uid sid server token device s).1 ≢ success
unfolding register_session
refused-end R answered uid sid server token device s u h = absurd (cc u)
refused-end R not_run uid sid server token device s u h = ground arith
refused-end R reply_lost uid sid server token device s u h = ground arith

register-success :
    (R : Redis) (L : IsRedis R) (fate : Fate) (uid : ℤ) (sid server token device : Text)
    (s : R.State)
    → (register_session R fate uid sid server token device s).1 ≡ success
    → Registered R uid device token sid server
        (register_session R fate uid sid server token device s).0
register-success R L answered uid sid server token device s h =
    elim (Bool-cases (valid_device device)) [
      | inr invalid ↦ absurd (unfold register_session in omega (arith, rw invalid at h))
      | inl valid ↦ elim (register_session-Registered R L uid device token sid server s valid) [
        | inl (may, ok, r) ↦ r
        | inr (denied, e) ↦ absurd (omega (arith, sym h ∙ ap (λ x. x.1) e))
      ]
    ]
register-success R L not_run uid sid server token device s h =
    absurd (refused-end R not_run uid sid server token device s refl h)
register-success R L reply_lost uid sid server token device s h =
    absurd (refused-end R reply_lost uid sid server token device s refl h)

bind-bound :
    (uid : ℤ) (device : Text) (s : Session)
    → (bind_authenticated_user uid device s).1 ≡ true
    → ((bind_authenticated_user uid device s).0.user_id ≡ uid)
      × ((bind_authenticated_user uid device s).0.device ≡ device)
      × (is_closed (bind_authenticated_user uid device s).0 ≡ false)
unfolding bind_authenticated_user
bind-bound uid device s h = ground arith

module _ (R : Redis) (L : IsRedis R) (w : World R.State) (uid : ℤ)
    (token device sid self_name : Text) where
  open R use {State}

  -- What a login that succeeds leaves, from the state `k` that its registration left.
  pub record LoggedIn (k m : Node State) : Type 0 where
    pub leases : Registered R uid device w.status.1 sid self_name k.redis
    pub redis : m.redis ≡ (w.before_bind k).redis
    pub user : m.session.user_id ≡ uid
    pub device_bound : m.session.device ≡ device
    pub alive : is_closed m.session ≡ false
    pub occupies : m.occupant ≡ some (sid, m.session)

  bind-LoggedIn :
      (k : Node State)
      → Registered R uid device w.status.1 sid self_name k.redis
      → (bind_session R w uid sid device (w.before_bind k)).0 ≡ success
      → LoggedIn k (bind_session R w uid sid device (w.before_bind k)).1
  bind-LoggedIn k r h =
      elim (Bool-cases (bind_authenticated_user uid device (w.before_bind k).session).1) [
        | inr refused ↦ absurd (omega (arith, rw refused at h))
        | inl bound ↦
            let b = bind-bound uid device (w.before_bind k).session bound in
            rw bound (record {
              leases = r;
              redis = refl;
              user = b.0;
              device_bound = b.1;
              alive = b.2;
              occupies = refl;
            })
      ]

  register-LoggedIn :
      (n : Node State)
      → (register_and_bind R w uid sid self_name device n).0 ≡ success
      → (k : Node State) × LoggedIn k (register_and_bind R w uid sid self_name device n).1
  register-LoggedIn n h =
      let r = register_session R w.register_end uid sid self_name w.status.1 device n.redis in
      let k = record n { redis = r.0 } in
      elim (Bool-cases (r.1 == success)) [
        | inr failed ↦ absurd (cc (failed, (==_iff r.1 success).1 (rw failed at h)))
        | inl ok ↦ (
          k,
          rw ok (
              bind-LoggedIn k
                (register-success R L w.register_end uid sid self_name w.status.1 device n.redis
                  ((==_iff r.1 success).0 ok))
                (rw ok at h)),
        )
      ]

  retire_remote-code : (previous : Text) (s : State) → retire_remote R w previous s ≢ some success
  retire_remote-code previous s h =
      let health = read R w.health_read (node_health previous) true s in
      elim (Bool-cases (is_error health)) [
        | inl failed ↦ omega (arith, some_eq (rw failed at h))
        | inr known ↦ elim (Bool-cases (is_found health && not (w.kick == success))) [
          | inl kept ↦ omega (arith, some_eq (rw (known, kept) at h))
          | inr gone ↦ absurd (cc (rw (known, gone) at h))
        ]
      ]

  after_kick-LoggedIn :
      (o : Option ℕ) (n : Node State)
      → o ≢ some success
      → (after_kick R w o uid sid self_name device n).0 ≡ success
      → (k : Node State) × LoggedIn k (after_kick R w o uid sid self_name device n).1
  after_kick-LoggedIn none n g h = register-LoggedIn n h
  after_kick-LoggedIn (some code) n g h = absurd (g (ap some h))

  replace-LoggedIn :
      (n : Node State)
      → (replace_previous R w uid sid self_name device n).0 ≡ success
      → (k : Node State) × LoggedIn k (replace_previous R w uid sid self_name device n).1
  replace-LoggedIn n h =
      let previous = read R w.route_read (user_ip (device_key uid device)) false n.redis in
      elim (Bool-cases (is_error previous)) [
        | inl failed ↦ absurd (omega (arith, rw failed at h))
        | inr known ↦ elim (Bool-cases (text_eq (previous_of previous) self_name)) [
          | inl here ↦
              rw (known, here)
                (register-LoggedIn (retire_local R w uid sid n.occupant n) (rw (known, here) at h))
          | inr away ↦ elim (Bool-cases (length (previous_of previous) == 0)) [
            | inl nowhere ↦
                rw (known, away, nowhere) (register-LoggedIn n (rw (known, away, nowhere) at h))
            | inr there ↦
                rw (known, away, there)
                  (after_kick-LoggedIn (retire_remote R w (previous_of previous) n.redis) n
                    (retire_remote-code (previous_of previous) n.redis)
                    (rw (known, away, there) at h))
          ]
        ]
      ]

  credential-LoggedIn :
      (c : Credential) (n : Node State)
      → (after_credential R w c uid sid self_name device n).0 ≡ success
      → (c ≡ matched)
        × (k : Node State) × LoggedIn k (after_credential R w c uid sid self_name device n).1
  credential-LoggedIn broken n h = absurd (omega (arith, h))
  credential-LoggedIn unmatched n h = absurd (omega (arith, h))
  credential-LoggedIn matched n h = let r = replace-LoggedIn n h in (refl, r.0, r.1)

  credential-unmatched :
      (c : Credential) (n : Node State)
      → c ≢ matched
      → let r = after_credential R w c uid sid self_name device n in (r.0 ≢ success) × (r.1 ≡ n)
  credential-unmatched broken n u = (λ e. omega (arith, e), refl)
  credential-unmatched unmatched n u = (λ e. omega (arith, e), refl)
  credential-unmatched matched n u = absurd (u refl)

  -- Either the login ends before the lock with an error, or it is the locked part of one.
  log_in-locked :
      (n : Node State)
      → (((log_in R w uid token device sid self_name n).0 ≢ success)
          × ((log_in R w uid token device sid self_name n).1 ≡ n))
        ⊎ (log_in R w uid token device sid self_name n
            ≡ log_in_locked R w uid token device sid self_name (w.before_lock n))
  unfolding log_in
  log_in-locked n =
      elim (Bool-cases
        (not (valid_device device) || (is_closed n.session || is_positive n.session.user_id))) [
          | inl a ↦ inl (rw a (λ e. omega (arith, e)), rw a refl)
          | inr a ↦ elim (Bool-cases (w.status.0 == success)) [
            | inr b ↦ inl (rw (a, b) (λ e. absurd (cc (b, (==_iff _ _).1 e))), rw (a, b) refl)
            | inl b ↦ elim (Bool-cases w.user_found) [
              | inr c ↦ inl (rw (a, b, c) (λ e. omega (arith, e)), rw (a, b, c) refl)
              | inl c ↦ elim (Bool-cases (w.applications == success)) [
                | inr d ↦
                    inl (
                      rw (a, b, c, d) (λ e. absurd (cc (d, (==_iff _ _).1 e))),
                      rw (a, b, c, d) refl,
                    )
                | inl d ↦ elim (Bool-cases (w.friends == success)) [
                  | inr f ↦ inl (
                    rw (a, b, c, d, f) (λ e. absurd (cc (f, (==_iff _ _).1 e))),
                    rw (a, b, c, d, f) refl,
                  )
                  | inl f ↦ inr (rw (a, b, c, d, f) refl)
                ]
              ]
            ]
          ]
        ]

  under_lock-LoggedIn :
      (b : Bool) (c : Credential) (n : Node State)
      → (under_lock b n (after_credential R w c uid sid self_name device n)).0 ≡ success
      → (c ≡ matched)
        × (k : Node State) × LoggedIn k
            (under_lock b n (after_credential R w c uid sid self_name device n)).1
  under_lock-LoggedIn true c n h = credential-LoggedIn c n h
  under_lock-LoggedIn false c n h = absurd (omega (arith, h))

  under_lock-unmatched :
      (b : Bool) (c : Credential) (n : Node State)
      → c ≢ matched
      → let r = under_lock b n (after_credential R w c uid sid self_name device n) in
        (r.0 ≢ success) × (r.1 ≡ n)
  under_lock-unmatched true c n u = credential-unmatched c n u
  under_lock-unmatched false c n u = (λ e. omega (arith, e), refl)

  locked-LoggedIn :
      (n : Node State)
      → (log_in_locked R w uid token device sid self_name n).0 ≡ success
      → (find_credential R w uid token device n.redis ≡ matched)
        × (k : Node State) × LoggedIn k (log_in_locked R w uid token device sid self_name n).1
  unfolding log_in_locked
  locked-LoggedIn n h =
      under_lock-LoggedIn w.lock_taken (find_credential R w uid token device n.redis) n h

  -- A login that succeeds found the token in Redis under the lock; its registration has published the
  -- session, credential and route of its slot; and the connection, which is open, is bound to the user
  -- and the device and is the session of the slot in the node's table.
  pub log_in-LoggedIn :
      (n : Node State)
      → (log_in R w uid token device sid self_name n).0 ≡ success
      → (find_credential R w uid token device (w.before_lock n).redis ≡ matched)
        × (k : Node State) × LoggedIn k (log_in R w uid token device sid self_name n).1
  log_in-LoggedIn n h = elim (log_in-locked n) [
    | inl (failed, same) ↦ absurd (failed h)
    | inr e ↦ rw e (locked-LoggedIn (w.before_lock n) (rw e at h))
  ]

  locked-unmatched :
      (n : Node State)
      → find_credential R w uid token device n.redis ≢ matched
      → let r = log_in_locked R w uid token device sid self_name n in (r.0 ≢ success) × (r.1 ≡ n)
  unfolding log_in_locked
  locked-unmatched n u =
      under_lock-unmatched w.lock_taken (find_credential R w uid token device n.redis) n u

  -- Without its token in Redis a login fails, and it displaces nobody: the node and Redis are as other
  -- threads left them.
  pub log_in-unmatched :
      (n : Node State)
      → find_credential R w uid token device (w.before_lock n).redis ≢ matched
      → let r = log_in R w uid token device sid self_name n in
        (r.0 ≢ success) × ((r.1 ≡ n) ⊎ (r.1 ≡ w.before_lock n))
  log_in-unmatched n u = elim (log_in-locked n) [
    | inl (failed, same) ↦ (failed, inl same)
    | inr e ↦ rw e (let l = locked-unmatched (w.before_lock n) u in (l.0, inr l.1))
  ]
