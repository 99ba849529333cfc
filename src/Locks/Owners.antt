-- ===== src/Locks/Owners.antt =====
-- An owned key is taken only when it is free, and changed only by its owner.
use cpp_chat.Base.{
  ◌==◌, Bool-cases, Option-cases, length, Text, text_eq, text_eq_iff, is_positive, ℤ, pos, negsuc,
  ℕ, zero, suc, ◌<◌, ◌≡◌, refl, sym, ap, ◌∙◌, ◌≢◌, ◌⊎◌, inl, inr, true, false, not, ◌||◌, Option,
  none, some, List, [], ◌∷◌, arith,
}
use cpp_chat.Redis.{Redis, IsRedis, Fate, answered, not_run, reply_lost}
use cpp_chat.Leases.{holds}
use cpp_chat.Locks.{
  lock_key, health_key, seconds_of, set_new, attempt_result, resume, attempts, acquire,
  owner_result, publish_node, remove_node, Attempt,
}

seconds-positive : (t : ℤ) → is_positive t ≡ true → 0 < seconds_of t
seconds-positive (pos zero) h = absurd (cc h)
seconds-positive (pos (suc n)) h = omega arith
seconds-positive (negsuc n) h = absurd (cc h)

not_equal : (a b : Text) → a ≢ b → text_eq a b ≡ false
not_equal a b n = elim (Bool-cases (text_eq a b)) [
  | inl e ↦ absurd (n ((text_eq_iff a b).0 e))
  | inr e ↦ e
]

module _ (R : Redis) (L : IsRedis R) where
  open R use {State, get, set_for, del}
  open L use {get_set, get_del}

  attempt-result :
      (end : Fate) (key identifier : Text) (seconds : ℕ) (u : State)
      → let r = attempt_result R end identifier (set_new R key identifier seconds u) u in
        (r.1 ≡ none)
        ⊎ (r.1 ≡ some [])
        ⊎ ((get key u ≡ none) × (r ≡ (set_for key identifier seconds u, some identifier)))
  attempt-result answered key identifier seconds u = elim (Option-cases (get key u)) [
    | inl free ↦ inr (inr (free, rw free refl))
    | inr (v, taken) ↦ inl (rw taken refl)
  ]
  attempt-result not_run key identifier seconds u = inr (inl refl)
  attempt-result reply_lost key identifier seconds u = inr (inl refl)

  -- What a lock that was taken leaves: the key was free, and is the holder's.
  abbrev Held : Text → Text → ℕ → State → Type 0
  Held key identifier seconds t =
      (u : State) × (get key u ≡ none) × (t ≡ set_for key identifier seconds u)

  resumed-Held :
      (key identifier : Text) (seconds : ℕ) (r : State × Option Text) (rest : State → State × Text)
      (u : State)
      → (r.1 ≡ none)
        ⊎ (r.1 ≡ some [])
        ⊎ ((get key u ≡ none) × (r ≡ (set_for key identifier seconds u, some identifier)))
      → ((t : State) → (rest t).1 ≡ identifier → Held key identifier seconds (rest t).0)
      → identifier ≢ []
      → (resume R r rest).1 ≡ identifier
      → Held key identifier seconds (resume R r rest).0
  resumed-Held key identifier seconds (t, none) rest u c f n h = f t h
  resumed-Held key identifier seconds (t, some v) rest u c f n h = elim c [
    | inl e ↦ absurd (cc e)
    | inr (inl e) ↦ absurd (n (cc (h, e)))
    | inr (inr (free, e)) ↦ (u, free, ap (λ x. x.0) e)
  ]

  kept-owner : (fate : Fate) (s : State) → owner_result R fate (s, false) s ≡ (s, false)
  kept-owner answered s = refl
  kept-owner not_run s = refl
  kept-owner reply_lost s = refl

  attempts-Held :
      (key identifier : Text) (seconds : ℕ) (tries : List (Attempt R)) (s : State)
      → identifier ≢ []
      → (attempts R key identifier seconds tries s).1 ≡ identifier
      → Held key identifier seconds (attempts R key identifier seconds tries s).0
  unfolding attempts
  attempts-Held key identifier seconds [] s n h = absurd (n (sym h))
  attempts-Held key identifier seconds (a ∷ later) s n h =
      resumed-Held key identifier seconds
        (attempt_result R a.end identifier (set_new R key identifier seconds (a.meanwhile s))
          (a.meanwhile s))
        (attempts R key identifier seconds later) (a.meanwhile s)
        (attempt-result a.end key identifier seconds (a.meanwhile s))
        (λ t k. attempts-Held key identifier seconds later t n k) n h

  -- Acquire returns its identifier only if the lock was free at that moment and is now held under this
  -- identifier; the identifiers of callers are not empty.
  pub acquire-holds :
      (name identifier : Text) (lock_timeout acquire_timeout : ℤ) (tries : List (Attempt R))
      (s : State)
      → identifier ≢ []
      → (acquire R name identifier lock_timeout acquire_timeout tries s).1 ≡ identifier
      → let t = (acquire R name identifier lock_timeout acquire_timeout tries s).0 in
        (get (lock_key name) t ≡ some identifier)
        × (u : State) × (get (lock_key name) u ≡ none)
        × (t ≡ set_for (lock_key name) identifier (seconds_of lock_timeout) u)
  unfolding acquire
  acquire-holds name identifier lock_timeout acquire_timeout tries s n h =
      elim (Bool-cases (
        length name == 0
        || (not (is_positive lock_timeout) || not (is_positive acquire_timeout)))) [
          | inl wrong ↦ absurd (n (sym (rw wrong at h)))
          | inr right ↦ rw right (
              let r =
                attempts-Held (lock_key name) identifier (seconds_of lock_timeout) tries s n
                  (rw right at h) in
              (
                ap (get (lock_key name)) r.2
                    ∙ get_set (lock_key name) identifier (seconds_of lock_timeout) r.0
                        (seconds-positive lock_timeout (ground arith)),
                r.0,
                r.1,
                r.2,
              ))
        ]

  -- A node's health is published only over nothing or over its own, and removed only if it is its own:
  -- an instance that is replaced cannot disturb the new one.
  pub publish_node-own :
      (instance_of : Text → Option Text) (fate fate' : Fate)
      (name instance_id other health v : Text) (s : State)
      → get (health_key name) s ≡ some v
      → instance_of v ≡ some other
      → other ≢ instance_id
      → (publish_node R instance_of fate name instance_id health s ≡ (s, false))
        × (remove_node R instance_of fate' name instance_id s ≡ s)
  unfolding publish_node remove_node
  publish_node-own instance_of fate fate' name instance_id other health v s g o n =
      let refused : holds (instance_of v) instance_id ≡ false =
        rw o (not_equal other instance_id n) in
      (
        rw (g, refused) (kept-owner fate s),
        rw (remove_node, g, refused) (ap (λ x. x.0) (kept-owner fate' s)),
      )
