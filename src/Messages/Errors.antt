-- ===== src/Messages/Errors.antt =====
-- Store reports success only for messages that it gave to the database.
use cpp_chat.Base.{
  ◌==◌, ==_iff, Bool-cases, Option-cases, length, all_by, Text, is_positive, int_eq, ℤ, ℕ, ◌≡◌,
  refl, subst, ◌≢◌, ◌⊎◌, inl, inr, Bool, not, ◌||◌, Option, none, some, List, [], ◌∷◌, arith,
}
use cpp_chat.Leases.{success}
use cpp_chat.Messages.{
  is_hex, stoull, has_type, bad_type, bad_audio_size, owned, uploaded, check_message, cons_checked,
  check_messages, front_is_group, group_access, friend_access, save, store, Message, Services,
  Checked, bad, good,
}

bad_code : {m n : ℕ} → bad m ≡ bad n → m ≡ n
bad_code h = cc h

module _ (v : Services) (is_group : Bool) (actor : ℤ) where
  owned-bad : (m : Message) (o : Option Text) (code : ℕ) → owned m o ≡ bad code → code ≢ success
  owned-bad m none code h e = omega (arith, bad_code (h), e)
  owned-bad m (some rest) code h e = elim (Option-cases (stoull rest)) [
    | inl a ↦ omega (arith, bad_code (rw a at h), e)
    | inr (size, a) ↦ elim (Bool-cases (bad_audio_size m.msg_type size)) [
      | inl b ↦ omega (arith, bad_code (rw (a, b) at h), e)
      | inr b ↦ absurd (cc (rw (a, b) at h))
    ]
  ]

  uploaded-bad :
      (m : Message) (o : Option Text) (code : ℕ)
      → uploaded is_group actor m o ≡ bad code
      → code ≢ success
  uploaded-bad m none code h e = omega (arith, bad_code h, e)
  uploaded-bad m (some ready) code h e = owned-bad m _ code h e

  check_message-bad :
      (o : Option Message) (code : ℕ) → check_message v is_group actor o ≡ bad code → code ≢ success
  unfolding check_message
  check_message-bad none code h e = omega (arith, bad_code h, e)
  check_message-bad (some m) code h e =
      elim (Bool-cases (
        not (int_eq m.sender_id actor)
        || (not (is_positive m.recv_id) || not (is_positive m.thread_id)))) [
          | inl a ↦ omega (arith, bad_code (rw a at h), e)
          | inr a ↦ elim (Bool-cases (bad_type m.msg_type)) [
            | inl b ↦ omega (arith, bad_code (rw (a, b) at h), e)
            | inr b ↦ elim (Bool-cases (has_type m.msg_type 0)) [
              | inl c ↦ absurd (cc (rw (a, b, c) at h))
              | inr c ↦
                  elim (Bool-cases
                    (not (length m.content == 32) || not (all_by is_hex m.content))) [
                      | inl d ↦ omega (arith, bad_code (rw (a, b, c, d) at h), e)
                      | inr d ↦ uploaded-bad m _ code (rw (a, b, c, d) at h) e
                    ]
            ]
          ]
        ]

  checked-bad :
      (c : Checked) (rest : ℕ ⊎ List Message) (code : ℕ)
      → ((n : ℕ) → c ≡ bad n → n ≢ success)
      → ((n : ℕ) → rest ≡ inl n → n ≢ success)
      → cons_checked v c rest ≡ inl code
      → code ≢ success
  checked-bad (bad n) rest code f g h =
      let same : n ≡ code = cc h in subst (λ x. x ≢ success) same (f n refl)
  checked-bad (good m) (inl n) code f g h =
      let same : n ≡ code = cc h in subst (λ x. x ≢ success) same (g n refl)
  checked-bad (good m) (inr ms) code f g h = absurd (cc h)

  check_messages-bad :
      (os : List (Option Message)) (code : ℕ)
      → check_messages v is_group actor os ≡ inl code
      → code ≢ success
  unfolding check_messages
  check_messages-bad [] code h = absurd (cc h)
  check_messages-bad (o ∷ os) code h =
      checked-bad (check_message v is_group actor o) (check_messages v is_group actor os) code
        (check_message-bad o) (check_messages-bad os) h

save-bad :
    (v : Services) (actor : ℤ) (g : Bool) (front : Option Message) (r : ℕ ⊎ List Message)
    → ((n : ℕ) → r ≡ inl n → n ≢ success)
    → (save v actor g front r).1 ≡ none
    → (save v actor g front r).0 ≢ success
save-bad v actor g front (inl code) f h = f code refl
save-bad v actor g front (inr ms) f h =
    elim (Bool-cases (friend_access v g actor front == success)) [
      | inl is_friend ↦ absurd (cc (rw is_friend at h))
      | inr no_friend ↦ rw no_friend (λ e. absurd (cc (no_friend, (==_iff _ _).1 e)))
    ]

-- Store never reports success without giving the messages to the database.
pub store-success :
    (v : Services) (actor : ℤ) (os : List (Option Message))
    → (store v actor os).1 ≡ none
    → (store v actor os).0 ≢ success
unfolding store
store-success v actor [] h = λ e. omega (arith, e)
store-success v actor (front ∷ ms) h =
    let g = front_is_group v front in
    let access = group_access v g actor front in
    elim (Bool-cases (is_positive actor)) [
      | inr anonymous ↦ rw anonymous (λ e. omega (arith, e))
      | inl known ↦ elim (Bool-cases (access == success)) [
        | inr forbidden ↦ rw (known, forbidden) (λ e. absurd (cc (forbidden, (==_iff _ _).1 e)))
        | inl allowed ↦
            rw (known, allowed)
              (save-bad v actor g front _ (check_messages-bad v g actor (front ∷ ms))
                (rw (known, allowed) at h))
      ]
    ]
