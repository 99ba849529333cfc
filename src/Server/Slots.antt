-- ===== src/Server/Slots.antt =====
-- Removing a session from the table leaves other sessions in their slots.
use cpp_chat.Base.{
  Bool-cases, Text, text_eq, text_eq_iff, text_eq_refl, is_positive, int_eq, int_eq_iff, ℤ, ◌≡◌,
  refl, sym, ap, ◌∙◌, ◌≢◌, ◌⊎◌, inl, inr, Bool, ◌&&◌, Option, none, some, List, [], ◌∷◌, arith,
}
use cpp_chat.Server.{
  is_slot, get_session, set_user_session, rmv_user_session, bind_user, take_session, forget_user,
  clear_session, cleanup_session, Slot, Server,
}

some_injective : {a b : Text} → some a ≡ some b → a ≡ b
some_injective e = cc e

set-get :
    (uid : ℤ) (device id : Text) (xs : List Slot)
    → get_session uid device (set_user_session uid device id xs) ≡ some id
unfolding get_session set_user_session
set-get uid device id [] = rw ((int_eq_iff uid uid).1 refl, text_eq_refl device) refl
set-get uid device id (x ∷ xs) = elim (Bool-cases (is_slot uid device x)) [
  | inl e ↦ rw (e, e) refl
  | inr e ↦ rw (e, e) (set-get uid device id xs)
]

-- A removal is seen in a slot only if it is this user's and held the removed session.
rmv-get :
    (uid' uid : ℤ) (device id : Text) (xs : List Slot)
    → (get_session uid' device (rmv_user_session uid id xs) ≡ get_session uid' device xs)
      ⊎ ((uid' ≡ uid) × (get_session uid' device xs ≡ some id))
unfolding get_session rmv_user_session
rmv-get uid' uid device id [] = inl refl
rmv-get uid' uid device id (x ∷ xs) =
    elim (Bool-cases (int_eq x.uid uid && text_eq x.session_id id)) [
      | inl gone ↦ elim (Bool-cases (is_slot uid' device x)) [
        | inl mine ↦ inr (
          sym ((int_eq_iff x.uid uid').0 (ground arith)) ∙ (int_eq_iff x.uid uid).0 (ground arith),
          rw mine (ap some ((text_eq_iff x.session_id id).0 (ground arith))),
        )
        | inr another ↦ inl (rw (gone, another) refl)
      ]
      | inr kept ↦ elim (Bool-cases (is_slot uid' device x)) [
        | inl mine ↦ inl (rw (kept, mine) refl)
        | inr another ↦ rw (kept, another) (rmv-get uid' uid device id xs)
      ]
    ]

rmv-keeps :
    (uid uid' : ℤ) (device old new : Text) (xs : List Slot)
    → old ≢ new
    → get_session uid device xs ≡ some new
    → get_session uid device (rmv_user_session uid' old xs) ≡ some new
rmv-keeps uid uid' device old new xs h g = elim (rmv-get uid uid' device old xs) [
  | inl same ↦ same ∙ g
  | inr (u, other) ↦ absurd (h (some_injective (sym other ∙ g)))
]

forget-keeps :
    (uid : ℤ) (device old new : Text) (o : Option ℤ) (xs : List Slot)
    → old ≢ new
    → get_session uid device xs ≡ some new
    → get_session uid device (forget_user old o xs) ≡ some new
forget-keeps uid device old new none xs h g = g
forget-keeps uid device old new (some u) xs h g = elim (Bool-cases (is_positive u)) [
  | inl e ↦ rw e (rmv-keeps uid u device old new xs h g)
  | inr e ↦ rw e g
]

clear_session-keeps :
    (uid : ℤ) (device old new : Text) (s : Server)
    → old ≢ new
    → get_session uid device s.users ≡ some new
    → get_session uid device (clear_session old s).users ≡ some new
unfolding clear_session
clear_session-keeps uid device old new s h g =
    forget-keeps uid device old new (take_session old s.sessions).0 s.users h g

cleanup_session-keeps :
    (uid uid' : ℤ) (device old new : Text) (admitted : Bool) (s : Server)
    → old ≢ new
    → get_session uid device s.users ≡ some new
    → get_session uid device (cleanup_session old uid' admitted s).users ≡ some new
unfolding cleanup_session
cleanup_session-keeps uid uid' device old new admitted s h g =
    elim (Bool-cases (is_positive uid')) [
      | inr stranger ↦ rw stranger (clear_session-keeps uid device old new s h g)
      | inl user ↦
          let r = rmv-keeps uid uid' device old new s.users h g in
          elim (Bool-cases admitted) [
            | inl later ↦ rw (user, later) r
            | inr now ↦
                rw (user, now)
                  (clear_session-keeps uid device old new
                    (record s { users = rmv_user_session uid' old s.users }) h r)
          ]
    ]

-- A relogin is safe from the end of the connection that it replaced: after the new session was put in
-- its slot, the cleanup of the old one, and the end of its cleanup task, leave the new one there.
pub bind_user-cleanup_session :
    (uid : ℤ) (device old new : Text) (admitted : Bool) (s : Server)
    → old ≢ new
    → let t = cleanup_session old uid admitted (bind_user new uid device s) in
      (get_session uid device t.users ≡ some new)
      × (get_session uid device (clear_session old t).users ≡ some new)
bind_user-cleanup_session uid device old new admitted s h =
    let t = cleanup_session old uid admitted (bind_user new uid device s) in
    let g =
      cleanup_session-keeps uid uid device old new admitted (bind_user new uid device s) h
        (set-get uid device new s.users) in
    (g, clear_session-keeps uid device old new t h g)
