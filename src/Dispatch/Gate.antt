-- ===== src/Dispatch/Gate.antt =====
-- HandleMessage of ChatServerShared/LogicSystem.cpp: nobody acts before the login, everybody acts for himself,
-- and a request has one reply.
use cpp_chat.Base.{
  ◌==◌, if◌then◌else◌, ==_iff, Bool-cases, bytes, is_positive, int_eq, ℤ, pos, ℕ, ◌≡◌, refl, subst,
  ◌≢◌, inl, inr, Bool, true, false, not, ◌&&◌, ◌||◌, Option, none, some, List, [], ◌∷◌, arith,
}
use cpp_chat.Dispatch.Values.{field, as_int, accepts_request, Json, Parsed}
use cpp_chat.Dispatch.Programs.{
  IsOwn, SendsOnce, Program, ask, send, finish, close, drain, Client, IsProper,
}
use cpp_chat.Dispatch.Contacts.{
  search_user, add_friend, auth_friend, remove_friend, set_contact_tags, rsp,
}
use cpp_chat.Dispatch.Chats.{text_chat}
use cpp_chat.Dispatch.Threads.{load_threads, create_private_chat, load_chat}
use cpp_chat.Dispatch.Profile.{heart_beat, profile_update, get_avatar_request, group_request}
use cpp_chat.Dispatch.ContactsProper.{
  search_info-IsProper, add_friend_apply-IsProper, auth_friend_apply-IsProper,
  delete_friend-IsProper, set_contact_tags-IsProper,
}
use cpp_chat.Dispatch.ChatsProper.{
  deal_chat_text_msg-IsProper, get_user_threads-IsProper, create_private-IsProper,
  load_chat_msg-IsProper,
}
use cpp_chat.Dispatch.ProfileProper.{
  group_request-IsProper, heart_beat-IsProper, update_profile-IsProper, get_avatar-IsProper,
}
use cpp_chat.Dispatch.{
  chat_login, internal_error, bad_login, send_frames, snapshot_frames, login_answered, log_in_with,
  login_handler, Handler, callbacks, find_handler, refuse_stranger, run_handler, handle_message,
  Libraries,
}

-- A request with a single reply: it is handled, and is neither the login nor media.
abbrev pub is_plain_request : ℕ → Bool
is_plain_request id =
    id == group_request
    || (id == search_user
        || (id == set_contact_tags
            || (id == add_friend
                || (id == auth_friend
                    || (id == text_chat
                        || (id == heart_beat
                            || (id == load_threads
                                || (id == create_private_chat
                                    || (id == load_chat
                                        || (id == profile_update
                                            || (id == get_avatar_request
                                                || id == remove_friend)))))))))))

-- No service is called.
abbrev pub IsSilent : Program → Type 0
IsSilent (ask c next) = ⊥
IsSilent (send id response rest) = IsSilent rest
IsSilent finish = Unit
IsSilent close = Unit
IsSilent drain = Unit

if-IsSilent : (b : Bool) (q r : Program) → IsSilent q → IsSilent r → IsSilent (if b then q else r)
if-IsSilent true q r h k = h
if-IsSilent false q r h k = k

module _ (l : Libraries) (c : Client) (p : Parsed) where
  -- A handler acts for its session's user only, and has one reply if it is registered for a request.
  abbrev Fits : ℕ → Handler → Type 0
  Fits kind handler =
      IsOwn c.user_id (handler c p)
      × (is_plain_request kind ≡ true → SendsOnce (rsp kind) false (handler c p))

  -- The entries of the table.
  abbrev AllFit : List (ℕ × Handler) → Type 0
  AllFit [] = Unit
  AllFit ((kind, handler) ∷ rest) = Fits kind handler × AllFit rest

  abbrev Suits : ℕ → Option Handler → Type 0
  Suits id none = Unit
  Suits id (some handler) = Fits id handler

  found-Suits :
      (id : ℕ) (table : List (ℕ × Handler)) → AllFit table → Suits id (find_handler id table)
  found-Suits id [] h = tt
  found-Suits id ((kind, handler) ∷ rest) h = elim (Bool-cases (kind == id)) [
    | inl here ↦ rw here (subst (λ k. Fits k handler) ((==_iff kind id).0 here) h.0)
    | inr elsewhere ↦ rw elsewhere (found-Suits id rest h.1)
  ]

  frames-IsOwn : (frames : List Json) → IsOwn c.user_id (send_frames frames)
  frames-IsOwn [] = tt
  frames-IsOwn (f ∷ rest) = frames-IsOwn rest

  snapshot-IsOwn : (o : Option (List Json)) → IsOwn c.user_id (snapshot_frames p.value o)
  snapshot-IsOwn none = tt
  snapshot-IsOwn (some frames) = frames-IsOwn frames

  if-IsOwn :
      (b : Bool) (q r : Program)
      → IsOwn c.user_id q
      → IsOwn c.user_id r
      → IsOwn c.user_id (if b then q else r)
  if-IsOwn true q r h k = h
  if-IsOwn false q r h k = k

  answered-IsOwn :
      (response : Json) (o : Option ℤ) → IsOwn c.user_id (login_answered p.value response o)
  answered-IsOwn response none = tt
  answered-IsOwn response (some code) =
      if-IsOwn (int_eq code (pos 0)) _ _ (tt, snapshot-IsOwn)
        (if-IsOwn (int_eq code (pos internal_error)) drain finish tt tt)

  log_in-IsOwn : IsOwn c.user_id (log_in_with p.value)
  log_in-IsOwn = (tt, λ response. answered-IsOwn response (as_int (field (bytes "error") response)))

  login-IsOwn : IsOwn c.user_id (login_handler c p)
  unfolding login_handler
  login-IsOwn =
      if-IsOwn (not (accepts_request p) || bad_login p.value) _ _ tt
        (if-IsOwn (int_eq c.user_id (pos 0)) _ _ (tt, λ a. log_in-IsOwn) log_in-IsOwn)

  proper :
      (id : ℕ) (q : Program)
      → IsProper c.user_id (rsp id) false q
      → IsOwn c.user_id q × (is_plain_request id ≡ true → SendsOnce (rsp id) false q)
  proper id q h = (h.own, λ plain. h.once)

  all_fit : AllFit (callbacks l)
  unfolding callbacks
  all_fit = (
    ((refl, λ a. tt), λ e. cc e),
    (
      ((refl, λ a. tt), λ e. cc e),
      (
        ((refl, λ a. tt), λ e. cc e),
        (
          proper group_request _ (group_request-IsProper c p),
          (
            (login-IsOwn, λ e. cc e),
            (
              proper search_user _ (search_info-IsProper c p),
              (
                proper set_contact_tags _ (set_contact_tags-IsProper c p),
                (
                  proper add_friend _ (add_friend_apply-IsProper c p),
                  (
                    proper auth_friend _ (auth_friend_apply-IsProper c p),
                    (
                      proper text_chat _ (deal_chat_text_msg-IsProper c p),
                      (
                        proper heart_beat _ (heart_beat-IsProper c p l.size),
                        (
                          proper load_threads _ (get_user_threads-IsProper c p),
                          (
                            proper create_private_chat _ (create_private-IsProper c p),
                            (
                              proper load_chat _ (load_chat_msg-IsProper c p l.size),
                              (
                                proper profile_update _
                                    (update_profile-IsProper c p l.decode_block),
                                (
                                  proper get_avatar_request _
                                      (get_avatar-IsProper c p l.encode_block),
                                  (proper remove_friend _ (delete_friend-IsProper c p), tt),
                                ),
                              ),
                            ),
                          ),
                        ),
                      ),
                    ),
                  ),
                ),
              ),
            ),
          ),
        ),
      ),
    ),
  )

  run_handler-IsOwn :
      (id : ℕ) (o : Option Handler) → Suits id o → IsOwn c.user_id (run_handler o c id p)
  unfolding run_handler
  run_handler-IsOwn id none h = tt
  run_handler-IsOwn id (some handler) h =
      if-IsOwn (not (id == chat_login) && not (is_positive c.user_id)) (refuse_stranger id p)
        (handler c p) tt h.0

  run_handler-IsSilent :
      (id : ℕ) (o : Option Handler)
      → (not (id == chat_login) && not (is_positive c.user_id)) ≡ true
      → IsSilent (run_handler o c id p)
  unfolding run_handler
  run_handler-IsSilent id none h = tt
  run_handler-IsSilent id (some handler) h = rw h tt

  -- Whatever message a session sends, however its text was read and whatever the services answer, every
  -- call of a service that HandleMessage makes acts for the user of that session, or only looks at what
  -- is open to all or logs in.
  pub handle_message-IsOwn : (id : ℕ) → IsOwn c.user_id (handle_message l c id p)
  unfolding handle_message
  handle_message-IsOwn id =
      if-IsOwn c.is_shut finish (run_handler (find_handler id (callbacks l)) c id p) tt (
        run_handler-IsOwn id (find_handler id (callbacks l)) (found-Suits id (callbacks l) all_fit))

  -- Before its login no message of a session but the login reaches a service.
  pub handle_message-IsSilent :
      (id : ℕ)
      → is_positive c.user_id ≡ false
      → id ≢ chat_login
      → IsSilent (handle_message l c id p)
  unfolding handle_message
  handle_message-IsSilent id unknown other_message =
      if-IsSilent c.is_shut finish (run_handler (find_handler id (callbacks l)) c id p) tt
        (run_handler-IsSilent id (find_handler id (callbacks l)) (ground arith))
