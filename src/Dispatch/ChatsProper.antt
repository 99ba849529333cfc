-- ===== src/Dispatch/ChatsProper.antt =====
-- The handlers for chats of ChatServerShared/LogicSystem.cpp act for their own user only, and reply once.
use cpp_chat.Base.{
  ◌==◌, if◌then◌else◌, bytes, text_eq, is_positive, int_eq, ℤ, pos, ℕ, ◌≡◌, refl, Bool, true, false,
  not, ◌||◌, Option, none, some, List, [], ◌∷◌, arith,
}
use cpp_chat.Dispatch.Values.{
  field_or, field, with_field, is_int, is_list, as_int, int_of, items_of, accepts_request, echo,
  with_error, Json, null, integer, Items, end, item, Parsed,
}
use cpp_chat.Dispatch.Programs.{
  reply-IsProper, finish-IsProper, close-IsProper, end-IsProper, or_close-IsProper, ask-IsProper,
  if-IsProper, refusal-IsProper, ThreadInfo, Page, store, deliver, group_of, list_threads,
  create_private, load_messages, Program, ask, finish, close, Client, IsProper,
}
use cpp_chat.Dispatch.Contacts.{error_json, uid_invalid, rsp, add_chats}
use cpp_chat.Dispatch.Chats.{
  text_chat, collect, deliver_self, deliver_all, name_sender, named_group, deliver_named,
  deliver_group, stored_messages, store_collected, bad_parties, deal_chat_text_msg, Collected,
  collected, refused_message, thrown,
}
use cpp_chat.Dispatch.Threads.{
  load_threads, create_private_chat, load_chat, add_thread, shown_group, show_threads,
  threads_reply, get_user_threads, created, create_private_of, loaded, load_chat_msg,
}
use cpp_chat.Dispatch.ContactsProper.{same_int}

module _ (c : Client) (p : Parsed) where
  abbrev me : ℤ
  me = c.user_id

  deliver_self-IsProper :
      (sent : Bool) (uid thread : ℤ) (response : Json) (rest : Program)
      → uid ≡ me
      → IsProper me (rsp text_chat) sent rest
      → IsProper me (rsp text_chat) sent (deliver_self uid thread response rest)
  deliver_self-IsProper sent uid thread response rest own h =
      ask-IsProper me (rsp text_chat) sent (deliver uid uid thread response) _ own (λ a. h)

  deliver_all-IsProper :
      (uid thread : ℤ) (response : Json) (members : Items) (rest : Program)
      → uid ≡ me
      → IsProper me (rsp text_chat) true rest
      → IsProper me (rsp text_chat) true (deliver_all uid thread response members rest)
  deliver_all-IsProper uid thread response end rest own h = h
  deliver_all-IsProper uid thread response (item m more) rest own h =
      one (as_int (field (bytes "uid") m))
        (deliver_all-IsProper uid thread response more rest own h)
    where
      one :
          (o : Option ℤ)
          → IsProper me (rsp text_chat) true (deliver_all uid thread response more rest)
          → IsProper me (rsp text_chat) true (elim o [
            | none ↦ close
            | some recipient ↦
                if int_eq recipient uid
                then deliver_all uid thread response more rest
                else ask
                    (deliver uid recipient thread response)
                    (λ a. deliver_all uid thread response more rest)
          ])
      one none k = close-IsProper me (rsp text_chat)
      one (some recipient) k =
          if-IsProper me (rsp text_chat) true (int_eq recipient uid) _ _ (λ e. k)
            (λ e.
              ask-IsProper me (rsp text_chat) true (deliver uid recipient thread response) _ own
                (λ a. k))

  named-IsProper :
      (uid thread : ℤ) (response group : Json) (o : Option Json)
      → uid ≡ me
      → IsProper me (rsp text_chat) true (deliver_named uid thread response group o)
  named-IsProper uid thread response group none own = close-IsProper me (rsp text_chat)
  named-IsProper uid thread response group (some names) own =
      let shown = with_field (bytes "group") (named_group group names) response in
      deliver_all-IsProper uid thread shown (items_of (field (bytes "members") group)) _ own (
        deliver_self-IsProper true uid thread shown finish own (finish-IsProper me (rsp text_chat)))

  group-IsProper :
      (uid thread : ℤ) (response : Json) (a : ℕ × Json)
      → uid ≡ me
      → IsProper me (rsp text_chat) true (deliver_group uid thread response a)
  group-IsProper uid thread response (code, group) own =
      if-IsProper me (rsp text_chat) true (code == 0) _ _
        (λ e.
          named-IsProper uid thread response group
            (name_sender uid (items_of (field (bytes "members") group))
              (field (bytes "member_names") group))
            own)
        (λ e.
          deliver_self-IsProper true uid thread response finish own
            (finish-IsProper me (rsp text_chat)))

  stored-IsProper :
      (uid to thread : ℤ) (response : Json) (a : ℕ × Items)
      → uid ≡ me
      → IsProper me (rsp text_chat) false (stored_messages uid to thread p.value response a)
  stored-IsProper uid to thread response (code, messages) own =
      let done_ = add_chats messages (with_error 0 response) in
      if-IsProper me (rsp text_chat) false (not (code == 0)) _ _
        (λ e. refusal-IsProper me text_chat code p.value response)
        (λ e.
          if-IsProper me (rsp text_chat) false (int_eq to (pos 0)) _ _
            (λ f. reply-IsProper me (rsp text_chat) p.value done_ _ (
              ask-IsProper me (rsp text_chat) true (group_of uid thread)
                (deliver_group uid thread (echo p.value done_)) own
                (λ a. group-IsProper uid thread (echo p.value done_) a own)))
            (λ f. ask-IsProper me (rsp text_chat) false (deliver uid to thread done_) _ own (λ a.
              deliver_self-IsProper false uid thread done_ _ own
                (end-IsProper me (rsp text_chat) p.value done_))))

  collected-IsProper :
      (uid to thread : ℤ) (response : Json) (r : Collected)
      → uid ≡ me
      → IsProper me (rsp text_chat) false (store_collected uid to thread p.value response r)
  collected-IsProper uid to thread response (collected messages) own =
      ask-IsProper me (rsp text_chat) false (store uid messages) _ own
        (λ a. stored-IsProper uid to thread response a own)
  collected-IsProper uid to thread response refused_message own =
      refusal-IsProper me text_chat error_json p.value response
  collected-IsProper uid to thread response thrown own =
      reply-IsProper me (rsp text_chat) p.value response close (close-IsProper me (rsp text_chat))

  pub deal_chat_text_msg-IsProper : IsProper me (rsp text_chat) false (deal_chat_text_msg c p)
  unfolding deal_chat_text_msg
  deal_chat_text_msg-IsProper =
      let from = field (bytes "fromuid") p.value in
      let to = field (bytes "touid") p.value in
      let thread = field (bytes "thread_id") p.value in
      let texts = field (bytes "text_array") p.value in
      if-IsProper me (rsp text_chat) false
        (not (accepts_request p)
          || (not (is_int from)
              || (not (is_int to) || (not (is_int thread) || not (is_list texts)))))
        _ _ (λ e. refusal-IsProper me text_chat error_json p.value null)
        (λ e.
          if-IsProper me (rsp text_chat) false
            (bad_parties me (int_of from) (int_of to) (int_of thread)) _ _
            (λ f. refusal-IsProper me text_chat uid_invalid p.value null)
            (λ f.
              collected-IsProper (int_of from) (int_of to) (int_of thread)
                (with_field (bytes "thread_id") thread
                  (with_field (bytes "touid") to (with_field (bytes "fromuid") from null)))
                (collect c (int_of from) (int_of to) (int_of thread) (items_of texts))
                (same_int (int_of from) me (ground arith))))

  threads-IsProper :
      (uid : ℤ) (threads : List ThreadInfo) (response : Json)
      → uid ≡ me
      → IsProper me (rsp load_threads) false (show_threads uid p.value threads response)
  threads-IsProper uid [] response own = end-IsProper me (rsp load_threads) p.value response
  threads-IsProper uid (t ∷ more) response own =
      if-IsProper me (rsp load_threads) false (text_eq t.kind (bytes "group")) _ _
        (λ e.
          ask-IsProper me (rsp load_threads) false (group_of uid t.thread) _ own
            (λ a. threads-IsProper uid more (shown_group t.shown response a) own))
        (λ e. threads-IsProper uid more (add_thread t.shown response) own)

  listed-IsProper :
      (uid : ℤ) (o : Option (List ThreadInfo × Bool × ℤ))
      → uid ≡ me
      → IsProper me (rsp load_threads) false (threads_reply uid p.value o)
  listed-IsProper uid none own = refusal-IsProper me load_threads uid_invalid p.value null
  listed-IsProper uid (some (threads, load_more, next_last_id)) own =
      threads-IsProper uid threads _ own

  pub get_user_threads-IsProper : IsProper me (rsp load_threads) false (get_user_threads c p)
  unfolding get_user_threads
  get_user_threads-IsProper =
      let uid = field (bytes "uid") p.value in
      if-IsProper me (rsp load_threads) false (not (accepts_request p) || not (is_int uid)) _ _
        (λ e. refusal-IsProper me load_threads error_json p.value null)
        (λ e.
          or_close-IsProper me (rsp load_threads) p.value null
            (as_int (field_or (bytes "thread_id") p.value (integer (pos 0)))) _
            (λ last_id.
              if-IsProper me (rsp load_threads) false
                (not (is_positive (int_of uid)) || not (int_eq (int_of uid) me)) _ _
                (λ f. refusal-IsProper me load_threads uid_invalid p.value null)
                (λ f.
                  let own = same_int (int_of uid) me (ground arith) in
                  ask-IsProper me (rsp load_threads) false (list_threads (int_of uid) last_id) _ own
                    (λ a. listed-IsProper (int_of uid) a own))))

  created-IsProper :
      (response : Json) (a : ℕ × ℤ)
      → IsProper me (rsp create_private_chat) false (created p.value response a)
  created-IsProper response (code, thread) = end-IsProper me (rsp create_private_chat) p.value _

  pub create_private-IsProper : IsProper me (rsp create_private_chat) false (create_private_of c p)
  unfolding create_private_of
  create_private-IsProper =
      let uid = field (bytes "uid") p.value in
      let peer = field (bytes "other_id") p.value in
      let response = with_field (bytes "other_id") peer (with_field (bytes "uid") uid null) in
      if-IsProper me (rsp create_private_chat) false
        (not (accepts_request p) || (not (is_int uid) || not (is_int peer))) _ _
        (λ e. refusal-IsProper me create_private_chat error_json p.value null)
        (λ e.
          if-IsProper me (rsp create_private_chat) false
            (not (is_positive (int_of uid)) || not (int_eq (int_of uid) me)) _ _
            (λ f. refusal-IsProper me create_private_chat uid_invalid p.value response)
            (λ f.
              ask-IsProper me (rsp create_private_chat) false
                (create_private (int_of uid) (int_of peer)) _
                (same_int (int_of uid) me (ground arith)) (created-IsProper response)))

  module _ (size : Json → ℕ) where
    loaded-IsProper :
        (thread message : ℤ) (response : Json) (a : ℕ × Page)
        → IsProper me (rsp load_chat) false (loaded size p.value thread message response a)
    loaded-IsProper thread message response (code, page) =
        if-IsProper me (rsp load_chat) false (not (code == 0)) _ _
          (λ e. refusal-IsProper me load_chat code p.value response)
          (λ e. end-IsProper me (rsp load_chat) p.value _)

    pub load_chat_msg-IsProper : IsProper me (rsp load_chat) false (load_chat_msg size c p)
    unfolding load_chat_msg
    load_chat_msg-IsProper =
        let thread = field (bytes "thread_id") p.value in
        if-IsProper me (rsp load_chat) false (not (accepts_request p) || not (is_int thread)) _ _
          (λ e. refusal-IsProper me load_chat error_json p.value null)
          (λ e.
            or_close-IsProper me (rsp load_chat) p.value null
              (as_int (field_or (bytes "message_id") p.value (integer (pos 0)))) _
              (λ message.
                ask-IsProper me (rsp load_chat) false (load_messages me (int_of thread) message) _
                  refl
                  (loaded-IsProper (int_of thread) message
                    (with_field (bytes "thread_id") thread (echo p.value null)))))
