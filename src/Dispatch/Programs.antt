-- ===== src/Dispatch/Programs.antt =====
-- What a handler of ChatServerShared/LogicSystem.cpp does: a program that calls services, whose answers
-- decide how it goes on, and sends to its session. A service is any answers at all.
use cpp_chat.Base.{
  if◌then◌else◌, Text, ℤ, ℕ, ◌+◌, ◌≡◌, refl, Bool, true, false, Option, none, some, List,
}
use cpp_chat.Dispatch.Values.{echo, with_error, Json, Items, Members}

-- A message of DealChatTextMsg for MessageService::Store.
pub record NewMessage : Type 0 where
  pub thread_id : ℤ
  pub sender_id : ℤ
  pub recv_id : ℤ
  pub unique_id : Text
  pub content : Text
  pub msg_type : ℤ

-- A thread of MessageService::ListThreads: its id, its type, and what is written of it.
pub record ThreadInfo : Type 0 where
  pub thread : ℤ
  pub kind : Text
  pub shown : Json

-- A page of MessageService::Load: its messages with their ids, as FillChatJson writes them.
pub record Page : Type 0 where
  pub load_more : Bool
  pub messages : List (ℤ × Json)

-- A call of a service; the first user, where there is one, is the user that it acts for.
pub data Call : Type 0 where
  voice : ℤ → Call
  set_abilities : Bool → Bool → Call
  log_in : ℤ → Text → Text → Call
  build_frames : Json → Bool → Call
  heartbeat : ℤ → Option ℤ → Call
  user_by_id : ℤ → Call
  user_by_name : Text → Call
  apply_friend : ℤ → ℤ → Text → Text → List Text → Call
  accept_friend : ℤ → ℤ → Text → List Text → Call
  friend_metadata : ℤ → ℤ → Call
  notify_acceptance : ℤ → ℤ → Json → Call
  delete_friend : ℤ → ℤ → Call
  set_tags : ℤ → ℤ → Json → List Text → Json → Call
  update_profile : ℤ → Text → Text → Text → Text → Bool → Call
  avatar_of : ℤ → Call
  store : ℤ → List NewMessage → Call
  deliver : ℤ → ℤ → ℤ → Json → Call
  group_of : ℤ → ℤ → Call
  change_group : ℤ → Json → Call
  list_threads : ℤ → ℤ → Call
  create_private : ℤ → ℤ → Call
  load_messages : ℤ → ℤ → ℤ → Call

-- The answers that a call may have; an error code comes first.
abbrev pub Answer : Call → Type 0
Answer (voice uid) = Unit {0}
Answer (set_abilities voice_messages file_messages) = Unit {0}
Answer (log_in uid token device) = Json
Answer (build_frames response chunks) = Option (List Json)
Answer (heartbeat uid snapshot) = Json
Answer (user_by_id uid) = Option Members
Answer (user_by_name name) = Option Members
Answer (apply_friend uid to description remark tags) = ℕ
Answer (accept_friend uid to back tags) = Option Items
Answer (friend_metadata uid to) = ℕ × Text × Json
Answer (notify_acceptance uid to response) = Unit {0}
Answer (delete_friend uid friend) = ℕ
Answer (set_tags uid friend given tags back) = ℕ
Answer (update_profile uid name nick description avatar has_avatar) = ℕ × Bool
Answer (avatar_of uid) = Option Text
Answer (store uid messages) = ℕ × Items
Answer (deliver uid recipient thread response) = Unit {0}
Answer (group_of uid thread) = ℕ × Json
Answer (change_group uid request) = ℕ × Json
Answer (list_threads uid last) = Option (List ThreadInfo × Bool × ℤ)
Answer (create_private uid peer) = ℕ × ℤ
Answer (load_messages uid thread message) = ℕ × Page

-- The user that a call acts for, and `none` for a look at what every user may see.
abbrev pub actor : Call → Option ℤ
actor (voice uid) = some uid
actor (set_abilities voice_messages file_messages) = none
actor (log_in uid token device) = none
actor (build_frames response chunks) = none
actor (heartbeat uid snapshot) = some uid
actor (user_by_id uid) = none
actor (user_by_name name) = none
actor (apply_friend uid to description remark tags) = some uid
actor (accept_friend uid to back tags) = some uid
actor (friend_metadata uid to) = some uid
actor (notify_acceptance uid to response) = some uid
actor (delete_friend uid friend) = some uid
actor (set_tags uid friend given tags back) = some uid
actor (update_profile uid name nick description avatar has_avatar) = some uid
actor (avatar_of uid) = none
actor (store uid messages) = some uid
actor (deliver uid recipient thread response) = some uid
actor (group_of uid thread) = some uid
actor (change_group uid request) = some uid
actor (list_threads uid last) = some uid
actor (create_private uid peer) = some uid
actor (load_messages uid thread message) = some uid

-- A call and what follows its answer; a message to the session and what follows; the end; an exception,
-- which closes the session; and the same after the queue is written.
pub data Program : Type 0 where
  ask : (c : Call) → (Answer c → Program) → Program
  send : ℕ → Json → Program → Program
  finish : Program
  close : Program
  drain : Program

-- The session as a handler sees it.
pub record Client : Type 0 where
  pub user_id : ℤ
  pub is_shut : Bool
  pub voice_messages : Bool
  pub file_messages : Bool

-- The reply at the end of a handler, or where an exception leaves it.
abbrev pub reply : ℕ → Json → Json → Program → Program
reply id request response rest = send id (echo request response) rest

-- The rest of a handler after a conversion, which may throw.
abbrev pub or_close : {A : Type 0} → ℕ → Json → Json → Option A → (A → Program) → Program
or_close id request response none next = reply id request response close
or_close id request response (some a) next = next a

-- All calls act for `uid`, or for no user.
abbrev pub IsFor : ℤ → Option ℤ → Type 0
IsFor uid none = Unit {0}
IsFor uid (some actor) = actor ≡ uid

abbrev pub IsOwn : ℤ → Program → Type 0
IsOwn uid (ask c next) = IsFor uid (actor c) × ((a : Answer c) → IsOwn uid (next a))
IsOwn uid (send id response rest) = IsOwn uid rest
IsOwn uid finish = Unit
IsOwn uid close = Unit
IsOwn uid drain = Unit

-- On every path exactly one message is sent, of the type `id`; `sent` tells whether it was already.
abbrev pub SendsOnce : ℕ → Bool → Program → Type 0
SendsOnce id sent (ask c next) = (a : Answer c) → SendsOnce id sent (next a)
SendsOnce id sent (send kind response rest) = (sent ≡ false) × (kind ≡ id) × SendsOnce id true rest
SendsOnce id sent finish = sent ≡ true
SendsOnce id sent close = sent ≡ true
SendsOnce id sent drain = sent ≡ true

-- What a handler is to do for its user: both.
pub record IsProper (uid : ℤ) (id : ℕ) (sent : Bool) (p : Program) : Type 0 where
  pub own : IsOwn uid p
  pub once : SendsOnce id sent p

module _ (uid : ℤ) (id : ℕ) where
  pub reply-IsProper :
      (request response : Json) (rest : Program)
      → IsProper uid id true rest
      → IsProper uid id false (reply id request response rest)
  reply-IsProper request response rest h = record { own = h.own; once = (refl, refl, h.once) }

  pub finish-IsProper : IsProper uid id true finish
  finish-IsProper = record { own = tt; once = refl }

  pub close-IsProper : IsProper uid id true close
  close-IsProper = record { own = tt; once = refl }

  pub end-IsProper :
      (request response : Json) → IsProper uid id false (reply id request response finish)
  end-IsProper request response = reply-IsProper request response finish finish-IsProper

  pub or_close-IsProper :
      {A : Type 0} (request response : Json) (o : Option A) (next : A → Program)
      → ((a : A) → IsProper uid id false (next a))
      → IsProper uid id false (or_close id request response o next)
  or_close-IsProper request response none next h =
      reply-IsProper request response close close-IsProper
  or_close-IsProper request response (some a) next h = h a

  pub ask-IsProper :
      (sent : Bool) (c : Call) (next : Answer c → Program)
      → IsFor uid (actor c)
      → ((a : Answer c) → IsProper uid id sent (next a))
      → IsProper uid id sent (ask c next)
  ask-IsProper sent c next own h = record { own = (own, λ a. (h a).own); once = λ a. (h a).once }

  pub if-IsProper :
      (sent b : Bool) (p q : Program)
      → (b ≡ true → IsProper uid id sent p)
      → (b ≡ false → IsProper uid id sent q)
      → IsProper uid id sent (if b then p else q)
  if-IsProper sent true p q h k = h refl
  if-IsProper sent false p q h k = k refl

module _ (uid : ℤ) where
  pub refusal-IsProper :
      (id code : ℕ) (request response : Json)
      → IsProper uid (id + 1) false (reply (id + 1) request (with_error code response) finish)
  refusal-IsProper id code request response =
      end-IsProper uid (id + 1) request (with_error code response)
