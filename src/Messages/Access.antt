-- ===== src/Messages/Access.antt =====
-- The other operations of MessageService (ChatServerShared/MessageService.cpp): who may open a private chat,
-- read a page of a thread, or list the threads.
use cpp_chat.Base.{
  ◌==◌, if◌then◌else◌, ==_iff, Bool-cases, is_positive, ℤ, ℕ, ◌≡◌, ◌⊎◌, inl, inr, not, ◌&&◌, Option,
  none, some, arith,
}
use cpp_chat.Leases.{success}

abbrev pub create_chat_failed : ℕ
create_chat_failed = 1012

abbrev pub load_chat_failed : ℕ
load_chat_failed = 1013

-- MysqlMgr.
pub record Threads (Page Listing : Type 0) : Type 0 where
  pub check_friendship : ℤ → ℤ → ℕ
  pub create_private_chat : ℤ → ℤ → Option ℤ
  pub check_private_chat_access : ℤ → ℤ → ℕ
  pub get_group : ℤ → ℤ → ℕ
  pub load_chat_msg : ℤ → ℤ → ℕ → Option Page
  pub get_user_threads : ℤ → ℤ → ℤ → Option Listing

module _ {Page Threads' : Type 0} (v : Threads Page Threads') where
  abbrev pub created : Option ℤ → ℕ × Option ℤ
  created none = (create_chat_failed, none)
  created (some thread) = (success, some thread)

  -- CreatePrivate.
  unfoldable pub create_private : ℤ → ℤ → ℕ × Option ℤ
  create_private uid other =
      let friendship = v.check_friendship uid other in
      if not (friendship == success)
      then (friendship, none)
      else created (v.create_private_chat uid other)

  abbrev pub loaded : Option Page → ℕ × Option Page
  loaded none = (load_chat_failed, none)
  loaded (some page) = (success, some page)

  -- Load.
  unfoldable pub load : ℤ → ℤ → ℤ → ℕ × Option Page
  load uid thread cursor =
      let access = v.check_private_chat_access uid thread in
      if not (access == success) && not (v.get_group uid thread == success)
      then (access, none)
      else loaded (v.load_chat_msg thread cursor 10)

  -- ListThreads; `none` is false.
  unfoldable pub list_threads : ℤ → ℤ → ℤ → Option Threads'
  list_threads uid cursor limit =
      if is_positive uid then v.get_user_threads uid cursor limit else none

  loaded-page : (o : Option Page) (page : Page) → (loaded o).1 ≡ some page → o ≡ some page
  loaded-page none page h = absurd (cc h)
  loaded-page (some p) page h = h

  -- A page is given out only to a user with access to the thread, as one of its two users or as a member
  -- of its group.
  load-allowed :
      (uid thread cursor : ℤ) (page : Page)
      → (load uid thread cursor).1 ≡ some page
      → ((v.check_private_chat_access uid thread ≡ success) ⊎ (v.get_group uid thread ≡ success))
        × (v.load_chat_msg thread cursor 10 ≡ some page)
  unfolding load
  load-allowed uid thread cursor page h =
      elim (Bool-cases (
        not (v.check_private_chat_access uid thread == success)
        && not (v.get_group uid thread == success))) [
          | inl denied ↦ absurd (cc (rw denied at h))
          | inr allowed ↦ (
            ground (
              arith,
              ==_iff (v.check_private_chat_access uid thread) success,
              ==_iff (v.get_group uid thread) success,
            ),
            loaded-page (v.load_chat_msg thread cursor 10) page (rw allowed at h),
          )
        ]
