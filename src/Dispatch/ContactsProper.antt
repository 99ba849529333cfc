-- ===== src/Dispatch/ContactsProper.antt =====
-- The handlers for contacts of ChatServerShared/LogicSystem.cpp act for their own user only, and reply once.
use cpp_chat.Base.{
  ◌==◌, Text, bytes, is_positive, int_eq, int_eq_iff, ℤ, ℕ, ◌+◌, ◌≡◌, refl, true, false, not, ◌||◌,
  Option, none, some, List, [], arith,
}
use cpp_chat.ContactTags.{normalize_contact_tags}
use cpp_chat.Dispatch.Values.{
  field_or, field, with_field, with_members, is_int, is_null, is_fields, int_of, as_string,
  request_id, accepts_request, tags_input, with_error, Json, null, str, Items, end, item, Members,
  Parsed,
}
use cpp_chat.Dispatch.Programs.{
  end-IsProper, or_close-IsProper, ask-IsProper, if-IsProper, refusal-IsProper, user_by_id,
  user_by_name, apply_friend, accept_friend, friend_metadata, notify_acceptance, delete_friend,
  set_tags, Client, IsProper,
}
use cpp_chat.Dispatch.Contacts.{
  error_json, uid_invalid, database_error, search_user, add_friend, auth_friend, remove_friend,
  set_contact_tags, rsp, is_pure_digit, stoi, profile_reply, get_user_by_uid, query_of, search,
  search_info, given_tags, send_code, apply_with, apply_friend_of, add_friend_apply,
  stored_metadata, accepted, after_accept, accept_with, auth_friend_apply, delete_friend_of,
  set_tags_with, bad_remark, set_contact_tags_of,
}

-- The equality of two ids as the code tests it.
pub same_int : (a b : ℤ) → int_eq a b ≡ true → a ≡ b
same_int a b h = (int_eq_iff a b).0 h

module _ (c : Client) (p : Parsed) where
  abbrev me : ℤ
  me = c.user_id

  profile-IsProper :
      (uid : ℤ) (id : ℕ) (request : Json) (o : Option Members)
      → IsProper uid (id + 1) false (profile_reply id request o)
  profile-IsProper uid id request none = refusal-IsProper uid id 1011 request null
  profile-IsProper uid id request (some user) =
      end-IsProper uid (id + 1) request (with_members user (with_error 0 null))

  by_uid-IsProper : (o : Option ℤ) → IsProper me (rsp search_user) false (get_user_by_uid p.value o)
  by_uid-IsProper none = refusal-IsProper me search_user 1011 p.value null
  by_uid-IsProper (some uid) =
      ask-IsProper me (rsp search_user) false (user_by_id uid) (profile_reply search_user p.value)
        tt (profile-IsProper me search_user p.value)

  search-IsProper : (query : Text) → IsProper me (rsp search_user) false (search p.value query)
  unfolding search
  search-IsProper query =
      if-IsProper me (rsp search_user) false (is_pure_digit query) _ _
        (λ e. by_uid-IsProper (stoi query))
        (λ e.
          ask-IsProper me (rsp search_user) false (user_by_name query)
            (profile_reply search_user p.value) tt (profile-IsProper me search_user p.value))

  pub search_info-IsProper : IsProper me (rsp search_user) false (search_info p)
  unfolding search_info
  search_info-IsProper =
      if-IsProper me (rsp search_user) false
        (not (accepts_request p) || is_null (field (bytes "uid") p.value)) _ _
        (λ e. refusal-IsProper me search_user error_json p.value null)
        (λ e.
          or_close-IsProper me (rsp search_user) p.value null
            (query_of (field (bytes "uid") p.value)) (search p.value) search-IsProper)

  -- A call for the session's own user, whose answer is the error code of the reply.
  coded-IsProper :
      (id : ℕ) (request response : Json) (code : ℕ)
      → IsProper me (id + 1) false (send_code id request response code)
  coded-IsProper id request response code = refusal-IsProper me id code request response

  apply_with-IsProper :
      (uid to : ℤ) (description remark : Text) (o : Option (List Text))
      → uid ≡ me
      → IsProper me (rsp add_friend) false (apply_with uid to p.value description remark o)
  apply_with-IsProper uid to description remark none own =
      refusal-IsProper me add_friend error_json p.value null
  apply_with-IsProper uid to description remark (some tags) own =
      ask-IsProper me (rsp add_friend) false (apply_friend uid to description remark tags)
        (send_code add_friend p.value null) own (coded-IsProper add_friend p.value null)

  apply-IsProper :
      (uid to : ℤ) (description remark : Text)
      → IsProper me (rsp add_friend) false (apply_friend_of me uid to p.value description remark)
  unfolding apply_friend_of
  apply-IsProper uid to description remark =
      if-IsProper me (rsp add_friend) false (not (int_eq uid me)) _ _
        (λ e. refusal-IsProper me add_friend error_json p.value null)
        (λ e.
          apply_with-IsProper uid to description remark (given_tags p.value)
            (same_int uid me (ground arith)))

  pub add_friend_apply-IsProper : IsProper me (rsp add_friend) false (add_friend_apply c p)
  unfolding add_friend_apply
  add_friend_apply-IsProper =
      let uid = field (bytes "uid") p.value in
      let to = field (bytes "touid") p.value in
      if-IsProper me (rsp add_friend) false
        (not (accepts_request p) || (not (is_int uid) || not (is_int to))) _ _
        (λ e. refusal-IsProper me add_friend error_json p.value null)
        (λ e.
          or_close-IsProper me (rsp add_friend) p.value null
            (as_string (field_or (bytes "applyname") p.value (str []))) _
            (λ description.
              or_close-IsProper me (rsp add_friend) p.value null
                (as_string (field_or (bytes "bakname") p.value (str []))) _
                (apply-IsProper (int_of uid) (int_of to) description)))

  metadata-IsProper :
      (response : Json) (a : ℕ × Text × Json)
      → IsProper me (rsp auth_friend) false (stored_metadata p.value response a)
  metadata-IsProper response (code, back, tags) =
      if-IsProper me (rsp auth_friend) false (code == 0) _ _
        (λ e. end-IsProper me (rsp auth_friend) p.value _)
        (λ e. refusal-IsProper me auth_friend code p.value response)

  accepted-IsProper :
      (uid to : ℤ) (tags : List Text) (messages : Items) (response : Json)
      → uid ≡ me
      → IsProper me (rsp auth_friend) false (accepted uid to p.value tags messages response)
  accepted-IsProper uid to tags end response own =
      ask-IsProper me (rsp auth_friend) false (friend_metadata uid to)
        (stored_metadata p.value response) own (metadata-IsProper response)
  accepted-IsProper uid to tags (item m rest) response own =
      ask-IsProper me (rsp auth_friend) false (notify_acceptance uid to _) _ own
        (λ a. end-IsProper me (rsp auth_friend) p.value _)

  after_accept-IsProper :
      (uid to : ℤ) (tags : List Text) (o : Option Items)
      → uid ≡ me
      → IsProper me (rsp auth_friend) false (after_accept uid to p.value tags o)
  after_accept-IsProper uid to tags none own =
      refusal-IsProper me auth_friend database_error p.value null
  after_accept-IsProper uid to tags (some messages) own =
      ask-IsProper me (rsp auth_friend) false (user_by_id to) _ tt
        (λ user. accepted-IsProper uid to tags messages _ own)

  accept_with-IsProper :
      (uid to : ℤ) (o : Option (List Text))
      → uid ≡ me
      → IsProper me (rsp auth_friend) false (accept_with uid to p.value o)
  accept_with-IsProper uid to none own = refusal-IsProper me auth_friend error_json p.value null
  accept_with-IsProper uid to (some tags) own =
      or_close-IsProper me (rsp auth_friend) p.value null
        (as_string (field_or (bytes "back") p.value (str []))) _
        (λ back.
          ask-IsProper me (rsp auth_friend) false (accept_friend uid to back tags)
            (after_accept uid to p.value tags) own (λ a. after_accept-IsProper uid to tags a own))

  pub auth_friend_apply-IsProper : IsProper me (rsp auth_friend) false (auth_friend_apply c p)
  unfolding auth_friend_apply
  auth_friend_apply-IsProper =
      let uid = field (bytes "fromuid") p.value in
      let to = field (bytes "touid") p.value in
      if-IsProper me (rsp auth_friend) false
        (not (accepts_request p) || (not (is_int uid) || not (is_int to))) _ _
        (λ e. refusal-IsProper me auth_friend error_json p.value null)
        (λ e.
          if-IsProper me (rsp auth_friend) false
            (not (is_positive (int_of uid))
              || (not (int_eq (int_of uid) c.user_id)
                  || (not (is_positive (int_of to)) || int_eq (int_of uid) (int_of to))))
            _ _ (λ f. refusal-IsProper me auth_friend uid_invalid p.value null)
            (λ f.
              accept_with-IsProper (int_of uid) (int_of to) (given_tags p.value)
                (same_int (int_of uid) me (ground arith))))

  pub delete_friend-IsProper : IsProper me (rsp remove_friend) false (delete_friend_of c p)
  unfolding delete_friend_of
  delete_friend-IsProper =
      let friend = field (bytes "friend_uid") p.value in
      if-IsProper me (rsp remove_friend) false
        (not p.parsed || (not (is_fields p.value) || not (is_int friend))) _ _
        (λ e. refusal-IsProper me remove_friend error_json p.value null)
        (λ e.
          ask-IsProper me (rsp remove_friend) false (delete_friend me (int_of friend)) _ refl
            (coded-IsProper remove_friend p.value (with_field (bytes "friend_uid") friend null)))

  set_tags-IsProper :
      (response : Json) (o : Option (List Text))
      → IsProper me (rsp set_contact_tags) false (set_tags_with me p.value response o)
  set_tags-IsProper response none = refusal-IsProper me set_contact_tags error_json p.value response
  set_tags-IsProper response (some tags) =
      ask-IsProper me (rsp set_contact_tags) false (set_tags me _ _ tags _) _ refl
        (λ code. end-IsProper me (rsp set_contact_tags) p.value _)

  pub set_contact_tags-IsProper : IsProper me (rsp set_contact_tags) false (set_contact_tags_of c p)
  unfolding set_contact_tags_of
  set_contact_tags-IsProper =
      let response = with_field request_id (field_or request_id p.value (str [])) null in
      if-IsProper me (rsp set_contact_tags) false (not (accepts_request p)) _ _
        (λ e. refusal-IsProper me set_contact_tags error_json p.value null)
        (λ e.
          if-IsProper me (rsp set_contact_tags) false
            (not (is_int (field (bytes "friend_uid") p.value)) || bad_remark p.value) _ _
            (λ f. refusal-IsProper me set_contact_tags error_json p.value response)
            (λ f.
              set_tags-IsProper response
                (normalize_contact_tags (tags_input (field (bytes "tags") p.value)))))
