-- ===== src/Dispatch/ProfileProper.antt =====
-- The other handlers of ChatServerShared/LogicSystem.cpp act for their own user only, and reply once.
use cpp_chat.Base.{
  ltb, length, Text, bytes, is_positive, ℤ, ℕ, refl, Bool, true, false, not, ◌||◌, Option, none,
  some, [],
}
use cpp_chat.Dispatch.Values.{
  field_or, field, with_field, is_int, int_of, text_of, accepts_request, Json, null, integer, str,
  Parsed,
}
use cpp_chat.Dispatch.Programs.{
  end-IsProper, ask-IsProper, if-IsProper, refusal-IsProper, heartbeat, update_profile, avatar_of,
  change_group, Client, IsProper,
}
use cpp_chat.Dispatch.Contacts.{error_json, database_error, rsp}
use cpp_chat.Dispatch.Profile.{
  heart_beat, profile_update, get_avatar_request, group_request, snapshot_of, group_changed,
  group_request_of, heart_beat_of, updated, bad_profile, bad_lengths, avatar_given, update_with,
  update_profile_of, avatar_reply, get_avatar,
}

module _ (c : Client) (p : Parsed) where
  abbrev me : ℤ
  me = c.user_id

  changed-IsProper :
      (response : Json) (a : ℕ × Json)
      → IsProper me (rsp group_request) false (group_changed p.value response a)
  changed-IsProper response (code, group) = end-IsProper me (rsp group_request) p.value _

  pub group_request-IsProper : IsProper me (rsp group_request) false (group_request_of c p)
  unfolding group_request_of
  group_request-IsProper =
      if-IsProper me (rsp group_request) false (not (accepts_request p)) _ _
        (λ e. refusal-IsProper me group_request error_json p.value null)
        (λ e. ask-IsProper me (rsp group_request) false (change_group me p.value) _ refl (
          changed-IsProper (with_field (bytes "op") (field_or (bytes "op") p.value (str [])) null)))

  pub heart_beat-IsProper :
      (size : Json → ℕ) → IsProper me (rsp heart_beat) false (heart_beat_of size c p)
  unfolding heart_beat_of
  heart_beat-IsProper size =
      if-IsProper me (rsp heart_beat) false (not (accepts_request p)) _ _
        (λ e. refusal-IsProper me heart_beat error_json p.value null)
        (λ e.
          ask-IsProper me (rsp heart_beat) false
            (heartbeat me (snapshot_of (field (bytes "friend_snapshot_id") p.value))) _ refl
            (λ response. record { own = tt; once = (refl, refl, refl) }))

  module _ (decode_block : Text → Option Text) where
    updated-IsProper :
        (has_avatar : Bool) (a : ℕ × Bool)
        → IsProper me (rsp profile_update) false (updated p.value (integer me) has_avatar p.value a)
    updated-IsProper has_avatar (code, committed) = end-IsProper me (rsp profile_update) p.value _

    update-IsProper :
        (name nick description : Text) (o : Option (Option Text))
        → IsProper me
            (rsp profile_update)
            false
            (update_with decode_block me p.value name nick description o)
    update-IsProper name nick description none =
        refusal-IsProper me profile_update error_json p.value null
    update-IsProper name nick description (some none) =
        ask-IsProper me (rsp profile_update) false
          (update_profile me name nick description [] false) _ refl (updated-IsProper false)
    update-IsProper name nick description (some (some avatar)) =
        ask-IsProper me (rsp profile_update) false
          (update_profile me name nick description avatar true) _ refl (updated-IsProper true)

    pub update_profile-IsProper :
        IsProper me (rsp profile_update) false (update_profile_of decode_block c p)
    unfolding update_profile_of
    update_profile-IsProper =
        let name = text_of (field (bytes "name") p.value) in
        let nick = text_of (field (bytes "nick") p.value) in
        let description = text_of (field (bytes "desc") p.value) in
        if-IsProper me (rsp profile_update) false (not (is_positive me)) _ _
          (λ e. record { own = tt; once = (refl, refl, refl) })
          (λ e.
            if-IsProper me (rsp profile_update) false
              (not (accepts_request p) || bad_profile p.value) _ _
              (λ f. refusal-IsProper me profile_update error_json p.value null)
              (λ f.
                if-IsProper me (rsp profile_update) false (bad_lengths name nick description) _ _
                  (λ g. refusal-IsProper me profile_update error_json p.value null)
                  (λ g. update-IsProper name nick description (avatar_given decode_block p.value))))

  module _ (encode_block : Text → Text) where
    avatar-IsProper :
        (response : Json) (o : Option Text)
        → IsProper me (rsp get_avatar_request) false (avatar_reply encode_block p.value response o)
    avatar-IsProper response none =
        refusal-IsProper me get_avatar_request database_error p.value response
    avatar-IsProper response (some avatar) =
        if-IsProper me (rsp get_avatar_request) false (ltb 8192 (length avatar)) _ _
          (λ e. refusal-IsProper me get_avatar_request database_error p.value response)
          (λ e. end-IsProper me (rsp get_avatar_request) p.value _)

    pub get_avatar-IsProper :
        IsProper me (rsp get_avatar_request) false (get_avatar encode_block c p)
    unfolding get_avatar
    get_avatar-IsProper =
        let uid = field (bytes "uid") p.value in
        if-IsProper me (rsp get_avatar_request) false (not (is_positive me)) _ _
          (λ e. record { own = tt; once = (refl, refl, refl) })
          (λ e.
            if-IsProper me (rsp get_avatar_request) false
              (not (accepts_request p) || (not (is_int uid) || not (is_positive (int_of uid)))) _ _
              (λ f. refusal-IsProper me get_avatar_request error_json p.value null)
              (λ f.
                ask-IsProper me (rsp get_avatar_request) false (avatar_of (int_of uid)) _ tt
                  (avatar-IsProper (with_field (bytes "uid") uid null))))
