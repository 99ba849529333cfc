-- ===== src/Requests.antt =====
-- Request ids (ChatServerShared/RequestContract.h). A request is what the code asks of its JSON: whether it
-- is an object, its request_id, and the rest.
use cpp_chat.Base.{
  leb, ◌==◌, if◌then◌else◌, Bool-cases, length, Text, ◌≡◌, ap, subst, inl, inr, Bool, true, false,
  not, ◌&&◌, ◌||◌, Option, none, some, arith,
}

-- A member of an object: absent, a string, or of another type.
pub data Member : Type 0 where
  absent : Member
  text : Text → Member
  other : Member

pub record Request (Rest : Type 0) : Type 0 where
  pub is_object : Bool
  pub request_id : Member
  pub rest : Rest

-- ValidId.
unfoldable pub valid_id : Member → Bool
valid_id absent = false
valid_id other = false
valid_id (text id) = not (length id == 0) && leb (length id) 64

abbrev pub is_member : Member → Bool
is_member absent = false
is_member m = true

unidentified :
    (o : Bool) (m response : Member)
    → is_member m ≡ false
    → (if o && valid_id m then m else response) ≡ response
unfolding valid_id
unidentified o absent response h = ground arith
unidentified o (text id) response h = absurd (cc h)
unidentified o other response h = absurd (cc h)

module _ {Rest : Type 0} where
  -- ParseRequest of what Json::Reader makes of the text; `none` is false.
  unfoldable pub parse_request : Option (Request Rest) → Option (Request Rest)
  parse_request none = none
  parse_request (some r) =
      if r.is_object && (not (is_member r.request_id) || valid_id r.request_id)
      then some r
      else none

  -- EchoId: the request_id of the response.
  unfoldable pub echo_id : Request Rest → Member → Member
  echo_id r response = if r.is_object && valid_id r.request_id then r.request_id else response

  echoed :
      (q : Request Rest) (response : Member)
      → (q.is_object && (not (is_member q.request_id) || valid_id q.request_id)) ≡ true
      → echo_id q response ≡ (if is_member q.request_id then q.request_id else response)
  unfolding echo_id valid_id
  echoed q response h = elim (Bool-cases (is_member q.request_id)) [
    | inl e ↦ rw e (ground arith)
    | inr e ↦ rw e (unidentified q.is_object q.request_id response e)
  ]

  -- A request that is accepted has its id echoed exactly as it came, and one without an id leaves the
  -- response as it is.
  parse_request-echo_id :
      (parsed : Option (Request Rest)) (r : Request Rest) (response : Member)
      → parse_request parsed ≡ some r
      → (parsed ≡ some r)
        × (echo_id r response ≡ (if is_member r.request_id then r.request_id else response))
  unfolding parse_request echo_id valid_id
  parse_request-echo_id none r response h = absurd (cc h)
  parse_request-echo_id (some q) r response h =
      let same : q ≡ r = ground arith in
      let good : (q.is_object && (not (is_member q.request_id) || valid_id q.request_id)) ≡ true =
        ground arith in
      (
        ap some same,
        subst
            (λ x. echo_id x response ≡ (if is_member x.request_id then x.request_id else response))
            same (echoed q response good),
      )
