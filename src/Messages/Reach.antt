-- ===== src/Messages/Reach.antt =====
-- Whom Deliver of ChatServerShared/MessageService.cpp reaches.
use cpp_chat.Base.{
  ◌==◌, if◌then◌else◌, Bool-cases, concat_by, head?, is_some, Text, text_eq, text_eq_iff, ℤ, ◌≡◌,
  refl, sym, ap, subst, ◌∙◌, inl, inr, Bool, true, false, not, ◌&&◌, ◌||◌, List, [], ◌∷◌, ◌++◌, map,
  append-nil, arith,
}
use cpp_chat.Redis.{Redis}
use cpp_chat.Leases.{success, desktop, android, holds, route, destinations}
use cpp_chat.Leases.Refresh.{names, distinct, names-destinations, distinct-destinations}
use cpp_chat.Messages.{Message, Services, Shown}
use cpp_chat.Messages.Delivery.{
  get_sessions, is_for_group, text_request, notify, deliver_to, deliver, Target, TextChatMsgReq,
  Sent, notified, forwarded,
}

-- The notifications to sessions of this node.
abbrev pub notices : List Sent → List Sent
notices [] = []
notices (notified id shown ∷ rest) = notified id shown ∷ notices rest
notices (forwarded n request ∷ rest) = notices rest

-- The requests to a node.
abbrev pub requests_to : Text → List Sent → List TextChatMsgReq
requests_to node [] = []
requests_to node (notified id shown ∷ rest) = requests_to node rest
requests_to node (forwarded n request ∷ rest) =
    let more = requests_to node rest in if text_eq n node then request ∷ more else more

notices-append : (xs ys : List Sent) → notices (xs ++ ys) ≡ notices xs ++ notices ys
notices-append [] ys = refl
notices-append (notified id shown ∷ xs) ys = ap (λ l. notified id shown ∷ l) (notices-append xs ys)
notices-append (forwarded n request ∷ xs) ys = notices-append xs ys

requests_to-append :
    (node : Text) (xs ys : List Sent)
    → requests_to node (xs ++ ys) ≡ requests_to node xs ++ requests_to node ys
requests_to-append node [] ys = refl
requests_to-append node (notified id shown ∷ xs) ys = requests_to-append node xs ys
requests_to-append node (forwarded n request ∷ xs) ys =
    ground (arith, requests_to-append node xs ys)

-- A node that is not among the different ones of a list with it at the front.
distinct-front :
    (x n : Text) (xs : List Text)
    → distinct (x ∷ xs) ≡ true
    → text_eq x n ≡ true
    → names n xs ≡ false
distinct-front x n xs d e = subst (λ y. names y xs ≡ false) ((text_eq_iff x n).0 e) (ground arith)

distinct-rest : (x : Text) (xs : List Text) → distinct (x ∷ xs) ≡ true → distinct xs ≡ true
distinct-rest x xs d = ground arith

module _ (file_notice voice_notice self_name : Text) (payload : List Shown) where
  notices-notify :
      (ts : List Target)
      → notices (map (notify file_notice voice_notice payload) ts)
        ≡ map (notify file_notice voice_notice payload) ts
  notices-notify [] = refl
  notices-notify (t ∷ ts) =
      ap (λ l. notify file_notice voice_notice payload t ∷ l) (notices-notify ts)

  requests_to-notify :
      (node : Text) (ts : List Target)
      → requests_to node (map (notify file_notice voice_notice payload) ts) ≡ []
  requests_to-notify node [] = refl
  requests_to-notify node (t ∷ ts) = requests_to-notify node ts

  module _ (request : TextChatMsgReq) (slots : List Target) where
    abbrev to_node : Text → List Sent
    to_node = deliver_to file_notice voice_notice self_name request payload slots

    abbrev local : List Sent
    local = map (notify file_notice voice_notice payload) (get_sessions slots)

    notices-nodes :
        (nodes : List Text)
        → distinct nodes ≡ true
        → notices (concat_by to_node nodes) ≡ (if names self_name nodes then local else [])
    notices-nodes [] d = refl
    notices-nodes (x ∷ xs) d = elim (Bool-cases (text_eq x self_name)) [
      | inl here ↦
          notices-append (to_node x) (concat_by to_node xs)
          ∙ rw (here, notices-nodes xs (distinct-rest x xs d), distinct-front x self_name xs d here)
              (append-nil (notices local) ∙ notices-notify (get_sessions slots))
      | inr away ↦
          notices-append (to_node x) (concat_by to_node xs)
          ∙ rw (away, notices-nodes xs (distinct-rest x xs d)) refl
    ]

    requests_to-nodes :
        (node : Text) (nodes : List Text)
        → text_eq node self_name ≡ false
        → distinct nodes ≡ true
        → requests_to node (concat_by to_node nodes)
          ≡ (if names node nodes then request ∷ [] else [])
    requests_to-nodes node [] other d = refl
    requests_to-nodes node (x ∷ xs) other d = elim (Bool-cases (text_eq x node)) [
      | inl there ↦
          let e : x ≡ node = (text_eq_iff x node).0 there in
          let away : text_eq x self_name ≡ false =
            subst (λ y. text_eq y self_name ≡ false) (sym e) other in
          requests_to-append node (to_node x) (concat_by to_node xs)
          ∙ rw
              (
                away,
                requests_to-nodes node xs other (distinct-rest x xs d),
                there,
                distinct-front x node xs d there,
              )
              refl
      | inr elsewhere ↦ elim (Bool-cases (text_eq x self_name)) [
        | inl here ↦
            requests_to-append node (to_node x) (concat_by to_node xs)
            ∙ rw
                (
                  here,
                  elsewhere,
                  requests_to-notify node (get_sessions slots),
                  requests_to-nodes node xs other (distinct-rest x xs d),
                )
                refl
        | inr away ↦
            requests_to-append node (to_node x) (concat_by to_node xs)
            ∙ rw (away, elsewhere, requests_to-nodes node xs other (distinct-rest x xs d)) refl
      ]
    ]

    no_requests : (nodes : List Text) → requests_to self_name (concat_by to_node nodes) ≡ []
    no_requests [] = refl
    no_requests (x ∷ xs) = elim (Bool-cases (text_eq x self_name)) [
      | inl here ↦
          requests_to-append self_name (to_node x) (concat_by to_node xs)
          ∙ rw (here, requests_to-notify self_name (get_sessions slots), no_requests xs) refl
      | inr away ↦
          requests_to-append self_name (to_node x) (concat_by to_node xs)
          ∙ rw (away, away, no_requests xs) refl
    ]

    requests_to-all :
        (node : Text) (nodes : List Text)
        → distinct nodes ≡ true
        → requests_to node (concat_by to_node nodes)
          ≡ (if not (text_eq node self_name) && names node nodes then request ∷ [] else [])
    requests_to-all node nodes d = elim (Bool-cases (text_eq node self_name)) [
      | inr other ↦ rw other (requests_to-nodes node nodes other d)
      | inl same ↦ rw same (
          subst (λ n. requests_to n (concat_by to_node nodes) ≡ [])
            (sym ((text_eq_iff node self_name).0 same)) (no_requests nodes))
    ]

-- An answered route of the user's desktop or phone names the node.
abbrev pub is_routed : (R : Redis) → Bool → Bool → ℤ → Text → R.State → Bool
is_routed R first second uid node s =
    holds (route R first uid desktop s) node || holds (route R second uid android s) node

-- The recipient may be sent the messages: they are not of a group, or of one that shows itself to it.
abbrev pub may_receive : Services → ℤ → ℤ → ℤ → List Message → Bool
may_receive v from to thread messages =
    not (is_for_group from messages && not (v.get_group to thread == success))

module _ (R : Redis) (v : Services) (file_notice voice_notice self_name : Text) where
  -- If the recipient may be sent the messages, each of its open sessions on this node has one
  -- notification, of what its client supports, exactly if a route of the recipient names this node, and
  -- each other node one request with all messages, exactly if a route names it; else nothing is sent.
  -- The node asks itself nothing.
  pub deliver-reaches :
      (first second : Bool) (from to thread : ℤ) (messages : List Message) (payload : List Shown)
      (slots : List Target) (node : Text) (s : R.State)
      → is_some (head? self_name) ≡ true
      → is_some (head? node) ≡ true
      → let sent =
          deliver file_notice voice_notice self_name v from to thread messages payload
            (destinations R first second to s)
            slots in
        (notices sent ≡ (
          if may_receive v from to thread messages && is_routed R first second to self_name s
          then map (notify file_notice voice_notice payload) (get_sessions slots)
          else []))
        × (requests_to node sent ≡ (
            if may_receive v from to thread messages
              && (not (text_eq node self_name) && is_routed R first second to node s)
            then text_request from to thread messages ∷ []
            else []))
  unfolding deliver
  deliver-reaches first second from to thread messages payload slots node s named other_named =
      let request = text_request from to thread messages in
      let nodes = destinations R first second to s in
      let d = distinct-destinations R first second to s in
      elim (Bool-cases (is_for_group from messages && not (v.get_group to thread == success))) [
        | inl kept ↦ rw kept (refl, refl)
        | inr sent ↦ rw sent (
          notices-nodes file_notice voice_notice self_name payload request slots nodes d
              ∙ rw (names-destinations R first second to self_name s named) refl,
          requests_to-all file_notice voice_notice self_name payload request slots node nodes d
              ∙ rw (names-destinations R first second to node s other_named) refl,
        )
      ]
