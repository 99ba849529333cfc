-- ===== src/Leases/Refresh.antt =====
-- Refreshing extends only a slot of the session; routing names each node of a user once.
use cpp_chat.Base.{
  if◌then◌else◌, Bool-cases, head?, is_some, any_by, any_by-append, Text, text_eq, text_eq_iff,
  text_eq_refl, ℤ, ◌≡◌, refl, sym, ◌∙◌, ◌↔◌, ◌⊎◌, inl, inr, Bool, true, false, not, ◌&&◌, ◌||◌,
  Option, none, some, List, [], ◌∷◌, ◌++◌, arith,
}
use cpp_chat.Redis.{Redis, IsRedis, answered}
use cpp_chat.Leases.{
  desktop, android, device_key, user_session, resource_token, holds, add_route, refresh_script,
  refresh_session, route, destinations,
}
use cpp_chat.Leases.Release.{holds_iff}
use cpp_chat.Leases.History.{refresh_session-get}

module _ (R : Redis) where
  open R use {State, get}

  -- The slot holds the session and a live credential.
  abbrev pub owns : ℤ → Text → Text → State → Bool
  owns uid sid device s =
      holds (get (user_session (device_key uid device)) s) sid
      && is_some (get (resource_token (device_key uid device)) s)

  pub refresh_script-owns :
      (uid : ℤ) (device sid : Text) (s : State)
      → ((owns uid sid device s ≡ false) × (refresh_script R uid device sid s ≡ (s, 0)))
        ⊎ ((owns uid sid device s ≡ true) × ((refresh_script R uid device sid s).1 ≡ 1))
  unfolding refresh_script
  refresh_script-owns uid device sid s = elim (Bool-cases (owns uid sid device s)) [
    | inl e ↦ inr (e, ground arith)
    | inr e ↦ inl (e, ground arith)
  ]

-- When both scripts of a refresh are answered, the result is 1 exactly if a device's slot of the user
-- holds this session and a live credential, else 0; and no key of Redis changes its value.
pub refresh_session-owns :
    (R : Redis) (L : IsRedis R) (uid : ℤ) (sid key : Text) (s : R.State)
    → let r = refresh_session R answered answered uid sid s in
      (r.1 ≡ some (if owns R uid sid desktop s || owns R uid sid android s then 1 else 0))
      × (R.get key r.0 ≡ R.get key s)
unfolding refresh_session
refresh_session-owns R L uid sid key s = (
  elim (refresh_script-owns R uid desktop sid s) [
    | inr (o, e) ↦ rw (e, o) refl
    | inl (o, e) ↦
        rw (e, o)
          (elim (refresh_script-owns R uid android sid s) [
            | inr (p, f) ↦ rw (f, p) refl
            | inl (p, f) ↦ rw (f, p) refl
          ])
  ],
  refresh_session-get R L key key answered answered uid sid s,
)

abbrev pub names : Text → List Text → Bool
names node result = any_by (λ r. text_eq r node) result

abbrev pub distinct : List Text → Bool
distinct [] = true
distinct (x ∷ xs) = not (names x xs) && distinct xs

names-append : (n m : Text) (xs : List Text) → names n (xs ++ m ∷ []) ≡ (names n xs || text_eq m n)
names-append n m xs = any_by-append (λ r. text_eq r n) xs (m ∷ []) ∙ ground arith

add_route-names :
    (o : Option Text) (n : Text) (xs : List Text)
    → is_some (head? n) ≡ true
    → names n (add_route o xs) ≡ (names n xs || holds o n)
add_route-names none n xs h = ground arith
add_route-names (some m) n xs h = elim (Bool-cases (text_eq m n)) [
  | inl e ↦
      rw ((text_eq_iff m n).0 e, h, text_eq_refl n)
        (ground (arith, names-append n n xs, text_eq_refl n))
  | inr e ↦ ground (arith, names-append n m xs)
]

text_eq_comm : (a b : Text) → text_eq a b ≡ text_eq b a
text_eq_comm a b = elim (Bool-cases (text_eq a b)) [
  | inl e ↦ rw ((text_eq_iff a b).0 e) refl
  | inr e ↦ elim (Bool-cases (text_eq b a)) [
    | inl f ↦ rw ((text_eq_iff b a).0 f) refl
    | inr f ↦ e ∙ sym f
  ]
]

distinct-append :
    (m : Text) (xs : List Text)
    → names m xs ≡ false
    → distinct xs ≡ true
    → distinct (xs ++ m ∷ []) ≡ true
distinct-append m [] h d = refl
distinct-append m (x ∷ xs) h d =
    ground (arith, names-append x m xs, distinct-append m xs, text_eq_comm x m)

add_route-distinct :
    (o : Option Text) (xs : List Text) → distinct xs ≡ true → distinct (add_route o xs) ≡ true
add_route-distinct none xs d = d
add_route-distinct (some m) xs d = ground (arith, distinct-append m xs)

-- The nodes that a user's messages go to, by the routes of the user's devices.
pub names-destinations :
    (R : Redis) (first second : Bool) (uid : ℤ) (node : Text) (s : R.State)
    → is_some (head? node) ≡ true
    → names node (destinations R first second uid s)
      ≡ (holds (route R first uid desktop s) node || holds (route R second uid android s) node)
unfolding destinations
names-destinations R first second uid node s h =
    let d = route R first uid desktop s in
    let a = route R second uid android s in
    add_route-names a node (add_route d []) h ∙ rw (add_route-names d node [] h) refl

pub distinct-destinations :
    (R : Redis) (first second : Bool) (uid : ℤ) (s : R.State)
    → distinct (destinations R first second uid s) ≡ true
unfolding destinations
distinct-destinations R first second uid s =
    let d = route R first uid desktop s in
    let a = route R second uid android s in
    add_route-distinct a (add_route d []) (add_route-distinct d [] refl)

-- The nodes that a user's messages go to are different, and a node with a name is one of them exactly
-- if it is an answered route of the user's desktop or phone.
pub destinations-names :
    (R : Redis) (first second : Bool) (uid : ℤ) (node : Text) (s : R.State)
    → is_some (head? node) ≡ true
    → (distinct (destinations R first second uid s) ≡ true)
      × ((names node (destinations R first second uid s) ≡ true) ↔ (
          (route R first uid desktop s ≡ some node) ⊎ (route R second uid android s ≡ some node)))
destinations-names R first second uid node s h =
    let d = route R first uid desktop s in
    let a = route R second uid android s in
    (
      distinct-destinations R first second uid s,
      rw (names-destinations R first second uid node s h)
          (ground (arith, holds_iff d node, holds_iff a node)),
    )
