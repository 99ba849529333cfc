-- ===== src/Status/Choice.antt =====
-- getChatServer of StatusServer/StatusServiceImpl.cpp against a direct description of its choice: the
-- nodes with a good report and the least load, sorted by name, one after the other.
use cpp_chat.Base.{
  ltb, ◌==◌, if◌then◌else◌, Bool-cases, length, get_elem?, any_by, filter_by, Text, add64, ℕ, ◌%◌,
  ◌≤◌, ◌<◌, min, ◌≡◌, refl, sym, ap, ◌∙◌, inl, inr, Bool, true, false, Option, none, some, List, [],
  ◌∷◌, ◌++◌, append-nil, append_assoc, arith,
}
use cpp_chat.Leases.{success, redis_error, ReadStatus, found, missing, error}
use cpp_chat.Status.{
  rpc_failed, int_max, small_count, load_of, consider, sort, none_left, consider_load, and_then,
  visit, scan, choose_chat_server, ChatServer, Health, Best, Chosen,
}

abbrev pub least : List ChatServer → ℕ
least [] = int_max
least (s ∷ rest) = min s.con_count (least rest)

-- The nodes with the least load, in the order given.
abbrev pub has_load : ℕ → ChatServer → Bool
has_load n s = s.con_count == n

abbrev pub lightest : List ChatServer → List ChatServer
lightest servers = filter_by (has_load (least servers)) servers

abbrev best_of : List ChatServer → Best
best_of seen = record { minimum = least seen; candidates = lightest seen }

least-append :
    (xs : List ChatServer) (s : ChatServer)
    → s.con_count ≤ int_max
    → least (xs ++ s ∷ []) ≡ min (least xs) s.con_count
least-append [] s h = omega arith
least-append (x ∷ xs) s h = omega (arith, least-append xs s h)

filter_by-append :
    (p : ChatServer → Bool) (xs ys : List ChatServer)
    → filter_by p (xs ++ ys) ≡ filter_by p xs ++ filter_by p ys
filter_by-append p [] ys = refl
filter_by-append p (x ∷ xs) ys = ground (arith, filter_by-append p xs ys)

-- No node has less than the least load.
none_below : (n : ℕ) (xs : List ChatServer) → n < least xs → filter_by (has_load n) xs ≡ []
none_below n [] h = refl
none_below n (x ∷ xs) h = ground (arith, none_below n xs)

consider-best_of :
    (s : ChatServer) (seen : List ChatServer)
    → s.con_count ≤ int_max
    → consider s (best_of seen) ≡ best_of (seen ++ s ∷ [])
unfolding consider
consider-best_of s seen h =
    let n = s.con_count in
    let self : (n == n) ≡ true = ground arith in
    elim (Bool-cases (ltb n (least seen))) [
      | inl less ↦
          let new_least : least (seen ++ s ∷ []) ≡ n = ground (arith, least-append seen s h) in
          rw (
            less,
            self,
            new_least,
            filter_by-append (has_load n) seen (s ∷ []),
            none_below n seen (ground arith),
            self,
          )
      | inr not_less ↦
          let same_least : least (seen ++ s ∷ []) ≡ least seen =
            ground (arith, least-append seen s h) in
          rw (not_less, same_least, filter_by-append (has_load (least seen)) seen (s ∷ []))
            (elim (Bool-cases (n == least seen)) [
              | inl equal ↦ rw equal
              | inr more ↦ rw (more, append-nil (filter_by (has_load (least seen)) seen))
            ])
    ]

-- What is asked of a node: nothing read, no good report, or its load.
abbrev pub is_error : ReadStatus → Bool
is_error error = true
is_error status = false

abbrev pub with_load : Option ℕ → ChatServer → List ChatServer
with_load none s = []
with_load (some n) s = (record s { con_count = n }) ∷ []

small_load : (o : Option Health) (n : ℕ) → load_of o ≡ some n → n ≤ int_max
unfolding load_of
small_load none n e = absurd (cc e)
small_load (some h) n e = bounded h.online (ground arith)
  where
    bounded : (o : Option ℕ) → small_count o ≡ some n → n ≤ int_max
    bounded none e = absurd (cc e)
    bounded (some k) e = ground arith

consider_load-best_of :
    (o : Option ℕ) (s : ChatServer) (seen : List ChatServer)
    → ((n : ℕ) → o ≡ some n → n ≤ int_max)
    → consider_load o s (best_of seen) ≡ best_of (seen ++ with_load o s)
consider_load-best_of none s seen h = ap best_of (sym (append-nil seen))
consider_load-best_of (some n) s seen h =
    consider-best_of (record s { con_count = n }) seen (h n refl)

-- The reference: RedisError if a read fails, and else the node whose turn it is among those with a
-- good report and the least load.
abbrev pub take_turn : List ChatServer → ℕ → Chosen
take_turn candidates next =
    if none_left candidates
    then record { error_code = rpc_failed; chosen = none; next_choice = next }
    else record {
      error_code = success;
      chosen = get_elem? (sort candidates) (next % length candidates);
      next_choice = add64 next 1;
    }

module _ (parse : Text → Option Health) (health : Text → ReadStatus) where
  abbrev pub reported : ReadStatus → Option ℕ
  reported (found value) = load_of (parse value)
  reported status = none

  -- The nodes with a good report, with their loads.
  abbrev pub healthy : List ChatServer → List ChatServer
  healthy [] = []
  healthy (s ∷ rest) = with_load (reported (health s.name)) s ++ healthy rest

  abbrev pub any_error : List ChatServer → Bool
  any_error servers = any_by (λ s. is_error (health s.name)) servers

  visit-best_of :
      (r : ReadStatus) (s : ChatServer) (seen : List ChatServer)
      → is_error r ≡ false
      → visit parse r s (best_of seen) ≡ some (best_of (seen ++ with_load (reported r) s))
  visit-best_of error s seen h = absurd (cc h)
  visit-best_of missing s seen h = ap (λ l. some (best_of l)) (sym (append-nil seen))
  visit-best_of (found value) s seen h =
      ap some (consider_load-best_of (load_of (parse value)) s seen (small_load (parse value)))

  scan-best_of :
      (servers seen : List ChatServer)
      → scan parse health servers (best_of seen)
        ≡ (if any_error servers then none else some (best_of (seen ++ healthy servers)))
  unfolding scan
  scan-best_of [] seen = ap (λ l. some (best_of l)) (sym (append-nil seen))
  scan-best_of (s ∷ rest) seen = elim (Bool-cases (is_error (health s.name))) [
    | inl failed ↦ rw failed (errors (health s.name) failed)
    | inr good ↦ rw good (
        rw (visit-best_of (health s.name) s seen good) (
          scan-best_of rest (seen ++ with_load (reported (health s.name)) s)
          ∙ ap (λ l. if any_error rest then none else some (best_of l))
              (append_assoc seen (with_load (reported (health s.name)) s) (healthy rest))))
  ]
    where
      errors :
          (r : ReadStatus)
          → is_error r ≡ true
          → and_then (visit parse r s (best_of seen)) (scan parse health rest) ≡ none
      errors error h = refl
      errors missing h = absurd (cc h)
      errors (found value) h = absurd (cc h)

  abbrev pub reference_choice : List ChatServer → ℕ → Chosen
  reference_choice servers next =
      if any_error servers
      then record { error_code = redis_error; chosen = none; next_choice = next }
      else take_turn (lightest (healthy servers)) next

  -- The single pass of getChatServer, which clears its candidates at each smaller load, makes the
  -- choice of the direct description: an error if a read fails, else the next in turn, by name, of the
  -- nodes whose report is good and whose load is the least of them.
  pub choose_chat_server-reference_choice :
      (servers : List ChatServer) (next : ℕ)
      → choose_chat_server parse health servers next ≡ reference_choice servers next
  unfolding choose_chat_server
  choose_chat_server-reference_choice servers next =
      rw (scan-best_of servers [])
        (elim (Bool-cases (any_error servers)) [ inl failed ↦ rw failed | inr good ↦ rw good ])
