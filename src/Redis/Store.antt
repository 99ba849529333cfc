-- ===== src/Redis/Store.antt =====
-- A concrete Redis: keys with values and deadlines, and a clock.
use cpp_chat.Base.{
  ltb, if◌then◌else◌, Bool-cases, is_some, Text, text_eq, text_eq_iff, text_eq_refl, ℕ, ◌+◌, ◌<◌,
  ◌≡◌, refl, sym, ap, ◌∙◌, ◌≢◌, ◌⊎◌, inl, inr, false, Option, none, some, arith,
}
use cpp_chat.Redis.{Redis, IsRedis}

pub record Entry : Type 0 where
  pub value : Text
  pub deadline : ℕ

pub record Store : Type 0 where
  pub now : ℕ
  pub entries : Text → Option Entry

abbrev live : ℕ → Option Entry → Option Text
live now none = none
live now (some e) = if ltb now e.deadline then some e.value else none

abbrev update : Text → Option Entry → (Text → Option Entry) → Text → Option Entry
update k o f k' = if text_eq k' k then o else f k'

-- EXPIRE has no effect on a key that has expired.
abbrev extend : ℕ → ℕ → Option Entry → Option Entry
extend now n none = none
extend now n (some e) =
    if ltb now e.deadline then some (record e { deadline = now + n }) else some e

abbrev pub store_redis : Redis
store_redis = record {
  State = Store;
  get = λ k s. live s.now (s.entries k);
  leased = λ k s. is_some (live s.now (s.entries k));
  set_for = λ k v n s. record s {
    entries = update k (some (record { value = v; deadline = s.now + n })) s.entries;
  };
  del = λ k s. record s { entries = update k none s.entries };
  expire = λ k n s. record s { entries = update k (extend s.now n (s.entries k)) s.entries };
  elapse = λ n s. record s { now = s.now + n };
}

abbrev pub empty_store : Store
empty_store = record { now = 0; entries = λ k. none }

text_eq-other : (a b : Text) → a ≢ b → text_eq a b ≡ false
text_eq-other a b h = elim (Bool-cases (text_eq a b)) [
  | inl e ↦ absurd (h ((text_eq_iff a b).0 e))
  | inr e ↦ e
]

live-extend : (now n : ℕ) (o : Option Entry) → 0 < n → live now (extend now n o) ≡ live now o
live-extend now n none h = refl
live-extend now n (some e) h = ground arith

live-later :
    (now n : ℕ) (o : Option Entry) → (live (now + n) o ≡ none) ⊎ (live (now + n) o ≡ live now o)
live-later now n none = inl refl
live-later now n (some e) = ground arith

expire-get :
    (k k' : Text) (n : ℕ) (s : Store)
    → 0 < n
    → live s.now (update k (extend s.now n (s.entries k)) s.entries k') ≡ live s.now (s.entries k')
expire-get k k' n s h = elim (Bool-cases (text_eq k' k)) [
  | inl e ↦ rw e (
      live-extend s.now n (s.entries k) h
      ∙ ap (λ x. live s.now (s.entries x)) (sym ((text_eq_iff k' k).0 e)))
  | inr e ↦ rw e refl
]

pub store_redis-IsRedis : IsRedis store_redis
store_redis-IsRedis = record {
  get_set = λ k v n s h. rw (text_eq_refl k) (ground arith);
  leased_set = λ k v n s h. rw (text_eq_refl k) (ground arith);
  get_set_other = λ k v k' n s h. rw (text_eq-other k' k h) refl;
  get_del = λ k s. rw (text_eq_refl k) refl;
  get_del_other = λ k k' s h. rw (text_eq-other k' k h) refl;
  get_expire = expire-get;
  get_elapse = λ k n s. live-later s.now n (s.entries k);
}
