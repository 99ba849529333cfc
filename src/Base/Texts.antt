-- ===== src/Base/Texts.antt =====
-- What is known of an element of a list, prefixes, tests on all elements, and texts, which are lists of
-- bytes, with their equality.
use Prim.Native.Nat.{ℕ, zero, suc, ◌-◌, ◌<◌, min}
use Prim.Native.Char.{code}
use Prim.Native.String.{String}
use mathlib.Core.Path.{◌≡◌, refl, ap, subst, sym}
use mathlib.Core.Logic.{◌↔◌}
use mathlib.Core.Bool.{Bool, true, false}
use mathlib.Core.List.{List, [], ◌∷◌, ◌++◌, map, append_assoc}
use mathlib.Core.Option.{Option, none, some}
use native.Mathlib.Omega.{arith}
use cpp_chat.Base.Tests.{◌==◌, if◌then◌else◌}
use cpp_chat.Base.Lists.{
  length, get_elem?, set, modify, take, drop, concat_by, remove_at, any_by, all_by, All,
}

module _ {ℓ} {A : Type ℓ} where
  abbrev pub map_option : (A → A) → Option A → Option A
  map_option f none = none
  map_option f (some a) = some (f a)

  pub get_elem?-lt : (xs : List A) (i : ℕ) → i < length xs → (a : A) × (get_elem? xs i ≡ some a)
  get_elem?-lt [] i h = absurd (omega arith)
  get_elem?-lt (x ∷ xs) zero h = (x, refl)
  get_elem?-lt (x ∷ xs) (suc i) h = get_elem?-lt xs i (omega arith)

  pub get_elem?-set :
      (xs : List A) (i j : ℕ) (v : A) {x : A}
      → get_elem? xs i ≡ some x
      → get_elem? (set xs i v) j ≡ (if i == j then some v else get_elem? xs j)
  get_elem?-set [] i j v h = ground arith
  get_elem?-set (y ∷ xs) zero zero v h = ground arith
  get_elem?-set (y ∷ xs) zero (suc j) v h = ground arith
  get_elem?-set (y ∷ xs) (suc i) zero v h = ground arith
  get_elem?-set (y ∷ xs) (suc i) (suc j) v h = ground (arith, get_elem?-set xs i j v h)

  pub get_elem?-modify :
      (xs : List A) (i j : ℕ) (f : A → A)
      → get_elem? (modify xs i f) j
        ≡ (if i == j then map_option f (get_elem? xs j) else get_elem? xs j)
  get_elem?-modify [] i j f = ground arith
  get_elem?-modify (y ∷ xs) zero zero f = ground arith
  get_elem?-modify (y ∷ xs) zero (suc j) f = ground arith
  get_elem?-modify (y ∷ xs) (suc i) zero f = ground arith
  get_elem?-modify (y ∷ xs) (suc i) (suc j) f = ground (arith, get_elem?-modify xs i j f)

module _ {ℓ} {A : Type ℓ} where
  pub take-append-drop : (n : ℕ) (xs : List A) → take n xs ++ drop n xs ≡ xs
  take-append-drop zero xs = refl
  take-append-drop (suc n) [] = refl
  take-append-drop (suc n) (x ∷ xs) = rw (take-append-drop n xs)

  pub length-take : (n : ℕ) (xs : List A) → length (take n xs) ≡ min n (length xs)
  length-take zero xs = omega arith
  length-take (suc n) [] = omega arith
  length-take (suc n) (x ∷ xs) = omega (arith, length-take n xs)

  pub length-drop : (n : ℕ) (xs : List A) → length (drop n xs) ≡ length xs - n
  length-drop zero xs = omega arith
  length-drop (suc n) [] = omega arith
  length-drop (suc n) (x ∷ xs) = omega (arith, length-drop n xs)

  pub length-map {κ} : {B : Type κ} (xs : List A) (f : A → B) → length (map f xs) ≡ length xs
  length-map [] f = refl
  length-map (x ∷ xs) f = ap suc (length-map xs f)

  pub concat_by-append {κ} :
      {B : Type κ} (f : A → List B) (xs ys : List A)
      → concat_by f (xs ++ ys) ≡ concat_by f xs ++ concat_by f ys
  concat_by-append f [] ys = refl
  concat_by-append f (x ∷ xs) ys =
      rw (concat_by-append f xs ys) (sym (append_assoc (f x) (concat_by f xs) (concat_by f ys)))

  -- Two equal concatenations whose first parts are as long have equal parts.
  pub append_split :
      (xs ys us vs : List A) → xs ++ ys ≡ us ++ vs → length xs ≡ length us → (xs ≡ us) × (ys ≡ vs)
  append_split [] ys [] vs e l = (refl, e)
  append_split [] ys (u ∷ us) vs e l = absurd (omega arith)
  append_split (x ∷ xs) ys [] vs e l = absurd (omega arith)
  append_split (x ∷ xs) ys (u ∷ us) vs e l =
      let r = append_split xs ys us vs (ground arith) (omega arith) in ground arith

module _ {ℓ} {A : Type ℓ} (p : A → Bool) where
  pub any_by-append :
      (xs ys : List A) → any_by p (xs ++ ys) ≡ (if any_by p xs then true else any_by p ys)
  any_by-append [] ys = refl
  any_by-append (x ∷ xs) ys = ground (arith, any_by-append xs ys)

  pub all_by-append :
      (xs ys : List A) → all_by p (xs ++ ys) ≡ (if all_by p xs then all_by p ys else false)
  all_by-append [] ys = refl
  all_by-append (x ∷ xs) ys = ground (arith, all_by-append xs ys)

  pub any_by-get :
      (xs : List A) (i : ℕ) {x : A}
      → get_elem? xs i ≡ some x
      → any_by p xs ≡ (if p x then true else any_by p (remove_at xs i))
  any_by-get [] i g = cc
  any_by-get (y ∷ xs) zero g = ground arith
  any_by-get (y ∷ xs) (suc i) g = ground (arith, any_by-get xs i g)

  pub all_by-get :
      (xs : List A) (i : ℕ) {x : A}
      → get_elem? xs i ≡ some x
      → all_by p xs ≡ (if p x then all_by p (remove_at xs i) else false)
  all_by-get [] i g = cc
  all_by-get (y ∷ xs) zero g = ground arith
  all_by-get (y ∷ xs) (suc i) g = ground (arith, all_by-get xs i g)

module _ {ℓ κ} {A : Type ℓ} (P : A → Type κ) where
  pub All-set : (xs : List A) (i : ℕ) (y : A) → All P xs → P y → All P (set xs i y)
  All-set [] i y h p = tt
  All-set (x ∷ xs) zero y h p = (p, h.1)
  All-set (x ∷ xs) (suc i) y h p = (h.0, All-set xs i y h.1 p)

  pub All-get : (xs : List A) (i : ℕ) {x : A} → All P xs → get_elem? xs i ≡ some x → P x
  All-get [] i h g = cc
  All-get (y ∷ xs) zero h g = subst P (cc g) h.0
  All-get (y ∷ xs) (suc i) h g = All-get xs i h.1 g

  pub All-modify :
      (f : A → A) (xs : List A) (i : ℕ)
      → ((x : A) → P x → P (f x))
      → All P xs
      → All P (modify xs i f)
  All-modify f [] i k h = tt
  All-modify f (x ∷ xs) zero k h = (k x h.0, h.1)
  All-modify f (x ∷ xs) (suc i) k h = (h.0, All-modify f xs i k h.1)

module _ {A : Type 0} where
  -- The second list begins with the first.
  abbrev pub Prefix : List A → List A → Type 0
  Prefix [] ys = Unit {0}
  Prefix (x ∷ xs) [] = ⊥
  Prefix (x ∷ xs) (y ∷ ys) = (x ≡ y) × Prefix xs ys

  pub Prefix-append : (xs ys : List A) → Prefix xs (xs ++ ys)
  Prefix-append [] ys = tt
  Prefix-append (x ∷ xs) ys = (refl, Prefix-append xs ys)

  pub Prefix-append_right : (xs ys zs : List A) → Prefix xs ys → Prefix xs (ys ++ zs)
  Prefix-append_right [] ys zs h = tt
  Prefix-append_right (x ∷ xs) [] zs h = absurd h
  Prefix-append_right (x ∷ xs) (y ∷ ys) zs h = (h.0, Prefix-append_right xs ys zs h.1)

  pub Prefix-append_left : (xs ys zs : List A) → Prefix (xs ++ ys) zs → Prefix xs zs
  Prefix-append_left [] ys zs h = tt
  Prefix-append_left (x ∷ xs) ys [] h = absurd h
  Prefix-append_left (x ∷ xs) ys (z ∷ zs) h = (h.0, Prefix-append_left xs ys zs h.1)

pub tail_eq {ℓ} : {A : Type ℓ} {x y : A} {xs ys : List A} → x ∷ xs ≡ y ∷ ys → xs ≡ ys
tail_eq e = cc e

pub All-mono {ℓ} :
    {A : Type ℓ} (P Q : A → Type 0) → ((a : A) → P a → Q a) → (xs : List A) → All P xs → All Q xs
All-mono P Q f [] h = tt
All-mono P Q f (x ∷ xs) h = (f x h.0, All-mono P Q f xs h.1)

-- std::string is a list of bytes.
abbrev pub Text : Type 0
Text = List ℕ

-- The code points of a literal: its bytes, if it is ASCII.
abbrev pub bytes : String → Text
bytes String.[] = []
bytes (String.◌∷◌ c s) = code c ∷ bytes s

-- `==` of two std::strings.
unfoldable pub text_eq : Text → Text → Bool
text_eq [] [] = true
text_eq [] (y ∷ ys) = false
text_eq (x ∷ xs) [] = false
text_eq (x ∷ xs) (y ∷ ys) = if x == y then text_eq xs ys else false

pub text_eq_iff : (a b : Text) → (text_eq a b ≡ true) ↔ (a ≡ b)
unfolding text_eq
text_eq_iff [] [] = ground arith
text_eq_iff [] (y ∷ ys) = ground arith
text_eq_iff (x ∷ xs) [] = ground arith
text_eq_iff (x ∷ xs) (y ∷ ys) = ground (arith, text_eq_iff xs ys)

pub text_eq_refl : (a : Text) → text_eq a a ≡ true
text_eq_refl a = (text_eq_iff a a).1 refl
