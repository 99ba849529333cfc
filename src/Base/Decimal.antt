-- ===== src/Base/Decimal.antt =====
-- std::to_string of an int: decimal digits, after a minus sign below zero.
use Prim.Native.Nat.{ℕ, zero, suc, ◌+◌, ◌-◌, ◌*◌, ◌/◌, ◌%◌, ◌≤◌, ◌<◌}
use mathlib.Core.Path.{◌≡◌, refl, sym, ap, subst, ◌∙◌}
use mathlib.Core.Logic.{◌≢◌, inl, inr}
use mathlib.Core.List.{[], ◌∷◌, ◌++◌}
use native.Mathlib.Omega.{arith}
use cpp_chat.Base.Tests.{ltb, if◌then◌else◌, Bool-cases}
use cpp_chat.Base.Lists.{All, All-append}
use cpp_chat.Base.Texts.{Text, tail_eq, All-mono}
use cpp_chat.Base.Int.{ℤ, pos, negsuc}

-- The digits of `n`; the fuel `n` is enough, since each step divides by 10.
unfoldable pub digits : ℕ → ℕ → Text
digits zero n = (48 + n % 10) ∷ []
digits (suc fuel) n =
    let rest = digits fuel (n / 10) in
    if ltb n 10 then (48 + n % 10) ∷ [] else rest ++ (48 + n % 10) ∷ []

unfoldable pub to_string : ℤ → Text
to_string (pos n) = digits n n
to_string (negsuc n) = 45 ∷ digits (suc n) (suc n)

abbrev value : ℕ → Text → ℕ
value acc [] = acc
value acc (d ∷ ds) = value (10 * acc + (d - 48)) ds

value-append : (acc : ℕ) (xs ys : Text) → value acc (xs ++ ys) ≡ value (value acc xs) ys
value-append acc [] ys = refl
value-append acc (x ∷ xs) ys = value-append (10 * acc + (x - 48)) xs ys

value-digits : (fuel n : ℕ) → n ≤ fuel → value 0 (digits fuel n) ≡ n
unfolding digits
value-digits zero n h = omega arith
value-digits (suc fuel) n h = elim (Bool-cases (ltb n 10)) [
  | inl small ↦ rw small (ground arith)
  | inr large ↦
      rw
        (
          large,
          value-append 0 (digits fuel (n / 10)) ((48 + n % 10) ∷ []),
          value-digits fuel (n / 10) (ground arith),
        )
        (omega arith)
]

-- A character of a number: a digit or the minus sign.
abbrev pub IsDigit : ℕ → Type 0
IsDigit c = (48 ≤ c) × (c < 58)

pub digits-IsDigit : (fuel n : ℕ) → All IsDigit (digits fuel n)
unfolding digits
digits-IsDigit zero n = ((omega arith, omega arith), tt)
digits-IsDigit (suc fuel) n = elim (Bool-cases (ltb n 10)) [
  | inl small ↦ rw small ((omega arith, omega arith), tt)
  | inr large ↦ rw large (
      All-append IsDigit (digits fuel (n / 10)) ((48 + n % 10) ∷ []) (digits-IsDigit fuel (n / 10))
        ((omega arith, omega arith), tt))
]

pub to_string-All : (a : ℤ) → All (λ c. c < 58) (to_string a)
unfolding to_string
to_string-All (pos n) =
    All-mono IsDigit (λ c. c < 58) (λ c d. d.1) (digits n n) (digits-IsDigit n n)
to_string-All (negsuc n) = (
  omega arith,
  All-mono IsDigit (λ c. c < 58) (λ c d. d.1) (digits (suc n) (suc n))
      (digits-IsDigit (suc n) (suc n)),
)

minus_differs : (m : ℕ) (rest : Text) → digits m m ≢ 45 ∷ rest
minus_differs m rest e =
    let d : All IsDigit (45 ∷ rest) = subst (All IsDigit) e (digits-IsDigit m m) in
    omega (arith, d.0.0)

pub to_string-injective : (a b : ℤ) → to_string a ≡ to_string b → a ≡ b
unfolding to_string
to_string-injective (pos m) (pos n) e =
    ap pos (sym (value-digits m m (omega arith)) ∙ ap (value 0) e ∙ value-digits n n (omega arith))
to_string-injective (pos m) (negsuc n) e = absurd (minus_differs m _ e)
to_string-injective (negsuc m) (pos n) e = absurd (minus_differs n _ (sym e))
to_string-injective (negsuc m) (negsuc n) e =
    let same : suc m ≡ suc n =
      sym (value-digits (suc m) (suc m) (omega arith))
      ∙ ap (value 0) (tail_eq e)
      ∙ value-digits (suc n) (suc n) (omega arith) in
    ap negsuc (omega arith)

-- What may follow a number in a key: nothing, or a colon and more.
abbrev pub IsSuffix : Text → Type 0
IsSuffix [] = Unit
IsSuffix (c ∷ rest) = c ≡ 58

head_eq : {x y : ℕ} {xs ys : Text} → x ∷ xs ≡ y ∷ ys → x ≡ y
head_eq e = cc e

pub cancel_suffix :
    (xs ys s t : Text)
    → All (λ c. c < 58) xs
    → All (λ c. c < 58) ys
    → IsSuffix s
    → IsSuffix t
    → xs ++ s ≡ ys ++ t
    → (xs ≡ ys) × (s ≡ t)
cancel_suffix [] [] s t hx hy fs ft e = (refl, e)
cancel_suffix [] (y ∷ ys) [] t hx hy fs ft e = absurd (cc e)
cancel_suffix [] (y ∷ ys) (c ∷ s) t hx hy fs ft e = absurd (omega (arith, hy.0, head_eq e, fs))
cancel_suffix (x ∷ xs) [] s [] hx hy fs ft e = absurd (cc e)
cancel_suffix (x ∷ xs) [] s (c ∷ t) hx hy fs ft e = absurd (omega (arith, hx.0, head_eq e, ft))
cancel_suffix (x ∷ xs) (y ∷ ys) s t hx hy fs ft e =
    let r = cancel_suffix xs ys s t hx.1 hy.1 fs ft (tail_eq e) in (cc (head_eq e, r.0), r.1)
