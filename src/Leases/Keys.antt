-- ===== src/Leases/Keys.antt =====
-- The keys of different kinds, users and devices are different.
use cpp_chat.Base.{
  Bool-cases, get_or, tail_eq, Text, bytes, text_eq, text_eq_iff, ℤ, to_string, to_string-injective,
  cancel_suffix, IsSuffix, to_string-All, ◌≡◌, refl, ap, ◌≢◌, inl, inr, true, [], ◌∷◌, ◌++◌, arith,
}
use cpp_chat.Leases.{
  desktop, android, valid_device, suffix_of, device_key, user_session, user_ip, resource_token,
}

bytes_android-IsSuffix : (device : Text) → IsSuffix (suffix_of device)
bytes_android-IsSuffix device = elim (Bool-cases (text_eq device android)) [
  | inl e ↦ rw e refl
  | inr e ↦ rw e tt
]

-- Two devices that have the same suffix are the same, if both are valid.
suffix_of-injective :
    (d e : Text) → valid_device d ≡ true → valid_device e ≡ true → suffix_of d ≡ suffix_of e → d ≡ e
unfolding valid_device
suffix_of-injective d e hd he same = ground (
  arith,
  text_eq_iff d desktop,
  text_eq_iff e desktop,
  text_eq_iff d android,
  text_eq_iff e android,
)

pub device_key-injective :
    (a b : ℤ) (d e : Text)
    → valid_device d ≡ true
    → valid_device e ≡ true
    → device_key a d ≡ device_key b e
    → (a ≡ b) × (d ≡ e)
device_key-injective a b d e hd he same =
    let r =
      cancel_suffix (to_string a) (to_string b) (suffix_of d) (suffix_of e) (to_string-All a)
        (to_string-All b) (bytes_android-IsSuffix d) (bytes_android-IsSuffix e) same in
    (to_string-injective a b r.0, suffix_of-injective d e hd he r.1)

pub cancel_head : (xs ys zs : Text) → xs ++ ys ≡ xs ++ zs → ys ≡ zs
cancel_head [] ys zs e = e
cancel_head (x ∷ xs) ys zs e = cancel_head xs ys zs (tail_eq e)

pub user_session-user_ip : (a b : Text) → user_session a ≢ user_ip b
user_session-user_ip a b e = omega (arith, ap (λ t. get_or t 1 0) e)

pub user_session-resource_token : (a b : Text) → user_session a ≢ resource_token b
user_session-resource_token a b e = omega (arith, ap (λ t. get_or t 0 0) e)

pub user_ip-resource_token : (a b : Text) → user_ip a ≢ resource_token b
user_ip-resource_token a b e = omega (arith, ap (λ t. get_or t 0 0) e)

pub user_session-utoken : (a b : Text) → user_session a ≢ bytes "utoken_" ++ b
user_session-utoken a b e = omega (arith, ap (λ t. get_or t 1 0) e)

pub user_ip-utoken : (a b : Text) → user_ip a ≢ bytes "utoken_" ++ b
user_ip-utoken a b e = omega (arith, ap (λ t. get_or t 1 0) e)

pub resource_token-utoken : (a b : Text) → resource_token a ≢ bytes "utoken_" ++ b
resource_token-utoken a b e = omega (arith, ap (λ t. get_or t 0 0) e)

pub user_session-injective : (a b : Text) → user_session a ≡ user_session b → a ≡ b
user_session-injective a b e = cancel_head (bytes "usession_") a b e

pub user_ip-injective : (a b : Text) → user_ip a ≡ user_ip b → a ≡ b
user_ip-injective a b e = cancel_head (bytes "uip_") a b e

pub resource_token-injective : (a b : Text) → resource_token a ≡ resource_token b → a ≡ b
resource_token-injective a b e = cancel_head (bytes "resource_token_") a b e

pub valid_device-desktop : valid_device desktop ≡ true
unfolding valid_device text_eq
valid_device-desktop = refl

pub valid_device-android : valid_device android ≡ true
unfolding valid_device text_eq
valid_device-android = refl
