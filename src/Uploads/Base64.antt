-- ===== src/Uploads/Base64.antt =====
-- The pieces of ResourceServer/ResourceStore.cpp in Base64: what EncodeBase64 writes, DecodeBase64 reads.
use cpp_chat.Base.{
  ltb, ◌==◌, length, take, replicate, All, length-append, Text, sub64, ℕ, zero, suc, ◌+◌, ◌*◌, ◌/◌,
  ◌%◌, ◌≤◌, ◌<◌, ◌≡◌, refl, ap, subst, false, not, ◌||◌, some, [], ◌∷◌, ◌++◌, arith,
}
use cpp_chat.Uploads.{chunk_size}
use cpp_chat.Uploads.Checks.{padding}
use cpp_chat.Uploads.Handlers.{decode_base64, encode_base64, Openssl}

abbrev pub IsByte : ℕ → Type 0
IsByte b = b < 256

module _ (ssl : Openssl) where
  open ssl use {encode_block, decode_block}

  -- What OpenSSL documents: four characters for three bytes, `=` for each missing byte at the end, and a
  -- decoded block that has a zero for each of them.
  pub record IsBase64 : Type 0 where
    pub encoded_length : (p : Text) → length (encode_block p) ≡ (length p + 2) / 3 * 4
    pub decoded :
        (p : Text)
        → All IsByte p
        → decode_block (encode_block p) ≡ some (p ++ replicate (padding (encode_block p)) 0)

take-append : (xs ys : Text) → take (length xs) (xs ++ ys) ≡ xs
take-append [] ys = refl
take-append (x ∷ xs) ys = ap (λ t. x ∷ t) (take-append xs ys)

length-replicate : (n : ℕ) → length (replicate {A = ℕ} n 0) ≡ n
length-replicate zero = refl
length-replicate (suc n) = ap suc (length-replicate n)

padding_bound : (t : Text) → padding t ≤ 2
padding_bound t = ground arith

-- A piece of at most a chunk comes back from its encoding.
pub decode_base64-encode_base64 :
    (ssl : Openssl) (p : Text)
    → IsBase64 ssl
    → All IsByte p
    → 0 < length p
    → length p ≤ chunk_size
    → decode_base64 ssl (encode_base64 ssl p) ≡ p
unfolding decode_base64 encode_base64
decode_base64-encode_base64 ssl p laws bytewise nonempty bounded =
    let encoded = ssl.encode_block p in
    let pad = padding encoded in
    let trimmed : take (sub64 (length (p ++ replicate pad 0)) pad) (p ++ replicate pad 0) ≡ p =
      subst (λ n. take n (p ++ replicate pad 0) ≡ p)
        (omega
          (arith, length-append p (replicate pad 0), length-replicate pad, padding_bound encoded))
        (take-append p (replicate pad 0)) in
    let allowed : (length encoded == 0
          || (not (length encoded % 4 == 0) || ltb ((chunk_size + 2) / 3 * 4) (length encoded)))
        ≡ false =
      ground (arith, laws.encoded_length p) in
    rw (allowed, laws.decoded p bytewise) trimmed
