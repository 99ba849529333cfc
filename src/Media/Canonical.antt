-- ===== src/Media/Canonical.antt =====
-- Only the canonical header is accepted: the check of WaveDurationMs fixes all 44 bytes.
use Prim.Native.Nat.add
use cpp_chat.Base.{
  ltb, ◌==◌, length, take, drop, get_or, All, Text, bytes, text_eq, text_eq_iff, ℕ, zero, suc, ◌+◌,
  ◌-◌, ◌≤◌, ◌<◌, ◌≡◌, refl, ◌∙◌, ◌≢◌, Bool, true, false, not, ◌||◌, [], ◌∷◌, ◌++◌, arith,
}
use cpp_chat.Media.{
  wave_header_bytes, pcm_bytes_per_second, min_pcm_bytes, max_pcm_bytes, read_little, is_odd,
  bad_size, bad_fields, wave_duration_ms, little, wave_header,
}

abbrev slice : ℕ → ℕ → Text → Text
slice offset count xs = take count (drop offset xs)

take-nil : (n : ℕ) → take n (let e : Text = [] in e) ≡ []
take-nil zero = refl
take-nil (suc n) = refl

drop-nil : (n : ℕ) → drop n (let e : Text = [] in e) ≡ []
drop-nil zero = refl
drop-nil (suc n) = refl

drop-drop : (m n : ℕ) (xs : Text) → drop n (drop m xs) ≡ drop (m + n) xs
drop-drop zero n xs = rw (add.zero n)
drop-drop (suc m) n [] = rw (add.suc m n, drop-nil n)
drop-drop (suc m) n (x ∷ xs) = rw (add.suc m n) (drop-drop m n xs)

take-add : (m n : ℕ) (xs : Text) → take (m + n) xs ≡ take m xs ++ take n (drop m xs)
take-add zero n xs = rw (add.zero n)
take-add (suc m) n [] = rw (add.suc m n, take-nil n)
take-add (suc m) n (x ∷ xs) = rw (add.suc m n, take-add m n xs)

-- A slice is cut in two.
slice-add :
    (offset m n : ℕ) (xs : Text)
    → slice offset (m + n) xs ≡ slice offset m xs ++ slice (offset + m) n xs
slice-add offset m n xs = rw (take-add m n (drop offset xs), drop-drop offset m xs)

abbrev pub IsBytes : Text → Type 0
IsBytes xs = All (λ b. b < 256) xs

drop-cons :
    (offset : ℕ) (xs : Text)
    → offset < length xs
    → drop offset xs ≡ get_or xs offset 0 ∷ drop (suc offset) xs
drop-cons offset [] h = absurd (omega arith)
drop-cons zero (x ∷ xs) h = refl
drop-cons (suc offset) (x ∷ xs) h = drop-cons offset xs (omega arith)

get_or-lt : (offset : ℕ) (xs : Text) → IsBytes xs → get_or xs offset 0 < 256
get_or-lt offset [] h = omega arith
get_or-lt zero (x ∷ xs) h = h.0
get_or-lt (suc offset) (x ∷ xs) h = get_or-lt offset xs h.1

-- A number that was read is there in little-endian bytes.
slice-read_little :
    (count offset : ℕ) (xs : Text)
    → IsBytes xs
    → offset + count ≤ length xs
    → slice offset count xs ≡ little count (read_little xs offset count)
unfolding read_little
slice-read_little zero offset xs b h = refl
slice-read_little (suc count) offset xs b h =
    let here = get_or-lt offset xs b in
    rw (drop-cons offset xs (omega arith), slice-read_little count (suc offset) xs b (omega arith))
      (ground (arith, here))

-- What the checks of the fields say.
record Fields (header : Text) (total : ℕ) : Type 0 where
  riff : slice 0 4 header ≡ bytes "RIFF"
  size : read_little header 4 4 ≡ total - 8
  wave : slice 8 8 header ≡ bytes "WAVEfmt "
  form : read_little header 16 4 ≡ 16
  pcm : read_little header 20 2 ≡ 1
  mono : read_little header 22 2 ≡ 1
  rate : read_little header 24 4 ≡ 16000
  speed : read_little header 28 4 ≡ pcm_bytes_per_second
  align : read_little header 32 2 ≡ 2
  depth : read_little header 34 2 ≡ 16
  label : slice 36 4 header ≡ bytes "data"
  count : read_little header 40 4 ≡ total - wave_header_bytes

or-false : (a b : Bool) → (a || b) ≡ false → (a ≡ false) × (b ≡ false)
or-false true b h = absurd (cc)
or-false false b h = (refl, h)

same_number : (a b : ℕ) → not (a == b) ≡ false → a ≡ b
same_number a b h = ground arith

same_text : (a b : Text) → not (text_eq a b) ≡ false → a ≡ b
same_text a b h = (text_eq_iff a b).0 (ground arith)

bad_fields-Fields :
    (header : Text) (total : ℕ) → bad_fields header total ≡ false → Fields header total
bad_fields-Fields header total h =
    let (riff, h₁) = or-false _ _ h in
    let (size, h₂) = or-false _ _ h₁ in
    let (wave, h₃) = or-false _ _ h₂ in
    let (form, h₄) = or-false _ _ h₃ in
    let (pcm, h₅) = or-false _ _ h₄ in
    let (mono, h₆) = or-false _ _ h₅ in
    let (rate, h₇) = or-false _ _ h₆ in
    let (speed, h₈) = or-false _ _ h₇ in
    let (align, h₉) = or-false _ _ h₈ in
    let (depth, h₁₀) = or-false _ _ h₉ in
    let (label, count) = or-false _ _ h₁₀ in
    record {
      riff = same_text _ _ riff;
      size = same_number _ _ size;
      wave = same_text _ _ wave;
      form = same_number _ _ form;
      pcm = same_number _ _ pcm;
      mono = same_number _ _ mono;
      rate = same_number _ _ rate;
      speed = same_number _ _ speed;
      align = same_number _ _ align;
      depth = same_number _ _ depth;
      label = same_text _ _ label;
      count = same_number _ _ count;
    }

-- The 44 bytes, cut at the fields.
slices :
    (xs : Text)
    → take 44 xs
      ≡ slice 0 4 xs
        ++ (slice 4 4 xs
            ++ (slice 8 8 xs
                ++ (slice 16 4 xs
                    ++ (slice 20 2 xs
                        ++ (slice 22 2 xs
                            ++ (slice 24 4 xs
                                ++ (slice 28 4 xs
                                    ++ (slice 32 2 xs
                                        ++ (slice 34 2 xs
                                            ++ (slice 36 4 xs ++ slice 40 4 xs))))))))))
slices xs = rw (
  slice-add 0 4 40 xs,
  slice-add 4 4 36 xs,
  slice-add 8 8 28 xs,
  slice-add 16 4 24 xs,
  slice-add 20 2 22 xs,
  slice-add 22 2 20 xs,
  slice-add 24 4 16 xs,
  slice-add 28 4 12 xs,
  slice-add 32 2 10 xs,
  slice-add 34 2 8 xs,
  slice-add 36 4 4 xs,
)

-- Whatever file the check accepts, the first 44 bytes of its header are those that WaveHeader lays out
-- for the size of its samples, and that size is one that WaveHeader allows.
pub accepted_is_canonical :
    (header : Text) (total : ℕ)
    → IsBytes header
    → wave_duration_ms header total ≢ 0
    → (take wave_header_bytes header ≡ wave_header (total - wave_header_bytes))
      × (wave_header_bytes + min_pcm_bytes ≤ total)
      × (total ≤ wave_header_bytes + max_pcm_bytes)
unfolding wave_duration_ms
accepted_is_canonical header total b accepted =
    let sized : bad_size header total ≡ false = ground arith in
    let fields : bad_fields header total ≡ false = ground arith in
    let f = bad_fields-Fields header total fields in
    let long : wave_header_bytes ≤ length header = ground arith in
    let good : (ltb (total - wave_header_bytes) min_pcm_bytes
          || (ltb max_pcm_bytes (total - wave_header_bytes) || is_odd (total - wave_header_bytes)))
        ≡ false =
      ground arith in
    let large : wave_header_bytes + min_pcm_bytes ≤ total = ground arith in
    let shift : total - 8 ≡ total - wave_header_bytes + 36 = omega arith in
    (
      slices header
          ∙ rw
              (
                f.riff,
                f.wave,
                f.label,
                slice-read_little 4 4 header b (omega arith),
                f.size,
                slice-read_little 4 16 header b (omega arith),
                f.form,
                slice-read_little 2 20 header b (omega arith),
                f.pcm,
                slice-read_little 2 22 header b (omega arith),
                f.mono,
                slice-read_little 4 24 header b (omega arith),
                f.rate,
                slice-read_little 4 28 header b (omega arith),
                f.speed,
                slice-read_little 2 32 header b (omega arith),
                f.align,
                slice-read_little 2 34 header b (omega arith),
                f.depth,
                slice-read_little 4 40 header b (omega arith),
                f.count,
              )
              (rw shift (unfold wave_header in rw good)),
      ground arith,
      ground arith,
    )
