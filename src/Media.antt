-- ===== src/Media.antt =====
-- The voice-message container (shared/media/pcmwave.h): the canonical RIFF/WAVE header of 16 kHz mono
-- 16-bit PCM, its check and its layout. The bits of different bytes do not overlap, so `|=` is a sum.
pub mod WaveTrip
pub mod Canonical
use cpp_chat.Base.{
  ltb, ◌==◌, if◌then◌else◌, length, set, take, drop, get_or, replicate, Text, bytes, text_eq, ℕ,
  zero, suc, ◌+◌, ◌-◌, ◌*◌, ◌/◌, ◌%◌, Bool, not, ◌||◌, [], ◌∷◌,
}

abbrev pub wave_header_bytes : ℕ
wave_header_bytes = 44

abbrev pub pcm_bytes_per_second : ℕ
pcm_bytes_per_second = 32000

abbrev pub min_pcm_bytes : ℕ
min_pcm_bytes = pcm_bytes_per_second

abbrev pub max_pcm_bytes : ℕ
max_pcm_bytes = pcm_bytes_per_second * 60

-- ReadLittle.
unfoldable pub read_little : Text → ℕ → ℕ → ℕ
read_little bytes offset zero = 0
read_little bytes offset (suc n) = get_or bytes offset 0 + 256 * read_little bytes (suc offset) n

-- bytes.substr(offset, count) != text
abbrev pub differs : Text → ℕ → ℕ → Text → Bool
differs bytes offset count text = not (text_eq (take count (drop offset bytes)) text)

abbrev pub is_odd : ℕ → Bool
is_odd n = not (n % 2 == 0)

abbrev pub bad_size : Text → ℕ → Bool
bad_size header total =
    ltb (length header) wave_header_bytes
    || (ltb total (wave_header_bytes + min_pcm_bytes)
        || (ltb (wave_header_bytes + max_pcm_bytes) total || is_odd (total - wave_header_bytes)))

abbrev pub bad_fields : Text → ℕ → Bool
bad_fields header total =
    differs header 0 4 (bytes "RIFF")
    || (not (read_little header 4 4 == total - 8)
        || (differs header 8 8 (bytes "WAVEfmt ")
            || (not (read_little header 16 4 == 16)
                || (not (read_little header 20 2 == 1)
                    || (not (read_little header 22 2 == 1)
                        || (not (read_little header 24 4 == 16000)
                            || (not (read_little header 28 4 == pcm_bytes_per_second)
                                || (not (read_little header 32 2 == 2)
                                    || (not (read_little header 34 2 == 16)
                                        || (differs header 36 4 (bytes "data")
                                            || not (
                                                read_little header 40 4
                                                == total - wave_header_bytes)))))))))))

-- WaveDurationMs.
unfoldable pub wave_duration_ms : Text → ℕ → ℕ
wave_duration_ms header total =
    if bad_size header total
    then 0
    else if bad_fields header total
    then 0
    else (total - wave_header_bytes) * 1000 / pcm_bytes_per_second

-- The `write` of WaveHeader, and std::string::replace by a text of the same length.
abbrev pub overwrite : ℕ → Text → Text → Text
overwrite offset [] header = header
overwrite offset (b ∷ bs) header = overwrite (suc offset) bs (set header offset b)

abbrev pub little : ℕ → ℕ → Text
little zero value = []
little (suc count) value = (value % 256) ∷ little count (value / 256)

abbrev pub write : ℕ → ℕ → ℕ → Text → Text
write offset value count header = overwrite offset (little count value) header

abbrev pub write_fields : ℕ → Text → Text
write_fields pcm header =
    let riff = write 4 (pcm + 36) 4 (overwrite 0 (bytes "RIFF") header) in
    let form = write 16 16 4 (overwrite 8 (bytes "WAVEfmt ") riff) in
    let kind = write 22 1 2 (write 20 1 2 form) in
    let rate = write 28 pcm_bytes_per_second 4 (write 24 16000 4 kind) in
    let sample = write 34 16 2 (write 32 2 2 rate) in
    write 40 pcm 4 (overwrite 36 (bytes "data") sample)

-- WaveHeader; the empty text refuses the size.
unfoldable pub wave_header : ℕ → Text
wave_header pcm =
    if ltb pcm min_pcm_bytes || (ltb max_pcm_bytes pcm || is_odd pcm)
    then []
    else write_fields pcm (replicate wave_header_bytes 0)
