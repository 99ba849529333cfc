-- ===== src/Media/WaveTrip.antt =====
-- The header that WaveHeader lays out is accepted, with the duration of its samples.
use cpp_chat.Base.{
  ltb, length, replicate, Text, text_eq, ℕ, ◌+◌, ◌*◌, ◌/◌, ◌%◌, ◌^◌, ◌≤◌, ◌<◌, ◌≡◌, false, ◌||◌,
  arith,
}
use cpp_chat.Media.{
  wave_header_bytes, pcm_bytes_per_second, min_pcm_bytes, max_pcm_bytes, read_little, is_odd,
  bad_size, bad_fields, wave_duration_ms, write_fields, wave_header,
}

little_four :
    (v : ℕ)
    → v < 2 ^ 32
    → v % 256
        + 256
          * (v / 256 % 256
              + 256 * (v / 256 / 256 % 256 + 256 * (v / 256 / 256 / 256 % 256 + 256 * 0)))
      ≡ v
little_four v h = omega arith

-- The header, where the size is allowed.
abbrev laid_out : ℕ → Text
laid_out pcm = write_fields pcm (replicate wave_header_bytes 0)

laid_out-bad_fields :
    (pcm : ℕ) → pcm ≤ max_pcm_bytes → bad_fields (laid_out pcm) (wave_header_bytes + pcm) ≡ false
unfolding read_little text_eq
laid_out-bad_fields pcm high =
    rw (little_four (pcm + 36) (omega arith), little_four pcm (omega arith)) (ground arith)

-- For every even sample size of one second to a minute: the header is 44 bytes, and checked against a
-- file of that size it gives the duration of the samples in milliseconds.
pub duration-header :
    (pcm : ℕ)
    → min_pcm_bytes ≤ pcm
    → pcm ≤ max_pcm_bytes
    → pcm % 2 ≡ 0
    → (length (wave_header pcm) ≡ wave_header_bytes)
      × (wave_duration_ms (wave_header pcm) (wave_header_bytes + pcm)
          ≡ pcm * 1000 / pcm_bytes_per_second)
unfolding wave_header
duration-header pcm low high even =
    let good : (ltb pcm min_pcm_bytes || (ltb max_pcm_bytes pcm || is_odd pcm)) ≡ false =
      ground arith in
    let sized : bad_size (laid_out pcm) (wave_header_bytes + pcm) ≡ false = ground arith in
    (
      rw good,
      rw good (unfold wave_duration_ms in rw (sized, laid_out-bad_fields pcm high) (ground arith)),
    )
