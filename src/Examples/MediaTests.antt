-- ===== src/Examples/MediaTests.antt =====
-- Concrete instances for the voice-message container: one second of samples.
use cpp_chat.Base.{length, take, text_eq, ℕ, ◌+◌, ◌-◌, ◌*◌, ◌/◌, ◌≤◌, ◌≡◌, refl, ◌≢◌, arith}
use cpp_chat.Media.{
  wave_header_bytes, pcm_bytes_per_second, min_pcm_bytes, max_pcm_bytes, read_little,
  wave_duration_ms, wave_header,
}
use cpp_chat.Media.WaveTrip.{duration-header}
use cpp_chat.Media.Canonical.{IsBytes, accepted_is_canonical}

abbrev second : ℕ
second = 32000

abbrev file_size : ℕ
file_size = 32044

duration-header_example :
    (length (wave_header second) ≡ wave_header_bytes)
    × (wave_duration_ms (wave_header second) (wave_header_bytes + second)
        ≡ second * 1000 / pcm_bytes_per_second)
duration-header_example = duration-header second (omega arith) (omega arith) refl

header-IsBytes : IsBytes (wave_header second)
unfolding wave_header
header-IsBytes = ground arith

header_lasts : wave_duration_ms (wave_header second) file_size ≢ 0
unfolding wave_header wave_duration_ms read_little text_eq
header_lasts = ground arith

accepted_is_canonical_example :
    (take wave_header_bytes (wave_header second) ≡ wave_header (file_size - wave_header_bytes))
    × (wave_header_bytes + min_pcm_bytes ≤ file_size)
    × (file_size ≤ wave_header_bytes + max_pcm_bytes)
accepted_is_canonical_example =
    accepted_is_canonical (wave_header second) file_size header-IsBytes header_lasts
