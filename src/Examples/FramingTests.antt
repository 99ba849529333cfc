-- ===== src/Examples/FramingTests.antt =====
-- Concrete instances for the framing of messages.
use cpp_chat.Base.{ℕ, ◌+◌, ◌*◌, ◌/◌, ◌%◌, ◌≡◌, List, [], ◌∷◌, arith}
use cpp_chat.Framing.{send_node, frame, ByteOrder, SendNode, in_head, reading}
use cpp_chat.Framing.Stream.{fresh, frames, receive, receive-frames, IsByteOrder}

-- A byte swap, as on a little-endian machine.
abbrev swap : ℕ → ℕ
swap v = v % 256 * 256 + v / 256 % 256

abbrev swapping : ByteOrder
swapping = record { host_to_network_short = swap; network_to_host_short = swap }

swapping-IsByteOrder : IsByteOrder swapping
swapping-IsByteOrder = record { swap_back = λ v h. omega arith; short = λ v h. omega arith }

abbrev two_messages : List SendNode
two_messages = send_node (1 ∷ 2 ∷ 3 ∷ []) 1017 ∷ send_node (9 ∷ []) 1023 ∷ []

abbrev piece_sizes : List ℕ
piece_sizes = 0 ∷ 6 ∷ 0 ∷ 1 ∷ 4 ∷ 4 ∷ 4 ∷ 4 ∷ 4 ∷ 4 ∷ 4 ∷ 4 ∷ []

receive-frames_example :
    receive swapping piece_sizes (frames swapping two_messages) fresh
    ≡ (record { phase = in_head; got = []; status = reading; received = two_messages }, [])
receive-frames_example =
    receive-frames swapping swapping-IsByteOrder piece_sizes two_messages (ground arith)
      (unfold frame in omega arith)
