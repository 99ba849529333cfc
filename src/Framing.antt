-- ===== src/Framing.antt =====
-- The frames of the chat protocol: MsgNode.cpp, and the read side of CSession.cpp. A `short` is its
-- 16-bit pattern; the bytes of one in memory are little-endian; boost's byte swap is a parameter.
pub mod Stream
use cpp_chat.Base.{
  ltb, leb, ◌==◌, if◌then◌else◌, length, Text, bytes, ℕ, ◌+◌, ◌-◌, ◌*◌, ◌/◌, ◌%◌, ◌^◌, ◌<◌, Bool,
  ◌||◌, Option, none, some, List, [], ◌∷◌, ◌++◌,
}

abbrev pub max_length : ℕ
max_length = 1024 * 16

abbrev pub head_total_len : ℕ
head_total_len = 4

-- boost::asio::detail::socket_ops on 16-bit patterns.
pub record ByteOrder : Type 0 where
  pub host_to_network_short : ℕ → ℕ
  pub network_to_host_short : ℕ → ℕ

-- A message, as SendNode and RecvNode hold it.
pub record SendNode : Type 0 where
  pub message_id : ℕ
  pub body : Text

-- The arguments of the constructor of SendNode.
abbrev pub send_node : Text → ℕ → SendNode
send_node message id = record { message_id = id; body = message }

-- std::memcpy of a short to and from two bytes.
abbrev pub store_short : ℕ → Text
store_short v = (v % 256) ∷ (v / 256 % 256) ∷ []

abbrev pub load_short : ℕ → ℕ → ℕ
load_short low high = low + 256 * high

module _ (order : ByteOrder) where
  open order use {host_to_network_short, network_to_host_short}

  -- The bytes that the constructor of SendNode lays out.
  unfoldable pub frame : SendNode → Text
  frame n =
      store_short (host_to_network_short n.message_id)
      ++ (store_short (host_to_network_short (length n.body)) ++ n.body)

  -- x <= 0 for a short.
  abbrev not_positive : ℕ → Bool
  not_positive v = v == 0 || leb (2 ^ 15) v

  -- The message id and the length of a header; `none` is an invalid header, which closes the socket.
  abbrev check_head : ℕ → ℕ → Option (ℕ × ℕ)
  check_head message_id message_length =
      if not_positive message_id || (not_positive message_length || ltb max_length message_length)
      then none
      else some (message_id, message_length)

  unfoldable pub parse_head : Text → Option (ℕ × ℕ)
  parse_head (a ∷ b ∷ c ∷ d ∷ []) =
      check_head (network_to_host_short (load_short a b)) (network_to_host_short (load_short c d))
  parse_head _ = none

pub data Phase : Type 0 where
  in_head : Phase
  in_body : ℕ → ℕ → Phase

pub data Status : Type 0 where
  reading : Status
  stopped : Status
  failing : Status

-- The reads of a session: the phase, the bytes of `data_` that are filled, and the messages that were
-- posted to the business queue. A stopped reader has no read under way; a failing one has called Close.
pub record Reader : Type 0 where
  pub phase : Phase
  pub got : Text
  pub status : Status
  pub received : List SendNode

abbrev pub wanted : Phase → ℕ
wanted in_head = head_total_len
wanted (in_body message_id message_length) = message_length

-- What the other components answer while a message is handled: CServer::IsStopping, and
-- LogicSystem::PostMsgToQue, after whose refusal IsStopping is asked again.
pub record Answers : Type 0 where
  pub stopping : Bool
  pub posted : Bool
  pub stopping_after : Bool

abbrev pub close_reader : Reader → Reader
close_reader r = record r { status = failing }

module _ (order : ByteOrder) (answers : Answers) where
  open answers use {stopping, posted, stopping_after}

  -- The handler of AsyncReadHead, after an error-free read.
  abbrev pub head_done : Option (ℕ × ℕ) → Reader → Reader
  head_done none r = close_reader r
  head_done (some (message_id, message_length)) r = record r {
    phase = in_body message_id message_length;
    got = [];
  }

  -- The handler of AsyncReadBody, after an error-free read.
  abbrev pub body_done : ℕ → Text → Reader → Reader
  body_done message_id bytes r =
      if stopping
      then record r { status = stopped }
      else if posted
      then record r {
        phase = in_head;
        got = [];
        received = r.received ++ record { message_id = message_id; body = bytes } ∷ [];
      }
      else if stopping_after
      then record r { status = stopped }
      else close_reader r

  abbrev pub handler : Phase → Text → Reader → Reader
  handler in_head bytes r =
      if length bytes == head_total_len
      then head_done (parse_head order bytes) r
      else close_reader r
  handler (in_body message_id message_length) bytes r =
      if length bytes == message_length then body_done message_id bytes r else close_reader r

  -- The completion handler of async_read_some in AsyncReadLength: `chunk` are the bytes that arrived.
  unfoldable pub on_read : Bool → Bool → Text → Reader → Reader
  on_read closed failed chunk r =
      if closed || failed
      then close_reader r
      else (let bytes = r.got ++ chunk in
          if leb (wanted r.phase) (length bytes)
          then handler r.phase bytes r
          else record r { got = bytes })
