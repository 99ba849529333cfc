-- ===== src/Status.antt =====
-- The status server (StatusServer/StatusServiceImpl.cpp): the choice of a chat node, the token that
-- GetChatServer issues and the check of Login. Its RedisMgr reads as that of the chat server does, by
-- the function `read` of Leases. What jsoncpp makes of a health report is a parameter.
pub mod Choice
pub mod Sorting
pub mod Order
pub mod Tickets
use cpp_chat.Base.{
  ltb, leb, ◌==◌, if◌then◌else◌, length, get_elem?, set, Text, bytes, text_eq, is_positive, ℤ,
  add64, to_string, ℕ, ◌+◌, ◌-◌, ◌/◌, ◌%◌, ◌<◌, Bool, true, false, not, ◌&&◌, Option, none, some,
  List, [], ◌∷◌, ◌++◌,
}
use cpp_chat.Redis.{Redis, Fate, answered, not_run, reply_lost}
use cpp_chat.Leases.{
  success, token_invalid, redis_error, resource_token, pending_token, token_key, read, ReadStatus,
  found, missing, error,
}
use cpp_chat.Requests.{Member, text}

-- ErrorCodes of const.h.
abbrev pub rpc_failed : ℕ
rpc_failed = 1002

abbrev pub uid_invalid : ℕ
uid_invalid = 1011

abbrev pub pending_token_seconds : ℕ
pending_token_seconds = 300

-- std::numeric_limits<int>::max()
abbrev pub int_max : ℕ
int_max = 2147483647

pub record ChatServer : Type 0 where
  pub host : Text
  pub port : Text
  pub name : Text
  pub con_count : ℕ

-- What the code asks of a parsed health report: whether it is an object, its instance_id, and its
-- online count where it is an unsigned 64-bit number.
pub record Health : Type 0 where
  pub is_object : Bool
  pub instance_id : Member
  pub online : Option ℕ

-- isString() and not empty
abbrev pub names_instance : Member → Bool
names_instance (text id) = not (length id == 0)
names_instance m = false

abbrev pub small_count : Option ℕ → Option ℕ
small_count none = none
small_count (some n) = if leb n int_max then some n else none

-- The load of a node, if its report is good.
unfoldable pub load_of : Option Health → Option ℕ
load_of none = none
load_of (some h) =
    if h.is_object && names_instance h.instance_id then small_count h.online else none

-- `minimum` and `candidates` of getChatServer.
pub record Best : Type 0 where
  pub minimum : ℕ
  pub candidates : List ChatServer

abbrev pub no_candidate : Best
no_candidate = record { minimum = int_max; candidates = [] }

-- The body of the loop of getChatServer for a node with a good report.
abbrev pub clear_above : ℕ → Best → Best
clear_above n b = if ltb n b.minimum then record { minimum = n; candidates = [] } else b

abbrev pub keep_equal : ChatServer → Best → Best
keep_equal server b =
    if server.con_count == b.minimum
    then record b { candidates = b.candidates ++ server ∷ [] }
    else b

unfoldable pub consider : ChatServer → Best → Best
consider server b = keep_equal server (clear_above server.con_count b)

-- operator< of std::string.
unfoldable pub text_lt : Text → Text → Bool
text_lt xs [] = false
text_lt [] (y ∷ ys) = true
text_lt (x ∷ xs) (y ∷ ys) = if ltb x y then true else if x == y then text_lt xs ys else false

-- std::sort by name, as insertion: the names of the nodes differ, so the result is the only one.
unfoldable pub insert : ChatServer → List ChatServer → List ChatServer
insert s [] = s ∷ []
insert s (t ∷ rest) =
    let later = t ∷ insert s rest in if text_lt s.name t.name then s ∷ t ∷ rest else later

unfoldable pub sort : List ChatServer → List ChatServer
sort [] = []
sort (s ∷ rest) = insert s (sort rest)

abbrev pub none_left : List ChatServer → Bool
none_left [] = true
none_left (s ∷ rest) = false

-- What getChatServer gives: the error, the node, and `_next_choice` afterwards.
pub record Chosen : Type 0 where
  pub error_code : ℕ
  pub chosen : Option ChatServer
  pub next_choice : ℕ

abbrev pub consider_load : Option ℕ → ChatServer → Best → Best
consider_load none server b = b
consider_load (some n) server b = consider (record server { con_count = n }) b

abbrev pub and_then : Option Best → (Best → Option Best) → Option Best
and_then none next = none
and_then (some b) next = next b

abbrev pub choose_from : Option Best → ℕ → Chosen
choose_from none next = record { error_code = redis_error; chosen = none; next_choice = next }
choose_from (some b) next =
    if none_left b.candidates
    then record { error_code = rpc_failed; chosen = none; next_choice = next }
    else record {
      error_code = success;
      chosen = get_elem? (sort b.candidates) (next % length b.candidates);
      next_choice = add64 next 1;
    }

module _ (parse : Text → Option Health) where
  -- One turn of the loop, by the status of the read; `none` is the return with RedisError.
  abbrev pub visit : ReadStatus → ChatServer → Best → Option Best
  visit error server b = none
  visit missing server b = some b
  visit (found value) server b = some (consider_load (load_of (parse value)) server b)

  -- The loop of getChatServer over `_servers`; `health` is what the read of a node's key gives.
  unfoldable pub scan : (Text → ReadStatus) → List ChatServer → Best → Option Best
  scan health [] b = some b
  scan health (s ∷ rest) b = and_then (visit (health s.name) s b) (scan health rest)

  -- getChatServer.
  unfoldable pub choose_chat_server : (Text → ReadStatus) → List ChatServer → ℕ → Chosen
  choose_chat_server health servers next = choose_from (scan health servers no_candidate) next

-- GetChatServerRsp and LoginRsp: the error, and what is set beside it.
pub record Allocation : Type 0 where
  pub code : ℕ
  pub node : Option ChatServer
  pub ticket : Text

-- A read of Login, by its status: an error, the token, or another key to try.
abbrev pub check_read : ReadStatus → Text → ℕ → ℕ
check_read error token otherwise = redis_error
check_read missing token otherwise = otherwise
check_read (found value) token otherwise = if text_eq value token then success else otherwise

-- The fates of the four reads of Login.
pub record Fates : Type 0 where
  pub issued : Fate
  pub pending : Fate
  pub active : Fate
  pub active_android : Fate

module _ (R : Redis) where
  open R use {State, set_for}

  -- SetEx with a positive time.
  abbrev pub set_ex : Fate → Text → Text → ℕ → State → State × Bool
  set_ex answered key value seconds s = (set_for key value seconds s, true)
  set_ex not_run key value seconds s = (s, false)
  set_ex reply_lost key value seconds s = (set_for key value seconds s, false)

  abbrev pub issue : Chosen → Text → State × Bool → State × Allocation
  issue c token (s, true) = (s, record { code = success; node = c.chosen; ticket = token })
  issue c token (s, false) = (s, record { code = redis_error; node = none; ticket = [] })

  -- GetChatServer from the choice on; `token` is the fresh UUID.
  unfoldable pub get_chat_server : Fate → ℤ → Text → Chosen → State → State × Allocation
  get_chat_server fate uid token c s =
      if not (is_positive uid)
      then (s, record { code = uid_invalid; node = none; ticket = [] })
      else if not (c.error_code == success)
      then (s, record { code = c.error_code; node = none; ticket = [] })
      else issue c token (set_ex fate (token_key uid token) token pending_token_seconds s)

  -- Login: its error code.
  unfoldable pub status_login : Fates → ℤ → Text → State → ℕ
  status_login f uid token s =
      if not (is_positive uid)
      then uid_invalid
      else if length token == 0
      then token_invalid
      else check_read (read R f.issued (token_key uid token) true s) token (
          check_read (read R f.pending (pending_token uid) true s) token (
            check_read (read R f.active (resource_token (to_string uid)) true s) token (
              check_read
                (read R f.active_android (resource_token (to_string uid ++ bytes ":android")) true
                  s)
                token token_invalid)))
