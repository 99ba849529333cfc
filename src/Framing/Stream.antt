-- ===== src/Framing/Stream.antt =====
-- The frames that one side lays out are the messages that the other side reads, however the bytes
-- arrive in pieces.
use cpp_chat.Base.{
  leb, ==_iff, Bool-cases, length, take, drop, All, length-append, take-append-drop, length-take,
  length-drop, append_split, Text, bytes, ℕ, suc, ◌+◌, ◌-◌, ◌/◌, ◌%◌, ◌^◌, ◌≤◌, ◌<◌, min, ◌≡◌, refl,
  ap, ◌∙◌, inl, inr, true, false, some, List, [], ◌∷◌, ◌++◌, append-nil, append_assoc, arith,
}
use cpp_chat.Framing.{
  max_length, head_total_len, store_short, load_short, frame, parse_head, wanted, handler, on_read,
  ByteOrder, SendNode, Phase, in_head, in_body, reading, Reader, Answers,
}

-- A session that has just started to read.
abbrev pub fresh : Reader
fresh = record { phase = in_head; got = []; status = reading; received = [] }

-- What the code relies on: a short that was swapped to network order is swapped back, and a swap stays
-- within 16 bits.
pub record IsByteOrder (order : ByteOrder) : Type 0 where
  pub swap_back :
      (v : ℕ) → v < 2 ^ 16 → order.network_to_host_short (order.host_to_network_short v) ≡ v
  pub short : (v : ℕ) → v < 2 ^ 16 → order.host_to_network_short v < 2 ^ 16

-- A message that Send accepts: a positive id, and a body of 1 to max_length bytes.
pub record IsSendable (n : SendNode) : Type 0 where
  pub id_positive : 0 < n.message_id
  pub id_short : n.message_id < 2 ^ 15
  pub nonempty : 0 < length n.body
  pub fits : length n.body ≤ max_length

abbrev all_well : Answers
all_well = record { stopping = false; posted = true; stopping_after = false }

abbrev piece : ℕ → Reader → ℕ
piece k r = min (suc k) (wanted r.phase - length r.got)

load-store : (v : ℕ) → v < 2 ^ 16 → load_short (v % 256) (v / 256 % 256) ≡ v
load-store v h = omega arith

module _ (order : ByteOrder) where
  abbrev head_of : SendNode → Text
  head_of n =
      store_short (order.host_to_network_short n.message_id)
      ++ store_short (order.host_to_network_short (length n.body))

  abbrev pub frames : List SendNode → Text
  frames [] = []
  frames (n ∷ ns) = frame order n ++ frames ns

  -- A reader that asks for what is missing, and gets up to that many bytes each time, at least one.
  pub receive : List ℕ → Text → Reader → Reader × Text
  receive [] stream r = (r, stream)
  receive (k ∷ ks) [] r = (r, [])
  receive (k ∷ ks) (b ∷ bs) r =
      receive ks (drop (piece k r) (b ∷ bs))
        (on_read order all_well false false (take (piece k r) (b ∷ bs)) r)

module _ (order : ByteOrder) (laws : IsByteOrder order) where
  -- The header of a sendable message is read as its id and its length.
  parse_head-frame :
      (n : SendNode)
      → IsSendable n
      → parse_head order (head_of order n) ≡ some (n.message_id, length n.body)
  unfolding parse_head
  parse_head-frame n s =
      rw
        (
          load-store _ (laws.short n.message_id (omega arith)),
          load-store _ (laws.short (length n.body) (omega arith)),
          laws.swap_back n.message_id (omega arith),
          laws.swap_back (length n.body) (omega arith),
        )
        (ground arith)

  -- What is to be read, given the messages that are to come.
  abbrev Expects : Phase → Text → List SendNode → Type 0
  Expects in_head bytes ns = bytes ≡ frames order ns
  Expects (in_body id len) bytes [] = ⊥
  Expects (in_body id len) bytes (n ∷ ns) =
      (id ≡ n.message_id) × (len ≡ length n.body) × (bytes ≡ n.body ++ frames order ns)

  record Awaits (all ns : List SendNode) (stream : Text) (r : Reader) : Type 0 where
    reads : r.status ≡ reading
    partial : length r.got < wanted r.phase
    expects : Expects r.phase (r.got ++ stream) ns
    so_far : r.received ++ ns ≡ all
    sendable : All IsSendable ns

  Later : List SendNode → Text → Reader → Type 0
  Later all rest r = (ns : List SendNode) × Awaits all ns rest r

  -- A complete header.
  head-Later :
      (all ns : List SendNode) (bytes rest : Text) (r : Reader)
      → r.status ≡ reading
      → length bytes ≡ head_total_len
      → bytes ++ rest ≡ frames order ns
      → r.received ++ ns ≡ all
      → All IsSendable ns
      → Later all rest (handler order all_well in_head bytes r)
  unfolding Later
  head-Later all [] [] rest r s l e f p = absurd (omega arith)
  head-Later all [] (x ∷ bytes) rest r s l e f p = absurd (ground arith)
  head-Later all (n ∷ ns) bytes rest r s l e f p =
      let (at_head, at_rest) =
        append_split bytes rest (head_of order n) (n.body ++ frames order ns) (unfold frame in e)
          (omega arith) in
      (
        n ∷ ns,
        rw (at_head, parse_head-frame n p.0)
            (record {
              reads = s;
              partial = p.0.nonempty;
              expects = (refl, refl, at_rest);
              so_far = f;
              sendable = p;
            }),
      )

  -- A complete body.
  body-Later :
      (all ns : List SendNode) (id len : ℕ) (bytes rest : Text) (r : Reader)
      → r.status ≡ reading
      → length bytes ≡ len
      → Expects (in_body id len) (bytes ++ rest) ns
      → r.received ++ ns ≡ all
      → All IsSendable ns
      → Later all rest (handler order all_well (in_body id len) bytes r)
  unfolding Later
  body-Later all [] id len bytes rest r s l e f p = absurd e
  body-Later all (n ∷ ns) id len bytes rest r s l e f p =
      let (at_body, at_rest) =
        append_split bytes rest n.body (frames order ns) e.2 (omega (arith, e.1)) in
      (
        ns,
        rw (at_body, e.0, e.1, (==_iff (length n.body) (length n.body)).1 refl)
            (record {
              reads = s;
              partial = omega arith;
              expects = at_rest;
              so_far = append_assoc r.received (n ∷ []) ns ∙ f;
              sendable = p.1;
            }),
      )

  handler-Later :
      (q : Phase) (all ns : List SendNode) (bytes rest : Text) (r : Reader)
      → r.status ≡ reading
      → length bytes ≡ wanted q
      → Expects q (bytes ++ rest) ns
      → r.received ++ ns ≡ all
      → All IsSendable ns
      → Later all rest (handler order all_well q bytes r)
  handler-Later in_head all ns bytes rest r s l e f p = head-Later all ns bytes rest r s l e f p
  handler-Later (in_body id len) all ns bytes rest r s l e f p =
      body-Later all ns id len bytes rest r s l e f p

  -- A piece that is not longer than what is missing.
  on_read-Later :
      (all ns : List SendNode) (chunk rest : Text) (r : Reader)
      → length r.got + length chunk ≤ wanted r.phase
      → Awaits all ns (chunk ++ rest) r
      → Later all rest (on_read order all_well false false chunk r)
  unfolding on_read
  on_read-Later all ns chunk rest r fits w =
      let e : Expects r.phase ((r.got ++ chunk) ++ rest) ns =
        rw (append_assoc r.got chunk rest) w.expects in
      elim (Bool-cases (leb (wanted r.phase) (length (r.got ++ chunk)))) [
        | inl full ↦ rw full (
            handler-Later r.phase all ns (r.got ++ chunk) rest r w.reads
              (ground (arith, length-append r.got chunk)) e w.so_far w.sendable)
        | inr short ↦ rw short (
            unfold Later in
            (
              ns,
              record {
                reads = w.reads;
                partial = ground arith;
                expects = e;
                so_far = w.so_far;
                sendable = w.sendable;
              },
            ))
      ]

  -- After enough reads the stream is used up, and nothing is awaited.
  receive-Awaits :
      (ks : List ℕ) (all ns : List SendNode) (stream : Text) (r : Reader)
      → length stream ≤ length ks
      → Awaits all ns stream r
      → let (r', rest) = receive order ks stream r in (rest ≡ []) × Later all [] r'
  unfolding receive Later
  receive-Awaits [] all ns [] r h w = (refl, (ns, w))
  receive-Awaits (k ∷ ks) all ns [] r h w = (refl, (ns, w))
  receive-Awaits [] all ns (b ∷ bs) r h w = absurd (omega arith)
  receive-Awaits (k ∷ ks) all ns (b ∷ bs) r h w =
      let p = piece k r in
      let (ns', w') =
        on_read-Later all ns (take p (b ∷ bs)) (drop p (b ∷ bs)) r
          (omega (arith, length-take p (b ∷ bs), w.partial)) (rw take-append-drop w) in
      receive-Awaits ks all ns' (drop p (b ∷ bs)) _
        (omega (arith, length-drop p (b ∷ bs), w.partial)) w'

  -- With no bytes left, an unfinished read cannot expect a message.
  end-lem :
      (q : Phase) (got : Text) (ns : List SendNode)
      → length got < wanted q
      → Expects q (got ++ []) ns
      → All IsSendable ns
      → (ns ≡ []) × (q ≡ in_head) × (got ≡ [])
  unfolding frame
  end-lem in_head got [] l e p = ground (arith, append-nil got)
  end-lem in_head got (n ∷ ns) l e p = absurd (omega (arith, ap length e, length-append got []))
  end-lem (in_body id len) got [] l e p = absurd e
  end-lem (in_body id len) got (n ∷ ns) l e p = absurd (
      omega
        (arith, e.1, ap length e.2, length-append got [], length-append n.body (frames order ns)))

  -- The messages of a run of frames order are read back, each once and in order, with the same ids and
  -- bodies, however the bytes are cut into pieces, if each read brings at least one byte and at most what
  -- it asked for, every message is one that Send accepts, and the reads are enough for the bytes;
  -- the reader is then at the start of a header.
  pub receive-frames :
      (ks : List ℕ) (ns : List SendNode)
      → All IsSendable ns
      → length (frames order ns) ≤ length ks
      → receive order ks (frames order ns) fresh
        ≡ (record { phase = in_head; got = []; status = reading; received = ns }, [])
  unfolding Later
  receive-frames ks ns p enough =
      let w : Awaits ns ns (frames order ns) fresh = record {
        reads = refl;
        partial = omega arith;
        expects = refl;
        so_far = refl;
        sendable = p;
      } in
      let (used, (rest, w')) = receive-Awaits ks ns ns (frames order ns) fresh enough w in
      let r' = (receive order ks (frames order ns) fresh).0 in
      let (none_left, at_head, empty) =
        end-lem r'.phase r'.got rest w'.partial w'.expects w'.sendable in
      ground (arith, append-nil r'.received, w'.reads, w'.so_far)
