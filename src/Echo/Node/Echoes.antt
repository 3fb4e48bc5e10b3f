-- ===== src/Echo/Node/Echoes.antt =====
-- One message through `serverRecieving` and `serverSending`.
use comp429_computer_network.Base.{
  ℕ, ◌+◌, ◌-◌, ◌≤◌, ◌<◌, ◌≡◌, refl, sym, ap, ◌∙◌, List, [], ◌∷◌, ◌++◌, true, false, some, length,
  take, drop, joined, ltb, ◌==◌, arith, load16, htons, load16-overwrite, length-append,
  get_or-append_left, append-nil, ==_iff,
}
use mathlib.Core.List.{append_assoc}
use comp429_computer_network.Echo.Sockets.{took, got}
use comp429_computer_network.Echo.Node.{
  Node, server_receiving, server_sending, after_receive, after_send,
}
use comp429_computer_network.Base.{Bool-cases, inl, inr}
use comp429_computer_network.Echo.Node.Pieces.{
  Holding, Ready, length-write_at, len_with, len_with-known, piece-Holding, piece-Ready,
}

-- The server's passes over pieces of a message, one `recv` each.
pub receive_all : List (List ℕ) → Node → Node
receive_all [] n = n
receive_all (p ∷ ps) n = receive_all ps (server_receiving (got p) n).1

-- Every piece has at least a byte.
abbrev pub IsCut : List (List ℕ) → Type 0
IsCut [] = Unit
IsCut (p ∷ ps) = (1 ≤ length p) × IsCut ps

receiving-some :
    (p : List ℕ) (n : Node) → 1 ≤ length p → (server_receiving (got p) n).1 ≡ after_receive p n
unfolding server_receiving
receiving-some [] n h = absurd (omega arith)
receiving-some (b ∷ p) n h = refl

after_receive-room : (p : List ℕ) (n : Node) → length n.buffer ≤ length (after_receive p n).buffer
unfolding after_receive
after_receive-room p n = elim (Bool-cases ((n.added_pos + length p) == len_with p n)) [
  | inl done ↦ rw done (length-write_at n.buffer p n.added_pos)
  | inr more ↦ rw more (length-write_at n.buffer p n.added_pos)
]

-- The buffer does not shrink.
pub receive_all-room :
    (ps : List (List ℕ)) (n : Node) → length n.buffer ≤ length (receive_all ps n).buffer
unfolding receive_all server_receiving
receive_all-room [] n = omega arith
receive_all-room ([] ∷ ps) n = receive_all-room ps n
receive_all-room ((b ∷ p) ∷ ps) n =
    omega (arith, receive_all-room ps (after_receive (b ∷ p) n), after_receive-room (b ∷ p) n)

joined-IsCut : (ps : List (List ℕ)) → IsCut ps → length ps ≤ length (joined ps)
joined-IsCut [] cut = omega arith
joined-IsCut (p ∷ ps) cut = omega (arith, length-append p (joined ps), joined-IsCut ps cut.1)

-- The pieces after the first.
receive_all-Ready :
    (ps : List (List ℕ)) (before : List ℕ) (size : ℕ) (n : Node)
    → Holding before size n
    → IsCut ps
    → 1 ≤ length ps
    → length before + length (joined ps) ≡ size
    → Ready (before ++ joined ps) (receive_all ps n)
unfolding receive_all
receive_all-Ready [] before size n h cut some_piece all = absurd (omega arith)
receive_all-Ready (p ∷ []) before size n h cut some_piece all =
    rw (receiving-some p n cut.0, append-nil p)
      (piece-Ready before p size n h.room h.at h.idle h.held
        (len_with-known p size n h.known
          (omega (arith, cut.0, ap (λ (xs : List ℕ). length xs) (append-nil p))))
        (omega (arith, ap (λ (xs : List ℕ). length xs) (append-nil p)))
        (omega (arith, ap (λ (xs : List ℕ). length xs) (append-nil p))))
receive_all-Ready (p ∷ q ∷ ps) before size n h cut some_piece all =
    rw (receiving-some p n cut.0, ← append_assoc before p (joined (q ∷ ps)))
      (receive_all-Ready (q ∷ ps) (before ++ p) size (after_receive p n)
        (piece-Holding before p size n h.room h.at h.idle h.held
          (len_with-known p size n h.known
            (omega (arith, cut.0, length-append p (joined (q ∷ ps)))))
          (omega (arith, length-append p (joined (q ∷ ps))))
          (omega (arith, length-append p (joined (q ∷ ps)), joined-IsCut (q ∷ ps) cut.1)))
        cut.1 (omega arith)
        (omega (arith, length-append before p, length-append p (joined (q ∷ ps)))))

-- A connection with no message under way.
pub record Idle (n : Node) : Type 0 where
  pub room : 65535 ≤ length n.buffer
  pub pending : n.pending_data ≡ 0
  pub from_start : n.added_pos ≡ 0
  pub unknown : n.len_buffer ≡ 0

-- A message that states its own length in its first two bytes.
pub record IsMessage (message : List ℕ) : Type 0 where
  pub short : length message ≤ 65535
  pub stated : htons (load16 message 0) ≡ length message

load16-append : (xs ys : List ℕ) → 2 ≤ length xs → load16 (xs ++ ys) 0 ≡ load16 xs 0
unfolding load16
load16-append xs ys h =
    omega (
      arith,
      get_or-append_left xs ys 0 0 (omega arith),
      get_or-append_left xs ys 1 0 (omega arith),
    )

len_with-first :
    (p rest : List ℕ) (n : Node)
    → Idle n
    → 2 ≤ length p
    → IsMessage (p ++ rest)
    → len_with p n ≡ length (p ++ rest)
len_with-first p rest n idle long message =
    let new : (n.len_buffer == 0) ≡ true = (==_iff n.len_buffer 0).1 idle.unknown in
    rw (new, idle.from_start)
      (ap htons (load16-overwrite p n.buffer 0 (omega arith) ∙ sym (load16-append p rest long))
        ∙ message.stated)

-- A message that comes in any number of pieces, the first of at least two bytes, is held whole in the
-- end and waits to be sent back.
pub receive_all-message :
    (p : List ℕ) (ps : List (List ℕ)) (n : Node)
    → Idle n
    → 2 ≤ length p
    → IsCut ps
    → IsMessage (joined (p ∷ ps))
    → Ready (joined (p ∷ ps)) (receive_all (p ∷ ps) n)
unfolding receive_all
receive_all-message p [] n idle long cut message =
    rw (receiving-some p n (omega arith), append-nil p)
      (piece-Ready [] p (length p) n
        (omega (arith, idle.room, message.short, ap (λ (xs : List ℕ). length xs) (append-nil p)))
        idle.from_start idle.pending refl
        (len_with-first p [] n idle long message ∙ ap (λ (xs : List ℕ). length xs) (append-nil p))
        (omega arith) (omega arith))
receive_all-message p (q ∷ ps) n idle long cut message = rw (receiving-some p n (omega arith)) (
    receive_all-Ready (q ∷ ps) p (length (p ++ joined (q ∷ ps))) (after_receive p n)
      (piece-Holding [] p (length (p ++ joined (q ∷ ps))) n
        (omega (arith, idle.room, message.short)) idle.from_start idle.pending refl
        (len_with-first p (joined (q ∷ ps)) n idle long message)
        (omega (arith, length-append p (joined (q ∷ ps))))
        (omega (arith, length-append p (joined (q ∷ ps)), joined-IsCut (q ∷ ps) cut)))
      cut (omega arith) (omega (arith, length-append p (joined (q ∷ ps)))))

module _ (message : List ℕ) (n : Node) (r : Ready message n) where
  -- One `send` that takes the whole message leaves the connection as it was before the message.
  pub server_sending-whole :
      1 ≤ length message
      → server_sending (took (length message)) n
        ≡ some (true, record n { added_pos = 0; pending_data = 0; len_buffer = 0 }, message)
  unfolding server_sending after_send
  server_sending-whole some_byte =
      let some_sent : (length message == 0) ≡ false = ground arith in
      let ordered : ltb n.len_buffer n.added_pos ≡ false = ground (arith, r.from_start) in
      let all : (length message == n.len_buffer) ≡ true =
        (==_iff (length message) n.len_buffer).1 (sym r.known) in
      rw (server_sending, ordered, some_sent, all, r.from_start, r.held) refl

  -- When `send` takes the message in two parts, the connection still waits to send, and from the
  -- length of the second part on: the position is the last call's count, not the sum of both.
  pub server_sending-parts :
      (count : ℕ)
      → 1 ≤ count
      → count < length message
      → (m : Node) × (s : Node) × (server_sending (took count) n
          ≡ some (true, m, take count n.buffer))
        × (server_sending (took (length message - count)) m
            ≡ some (true, s, take (length message - count) (drop count n.buffer)))
        × (s.pending_data ≡ 1)
        × (s.added_pos ≡ length message - count)
        × (s.len_buffer ≡ length message)
  unfolding server_sending after_send
  server_sending-parts count some_byte part =
      let some_sent : (count == 0) ≡ false = ground arith in
      let ordered : ltb n.len_buffer n.added_pos ≡ false = ground (arith, r.from_start) in
      let not_all : (count == n.len_buffer) ≡ false = ground (arith, r.known) in
      let some_left : (length message - count == 0) ≡ false = ground arith in
      let ordered' : ltb n.len_buffer count ≡ false = ground (arith, r.known) in
      let not_all' : (length message - count == n.len_buffer) ≡ false = ground (arith, r.known) in
      (
        record n { added_pos = count },
        record n { added_pos = length message - count },
        rw (server_sending, ordered, some_sent, not_all, r.from_start) refl,
        rw (server_sending, ordered', some_left, not_all') refl,
        r.pending,
        refl,
        r.known,
      )
