-- ===== src/Transfer/Sender/Sent.antt =====
-- What the sending loop of `sendfile.c` may put on the network, and what it leaves alone.
use comp429_computer_network.Base.{
  ℕ, ◌+◌, ◌≤◌, ◌<◌, ◌≡◌, List, [], ◌∷◌, ◌++◌, Option, some, length, arith, All,
}
use comp429_computer_network.Transfer.Packet.{chunk_packet}
use comp429_computer_network.Transfer.Sender.{Sender}
use comp429_computer_network.Transfer.Sender.Window.{Sending}

-- A packet of a chunk of the file that is no further than the window.
abbrev pub IsDue : List (List ℕ) → ℕ → List ℕ → Type 0
IsDue chunks acked dg =
    (j : ℕ) × (acked ≤ j) × (j < acked + 8) × (j < length chunks) × (dg ≡ chunk_packet chunks j)

-- The same, of one of the first `read` chunks.
abbrev pub IsSent : List (List ℕ) → ℕ → ℕ → List ℕ → Type 0
IsSent chunks acked read dg =
    (j : ℕ) × (acked ≤ j) × (j < acked + 8) × (j < read) × (dg ≡ chunk_packet chunks j)

-- Later on more chunks are read, and the time of the last acknowledgement is the same.
abbrev pub IsLater : Sender → Sender → Type 0
IsLater s t = (s.packet_id ≤ t.packet_id) × (t.last_ack_time ≡ s.last_ack_time)

-- A step of the loop that succeeds, keeps the invariant and the window, and sends only what is due;
-- afterwards at least `bound` chunks are read.
abbrev pub Sends : List (List ℕ) → ℕ → ℕ → ℕ → Sender → Option (Sender × List (List ℕ)) → Type 0
Sends chunks acked la bound before result =
    (s : Sender) × (sent : List (List ℕ)) × (result ≡ some (s, sent))
    × Sending chunks acked s
    × (s.la_seq ≡ la)
    × (bound ≤ s.packet_id)
    × IsLater before s
    × All (IsSent chunks acked s.packet_id) sent

module _ (P : List ℕ → Type 0) where
  pub All-append : (xs ys : List (List ℕ)) → All P xs → All P ys → All P (xs ++ ys)
  All-append [] ys hx hy = hy
  All-append (x ∷ xs) ys hx hy = (hx.0, All-append xs ys hx.1 hy)

  pub All-map :
      {Q : List ℕ → Type 0} (xs : List (List ℕ)) → ((x : List ℕ) → P x → Q x) → All P xs → All Q xs
  All-map [] f h = tt
  All-map (x ∷ xs) f h = (f x h.0, All-map xs f h.1)

module _ (chunks : List (List ℕ)) (acked : ℕ) where
  pub IsSent-weaken :
      (read read' : ℕ) (xs : List (List ℕ))
      → read ≤ read'
      → All (IsSent chunks acked read) xs
      → All (IsSent chunks acked read') xs
  IsSent-weaken read read' xs more = All-map _ xs (λ x h. (h.0, h.1, h.2, omega (arith, h.3), h.4))

  pub IsSent-IsDue :
      (read : ℕ) (xs : List (List ℕ))
      → read ≤ length chunks
      → All (IsSent chunks acked read) xs
      → All (IsDue chunks acked) xs
  IsSent-IsDue read xs within = All-map _ xs (λ x h. (h.0, h.1, h.2, omega (arith, h.3), h.4))
