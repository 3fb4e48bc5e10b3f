-- ===== src/Transfer/Sender/Moves.antt =====
-- What one acknowledgement does to the sender's window.
use comp429_computer_network.Base.{
  ℕ, ◌+◌, ◌-◌, ◌%◌, ◌≤◌, ◌<◌, ◌≡◌, refl, inl, inr, List, length, arith, dec_lt, true, false, leb,
  ltb,
}
use comp429_computer_network.Transfer.Sender.{Sender, Time}
use comp429_computer_network.Transfer.Sender.Window.{Sending, get_elem?-some}
use comp429_computer_network.Transfer.Sender.Sent.{IsLater}
use comp429_computer_network.Base.{get_or, some, Option, ◌∙◌}
use comp429_computer_network.Transfer.Util.{between}
use comp429_computer_network.Transfer.Sender.{
  take_ack, Outcome, finished, continue, proceed, is_last_ack, move_window, set_timeout,
  clear_acked, free_alarm, new_timeout, elapsed,
}
use comp429_computer_network.Transfer.Sender.Acks.{Sending-misc, clear_acked-Sending}

-- How an acknowledgement of the first m chunks leaves the loop: with all of them, the loop ends.
abbrev pub IsMoved : List (List ℕ) → ℕ → Outcome → Type 0
IsMoved chunks m finished = m ≡ length chunks
IsMoved chunks m (continue t) = ⊥
IsMoved chunks m (proceed t) = Sending chunks m t

-- An outcome with at least `read` chunks read, that has heard of `time`.
abbrev pub IsAt : ℕ → ℕ → Outcome → Type 0
IsAt read time finished = Unit {0}
IsAt read time (continue t) = ⊥
IsAt read time (proceed t) = (read ≤ t.packet_id) × (t.last_ack_time ≡ time)

set_timeout-Sending :
    (now : Time) (ack_num : ℕ) (chunks : List (List ℕ)) (acked : ℕ) (s : Sender)
    → ack_num < 16
    → Sending chunks acked s
    → (t : Sender) × (set_timeout now ack_num s ≡ some t) × Sending chunks acked t × IsLater s t
unfolding set_timeout
set_timeout-Sending now ack_num chunks acked s fits h =
    let there = get_elem?-some s.alarm_list ack_num free_alarm (omega (arith, h.alarms_len)) in
    (
      record s { timeout = new_timeout (elapsed now (get_or s.alarm_list ack_num free_alarm)) },
      rw there refl,
      Sending-misc chunks acked s s.last_ack_time _ s.buf h,
      (omega arith, refl),
    )

-- The window test, for the number that acknowledges m chunks.
ack-inside :
    (acked m : ℕ)
    → acked ≤ m
    → m ≤ acked + 8
    → between (acked % 16) ((acked % 16 + 7) % 16) ((m + 15) % 16) ≡ ltb acked m
unfolding between
ack-inside acked m new near = ground arith

module _ (chunks : List (List ℕ)) (acked : ℕ) (now : Time) (m : ℕ) (s : Sender)
    (h : Sending chunks acked s) (new : acked ≤ m) (read : m ≤ s.packet_id) where
  abbrev Taken : Option Outcome → Type 0
  Taken result =
      (o : Outcome) × (result ≡ some o) × IsMoved chunks m o × IsAt s.packet_id s.last_ack_time o

  near : m ≤ acked + 8
  near = omega (arith, h.count, h.few)

  last_all : acked < m → m ≡ length chunks → is_last_ack s.last_window ((m + 15) % 16) ≡ true
  unfolding is_last_ack
  last_all moved all = elim h.last [
    | inl (unknown, part) ↦ absurd (omega arith)
    | inr (known, whole) ↦ rw (is_last_ack, known) (ground arith)
  ]

  last_none : acked < m → m < length chunks → is_last_ack s.last_window ((m + 15) % 16) ≡ false
  unfolding is_last_ack
  last_none moved part = elim h.last [
    | inl (unknown, _) ↦ rw (is_last_ack, unknown) refl
    | inr (known, whole) ↦ rw (is_last_ack, known) (ground (arith, near, h.count, h.few))
  ]

  inside : between s.la_seq ((s.la_seq + 8 - 1) % 16) ((m + 15) % 16) ≡ ltb acked m
  inside =
      let at : acked % 16 + 8 - 1 ≡ acked % 16 + 7 = omega arith in
      rw (h.start, at) (ack-inside acked m new near)

  small : leb 16 ((m + 15) % 16) ≡ false
  small = ground arith

  moved-Sending :
      acked < m
      → m < length chunks
      → (t : Sender) × (move_window ((m + 15) % 16) s ≡ some t) × Sending chunks m t × IsLater s t
  unfolding move_window
  moved-Sending moved part =
      let (t, done, sending, later) =
        clear_acked-Sending chunks acked (m - acked) (omega arith) (omega (arith, near))
          (omega arith) 8 0 s (omega arith) refl (omega arith) from_start in
      slid t done sending later
    where
      whole : acked + (m - acked) ≡ m
      whole = omega arith

      number : (acked % 16 + (m - acked) + 15) % 16 ≡ (m + 15) % 16
      number = omega arith

      at : acked % 16 + 0 ≡ acked % 16
      at = omega arith

      next : ((m + 15) % 16 + 1) % 16 ≡ m % 16
      next = omega arith

      after :
          (t : Sender)
          → clear_acked s.la_seq ((m + 15) % 16) 8 s.la_seq s ≡ some t
          → move_window ((m + 15) % 16) s ≡ some (record t { la_seq = ((m + 15) % 16 + 1) % 16 })
      after t done = rw (move_window, done) refl

      slid :
          (t : Sender)
          → clear_acked (acked % 16) ((acked % 16 + (m - acked) + 15) % 16) 8 (acked % 16 + 0) s
            ≡ some t
          → Sending chunks (acked + (m - acked)) (record t { la_seq = (acked + (m - acked)) % 16 })
          → IsLater s t
          → (t : Sender) × (move_window ((m + 15) % 16) s ≡ some t)
            × Sending chunks m t
            × IsLater s t
      slid t done sending later = (
        record t { la_seq = ((m + 15) % 16 + 1) % 16 },
        after t (rw (number, at, ← h.start) at done),
        rw next (rw whole at sending),
        later,
      )

      from_start : Sending chunks (acked + 0) (record s { la_seq = (acked + 0) % 16 })
      from_start = let zero_more : acked + 0 ≡ acked = omega arith in rw (zero_more, ← h.start) h

  taken : acked < m → m < length chunks → Taken (take_ack now ((m + 15) % 16) s)
  unfolding take_ack
  taken moved part =
      let is_inside : ltb acked m ≡ true = ground arith in
      let (t, slid, sending, later) = moved-Sending moved part in
      let (u, timed, sending', later') =
        set_timeout-Sending now ((m + 15) % 16) chunks m t (omega arith) sending in
      (
        proceed u,
        rw (small, inside, is_inside, last_none moved part, slid, timed) refl,
        sending',
        (omega (arith, later.0, later'.0), later'.1 ∙ later.1),
      )

  pub take_ack-Taken : Taken (take_ack now ((m + 15) % 16) s)
  unfolding take_ack
  take_ack-Taken = elim (dec_lt acked m) [
    | yes moved ↦ elim (dec_lt m (length chunks)) [
      | yes part ↦ taken moved part
      | no whole ↦
          let is_inside : ltb acked m ≡ true = ground arith in
          let all : m ≡ length chunks = omega (arith, h.within) in
          (finished, rw (small, inside, is_inside, last_all moved all) refl, all, tt)
    ]
    | no still ↦
        let same : acked ≡ m = omega arith in
        let outside : ltb acked m ≡ false = ground arith in
        let (u, timed, sending, later) =
          set_timeout-Sending now ((m + 15) % 16) chunks m s (omega arith) (rw same at h) in
        (proceed u, rw (small, inside, outside, timed) refl, sending, later)
  ]

  -- The acknowledgement of the first m chunks, of which the sender has sent all, is taken without an
  -- access outside the alarm list; it ends the loop if these are all chunks of the file, and otherwise
  -- moves the window to chunk m.
  pub take_ack-IsMoved :
      (o : Outcome) × (take_ack now ((m + 15) % 16) s ≡ some o) × IsMoved chunks m o
  take_ack-IsMoved = let (o, e, moved, _) = take_ack-Taken in (o, e, moved)
