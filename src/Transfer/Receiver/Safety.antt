-- ===== src/Transfer/Receiver/Safety.antt =====
-- The data loop of `recvfile.c` against the file, pass by pass.
use comp429_computer_network.Base.{
  ℕ, ◌+◌, ◌-◌, ◌%◌, ◌≤◌, ◌<◌, ◌≡◌, refl, sym, subst, ◌∙◌, ◌⊎◌, inl, inr, List, [], Option, some,
  length, get_elem?, get_elem?-eq-get_or, get_or, get_or-replicate, take, drop, overwrite, arith,
  dec_lt, ◌>>=◌, Bool-cases, ◌==◌, true, false, ltb, if◌then◌else◌,
}
use comp429_computer_network.Base.Int.{pos}
use comp429_computer_network.Transfer.Util.{between, between_window, seq_len, window_len}
use comp429_computer_network.Transfer.Packet.{
  chunk_packet, crc_matches, seq_field, type_field, id_field,
}
use comp429_computer_network.Transfer.Receiver.{Receiver, flag, accept, take_data, receive, init}
use comp429_computer_network.Transfer.Receiver.Accept.{accept-Inv}
use comp429_computer_network.Transfer.Receiver.Invariant.{Inv, KeepsBelow}
use comp429_computer_network.Transfer.Receiver.Files.{
  IsFile, chunk_packet-Reads, length-chunk_packet, type_passes, type_four,
}

-- What the network may hand to the receiver: nothing, a datagram that fails the CRC test, one that is
-- not new, or the packet of a chunk that lies no further than the window.
pub data Arrives (chunks : List (List ℕ)) (r : Receiver) (dg : List ℕ) : Type 0 where
  nothing : dg ≡ [] → Arrives chunks r dg
  damaged :
      2 ≤ length dg → crc_matches (overwrite dg r.buf) (length dg) ≡ false → Arrives chunks r dg
  stale : 2 ≤ length dg → id_field (overwrite dg r.buf) ≤ r.last_id → Arrives chunks r dg
  packet :
      (j : ℕ)
      → j < length chunks
      → j < r.last_id + 8
      → dg ≡ chunk_packet chunks j
      → Arrives chunks r dg

-- Inv says nothing of the buffer and of the variables of the exit test.
Inv-buf :
    (chunks : List (List ℕ)) (r : Receiver) (b : List ℕ)
    → Inv chunks r
    → Inv chunks (record r { buf = b })
Inv-buf chunks r b inv = record {
  holds = record {
    window = inv.holds.window;
    counted = refl;
    put_out = inv.holds.put_out;
    within = inv.holds.within;
  };
  start = inv.start;
  gap = inv.gap;
  exit = inv.exit;
}

Inv-marked :
    (chunks : List (List ℕ)) (r : Receiver)
    → length chunks ≤ r.last_id + 8
    → 1 ≤ length chunks
    → Inv chunks r
    → Inv chunks (record r { ready_exit = 1; last_window = pos ((length chunks - 1) % 16) })
Inv-marked chunks r near some_chunk inv = record {
  holds = record {
    window = inv.holds.window;
    counted = refl;
    put_out = inv.holds.put_out;
    within = inv.holds.within;
  };
  start = inv.start;
  gap = inv.gap;
  exit = inr (refl, near, some_chunk, inl refl);
}

pub init-Inv : (chunks : List (List ℕ)) → Inv chunks init
unfolding init
init-Inv chunks = record {
  holds = record {
    window = record {
      flags_len = refl;
      nodes_len = refl;
      held = λ j p q raised. absurd (raised (down j));
    };
    counted = refl;
    put_out = refl;
    within = omega arith;
  };
  start = refl;
  gap = refl;
  exit = inl refl;
}
  where
    down : (j : ℕ) → flag init.received j ≡ 0
    down j = get_or-replicate 16 (j % 16) 0

-- What a step of the loop gives: no fault, the invariant, and no step back.
abbrev Steps : List (List ℕ) → Receiver → Option Receiver → Type 0
Steps chunks r result = (s : Receiver) × (result ≡ some s) × Inv chunks s × (r.last_id ≤ s.last_id)

module _ (chunks : List (List ℕ)) (file : IsFile chunks) where
  -- A packet of the window that passed the tests before.
  module _ (j recvlen : ℕ) (within : j < length chunks) (long : 12 ≤ recvlen) where
    -- Chunk j lies in the window of `m`, and its data in the buffer.
    record Due (m : Receiver) : Type 0 where
      inv : Inv chunks m
      lo : m.last_id ≤ j
      hi : j < m.last_id + 8
      data_eq : take (recvlen - 12) (drop 12 m.buf) ≡ get_or chunks j []

    place :
        (m : Receiver)
        → Due m
        → (s : Receiver) × ((get_elem? m.received (j % 16) >>= λ f.
              if f == 0 then accept recvlen (j % 16) m else some m)
            ≡ some s)
          × Inv chunks s
          × (m.last_id ≤ s.last_id)
          × (j ≡ m.last_id → m.last_id < s.last_id)
          × KeepsBelow j m s
    place m due = elim (Bool-cases (flag m.received j == 0)) [
      | inl new ↦
          let done =
            accept-Inv chunks (omega (arith, file.countable)) j recvlen m due.inv due.lo due.hi
              within long due.data_eq in
          (done.0, rw (found, new) done.1, done.2, done.3, done.4, done.5)
      | inr old ↦ (
        m,
        rw (found, old),
        due.inv,
        omega arith,
        (λ e. absurd (first_is_new e old)),
        λ bound near below. below,
      )
    ]
      where
        found : get_elem? m.received (j % 16) ≡ some (flag m.received j)
        found =
            get_elem?-eq-get_or m.received (j % 16) 0
              (omega (arith, due.inv.holds.window.flags_len))

        first_is_new : j ≡ m.last_id → (flag m.received j == 0) ≡ false → ⊥
        first_is_new e old =
            let down : flag m.received j ≡ 0 = rw e due.inv.gap in ground (arith, down)

    Due-marked :
        (r : Receiver)
        → j + 1 ≡ length chunks
        → Due r
        → Due (record r { ready_exit = 1; last_window = pos (j % 16) })
    Due-marked r last due = record {
      inv =
          let e : j ≡ length chunks - 1 = omega arith in
          subst (λ k. Inv chunks (record r { ready_exit = 1; last_window = pos (k % 16) })) (sym e)
            (Inv-marked chunks r (omega (arith, due.hi)) (omega arith) due.inv);
      lo = due.lo;
      hi = due.hi;
      data_eq = due.data_eq;
    }

    take_data-Steps :
        (r : Receiver)
        → Due r
        → seq_field r.buf ≡ j % 16
        → ((type_field r.buf == 4) ≡ true → j + 1 ≡ length chunks)
        → (s : Receiver) × (take_data recvlen r ≡ some s)
          × Inv chunks s
          × (r.last_id ≤ s.last_id)
          × (j ≡ r.last_id → r.last_id < s.last_id)
          × KeepsBelow j r s
    unfolding take_data
    take_data-Steps r due seq_eq final = elim (Bool-cases (type_field r.buf == 4)) [
      | inl last ↦
          rw (seq_eq, last, inside)
            (place (record r { ready_exit = 1; last_window = pos (j % 16) })
              (Due-marked r (final last) due))
      | inr more ↦ rw (seq_eq, more, inside) (place r due)
    ]
      where
        inside : between r.la_seq ((r.la_seq + window_len - 1) % seq_len) (j % 16) ≡ true
        inside =
            (between_window r.la_seq (j % 16) (omega (arith, due.inv.start)) (omega arith)).1
              (omega (arith, due.inv.start, due.lo, due.hi))

  -- The packet of a chunk goes through the tests of `receive` to `take_data`.
  receive-packet :
      (j : ℕ) (r : Receiver)
      → j < length chunks
      → r.last_id ≤ j
      → receive (chunk_packet chunks j) r
        ≡ take_data
            (length (get_or chunks j []) + 12)
            (record r { buf = overwrite (chunk_packet chunks j) r.buf })
  unfolding receive
  receive-packet j r within lo =
      let reads = chunk_packet-Reads chunks file j r.buf within in
      let new : ltb r.last_id (j + 1) ≡ true = ground arith in
      rw
        (
          length-chunk_packet chunks file j,
          reads.intact,
          reads.type_read,
          reads.id_read,
          type_passes chunks file j,
          new,
        )
        (ground arith)

  -- A datagram that is damaged or not new changes the buffer alone.
  pub receive-ignored :
      (dg : List ℕ) (r : Receiver)
      → 2 ≤ length dg
      → (crc_matches (overwrite dg r.buf) (length dg) ≡ false)
        ⊎ (id_field (overwrite dg r.buf) ≤ r.last_id)
      → receive dg r ≡ some (record r { buf = overwrite dg r.buf })
  unfolding receive
  receive-ignored dg r long why = ground arith

  ignored-Steps :
      (dg : List ℕ) (r : Receiver)
      → Inv chunks r
      → 2 ≤ length dg
      → (crc_matches (overwrite dg r.buf) (length dg) ≡ false)
        ⊎ (id_field (overwrite dg r.buf) ≤ r.last_id)
      → Steps chunks r (receive dg r)
  ignored-Steps dg r inv long why =
      (_, receive-ignored dg r long why, Inv-buf chunks r (overwrite dg r.buf) inv, omega arith)

  -- A packet of the window is taken without a fault, and the next chunk due is written out.
  pub receive-due :
      (j : ℕ) (r : Receiver)
      → Inv chunks r
      → j < length chunks
      → r.last_id ≤ j
      → j < r.last_id + 8
      → (s : Receiver) × (receive (chunk_packet chunks j) r ≡ some s)
        × Inv chunks s
        × (r.last_id ≤ s.last_id)
        × (j ≡ r.last_id → r.last_id < s.last_id)
        × KeepsBelow j r s
  receive-due j r inv within lo hi =
      let reads = chunk_packet-Reads chunks file j r.buf within in
      let got = record r { buf = overwrite (chunk_packet chunks j) r.buf } in
      let size : length (get_or chunks j []) + 12 - 12 ≡ length (get_or chunks j []) =
        omega arith in
      let done =
        take_data-Steps j (length (get_or chunks j []) + 12) within (omega arith) got
          (record {
            inv = Inv-buf chunks r _ inv;
            lo = lo;
            hi = hi;
            data_eq = rw size reads.data_read;
          })
          reads.seq_read (λ four. type_four chunks file j within (rw reads.type_read at four)) in
      (done.0, receive-packet j r within lo ∙ done.1, done.2, done.3, done.4, done.5)

  -- Progress: the packet of the next chunk due is taken without a fault, and at least that chunk is
  -- written out.
  pub receive-next :
      (r : Receiver)
      → Inv chunks r
      → r.last_id < length chunks
      → (s : Receiver) × (receive (chunk_packet chunks r.last_id) r ≡ some s)
        × Inv chunks s
        × (r.last_id < s.last_id)
  receive-next r inv more =
      let (s, e, inv', _, on, _) = receive-due r.last_id r inv more (omega arith) (omega arith) in
      (s, e, inv', on refl)

  -- Whatever the network hands over, a pass of the data loop makes no access out of bounds, keeps the
  -- invariant, and never takes back what it has written.
  pub receive-Inv :
      (r : Receiver) (dg : List ℕ)
      → Inv chunks r
      → Arrives chunks r dg
      → Steps chunks r (receive dg r)
  receive-Inv r dg inv (nothing e) = (r, unfold receive in rw e refl, inv, omega arith)
  receive-Inv r dg inv (damaged long bad) = ignored-Steps dg r inv long (inl bad)
  receive-Inv r dg inv (stale long old) = ignored-Steps dg r inv long (inr old)
  receive-Inv r dg inv (packet j within hi e) = elim (dec_lt j r.last_id) [
    | yes old ↦
        let reads = chunk_packet-Reads chunks file j r.buf within in
        rw e (
          ignored-Steps (chunk_packet chunks j) r inv
            (omega (arith, length-chunk_packet chunks file j)) (inr (omega (arith, reads.id_read))))
    | no new ↦
        let done = receive-due j r inv within (omega arith) hi in
        (done.0, rw e done.1, done.2, done.3)
  ]
