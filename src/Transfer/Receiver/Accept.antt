-- ===== src/Transfer/Receiver/Accept.antt =====
-- One packet of the window through `accept` of `recvfile.c`.
use comp429_computer_network.Base.{
  ℕ, zero, suc, ◌+◌, ◌-◌, ◌%◌, ◌≤◌, ◌<◌, ◌≡◌, ◌≢◌, refl, ◌∙◌, ◌⊎◌, inl, inr, List, [], some, length,
  get_or, set, take, drop, arith, get_or-set_self, get_or-set_ne, dec_eq, dec_lt, ◌>>=◌, ◌==◌,
  ==_iff, false, ltb, if◌then◌else◌,
}
use comp429_computer_network.Transfer.Util.{map_to_window, map_to_window-distance}
use comp429_computer_network.Transfer.Queue.{Node}
use comp429_computer_network.Transfer.Receiver.{
  Receiver, flag, count_run, write_out, accept, advance,
}
use comp429_computer_network.Transfer.Receiver.Window.{Window}
use comp429_computer_network.Transfer.Receiver.Writes.{Holds, Raised, Lowers, count_run-Raised}
use comp429_computer_network.Transfer.Receiver.Invariant.{
  Inv, KeepsBelow, stored, stored-Holds, finish,
}

module _ (chunks : List (List ℕ)) (small : length chunks < 4294967296) where
  -- Each flag of the second half of the circle is down.
  flag_beyond :
      {last : ℕ} {received : List ℕ} {root : List Node} (j : ℕ)
      → Window chunks last received root
      → last + 8 ≤ j
      → j < last + 16
      → flag received j ≡ 0
  flag_beyond {last} {received} j w lo hi = elim (dec_eq (flag received j) 0) [
    | yes e ↦ e
    | no raised ↦ absurd (omega (arith, (w.held j (omega arith) hi raised).0))
  ]

  Raised-mod :
      (received : List ℕ) (i k n : ℕ) → i % 16 ≡ k % 16 → Raised received i n → Raised received k n
  Raised-mod received i k zero e raised = tt
  Raised-mod received i k (suc n) e raised =
      ((λ down. raised.0 (rw e down)), Raised-mod received (i + 1) (k + 1) n (omega arith) raised.1)

  -- The count that `accept` makes: the stored chunks from the window's start on.
  record Counted (r put : Receiver) (c : ℕ) : Type 0 where
    few : c ≤ 8
    raised : Raised put.received r.last_id c
    gap : flag put.received (r.last_id + c) ≡ 0

  first-Counted :
      (r put : Receiver)
      → Inv chunks r
      → Holds chunks r.last_id put
      → Counted r put (count_run put.received r.la_seq 8)
  first-Counted r put inv h = record {
    few = run.1;
    raised = Raised-mod put.received r.la_seq r.last_id _ (omega (arith, inv.start)) run.0;
    gap = elim run.2 [
      | inl full ↦ flag_beyond (r.last_id + count) h.window (omega arith) (omega arith)
      | inr down ↦
          let at : (r.last_id + count) % 16 ≡ (r.la_seq + count) % 16 = omega (arith, inv.start) in
          rw at down
    ];
  }
    where
      count : ℕ
      count = count_run put.received r.la_seq 8

      run :
          Raised put.received r.la_seq count
          × (count ≤ 8)
          × ((count ≡ 8) ⊎ (flag put.received (r.la_seq + count) ≡ 0))
      run = count_run-Raised put.received r.la_seq 8

  abbrev run_length : ℕ → Receiver → ℕ
  run_length j r =
      if (j % 16) == r.la_seq then count_run (set r.received (j % 16) 1) r.la_seq 8 else 0

  run_length-Counted :
      (j : ℕ) (r : Receiver)
      → Inv chunks r
      → r.last_id ≤ j
      → j < r.last_id + 8
      → Holds chunks r.last_id (stored j (get_or chunks j []) r)
      → Counted r (stored j (get_or chunks j []) r) (run_length j r)
  run_length-Counted j r inv lo hi h = elim (dec_eq j r.last_id) [
    | yes e ↦ rw ((==_iff (j % 16) r.la_seq).1 (omega (arith, inv.start))) (first-Counted r _ inv h)
    | no ne ↦ rw (elsewhere ne) (nothing ne)
  ]
    where
      elsewhere : j ≢ r.last_id → ((j % 16) == r.la_seq) ≡ false
      elsewhere ne = ground (arith, inv.start)

      nothing : j ≢ r.last_id → Counted r (stored j (get_or chunks j []) r) 0
      nothing ne = record {
        few = omega arith;
        raised = tt;
        gap =
            let e : r.last_id + 0 ≡ r.last_id = omega arith in
            rw e (get_or-set_ne r.received (j % 16) (r.last_id % 16) 1 0 (omega arith) ∙ inv.gap);
      }

  -- The next chunk due makes a run of at least one.
  run_length_pos :
      (j : ℕ) (r : Receiver) (c : ℕ)
      → length r.received ≡ 16
      → Counted r (stored j (get_or chunks j []) r) c
      → j ≡ r.last_id
      → 0 < c
  run_length_pos j r zero full counted e = absurd (omega (arith, counted.gap, raised))
    where
      raised : flag (set r.received (j % 16) 1) (r.last_id + 0) ≡ 1
      raised =
          let at : (r.last_id + 0) % 16 ≡ j % 16 = omega arith in
          rw at (get_or-set_self r.received (j % 16) 1 0 (omega arith))
  run_length_pos j r (suc c) full counted e = omega arith

  Raised-last :
      (received : List ℕ) (i n : ℕ) → Raised received i (suc n) → flag received (i + n) ≢ 0
  Raised-last received i zero raised = let e : i + 0 ≡ i = omega arith in rw e raised.0
  Raised-last received i (suc n) raised =
      let e : i + 1 + n ≡ i + suc n = omega arith in
      rw e at (Raised-last received (i + 1) n raised.1)

  -- The run and the flags that it leaves stand for no chunk that was not received.
  run-KeepsBelow :
      (j c : ℕ) (r s : Receiver)
      → r.last_id ≤ j
      → j < r.last_id + 8
      → Holds chunks r.last_id (stored j (get_or chunks j []) r)
      → Counted r (stored j (get_or chunks j []) r) c
      → s.last_id ≡ r.last_id + c
      → Lowers (stored j (get_or chunks j []) r) s
      → KeepsBelow j r s
  run-KeepsBelow j c r s lo hi h counted moved lowers bound near (written, held) =
      (reached c counted.few counted.raised moved, after)
    where
      in_put :
          (k : ℕ)
          → r.last_id ≤ k
          → k < r.last_id + 8
          → flag (set r.received (j % 16) 1) k ≢ 0
          → k < bound
      in_put k lk hk raised = elim (dec_eq k j) [
        | yes e ↦ omega arith
        | no ne ↦
            held k lk hk
              (λ down. raised (get_or-set_ne r.received (j % 16) (k % 16) 1 0 (omega arith) ∙ down))
      ]

      reached :
          (c : ℕ)
          → c ≤ 8
          → Raised (set r.received (j % 16) 1) r.last_id c
          → s.last_id ≡ r.last_id + c
          → s.last_id ≤ bound
      reached zero few raised at = omega (arith, written)
      reached (suc n) few raised at = omega (
        arith,
        in_put (r.last_id + n) (omega arith) (omega arith)
            (Raised-last (set r.received (j % 16) 1) r.last_id n raised),
      )

      after : (k : ℕ) → s.last_id ≤ k → k < s.last_id + 8 → flag s.received k ≢ 0 → k < bound
      after k lk hk raised = elim (dec_lt k (r.last_id + 8)) [
        | yes inside ↦ in_put k (omega arith) inside (lowers k raised)
        | no beyond ↦
            absurd
              (lowers k raised (flag_beyond k h.window (omega arith) (omega (arith, counted.few))))
      ]

  accept-stored :
      (j recvlen : ℕ) (r : Receiver)
      → Inv chunks r
      → r.last_id ≤ j
      → j < r.last_id + 8
      → 12 ≤ recvlen
      → take (recvlen - 12) (drop 12 r.buf) ≡ get_or chunks j []
      → accept recvlen (j % 16) r ≡ (
          write_out r.la_seq 0 (run_length j r) (stored j (get_or chunks j []) r) >>= λ r'.
          some (advance (run_length j r) r'))
  unfolding accept
  accept-stored j recvlen r inv lo hi long data_eq = rw (short, data_eq, at)
    where
      short : ltb recvlen 12 ≡ false
      short = ground arith

      at : map_to_window r.la_seq (j % 16) ≡ j - r.last_id
      at =
          map_to_window-distance r.la_seq (j % 16) (omega (arith, inv.start)) (omega arith)
          ∙ omega (arith, inv.start)

  -- A packet of the window is accepted: no access is out of bounds and no NULL is followed, the
  -- invariant holds after it, the next chunk due moves the window on, and no other chunk is held.
  pub accept-Inv :
      (j recvlen : ℕ) (r : Receiver)
      → Inv chunks r
      → r.last_id ≤ j
      → j < r.last_id + 8
      → j < length chunks
      → 12 ≤ recvlen
      → take (recvlen - 12) (drop 12 r.buf) ≡ get_or chunks j []
      → (s : Receiver) × (accept recvlen (j % 16) r ≡ some s)
        × Inv chunks s
        × (r.last_id ≤ s.last_id)
        × (j ≡ r.last_id → r.last_id < s.last_id)
        × KeepsBelow j r s
  accept-Inv j recvlen r inv lo hi within long data_eq =
      let h = stored-Holds chunks small j r inv.holds lo hi within in
      let counted = run_length-Counted j r inv lo hi h in
      let c = run_length j r in
      let done =
        finish chunks small c r (stored j (get_or chunks j []) r) inv refl h inv.exit counted.few
          counted.raised counted.gap in
      (
        done.0,
        accept-stored j recvlen r inv lo hi long data_eq ∙ done.1,
        done.2,
        omega (arith, done.3),
        λ e. omega (arith, done.3, run_length_pos j r c inv.holds.window.flags_len counted e),
        run-KeepsBelow j c r done.0 lo hi h counted done.3 done.4,
      )
