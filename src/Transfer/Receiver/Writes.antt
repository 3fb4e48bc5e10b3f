-- ===== src/Transfer/Receiver/Writes.antt =====
-- The loop of `recvfile.c` that writes out a run of received chunks.
use comp429_computer_network.Base.{
  ℕ, zero, suc, ◌+◌, ◌-◌, ◌%◌, ◌≤◌, ◌<◌, ◌≡◌, ◌≢◌, refl, sym, ◌∙◌, ap, ◌⊎◌, inl, inr, List, [], ◌∷◌,
  ◌++◌, some, length, get_or, set, take, arith, get_or-set_ne, joined, joined-take_suc, u32,
  Bool-cases, ◌==◌, dec_eq, get_or-set_self,
}
use comp429_computer_network.Transfer.Queue.{Node, enqueue, dequeue, get_k}
use comp429_computer_network.Transfer.Receiver.{Receiver, flag, fresh_node, count_run, write_out}
use comp429_computer_network.Transfer.Receiver.Window.{Window, held_data, Window-shift}

-- `n` flags are raised from number `i` on.
abbrev pub Raised : List ℕ → ℕ → ℕ → Type 0
Raised received i zero = Unit
Raised received i (suc n) = (flag received i ≢ 0) × Raised received (i + 1) n

-- The count is that of the flags raised from `i` on, up to the first that is not.
pub count_run-Raised :
    (received : List ℕ) (i left : ℕ)
    → Raised received i (count_run received i left)
      × (count_run received i left ≤ left)
      × ((count_run received i left ≡ left) ⊎ (flag received (i + count_run received i left) ≡ 0))
unfolding count_run
count_run-Raised received i zero = (tt, omega arith, inl refl)
count_run-Raised received i (suc left) = elim (Bool-cases (flag received i == 0)) [
  | inl e ↦ rw e (tt, omega arith, inr (ground arith))
  | inr e ↦
      let rest = count_run-Raised received (i + 1) left in
      rw e ((ground arith, rest.0), omega arith, ground arith)
]

Raised-set :
    (received : List ℕ) (last i n v : ℕ)
    → last < i
    → i + n ≤ last + 16
    → Raised received i n
    → Raised (set received (last % 16) v) i n
Raised-set received last i zero v lo hi r = tt
Raised-set received last i (suc n) v lo hi r = (
  (λ e. r.0 (sym (get_or-set_ne received (last % 16) (i % 16) v 0 (omega arith)) ∙ e)),
  Raised-set received last (i + 1) n v (omega arith) (omega arith) r.1,
)

-- The receiver has written the first `last` chunks of the file, and holds the window after them.
pub record Holds (chunks : List (List ℕ)) (last : ℕ) (r : Receiver) : Type 0 where
  pub window : Window chunks last r.received r.root
  pub counted : r.last_id ≡ last
  pub put_out : r.written ≡ joined (take last chunks)
  pub within : last ≤ length chunks

-- What the loop leaves alone.
pub record Same (r s : Receiver) : Type 0 where
  pub same_seq : s.la_seq ≡ r.la_seq
  pub same_exit : s.ready_exit ≡ r.ready_exit
  pub same_window : s.last_window ≡ r.last_window
  pub same_buf : s.buf ≡ r.buf

-- The receiver after one round.
abbrev wrote_one : ℕ → Receiver → Receiver
wrote_one last r = record r {
  last_id = u32 (r.last_id + 1);
  written = r.written ++ held_data r.root 0;
  root = enqueue (dequeue r.root) fresh_node;
  received = set r.received (last % 16) 0;
}

-- Every flag that is raised after a step was raised before it.
abbrev pub Lowers : Receiver → Receiver → Type 0
Lowers r s = (k : ℕ) → flag s.received k ≢ 0 → flag r.received k ≢ 0

module _ (chunks : List (List ℕ)) (small : length chunks < 4294967296) where
  -- One round: the first node exists, holds the next chunk, and is given back.
  write_one :
      {last : ℕ} {r : Receiver}
      → Holds chunks last r
      → flag r.received last ≢ 0
      → Holds chunks (last + 1) (wrote_one last r)
  write_one {last} {r} h raised = record {
    window = Window-shift h.window;
    counted = omega (arith, h.counted, first);
    put_out =
        rw (h.put_out, joined-take_suc chunks last first.1)
          (ap (λ (t : List ℕ). joined (take last chunks) ++ t)
            (ap (held_data r.root) start ∙ first.2));
    within = omega (arith, first);
  }
    where
      first :
          (last < last + 8)
          × (last < length chunks)
          × (held_data r.root (last - last) ≡ get_or chunks last [])
      first = h.window.held last (omega arith) (omega arith) raised

      start : 0 ≡ last - last
      start = omega arith

  first_node : (q : List Node) (n : ℕ) → length q ≡ suc n → get_k q 0 ≡ some (get_or q 0 fresh_node)
  unfolding get_k
  first_node [] n h = absurd (omega arith)
  first_node (m ∷ q) n h = refl

  write_out-suc :
      (count la reverse_count last : ℕ) (r : Receiver)
      → (la + reverse_count) % 16 ≡ last % 16
      → length r.root ≡ 8
      → write_out la reverse_count (suc count) r
        ≡ write_out la (reverse_count + 1) count (wrote_one last r)
  unfolding write_out
  write_out-suc count la reverse_count last r at full = rw (first_node r.root 7 full, at)

  -- The loop raises no flag.
  lowered :
      {last : ℕ} {r : Receiver}
      → Holds chunks last r
      → Lowers r (record r { received = set r.received (last % 16) 0 })
  lowered {last} {r} h k raised down = elim (dec_eq (k % 16) (last % 16)) [
    | yes e ↦
        let at : get_or (set r.received (last % 16) 0) (last % 16) 0 ≡ 0 =
          get_or-set_self r.received (last % 16) 0 0 (omega (arith, h.window.flags_len)) in
        raised (rw e at)
    | no ne ↦ raised (get_or-set_ne r.received (last % 16) (k % 16) 0 0 (omega arith) ∙ down)
  ]

  -- The whole loop: it never follows a NULL, puts out the run's chunks in order, raises no flag, and
  -- leaves alone the flag behind the run.
  pub write_out-Holds :
      (count la reverse_count : ℕ) {last : ℕ} (stop : ℕ) {r : Receiver}
      → last + count ≡ stop
      → (la + reverse_count) % 16 ≡ last % 16
      → count ≤ 8
      → Raised r.received last count
      → Holds chunks last r
      → (s : Receiver) × (write_out la reverse_count count r ≡ some s)
        × Holds chunks stop s
        × Same r s
        × (flag s.received stop ≡ flag r.received stop)
        × Lowers r s
  unfolding write_out
  write_out-Holds zero la reverse_count {last} stop {r} e at few raised h =
      let e' : last ≡ stop = omega arith in
      (
        r,
        refl,
        rw (← e') h,
        record { same_seq = refl; same_exit = refl; same_window = refl; same_buf = refl },
        refl,
        λ k raised. raised,
      )
  write_out-Holds (suc count) la reverse_count {last} stop {r} e at few raised h =
      let rest =
        write_out-Holds count la (reverse_count + 1) {last = last + 1} stop (omega arith)
          (omega arith) (omega arith)
          (Raised-set r.received last (last + 1) count 0 (omega arith) (omega arith) raised.1)
          (write_one h raised.0) in
      (
        rest.0,
        write_out-suc count la reverse_count last r at h.window.nodes_len ∙ rest.1,
        rest.2,
        record {
          same_seq = rest.3.same_seq;
          same_exit = rest.3.same_exit;
          same_window = rest.3.same_window;
          same_buf = rest.3.same_buf;
        },
        rest.4 ∙ get_or-set_ne r.received (last % 16) (stop % 16) 0 0 (omega arith),
        λ k raised. lowered h k (rest.5 k raised),
      )
