-- ===== src/Transfer/Receiver/Invariant.antt =====
-- The invariant of `recvfile.c`'s data loop, and the two ends of `accept`: a packet stored, and the
-- window moved on.
use comp429_computer_network.Base.{
  ℕ, zero, suc, ◌+◌, ◌-◌, ◌%◌, ◌≤◌, ◌<◌, ◌≡◌, ◌≢◌, refl, sym, subst, ◌∙◌, ap, ◌⊎◌, inl, inr, List,
  [], ◌∷◌, some, length, get_elem?, get_or, set, overwrite, arith, ◌>>=◌, take-drop-overwrite,
}
use comp429_computer_network.Base.Int.{pos}
use comp429_computer_network.Transfer.Queue.{Node, get_k, get_k-get_elem?}
use comp429_computer_network.Transfer.Receiver.{
  Receiver, flag, fresh_node, write_out, store_data, advance,
}
use comp429_computer_network.Transfer.Receiver.Window.{Window-set}
use comp429_computer_network.Transfer.Receiver.Writes.{Holds, Raised, Lowers, write_out-Holds}

-- The exit test: once the last of `n` chunks has come, its number modulo 16 is noted, it lies in the
-- window or before it, and the test has passed only if all chunks are written.
abbrev pub Exit : ℕ → ℕ → Receiver → Type 0
Exit n last r =
    (r.ready_exit ≡ 0)
    ⊎ ((r.last_window ≡ pos ((n - 1) % 16))
        × (n ≤ last + 8)
        × (1 ≤ n)
        × ((r.ready_exit ≡ 1) ⊎ ((r.ready_exit ≡ 2) × (last ≡ n))))

-- The invariant of the data loop: the first `last_id` chunks of the file are written, in order and
-- each once; the window starts there, holds only chunks of the file, and not its first.
pub record Inv (chunks : List (List ℕ)) (r : Receiver) : Type 0 where
  pub holds : Holds chunks r.last_id r
  pub start : r.la_seq ≡ r.last_id % 16
  pub gap : flag r.received r.last_id ≡ 0
  pub exit : Exit (length chunks) r.last_id r

-- Only chunks below `bound` are written or held.
abbrev pub Below : ℕ → Receiver → Type 0
Below bound r =
    (r.last_id ≤ bound)
    × ((k : ℕ) → r.last_id ≤ k → k < r.last_id + 8 → flag r.received k ≢ 0 → k < bound)

-- A step that takes chunk j keeps every such bound above j.
abbrev pub KeepsBelow : ℕ → Receiver → Receiver → Type 0
KeepsBelow j r s = (bound : ℕ) → j < bound → Below bound r → Below bound s

get_k-node : (q : List Node) (k : ℕ) → k < length q → get_k q k ≡ some (get_or q k fresh_node)
get_k-node q k h = get_k-get_elem? q k ∙ go q k h
  where
    go : (q : List Node) (k : ℕ) → k < length q → get_elem? q k ≡ some (get_or q k fresh_node)
    go [] k h = absurd (omega arith)
    go (n ∷ q) zero h = refl
    go (n ∷ q) (suc k) h = go q k (omega arith)

-- Inside the queue `store_data` fills the node that is there.
abbrev filled : List Node → ℕ → List ℕ → Node
filled root k block = record {
  contents = overwrite block (get_or root k fresh_node).contents;
  size = length block;
}

store_data-set :
    (root : List Node) (k : ℕ) (block : List ℕ)
    → k < length root
    → store_data root k block ≡ set root k (filled root k block)
unfolding store_data
store_data-set root k block h = rw (get_k-node root k h, store_data)

-- The receiver once the packet of chunk j is stored and before anything is written out.
abbrev pub stored : ℕ → List ℕ → Receiver → Receiver
stored j block r = record r {
  received = set r.received (j % 16) 1;
  root = store_data r.root (j - r.last_id) block;
}

module _ (chunks : List (List ℕ)) (small : length chunks < 4294967296) where
  pub stored-Holds :
      (j : ℕ) (r : Receiver)
      → Holds chunks r.last_id r
      → r.last_id ≤ j
      → j < r.last_id + 8
      → j < length chunks
      → Holds chunks r.last_id (stored j (get_or chunks j []) r)
  stored-Holds j r h lo hi within = record {
    window =
        rw
          (store_data-set r.root (j - r.last_id) (get_or chunks j [])
            (omega (arith, h.window.nodes_len)))
          (Window-set j (filled r.root (j - r.last_id) (get_or chunks j [])) h.window lo hi within (
            take-drop-overwrite 0 (length (get_or chunks j [])) (get_or chunks j []) _
              (omega arith)));
    counted = refl;
    put_out = h.put_out;
    within = h.within;
  }

  advance-Exit :
      (c base n : ℕ) (s : Receiver)
      → s.la_seq ≡ base % 16
      → c ≤ 8
      → base + c ≤ n
      → Exit n base s
      → Exit n (base + c) (advance c s)
  unfolding advance
  advance-Exit c base n s at few within (inl none_yet) = ground arith
  advance-Exit c base n s at few within (inr (window, near, some_chunk, inl one)) =
      ground (arith, window)
  advance-Exit c base n s at few within (inr (window, near, some_chunk, inr two)) =
      ground (arith, window)

  advance-Inv :
      (c n : ℕ) (s : Receiver)
      → Holds chunks n s
      → (s.la_seq + c) % 16 ≡ n % 16
      → flag s.received n ≡ 0
      → Exit (length chunks) n (advance c s)
      → Inv chunks (advance c s)
  unfolding advance
  advance-Inv c n s h at gap exit = record {
    holds =
        let h' = subst (λ k. Holds chunks k s) (sym h.counted) h in
        record { window = h'.window; counted = refl; put_out = h'.put_out; within = h'.within };
    start = at ∙ ap (λ (k : ℕ). k % 16) (sym h.counted);
    gap = ap (flag s.received) h.counted ∙ gap;
    exit = subst (λ k. Exit (length chunks) k (advance c s)) (sym h.counted) exit;
  }

  -- The end of `accept`, for any number of chunks that are there and are followed by a gap.
  pub finish :
      (c : ℕ) (r put : Receiver)
      → Inv chunks r
      → put.la_seq ≡ r.la_seq
      → Holds chunks r.last_id put
      → Exit (length chunks) r.last_id put
      → c ≤ 8
      → Raised put.received r.last_id c
      → flag put.received (r.last_id + c) ≡ 0
      → (s : Receiver) × ((write_out r.la_seq 0 c put >>= λ r'. some (advance c r')) ≡ some s)
        × Inv chunks s
        × (s.last_id ≡ r.last_id + c)
        × Lowers put s
  finish c r put inv same h exit few raised gap =
      let w =
        write_out-Holds chunks small c r.la_seq 0 (r.last_id + c) refl (omega (arith, inv.start))
          few raised h in
      let exit' : Exit (length chunks) r.last_id w.0 = rw (w.3.same_exit, w.3.same_window) exit in
      (
        advance c w.0,
        rw w.1,
        advance-Inv c (r.last_id + c) w.0 w.2 (omega (arith, w.3.same_seq, same, inv.start))
            (w.4 ∙ gap)
            (advance-Exit c r.last_id (length chunks) w.0 (w.3.same_seq ∙ same ∙ inv.start) few
              w.2.within exit'),
        unfold advance in w.2.counted,
        unfold advance in w.5,
      )
