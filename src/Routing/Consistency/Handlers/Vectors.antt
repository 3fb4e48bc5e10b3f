-- ===== src/Routing/Consistency/Handlers/Vectors.antt =====
-- `recvDV` of project3/DVImpl.cc on whole packets.
use comp429_computer_network.Base.{
  ℕ, zero, suc, ◌+◌, ◌*◌, ◌%◌, ◌<◌, ◌≤◌, ◌≡◌, ◌≢◌, refl, ◌∙◌, List, [], ◌∷◌, some, length, true,
  false, not, ◌&&◌, arith, ltb, ◌==◌, Bool-cases, ==_iff, Option-cases, inl, inr, u32, dec_lt,
  load16, htons,
}
use comp429_computer_network.Routing.Map.{Map, find, put, contains, find-put}
use comp429_computer_network.Routing.State.{Router, DvPair, DvCell, NnCell, infinity_cost}
use comp429_computer_network.Routing.Sweep.{Tables}
use comp429_computer_network.Routing.Vector.{
  read_word, read_pairs, rounds, recv_dv, meet_source, dv_entry, known_dest, new_dest, reroute,
  follow_hop, send_if_any,
}
use comp429_computer_network.Routing.Consistency.{Consistent, contains-put}
use comp429_computer_network.Routing.Consistency.Updates.{dv_entries-Keeps, contains_of_found}
use comp429_computer_network.Routing.Consistency.Handlers.Effects.{
  IsConsistent, IsSettled, send_if_any-kept,
}

read_word-total :
    (packet : List ℕ) (off : ℕ)
    → off + 1 < length packet
    → (w : ℕ) × (read_word packet off ≡ some w)
unfolding read_word
read_word-total packet off lt = (htons (load16 packet off), ground arith)

read_pairs-total :
    (packet : List ℕ) (left i : ℕ)
    → 8 + 2 * i + 4 * left ≤ length packet
    → (pairs : List DvPair) × (read_pairs packet left i ≡ some pairs)
unfolding read_pairs
read_pairs-total packet zero i le = ([], refl)
read_pairs-total packet (suc left) i le =
    let (dest, d) = read_word-total packet (8 + 2 * i) (omega arith) in
    let (cost, c) = read_word-total packet (8 + 2 * (i + 1)) (omega arith) in
    let (rest, e) = read_pairs-total packet left (i + 2) (omega arith) in
    ((dest, cost) ∷ rest, rw (d, c, e) refl)

-- Every read of `recvDV` stays inside a packet that is a header and whole pairs.
read_pairs-rounds :
    (packet : List ℕ)
    → length packet % 4 < 2
    → (pairs : List DvPair) × (read_pairs packet (rounds (length packet)) 0 ≡ some pairs)
unfolding rounds
read_pairs-rounds packet whole = elim (dec_lt 7 (length packet)) [
  | yes long ↦ read_pairs-total packet _ 0 (omega arith)
  | no short ↦
      let none_left : rounds (length packet) ≡ 0 = unfold rounds in omega arith in
      rw none_left ([], unfold read_pairs in refl)
]

pub put-direct :
    {self : ℕ} {direct : Map NnCell} {vector : Map DvCell} {table : Map ℕ} (k : ℕ) (n : NnCell)
    → Consistent self direct vector table
    → Consistent self (put k n direct) vector table
put-direct {direct = direct} k n h = record {
  sorted = h.sorted;
  agree = h.agree;
  via = λ j c e. contains-put k c.next_hop n direct (h.via j c e);
  no_self = h.no_self;
}

pub contains-put_self : (k : ℕ) (n : NnCell) (m : Map NnCell) → contains k (put k n m) ≡ true
contains-put_self k n m = ground (arith, find-put k k n m)

-- The sender is a neighbour afterwards, and the routes are over neighbours still.
meet_source-Consistent :
    (indeterminate port source : ℕ) (pairs : List DvPair) (r : Router)
    → IsConsistent r
    → Consistent r.router_id
        (meet_source indeterminate port source pairs r).0
        r.dv_map
        r.forwarding_table
      × (contains source (meet_source indeterminate port source pairs r).0 ≡ true)
unfolding meet_source
meet_source-Consistent indeterminate port source pairs r h =
    elim (Option-cases (find source r.direct_neighbors)) [
      | inl e ↦
          rw (e, meet_source) (put-direct source _ h, contains-put_self source _ r.direct_neighbors)
      | inr (n, e) ↦ rw (e, meet_source) (h, contains_of_found source n r.direct_neighbors e)
    ]

-- For every packet that is a header and whole pairs, whatever it holds and whatever an uninitialised
-- cost is, `recvDV` reads no pair outside it, erases nothing that is not there, and leaves a settled
-- router settled.
pub recv_dv-IsSettled :
    (indeterminate now port : ℕ) (packet : List ℕ) (r : Router)
    → length packet % 4 < 2
    → IsSettled r
    → (r' : Router) × (recv_dv indeterminate now port packet r ≡ some r') × IsSettled r'
unfolding recv_dv
recv_dv-IsSettled indeterminate now port packet r whole (h, plugged) =
    let source = htons (load16 packet 4) in
    let (pairs, read) = read_pairs-rounds packet whole in
    let met = meet_source-Consistent indeterminate port source pairs r h in
    let m = meet_source indeterminate port source pairs r in
    let (t, e, kept) =
      dv_entries-Keeps r.router_id m.0 source m.1 now met.1 pairs
        (record { vector = r.dv_map; table = r.forwarding_table; packet = [] }) met.0 in
    let updated : Router = record r {
      direct_neighbors = m.0;
      dv_map = t.vector;
      forwarding_table = t.table;
    } in
    (
      send_if_any t.packet updated,
      rw (read, e) refl,
      send_if_any-kept IsSettled (λ f s k. k) t.packet updated (kept, plugged),
    )

-- An entry of a known destination, from a neighbour `source` at the cost `link`, or of a new one.
module _ (self : ℕ) (direct : Map NnCell) (source link now : ℕ) where
  -- The route to `dest` costs at most `bound`.
  abbrev pub IsWithin : ℕ → ℕ → Tables → Type 0
  IsWithin dest bound t = (c : DvCell) × (find dest t.vector ≡ some c) × (c.cost ≤ bound)

  reroute-IsWithin :
      (dest hop cost bound : ℕ) (t : Tables)
      → cost ≤ bound
      → IsWithin dest bound (reroute self direct source link now dest hop cost t)
  unfolding reroute
  reroute-IsWithin dest hop cost bound t le = (
    record { next_hop = hop; cost = cost; updated = now },
    find-put dest dest _ t.vector ∙ rw ((==_iff dest dest).1 refl),
    le,
  )

  follow_hop-IsWithin :
      (dest via : ℕ) (t : Tables)
      → IsWithin dest via (follow_hop self direct source link now dest via t)
  unfolding follow_hop
  follow_hop-IsWithin dest via t = elim (Option-cases (find dest direct)) [
    | inl e ↦ rw (e, follow_hop) (reroute-IsWithin dest source via via t (omega arith))
    | inr (d, e) ↦ elim (Bool-cases (ltb via d.cost)) [
      | inl less ↦ rw (e, follow_hop, less) (reroute-IsWithin dest source via via t (omega arith))
      | inr more ↦
          rw (e, follow_hop, more) (reroute-IsWithin dest dest d.cost via t (ground (arith, more)))
    ]
  ]

  known_dest-IsWithin :
      (dest cost : ℕ) (c : DvCell) (t : Tables)
      → find dest t.vector ≡ some c
      → cost ≢ infinity_cost
      → (t' : Tables) × (known_dest self direct source link now dest cost c t ≡ some t')
        × IsWithin dest (u32 (cost + link)) t'
  unfolding known_dest
  known_dest-IsWithin dest cost c t found finite =
      let via = u32 (cost + link) in
      let is_finite : (cost == infinity_cost) ≡ false = ground (arith, finite) in
      elim (Bool-cases (ltb via c.cost)) [
        | inl better ↦ (
          reroute self direct source link now dest source via t,
          rw (is_finite, better) refl,
          reroute-IsWithin dest source via via t (omega arith),
        )
        | inr no_better ↦ elim (Bool-cases (source == c.next_hop)) [
          | inl hop ↦ (
            follow_hop self direct source link now dest via t,
            rw (is_finite, no_better, hop) refl,
            follow_hop-IsWithin dest via t,
          )
          | inr not_hop ↦
              (t, rw (is_finite, no_better, not_hop) refl, (c, found, ground (arith, no_better)))
        ]
      ]

  -- The relaxation step: an announced finite cost of another router succeeds, and leaves a route to it
  -- that costs no more than the announced cost and the link to the sender, in 32 bits.
  pub dv_entry-relaxes :
      (dest cost : ℕ) (t : Tables)
      → dest ≢ self
      → cost ≢ infinity_cost
      → (t' : Tables) × (dv_entry self direct source link now (dest, cost) t ≡ some t')
        × IsWithin dest (u32 (cost + link)) t'
  unfolding dv_entry new_dest
  dv_entry-relaxes dest cost t other finite = elim (Option-cases (find dest t.vector)) [
    | inl e ↦ (new_dest self direct source link now dest cost t, rw (e, dv_entry) refl, new)
    | inr (c, e) ↦ rw (e, dv_entry) (known_dest-IsWithin dest cost c t e finite)
  ]
    where
      is_new : (not (cost == infinity_cost) && not (dest == self)) ≡ true
      is_new = ground (arith, finite, other)

      new : IsWithin dest (u32 (cost + link)) (new_dest self direct source link now dest cost t)
      new =
          rw is_new
            (reroute-IsWithin dest source (u32 (cost + link)) (u32 (cost + link)) t (omega arith))
