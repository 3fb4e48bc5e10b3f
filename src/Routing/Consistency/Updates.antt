-- ===== src/Routing/Consistency/Updates.antt =====
-- `recvDV` and the tables: its loop over the entries of an update.
use comp429_computer_network.Base.{
  ℕ, ◌+◌, ◌≡◌, ◌≢◌, refl, ap, List, [], ◌∷◌, ◌++◌, Option, some, inl, inr, true, not, ◌&&◌, arith,
  ltb, ◌==◌, Bool-cases, Option-cases, u32, u16,
}
use comp429_computer_network.Routing.Map.{Map, find, remove, erase_found, contains}
use comp429_computer_network.Routing.State.{DvCell, DvPair, NnCell, infinity_cost}
use comp429_computer_network.Routing.Sweep.{Tables}
use comp429_computer_network.Routing.Vector.{
  reroute, follow_hop, lose_route, known_dest, new_dest, dv_entry, dv_entries,
}
use comp429_computer_network.Routing.Consistency.{
  AreConsistent, put-Consistent, remove-Consistent, agree_found,
}

-- A step that succeeds and keeps the tables consistent.
abbrev pub Keeps : ℕ → Map NnCell → Option Tables → Type 0
Keeps self direct result = (t : Tables) × (result ≡ some t) × AreConsistent self direct t

pub contains_of_found :
    (k : ℕ) (n : NnCell) (direct : Map NnCell) → find k direct ≡ some n → contains k direct ≡ true
contains_of_found k n direct e = rw (e, contains)

module _ (self : ℕ) (direct : Map NnCell) (source link now : ℕ)
    (known : contains source direct ≡ true) where
  reroute-Consistent :
      (dest hop cost : ℕ) (t : Tables)
      → dest ≢ self
      → contains hop direct ≡ true
      → AreConsistent self direct t
      → AreConsistent self direct (reroute self direct source link now dest hop cost t)
  unfolding reroute
  reroute-Consistent dest hop cost t other hop_known h =
      put-Consistent dest (record { next_hop = hop; cost = cost; updated = now }) other hop_known h

  follow_hop-Consistent :
      (dest via : ℕ) (t : Tables)
      → dest ≢ self
      → AreConsistent self direct t
      → AreConsistent self direct (follow_hop self direct source link now dest via t)
  unfolding follow_hop
  follow_hop-Consistent dest via t other h = elim (Option-cases (find dest direct)) [
    | inl e ↦ rw (e, follow_hop) (reroute-Consistent dest source via t other known h)
    | inr (d, e) ↦ elim (Bool-cases (ltb via d.cost)) [
      | inl less ↦ rw (e, follow_hop, less) (reroute-Consistent dest source via t other known h)
      | inr more ↦
          rw (e, follow_hop, more)
            (reroute-Consistent dest dest d.cost t other (contains_of_found dest d direct e) h)
    ]
  ]

  lose_route-Keeps :
      (dest : ℕ) (c : DvCell) (t : Tables)
      → dest ≢ self
      → find dest t.vector ≡ some c
      → AreConsistent self direct t
      → Keeps self direct (lose_route self direct source link now dest t)
  unfolding lose_route
  lose_route-Keeps dest c t other found h = elim (Option-cases (find dest direct)) [
    | inl e ↦ (
      record {
        vector = remove dest t.vector;
        table = remove dest t.table;
        packet = t.packet ++ (dest, infinity_cost) ∷ [];
      },
      rw (
        e,
        lose_route,
        erase_found dest t.vector found,
        erase_found dest t.table (agree_found dest c h found),
      ),
      remove-Consistent dest h,
    )
    | inr (d, e) ↦ (
      reroute self direct source link now dest dest d.cost t,
      rw (e, lose_route),
      reroute-Consistent dest dest d.cost t other (contains_of_found dest d direct e) h,
    )
  ]

  -- The branches of `known_dest`, each by its test.
  known_dest-Keeps :
      (dest cost : ℕ) (c : DvCell) (t : Tables)
      → dest ≢ self
      → find dest t.vector ≡ some c
      → AreConsistent self direct t
      → Keeps self direct (known_dest self direct source link now dest cost c t)
  unfolding known_dest
  known_dest-Keeps dest cost c t other found h = elim (Bool-cases (cost == infinity_cost)) [
    | inr finite ↦ elim (Bool-cases (ltb via c.cost)) [
      | inl better ↦ (
        reroute self direct source link now dest source via t,
        rw (finite, better) refl,
        reroute-Consistent dest source via t other known h,
      )
      | inr no_better ↦ elim (Bool-cases (source == c.next_hop)) [
        | inl hop ↦ (
          follow_hop self direct source link now dest via t,
          rw (finite, no_better, hop) refl,
          follow_hop-Consistent dest via t other h,
        )
        | inr not_hop ↦ (t, rw (finite, no_better, not_hop) refl, h)
      ]
    ]
    | inl infinite ↦ elim (Bool-cases (source == c.next_hop)) [
      | inl hop ↦ rw (infinite, hop) (lose_route-Keeps dest c t other found h)
      | inr not_hop ↦ (told, rw (infinite, not_hop) refl, h)
    ]
  ]
    where
      via : ℕ
      via = u32 (cost + link)

      told : Tables
      told = record t { packet = (t.packet ++ (dest, u16 c.cost) ∷ []) ++ (dest, u16 c.cost) ∷ [] }

  new_dest-Consistent :
      (dest cost : ℕ) (t : Tables)
      → AreConsistent self direct t
      → AreConsistent self direct (new_dest self direct source link now dest cost t)
  unfolding new_dest
  new_dest-Consistent dest cost t h =
      elim (Bool-cases (not (cost == infinity_cost) && not (dest == self))) [
        | inl new ↦
            rw new (reroute-Consistent dest source (u32 (cost + link)) t (ground arith) known h)
        | inr old ↦ rw old h
      ]

  dv_entry-Keeps :
      (p : DvPair) (t : Tables)
      → AreConsistent self direct t
      → Keeps self direct (dv_entry self direct source link now p t)
  unfolding dv_entry
  dv_entry-Keeps (dest, cost) t h = elim (Option-cases (find dest t.vector)) [
    | inl e ↦ (
      new_dest self direct source link now dest cost t,
      rw (e, dv_entry) refl,
      new_dest-Consistent dest cost t h,
    )
    | inr (c, e) ↦ rw (e, dv_entry) (known_dest-Keeps dest cost c t (other c e) e h)
  ]
    where
      other : (c : DvCell) → find dest t.vector ≡ some c → dest ≢ self
      other c e same = cc (h.no_self, ap (λ k. find k t.vector) same)

  -- All the entries of an update.
  pub dv_entries-Keeps :
      (ps : List DvPair) (t : Tables)
      → AreConsistent self direct t
      → Keeps self direct (dv_entries self direct source link now ps t)
  unfolding dv_entries
  dv_entries-Keeps [] t h = (t, refl, h)
  dv_entries-Keeps (p ∷ ps) t h =
      let first = dv_entry-Keeps p t h in
      let rest = dv_entries-Keeps ps first.0 first.2 in (rest.0, rw first.1 rest.1, rest.2)
