-- ===== src/Routing/Consistency/Refreshes/Drops.antt =====
-- The second loop of `refreshDV`, over the collected destinations.
use comp429_computer_network.Base.{
  ℕ, ◌≡◌, ◌≢◌, refl, sym, ◌∙◌, ap, List, [], ◌∷◌, ◌++◌, some, none, inl, inr, ◌⊎◌, true, arith,
  Option-cases, dec_eq, u16, In, Unrepeated,
}
use comp429_computer_network.Routing.Map.{
  Map, find, put, remove, find-put, find-remove, erase_found, contains, Sorted, put-Sorted,
  remove-Sorted,
}
use comp429_computer_network.Routing.State.{DvCell, DvPair, NnCell, infinity_cost}
use comp429_computer_network.Routing.Sweep.{Tables}
use comp429_computer_network.Routing.Sweep.Laws.{hop_of}
use comp429_computer_network.Routing.Refresh.{drop_route, drop_routes}
use comp429_computer_network.Routing.Consistency.{AreConsistent}
use comp429_computer_network.Routing.Consistency.Updates.{Keeps, contains_of_found}

-- Consistent, but for the routes to `dests`, which are there and may go over a lost neighbour.
pub record Pending (self : ℕ) (direct : Map NnCell) (dests : List ℕ) (t : Tables) : Type 0 where
  pub sorted : Sorted 0 t.vector
  pub agree : (k : ℕ) → find k t.table ≡ hop_of (find k t.vector)
  pub via :
      (k : ℕ) (c : DvCell)
      → find k t.vector ≡ some c
      → (contains c.next_hop direct ≡ true) ⊎ In k dests
  pub no_self : find self t.vector ≡ none
  pub present : (k : ℕ) → In k dests → contains k t.vector ≡ true
  pub once : Unrepeated dests

module _ (self now : ℕ) (direct : Map NnCell) (dest : ℕ) (dests : List ℕ) (t : Tables)
    (h : Pending self direct (dest ∷ dests) t) where
  not_later : (k : ℕ) → In k dests → dest ≢ k
  not_later k i e = h.once.0 (rw e i)

  still : (k : ℕ) → dest ≢ k → In k (dest ∷ dests) → In k dests
  still k ne (inl e) = absurd (ne (sym e))
  still k ne (inr i) = i

  -- The route is replaced by the direct link.
  direct-Pending :
      (n : NnCell) (packet : List DvPair)
      → find dest direct ≡ some n
      → Pending self direct dests (record {
        vector = put dest (record { next_hop = dest; cost = n.cost; updated = now }) t.vector;
        table = put dest dest t.table;
        packet = packet;
      })
  direct-Pending n packet e = record {
    sorted = put-Sorted dest 0 _ t.vector (omega arith) h.sorted;
    agree =
        λ k. ground (arith, find-put dest k cell t.vector, find-put dest k dest t.table, h.agree k);
    via = λ k c at. elim (dec_eq dest k) [
      | yes same ↦
          let new : cell ≡ c = ground (arith, find-put dest k cell t.vector) in
          inl (rw (← new) (contains_of_found dest n direct e))
      | no ne ↦ elim (h.via k c (sym (find-put dest k cell t.vector ∙ ground arith) ∙ at)) [
        | inl known ↦ inl known
        | inr i ↦ inr (still k ne i)
      ]
    ];
    no_self =
        find-put dest self cell t.vector ∙ ground (arith, h.no_self, h.present dest (inl refl));
    present = λ k i. ground (arith, find-put dest k cell t.vector, h.present k (inr i));
    once = h.once.1;
  }
    where
      cell : DvCell
      cell = record { next_hop = dest; cost = n.cost; updated = now }

  -- The route is erased.
  erased-Pending :
      (packet : List DvPair)
      → Pending self direct dests
          (record { vector = remove dest t.vector; table = remove dest t.table; packet = packet })
  erased-Pending packet = record {
    sorted = remove-Sorted dest 0 t.vector h.sorted;
    agree = λ k. ground (arith, find-remove dest k t.vector, find-remove dest k t.table, h.agree k);
    via = λ k c at. elim (dec_eq dest k) [
      | yes same ↦ ground (arith, find-remove dest k t.vector)
      | no ne ↦ elim (h.via k c (sym (find-remove dest k t.vector ∙ ground arith) ∙ at)) [
        | inl known ↦ inl known
        | inr i ↦ inr (still k ne i)
      ]
    ];
    no_self = find-remove dest self t.vector ∙ ground (arith, h.no_self);
    present =
        λ k i. ground (arith, find-remove dest k t.vector, h.present k (inr i), not_later k i);
    once = h.once.1;
  }

  drop_route-Pending :
      (t' : Tables) × (drop_route now direct dest t ≡ some t') × Pending self direct dests t'
  unfolding drop_route
  drop_route-Pending = elim (Option-cases (find dest direct)) [
    | inr (n, e) ↦
        (_, rw (e, drop_route) refl, direct-Pending n (t.packet ++ (dest, u16 n.cost) ∷ []) e)
    | inl e ↦ elim (Option-cases (find dest t.vector)) [
      | inl gone ↦ ground (arith, h.present dest (inl refl))
      | inr (c, found) ↦ (
        record {
          vector = remove dest t.vector;
          table = remove dest t.table;
          packet = t.packet ++ (dest, infinity_cost) ∷ [];
        },
        rw (
          e,
          drop_route,
          erase_found dest t.vector found,
          erase_found dest t.table (h.agree dest ∙ ap hop_of found),
        ),
        erased-Pending (t.packet ++ (dest, infinity_cost) ∷ []),
      )
    ]
  ]

Pending-nil :
    (self : ℕ) (direct : Map NnCell) (t : Tables)
    → Pending self direct [] t
    → AreConsistent self direct t
Pending-nil self direct t h = record {
  sorted = h.sorted;
  agree = h.agree;
  via = λ k c at. elim (h.via k c at) [ inl known ↦ known | inr i ↦ absurd i ];
  no_self = h.no_self;
}

-- The whole loop makes no undefined erase.
pub drop_routes-Keeps :
    (self now : ℕ) (direct : Map NnCell) (dests : List ℕ) (t : Tables)
    → Pending self direct dests t
    → Keeps self direct (drop_routes now direct dests t)
unfolding drop_routes
drop_routes-Keeps self now direct [] t h = (t, refl, Pending-nil self direct t h)
drop_routes-Keeps self now direct (dest ∷ dests) t h =
    let first = drop_route-Pending self now direct dest dests t h in
    let rest = drop_routes-Keeps self now direct dests first.0 first.2 in
    (rest.0, rw first.1 rest.1, rest.2)
