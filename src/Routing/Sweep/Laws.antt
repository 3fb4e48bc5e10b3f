-- ===== src/Routing/Sweep/Laws.antt =====
-- A walk through `dv_map`, key by key.
use comp429_computer_network.Base.{
  ℕ, suc, ◌≤◌, ◌≡◌, ◌≢◌, refl, sym, ◌∙◌, ap, List, [], ◌∷◌, ◌++◌, Option, some, none, arith, ◌==◌,
  if◌then◌else◌, ==_iff, dec_eq,
}
use comp429_computer_network.Routing.Map.{
  Map, find, put, remove, find-put, find-remove, find-cons_self, find-cons_ne, Sorted,
  Sorted-weaken, find_below, erase_found,
}
use comp429_computer_network.Routing.State.{DvCell, DvPair}
use comp429_computer_network.Routing.Sweep.{
  Change, keep, to, gone, Verdict, apply, kept, Tables, sweep,
}

abbrev pub hop_of : Option DvCell → Option ℕ
hop_of none = none
hop_of (some c) = some c.next_hop

-- The forwarding table entry after a change, of one that was `hop`.
abbrev pub changed : Change → ℕ → Option ℕ
changed keep hop = some hop
changed (to v) hop = some v
changed gone hop = none

-- A verdict that changes the forwarding table as it changes the route.
abbrev pub IsSound : (ℕ → DvCell → Verdict) → Type 0
IsSound f = (k : ℕ) (c : DvCell) → hop_of (f k c).cell ≡ changed (f k c).forward c.next_hop

abbrev pub step_cell : (ℕ → DvCell → Verdict) → ℕ → Option DvCell → Option DvCell
step_cell f k none = none
step_cell f k (some c) = (f k c).cell

abbrev pub step_hop : (ℕ → DvCell → Verdict) → ℕ → Option DvCell → Option ℕ → Option ℕ
step_hop f k none before = before
step_hop f k (some c) before = hop_of (f k c).cell

apply-changed :
    (k hop : ℕ) (ch : Change) (table : Map ℕ)
    → find k table ≡ some hop
    → (table' : Map ℕ) × (apply k ch table ≡ some table')
      × ((j : ℕ) → find j table' ≡ (if k == j then changed ch hop else find j table))
unfolding apply
apply-changed k hop keep table h = (table, refl, λ j. ground (arith, h))
apply-changed k hop (to v) table h = (put k v table, refl, λ j. find-put k j v table)
apply-changed k hop gone table h =
    (remove k table, erase_found k table h, λ j. find-remove k j table)

kept-Sorted :
    (k lo : ℕ) (o : Option DvCell) (m : Map DvCell)
    → lo ≤ k
    → Sorted (suc k) m
    → Sorted lo (kept k o m)
kept-Sorted k lo none m le h = Sorted-weaken lo (suc k) m (omega arith) h
kept-Sorted k lo (some c) m le h = (le, h)

find-kept :
    (k lo j : ℕ) (o : Option DvCell) (m : Map DvCell)
    → find k m ≡ none
    → find j (kept k o m) ≡ (if k == j then o else find j m)
unfolding find
find-kept k lo j none m h = elim (dec_eq k j) [
  | yes e ↦ rw ((==_iff k j).1 e) (rw e at h)
  | no ne ↦ ground arith
]
find-kept k lo j (some c) m h = refl

-- What the walk leaves under each key.
pub record IsSwept (f : ℕ → DvCell → Verdict) (lo : ℕ) (m : Map DvCell) (table : Map ℕ) (t : Tables)
    : Type 0 where
  pub sorted : Sorted lo t.vector
  pub cells : (k : ℕ) → find k t.vector ≡ step_cell f k (find k m)
  pub hops : (k : ℕ) → find k t.table ≡ step_hop f k (find k m) (find k table)

-- One entry in front of a walk.
module _ (f : ℕ → DvCell → Verdict) (sound : IsSound f) (lo k : ℕ) (c : DvCell) (m : Map DvCell)
    (table table' : Map ℕ) (le : lo ≤ k) (rest : Sorted (suc k) m)
    (at : (j : ℕ)
      → find j table' ≡ (if k == j then changed (f k c).forward c.next_hop else find j table)) where
  absent : find k m ≡ none
  absent = find_below k (suc k) m rest (omega arith)

  at_self : find k table' ≡ changed (f k c).forward c.next_hop
  at_self = at k ∙ rw ((==_iff k k).1 refl)

  at_ne : (j : ℕ) → k ≢ j → find j table' ≡ find j table
  at_ne j ne = at j ∙ ground arith

  -- The entries behind agree with the changed table as they did before.
  agree_behind :
      ((j : ℕ) (d : DvCell) → find j ((k, c) ∷ m) ≡ some d → find j table ≡ some d.next_hop)
      → (j : ℕ) (d : DvCell) → find j m ≡ some d
      → find j table' ≡ some d.next_hop
  agree_behind agree j d h = elim (dec_eq k j) [
    | yes e ↦ cc (absent, ap (λ i. find i m) e)
    | no ne ↦ at_ne j ne ∙ agree j d (find-cons_ne k j c m ne ∙ h)
  ]

  IsSwept-cons :
      (t : Tables)
      → IsSwept f (suc k) m table' t
      → IsSwept f lo ((k, c) ∷ m) table (record t { vector = kept k (f k c).cell t.vector })
  IsSwept-cons t w = record {
    sorted = kept-Sorted k lo (f k c).cell t.vector le w.sorted;
    cells = λ j. find-kept k lo j (f k c).cell t.vector gone_behind ∙ cell_at j;
    hops = hop_at;
  }
    where
      gone_behind : find k t.vector ≡ none
      gone_behind = find_below k (suc k) t.vector w.sorted (omega arith)

      cell_at :
          (j : ℕ)
          → (if k == j then (f k c).cell else find j t.vector) ≡ step_cell f j (find j ((k, c) ∷ m))
      cell_at j = elim (dec_eq k j) [
        | yes e ↦ rw ((==_iff k j).1 e, ← e, find-cons_self)
        | no ne ↦ rw (find-cons_ne k j c m ne, ← w.cells j) (ground arith)
      ]

      hop_at : (j : ℕ) → find j t.table ≡ step_hop f j (find j ((k, c) ∷ m)) (find j table)
      hop_at j = elim (dec_eq k j) [
        | yes e ↦ rw (← e, find-cons_self, w.hops k, absent, at_self) (sym (sound k c))
        | no ne ↦ rw (find-cons_ne k j c m ne, w.hops j, at_ne j ne)
      ]

pub sweep-IsSwept :
    (f : ℕ → DvCell → Verdict) (lo : ℕ) (m : Map DvCell) (table : Map ℕ) (packet : List DvPair)
    → IsSound f
    → Sorted lo m
    → ((k : ℕ) (c : DvCell) → find k m ≡ some c → find k table ≡ some c.next_hop)
    → (t : Tables) × (sweep f m table packet ≡ some t) × IsSwept f lo m table t
unfolding sweep find
sweep-IsSwept f lo [] table packet sound sorted agree = (
  record { vector = []; table = table; packet = packet },
  refl,
  record { sorted = tt; cells = λ k. refl; hops = λ k. refl },
)
sweep-IsSwept f lo ((k, c) ∷ m) table packet sound sorted agree =
    let a = apply-changed k c.next_hop (f k c).forward table (agree k c (find-cons_self k c m)) in
    let rest =
      sweep-IsSwept f (suc k) m a.0 (packet ++ (f k c).announce) sound sorted.1
        (agree_behind f sound lo k c m table a.0 sorted.0 sorted.1 a.2 agree) in
    (
      _,
      rw (a.1, rest.1),
      IsSwept-cons f sound lo k c m table a.0 sorted.0 sorted.1 a.2 rest.0 rest.2,
    )
