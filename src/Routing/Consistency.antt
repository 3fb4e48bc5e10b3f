-- ===== src/Routing/Consistency.antt =====
-- The distance vector and the forwarding table of a router, as its handlers keep them.
pub mod Updates
pub mod Pongs
pub mod Refreshes
pub mod Handlers
use comp429_computer_network.Base.{
  ℕ, zero, suc, ◌+◌, ◌<◌, ◌≤◌, ◌≡◌, ◌≢◌, refl, sym, ◌∙◌, ap, List, [], ◌∷◌, ◌++◌, Option, some,
  none, Bool, true, false, arith, ltb, ◌==◌, if◌then◌else◌, Bool-cases, ==_iff, ◌>>=◌, Option-cases,
  dec_eq,
}
use comp429_computer_network.Routing.Map.{
  Map, find, put, remove, erase, find-put, find-remove, Sorted, put-Sorted, remove-Sorted, contains,
}
use comp429_computer_network.Routing.State.{DvCell, NnCell, Router}
use comp429_computer_network.Routing.Sweep.{Tables}
use comp429_computer_network.Routing.Sweep.Laws.{hop_of}

-- The forwarding table holds, for exactly the destinations of the vector, the vector's next hop; each
-- next hop is a neighbour with a known port; and there is no route to the router itself.
pub record Consistent (self : ℕ) (direct : Map NnCell) (vector : Map DvCell) (table : Map ℕ)
    : Type 0 where
  pub sorted : Sorted 0 vector
  pub agree : (k : ℕ) → find k table ≡ hop_of (find k vector)
  pub via : (k : ℕ) (c : DvCell) → find k vector ≡ some c → contains c.next_hop direct ≡ true
  pub no_self : find self vector ≡ none

abbrev pub AreConsistent : ℕ → Map NnCell → Tables → Type 0
AreConsistent self direct t = Consistent self direct t.vector t.table

pub contains-put :
    (k : ℕ) (j : ℕ) (n : NnCell) (m : Map NnCell)
    → contains j m ≡ true
    → contains j (put k n m) ≡ true
contains-put k j n m h = ground (arith, find-put k j n m)

module _ {self : ℕ} {direct : Map NnCell} {vector : Map DvCell} {table : Map ℕ} where
  pub agree_found :
      (k : ℕ) (c : DvCell)
      → Consistent self direct vector table
      → find k vector ≡ some c
      → find k table ≡ some c.next_hop
  agree_found k c h e = h.agree k ∙ ap hop_of e

  -- A route over a neighbour, to another router.
  pub put-Consistent :
      (k : ℕ) (c : DvCell)
      → k ≢ self
      → contains c.next_hop direct ≡ true
      → Consistent self direct vector table
      → Consistent self direct (put k c vector) (put k c.next_hop table)
  put-Consistent k c other known h = record {
    sorted = put-Sorted k 0 c vector (omega arith) h.sorted;
    agree = λ j. ground (arith, find-put k j c vector, find-put k j c.next_hop table, h.agree j);
    via = λ j d e. elim (dec_eq k j) [
      | yes same ↦ let new : c ≡ d = ground (arith, find-put k j c vector) in rw new at known
      | no ne ↦ h.via j d (sym (find-put k j c vector ∙ ground arith) ∙ e)
    ];
    no_self = find-put k self c vector ∙ ground (arith, h.no_self);
  }

  pub remove-Consistent :
      (k : ℕ)
      → Consistent self direct vector table
      → Consistent self direct (remove k vector) (remove k table)
  remove-Consistent k h = record {
    sorted = remove-Sorted k 0 vector h.sorted;
    agree = λ j. ground (arith, find-remove k j vector, find-remove k j table, h.agree j);
    via = λ j d e. elim (dec_eq k j) [
      | yes same ↦ ground (arith, find-remove k j vector)
      | no ne ↦ h.via j d (sym (find-remove k j vector ∙ ground arith) ∙ e)
    ];
    no_self = find-remove k self vector ∙ ground (arith, h.no_self);
  }
