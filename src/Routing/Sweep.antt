-- ===== src/Routing/Sweep.antt =====
-- The loops of project3 that walk through `dv_map` and decide for each entry, from the entry alone,
-- what becomes of it, of its forwarding table entry, and what is announced.
pub mod Laws
use comp429_computer_network.Base.{
  ℕ, zero, suc, ◌+◌, ◌<◌, ◌≤◌, ◌≡◌, ◌≢◌, refl, sym, ◌∙◌, ap, List, [], ◌∷◌, ◌++◌, Option, some,
  none, map, Bool, true, false, arith, ltb, ◌==◌, if◌then◌else◌, Bool-cases, ==_iff, ◌>>=◌,
  Option-cases,
}
use comp429_computer_network.Routing.Map.{
  Map, find, put, remove, erase, find-put, find-remove, Sorted, find_below, erase_found,
}
use comp429_computer_network.Routing.State.{DvCell, DvPair}

-- What becomes of `forwarding_table[it->first]`.
pub data Change : Type 0 where
  keep : Change
  to : ℕ → Change
  gone : Change

-- The entry afterwards (`none` where it is erased), its forwarding, and the announcements.
pub record Verdict : Type 0 where
  pub cell : Option DvCell
  pub forward : Change
  pub announce : List DvPair

unfoldable pub apply : ℕ → Change → Map ℕ → Option (Map ℕ)
apply k keep table = some table
apply k (to v) table = some (put k v table)
apply k gone table = erase k table

abbrev pub kept : ℕ → Option DvCell → Map DvCell → Map DvCell
kept k none m = m
kept k (some c) m = (k, c) ∷ m

-- The distance vector, the forwarding table, and the update packet under construction.
pub record Tables : Type 0 where
  pub vector : Map DvCell
  pub table : Map ℕ
  pub packet : List DvPair

-- The walk; `none` is an erase of a missing forwarding table entry.
unfoldable pub sweep : (ℕ → DvCell → Verdict) → Map DvCell → Map ℕ → List DvPair → Option Tables
unfolding apply
sweep f [] table packet = some (record { vector = []; table = table; packet = packet })
sweep f ((k, c) ∷ m) table packet = do
  let v = f k c
  table' ← apply k v.forward table
  s ← sweep f m table' (packet ++ v.announce)
  some (record s { vector = kept k v.cell s.vector })
