-- ===== src/Routing/Map.antt =====
-- `std::map` from 16-bit keys, as the list of its entries in ascending order of the keys.
use comp429_computer_network.Base.{
  ℕ, suc, ◌<◌, ◌≤◌, ◌≡◌, ◌≢◌, refl, List, [], ◌∷◌, Option, some, none, Bool, true, false, arith,
  ltb, ◌==◌, if◌then◌else◌, ==_iff,
}

abbrev pub Map {ℓ} : Type ℓ → Type ℓ
Map V = List (ℕ × V)

module _ {ℓ} {V : Type ℓ} where
  -- `m.find(k)`, with `none` for `m.end()`.
  unfoldable pub find : ℕ → Map V → Option V
  find k [] = none
  find k ((j, v) ∷ m) = if j == k then some v else find k m

  -- `m[k] = v`
  unfoldable pub put : ℕ → V → Map V → Map V
  put k v [] = (k, v) ∷ []
  put k v ((j, w) ∷ m) =
      let rest = put k v m in
      if j == k then (k, v) ∷ m else if ltb k j then (k, v) ∷ (j, w) ∷ m else (j, w) ∷ rest

  -- Every entry with the key goes; a map has one at most.
  unfoldable pub remove : ℕ → Map V → Map V
  remove k [] = []
  remove k ((j, v) ∷ m) = let rest = remove k m in if j == k then rest else (j, v) ∷ rest

  -- `m.erase(m.find(k))`, which for a missing key is an error that C++ leaves undefined.
  unfoldable pub erase : ℕ → Map V → Option (Map V)
  unfolding remove
  erase k m = elim (find k m) [ none ↦ none | some v ↦ some (remove k m) ]

  -- `m[k]` where nothing is stored under the key yields a default value.
  unfoldable pub find_or : ℕ → V → Map V → V
  find_or k d m = elim (find k m) [ none ↦ d | some v ↦ v ]

  abbrev pub contains : ℕ → Map V → Bool
  contains k m = elim (find k m) [ none ↦ false | some v ↦ true ]

  -- The keys ascend, from `lo` on.
  abbrev pub Sorted : ℕ → Map V → Type 0
  Sorted lo [] = Unit
  Sorted lo ((j, v) ∷ m) = (lo ≤ j) × Sorted (suc j) m

  pub find-cons_self : (k : ℕ) (v : V) (m : Map V) → find k ((k, v) ∷ m) ≡ some v
  unfolding find
  find-cons_self k v m = rw ((==_iff k k).1 refl)

  pub find-cons_ne : (k j : ℕ) (v : V) (m : Map V) → k ≢ j → find j ((k, v) ∷ m) ≡ find j m
  unfolding find
  find-cons_ne k j v m ne = ground arith

  pub find-put :
      (k j : ℕ) (v : V) (m : Map V) → find j (put k v m) ≡ (if k == j then some v else find j m)
  unfolding find put
  find-put k j v [] = refl
  find-put k j v ((i, w) ∷ m) = ground (arith, find-put k j v m)

  pub find-remove :
      (k j : ℕ) (m : Map V) → find j (remove k m) ≡ (if k == j then none else find j m)
  unfolding find remove
  find-remove k j [] = ground arith
  find-remove k j ((i, w) ∷ m) = ground (arith, find-remove k j m)

  pub find_below : (k lo : ℕ) (m : Map V) → Sorted lo m → k < lo → find k m ≡ none
  unfolding find
  find_below k lo [] h lt = refl
  find_below k lo ((j, v) ∷ m) h lt = ground (arith, find_below k (suc j) m h.1)

  pub Sorted-weaken : (lo hi : ℕ) (m : Map V) → lo ≤ hi → Sorted hi m → Sorted lo m
  Sorted-weaken lo hi [] le h = tt
  Sorted-weaken lo hi ((j, v) ∷ m) le h = (omega arith, h.1)

  pub put-Sorted : (k lo : ℕ) (v : V) (m : Map V) → lo ≤ k → Sorted lo m → Sorted lo (put k v m)
  unfolding put
  put-Sorted k lo v [] le h = (le, tt)
  put-Sorted k lo v ((j, w) ∷ m) le h = ground (arith, put-Sorted k (suc j) v m)

  pub remove-Sorted : (k lo : ℕ) (m : Map V) → Sorted lo m → Sorted lo (remove k m)
  unfolding remove
  remove-Sorted k lo [] h = tt
  remove-Sorted k lo ((j, v) ∷ m) h =
      ground (arith, remove-Sorted k (suc j) m h.1, Sorted-weaken lo (suc j) (remove k m))

  -- Erasing a key that is there succeeds.
  pub erase_found : (k : ℕ) {v : V} (m : Map V) → find k m ≡ some v → erase k m ≡ some (remove k m)
  unfolding erase
  erase_found k m e = rw (e, erase)
