-- ===== src/Routing/Consistency/Refreshes/Ports.antt =====
-- The first loop of `refreshDV`: which neighbours are lost, and which routes go over them.
use comp429_computer_network.Base.{
  ℕ, suc, ◌≤◌, ◌≡◌, ◌≢◌, sym, ◌∙◌, ap, [], ◌∷◌, some, inl, inr, ◌⊎◌, true, arith, ◌==◌, Bool-cases,
  ==_iff, dec_eq, In, Unrepeated, some-inj,
}
use comp429_computer_network.Routing.Map.{Map, find, Sorted, find-cons_ne, find-cons_self}
use comp429_computer_network.Routing.State.{Port, DvCell}
use comp429_computer_network.Routing.Refresh.{routes_over}

-- No two connected ports lead to the same neighbour.
abbrev pub IsPlugged : Map Port → Type 0
IsPlugged ports =
    (i j : ℕ) (p q : Port)
    → i ≢ j
    → find i ports ≡ some p
    → find j ports ≡ some q
    → p.connected ≡ true
    → q.connected ≡ true
    → p.to ≢ q.to

-- The route to `k` goes over `hop`.
abbrev pub GoesOver : ℕ → Map DvCell → ℕ → Type 0
GoesOver hop m k = (c : DvCell) × (find k m ≡ some c) × (c.next_hop ≡ hop)

GoesOver-cons :
    (hop j k : ℕ) (d : DvCell) (m : Map DvCell)
    → suc j ≤ k
    → GoesOver hop m k
    → GoesOver hop ((j, d) ∷ m) k
GoesOver-cons hop j k d m le (c, e, h) = (c, find-cons_ne j k d m (omega arith) ∙ e, h)

-- The collected destinations are those whose route goes over the silent neighbour.
pub routes_over-found :
    (hop lo k : ℕ) (m : Map DvCell)
    → Sorted lo m
    → In k (routes_over hop m)
    → (lo ≤ k) × GoesOver hop m k
unfolding routes_over
routes_over-found hop lo k [] s i = absurd i
routes_over-found hop lo k ((j, c) ∷ m) s i = elim (Bool-cases (c.next_hop == hop)) [
  | inl hit ↦ elim (unhide hit i) [
    | inl same ↦ (omega arith, (c, rw same (find-cons_self j c m), (==_iff c.next_hop hop).0 hit))
    | inr later ↦
        let (le, over) = routes_over-found hop (suc j) k m s.1 later in
        (omega arith, GoesOver-cons hop j k c m le over)
  ]
  | inr miss ↦
      let (le, over) = routes_over-found hop (suc j) k m s.1 (rw miss at i) in
      (omega arith, GoesOver-cons hop j k c m le over)
]
  where
    unhide :
        (c.next_hop == hop) ≡ true
        → In k (routes_over hop ((j, c) ∷ m))
        → (k ≡ j) ⊎ In k (routes_over hop m)
    unhide hit i' = rw hit at i'

pub found-routes_over :
    (hop k : ℕ) (c : DvCell) (m : Map DvCell)
    → find k m ≡ some c
    → c.next_hop ≡ hop
    → In k (routes_over hop m)
unfolding routes_over
found-routes_over hop k c [] e h = unfold find in cc
found-routes_over hop k c ((j, d) ∷ m) e h = elim (dec_eq j k) [
  | yes same ↦
      let this : d ≡ c = some-inj (sym (rw same (find-cons_self k d m)) ∙ e) in
      rw ((==_iff d.next_hop hop).1 (ap (λ (x : DvCell). x.next_hop) this ∙ h)) (inl (sym same))
  | no ne ↦
      let later = found-routes_over hop k c m (sym (find-cons_ne j k d m ne) ∙ e) h in
      elim (Bool-cases (d.next_hop == hop)) [
        | inl hit ↦ rw hit (inr later)
        | inr miss ↦ rw miss later
      ]
]

pub routes_over-Unrepeated :
    (hop lo : ℕ) (m : Map DvCell) → Sorted lo m → Unrepeated (routes_over hop m)
unfolding routes_over
routes_over-Unrepeated hop lo [] s = tt
routes_over-Unrepeated hop lo ((j, c) ∷ m) s =
    let rest = routes_over-Unrepeated hop (suc j) m s.1 in
    elim (Bool-cases (c.next_hop == hop)) [
      | inl hit ↦
          rw hit ((λ i. absurd (omega (arith, (routes_over-found hop (suc j) j m s.1 i).0))), rest)
      | inr miss ↦ rw miss rest
    ]
