-- ===== src/Base/Members.antt =====
-- Membership by recursion, for lists of keys.
use Prim.Native.Nat.{ℕ}
use mathlib.Core.Path.{◌≡◌, refl}
use mathlib.Core.Logic.{◌⊎◌, inl, inr}
use mathlib.Core.List.{List, [], ◌∷◌, ◌++◌}

abbrev pub In : ℕ → List ℕ → Type 0
In k [] = ⊥
In k (x ∷ xs) = (k ≡ x) ⊎ In k xs

-- No item twice.
abbrev pub Unrepeated : List ℕ → Type 0
Unrepeated [] = Unit
Unrepeated (x ∷ xs) = (¬ In x xs) × Unrepeated xs

pub In-append : (k : ℕ) (xs ys : List ℕ) → In k (xs ++ ys) → In k xs ⊎ In k ys
In-append k [] ys h = inr h
In-append k (x ∷ xs) ys (inl e) = inl (inl e)
In-append k (x ∷ xs) ys (inr h) = elim (In-append k xs ys h) [ inl l ↦ inl (inr l) | inr r ↦ inr r ]

pub In-append_left : (k : ℕ) (xs ys : List ℕ) → In k xs → In k (xs ++ ys)
In-append_left k [] ys h = absurd h
In-append_left k (x ∷ xs) ys (inl e) = inl e
In-append_left k (x ∷ xs) ys (inr h) = inr (In-append_left k xs ys h)

pub In-append_right : (k : ℕ) (xs ys : List ℕ) → In k ys → In k (xs ++ ys)
In-append_right k [] ys h = h
In-append_right k (x ∷ xs) ys h = inr (In-append_right k xs ys h)

pub append-Unrepeated :
    (xs ys : List ℕ)
    → Unrepeated xs
    → Unrepeated ys
    → ((k : ℕ) → In k xs → In k ys → ⊥)
    → Unrepeated (xs ++ ys)
append-Unrepeated [] ys hx hy apart = hy
append-Unrepeated (x ∷ xs) ys hx hy apart = (
  (λ i. elim (In-append x xs ys i) [ inl l ↦ hx.0 l | inr r ↦ apart x (inl refl) r ]),
  append-Unrepeated xs ys hx.1 hy (λ k l r. apart k (inr l) r),
)
