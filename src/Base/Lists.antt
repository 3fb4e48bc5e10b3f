-- ===== src/Base/Lists.antt =====
-- Arrays, byte strings and vectors as lists, measured and indexed by native numbers.
use Prim.Native.Nat.{ℕ, zero, suc, ◌+◌, ◌<◌}
use mathlib.Core.Path.{◌≡◌, refl, ap, sym, ◌∙◌}
use mathlib.Core.Logic.{◌≢◌}
use mathlib.Core.List.{List, [], ◌∷◌, ◌++◌, append_assoc}
use mathlib.Core.Option.{Option, none, some}
use native.Mathlib.Omega.{arith}

module _ {ℓ} {A : Type ℓ} where
  abbrev pub length : List A → ℕ
  length [] = 0
  length (x ∷ xs) = suc (length xs)

  abbrev pub get_elem? : List A → ℕ → Option A
  get_elem? [] i = none
  get_elem? (x ∷ xs) zero = some x
  get_elem? (x ∷ xs) (suc i) = get_elem? xs i

  abbrev pub get_or : List A → ℕ → A → A
  get_or [] i d = d
  get_or (x ∷ xs) zero d = x
  get_or (x ∷ xs) (suc i) d = get_or xs i d

  -- A write out of bounds changes nothing.
  abbrev pub set : List A → ℕ → A → List A
  set [] i v = []
  set (x ∷ xs) zero v = v ∷ xs
  set (x ∷ xs) (suc i) v = x ∷ set xs i v

  abbrev pub take : ℕ → List A → List A
  take zero xs = []
  take (suc n) [] = []
  take (suc n) (x ∷ xs) = x ∷ take n xs

  abbrev pub drop : ℕ → List A → List A
  drop zero xs = xs
  drop (suc n) [] = []
  drop (suc n) (x ∷ xs) = drop n xs

  abbrev pub replicate : ℕ → A → List A
  replicate zero a = []
  replicate (suc n) a = a ∷ replicate n a

  abbrev pub All {κ} : (A → Type κ) → List A → Type κ
  All P [] = Unit
  All P (x ∷ xs) = P x × All P xs

  -- Writing a block over the start of a buffer, as `memcpy` and `recv` do.
  abbrev pub overwrite : List A → List A → List A
  overwrite [] buf = buf
  overwrite (x ∷ xs) [] = x ∷ xs
  overwrite (x ∷ xs) (y ∷ ys) = x ∷ overwrite xs ys

module _ {ℓ} {A : Type ℓ} where
  pub length-append : (xs ys : List A) → length (xs ++ ys) ≡ length xs + length ys
  length-append [] ys = omega arith
  length-append (x ∷ xs) ys = omega (arith, length-append xs ys)

  pub length-set : (xs : List A) (i : ℕ) (v : A) → length (set xs i v) ≡ length xs
  length-set [] i v = refl
  length-set (x ∷ xs) zero v = refl
  length-set (x ∷ xs) (suc i) v = ap suc (length-set xs i v)

  pub length-replicate : (n : ℕ) (a : A) → length (replicate n a) ≡ n
  length-replicate zero a = refl
  length-replicate (suc n) a = ap suc (length-replicate n a)

  pub get_elem?-eq-get_or :
      (xs : List A) (i : ℕ) (d : A) → i < length xs → get_elem? xs i ≡ some (get_or xs i d)
  get_elem?-eq-get_or [] i d h = absurd (omega arith)
  get_elem?-eq-get_or (x ∷ xs) zero d h = refl
  get_elem?-eq-get_or (x ∷ xs) (suc i) d h = get_elem?-eq-get_or xs i d (omega arith)

  pub get_or-set_self :
      (xs : List A) (i : ℕ) (v d : A) → i < length xs → get_or (set xs i v) i d ≡ v
  get_or-set_self [] i v d h = absurd (omega arith)
  get_or-set_self (x ∷ xs) zero v d h = refl
  get_or-set_self (x ∷ xs) (suc i) v d h = get_or-set_self xs i v d (omega arith)

  pub get_or-set_ne :
      (xs : List A) (i j : ℕ) (v d : A) → i ≢ j → get_or (set xs i v) j d ≡ get_or xs j d
  get_or-set_ne [] i j v d h = refl
  get_or-set_ne (x ∷ xs) zero zero v d h = absurd (h refl)
  get_or-set_ne (x ∷ xs) zero (suc j) v d h = refl
  get_or-set_ne (x ∷ xs) (suc i) zero v d h = refl
  get_or-set_ne (x ∷ xs) (suc i) (suc j) v d h = get_or-set_ne xs i j v d (λ e. h (ap suc e))

  pub get_or-replicate : (n i : ℕ) (a : A) → get_or (replicate n a) i a ≡ a
  get_or-replicate zero i a = refl
  get_or-replicate (suc n) zero a = refl
  get_or-replicate (suc n) (suc i) a = get_or-replicate n i a

  pub get_or-append_left :
      (xs ys : List A) (i : ℕ) (d : A) → i < length xs → get_or (xs ++ ys) i d ≡ get_or xs i d
  get_or-append_left [] ys i d h = absurd (omega arith)
  get_or-append_left (x ∷ xs) ys zero d h = refl
  get_or-append_left (x ∷ xs) ys (suc i) d h = get_or-append_left xs ys i d (omega arith)

  pub take-length : (xs : List A) → take (length xs) xs ≡ xs
  take-length [] = refl
  take-length (x ∷ xs) = ap (◌∷◌ x) (take-length xs)

  -- What is written over the start of a buffer is what is read back there.
  pub take-drop-overwrite :
      (k n : ℕ) (xs ys : List A) → n + k ≡ length xs → take n (drop k (overwrite xs ys)) ≡ drop k xs
  take-drop-overwrite zero n [] ys h = let e : n ≡ 0 = omega arith in rw e
  take-drop-overwrite zero n (x ∷ xs) [] h =
      let e : n ≡ length (x ∷ xs) = omega arith in rw e (take-length (x ∷ xs))
  take-drop-overwrite zero zero (x ∷ xs) (y ∷ ys) h = absurd (omega arith)
  take-drop-overwrite zero (suc n) (x ∷ xs) (y ∷ ys) h =
      ap (◌∷◌ x) (take-drop-overwrite zero n xs ys (omega arith))
  take-drop-overwrite (suc k) n [] ys h = absurd (omega arith)
  take-drop-overwrite (suc k) n (x ∷ xs) [] h =
      let e : n + k ≡ length xs = omega arith in take-drop-whole k n xs e
    where
      take-drop-whole : (k n : ℕ) (zs : List A) → n + k ≡ length zs → take n (drop k zs) ≡ drop k zs
      take-drop-whole zero n zs e = let e' : n ≡ length zs = omega arith in rw e' (take-length zs)
      take-drop-whole (suc k) n [] e = absurd (omega arith)
      take-drop-whole (suc k) n (z ∷ zs) e = take-drop-whole k n zs (omega arith)
  take-drop-overwrite (suc k) n (x ∷ xs) (y ∷ ys) h = take-drop-overwrite k n xs ys (omega arith)

  pub get_or-overwrite :
      (xs ys : List A) (i : ℕ) (d : A)
      → i < length xs
      → get_or (overwrite xs ys) i d ≡ get_or xs i d
  get_or-overwrite [] ys i d h = absurd (omega arith)
  get_or-overwrite (x ∷ xs) [] i d h = refl
  get_or-overwrite (x ∷ xs) (y ∷ ys) zero d h = refl
  get_or-overwrite (x ∷ xs) (y ∷ ys) (suc i) d h = get_or-overwrite xs ys i d (omega arith)

  pub append-nil : (xs : List A) → xs ++ [] ≡ xs
  append-nil [] = refl
  append-nil (x ∷ xs) = ap (◌∷◌ x) (append-nil xs)

-- The items of a list of lists, in order.
module _ {ℓ} {A : Type ℓ} where
  abbrev pub joined : List (List A) → List A
  joined [] = []
  joined (x ∷ xs) = x ++ joined xs

  pub joined-take_suc :
      (xs : List (List A)) (n : ℕ)
      → n < length xs
      → joined (take (n + 1) xs) ≡ joined (take n xs) ++ get_or xs n []
  joined-take_suc xs n h = let e : n + 1 ≡ suc n = omega arith in rw e (go xs n h)
    where
      go :
          (xs : List (List A)) (n : ℕ)
          → n < length xs
          → joined (take (suc n) xs) ≡ joined (take n xs) ++ get_or xs n []
      go [] n h = absurd (omega arith)
      go (x ∷ xs) zero h = append-nil x
      go (x ∷ xs) (suc n) h = ap (λ t. x ++ t) (go xs n (omega arith)) ∙ sym (append_assoc x _ _)
