-- ===== src/Transfer/Sender/Chunks.antt =====
-- `fread` cuts the file into the chunks that the packets carry.
use comp429_computer_network.Base.{
  ℕ, zero, suc, ◌+◌, ◌≤◌, ◌<◌, ◌≡◌, refl, sym, ◌∙◌, ap, List, [], ◌∷◌, ◌++◌, length, get_or, take,
  drop, joined, arith, append-nil, dec_lt,
}
use comp429_computer_network.Transfer.Receiver.Files.{IsFile}

module _ {ℓ} {A : Type ℓ} where
  take-append : (n : ℕ) (xs ys : List A) → length xs ≡ n → take n (xs ++ ys) ≡ xs
  take-append zero [] ys h = refl
  take-append zero (x ∷ xs) ys h = absurd (omega arith)
  take-append (suc n) [] ys h = absurd (omega arith)
  take-append (suc n) (x ∷ xs) ys h = ap (◌∷◌ x) (take-append n xs ys (omega arith))

  drop-append : (n : ℕ) (xs ys : List A) → length xs ≡ n → drop n (xs ++ ys) ≡ ys
  drop-append zero [] ys h = refl
  drop-append zero (x ∷ xs) ys h = absurd (omega arith)
  drop-append (suc n) [] ys h = absurd (omega arith)
  drop-append (suc n) (x ∷ xs) ys h = drop-append n xs ys (omega arith)

  pub take_all : (n : ℕ) (xs : List A) → length xs ≤ n → take n xs ≡ xs
  take_all zero [] h = refl
  take_all zero (x ∷ xs) h = absurd (omega arith)
  take_all (suc n) [] h = refl
  take_all (suc n) (x ∷ xs) h = ap (◌∷◌ x) (take_all n xs (omega arith))

  pub drop_all : (n : ℕ) (xs : List A) → length xs ≤ n → drop n xs ≡ []
  drop_all zero [] h = refl
  drop_all zero (x ∷ xs) h = absurd (omega arith)
  drop_all (suc n) [] h = refl
  drop_all (suc n) (x ∷ xs) h = drop_all n xs (omega arith)

  joined-drop :
      (xs : List (List A)) (j : ℕ)
      → j < length xs
      → joined (drop j xs) ≡ get_or xs j [] ++ joined (drop (j + 1) xs)
  joined-drop [] j h = absurd (omega arith)
  joined-drop (x ∷ xs) zero h = refl
  joined-drop (x ∷ xs) (suc j) h =
      let e : suc j + 1 ≡ suc (j + 1) = omega arith in rw e (joined-drop xs j (omega arith))

module _ (chunks : List (List ℕ)) (file : IsFile chunks) (j : ℕ) (within : j < length chunks) where
  last_alone : j + 1 ≡ length chunks → joined (drop j chunks) ≡ get_or chunks j []
  last_alone e =
      joined-drop chunks j within
      ∙ ap (λ rest. get_or chunks j [] ++ joined rest) (drop_all (j + 1) chunks (omega arith))
      ∙ append-nil (get_or chunks j [])

  -- One `fread` of BUFLEN bytes takes exactly the next chunk.
  pub take-chunk : take 32768 (joined (drop j chunks)) ≡ get_or chunks j []
  take-chunk = elim (dec_lt (j + 1) (length chunks)) [
    | yes more ↦
        ap (take 32768) (joined-drop chunks j within)
        ∙ take-append 32768 (get_or chunks j []) _ (file.full j more)
    | no last ↦
        let e : j + 1 ≡ length chunks = omega arith in
        ap (take 32768) (last_alone e)
        ∙ take_all 32768 (get_or chunks j []) (omega (arith, file.short j e))
  ]

  pub drop-chunk : drop 32768 (joined (drop j chunks)) ≡ joined (drop (j + 1) chunks)
  drop-chunk = elim (dec_lt (j + 1) (length chunks)) [
    | yes more ↦
        ap (drop 32768) (joined-drop chunks j within)
        ∙ drop-append 32768 (get_or chunks j []) _ (file.full j more)
    | no last ↦
        let e : j + 1 ≡ length chunks = omega arith in
        ap (drop 32768) (last_alone e)
        ∙ drop_all 32768 (get_or chunks j []) (omega (arith, file.short j e))
        ∙ ap joined (sym (drop_all (j + 1) chunks (omega arith)))
  ]
