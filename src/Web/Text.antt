-- ===== src/Web/Text.antt =====
-- The functions of `string.h` that web.c calls, on the bytes before the NUL.
use Prim.Native.Char.{code}
use Prim.Native.String.{String}
use comp429_computer_network.Base.{
  ℕ, List, [], ◌∷◌, Bool, true, false, ◌&&◌, ◌||◌, Option, none, some, ◌==◌, if◌then◌else◌,
}

-- The bytes of an ASCII text.
abbrev pub codes : String → List ℕ
codes String.[] = []
codes (String.◌∷◌ c s) = code c ∷ codes s

-- `strcmp(a, b) == 0`
abbrev pub same_text : List ℕ → List ℕ → Bool
same_text [] [] = true
same_text [] (d ∷ b) = false
same_text (c ∷ a) [] = false
same_text (c ∷ a) (d ∷ b) = (c == d) && same_text a b

unfoldable pub starts_with : List ℕ → List ℕ → Bool
starts_with [] s = true
starts_with (c ∷ pat) [] = false
starts_with (c ∷ pat) (d ∷ s) = (c == d) && starts_with pat s

-- `strstr(s, pat) != NULL`
unfoldable pub contains : List ℕ → List ℕ → Bool
contains pat [] = starts_with pat []
contains pat (c ∷ s) = starts_with pat (c ∷ s) || contains pat s

pub record Tokens : Type 0 where
  pub word : List ℕ
  pub rest : List ℕ

unfoldable pub skip_spaces : List ℕ → List ℕ
skip_spaces [] = []
skip_spaces (c ∷ s) = let later = skip_spaces s in if c == 32 then later else c ∷ s

unfoldable pub split_word : List ℕ → Tokens
split_word [] = record { word = []; rest = [] }
split_word (c ∷ s) =
    let later = split_word s in
    if c == 32
    then record { word = []; rest = s }
    else record { word = c ∷ later.word; rest = later.rest }

-- `strtok(…, " ")` from a position on: the next word, and the position behind the space that ends it.
unfoldable pub next_token : List ℕ → Option Tokens
next_token s = elim (skip_spaces s) [ [] ↦ none | c ∷ t ↦ some (split_word (c ∷ t)) ]
