-- ===== src/Simulator/Text.antt =====
-- The texts of the configuration file, as lists of bytes: `find`, `erase` and `trim` of Simulator.cc,
-- and `atoi`.
use comp429_computer_network.Base.{
  ℕ, ◌+◌, ◌*◌, List, [], ◌∷◌, Option, none, some, take, drop, ◌==◌, if◌then◌else◌, ◌>>=◌, u32, ◌-◌,
  leb, ◌&&◌, ◌||◌,
}
use comp429_computer_network.Web.Text.{starts_with, skip_spaces}

-- `find` of a string; `none` is `npos`.
unfoldable pub find_text : List ℕ → List ℕ → Option ℕ
unfolding starts_with
find_text pat [] = if starts_with pat [] then some 0 else none
find_text pat (c ∷ s) =
    let later = find_text pat s in
    if starts_with pat (c ∷ s) then some 0 else (later >>= λ i. some (i + 1))

-- `s.substr(0, pos)`
unfoldable pub before : Option ℕ → List ℕ → List ℕ
before none s = s
before (some pos) s = take pos s

-- What `s.erase(0, pos)` leaves.
unfoldable pub from : Option ℕ → List ℕ → List ℕ
from none s = []
from (some pos) s = drop pos s

-- `erase` of the first `'\r'`.
unfoldable pub erase_return : List ℕ → List ℕ
erase_return [] = []
erase_return (c ∷ s) = let later = erase_return s in if c == 13 then s else c ∷ later

-- `erase` of what is behind the last byte that is not a blank.
unfoldable pub drop_blanks : List ℕ → List ℕ
drop_blanks [] = []
drop_blanks (c ∷ s) = elim (drop_blanks s) [
  | [] ↦ if c == 32 then [] else c ∷ []
  | d ∷ t ↦ c ∷ d ∷ t
]

-- `trim`
unfoldable pub trim : List ℕ → List ℕ
unfolding erase_return skip_spaces drop_blanks
trim s = drop_blanks (skip_spaces (erase_return s))

-- The blanks that `atoi` passes over: space, and tab to return.
unfoldable pub skip_white : List ℕ → List ℕ
skip_white [] = []
skip_white (c ∷ s) =
    let later = skip_white s in if c == 32 || (leb 9 c && leb c 13) then later else c ∷ s

unfoldable pub digits : ℕ → List ℕ → ℕ
digits n [] = n
digits n (c ∷ s) =
    let more = digits (n * 10 + (c - 48)) s in if leb 48 c && leb c 57 then more else n

-- `atoi`, as the unsigned number with the bits of the `int`; one that is too large wraps around.
unfoldable pub atoi : List ℕ → ℕ
unfolding skip_white digits
atoi s = signed (skip_white s)
  where
    signed : List ℕ → ℕ
    signed [] = 0
    signed (c ∷ t) =
        if c == 45
        then u32 (4294967296 - u32 (digits 0 t))
        else if c == 43
        then u32 (digits 0 t)
        else u32 (digits 0 (c ∷ t))
