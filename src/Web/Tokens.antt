-- ===== src/Web/Tokens.antt =====
-- What `strtok` and `strstr` find.
use comp429_computer_network.Base.{
  ℕ, ◌≤◌, ◌≡◌, ◌≢◌, refl, ap, List, [], ◌∷◌, ◌++◌, Bool, true, false, ◌||◌, some, length, All,
  arith, ◌==◌, ==_iff,
}
use comp429_computer_network.Web.{get_cmd_dir}
use comp429_computer_network.Web.Text.{starts_with, contains, skip_spaces, split_word, next_token}

-- A word of a request.
pub record IsWord (w : List ℕ) : Type 0 where
  pub no_space : All (λ c. c ≢ 32) w
  pub some_byte : 1 ≤ length w

split_word-append :
    (w rest : List ℕ)
    → All (λ c. c ≢ 32) w
    → split_word (w ++ 32 ∷ rest) ≡ record { word = w; rest = rest }
unfolding split_word
split_word-append [] rest h = refl
split_word-append (c ∷ w) rest h =
    let not_space : (c == 32) ≡ false = ground (arith, h.0) in
    rw (split_word, not_space, split_word-append w rest h.1) refl

next_token-append :
    (w rest : List ℕ)
    → IsWord w
    → next_token (w ++ 32 ∷ rest) ≡ some (record { word = w; rest = rest })
unfolding next_token skip_spaces
next_token-append [] rest h = absurd (omega (arith, h.some_byte))
next_token-append (c ∷ w) rest h =
    let not_space : (c == 32) ≡ false = ground (arith, h.no_space.0) in
    rw (next_token, not_space) (ap some (split_word-append (c ∷ w) rest h.no_space))

-- A request of two words and more gives these two words.
pub get_cmd_dir-words :
    (cmd dir rest : List ℕ)
    → IsWord cmd
    → IsWord dir
    → get_cmd_dir (cmd ++ 32 ∷ (dir ++ 32 ∷ rest)) ≡ (some cmd, some dir)
unfolding get_cmd_dir
get_cmd_dir-words cmd dir rest c d =
    rw (get_cmd_dir, next_token-append cmd (dir ++ 32 ∷ rest) c, next_token-append dir rest d) refl

starts_with-append : (pat post : List ℕ) → starts_with pat (pat ++ post) ≡ true
unfolding starts_with
starts_with-append [] post = refl
starts_with-append (c ∷ pat) post =
    let same : (c == c) ≡ true = (==_iff c c).1 refl in rw (same, starts_with-append pat post) refl

starts-contains : (pat s : List ℕ) → starts_with pat s ≡ true → contains pat s ≡ true
unfolding contains
starts-contains pat [] e = e
starts-contains pat (c ∷ s) e = rw e refl

-- `strstr` finds a text wherever it stands.
pub contains-append : (pat pre post : List ℕ) → contains pat (pre ++ pat ++ post) ≡ true
unfolding contains
contains-append pat [] post = starts-contains pat (pat ++ post) (starts_with-append pat post)
contains-append pat (c ∷ pre) post = either _ _ (contains-append pat pre post)
  where
    either : (a b : Bool) → b ≡ true → (a || b) ≡ true
    either true b e = refl
    either false b e = e
