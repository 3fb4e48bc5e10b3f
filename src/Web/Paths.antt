-- ===== src/Web/Paths.antt =====
-- Which files a request can reach.
use comp429_computer_network.Base.{
  ℕ, ◌≡◌, refl, List, ◌∷◌, ◌++◌, Bool, true, false, Option, none, some, Bool-cases, inl, inr,
}
use comp429_computer_network.Web.{
  Files, Answer, answer_to, undefined, process, process_dir, valid_dir, file_exist, server_issue,
  report_err, report_file, sending_valid_file, get_cmd_dir, full_dir, parent,
}
use comp429_computer_network.Web.Text.{codes, contains}
use comp429_computer_network.Web.Tokens.{contains-append}

-- A path that does not climb to a parent directory after its first byte.
abbrev pub Inside : List ℕ → Type 0
Inside path = (c : ℕ) (pre post : List ℕ) → path ≡ c ∷ pre ++ parent ++ post → ⊥

-- Two file systems that cannot be told apart at a path.
pub record SameAt (f g : Files) (path : List ℕ) : Type 0 where
  pub same_stat : f.stat path ≡ g.stat path
  pub same_opens : f.opens path ≡ g.opens path
  pub same_readable : f.readable path ≡ g.readable path
  pub same_contents : f.contents path ≡ g.contents path

tail-eq : (c d : ℕ) (xs ys : List ℕ) → c ∷ xs ≡ d ∷ ys → xs ≡ ys
tail-eq c d xs ys e = cc

Inside-dir : (dir : List ℕ) → contains parent dir ≡ false → Inside dir
Inside-dir dir none_found c pre post e =
    let found : contains parent dir ≡ true = rw e (contains-append parent (c ∷ pre) post) in cc

Inside-full : (dir : List ℕ) → contains parent dir ≡ false → Inside (full_dir dir)
Inside-full dir none_found c pre post e =
    let found : contains parent dir ≡ true =
      rw (tail-eq 46 c dir (pre ++ parent ++ post) e) (contains-append parent pre post) in
    cc

-- What `process_dir` makes of its tests and of the file's answer.
abbrev outcome : Bool → Option Bool → Option Bool → Answer → Answer
outcome false exist issue file = report_err (codes "400 Bad Request")
outcome true none issue file = undefined
outcome true (some false) issue file = report_err (codes "404 Not Found")
outcome true (some true) none file = undefined
outcome true (some true) (some true) file = report_err (codes "500 Internal Server Error")
outcome true (some true) (some false) file = file

process_dir-outcome :
    (f : Files) (dir : List ℕ)
    → process_dir f dir
      ≡ outcome (valid_dir f dir) (file_exist f dir) (server_issue f dir) (report_file f dir)
unfolding process_dir
process_dir-outcome f dir = elim (Bool-cases (valid_dir f dir)) [
  | inl valid ↦ rw (process_dir, valid) (exists (file_exist f dir))
  | inr bad ↦ rw (process_dir, bad) refl
]
  where
    exists :
        (e : Option Bool)
        → elim e [
          | none ↦ undefined
          | some false ↦ report_err (codes "404 Not Found")
          | some true ↦ elim (server_issue f dir) [
            | none ↦ undefined
            | some true ↦ report_err (codes "500 Internal Server Error")
            | some false ↦ report_file f dir
          ]
        ]
          ≡ outcome true e (server_issue f dir) (report_file f dir)
    exists none = refl
    exists (some false) = refl
    exists (some true) = issues (server_issue f dir)
      where
        issues :
            (i : Option Bool)
            → elim i [
              | none ↦ undefined
              | some true ↦ report_err (codes "500 Internal Server Error")
              | some false ↦ report_file f dir
            ]
              ≡ outcome true (some true) i (report_file f dir)
        issues none = refl
        issues (some true) = refl
        issues (some false) = refl

module _ (f g : Files) (same : (path : List ℕ) → Inside path → SameAt f g path) where
  report_file-same :
      (dir : List ℕ) → contains parent dir ≡ false → report_file f dir ≡ report_file g dir
  unfolding report_file sending_valid_file
  report_file-same dir stays = rw (same (full_dir dir) (Inside-full dir stays)).same_contents refl

  process_dir-Inside : (dir : List ℕ) → process_dir f dir ≡ process_dir g dir
  unfolding valid_dir file_exist server_issue
  process_dir-Inside dir = elim (Bool-cases (contains parent dir)) [
    | inl climbs ↦ rw (process_dir-outcome f dir, process_dir-outcome g dir, climbs) refl
    | inr stays ↦
        let here = same dir (Inside-dir dir stays) in
        let full = same (full_dir dir) (Inside-full dir stays) in
        rw
          (
            process_dir-outcome f dir,
            process_dir-outcome g dir,
            report_file-same dir stays,
            here.same_stat,
            full.same_opens,
            full.same_readable,
          )
          refl
  ]

  -- The answer to a request depends on no file whose path climbs to a parent directory after its
  -- first byte: two file systems that differ only there give the same answer.
  pub process-Inside : (request_msg : List ℕ) → process f request_msg ≡ process g request_msg
  unfolding process
  process-Inside request_msg = go (get_cmd_dir request_msg)
    where
      go : (t : Option (List ℕ) × Option (List ℕ)) → answer_to f t ≡ answer_to g t
      go (none, d) = refl
      go (some c, none) = refl
      go (some c, some d) = rw (process_dir-Inside d) refl
