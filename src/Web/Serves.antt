-- ===== src/Web/Serves.antt =====
-- Requests that a file answers.
use comp429_computer_network.Base.{
  ℕ, ◌≤◌, ◌<◌, ◌≡◌, ◌≢◌, refl, ap, ◌∙◌, List, [], ◌∷◌, ◌++◌, true, false, some, length, All, ltb,
  arith,
}
use comp429_computer_network.Web.{
  Files, answer_to, answered, exited, process, process_dir, valid_dir, file_exist, server_issue,
  report_file, sending_valid_file, implemented, full_dir, parent, header, content_type, blank,
}
use comp429_computer_network.Web.Text.{codes, contains, starts_with}
use comp429_computer_network.Web.Tokens.{IsWord, get_cmd_dir-words}

-- What is sent before the file.
abbrev pub ok_header : List (List ℕ)
ok_header = header (codes "200 OK") ∷ content_type ∷ blank ∷ []

-- A path that passes every test of `process`, with what the file holds.
pub record Serves (files : Files) (dir bytes : List ℕ) : Type 0 where
  pub stays : contains parent dir ≡ false
  pub unknown : files.stat dir ≡ false
  pub exists : files.opens (full_dir dir) ≡ true
  pub readable : files.readable (full_dir dir) ≡ true
  pub short : length dir < 255
  pub holds : files.contents (full_dir dir) ≡ some bytes

module _ (files : Files) (dir : List ℕ) where
  process_dir-file :
      (bytes : List ℕ) → Serves files dir bytes → process_dir files dir ≡ report_file files dir
  unfolding process_dir valid_dir file_exist server_issue
  process_dir-file bytes s =
      let room : ltb (length (full_dir dir)) 256 ≡ true = ground (arith, s.short) in
      rw (process_dir, s.stays, s.unknown, room, s.exists, server_issue, room, s.readable) refl

  report_file-some :
      (b : ℕ) (bytes : List ℕ)
      → Serves files dir (b ∷ bytes)
      → report_file files dir ≡ answered (ok_header ++ (b ∷ bytes) ∷ [])
  unfolding report_file sending_valid_file
  report_file-some b bytes s =
      let room : ltb (length (full_dir dir)) 256 ≡ true = ground (arith, s.short) in
      rw (room, s.holds) refl

  report_file-none : Serves files dir [] → report_file files dir ≡ exited ok_header
  unfolding report_file sending_valid_file
  report_file-none s =
      let room : ltb (length (full_dir dir)) 256 ≡ true = ground (arith, s.short) in
      rw (room, s.holds) refl

get-IsWord : IsWord (codes "GET")
get-IsWord = record {
  no_space = ((λ e. omega arith), ((λ e. omega arith), ((λ e. omega arith), tt)));
  some_byte = omega arith;
}

process-dir :
    (files : Files) (dir rest : List ℕ)
    → IsWord dir
    → process files (codes "GET " ++ dir ++ 32 ∷ rest) ≡ process_dir files dir
unfolding process implemented
process-dir files dir rest word =
    ap (answer_to files) (get_cmd_dir-words (codes "GET") dir rest get-IsWord word)

-- A GET for a path that passes every test is answered with the header and the whole file; but if the
-- file is empty, the server exits after the header.
pub process-Serves :
    (files : Files) (dir rest bytes : List ℕ)
    → IsWord dir
    → Serves files dir bytes
    → (1 ≤ length bytes
        → process files (codes "GET " ++ dir ++ 32 ∷ rest) ≡ answered (ok_header ++ bytes ∷ []))
      × (length bytes ≡ 0 → process files (codes "GET " ++ dir ++ 32 ∷ rest) ≡ exited ok_header)
process-Serves files dir rest [] word s = (
  (λ h. absurd (omega arith)),
  λ h.
      process-dir files dir rest word
      ∙ process_dir-file files dir [] s
      ∙ report_file-none files dir s,
)
process-Serves files dir rest (b ∷ bytes) word s = (
  (λ h.
      process-dir files dir rest word
      ∙ process_dir-file files dir (b ∷ bytes) s
      ∙ report_file-some files dir b bytes s),
  λ h. absurd (omega arith),
)

-- A GET for `./name` is answered with the file `../name` of the parent directory, where no `./name` is
-- in the server's own: the test for `../` comes before the dot that `full_dir` puts in front.
pub process-climbs :
    (files : Files) (name rest bytes : List ℕ)
    → All (λ c. c ≢ 32) name
    → contains parent name ≡ false
    → files.stat (codes "./" ++ name) ≡ false
    → files.opens (codes "../" ++ name) ≡ true
    → files.readable (codes "../" ++ name) ≡ true
    → length name < 253
    → files.contents (codes "../" ++ name) ≡ some bytes
    → 1 ≤ length bytes
    → process files (codes "GET ./" ++ name ++ 32 ∷ rest) ≡ answered (ok_header ++ bytes ∷ [])
process-climbs files name rest bytes no_space stays unknown exists readable short holds some_byte =
    (process-Serves files (codes "./" ++ name) rest bytes
        (record {
          no_space = ((λ e. omega arith), ((λ e. omega arith), no_space));
          some_byte = omega arith;
        })
        (record {
          stays = unfold contains starts_with in stays;
          unknown = unknown;
          exists = exists;
          readable = readable;
          short = omega arith;
          holds = holds;
        })).0
      some_byte
