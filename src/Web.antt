-- ===== src/Web.antt =====
-- project1/web.c: the answer to one request. Strings are the bytes before their NUL. The file system is
-- a parameter.
pub mod Text
pub mod Tokens
pub mod Paths
pub mod Serves
mod Tests
use comp429_computer_network.Base.{
  ℕ, List, [], ◌∷◌, ◌++◌, Bool, true, false, not, ◌&&◌, Option, none, some, length, ltb,
  if◌then◌else◌, ◌>>=◌,
}
use comp429_computer_network.Web.Text.{codes, contains, same_text, next_token}

-- What the calls on a path give: whether `stat` and `fopen` succeed and `access` grants reading, and
-- what the file holds, where it can be read whole into memory.
pub record Files : Type 0 where
  pub stat : List ℕ → Bool
  pub opens : List ℕ → Bool
  pub readable : List ℕ → Bool
  pub contents : List ℕ → Option (List ℕ)

-- How the handling of a request ends: with these messages sent and the socket closed, with `exit(1)`
-- after these messages, or by following a NULL or writing past an array.
pub data Answer : Type 0 where
  answered : List (List ℕ) → Answer
  exited : List (List ℕ) → Answer
  undefined : Answer

-- `getCmdDir`: the first two words.
unfoldable pub get_cmd_dir : List ℕ → Option (List ℕ) × Option (List ℕ)
get_cmd_dir request_msg = elim (next_token request_msg) [
  | none ↦ (none, none)
  | some t ↦ elim (next_token t.rest) [
    | none ↦ (some t.word, none)
    | some u ↦ (some t.word, some u.word)
  ]
]

-- `getDir`
unfoldable pub get_dir : List ℕ → Option (List ℕ)
get_dir request_msg = do t ← next_token request_msg; u ← next_token t.rest; some u.word

abbrev pub parent : List ℕ
parent = codes "../"

-- `validDir`
unfoldable pub valid_dir : Files → List ℕ → Bool
valid_dir files request_dir = not (contains parent request_dir) && not (files.stat request_dir)

-- `full_dir`, a buffer of 256 bytes.
abbrev pub full_dir : List ℕ → List ℕ
full_dir request_dir = codes "." ++ request_dir

abbrev pub fits : List ℕ → Bool
fits text = ltb (length text) 256

-- `fileExist`
unfoldable pub file_exist : Files → List ℕ → Option Bool
file_exist files request_dir =
    if fits (full_dir request_dir) then some (files.opens (full_dir request_dir)) else none

-- `Implemented`
unfoldable pub implemented : List ℕ → Bool
implemented cmmd = same_text cmmd (codes "GET")

-- `serverIssue`
unfoldable pub server_issue : Files → List ℕ → Option Bool
server_issue files request_dir =
    if fits (full_dir request_dir) then some (not (files.readable (full_dir request_dir))) else none

-- `sendingValidFile`, after these messages. For an empty file `fread` returns 0.
unfoldable pub sending_valid_file : Files → List ℕ → List (List ℕ) → Answer
sending_valid_file files file sent =
    if fits (full_dir file)
    then elim (files.contents (full_dir file)) [
      | none ↦ exited sent
      | some [] ↦ exited sent
      | some (b ∷ bytes) ↦ answered (sent ++ (b ∷ bytes) ∷ [])
    ]
    else undefined

abbrev pub header : List ℕ → List ℕ
header status = codes "HTTP/1.1 " ++ status ++ 32 ∷ 13 ∷ 10 ∷ []

abbrev pub content_type : List ℕ
content_type = codes "Content-Type: text/html " ++ 13 ∷ 10 ∷ []

abbrev pub blank : List ℕ
blank = 13 ∷ 10 ∷ []

abbrev pub html_body : List ℕ → List ℕ
html_body err_msg = codes "<html><body><a>" ++ err_msg ++ codes "</a></body></html>"

-- `reportErr` in mode 0
unfoldable pub report_err : List ℕ → Answer
report_err err_msg =
    if fits (header err_msg) && fits (html_body err_msg)
    then answered (header err_msg ∷ content_type ∷ blank ∷ html_body err_msg ∷ [])
    else undefined

-- `reportErr` in mode 1
unfoldable pub report_file : Files → List ℕ → Answer
unfolding sending_valid_file
report_file files file =
    sending_valid_file files file (header (codes "200 OK") ∷ content_type ∷ blank ∷ [])

-- The tests of `process` after that of the command.
unfoldable pub process_dir : Files → List ℕ → Answer
process_dir files request_dir =
    if not (valid_dir files request_dir)
    then report_err (codes "400 Bad Request")
    else elim (file_exist files request_dir) [
      | none ↦ undefined
      | some false ↦ report_err (codes "404 Not Found")
      | some true ↦ elim (server_issue files request_dir) [
        | none ↦ undefined
        | some true ↦ report_err (codes "500 Internal Server Error")
        | some false ↦ report_file files request_dir
      ]
    ]

-- The tests of `process` on the two words; a missing word is a NULL.
abbrev pub answer_to : Files → Option (List ℕ) × Option (List ℕ) → Answer
answer_to files words = elim words.0 [
  | none ↦ undefined
  | some c ↦
      if not (implemented c)
      then report_err (codes "501 Not Implemented")
      else elim words.1 [ none ↦ undefined | some d ↦ process_dir files d ]
]

-- `process`
unfoldable pub process : Files → List ℕ → Answer
process files request_msg = answer_to files (get_cmd_dir request_msg)
