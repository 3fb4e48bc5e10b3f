-- ===== src/Web/Tests.antt =====
-- Concrete requests to web.c.
use comp429_computer_network.Base.{
  ℕ, ◌≤◌, ◌≡◌, refl, List, [], ◌∷◌, ◌++◌, true, false, ◌||◌, some, arith, ◌==◌, ==_iff,
  if◌then◌else◌, Bool-cases, inl, inr,
}
use comp429_computer_network.Web.{
  Files, Answer, answered, exited, undefined, process, process_dir, valid_dir, file_exist,
  server_issue, report_err, get_cmd_dir, get_dir, implemented, header, content_type, blank,
  html_body,
}
use comp429_computer_network.Web.Text.{
  codes, same_text, contains, starts_with, next_token, skip_spaces, split_word,
}
use comp429_computer_network.Web.Paths.{process-Inside, SameAt, Inside}
use comp429_computer_network.Web.Serves.{ok_header, process-Serves, process-climbs}

-- A server with the page `./a` and, one directory up, the file `../s`.
abbrev page : List ℕ
page = codes "/a"

abbrev small_files : Files
small_files = record {
  stat = λ p. same_text p (codes "/");
  opens = λ p. same_text p (codes "./a") || same_text p (codes "../s");
  readable = λ p. same_text p (codes "./a") || same_text p (codes "../s");
  contents = λ p. if same_text p (codes "./a") then some (104 ∷ 105 ∷ []) else some (115 ∷ []);
}

process-Serves_example :
    (1 ≤ 2
      → process small_files (codes "GET " ++ page ++ 32 ∷ codes "HTTP/1.1")
        ≡ answered (ok_header ++ (104 ∷ 105 ∷ []) ∷ []))
    × (◌≡◌ {A = ℕ} 2 0
        → process small_files (codes "GET " ++ page ++ 32 ∷ codes "HTTP/1.1") ≡ exited ok_header)
process-Serves_example =
    process-Serves small_files page (codes "HTTP/1.1") (104 ∷ 105 ∷ [])
      (record {
        no_space = ((λ e. omega arith), ((λ e. omega arith), tt));
        some_byte = omega arith;
      })
      (record {
        stays = unfold contains starts_with in refl;
        unknown = refl;
        exists = refl;
        readable = refl;
        short = omega arith;
        holds = refl;
      })

process-climbs_example :
    process small_files (codes "GET ./" ++ codes "s" ++ 32 ∷ codes "HTTP/1.1")
    ≡ answered (ok_header ++ (115 ∷ []) ∷ [])
process-climbs_example =
    process-climbs small_files (codes "s") (codes "HTTP/1.1") (115 ∷ []) ((λ e. omega arith), tt)
      (unfold contains starts_with in refl) refl refl refl (omega arith) refl (omega arith)

same_text-eq : (a b : List ℕ) → same_text a b ≡ true → a ≡ b
same_text-eq [] [] e = refl
same_text-eq [] (d ∷ b) e = cc
same_text-eq (c ∷ a) [] e = cc
same_text-eq (c ∷ a) (d ∷ b) e = elim (Bool-cases (c == d)) [
  | inl same ↦
      let rest : a ≡ b = same_text-eq a b (rw same at e) in
      let head : c ≡ d = (==_iff c d).0 same in rw (head, rest) refl
  | inr other ↦ let never : false ≡ true = rw other at e in cc
]

-- Another server, that differs in a file further up.
abbrev other_files : Files
other_files = record small_files {
  contents = λ p. if same_text p (codes "./../t") then some (116 ∷ []) else small_files.contents p;
}

same-Inside : (path : List ℕ) → Inside path → SameAt small_files other_files path
same-Inside path inside = elim (Bool-cases (same_text path (codes "./../t"))) [
  | inl found ↦
      absurd (inside 46 (codes "/") (codes "t") (same_text-eq path (codes "./../t") found))
  | inr other ↦ record {
    same_stat = refl;
    same_opens = refl;
    same_readable = refl;
    same_contents = rw other refl;
  }
]

process-Inside_example :
    process small_files (codes "GET /../t HTTP/1.1")
    ≡ process other_files (codes "GET /../t HTTP/1.1")
process-Inside_example =
    process-Inside small_files other_files same-Inside (codes "GET /../t HTTP/1.1")

abbrev error_page : List ℕ → Answer
error_page message = answered (header message ∷ content_type ∷ blank ∷ html_body message ∷ [])

-- The other answers: a command that is not GET, a path with `../`, an absolute path that exists, a file
-- that does not, and a request without a word, which follows a NULL.
answers :
    (process small_files (codes "PUT /a HTTP/1.1") ≡ error_page (codes "501 Not Implemented"))
    × (process small_files (codes "GET /../t HTTP/1.1") ≡ error_page (codes "400 Bad Request"))
    × (process small_files (codes "GET / HTTP/1.1") ≡ error_page (codes "400 Bad Request"))
    × (process small_files (codes "GET /b HTTP/1.1") ≡ error_page (codes "404 Not Found"))
    × (process small_files (codes "  ") ≡ undefined)
    × (process small_files (codes "GET") ≡ undefined)
unfolding process get_cmd_dir next_token skip_spaces split_word implemented process_dir valid_dir
    file_exist server_issue report_err contains starts_with
answers = (refl, refl, refl, refl, refl, refl)

second_word : get_dir (codes "GET  /a HTTP/1.1") ≡ some page
unfolding get_dir next_token skip_spaces split_word
second_word = refl
