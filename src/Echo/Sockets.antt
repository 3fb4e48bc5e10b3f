-- ===== src/Echo/Sockets.antt =====
-- The loops of `client.c` and `web.c` over a blocking socket. What each call of `send` or `recv`
-- returns is given as a list; `waits` is a loop that is still running when the list ends, and `fault`
-- one that reads or writes before its buffer.
pub mod Sending
pub mod Receiving
use comp429_computer_network.Base.{
  ℕ, zero, suc, ◌+◌, List, [], ◌∷◌, ◌++◌, true, false, length, take, drop, overwrite, ltb,
}

pub data Loop {ℓ} (A : Type ℓ) : Type ℓ where
  ends : A → Loop A
  waits : Loop A
  fault : Loop A

-- `send` takes a number of bytes, or returns -1.
pub data Sent : Type 0 where
  failed : Sent
  took : ℕ → Sent

-- `recv` stores some bytes, none where the peer has closed the connection, or returns -1.
pub data Received : Type 0 where
  lost : Received
  got : List ℕ → Received

-- `memcpy(buf + off, bytes, …)`
abbrev pub write_at : List ℕ → ℕ → List ℕ → List ℕ
write_at buf off bytes = take off buf ++ overwrite bytes (drop off buf)

-- `while (cnt < size) cnt += send(sock, buf + cnt, size - cnt, 0);` with what has gone out so far. A
-- failure takes one from `cnt`, and at 0 the next call reads before the buffer.
unfoldable pub send_loop : List Sent → ℕ → List ℕ → ℕ → List ℕ → Loop (List ℕ)
send_loop [] size buf cnt out = elim (ltb cnt size) [ true ↦ waits | false ↦ ends out ]
send_loop (r ∷ rs) size buf cnt out = elim (ltb cnt size) [
  | true ↦ elim r [
    | took n ↦ send_loop rs size buf (cnt + n) (out ++ take n (drop cnt buf))
    | failed ↦ elim cnt [ zero ↦ fault | suc k ↦ send_loop rs size buf k out ]
  ]
  | false ↦ ends out
]

-- `while (cnt < size) cnt = recv(sock, buffer + cnt, size - cnt, 0);` -- the count is the last call's.
unfoldable pub receive_loop : List Received → ℕ → List ℕ → ℕ → Loop (List ℕ)
receive_loop [] size buf cnt = elim (ltb cnt size) [ true ↦ waits | false ↦ ends buf ]
receive_loop (r ∷ rs) size buf cnt = elim (ltb cnt size) [
  | true ↦ elim r [
    | got bytes ↦ receive_loop rs size (write_at buf cnt bytes) (length bytes)
    | lost ↦ fault
  ]
  | false ↦ ends buf
]
