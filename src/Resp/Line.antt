-- ===== src/Resp/Line.antt =====
-- The ends of the lines of resp: crlfBytes, appendCRLF and indexCRLF of resp/emit.go, and
-- bytesIndexCRLF of resp/parse.go, whose code is the same.
pub mod Laws
use objconv.Prelude.{
  ℕ, zero, suc, ◌+◌, ◌-◌, ◌==◌, List, [], ◌∷◌, ◌++◌, length, drop, Option, none, some,
  if◌then◌else◌,
}
use objconv.Prelude.Bytes.{byte_at}
use objconv.Go.Strconv.{index_byte}

abbrev pub crlf_bytes : List ℕ
crlf_bytes = 13 ∷ 10 ∷ []

abbrev pub append_crlf : List ℕ → List ℕ
append_crlf b = b ++ crlf_bytes

-- The end of a round of the loop of indexCRLF, behind its call of IndexByte; `n` is the length of `s`.
abbrev pub found : List ℕ → ℕ → Option ℕ → Option ℕ → Option ℕ
found s n rest none = none
found s n rest (some j) =
    if j + 1 == n then none else if byte_at s (j + 1) == 10 then some j else rest

-- The loop, with its rounds to come behind index `i`. The index that IndexByte finds counts from `i`
-- on, and is used as one into `s`. `none` is -1.
unfoldable pub index_loop : ℕ → ℕ → List ℕ → ℕ → Option ℕ
unfolding index_byte
index_loop zero i s n = none
index_loop (suc rounds) i s n =
    let rest = index_loop rounds (i + 1) s n in found s n rest (index_byte 13 (drop i s))

unfoldable pub index_crlf : List ℕ → Option ℕ
unfolding index_loop
index_crlf s = index_loop (length s) 0 s (length s)
