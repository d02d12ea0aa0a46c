-- ===== src/Objutil/Tag.antt =====
-- ParseTag and ParseTagJSON of objutil/tag.go.
use objconv.Prelude.{
  ℕ, zero, suc, ◌+◌, List, [], ◌∷◌, length, take, drop, Bool, true, false, none, some,
  if◌then◌else◌,
}
use objconv.Go.Strconv.{index_byte, equal}

pub record Tag : Type 0 where
  pub name : List ℕ
  pub omitempty : Bool
  pub omitzero : Bool

abbrev pub omitempty_text : List ℕ
omitempty_text = b'o' ∷ b'm' ∷ b'i' ∷ b't' ∷ b'e' ∷ b'm' ∷ b'p' ∷ b't' ∷ b'y' ∷ []

abbrev pub omitzero_text : List ℕ
omitzero_text = b'o' ∷ b'm' ∷ b'i' ∷ b't' ∷ b'z' ∷ b'e' ∷ b'r' ∷ b'o' ∷ []

-- The token and what follows its comma.
unfoldable pub parse_next_tag_token : List ℕ → List ℕ × List ℕ
unfolding index_byte
parse_next_tag_token s = elim (index_byte b',' s) [
  | none ↦ (s, [])
  | some split ↦ (take split s, drop (split + 1) s)
]

-- The body of the loop of ParseTag.
abbrev pub set_option : List ℕ → Tag → Tag
set_option token t =
    if equal token omitempty_text
    then record t { omitempty = true }
    else if equal token omitzero_text
    then record t { omitzero = true }
    else t

abbrev pub set_option_json : List ℕ → Tag → Tag
set_option_json token t = if equal token omitempty_text then record t { omitempty = true } else t

-- The loop over the tokens of `s`; each takes a byte at least.
unfoldable pub tag_loop : (List ℕ → Tag → Tag) → ℕ → List ℕ → Tag → Tag
tag_loop set fuel [] t = t
tag_loop set zero (b ∷ s) t = t
tag_loop set (suc fuel) (b ∷ s) t =
    let (token, next) = parse_next_tag_token (b ∷ s) in tag_loop set fuel next (set token t)

abbrev parse_with : (List ℕ → Tag → Tag) → List ℕ → Tag
parse_with set s =
    let (name, next) = parse_next_tag_token s in
    tag_loop set (length next) next (record { name = name; omitempty = false; omitzero = false })

unfoldable pub parse_tag : List ℕ → Tag
unfolding parse_next_tag_token tag_loop equal
parse_tag s = parse_with set_option s

unfoldable pub parse_tag_json : List ℕ → Tag
unfolding parse_next_tag_token tag_loop equal
parse_tag_json s = parse_with set_option_json s
