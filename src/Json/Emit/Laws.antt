-- ===== src/Json/Emit/Laws.antt =====
-- The strings that the emitter writes, byte by byte.
use objconv.Prelude.{
  ℕ, ◌≡◌, refl, ap, ap₂, ◌∙◌, ◌==◌, if◌then◌else◌, arith, List, [], ◌∷◌, ◌++◌, append_assoc,
  append-nil, none, some,
}
use objconv.Go.Outcome.{Returns}
use objconv.Go.Io.{Writer, Reliable}
use objconv.Json.Emit.{write, escape, string_loop, string_bytes, quote, backslash}

abbrev pub escaped : ℕ → List ℕ
escaped b = elim (escape b) [ none ↦ b ∷ [] | some c ↦ backslash ∷ c ∷ [] ]

-- Each byte as it is escaped.
unfoldable pub escaped_all : List ℕ → List ℕ
escaped_all [] = []
escaped_all (b ∷ v) = escaped b ++ escaped_all v

string_loop_lem :
    (s chunk v : List ℕ) → string_loop s chunk v ≡ (s ++ chunk) ++ (escaped_all v ++ (quote ∷ []))
unfolding string_loop escaped_all
string_loop_lem s chunk [] = refl
string_loop_lem s chunk (b ∷ v) =
    elim (escape b)
      as (λ e.
        elim e [
          | none ↦ string_loop s (chunk ++ (b ∷ [])) v
          | some c ↦ string_loop (s ++ chunk ++ (backslash ∷ c ∷ [])) [] v
        ]
        ≡ (s ++ chunk)
          ++ ((elim e [ none ↦ b ∷ [] | some c ↦ backslash ∷ c ∷ [] ] ++ escaped_all v)
              ++ (quote ∷ []))) [
                | none ↦ rw (string_loop_lem s (chunk ++ (b ∷ [])) v) (simp append_assoc refl)
                | some c ↦
                    rw (string_loop_lem (s ++ chunk ++ (backslash ∷ c ∷ [])) [] v)
                      (simp (append_assoc, append-nil) refl)
              ]

pub string_bytes-escaped_all :
    (v : List ℕ) → string_bytes v ≡ quote ∷ (escaped_all v ++ (quote ∷ []))
unfolding string_bytes
string_bytes-escaped_all v = string_loop_lem (quote ∷ []) [] v

-- The escapes of two bytes in the grammar of JSON strings, a byte with the letter that stands for it:
-- quotation mark, backslash, backspace, form feed, line feed, carriage return and tab. The slash, which
-- may stand for itself, is left out.
abbrev pub two_byte_escapes : List (ℕ × ℕ)
two_byte_escapes =
    (0x22, 0x22) ∷ (0x5C, 0x5C) ∷ (8, b'b') ∷ (12, b'f') ∷ (10, b'n') ∷ (13, b'r') ∷ (9, b't') ∷ []

unfoldable pub json_byte : List (ℕ × ℕ) → ℕ → List ℕ
json_byte [] b = b ∷ []
json_byte ((c, letter) ∷ table) b =
    let rest = json_byte table b in if b == c then 0x5C ∷ letter ∷ [] else rest

-- The inside of a JSON string: every byte of the table is escaped, and every other one is left.
unfoldable pub json_text : List ℕ → List ℕ
unfolding json_byte
json_text [] = []
json_text (b ∷ v) = json_byte two_byte_escapes b ++ json_text v

escaped_lem : (b : ℕ) → escaped b ≡ json_byte two_byte_escapes b
unfolding escape json_byte
escaped_lem b = ground arith

escaped_all_lem : (v : List ℕ) → escaped_all v ≡ json_text v
unfolding escaped_all json_text
escaped_all_lem [] = refl
escaped_all_lem (b ∷ v) = ap₂ (λ s t. s ++ t) (escaped_lem b) (escaped_all_lem v)

-- For any string EmitString, which copies it in chunks, writes between quotation marks each of its
-- bytes once, in order: those that the table lists as a backslash and the letter, and every other
-- one as it is.
pub string_bytes-json_text : (v : List ℕ) → string_bytes v ≡ 0x22 ∷ (json_text v ++ (0x22 ∷ []))
string_bytes-json_text v =
    string_bytes-escaped_all v ∙ ap (λ t. quote ∷ (t ++ (quote ∷ []))) (escaped_all_lem v)

module _ {W : Type 0} ⦃io : Writer W⦄ where
  -- From the writer `w` on the bytes `bs` are written.
  abbrev pub Wrote : List ℕ → W → W → Type 0
  Wrote bs w w' = io.written w' ≡ io.written w ++ bs

  pub write_lem : Reliable io → (bs : List ℕ) (w : W) → Returns (write bs w) tt (Wrote bs w)
  unfolding write
  write_lem reliable bs w = record {
    state = (io.write w bs).1;
    computes = rw (reliable w bs) refl;
    post = io.write_all w bs (reliable w bs);
  }
