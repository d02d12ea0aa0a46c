-- ===== src/Json/Parse/Window.antt =====
-- The quote that ends a string in the read buffer of json/parse.go, where no backslash is in front of it.
use objconv.Prelude.{
  ℕ, ◌+◌, ◌≤◌, ◌==◌, ◌≡◌, refl, sym, ap, ap₂, ◌∙◌, List, [], ◌∷◌, ◌++◌, length, arith, false, inl,
  inr, eq→==, Option, none, some,
}
use objconv.Go.Strconv.{index_byte}
use objconv.Json.Emit.{quote, backslash}
use objconv.Json.Emit.Laws.{escaped_all}
use objconv.Json.Parse.{quoted, unless_found}
use objconv.Json.Parse.Escapes.{Plain, escape_cases, escaped_all-Plain, escaped_all-Escaped}

abbrev shift : Option ℕ → Option ℕ
shift none = none
shift (some i) = some (i + 1)

shift-some : (t : Option ℕ) (o : ℕ) → shift t ≡ some o → (i : ℕ) × (t ≡ some i) × (o ≡ i + 1)
shift-some none o e = absurd cc
shift-some (some i) o e = (i, refl, cc)

index_byte-cons :
    (c b : ℕ) (s : List ℕ) → (b == c) ≡ false → index_byte c (b ∷ s) ≡ shift (index_byte c s)
unfolding index_byte
index_byte-cons c b s ne = rw ne refl

index_byte-same : (c : ℕ) (s : List ℕ) → index_byte c (c ∷ s) ≡ some 0
unfolding index_byte
index_byte-same c s = rw (eq→== c c refl) refl

unless_found-shift : (t u : Option ℕ) → unless_found (shift t) (shift u) ≡ shift (unless_found t u)
unless_found-shift none u = refl
unless_found-shift (some k) u = refl

quoted-cons : (b : ℕ) (s : List ℕ) → Plain b → quoted (b ∷ s) ≡ shift (quoted s)
quoted-cons b s plain =
    ap₂ unless_found (index_byte-cons backslash b s plain.not_backslash)
      (index_byte-cons quote b s plain.not_quote)
    ∙ unless_found-shift (index_byte backslash s) (index_byte quote s)

unless_found-zero : (t : Option ℕ) (o : ℕ) → unless_found (shift t) (some 0) ≡ some o → o ≡ 0
unless_found-zero none o e = cc
unless_found-zero (some k) o e = absurd cc

quoted-quote : (s : List ℕ) (o : ℕ) → quoted (quote ∷ s) ≡ some o → o ≡ 0
quoted-quote s o e =
    unless_found-zero (index_byte backslash s) o
      (sym (ap₂ unless_found (index_byte-cons backslash quote s refl) first) ∙ e)
  where
    first : index_byte quote (quote ∷ s) ≡ some 0
    first = index_byte-same quote s

quoted-backslash : (s : List ℕ) → quoted (backslash ∷ s) ≡ none
quoted-backslash s =
    ap (λ t. unless_found t (index_byte quote (backslash ∷ s))) (index_byte-same backslash s)

-- A window on an escaped string that holds a quote and no backslash: what is in front of the quote
-- is the string.
pub window_lem :
    (w ys chunk rest : List ℕ) (o : ℕ)
    → chunk ++ rest ≡ escaped_all w ++ (quote ∷ ys)
    → quoted chunk ≡ some o
    → (escaped_all w ≡ w) × (length w ≡ o) × (o + 1 ≤ length chunk)
unfolding escaped_all index_byte
window_lem w ys [] rest o e f = absurd cc
window_lem [] ys (x ∷ chunk) rest o e f =
    let first : x ≡ quote = cc in
    let zero : o ≡ 0 = quoted-quote chunk o (rw first at f) in (refl, omega arith, omega arith)
window_lem (b ∷ w) ys (x ∷ chunk) rest o e f = elim (escape_cases b) [
  | inr plain ↦
      let e' : x ∷ (chunk ++ rest) ≡ b ∷ (escaped_all w ++ (quote ∷ ys)) =
        e ∙ ap (λ t. t ++ (quote ∷ ys)) (escaped_all-Plain b w plain) in
      let first : x ≡ b = cc in
      let more : chunk ++ rest ≡ escaped_all w ++ (quote ∷ ys) = cc in
      let (i, g, k) =
        shift-some (quoted chunk) o (sym (quoted-cons b chunk plain) ∙ rw first at f) in
      let (h1, h2, h3) = window_lem w ys chunk rest i more g in
      (escaped_all-Plain b w plain ∙ ap (λ t. b ∷ t) h1, omega arith, omega arith)
  | inl (c, esc) ↦
      let e' : x ∷ (chunk ++ rest) ≡ backslash ∷ c ∷ (escaped_all w ++ (quote ∷ ys)) =
        e ∙ ap (λ t. t ++ (quote ∷ ys)) (escaped_all-Escaped b c w esc) in
      let first : x ≡ backslash = cc in
      let found : none ≡ some o = sym (quoted-backslash chunk) ∙ rw first at f in absurd cc
]
