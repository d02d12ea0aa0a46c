-- ===== src/Json/Parse/Escapes.antt =====
-- The bytes of a string as json/emit.go escapes them and json/parse.go reads them.
use objconv.Prelude.{
  ℕ, ◌==◌, ◌≡◌, refl, ap, List, [], ◌∷◌, ◌++◌, false, inl, inr, ◌⊎◌, ne→==, Option, none, some,
  ℕ_discrete,
}
use objconv.Json.Emit.{escape, quote, backslash}
use objconv.Json.Emit.Laws.{escaped_all}
use objconv.Json.Parse.{unescape}

-- What a byte is to the emitter and to the parser: one that is left as it is, or one that is written
-- as the byte `c` behind a backslash.
pub record Escaped (b c : ℕ) : Type 0 where
  pub written : escape b ≡ some c
  pub not_u : (c == b'u') ≡ false
  pub read : unescape c ≡ b ∷ []

pub record Plain (b : ℕ) : Type 0 where
  pub kept : escape b ≡ none
  pub not_quote : (b == quote) ≡ false
  pub not_backslash : (b == backslash) ≡ false

known :
    (b c : ℕ)
    → escape b ≡ some c
    → (c == b'u') ≡ false
    → unescape c ≡ b ∷ []
    → ((d : ℕ) × Escaped b d) ⊎ Plain b
known b c e f g = inl (c, record { written = e; not_u = f; read = g })

pub escape_cases : (b : ℕ) → ((c : ℕ) × Escaped b c) ⊎ Plain b
unfolding escape unescape
escape_cases b = elim (ℕ_discrete b quote) [
  | yes e ↦ rw e (known quote quote refl refl refl)
  | no n1 ↦ elim (ℕ_discrete b backslash) [
    | yes e ↦ rw e (known backslash backslash refl refl refl)
    | no n2 ↦ elim (ℕ_discrete b 8) [
      | yes e ↦ rw e (known 8 b'b' refl refl refl)
      | no n3 ↦ elim (ℕ_discrete b 12) [
        | yes e ↦ rw e (known 12 b'f' refl refl refl)
        | no n4 ↦ elim (ℕ_discrete b 10) [
          | yes e ↦ rw e (known 10 b'n' refl refl refl)
          | no n5 ↦ elim (ℕ_discrete b 13) [
            | yes e ↦ rw e (known 13 b'r' refl refl refl)
            | no n6 ↦ elim (ℕ_discrete b 9) [
              | yes e ↦ rw e (known 9 b't' refl refl refl)
              | no n7 ↦ inr (record {
                kept =
                    rw
                      (
                        ne→== b quote n1,
                        ne→== b backslash n2,
                        ne→== b 8 n3,
                        ne→== b 12 n4,
                        ne→== b 10 n5,
                        ne→== b 13 n6,
                        ne→== b 9 n7,
                      )
                      refl;
                not_quote = ne→== b quote n1;
                not_backslash = ne→== b backslash n2;
              })
            ]
          ]
        ]
      ]
    ]
  ]
]

pub escaped_all-Plain : (b : ℕ) (w : List ℕ) → Plain b → escaped_all (b ∷ w) ≡ b ∷ escaped_all w
unfolding escaped_all
escaped_all-Plain b w plain =
    ap (λ (o : Option ℕ). elim o [ none ↦ b ∷ [] | some d ↦ backslash ∷ d ∷ [] ] ++ escaped_all w)
      plain.kept

pub escaped_all-Escaped :
    (b c : ℕ) (w : List ℕ) → Escaped b c → escaped_all (b ∷ w) ≡ backslash ∷ c ∷ escaped_all w
unfolding escaped_all
escaped_all-Escaped b c w e =
    ap (λ (o : Option ℕ). elim o [ none ↦ b ∷ [] | some d ↦ backslash ∷ d ∷ [] ] ++ escaped_all w)
      e.written
