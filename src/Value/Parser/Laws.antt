-- ===== src/Value/Parser/Laws.antt =====
-- The stacks of ValueParser of value.go, inside an array or a map.
use objconv.Prelude.{
  ℕ, suc, ◌-◌, ◌≡◌, refl, ap, List, [], ◌∷◌, ◌++◌, length, take, get_elem?, some, arith, ne→==,
  length-append, take-append,
}
use objconv.Go.Outcome.{ok}
use objconv.Value.{Value}
use objconv.Value.Emitter.{Keys}
use objconv.Value.Parser.{
  Context, ValueParser, top, push, pop, pop_context, context, index_of, parse_end, parse_array_next,
  map_index, parse_map_value, parse_map_next,
}

get_elem?-last {ℓ} :
    {A : Type ℓ} (xs : List A) (x : A) → get_elem? (xs ++ (x ∷ [])) (length xs) ≡ some x
get_elem?-last [] x = refl
get_elem?-last (y ∷ xs) x = get_elem?-last xs x

pub length-last {ℓ} : {A : Type ℓ} (xs : List A) (x : A) → length (xs ++ (x ∷ [])) ≡ suc (length xs)
length-last [] x = refl
length-last (y ∷ xs) x = ap suc (length-last xs x)

pub top-last : {A : Type 0} (xs : List A) (x : A) → top (xs ++ (x ∷ [])) ≡ some x
top-last [] x = refl
top-last (y ∷ xs) x = rw (length-last xs x) (get_elem?-last xs x)

-- The parser inside an array or a map, at one of its values.
abbrev pub at : Context → ValueParser → Value → ValueParser
at c p v = record { stack = p.stack ++ (v ∷ []); ctx = p.ctx ++ (c ∷ []) }

abbrev pub inside : Context → ValueParser → ValueParser
inside c p = record p { ctx = p.ctx ++ (c ∷ []) }

take-last {ℓ} :
    {A : Type ℓ} (xs : List A) (x : A) → take (length (xs ++ (x ∷ [])) - 1) (xs ++ (x ∷ [])) ≡ xs
take-last xs x = take-append xs (x ∷ []) _ (omega (arith, length-append xs (x ∷ [])))

pub pop-at : (c : Context) (p : ValueParser) (v : Value) → pop (at c p v) ≡ (ok tt, inside c p)
unfolding pop
pop-at c p v =
    rw
      (
        ne→== (length (p.stack ++ (v ∷ []))) 0 (omega (arith, length-last p.stack v)),
        take-last p.stack v,
      )
      refl

pub pop_context-inside : (c : Context) (p : ValueParser) → pop_context (inside c p) ≡ (ok tt, p)
unfolding pop_context
pop_context-inside c p =
    rw
      (ne→== (length (p.ctx ++ (c ∷ []))) 0 (omega (arith, length-last p.ctx c)), take-last p.ctx c)
      refl

context-at : (c : Context) (p : ValueParser) (v : Value) → context (at c p v) ≡ (ok c, at c p v)
unfolding context
context-at c p v = rw (top-last p.ctx c) refl

pub parse_end-at :
    (c : Context) (p : ValueParser) (v : Value) (n : ℕ) → parse_end (suc n) (at c p v) ≡ (ok tt, p)
unfolding parse_end
parse_end-at c p v n = rw (ne→== (suc n) 0 (omega arith), pop-at c p v, pop_context-inside c p) refl

pub parse_array_next-at :
    (c : Context) (p : ValueParser) (u v : Value) (n : ℕ)
    → index_of c.held n ≡ some v
    → parse_array_next n (at c p u) ≡ (ok tt, at c p v)
unfolding parse_array_next push
parse_array_next-at c p u v n e = rw (context-at c p u, pop-at c p u, e) refl

pub parse_map_next-at :
    (c : Context) (p : ValueParser) (u k : Value) (n : ℕ)
    → get_elem? c.keys n ≡ some k
    → parse_map_next n (at c p u) ≡ (ok tt, at c p k)
unfolding parse_map_next push
parse_map_next-at c p u k n e = rw (context-at c p u, pop-at c p u, e) refl

module _ ⦃keys : Keys⦄ where
  pub parse_map_value-at :
      (c : Context) (p : ValueParser) (u k v : Value) (n : ℕ)
      → get_elem? c.keys n ≡ some k
      → map_index c.held k ≡ some v
      → parse_map_value n (at c p u) ≡ (ok tt, at c p v)
  unfolding parse_map_value push
  parse_map_value-at c p u k v n e e' = rw (context-at c p u, pop-at c p u, e, e') refl
