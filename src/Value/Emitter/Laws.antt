-- ===== src/Value/Emitter/Laws.antt =====
-- The stack of ValueEmitter of value.go, and the maps that it can build.
use objconv.Prelude.{
  ℕ, ◌-◌, ◌≡◌, refl, sym, ap, ◌∙◌, List, [], ◌∷◌, ◌++◌, length, get_elem?, le→leb, true, false,
  some, arith, append_assoc, append-nil, length-append, take-append, drop-append,
}
use objconv.Go.Outcome.{Outcome, ok}
use objconv.Value.{
  Value, slice_any, map_any, Values, no_value, value, Entries, no_entry, entry, of_list,
}
use objconv.Value.Emitter.{
  Keys, ValueEmitter, pushed, push, pop, pop_mark, mark_at, assign, assign_all, emit_array_end,
  emit_map_end,
}

get_elem?-last {ℓ} :
    {A : Type ℓ} (xs : List A) (x : A) → get_elem? (xs ++ (x ∷ [])) (length xs) ≡ some x
get_elem?-last [] x = refl
get_elem?-last (y ∷ xs) x = get_elem?-last xs x

-- The emitter with more values on its stack.
abbrev pub pushed_all : List Value → ValueEmitter → ValueEmitter
pushed_all vs e = record e { stack = e.stack ++ vs }

abbrev pub to_list : Values → List Value
to_list no_value = []
to_list (value v vs) = v ∷ to_list vs

-- Keys and values as they are pushed.
abbrev pub flat : Entries → List Value
flat no_entry = []
flat (entry k v m) = k ∷ v ∷ flat m

module _ ⦃keys : Keys⦄ where
  -- No entry of the map has the key.
  abbrev pub Fresh : Value → Entries → Type 0
  Fresh k no_entry = Unit
  Fresh k (entry j w m) = (keys.same k j ≡ false) × Fresh k m

  unfoldable mutual
    -- Each map of the value has keys that can be hashed, and none twice: so every value of Go is.
    pub WellKeyed : Value → Type 0
    WellKeyed (slice_any vs) = WellKeyedValues vs
    WellKeyed (map_any m) = WellKeyedEntries m
    WellKeyed v = Unit

    pub WellKeyedValues : Values → Type 0
    WellKeyedValues no_value = Unit
    WellKeyedValues (value v vs) = WellKeyed v × WellKeyedValues vs

    pub WellKeyedEntries : Entries → Type 0
    WellKeyedEntries no_entry = Unit
    WellKeyedEntries (entry k v m) =
        WellKeyed k × WellKeyed v × (keys.hashable k ≡ true) × Fresh k m × WellKeyedEntries m

pub of_list-to_list : (vs : Values) → of_list (to_list vs) ≡ vs
of_list-to_list no_value = refl
of_list-to_list (value v vs) = ap (value v) (of_list-to_list vs)

pub pushed_all-pushed :
    (v : Value) (vs : List Value) (e : ValueEmitter)
    → pushed_all vs (pushed v e) ≡ pushed_all (v ∷ vs) e
pushed_all-pushed v vs e =
    ap (λ (t : List Value). record e { stack = t }) (append_assoc e.stack (v ∷ []) vs)

pub pushed_all-nil : (e : ValueEmitter) → e ≡ pushed_all [] e
pushed_all-nil e = ap (λ (t : List Value). record e { stack = t }) (sym (append-nil e.stack))

-- The emitter behind a mark.
abbrev pub marked : ValueEmitter → ValueEmitter
marked e = record e { marks = e.marks ++ (length e.stack ∷ []) }

pop_mark-marked :
    (vs : List Value) (e : ValueEmitter)
    → pop_mark (pushed_all vs (marked e)) ≡ (ok (length e.stack), pushed_all vs e)
unfolding pop_mark
pop_mark-marked vs e =
    let n : length (e.marks ++ (length e.stack ∷ [])) - 1 ≡ length e.marks =
      omega (arith, length-append e.marks (length e.stack ∷ [])) in
    rw (n, get_elem?-last e.marks (length e.stack), mark_at, n)
      (ap
        (λ (t : List ℕ).
          let r : Outcome ℕ × ValueEmitter =
            (ok (length e.stack), record (pushed_all vs e) { marks = t }) in
          r)
        (take-append e.marks (length e.stack ∷ []) (length e.marks) refl))

pop-pushed_all :
    (vs : List Value) (e : ValueEmitter) → pop (length e.stack) (pushed_all vs e) ≡ (ok vs, e)
unfolding pop
pop-pushed_all vs e =
    rw
      (
        le→leb (length e.stack) (length (e.stack ++ vs)) (omega (arith, length-append e.stack vs)),
        drop-append e.stack vs (length e.stack) refl,
        take-append e.stack vs (length e.stack) refl,
      )
      refl

pub emit_array_end_lem :
    (vs : List Value) (e : ValueEmitter)
    → emit_array_end (pushed_all vs (marked e)) ≡ (ok tt, pushed (slice_any (of_list vs)) e)
unfolding emit_array_end push
emit_array_end_lem vs e = rw (pop_mark-marked vs e, pop-pushed_all vs e) refl

module _ ⦃keys : Keys⦄ where
  abbrev pub join : Entries → Entries → Entries
  join no_entry m = m
  join (entry k v l) m = entry k v (join l m)

  pub join-nil : (m : Entries) → join m no_entry ≡ m
  join-nil no_entry = refl
  join-nil (entry k v m) = ap (entry k v) (join-nil m)

  pub join_assoc : (l m n : Entries) → join (join l m) n ≡ join l (join m n)
  join_assoc no_entry m n = refl
  join_assoc (entry k v l) m n = ap (entry k v) (join_assoc l m n)

  -- No key of the second map is one of the first.
  abbrev pub Apart : Entries → Entries → Type 0
  Apart no_entry m = Unit
  Apart (entry j w l) m = Fresh j m × Apart l m

  Apart-nil : (k v : Value) (l m : Entries) → Apart l (entry k v m) → Apart l m
  Apart-nil k v no_entry m h = tt
  Apart-nil k v (entry j w l) m h = (h.0.1, Apart-nil k v l m h.1)

  pub Apart-last :
      (k v : Value) (l m : Entries)
      → Apart l (entry k v m)
      → Fresh k m
      → Apart (join l (entry k v no_entry)) m
  Apart-last k v no_entry m h f = (f, tt)
  Apart-last k v (entry j w l) m h f = (h.0.1, Apart-last k v l m h.1 f)

  pub assign-new :
      (k v : Value) (l m : Entries)
      → Apart l (entry k v m)
      → assign k v l ≡ join l (entry k v no_entry)
  unfolding assign
  assign-new k v no_entry m h = refl
  assign-new k v (entry j w l) m h = rw h.0.0 (ap (entry j w) (assign-new k v l m h.1))

  -- Assigning the entries of a valid map in turn gives them all, in order.
  assign_all-flat :
      (m l : Entries) → WellKeyedEntries m → Apart l m → assign_all (flat m) l ≡ some (join l m)
  unfolding assign_all WellKeyedEntries
  assign_all-flat no_entry l h a = ap some (sym (join-nil l))
  assign_all-flat (entry k v m) l h a =
      rw (h.2, assign-new k v l m a)
        (assign_all-flat m (join l (entry k v no_entry)) h.4 (Apart-last k v l m a h.3)
          ∙ ap some (join_assoc l (entry k v no_entry) m))

  pub emit_map_end_lem :
      (m : Entries) (e : ValueEmitter)
      → WellKeyedEntries m
      → emit_map_end (pushed_all (flat m) (marked e)) ≡ (ok tt, pushed (map_any m) e)
  unfolding emit_map_end push
  emit_map_end_lem m e h =
      rw (pop_mark-marked (flat m) e, pop-pushed_all (flat m) e, assign_all-flat m no_entry h tt)
        refl
