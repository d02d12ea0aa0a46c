-- ===== src/Value/Emitter.antt =====
-- ValueEmitter of value.go: the emitter that builds the value in memory.
pub mod Laws
pub mod Encode
use objconv.Prelude.{
  ℕ, zero, suc, ◌+◌, ◌-◌, List, [], ◌∷◌, ◌++◌, length, take, drop, get_elem?, leb, Bool, true,
  false, ◌&&◌, if◌then◌else◌, Option, none, some,
}
use objconv.Go.Outcome.{Outcome, ok, panic, M, pure, crash, ◌>>=◌}
use objconv.Encode.{ArrayEmitter}
use objconv.Encode.Map.{MapEmitter}
use objconv.Emit.{Emitter}
use objconv.Value.{
  Value, nil, scalar, slice_any, map_any, Entries, no_entry, entry, of_list, Scalar, IntKind,
  UintKind, FloatKind,
}

-- Go's comparison of interface values as keys of a map: whether the type of a value can be a key,
-- and ==.
pub record Keys : Type 0 where
  pub hashable : Value → Bool
  pub same : Value → Value → Bool

pub record ValueEmitter : Type 0 where
  pub stack : List Value
  pub marks : List ℕ

abbrev pub new_value_emitter : ValueEmitter
new_value_emitter = record { stack = []; marks = [] }

-- Value: e.stack[0], where `none` is the panic of an empty stack.
unfoldable pub built : ValueEmitter → Option Value
built e = get_elem? e.stack 0

abbrev pub pushed : Value → ValueEmitter → ValueEmitter
pushed v e = record e { stack = e.stack ++ (v ∷ []) }

unfoldable pub push : Value → M ValueEmitter (Unit {0})
push v e = (ok tt, pushed v e)

-- e.stack[n:]
unfoldable pub pop : ℕ → M ValueEmitter (List Value)
pop n e =
    if leb n (length e.stack)
    then (ok (drop n e.stack), record e { stack = take n e.stack })
    else (panic, e)

unfoldable pub push_mark : M ValueEmitter (Unit {0})
push_mark e = (ok tt, record e { marks = e.marks ++ (length e.stack ∷ []) })

-- A last mark `none` is the panic of an index of -1.
abbrev pub mark_at : Option ℕ → M ValueEmitter ℕ
mark_at none e = (panic, e)
mark_at (some m) e = (ok m, record e { marks = take (length e.marks - 1) e.marks })

unfoldable pub pop_mark : M ValueEmitter ℕ
pop_mark e = mark_at (get_elem? e.marks (length e.marks - 1)) e

module _ ⦃keys : Keys⦄ where
  -- m[k] = v
  unfoldable pub assign : Value → Value → Entries → Entries
  assign k v no_entry = entry k v no_entry
  assign k v (entry j w m) =
      let rest = assign k v m in if keys.same j k then entry j v m else entry j w rest

  -- The loop of EmitMapEnd: a key without a value and a key that cannot be hashed are panics.
  unfoldable pub assign_all : List Value → Entries → Option Entries
  assign_all [] m = some m
  assign_all (k ∷ []) m = none
  assign_all (k ∷ v ∷ rest) m = if keys.hashable k then assign_all rest (assign k v m) else none

  abbrev pub push_map : Option Entries → M ValueEmitter (Unit {0})
  push_map none = crash
  push_map (some m) = push (map_any m)

unfoldable pub emit_array_end : M ValueEmitter (Unit {0})
unfolding pop_mark pop push
emit_array_end = do n ← pop_mark; v ← pop n; push (slice_any (of_list v))

unfoldable pub emit_map_end : ⦃keys : Keys⦄ → M ValueEmitter (Unit {0})
unfolding pop_mark pop push assign_all
emit_map_end = do n ← pop_mark; v ← pop n; push_map (assign_all v no_entry)

abbrev pub value_emitter : ⦃keys : Keys⦄ → Emitter ValueEmitter
value_emitter = record {
  maps = record {
    arrays = record {
      emit_array_begin = λ n. push_mark;
      emit_array_end = emit_array_end;
      emit_array_next = pure tt;
    };
    emit_map_begin = λ n. push_mark;
    emit_map_end = emit_map_end;
    emit_map_value = pure tt;
    emit_map_next = pure tt;
  };
  emit_nil = push nil;
  emit_bool = λ v. push (scalar (Scalar.bool v));
  emit_int = λ v size. push (scalar (Scalar.int IntKind.int64 v));
  emit_uint = λ v size. push (scalar (Scalar.uint UintKind.uint64 v));
  emit_float = λ v size. push (scalar (Scalar.float FloatKind.float64 v));
  emit_string = λ v. push (scalar (Scalar.string v));
  emit_bytes = λ v. push (scalar (Scalar.bytes v));
  emit_time = λ v. push (scalar (Scalar.time v));
  emit_duration = λ v. push (scalar (Scalar.duration v));
  emit_error = λ v. push (scalar (Scalar.error v));
}
