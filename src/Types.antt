-- ===== src/Types.antt =====
-- objconv.Type of value.go: the types that a parser announces.
pub data ValueType : Type 0 where
  unknown nil bool int uint float string bytes time duration error array map : ValueType
