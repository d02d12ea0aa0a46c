-- ===== src/Msgpack/Values/Texted.antt =====
-- What a value is behind the way through MessagePack.
use objconv.Prelude.{ℕ, suc, ◌≡◌, refl, ap, List, [], ◌∷◌, length}
use objconv.Go.Float.{Floats}
use objconv.Encode.Values.{length_values, length_fields, length_entries}
use objconv.Objutil.Duration.{append_duration}
use objconv.Value.{
  Scalar, Value, scalar, slice_any, map_any, Values, no_value, value, Fields, no_field, field,
  Entries, no_entry, entry, of_list, natural_strings, natural_texts, natural, natural_values,
  natural_fields, natural_entries,
}

-- MessagePack has no durations and no errors: they come back as texts.
abbrev pub texted_scalar : Scalar → Scalar
texted_scalar (Scalar.duration d) = Scalar.string (append_duration [] d)
texted_scalar (Scalar.error e) = Scalar.string e
texted_scalar s = s

unfoldable mutual
  pub texted : Value → Value
  texted (scalar s) = scalar (texted_scalar s)
  texted (slice_any vs) = slice_any (texted_values vs)
  texted (map_any m) = map_any (texted_entries m)
  texted v = v

  pub texted_values : Values → Values
  texted_values no_value = no_value
  texted_values (value v vs) = value (texted v) (texted_values vs)

  pub texted_entries : Entries → Entries
  texted_entries no_entry = no_entry
  texted_entries (entry k v m) = entry (texted k) (texted v) (texted_entries m)

-- What the decoder gets of a value.
abbrev pub received : ⦃fl : Floats⦄ → Value → Value
received v = texted (natural v)

pub length-strings :
    (ss : List (List ℕ)) → length ss ≡ length_values (texted_values (of_list (natural_strings ss)))
unfolding texted
length-strings [] = refl
length-strings (s ∷ ss) = ap suc (length-strings ss)

pub length-texts :
    (m : List (List ℕ × List ℕ)) → length m ≡ length_entries (texted_entries (natural_texts m))
unfolding texted
length-texts [] = refl
length-texts ((k, v) ∷ m) = ap suc (length-texts m)

pub length-values :
    ⦃fl : Floats⦄ (vs : Values)
    → length_values vs ≡ length_values (texted_values (natural_values vs))
unfolding texted natural
length-values no_value = refl
length-values (value v vs) = ap suc (length-values vs)

pub length-fields :
    ⦃fl : Floats⦄ (m : Fields)
    → length_fields m ≡ length_entries (texted_entries (natural_fields m))
unfolding texted natural
length-fields no_field = refl
length-fields (field k v m) = ap suc (length-fields m)

pub length-entries :
    ⦃fl : Floats⦄ (m : Entries)
    → length_entries m ≡ length_entries (texted_entries (natural_entries m))
unfolding texted natural
length-entries no_entry = refl
length-entries (entry k v m) = ap suc (length-entries m)
