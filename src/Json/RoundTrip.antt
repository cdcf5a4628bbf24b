-- ===== src/Json/RoundTrip.antt =====
-- What `json_emit` writes, `json_parse` reads back.
use heluna_language.Common.{
  ℕ, zero, suc, ◌+◌, ◌*◌, ◌<◌, ◌≡◌, ◌≢◌, refl, true, [], ◌∷◌, ◌++◌, Bytes, arith, append-nil,
  length,
}
use heluna_language.Value.{
  Doubles, HVal, HFields, HVals, val_integer, val_float, val_string, val_boolean, val_nothing,
  val_record, val_list, no_fields, field, no_items, item,
}
use heluna_language.Json.Emitter.{json_emit, emit_items, emit_fields}
use heluna_language.Json.Safe.{IsSafe, AreSafe, AreSafeFields, stops}
use heluna_language.Json.Parser.{parsed, parse_value, parse_items, parse_fields, json_parse}
use heluna_language.Json.Rounds.{
  integer-Reads, string-Reads, array_body, object_body, last_item, more_items, last_field,
  more_fields, boolean-Reads, nothing-Reads, empty_list-Reads, empty_record-Reads, length-list,
  length-record, length-last_item, length-items, length-last_field, length-fields, fields-Opening,
  items-Opening,
}

-- With fuel above `bound`, the text of a value in front of `s` parses to the value and leaves `s`.
abbrev ReadsValue : Doubles → HVal → Type 0
ReadsValue dbl v =
    (f : ℕ) (s : Bytes)
    → IsSafe v
    → stops s ≡ true
    → 3 * length (json_emit dbl v) < f
    → parse_value f dbl (json_emit dbl v ++ s) ≡ parsed v s

abbrev ReadsItems : Doubles → HVals → Type 0
ReadsItems dbl vs =
    (f : ℕ) (s : Bytes)
    → AreSafe vs
    → vs ≢ no_items
    → 3 * length (emit_items dbl vs true) + 1 < f
    → parse_items f dbl (emit_items dbl vs true ++ b']' ∷ s) ≡ parsed vs (b']' ∷ s)

abbrev ReadsFields : Doubles → HFields → Type 0
ReadsFields dbl fs =
    (f : ℕ) (s : Bytes)
    → AreSafeFields fs
    → fs ≢ no_fields
    → 3 * length (emit_fields dbl fs true) + 1 < f
    → parse_fields f dbl (emit_fields dbl fs true ++ b'}' ∷ s) ≡ parsed fs (b'}' ∷ s)

mutual
  unfolding json_emit IsSafe

  value-Reads : (dbl : Doubles) (v : HVal) → ReadsValue dbl v
  value-Reads dbl v zero s h e b = absurd (omega arith)
  value-Reads dbl (val_integer n) (suc f) s h e b = integer-Reads dbl f n s h e
  value-Reads dbl (val_float d) (suc f) s h e b = absurd h
  value-Reads dbl (val_string t) (suc f) s h e b = string-Reads dbl f t s h
  value-Reads dbl (val_boolean c) (suc f) s h e b = boolean-Reads dbl c f s
  value-Reads dbl val_nothing (suc f) s h e b = nothing-Reads dbl f s
  value-Reads dbl (val_record fs) (suc zero) s h e b = absurd (omega (arith, length-record dbl fs))
  value-Reads dbl (val_record no_fields) (suc (suc f)) s h e b = empty_record-Reads dbl f s
  value-Reads dbl (val_record (field n v fs)) (suc (suc f)) s h e b =
      object_body dbl (field n v fs) f (emit_fields dbl (field n v fs) true) s
        (fields-Opening dbl n v fs)
        (fields-Reads dbl (field n v fs) f s h (cc)
          (omega (arith, length-record dbl (field n v fs))))
  value-Reads dbl (val_list vs) (suc zero) s h e b = absurd (omega (arith, length-list dbl vs))
  value-Reads dbl (val_list no_items) (suc (suc f)) s h e b = empty_list-Reads dbl f s
  value-Reads dbl (val_list (item v vs)) (suc (suc f)) s h e b =
      array_body dbl (item v vs) f (emit_items dbl (item v vs) true) s (items-Opening dbl v vs h.0)
        (items-Reads dbl (item v vs) f s h (cc) (omega (arith, length-list dbl (item v vs))))

  items-Reads : (dbl : Doubles) (vs : HVals) → ReadsItems dbl vs
  items-Reads dbl vs zero s h n b = absurd (omega arith)
  items-Reads dbl no_items (suc f) s h n b = absurd (n refl)
  items-Reads dbl (item v no_items) (suc f) s h n b =
      last_item dbl v f (json_emit dbl v) s
        (value-Reads dbl v f (b']' ∷ s) h.0 refl (omega (arith, length-last_item dbl v)))
  items-Reads dbl (item v (item w ws)) (suc f) s h n b =
      let others = emit_items dbl (item w ws) true in
      more_items dbl v (item w ws) f (json_emit dbl v) others s
        (value-Reads dbl v f (b',' ∷ (others ++ b']' ∷ s)) h.0 refl
          (omega (arith, length-items dbl v w ws)))
        (items-Reads dbl (item w ws) f s h.1 (cc) (omega (arith, length-items dbl v w ws)))

  fields-Reads : (dbl : Doubles) (fs : HFields) → ReadsFields dbl fs
  fields-Reads dbl fs zero s h n b = absurd (omega arith)
  fields-Reads dbl no_fields (suc f) s h n b = absurd (n refl)
  fields-Reads dbl (field name v no_fields) (suc f) s h n b =
      last_field dbl name v f (json_emit dbl v) s h.0
        (value-Reads dbl v f (b'}' ∷ s) h.1 refl (omega (arith, length-last_field dbl name v)))
  fields-Reads dbl (field name v (field k w ws)) (suc f) s h n b =
      let others = emit_fields dbl (field k w ws) true in
      more_fields dbl name v (field k w ws) f (json_emit dbl v) others s h.0
        (value-Reads dbl v f (b',' ∷ (others ++ b'}' ∷ s)) h.1 refl
          (omega (arith, length-fields dbl name k v w ws)))
        (fields-Reads dbl (field k w ws) f s h.2 (cc)
          (omega (arith, length-fields dbl name k v w ws)))

-- Parsing the text of such a value gives the value and leaves nothing.
pub json_parse-json_emit :
    (dbl : Doubles) (v : HVal) → IsSafe v → json_parse dbl (json_emit dbl v) ≡ parsed v []
unfolding json_parse
json_parse-json_emit dbl v h =
    rw append-nil at (value-Reads dbl v (3 * length (json_emit dbl v) + 3) [] h refl (omega arith))
