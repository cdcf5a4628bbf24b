-- ===== src/Vm/Containers.antt =====
-- The instructions of src/vm.c that read and change records and lists.
use Prim.Native.Nat.{bit_or}
use heluna_language.Common.{ℕ, true, Option, none, some, ◌++◌, ◌==◌, if◌then◌else◌, Bytes, codes}
use heluna_language.Value.{
  HVal, HFields, HVals, val_string, val_nothing, val_record, val_list, no_fields, field,
}
use heluna_language.VmStdlib.Records.{set_field}
use heluna_language.Vm.{Vm, VmSlot, Outcome, failed, beyond, ◌>>=◌, slot, lend, assign_slot, assign}
use heluna_language.Vm.Conversions.{record_get_field, append_item, or_nothing}
use heluna_language.Vm.Iteration.{share}

-- A part of a value comes with the tags of the whole; where it is missing, nothing.
unfoldable pub assign_part : Vm → ℕ → ℕ → Option HVal → Outcome Vm
unfolding assign
assign_part vm d tags none = assign vm d (some val_nothing) 0
assign_part vm d tags (some v) = assign vm d (some v) tags

-- RECORD_GET and RECORD_GET_C.
unfoldable pub get_ins : Vm → ℕ → VmSlot → Option HVal → Outcome Vm
unfolding assign_part record_get_field
get_ins vm d rec key = assign_part vm d rec.tags (record_get_field rec.value key)

-- The value of a slot that is put into a record; NULL there is no value of the model.
abbrev pub the_value : Option HVal → (HVal → Outcome Vm) → Outcome Vm
the_value none f = beyond
the_value (some v) f = f v

-- A record or a list is changed in its slot.
abbrev if_owned : VmSlot → Outcome Vm → Outcome Vm
if_owned s change = if s.owned then change else beyond

unfoldable pub set_in_record : Vm → ℕ → VmSlot → ℕ → VmSlot → HFields → Bytes → Outcome Vm
unfolding slot assign_slot set_field lend
set_in_record vm d rec o v fs key = if_owned rec (
    if d == o
    then beyond
    else share vm o λ vm' w. the_value w λ x. assign_slot vm' d (record {
      value = some (val_record (set_field fs key x));
      tags = bit_or rec.tags v.tags;
      owned = true;
    }))

unfoldable pub set_key : Bytes → Vm → ℕ → VmSlot → ℕ → VmSlot → HFields → Option HVal → Outcome Vm
unfolding set_in_record
set_key name vm d rec o v fs (some (val_string key)) = set_in_record vm d rec o v fs key
set_key name vm d rec o v fs _ = failed (name ++ codes ": key is not a string")

unfoldable pub set_value :
    Bytes → Vm → ℕ → VmSlot → ℕ → VmSlot → Option HVal → Option HVal → Outcome Vm
unfolding set_key
set_value name vm d rec o v key (some (val_record fs)) = set_key name vm d rec o v fs key
set_value name vm d rec o v key _ = failed (name ++ codes ": dest is not a record")

-- RECORD_SET and RECORD_SET_C, under their name in the messages.
unfoldable pub set_ins : Bytes → Vm → ℕ → VmSlot → ℕ → Option HVal → Outcome Vm
unfolding set_value slot
set_ins name vm d rec o key = slot vm o >>= λ v. set_value name vm d rec o v key rec.value

unfoldable pub the_key : Option HVal → (Bytes → Outcome Vm) → Outcome Vm
the_key (some (val_string key)) f = f key
the_key _ f = failed (codes "RECORD_NEW_SET_C: key is not a string")

unfoldable pub new_set_ins : Vm → ℕ → ℕ → Option HVal → Outcome Vm
unfolding slot assign_slot lend the_key
new_set_ins vm d o key = slot vm o >>= λ s. the_key key λ k. share vm o λ vm' w. the_value w λ x.
    assign_slot vm' d
      (record { value = some (val_record (field k x no_fields)); tags = s.tags; owned = true })

unfoldable pub append_in_list : Vm → ℕ → VmSlot → ℕ → VmSlot → HVals → Outcome Vm
unfolding slot assign_slot append_item lend
append_in_list vm d list o v vs = if_owned list (
    if d == o
    then beyond
    else share vm o λ vm' w. assign_slot vm' d (record {
      value = some (val_list (append_item vs (or_nothing w)));
      tags = bit_or list.tags v.tags;
      owned = true;
    }))

unfoldable pub append_value : Vm → ℕ → VmSlot → ℕ → VmSlot → Option HVal → Outcome Vm
unfolding append_in_list
append_value vm d list o v (some (val_list vs)) = append_in_list vm d list o v vs
append_value vm d list o v _ = failed (codes "LIST_APPEND: dest is not a list")

-- LIST_APPEND; the member is a copy of the operand, made before it is linked.
unfoldable pub append_ins : Vm → VmSlot → VmSlot → ℕ → ℕ → Outcome Vm
unfolding append_value
append_ins vm list v d o = append_value vm d list o v list.value
