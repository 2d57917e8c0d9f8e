-- ===== src/State/Layers/Format.antt =====
-- The bytes that a difference is stored as: `get_statediff`, `save_statediff`, `compress_state_event`
-- and `parse_compressed_state_event` of src/service/rooms/state_compressor/mod.rs. The loop that reads
-- goes over what is left of the value behind its index; an event that is inserted into a set goes behind
-- those that are in it.
use cinquain.Prelude.{
  ℕ, zero, suc, Bool, true, false, ◌&&◌, Option, none, some, List, [], ◌∷◌, ◌++◌, ◌==◌, nat_eq,
  contains, is_empty, if◌then◌else◌, length, flat_map,
}
use cinquain.Prelude.Map
use cinquain.Core.Errors.{Try, good, fault, database, panicked, ◌>>=◌, good_or}
use cinquain.Core.Bytes.{Bytes, bytes_eq, to_be_bytes, from_be_bytes, starts_with}
use cinquain.State.Layers.{StateDiff, ShortStateInfo, bottom_layer, push_layer}

-- A short state key and a short event id, eight bytes each.
unfoldable pub compress_state_event : ℕ → ℕ → Bytes
compress_state_event shortstatekey shorteventid =
    to_be_bytes 8 shortstatekey ++ to_be_bytes 8 shorteventid

-- The first bytes, as many as are asked for, and the others, if there are as many.
unfoldable pub take_exact : ℕ → Bytes → Option (Bytes × Bytes)
take_exact zero bytes = some ([], bytes)
take_exact (suc n) [] = none
take_exact (suc n) (b ∷ bytes) = elim (take_exact n bytes) [
  | none ↦ none
  | some (taken, left) ↦ some (b ∷ taken, left)
]

abbrev halves : Option (Bytes × Bytes) → Try (ℕ × ℕ)
halves none = fault panicked
halves (some (first, second)) = good (from_be_bytes 0 first, from_be_bytes 0 second)

unfoldable pub parse_compressed_state_event : Bytes → Try (ℕ × ℕ)
parse_compressed_state_event event = halves (take_exact 8 event)

abbrev pub or_zero : Option ℕ → ℕ
or_zero none = 0
or_zero (some n) = n

abbrev pub zeros : Bytes
zeros = 0 ∷ 0 ∷ 0 ∷ 0 ∷ 0 ∷ 0 ∷ 0 ∷ 0 ∷ []

-- The value that `save_statediff` stores.
unfoldable pub value_of : StateDiff Bytes → Bytes
value_of diff =
    to_be_bytes 8 (or_zero diff.parent)
    ++ (flat_map (λ event. event) diff.added
        ++ (if is_empty diff.removed then [] else zeros ++ flat_map (λ event. event) diff.removed))

-- The table `shortstatehash_statediff`.
abbrev pub Values : Type 0
Values = List (ℕ × Bytes)

unfoldable pub save_value : ℕ → StateDiff Bytes → Values → Values
save_value shortstatehash diff values = Map.insert shortstatehash (value_of diff) values

unfoldable pub insert_last : Bytes → List Bytes → List Bytes
insert_last event set = if contains set event then set else set ++ event ∷ []

unfoldable pub drop_stride : Bytes → Bytes
drop_stride (a ∷ b ∷ c ∷ d ∷ e ∷ f ∷ g ∷ h ∷ left) = left
drop_stride _ = []

-- The loop of `get_statediff`; `none` where the fuel ends.
unfoldable pub read_events :
    ℕ → Bytes → Bool → List Bytes → List Bytes → Option (List Bytes × List Bytes)
read_events zero left add_mode added removed = none
read_events (suc fuel) left add_mode added removed = elim (take_exact 16 left) [
  | none ↦ some (added, removed)
  | some (v, later) ↦ elim (add_mode && starts_with v zeros) [
    | true ↦ read_events fuel (drop_stride left) false added removed
    | false ↦ elim add_mode [
      | true ↦ read_events fuel later true (insert_last v added) removed
      | false ↦ read_events fuel later false added (insert_last v removed)
    ]
  ]
]

abbrev pub nonzero : ℕ → Option ℕ
nonzero n = if n == 0 then none else some n

abbrev as_diff : Option ℕ → Option (List Bytes × List Bytes) → Option (StateDiff Bytes)
as_diff parent none = none
as_diff parent (some (added, removed)) =
    some (record { parent = parent; added = added; removed = removed })

abbrev read_parent : Option (Bytes × Bytes) → ℕ → Try (Option (StateDiff Bytes))
read_parent none fuel = fault panicked
read_parent (some (parent, left)) fuel =
    good (as_diff (nonzero (from_be_bytes 0 parent)) (read_events fuel left true [] []))

-- A value of less than eight bytes has no parent to read.
unfoldable pub read_diff : Bytes → Try (Option (StateDiff Bytes))
read_diff value = read_parent (take_exact 8 value) (suc (length value))

unfoldable pub get_statediff : ℕ → Values → Try (Option (StateDiff Bytes))
get_statediff shortstatehash values = good_or database (Map.get shortstatehash values) >>= read_diff

-- `load_shortstatehash_info` on the stored values.
unfoldable pub load_values : Values → ℕ → ℕ → Option (Try (List (ShortStateInfo Bytes)))
load_values values zero shortstatehash = none
load_values values (suc fuel) shortstatehash = elim (get_statediff shortstatehash values) [
  | fault x ↦ some (fault x)
  | good none ↦ none
  | good (some diff) ↦ elim diff.parent [
    | none ↦ some (good (bottom_layer shortstatehash diff ∷ []))
    | some parent ↦ elim (load_values values fuel parent) [
      | none ↦ none
      | some loaded ↦ some (loaded >>= push_layer shortstatehash diff)
    ]
  ]
]
