-- ===== src/State/Layers/Refines.antt =====
-- The table of stored values refines the table of differences that the layers are built on.
use mathlib.Core.Path.{subst}
use cinquain.Prelude.{
  ℕ, zero, suc, ◌≡◌, refl, Option, none, some, List, [], ◌∷◌, ◌==◌, nat_eq, All, arith,
  Option-cases, Bool-cases, inl, inr, some-injective,
}
use cinquain.Prelude.Map
use cinquain.Core.Errors.{good, fault, database}
use cinquain.Core.Bytes.{Bytes, bytes_eq}
use cinquain.State.Layers.{StateDiff, Statediffs, save_statediff, load_shortstatehash_info}
use cinquain.State.Layers.Format.{Values, value_of, save_value, get_statediff, load_values}
use cinquain.State.Layers.Reading.{IsStorable, read_diff-value_of}

abbrev stored_as : Option (StateDiff Bytes) → Option Bytes
stored_as none = none
stored_as (some diff) = some (value_of diff)

-- The values are those of the differences, which are all storable.
pub record AreStored (values : Values) (db : Statediffs Bytes) : Type 0 where
  pub each : (h : ℕ) → Map.get h values ≡ stored_as (Map.get h db)
  pub storable : (h : ℕ) (diff : StateDiff Bytes) → Map.get h db ≡ some diff → IsStorable diff

save_value-AreStored :
    (shortstatehash : ℕ) (diff : StateDiff Bytes) (values : Values) (db : Statediffs Bytes)
    → IsStorable diff
    → AreStored values db
    → AreStored (save_value shortstatehash diff values) (save_statediff shortstatehash diff db)
unfolding save_value save_statediff
save_value-AreStored key diff values db s a = record {
  each = λ h.
      ground (
        arith,
        a.each h,
        Map.get-insert key h (value_of diff) values,
        Map.get-insert key h diff db,
      );
  storable = λ h other e. elim (Bool-cases (key == h)) [
    | inl same ↦
        let found : some diff ≡ some other = ground (arith, e, Map.get-insert key h diff db) in
        subst IsStorable (some-injective found) s
    | inr apart ↦ a.storable h other (ground (arith, e, Map.get-insert key h diff db))
  ];
}

get_statediff-AreStored :
    (values : Values) (db : Statediffs Bytes) (shortstatehash : ℕ)
    → AreStored values db
    → get_statediff shortstatehash values
      ≡ elim (Map.get shortstatehash db) [ none ↦ fault database | some diff ↦ good (some diff) ]
unfolding get_statediff
get_statediff-AreStored values db key a = elim (Option-cases (Map.get key db)) [
  | inl e ↦ rw (a.each key, e) refl
  | inr (diff, e) ↦ rw (a.each key, e) (read_diff-value_of diff (a.storable key diff e))
]

load_values-AreStored :
    (values : Values) (db : Statediffs Bytes) (fuel shortstatehash : ℕ)
    → AreStored values db
    → load_values values fuel shortstatehash ≡ load_shortstatehash_info db fuel shortstatehash
unfolding load_values load_shortstatehash_info
load_values-AreStored values db zero key a = refl
load_values-AreStored values db (suc fuel) key a = elim (Option-cases (Map.get key db)) [
  | inl e ↦
      rw (get_statediff-AreStored values db key a, e, load_values, load_shortstatehash_info) refl
  | inr (diff, e) ↦ elim (Option-cases diff.parent) [
    | inl p ↦
        rw (get_statediff-AreStored values db key a, e, p, load_values, load_shortstatehash_info)
          refl
    | inr (parent, p) ↦
        rw
          (
            get_statediff-AreStored values db key a,
            e,
            p,
            load_values-AreStored values db fuel parent a,
            load_values,
            load_shortstatehash_info,
          )
          refl
  ]
]

-- Differences, saved one after the other.
abbrev pub save_values : List (ℕ × StateDiff Bytes) → Values → Values
save_values [] values = values
save_values ((h, diff) ∷ saved) values = save_values saved (save_value h diff values)

abbrev pub save_diffs : List (ℕ × StateDiff Bytes) → Statediffs Bytes → Statediffs Bytes
save_diffs [] db = db
save_diffs ((h, diff) ∷ saved) db = save_diffs saved (save_statediff h diff db)

save_values-AreStored :
    (saved : List (ℕ × StateDiff Bytes)) (values : Values) (db : Statediffs Bytes)
    → All (λ (row : ℕ × StateDiff Bytes). IsStorable row.1) saved
    → AreStored values db
    → AreStored (save_values saved values) (save_diffs saved db)
save_values-AreStored [] values db s a = a
save_values-AreStored ((h, diff) ∷ saved) values db s a =
    save_values-AreStored saved (save_value h diff values) (save_statediff h diff db) s.1
      (save_value-AreStored h diff values db s.0 a)

nothing-AreStored : AreStored [] []
unfolding Map.get
nothing-AreStored = record { each = λ h. refl; storable = λ h diff e. cc }

-- After any storable differences have been saved, loading a hash from the stored bytes returns what
-- loading it from the differences themselves returns, errors included.
pub load_values-load_shortstatehash_info :
    (saved : List (ℕ × StateDiff Bytes)) (fuel shortstatehash : ℕ)
    → All (λ (row : ℕ × StateDiff Bytes). IsStorable row.1) saved
    → load_values (save_values saved []) fuel shortstatehash
      ≡ load_shortstatehash_info (save_diffs saved []) fuel shortstatehash
load_values-load_shortstatehash_info saved fuel shortstatehash s =
    load_values-AreStored (save_values saved []) (save_diffs saved []) fuel shortstatehash
      (save_values-AreStored saved [] [] s nothing-AreStored)
