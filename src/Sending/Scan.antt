-- ===== src/Sending/Scan.antt =====
-- Scans of a table in the order of its keys find exactly the rows whose keys have the prefix, and
-- deleting what a scan has found deletes exactly those.
use cinquain.Prelude.{
  ◌≡◌, refl, sym, ap, Bool, true, false, Option, none, some, [], ◌∷◌, ◌==◌, nat_eq, if◌then◌else◌,
  keep, arith, Bool-cases, inl, inr,
}
use cinquain.Prelude.Map
use cinquain.Core.Bytes.{Bytes, starts_with, comes_before, bytes_eq, bytes_beq_iff}
use cinquain.Sending.Keys.{Destination, get_prefix}
use cinquain.Sending.Rows.{
  Table, Tables, put, drop_row, take_prefix, scan, drop_rows, delete_all_active_requests_for,
}

comes_before-prefix :
    (key prefix : Bytes) → comes_before key prefix ≡ true → starts_with key prefix ≡ false
unfolding comes_before starts_with
comes_before-prefix [] [] h = cc
comes_before-prefix [] (p ∷ prefix) h = refl
comes_before-prefix (b ∷ key) [] h = cc
comes_before-prefix (b ∷ key) (p ∷ prefix) h = ground (arith, comes_before-prefix key prefix)

later-not_before :
    (key later prefix : Bytes)
    → comes_before key prefix ≡ false
    → comes_before key later ≡ true
    → comes_before later prefix ≡ false
unfolding comes_before
later-not_before key [] [] h k = refl
later-not_before key (c ∷ later) [] h k = refl
later-not_before [] [] (p ∷ prefix) h k = cc
later-not_before (b ∷ key) [] (p ∷ prefix) h k = cc
later-not_before [] (c ∷ later) (p ∷ prefix) h k = cc
later-not_before (b ∷ key) (c ∷ later) (p ∷ prefix) h k =
    ground (arith, later-not_before key later prefix)

-- Behind the rows that have a prefix there is no other such row.
later-other :
    (key later prefix : Bytes)
    → comes_before key prefix ≡ false
    → starts_with key prefix ≡ false
    → comes_before key later ≡ true
    → starts_with later prefix ≡ false
unfolding comes_before starts_with
later-other key later [] h n k = absurd (ground arith)
later-other key [] (p ∷ prefix) h n k = refl
later-other [] (c ∷ later) (p ∷ prefix) h n k = cc
later-other (b ∷ key) (c ∷ later) (p ∷ prefix) h n k = ground (arith, later-other key later prefix)

-- The keys of a table increase.
abbrev pub IsBefore : Bytes → Table → Type 0
IsBefore key [] = Unit
IsBefore key ((other, value) ∷ rest) = comes_before key other ≡ true

abbrev pub IsOrdered : Table → Type 0
IsOrdered [] = Unit
IsOrdered ((key, value) ∷ rest) = IsBefore key rest × IsOrdered rest

abbrev pub has_prefix : Bytes → Bytes × Bytes → Bool
has_prefix prefix row = starts_with row.0 prefix

keep-none :
    (prefix key : Bytes) (table : Table)
    → comes_before key prefix ≡ false
    → starts_with key prefix ≡ false
    → IsBefore key table
    → IsOrdered table
    → keep (has_prefix prefix) table ≡ []
unfolding keep
keep-none prefix key [] h n b o = refl
keep-none prefix key ((other, value) ∷ rest) h n b o = ground (
  arith,
  later-other key other prefix,
  keep-none prefix other rest (later-not_before key other prefix h b)
      (later-other key other prefix h n b) o.0 o.1,
)

take_prefix-keep :
    (prefix key value : Bytes) (table : Table)
    → comes_before key prefix ≡ false
    → IsOrdered ((key, value) ∷ table)
    → take_prefix prefix ((key, value) ∷ table) ≡ keep (has_prefix prefix) ((key, value) ∷ table)
unfolding take_prefix keep
take_prefix-keep prefix key value [] h o = ground arith
take_prefix-keep prefix key value ((other, old) ∷ rest) h o =
    let next =
      take_prefix-keep prefix other old rest (later-not_before key other prefix h o.0) o.1 in
    elim (Bool-cases (starts_with key prefix)) [
      | inl t ↦ rw t (ap (λ (rows : Table). (key, value) ∷ rows) next)
      | inr t ↦ rw t (sym (keep-none prefix key ((other, old) ∷ rest) h t o.0 o.1))
    ]

pub scan-keep :
    (prefix : Bytes) (table : Table)
    → IsOrdered table
    → scan prefix table ≡ keep (has_prefix prefix) table
unfolding scan keep
scan-keep prefix [] o = refl
scan-keep prefix ((key, value) ∷ rest) o = elim (Bool-cases (comes_before key prefix)) [
  | inl b ↦ ground (arith, scan-keep prefix rest o.1, comes_before-prefix key prefix)
  | inr b ↦ rw b (take_prefix-keep prefix key value rest b o)
]

get-drop_row :
    (key other : Bytes) (table : Table)
    → Map.get other (drop_row key table) ≡ (if key == other then none else Map.get other table)
unfolding Map.get drop_row
get-drop_row key other [] = ground arith
get-drop_row key other ((k, value) ∷ rest) = ground (
  arith,
  get-drop_row key other rest,
  bytes_beq_iff k key,
  bytes_beq_iff k other,
  bytes_beq_iff key other,
)

abbrev unless_found : Option Bytes → Option Bytes → Option Bytes
unless_found none o = o
unless_found (some value) o = none

get-drop_rows :
    (key : Bytes) (rows table : Table)
    → Map.get key (drop_rows rows table) ≡ unless_found (Map.get key rows) (Map.get key table)
unfolding drop_rows Map.get
get-drop_rows key [] table = refl
get-drop_rows key ((other, value) ∷ rows) table =
    ground (arith, get-drop_rows key rows (drop_row other table), get-drop_row other key table)

get-keep :
    (prefix key : Bytes) (table : Table)
    → Map.get key (keep (has_prefix prefix) table)
      ≡ (if starts_with key prefix then Map.get key table else none)
unfolding keep Map.get
get-keep prefix key [] = ground arith
get-keep prefix key ((other, value) ∷ rest) =
    ground (arith, get-keep prefix key rest, bytes_beq_iff other key)

-- In a table whose keys increase, deleting the active requests of a destination deletes exactly the
-- rows whose keys start with its prefix.
pub delete_all_active_requests_for-get :
    (dest : Destination) (db : Tables) (key : Bytes)
    → IsOrdered db.current
    → Map.get key (delete_all_active_requests_for dest db).current
      ≡ (if starts_with key (get_prefix dest) then none else Map.get key db.current)
unfolding delete_all_active_requests_for
delete_all_active_requests_for-get dest db key o =
    rw
      (
        scan-keep (get_prefix dest) db.current o,
        get-drop_rows key (keep (has_prefix (get_prefix dest)) db.current) db.current,
        get-keep (get_prefix dest) key db.current,
      )
      (ground arith)

get-put :
    (key other value : Bytes) (table : Table)
    → Map.get other (put key value table)
      ≡ (if key == other then some value else Map.get other table)
unfolding put Map.get
get-put key other value [] = refl
get-put key other value ((k, old) ∷ rest) = ground (
  arith,
  get-put key other value rest,
  bytes_beq_iff k key,
  bytes_beq_iff k other,
  bytes_beq_iff key other,
)
