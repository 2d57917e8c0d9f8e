-- ===== src/Auth/Levels/Users.antt =====
-- The level that is read for a user who is named several times in one content.
use cinquain.Prelude.{
  String, ◌≡◌, refl, true, false, Option, none, some, List, [], ◌∷◌, if◌then◌else◌, ◌==◌, string_eq,
  ℤ, leℤ, arith, Bool-cases, inl, inr,
}
use cinquain.Prelude.Order.{text_le, text_antisym, text_total, text_trans}
use cinquain.Prelude.Int.{leℤ_total}
use cinquain.Prelude.Map
use cinquain.Matrix.{ok, Content, UserEntries, RoomVersionRules}
use cinquain.Auth.Levels.{
  entry_le, insert_entry, sort_entries, dedup_after, dedup, visit_map, PowerLevelsContentFields,
  deserialize_power_levels_content_fields, user_level,
}

-- The least level that the entries of a content give a user.
pub least : Option ℤ → ℤ → ℤ
least none v = v
least (some w) v = if leℤ v w then v else w

unfoldable pub least_level : String → List (String × ℤ) → Option ℤ
unfolding least
least_level k [] = none
least_level k ((j, v) ∷ m) =
    let rest = least_level k m in if j == k then some (least rest v) else rest

-- No entry of `m` stands before `p`.
abbrev IsBelow : String × ℤ → List (String × ℤ) → Type 0
IsBelow p [] = Unit
IsBelow p (q ∷ m) = entry_le p q ≡ true

abbrev IsSorted : List (String × ℤ) → Type 0
IsSorted [] = Unit
IsSorted (p ∷ m) = IsBelow p m × IsSorted m

IsBelow-insert_entry :
    (p q : String × ℤ) (m : List (String × ℤ))
    → entry_le p q ≡ true
    → IsBelow p m
    → IsBelow p (insert_entry q m)
unfolding insert_entry
IsBelow-insert_entry p q [] h b = h
IsBelow-insert_entry p q (r ∷ m) h b = ground arith

entry_le_total : (p q : String × ℤ) → entry_le p q ≡ false → entry_le q p ≡ true
unfolding entry_le
entry_le_total (j, v) (k, w) h = ground (arith, text_total j k, text_total k j, leℤ_total v w)

insert_entry-IsSorted :
    (p : String × ℤ) (m : List (String × ℤ)) → IsSorted m → IsSorted (insert_entry p m)
unfolding insert_entry
insert_entry-IsSorted p [] s = (tt, tt)
insert_entry-IsSorted p (q ∷ m) s = elim (Bool-cases (entry_le p q)) [
  | inl e ↦ rw e (e, s)
  | inr e ↦
      rw e (IsBelow-insert_entry q p m (entry_le_total p q e) s.0, insert_entry-IsSorted p m s.1)
]

sort_entries-IsSorted : (m : List (String × ℤ)) → IsSorted (sort_entries m)
unfolding sort_entries
sort_entries-IsSorted [] = tt
sort_entries-IsSorted (p ∷ m) = insert_entry-IsSorted p (sort_entries m) (sort_entries-IsSorted m)

entry_le-key : (j k : String) (v w : ℤ) → entry_le (j, v) (k, w) ≡ true → text_le j k ≡ true
unfolding entry_le
entry_le-key j k v w h = ground arith

entry_le_same : (k : String) (v w : ℤ) → entry_le (k, v) (k, w) ≡ leℤ v w
unfolding entry_le
entry_le_same k v w = ground (arith, text_total k k)

not-text_le : (j i k : String) → text_le j i ≡ true → text_le j k ≡ false → text_le i k ≡ false
not-text_le j i k h n = ground (arith, text_trans j i k)

not-eq_of_text_le : (j i k : String) → text_le j i ≡ true → text_le j k ≡ false → (i == k) ≡ false
not-eq_of_text_le j i k h n = ground (arith, string_eq.beq_iff i k)

-- A key before the first one does not stand in a sorted list.
get-of_IsSorted :
    (k j : String) (w : ℤ) (m : List (String × ℤ))
    → IsSorted ((j, w) ∷ m)
    → text_le j k ≡ false
    → Map.get k m ≡ none
unfolding Map.get
get-of_IsSorted k j w [] s n = refl
get-of_IsSorted k j w ((i, x) ∷ m) s n =
    let h = entry_le-key j i w x s.0 in
    rw (not-eq_of_text_le j i k h n) (get-of_IsSorted k i x m s.1 (not-text_le j i k h n))

get_below :
    (k j : String) (v w : ℤ) (m : List (String × ℤ))
    → IsSorted ((j, w) ∷ m)
    → entry_le (k, v) (j, w) ≡ true
    → (j == k) ≡ false
    → Map.get k m ≡ none
get_below k j v w m s h n =
    get-of_IsSorted k j w m s
      (ground (arith, entry_le-key k j v w, text_antisym k j, string_eq.beq_iff j k))

get-insert_entry :
    (k j : String) (v : ℤ) (m : List (String × ℤ))
    → IsSorted m
    → Map.get k (insert_entry (j, v) m)
      ≡ (if j == k then some (least (Map.get k m) v) else Map.get k m)
unfolding insert_entry Map.get least
get-insert_entry k j v [] s = refl
get-insert_entry k j v ((i, w) ∷ m) s = elim (Bool-cases (entry_le (j, v) (i, w))) [
  | inl e ↦ rw e (
      ground (
        arith,
        get_below j i v w m s e,
        string_eq.beq_iff i k,
        string_eq.beq_iff j k,
        string_eq.beq_iff i j,
        entry_le_same i v w,
      ))
  | inr e ↦ rw e (
      ground (
        arith,
        get-insert_entry k j v m s.1,
        string_eq.beq_iff i k,
        string_eq.beq_iff j k,
        entry_le_same k v w,
      ))
]

get-dedup_after :
    (k j : String) (m : List (String × ℤ))
    → (j == k) ≡ false
    → Map.get k (dedup_after j m) ≡ Map.get k m
unfolding dedup_after Map.get
get-dedup_after k j [] n = refl
get-dedup_after k j ((i, v) ∷ m) n = ground (
  arith,
  get-dedup_after k i m,
  string_eq.beq_iff j i,
  string_eq.beq_iff j k,
  string_eq.beq_iff i k,
)

get-sort_entries :
    (k : String) (m : List (String × ℤ)) → Map.get k (sort_entries m) ≡ least_level k m
unfolding sort_entries least_level Map.get
get-sort_entries k [] = refl
get-sort_entries k ((j, v) ∷ m) =
    ground (
      arith,
      get-sort_entries k m,
      get-insert_entry k j v (sort_entries m) (sort_entries-IsSorted m),
    )

get-dedup : (k : String) (m : List (String × ℤ)) → Map.get k (dedup m) ≡ Map.get k m
unfolding dedup Map.get
get-dedup k [] = refl
get-dedup k ((j, v) ∷ m) = ground (arith, get-dedup_after k j m)

abbrev pub level_or : ℤ → Option ℤ → ℤ
level_or default none = default
level_or default (some level) = level

-- In a content that can be read, a user who is named several times has the least of the levels
-- given, and a user who is not named has the default level.
pub user_level-least :
    (content : Content) (rules : RoomVersionRules) (entries : UserEntries) (user_id : String)
    {fields : PowerLevelsContentFields}
    → (if rules.authorization.integer_power_levels then content.int_users else content.v1_users)
      ≡ ok entries
    → deserialize_power_levels_content_fields content rules ≡ ok fields
    → user_level fields user_id ≡ level_or entries.users_default (least_level user_id entries.users)
unfolding deserialize_power_levels_content_fields user_level visit_map
user_level-least content rules entries user_id read h =
    ground (
      arith,
      get-dedup user_id (sort_entries entries.users),
      get-sort_entries user_id entries.users,
    )
