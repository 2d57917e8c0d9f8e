-- ===== src/Auth/Types/Keys.antt =====
-- Which keys `auth_types_for_event` selects.
use cinquain.Prelude.{
  String, ◌≡◌, ◌≢◌, refl, Bool, true, false, ◌&&◌, ◌||◌, not, Option, none, some, List, ◌==◌,
  string_eq, pair_eq, contains, arith, Bool-cases, inl, inr, distinct, distinct-snoc,
  contains-snoc_new, ◌==◌,
}
use cinquain.Matrix.{
  Result, ok, err, ◌>>=◌, Membership, MemberFields, Content, TypeStateKey, RoomVersionRules,
  room_create, room_member, room_power_levels, room_join_rules,
}
use cinquain.Auth.Types.{
  push_new, base_types, needs_join_rules, push_authoriser, member_types, auth_types_for_event,
}

contains-push_new :
    (key k : TypeStateKey) (types : List TypeStateKey)
    → contains (push_new key types) k ≡ (key == k || contains types k)
unfolding push_new
contains-push_new key k types = contains-snoc_new key k types

distinct-push_new :
    (key : TypeStateKey) (types : List TypeStateKey)
    → distinct types ≡ true
    → distinct (push_new key types) ≡ true
unfolding push_new
distinct-push_new key types h = ground (arith, distinct-snoc types key)

distinct-push_authoriser :
    (o : Option (Result String)) (types : List TypeStateKey)
    → distinct types ≡ true
    → distinct (push_authoriser o types) ≡ true
unfolding push_authoriser
distinct-push_authoriser none types h = h
distinct-push_authoriser (some (ok u)) types h = distinct-push_new (room_member, u) types h
distinct-push_authoriser (some (err e)) types h = h

distinct-member_types :
    (m : Option (Result Membership)) (o : Option (Result String)) (key : String)
    (types : List TypeStateKey)
    → distinct types ≡ true
    → distinct (member_types m o key types) ≡ true
unfolding member_types
distinct-member_types none o key types h = h
distinct-member_types (some (err e)) o key types h = h
distinct-member_types (some (ok m)) o key types h = elim (Bool-cases (needs_join_rules m)) [
  | inl e ↦ rw e (
      distinct-push_new (room_member, key) _
        (distinct-push_authoriser o _ (distinct-push_new (room_join_rules, "") types h)))
  | inr e ↦ rw e (distinct-push_new (room_member, key) types h)
]

distinct-base_types :
    (rules : RoomVersionRules) (sender : String) → distinct (base_types rules sender) ≡ true
unfolding base_types distinct contains
distinct-base_types rules sender = ground arith

distinct-member_step :
    (r : Result MemberFields) (key : String) (base : List TypeStateKey) {types : List TypeStateKey}
    → distinct base ≡ true
    → (r >>= λ f. ok (member_types f.membership f.join_authorised_via_users_server key base))
      ≡ ok types
    → distinct types ≡ true
distinct-member_step (ok f) key base h e =
    cc (e, distinct-member_types f.membership f.join_authorised_via_users_server key base h)
distinct-member_step (err x) key base h e = cc

-- Whatever event is looked at, no key is selected twice.
pub auth_types-distinct :
    (kind sender : String) (state_key : Option String) (content : Content)
    (rules : RoomVersionRules) {types : List TypeStateKey}
    → auth_types_for_event kind sender state_key content rules ≡ ok types
    → distinct types ≡ true
unfolding auth_types_for_event distinct
auth_types-distinct kind sender none content rules h =
    ground (arith, distinct-base_types rules sender)
auth_types-distinct kind sender (some key) content rules {types} h = ground (
  arith,
  distinct-base_types rules sender,
  distinct-member_step content.member_fields key (base_types rules sender) {types = types},
)

-- The keys for an event that is no `m.room.create`, as tests.
abbrev pub for_every_event : RoomVersionRules → String → TypeStateKey → Bool
for_every_event rules sender k =
    (room_power_levels, "") == k
    || (room_member, sender) == k
    || (not rules.hashed_room_ids && (room_create, "") == k)

abbrev pub for_authoriser : Option (Result String) → TypeStateKey → Bool
for_authoriser (some (ok u)) k = (room_member, u) == k
for_authoriser _ k = false

abbrev pub for_member :
    Option (Result Membership) → Option (Result String) → String → TypeStateKey → Bool
for_member (some (ok m)) authoriser key k =
    (room_member, key) == k
    || (needs_join_rules m && ((room_join_rules, "") == k || for_authoriser authoriser k))
for_member _ authoriser key k = false

contains-base_types :
    (rules : RoomVersionRules) (sender : String) (k : TypeStateKey)
    → contains (base_types rules sender) k ≡ for_every_event rules sender k
unfolding base_types contains
contains-base_types rules sender k = ground arith

contains-push_authoriser :
    (o : Option (Result String)) (types : List TypeStateKey) (k : TypeStateKey)
    → contains (push_authoriser o types) k ≡ (for_authoriser o k || contains types k)
unfolding push_authoriser
contains-push_authoriser none types k = refl
contains-push_authoriser (some (ok u)) types k = contains-push_new (room_member, u) k types
contains-push_authoriser (some (err e)) types k = refl

contains-member_types :
    (m : Option (Result Membership)) (o : Option (Result String)) (key : String)
    (types : List TypeStateKey) (k : TypeStateKey)
    → contains (member_types m o key types) k ≡ (for_member m o key k || contains types k)
unfolding member_types
contains-member_types none o key types k = refl
contains-member_types (some (err e)) o key types k = refl
contains-member_types (some (ok m)) o key types k = ground (
  arith,
  contains-push_new (room_member, key) k types,
  contains-push_new (room_member, key) k (push_authoriser o (push_new (room_join_rules, "") types)),
  contains-push_authoriser o (push_new (room_join_rules, "") types) k,
  contains-push_new (room_join_rules, "") k types,
)

abbrev pub for_target : Option String → Result MemberFields → TypeStateKey → Bool
for_target (some key) (ok fields) k =
    for_member fields.membership fields.join_authorised_via_users_server key k
for_target _ _ k = false

contains-member_step :
    (r : Result MemberFields) (key : String) (base types : List TypeStateKey) (k : TypeStateKey)
    → (r >>= λ f. ok (member_types f.membership f.join_authorised_via_users_server key base))
      ≡ ok types
    → contains types k ≡ (for_target (some key) r k || contains base k)
contains-member_step (ok f) key base types k e =
    cc (e, contains-member_types f.membership f.join_authorised_via_users_server key base k)
contains-member_step (err x) key base types k e = cc

pub auth_types-tests :
    (kind sender : String) (state_key : Option String) (content : Content)
    (rules : RoomVersionRules) (types : List TypeStateKey) (k : TypeStateKey)
    → kind ≢ room_create
    → auth_types_for_event kind sender state_key content rules ≡ ok types
    → contains types k ≡ (
        (kind == room_member && for_target state_key content.member_fields k)
        || for_every_event rules sender k)
unfolding auth_types_for_event
auth_types-tests kind sender none content rules types k ne h =
    ground (arith, string_eq.beq_iff kind room_create, contains-base_types rules sender k)
auth_types-tests kind sender (some key) content rules types k ne h = ground (
  arith,
  string_eq.beq_iff kind room_create,
  contains-base_types rules sender k,
  contains-member_step content.member_fields key (base_types rules sender) types k,
)
