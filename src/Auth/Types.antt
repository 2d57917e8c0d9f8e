-- ===== src/Auth/Types.antt =====
-- `auth_types_for_event`: the keys of the state that an event is authorised against.
pub mod Keys
pub mod Selected
use cinquain.Prelude.{
  String, ◌≡◌, refl, Bool, true, false, ◌&&◌, ◌||◌, not, Option, none, some, List, [], ◌∷◌, ◌++◌,
  if◌then◌else◌, Eq, ◌==◌, string_eq, pair_eq, contains, contains-append, arith, beq_refl,
  Bool-cases, inl, inr, beq-eq,
}
use cinquain.Matrix.{
  Result, ok, err, ◌>>=◌, Membership, MemberFields, Content, TypeStateKey, RoomVersionRules,
  room_create, room_member, room_power_levels, room_join_rules,
}

-- `if !auth_types.contains(&key) { auth_types.push(key) }`.
unfoldable pub push_new : TypeStateKey → List TypeStateKey → List TypeStateKey
push_new key types = if contains types key then types else types ++ key ∷ []

unfoldable pub base_types : RoomVersionRules → String → List TypeStateKey
base_types rules sender =
    if rules.hashed_room_ids
    then (room_power_levels, "") ∷ (room_member, sender) ∷ []
    else (room_power_levels, "") ∷ (room_member, sender) ∷ (room_create, "") ∷ []

-- `[Join, Invite, Knock].contains(&membership)`.
abbrev pub needs_join_rules : Membership → Bool
needs_join_rules Membership.join = true
needs_join_rules Membership.invite = true
needs_join_rules Membership.knock = true
needs_join_rules _ = false

unfoldable pub push_authoriser : Option (Result String) → List TypeStateKey → List TypeStateKey
unfolding push_new
push_authoriser (some (ok u)) types = push_new (room_member, u) types
push_authoriser _ types = types

-- The body of `if let Some(Ok(membership))`.
unfoldable pub member_types :
    Option (Result Membership)
    → Option (Result String)
    → String
    → List TypeStateKey
    → List TypeStateKey
unfolding push_authoriser
member_types (some (ok membership)) authoriser state_key types =
    push_new (room_member, state_key)
      (if needs_join_rules membership
        then push_authoriser authoriser (push_new (room_join_rules, "") types)
        else types)
member_types _ authoriser state_key types = types

unfoldable pub auth_types_for_event :
    String → String → Option String → Content → RoomVersionRules → Result (List TypeStateKey)
unfolding base_types member_types
auth_types_for_event kind sender state_key content rules =
    if kind == room_create
    then ok []
    else if kind == room_member
    then elim state_key [
      | some key ↦ content.member_fields >>= λ fields. ok (
          member_types fields.membership fields.join_authorised_via_users_server key
            (base_types rules sender))
      | none ↦ ok (base_types rules sender)
    ]
    else ok (base_types rules sender)
