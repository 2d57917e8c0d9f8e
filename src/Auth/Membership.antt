-- ===== src/Auth/Membership.antt =====
-- `valid_membership_change`: who may change whose membership
-- (core/matrix/state_res/event_auth.rs).
pub mod Described
pub mod Readings
pub mod Rules
pub mod Findings
use cinquain.Prelude.{
  String, Bool, true, false, ◌&&◌, ◌||◌, not, Option, none, some, List, [], ◌∷◌, ◌++◌,
  if◌then◌else◌, ◌==◌, string_eq, ℤ, pos, leℤ, ltℤ, contains, insert_new, filter_map,
}
use cinquain.Prelude.Map
use cinquain.Matrix.{
  Result, ok, err, Raw, panicked, ◌>>=◌, ok_or, to_option, Membership, is_join, is_ban, JoinRule,
  CreateFields, PowerLevels, Content, Pdu, AuthorizationRules, RoomVersionRules, Ruma,
}
use cinquain.Auth.Levels.{
  is_some, deserialize_power_levels_content_fields, deserialize_power_levels_content_invite,
  user_level,
}

-- `Int::MAX` of ruma is 2^53 - 1.
abbrev pub int_max : ℤ
int_max = pos 9007199254740991

-- What the code works out before it looks at the membership that is asked for.
pub record Change : Type 0 where
  pub sender : String
  pub target_user : String
  pub target_membership : Membership
  pub has_third_party_invite : Bool  -- present and deserialised
  pub sender_membership : Membership
  pub target_current : Membership
  pub power_levels : PowerLevels
  pub sender_power : Option ℤ
  pub target_power : Option ℤ
  pub join_rules : JoinRule
  pub join_auth_valid : Bool
  pub sender_creator : Bool
  pub target_creator : Bool
  pub prev_is_create : Bool  -- the create event is the only previous event

-- The creators that the code collects.
unfoldable pub room_creators : RoomVersionRules → Pdu → CreateFields → List String
room_creators rules create_room create_content =
    if rules.authorization.explicitly_privilege_room_creators
    then elim create_content.additional_creators [
      | none ↦ create_room.sender ∷ []
      | some creators ↦ create_room.sender ∷ filter_map to_option creators
    ]
    else create_room.sender ∷ []

-- `is_creator`; the failed `unwrap`s are `panicked`.
unfoldable pub is_creator : RoomVersionRules → List String → Pdu → String → Bool → Result Bool
is_creator rules creators create_event user_id have_pls =
    if rules.authorization.explicitly_privilege_room_creators
    then ok (contains creators user_id)
    else if rules.authorization.use_room_create_sender && not have_pls
    then ok (create_event.sender == user_id)
    else if not have_pls
    then elim create_event.content.room_create [
      | ok (some creator) ↦ ok (creator == user_id)
      | ok none ↦ err panicked
      | err e ↦ err panicked
    ]
    else ok false

-- The membership in an event of the state, `leave` where there is none.
unfoldable pub membership_of : Option Pdu → Result Membership
membership_of none = ok Membership.leave
membership_of (some pdu) = pdu.content.get_membership

-- `users.get(user).or_else(|| default.then_some(&users_default))`.
unfoldable pub power_of : PowerLevels → String → Bool → Option ℤ
power_of levels user defaults = elim (Map.get user levels.users) [
  | some level ↦ some level
  | none ↦ if defaults then some levels.users_default else none
]

unfoldable pub privileged : RoomVersionRules → List String → String → Option ℤ → Option ℤ
privileged rules creators user power =
    if rules.authorization.explicitly_privilege_room_creators && contains creators user
    then some int_max
    else power

-- The level of the authorising user and the invite level.
unfoldable pub authorising_levels : RoomVersionRules → Option Pdu → String → Result (ℤ × ℤ)
authorising_levels rules none user = ok (pos 0, pos 0)
authorising_levels rules (some pl) user = do
  invite ← deserialize_power_levels_content_invite pl.content rules
  fields ← deserialize_power_levels_content_fields pl.content rules
  ok (user_level fields user, invite)

-- `user_for_join_auth_is_valid`.
unfoldable pub join_auth_is_valid :
    RoomVersionRules → List String → Pdu → Option Pdu → Membership → Option String → Result Bool
join_auth_is_valid rules creators create_room power_levels_event user_membership none = ok false
join_auth_is_valid rules creators create_room power_levels_event user_membership (some user) = do
  found ← authorising_levels rules power_levels_event user
  creator ← is_creator rules creators create_room user (is_some power_levels_event)
  ok (is_join user_membership && (creator || leℤ found.1 found.0))

abbrev pub read_join_rules : Option Pdu → Result JoinRule
read_join_rules none = ok JoinRule.invite
read_join_rules (some jr) = jr.content.join_rule

abbrev pub read_power_levels : Ruma → RoomVersionRules → Option Pdu → Result PowerLevels
read_power_levels ruma rules none = ok (ruma.default_levels rules.authorization)
read_power_levels ruma rules (some ev) = ev.content.power_levels

abbrev pub deserialises : Option (Raw String) → Bool
deserialises (some (ok t)) = true
deserialises _ = false

abbrev pub is_only : List String → String → Bool
is_only (p ∷ []) event_id = p == event_id
is_only _ event_id = false

-- `matches!(…, Join | Invite)`.
abbrev pub is_join_or_invite : Membership → Bool
is_join_or_invite Membership.join = true
is_join_or_invite Membership.invite = true
is_join_or_invite _ = false

abbrev pub is_join_or_ban : Membership → Bool
is_join_or_ban Membership.join = true
is_join_or_ban Membership.ban = true
is_join_or_ban _ = false

abbrev pub is_ban_or_leave : Membership → Bool
is_ban_or_leave Membership.ban = true
is_ban_or_leave Membership.leave = true
is_ban_or_leave _ = false

abbrev pub is_join_invite_or_knock : Membership → Bool
is_join_invite_or_knock Membership.join = true
is_join_invite_or_knock Membership.invite = true
is_join_invite_or_knock Membership.knock = true
is_join_invite_or_knock _ = false

abbrev pub is_ban_invite_or_join : Membership → Bool
is_ban_invite_or_join Membership.ban = true
is_ban_invite_or_join Membership.invite = true
is_ban_invite_or_join Membership.join = true
is_ban_invite_or_join _ = false

-- `power.is_some_and(|&p| p >= level)`.
abbrev pub reaches : Option ℤ → ℤ → Bool
reaches none level = false
reaches (some p) level = leℤ level p

-- `<` of `Option<&Int>`, where `None` is the least.
abbrev pub less_power : Option ℤ → Option ℤ → Bool
less_power none none = false
less_power none (some b) = true
less_power (some a) none = false
less_power (some a) (some b) = ltℤ a b

-- The `match join_rules`.
unfoldable pub rule_allows_join : AuthorizationRules → JoinRule → Bool → Bool → Bool
rule_allows_join rules JoinRule.invite allows auth_valid = allows
rule_allows_join rules JoinRule.knock allows auth_valid =
    if not rules.knocking then false else allows
rule_allows_join rules JoinRule.knock_restricted allows auth_valid =
    if not rules.knock_restricted_join_rule then false else allows || auth_valid
rule_allows_join rules JoinRule.restricted allows auth_valid = allows || auth_valid
rule_allows_join rules JoinRule.public allows auth_valid = true
rule_allows_join rules JoinRule.other allows auth_valid = false

unfoldable pub join_allowed : AuthorizationRules → Change → Bool
join_allowed rules c =
    if c.prev_is_create && (c.sender_creator && c.target_creator)
    then true
    else if not (c.sender == c.target_user)
    then false
    else if is_ban c.target_current
    then false
    else rule_allows_join rules c.join_rules (is_join_or_invite c.target_current) c.join_auth_valid

-- `verify_third_party_invite` is not implemented in the source and accepts everything.
unfoldable pub verify_third_party_invite : Change → Bool
verify_third_party_invite c = true

unfoldable pub invite_allowed : Change → Bool
invite_allowed c =
    if c.has_third_party_invite
    then (if is_ban c.target_current then false else verify_third_party_invite c)
    else if not (is_join c.sender_membership)
    then false
    else if is_join_or_ban c.target_current
    then false
    else c.sender_creator || reaches c.sender_power c.power_levels.invite

unfoldable pub can_unban : Change → Bool
can_unban c =
    if is_ban c.target_current
    then c.sender_creator || reaches c.sender_power c.power_levels.ban
    else true

-- The comparison of two powers that ends `can_kick`.
abbrev pub outranks : Option ℤ → Option ℤ → Bool
outranks none target = false
outranks (some sp) none = true
outranks (some sp) (some tp) = ltℤ tp sp

unfoldable pub can_kick : Change → Bool
can_kick c =
    if not (is_ban_or_leave c.target_current)
    then (if c.sender_creator
        then true
        else if not (reaches c.sender_power c.power_levels.kick)
        then false
        else outranks c.sender_power c.target_power)
    else true

unfoldable pub leave_allowed : Change → Bool
leave_allowed c =
    if c.sender == c.target_user
    then is_join_invite_or_knock c.target_current
    else if not (is_join c.sender_membership)
    then false
    else if not (can_unban c && can_kick c)
    then false
    else if not (can_kick c)
    then false
    else true

unfoldable pub ban_allowed : Change → Bool
ban_allowed c =
    if not (is_join c.sender_membership)
    then false
    else c.sender_creator
      || (reaches c.sender_power c.power_levels.ban && less_power c.target_power c.sender_power)

abbrev pub is_knock_rule : JoinRule → Bool
is_knock_rule JoinRule.knock = true
is_knock_rule JoinRule.knock_restricted = true
is_knock_rule _ = false

abbrev pub is_knock_restricted : JoinRule → Bool
is_knock_restricted JoinRule.knock_restricted = true
is_knock_restricted _ = false

unfoldable pub knock_allowed : AuthorizationRules → Change → Bool
knock_allowed rules c =
    if not (is_knock_rule c.join_rules)
    then false
    else if is_knock_restricted c.join_rules && not rules.knock_restricted_join_rule
    then false
    else if not (c.sender == c.target_user)
    then false
    else if is_ban_invite_or_join c.sender_membership
    then false
    else true

-- The `match target_membership`.
unfoldable pub allowed_as : AuthorizationRules → Change → Membership → Bool
allowed_as rules c Membership.join = join_allowed rules c
allowed_as rules c Membership.invite = invite_allowed c
allowed_as rules c Membership.leave = leave_allowed c
allowed_as rules c Membership.ban = ban_allowed c
allowed_as rules c Membership.knock = if rules.knocking then knock_allowed rules c else false
allowed_as rules c Membership.custom = false

unfoldable pub change_allowed : AuthorizationRules → Change → Bool
unfolding allowed_as
change_allowed rules c = allowed_as rules c c.target_membership

-- The events that `auth_check` hands over.
pub record Inputs : Type 0 where
  pub target_user : String
  pub target_user_membership_event : Option Pdu
  pub sender : String
  pub sender_membership_event : Option Pdu
  pub current_event : Pdu
  pub power_levels_event : Option Pdu
  pub join_rules_event : Option Pdu
  pub user_for_join_auth : Option String
  pub user_for_join_auth_membership : Membership
  pub create_room : Pdu

unfoldable pub read_change : Ruma → RoomVersionRules → Inputs → Result Change
read_change ruma rules i = do
  create_content ← i.create_room.content.create_fields
  target_membership ← i.current_event.content.get_membership
  third_party_invite ← i.current_event.content.third_party_invite
  sender_membership ← membership_of i.sender_membership_event
  target_current ← membership_of i.target_user_membership_event
  power_levels ← read_power_levels ruma rules i.power_levels_event
  let creators = room_creators rules i.create_room create_content
  join_rules ← read_join_rules i.join_rules_event
  join_auth_valid ←
      join_auth_is_valid rules creators i.create_room i.power_levels_event
        i.user_for_join_auth_membership i.user_for_join_auth
  sender_creator ← is_creator rules creators i.create_room i.sender (is_some i.power_levels_event)
  target_creator ←
      is_creator rules creators i.create_room i.target_user (is_some i.power_levels_event)
  ok (record {
    sender = i.sender;
    target_user = i.target_user;
    target_membership = target_membership;
    has_third_party_invite = deserialises third_party_invite;
    sender_membership = sender_membership;
    target_current = target_current;
    power_levels = power_levels;
    sender_power =
        privileged rules creators i.sender
          (power_of power_levels i.sender (is_join sender_membership));
    target_power =
        privileged rules creators i.target_user
          (power_of power_levels i.target_user (is_join target_membership));
    join_rules = join_rules;
    join_auth_valid = join_auth_valid;
    sender_creator = sender_creator;
    target_creator = target_creator;
    prev_is_create = is_only i.current_event.prev_events i.create_room.event_id;
  })

unfoldable pub valid_membership_change : Ruma → RoomVersionRules → Inputs → Result Bool
valid_membership_change ruma rules i = do
  change ← read_change ruma rules i
  ok (change_allowed rules.authorization change)
