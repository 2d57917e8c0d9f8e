-- ===== src/Auth/PowerEvent/Allowed.antt =====
-- What `check_power_levels` lets through, against an independent description.
use cinquain.Prelude.{
  String, ◌≡◌, ◌↔◌, true, false, some, List, ◌++◌, ◌==◌, string_eq, option_eq, int_eq, ℤ, leℤ,
  contains, to_set, all, all_elim, arith, Option-cases, inl, inr, ap, refl, Option,
}
use mathlib.Core.Path.{subst}
use cinquain.Prelude.Map
use cinquain.Matrix.{PowerLevels, Pdu, RoomVersionRules, Ruma}
use cinquain.Auth.Levels.{deserialize_power_levels}
use cinquain.Auth.PowerEvent.{
  user_passes, event_passes, notifications_pass, level_passes, levels, compare_levels,
  compare_contents, check_power_levels,
}
use cinquain.Auth.PowerEvent.Entries.{UserAllowed, EventAllowed, users_pass_iff, events_pass_iff}

module _ (old_state new_state : PowerLevels) (limit : ℤ) where
  abbrev pub NotificationsAllowed : RoomVersionRules → Type 0
  NotificationsAllowed rules =
      rules.authorization.limit_notifications_power_levels ≡ true
      → (old_state.notifications_room == new_state.notifications_room) ≡ false
      → (leℤ old_state.notifications_room limit ≡ true)
        × (leℤ new_state.notifications_room limit ≡ true)

  notifications_pass_iff :
      (rules : RoomVersionRules)
      → (notifications_pass rules old_state new_state limit ≡ true) ↔ NotificationsAllowed rules
  unfolding notifications_pass
  notifications_pass_iff rules = ((λ h f c. ground arith), (λ h. ground (arith, h)))

  -- Both contents give the level in their JSON form: then neither is above the limit, changed or not.
  abbrev pub LevelAllowed : Ruma → String → Type 0
  LevelAllowed ruma name =
      (a b : ℤ)
      → ruma.json_level old_state name ≡ some a
      → ruma.json_level new_state name ≡ some b
      → (leℤ a limit ≡ true) × (leℤ b limit ≡ true)

  level_passes-allows :
      (ruma : Ruma) (name : String)
      → level_passes ruma old_state new_state limit name ≡ true
      → LevelAllowed ruma name
  unfolding level_passes
  level_passes-allows ruma name h a b p q = ground arith

  level_passes_complete :
      (ruma : Ruma) (name : String)
      → LevelAllowed ruma name
      → level_passes ruma old_state new_state limit name ≡ true
  unfolding level_passes
  level_passes_complete ruma name h = elim (Option-cases (ruma.json_level old_state name)) [
    | inl e ↦ ground arith
    | inr (a, e) ↦ elim (Option-cases (ruma.json_level new_state name)) [
      | inl f ↦ ground arith
      | inr (b, f) ↦ ground (arith, h a b)
    ]
  ]

  -- The levels of a content that are neither a user's nor an event type's.
  pub record ActionsAllowed (ruma : Ruma) : Type 0 where
    pub users_default : LevelAllowed ruma "users_default"
    pub events_default : LevelAllowed ruma "events_default"
    pub state_default : LevelAllowed ruma "state_default"
    pub ban : LevelAllowed ruma "ban"
    pub redact : LevelAllowed ruma "redact"
    pub kick : LevelAllowed ruma "kick"
    pub invite : LevelAllowed ruma "invite"

  levels_pass-allows :
      (ruma : Ruma)
      → all (level_passes ruma old_state new_state limit) levels ≡ true
      → ActionsAllowed ruma
  unfolding contains
  levels_pass-allows ruma h =
      let passes = λ (name : String) (k : contains levels name ≡ true).
        level_passes-allows ruma name
          (all_elim (level_passes ruma old_state new_state limit) levels name h k) in
      record {
        users_default = passes "users_default" refl;
        events_default = passes "events_default" refl;
        state_default = passes "state_default" refl;
        ban = passes "ban" refl;
        redact = passes "redact" refl;
        kick = passes "kick" refl;
        invite = passes "invite" refl;
      }

  levels_pass_complete :
      (ruma : Ruma)
      → ActionsAllowed ruma
      → all (level_passes ruma old_state new_state limit) levels ≡ true
  unfolding all
  levels_pass_complete ruma a = ground (
    arith,
    level_passes_complete ruma "users_default" a.users_default,
    level_passes_complete ruma "events_default" a.events_default,
    level_passes_complete ruma "state_default" a.state_default,
    level_passes_complete ruma "ban" a.ban,
    level_passes_complete ruma "redact" a.redact,
    level_passes_complete ruma "kick" a.kick,
    level_passes_complete ruma "invite" a.invite,
  )

-- When a sender of level `limit` may replace the power levels `old_state` by `new_state`.
pub record Allowed (ruma : Ruma) (rules : RoomVersionRules) (old_state new_state : PowerLevels)
    (sender : String) (limit : ℤ) (creators : List String) : Type 0 where
  pub users :
      (user : String)
      → UserAllowed
          (Map.get user old_state.users)
          (Map.get user new_state.users)
          user
          sender
          limit
          creators
  pub events :
      (ev_type : String)
      → EventAllowed (Map.get ev_type old_state.events) (Map.get ev_type new_state.events) limit
  pub notifications : NotificationsAllowed old_state new_state limit rules
  pub actions : ActionsAllowed old_state new_state limit ruma

module _ (ruma : Ruma) (rules : RoomVersionRules) (old_state new_state : PowerLevels)
    (sender : String) (limit : ℤ) (creators : List String) where
  compare_levels-parts :
      compare_levels ruma rules old_state new_state sender limit creators ≡ true
      → (all
            (user_passes old_state new_state sender limit creators)
            (to_set (Map.keys old_state.users ++ Map.keys new_state.users))
          ≡ true)
        × (all
              (event_passes old_state new_state limit)
              (to_set (Map.keys old_state.events ++ Map.keys new_state.events))
            ≡ true)
        × (notifications_pass rules old_state new_state limit ≡ true)
        × (all (level_passes ruma old_state new_state limit) levels ≡ true)
  unfolding compare_levels
  compare_levels-parts h = ground arith

  compare_levels-intro :
      all
          (user_passes old_state new_state sender limit creators)
          (to_set (Map.keys old_state.users ++ Map.keys new_state.users))
        ≡ true
      → all
          (event_passes old_state new_state limit)
          (to_set (Map.keys old_state.events ++ Map.keys new_state.events))
        ≡ true
      → notifications_pass rules old_state new_state limit ≡ true
      → all (level_passes ruma old_state new_state limit) levels ≡ true
      → compare_levels ruma rules old_state new_state sender limit creators ≡ true
  unfolding compare_levels
  compare_levels-intro u e n l = rw (u, e, n) l

  compare_levels_iff :
      (compare_levels ruma rules old_state new_state sender limit creators ≡ true)
      ↔ Allowed ruma rules old_state new_state sender limit creators
  compare_levels_iff = (
    (λ h.
        let (u, e, n, l) = compare_levels-parts h in
        record {
          users = (users_pass_iff old_state new_state sender limit creators).0 u;
          events = (events_pass_iff old_state new_state limit).0 e;
          notifications = (notifications_pass_iff old_state new_state limit rules).0 n;
          actions = levels_pass-allows old_state new_state limit ruma l;
        }),
    (λ h.
        compare_levels-intro ((users_pass_iff old_state new_state sender limit creators).1 h.users)
          ((events_pass_iff old_state new_state limit).1 h.events)
          ((notifications_pass_iff old_state new_state limit rules).1 h.notifications)
          (levels_pass_complete old_state new_state limit ruma h.actions)),
  )

check_power_levels-eq :
    (ruma : Ruma) (rules : RoomVersionRules) (power_event previous : Pdu)
    (old_state new_state : PowerLevels) (limit : ℤ) (creators : List String)
    → power_event.state_key ≡ some ""
    → deserialize_power_levels ruma.default_levels power_event.content rules ≡ some new_state
    → deserialize_power_levels ruma.default_levels previous.content rules ≡ some old_state
    → check_power_levels ruma rules power_event (some previous) limit creators
      ≡ some (compare_levels ruma rules old_state new_state power_event.sender limit creators)
unfolding check_power_levels compare_contents
check_power_levels-eq ruma rules power_event previous old_state new_state limit creators k n o =
    ground arith

-- A power levels event with an empty state key, which like the one before it can be read, is accepted
-- exactly if: no creator is listed; the levels of users and of event types that change were and
-- become at most the sender's, and no other user's was equal to it; the same holds of the level of
-- notifications, where the room version limits it; and of the levels users_default, events_default,
-- state_default, ban, redact, kick and invite, those that both contents write are at most the
-- sender's, changed or not.
pub check_power_levels_iff :
    (ruma : Ruma) (rules : RoomVersionRules) (power_event previous : Pdu)
    (old_state new_state : PowerLevels) (limit : ℤ) (creators : List String)
    → power_event.state_key ≡ some ""
    → deserialize_power_levels ruma.default_levels power_event.content rules ≡ some new_state
    → deserialize_power_levels ruma.default_levels previous.content rules ≡ some old_state
    → (check_power_levels ruma rules power_event (some previous) limit creators ≡ some true)
      ↔ Allowed ruma rules old_state new_state power_event.sender limit creators
check_power_levels_iff ruma rules power_event previous old_state new_state limit creators k n o =
    let (allows, complete) =
      compare_levels_iff ruma rules old_state new_state power_event.sender limit creators in
    rw
      (check_power_levels-eq ruma rules power_event previous old_state new_state limit creators k n
        o)
      ((λ h. allows (cc h)), (λ a. ap some (complete a)))

-- What holds when `check_power_levels` accepts: both contents can be read, and the change is allowed.
pub record Accepted (ruma : Ruma) (rules : RoomVersionRules) (power_event : Pdu)
    (previous : Option Pdu) (limit : ℤ) (creators : List String) : Type 0 where
  pub empty_key : power_event.state_key ≡ some ""
  pub new_state : PowerLevels
  pub readable :
      deserialize_power_levels ruma.default_levels power_event.content rules ≡ some new_state
  pub allowed :
      (before : Pdu)
      → previous ≡ some before
      → (old_state : PowerLevels) × (deserialize_power_levels ruma.default_levels before.content
            rules
          ≡ some old_state)
        × Allowed ruma rules old_state new_state power_event.sender limit creators

pub check_power_levels-Accepted :
    (ruma : Ruma) (rules : RoomVersionRules) (power_event : Pdu) (previous : Option Pdu) (limit : ℤ)
    (creators : List String)
    → check_power_levels ruma rules power_event previous limit creators ≡ some true
    → Accepted ruma rules power_event previous limit creators
unfolding check_power_levels compare_contents
check_power_levels-Accepted ruma rules power_event previous limit creators h =
    let new = deserialize_power_levels ruma.default_levels power_event.content rules in
    let empty : power_event.state_key ≡ some "" = elim (Option-cases power_event.state_key) [
      | inl e ↦ absurd (ground arith)
      | inr (key, e) ↦ ground (arith, string_eq.beq_iff key "")
    ] in
    elim (Option-cases new) [
      | inl e ↦ absurd (ground arith)
      | inr (new_state, e) ↦ record {
        empty_key = empty;
        new_state = new_state;
        readable = e;
        allowed = λ before p.
            elim (Option-cases
              (deserialize_power_levels ruma.default_levels before.content rules)) [
                | inl o ↦ absurd (ground arith)
                | inr (old_state, o) ↦ (
                  old_state,
                  o,
                  (check_power_levels_iff ruma rules power_event before old_state new_state limit
                        creators empty e o).0
                      (subst
                        (λ (b : Option Pdu).
                          check_power_levels ruma rules power_event b limit creators ≡ some true)
                        p h),
                )
              ];
      }
    ]
