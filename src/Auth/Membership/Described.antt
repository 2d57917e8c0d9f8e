-- ===== src/Auth/Membership/Described.antt =====
-- What `valid_membership_change` works out of its events, described apart from its code.
use cinquain.Prelude.{
  String, ◌≡◌, ◌≢◌, ◌⊎◌, ◌↔◌, Bool, true, false, Option, none, some, string_eq, contains, ℤ, pos,
  arith, inl, inr, Option-cases, Bool-cases, ◌∙◌,
}
use cinquain.Prelude.Map
use cinquain.Matrix.{
  ok, Result-cases, Membership, is_join, JoinRule, PowerLevels, CreateFields, Pdu, RoomVersionRules,
  Ruma,
}
use cinquain.Auth.Levels.{is_some}
use cinquain.Auth.Creators.{Privileged, room_creators_iff}
use cinquain.Auth.Membership.{room_creators, is_creator, power_of, privileged}

-- The membership of a membership event; without one it is `leave`.
abbrev pub MembershipIs : Option Pdu → Membership → Type 0
MembershipIs none membership = membership ≡ Membership.leave
MembershipIs (some event) membership = event.content.get_membership ≡ ok membership

abbrev pub JoinRuleIs : Option Pdu → JoinRule → Type 0
JoinRuleIs none rule = rule ≡ JoinRule.invite
JoinRuleIs (some event) rule = event.content.join_rule ≡ ok rule

abbrev pub LevelsAre : Ruma → RoomVersionRules → Option Pdu → PowerLevels → Type 0
LevelsAre ruma rules none levels = levels ≡ ruma.default_levels rules.authorization
LevelsAre ruma rules (some event) levels = event.content.power_levels ≡ ok levels

module _ (rules : RoomVersionRules) (content : CreateFields) (create_event : Pdu) where
  -- The level of a user: the greatest one for a privileged creator, else the listed one, else the
  -- default for users whose membership is `join`, and none for others.
  pub record PowerIs (levels : PowerLevels) (user : String) (membership : Membership)
      (power : Option ℤ) : Type 0 where
    pub creator : Privileged rules content create_event user → power ≡ some (pos 9007199254740991)
    pub listed :
        (level : ℤ)
        → ¬ Privileged rules content create_event user
        → Map.get user levels.users ≡ some level
        → power ≡ some level
    pub joined :
        ¬ Privileged rules content create_event user
        → Map.get user levels.users ≡ none
        → membership ≡ Membership.join
        → power ≡ some levels.users_default
    pub other :
        ¬ Privileged rules content create_event user
        → Map.get user levels.users ≡ none
        → membership ≢ Membership.join
        → power ≡ none

  -- The user is a creator: one that the room privileges, or in older room versions the creator of a
  -- room that has no power levels yet.
  abbrev pub IsCreator : Option Pdu → String → Type 0
  IsCreator levels_event user =
      Privileged rules content create_event user
      ⊎ ((rules.authorization.explicitly_privilege_room_creators ≡ false)
          × (levels_event ≡ none)
          × (((rules.authorization.use_room_create_sender ≡ true) × (create_event.sender ≡ user))
              ⊎ ((rules.authorization.use_room_create_sender ≡ false)
                  × (create_event.content.room_create ≡ ok (some user)))))

  unprivileged :
      (user : String) (power : Option ℤ)
      → ¬ Privileged rules content create_event user
      → privileged rules (room_creators rules create_event content) user power ≡ power
  unfolding privileged
  unprivileged user power n =
      elim (Bool-cases rules.authorization.explicitly_privilege_room_creators) [
        | inr e ↦ ground arith
        | inl e ↦
            let creators = room_creators rules create_event content in
            let iff = room_creators_iff rules content create_event user e in
            elim (Bool-cases (contains creators user)) [
              | inl c ↦ absurd (n (iff.0 c))
              | inr c ↦ ground arith
            ]
      ]

  privileged_iff :
      (user : String) (power : Option ℤ)
      → Privileged rules content create_event user
      → privileged rules (room_creators rules create_event content) user power
        ≡ some (pos 9007199254740991)
  unfolding privileged
  privileged_iff user power p =
      let found = (room_creators_iff rules content create_event user p.0).1 p in ground (arith, p.0)

  pub privileged-PowerIs :
      (levels : PowerLevels) (user : String) (membership : Membership)
      → PowerIs levels user membership (
          privileged rules
            (room_creators rules create_event content)
            user
            (power_of levels user (is_join membership)))
  unfolding power_of
  privileged-PowerIs levels user membership =
      let power = power_of levels user (is_join membership) in
      record {
        creator = λ p. privileged_iff user power p;
        listed = λ level n g. unprivileged user power n ∙ ground arith;
        joined = λ n g m. unprivileged user power n ∙ ground arith;
        other = λ n g m. unprivileged user power n ∙ ground arith;
      }

  without_levels :
      (levels_event : Option Pdu) (user : String) (found : Bool)
      → rules.authorization.explicitly_privilege_room_creators ≡ false
      → is_creator rules
          (room_creators rules create_event content)
          create_event
          user
          (is_some levels_event)
        ≡ ok found
      → (found ≡ true) ↔ IsCreator levels_event user
  unfolding is_creator
  without_levels (some levels) user found e h =
      ((λ f. absurd (ground arith)), (λ c. absurd (ground (arith, c))))
  without_levels none user found e h =
      elim (Bool-cases rules.authorization.use_room_create_sender) [
        | inl u ↦
            let same = string_eq.beq_iff create_event.sender user in
            ((λ f. ground (arith, same)), (λ c. ground (arith, same, c)))
        | inr u ↦ elim (Result-cases create_event.content.room_create) [
          | inr (x, r) ↦ absurd (ground arith)
          | inl (creator, r) ↦ elim (Option-cases creator) [
            | inl n ↦ absurd (ground arith)
            | inr (name, n) ↦
                let same = string_eq.beq_iff name user in
                ((λ f. ground (arith, same)), (λ c. ground (arith, same, c)))
          ]
        ]
      ]

  pub is_creator_iff :
      (levels_event : Option Pdu) (user : String) (found : Bool)
      → is_creator rules
          (room_creators rules create_event content)
          create_event
          user
          (is_some levels_event)
        ≡ ok found
      → (found ≡ true) ↔ IsCreator levels_event user
  unfolding is_creator
  is_creator_iff levels_event user found h =
      elim (Bool-cases rules.authorization.explicitly_privilege_room_creators) [
        | inr e ↦ without_levels levels_event user found e h
        | inl e ↦
            let iff = room_creators_iff rules content create_event user e in
            ((λ f. inl (iff.0 (ground arith))), (λ c. ground (arith, c, iff.1)))
      ]
