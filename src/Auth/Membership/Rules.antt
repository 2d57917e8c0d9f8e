-- ===== src/Auth/Membership/Rules.antt =====
-- The membership changes that are permitted, in words of their own, and that the code decides them.
use cinquain.Prelude.{
  ◌≡◌, ◌≢◌, ◌⊎◌, ◌↔◌, true, false, arith, string_eq, ap, refl, ℤ, leℤ, Option, none, some,
}
use cinquain.Auth.Membership.Readings.{Describes, read_change-Describes}
use cinquain.Matrix.{
  CreateFields, ok, Membership, JoinRule, AuthorizationRules, RoomVersionRules, Ruma,
}
use cinquain.Auth.Membership.{
  Change, Inputs, rule_allows_join, join_allowed, invite_allowed, verify_third_party_invite,
  can_unban, can_kick, leave_allowed, ban_allowed, knock_allowed, allowed_as, change_allowed,
  read_change, valid_membership_change, reaches, less_power, outranks,
}

-- The user has a level, and it is at least the one that is asked for.
abbrev pub Reaches : Option ℤ → ℤ → Type 0
Reaches power level = (p : ℤ) × (power ≡ some p) × (leℤ level p ≡ true)

-- The user has a level, and it is greater than the other's, if that one has a level.
abbrev pub Outranks : Option ℤ → Option ℤ → Type 0
Outranks power other = (p : ℤ) × (power ≡ some p) × ((q : ℤ) → other ≡ some q → leℤ p q ≡ false)

reaches_iff : (power : Option ℤ) (level : ℤ) → (reaches power level ≡ true) ↔ Reaches power level
reaches_iff none level = ((λ h. cc), (λ r. absurd (ground (arith, r.1))))
reaches_iff (some p) level = ((λ h. (p, refl, h)), (λ r. ground (arith, r.1, r.2)))

outranks_iff : (power other : Option ℤ) → (outranks power other ≡ true) ↔ Outranks power other
outranks_iff none other = ((λ h. cc), (λ r. absurd (ground (arith, r.1))))
outranks_iff (some p) none = ((λ h. (p, refl, (λ q e. absurd (ground arith)))), (λ r. refl))
outranks_iff (some p) (some q) =
    ((λ h. (p, refl, (λ o e. ground arith))), (λ r. ground (arith, r.1, r.2 q refl)))

less_power_iff : (power other : Option ℤ) → (less_power other power ≡ true) ↔ Outranks power other
less_power_iff none none = ((λ h. cc), (λ r. absurd (ground (arith, r.1))))
less_power_iff none (some q) = ((λ h. cc), (λ r. absurd (ground (arith, r.1))))
less_power_iff (some p) none = ((λ h. (p, refl, (λ q e. absurd (ground arith)))), (λ r. refl))
less_power_iff (some p) (some q) =
    ((λ h. (p, refl, (λ o e. ground arith))), (λ r. ground (arith, r.1, r.2 q refl)))

module _ (rules : AuthorizationRules) (c : Change) where
  -- The join rule lets in users who were invited or are in, or whom a member vouched for.
  abbrev pub Vouched : Type 0
  Vouched =
      (c.join_auth_valid ≡ true)
      × ((c.join_rules ≡ JoinRule.restricted)
          ⊎ ((c.join_rules ≡ JoinRule.knock_restricted)
              × (rules.knock_restricted_join_rule ≡ true)))

  abbrev pub Expected : Type 0
  Expected =
      ((c.target_current ≡ Membership.join) ⊎ (c.target_current ≡ Membership.invite))
      × ((c.join_rules ≡ JoinRule.invite)
          ⊎ (c.join_rules ≡ JoinRule.restricted)
          ⊎ ((c.join_rules ≡ JoinRule.knock) × (rules.knocking ≡ true))
          ⊎ ((c.join_rules ≡ JoinRule.knock_restricted)
              × (rules.knock_restricted_join_rule ≡ true)))

  abbrev pub FirstJoin : Type 0
  FirstJoin = (c.prev_is_create ≡ true) × (c.sender_creator ≡ true) × (c.target_creator ≡ true)

  abbrev pub OrdinaryJoin : Type 0
  OrdinaryJoin =
      (c.sender ≡ c.target_user)
      × (c.target_current ≢ Membership.ban)
      × ((c.join_rules ≡ JoinRule.public) ⊎ Expected ⊎ Vouched)

  join_allowed-sound : join_allowed rules c ≡ true → FirstJoin ⊎ OrdinaryJoin
  unfolding join_allowed rule_allows_join
  join_allowed-sound h = ground (arith, string_eq.beq_iff c.sender c.target_user)

  join_allowed_complete : FirstJoin ⊎ OrdinaryJoin → join_allowed rules c ≡ true
  unfolding join_allowed rule_allows_join
  join_allowed_complete h = ground (arith, string_eq.beq_iff c.sender c.target_user)

  -- A join is allowed exactly if it is the creator's first one, or users join for themselves, are not
  -- banned, and the join rule is public, expects them, or accepts who vouches for them.
  pub join_allowed_iff : (join_allowed rules c ≡ true) ↔ (FirstJoin ⊎ OrdinaryJoin)
  join_allowed_iff = (join_allowed-sound, join_allowed_complete)

  abbrev pub Kickable : Type 0
  Kickable =
      (c.target_current ≡ Membership.leave)
      ⊎ (c.sender_creator ≡ true)
      ⊎ (Reaches c.sender_power c.power_levels.kick × Outranks c.sender_power c.target_power)

  abbrev pub Unbannable : Type 0
  Unbannable = (c.sender_creator ≡ true) ⊎ Reaches c.sender_power c.power_levels.ban

  -- Leaving: users who are in, invited or knocking may leave; a joined sender may unban a banned
  -- target with the power to ban, and remove another target with the power to kick and a higher level.
  abbrev pub Leaves : Type 0
  Leaves =
      ((c.sender ≡ c.target_user)
        × ((c.target_current ≡ Membership.join)
            ⊎ (c.target_current ≡ Membership.invite)
            ⊎ (c.target_current ≡ Membership.knock)))
      ⊎ ((c.sender ≢ c.target_user)
          × (c.sender_membership ≡ Membership.join)
          × (((c.target_current ≡ Membership.ban) × Unbannable)
              ⊎ ((c.target_current ≢ Membership.ban) × Kickable)))

  leave_allowed-sound : leave_allowed c ≡ true → Leaves
  unfolding leave_allowed can_unban can_kick
  leave_allowed-sound h = ground (
    arith,
    string_eq.beq_iff c.sender c.target_user,
    reaches_iff c.sender_power c.power_levels.kick,
    reaches_iff c.sender_power c.power_levels.ban,
    outranks_iff c.sender_power c.target_power,
  )

  leave_allowed_complete : Leaves → leave_allowed c ≡ true
  unfolding leave_allowed can_unban can_kick
  leave_allowed_complete h = ground (
    arith,
    string_eq.beq_iff c.sender c.target_user,
    reaches_iff c.sender_power c.power_levels.kick,
    reaches_iff c.sender_power c.power_levels.ban,
    outranks_iff c.sender_power c.target_power,
  )

  -- A leave event is allowed exactly if it is one of those changes.
  pub leave_allowed_iff : (leave_allowed c ≡ true) ↔ Leaves
  leave_allowed_iff = (leave_allowed-sound, leave_allowed_complete)

  abbrev pub Invites : Type 0
  Invites =
      ((c.has_third_party_invite ≡ true) × (c.target_current ≢ Membership.ban))
      ⊎ ((c.has_third_party_invite ≡ false)
          × (c.sender_membership ≡ Membership.join)
          × (c.target_current ≢ Membership.join)
          × (c.target_current ≢ Membership.ban)
          × ((c.sender_creator ≡ true) ⊎ Reaches c.sender_power c.power_levels.invite))

  invite_allowed-sound : invite_allowed c ≡ true → Invites
  unfolding invite_allowed verify_third_party_invite
  invite_allowed-sound h = ground (arith, reaches_iff c.sender_power c.power_levels.invite)

  invite_allowed_complete : Invites → invite_allowed c ≡ true
  unfolding invite_allowed verify_third_party_invite
  invite_allowed_complete h = ground (arith, reaches_iff c.sender_power c.power_levels.invite)

  abbrev pub Bans : Type 0
  Bans =
      (c.sender_membership ≡ Membership.join)
      × ((c.sender_creator ≡ true)
          ⊎ (Reaches c.sender_power c.power_levels.ban × Outranks c.sender_power c.target_power))

  ban_allowed-sound : ban_allowed c ≡ true → Bans
  unfolding ban_allowed
  ban_allowed-sound h = ground (
    arith,
    reaches_iff c.sender_power c.power_levels.ban,
    less_power_iff c.sender_power c.target_power,
  )

  ban_allowed_complete : Bans → ban_allowed c ≡ true
  unfolding ban_allowed
  ban_allowed_complete h = ground (
    arith,
    reaches_iff c.sender_power c.power_levels.ban,
    less_power_iff c.sender_power c.target_power,
  )

  abbrev pub Knocks : Type 0
  Knocks =
      (rules.knocking ≡ true)
      × (c.sender ≡ c.target_user)
      × ((c.join_rules ≡ JoinRule.knock)
          ⊎ ((c.join_rules ≡ JoinRule.knock_restricted)
              × (rules.knock_restricted_join_rule ≡ true)))
      × (c.sender_membership ≢ Membership.ban)
      × (c.sender_membership ≢ Membership.invite)
      × (c.sender_membership ≢ Membership.join)

  knock_allowed-sound : rules.knocking ≡ true → knock_allowed rules c ≡ true → Knocks
  unfolding knock_allowed
  knock_allowed-sound k h = ground (arith, string_eq.beq_iff c.sender c.target_user)

  knock_allowed_complete : Knocks → knock_allowed rules c ≡ true
  unfolding knock_allowed
  knock_allowed_complete h = ground (arith, string_eq.beq_iff c.sender c.target_user)

  -- What is permitted, for each membership that may be asked for. It departs from the Matrix
  -- specification where the code does: a third party invite is not verified, and the default level of
  -- a target counts only if the event asks for a join.
  abbrev pub Permitted : Membership → Type 0
  Permitted Membership.join = FirstJoin ⊎ OrdinaryJoin
  Permitted Membership.invite = Invites
  Permitted Membership.leave = Leaves
  Permitted Membership.ban = Bans
  Permitted Membership.knock = Knocks
  Permitted Membership.custom = ⊥

  allowed_as_iff : (m : Membership) → (allowed_as rules c m ≡ true) ↔ Permitted m
  unfolding allowed_as
  allowed_as_iff Membership.join = join_allowed_iff
  allowed_as_iff Membership.invite = (invite_allowed-sound, invite_allowed_complete)
  allowed_as_iff Membership.leave = leave_allowed_iff
  allowed_as_iff Membership.ban = (ban_allowed-sound, ban_allowed_complete)
  allowed_as_iff Membership.knock = (
    (λ h. knock_allowed-sound (ground arith) (ground arith)),
    (λ h. ground (arith, knock_allowed_complete h)),
  )
  allowed_as_iff Membership.custom = ((λ h. cc), (λ h. absurd h))

-- On events that can be read, the change is the one that they describe, with the levels and the
-- creators among them, and is accepted exactly if it is permitted for the membership asked for.
pub valid_membership_change_iff :
    (ruma : Ruma) (rules : RoomVersionRules) (i : Inputs) (c : Change)
    → read_change ruma rules i ≡ ok c
    → ((content : CreateFields) × Describes ruma rules i content c)
      × ((valid_membership_change ruma rules i ≡ ok true)
          ↔ Permitted rules.authorization c c.target_membership)
unfolding valid_membership_change change_allowed
valid_membership_change_iff ruma rules i c r =
    let (sound, complete) = allowed_as_iff rules.authorization c c.target_membership in
    (
      read_change-Describes ruma rules i c r,
      rw r ((λ h. sound (ground arith)), (λ h. ap ok (complete h))),
    )
