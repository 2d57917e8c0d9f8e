-- ===== src/Auth/Membership/Readings.antt =====
-- That the change which `valid_membership_change` looks at is the one its events describe.
use cinquain.Prelude.{
  String, ◌≡◌, ◌⊎◌, ◌↔◌, Bool, true, Option, none, some, List, [], ◌∷◌, string_eq, ℤ, leℤ,
  if◌then◌else◌, arith, inl, inr, Option-cases, Bool-cases, refl, ◌∙◌, ◌||◌, ◌&&◌, some-injective,
}
use mathlib.Core.Path.{subst, sym}
use cinquain.Matrix.{
  Result, Raw, ok, err, Result-cases, >>=-eq-ok, ◌>>=◌, Membership, is_join, JoinRule, PowerLevels,
  UserEntries, CreateFields, Pdu, RoomVersionRules, Ruma,
}
use cinquain.Auth.Levels.{
  is_some, user_level, deserialize_power_levels_content_invite,
  deserialize_power_levels_content_fields, deserialize_fields, visit_map,
}
use cinquain.Auth.Levels.Users.{least_level, level_or, user_level-least}
use cinquain.Auth.Membership.{
  Inputs, Change, room_creators, is_creator, membership_of, is_only, deserialises, read_join_rules,
  read_power_levels, read_change, join_auth_is_valid, authorising_levels,
}
use cinquain.Auth.Membership.Described.{
  MembershipIs, JoinRuleIs, LevelsAre, PowerIs, privileged-PowerIs, IsCreator, is_creator_iff,
}

ok-injective : {A : Type 0} {a b : A} → ok a ≡ ok b → a ≡ b
ok-injective h = cc

module _ (ruma : Ruma) (rules : RoomVersionRules) (i : Inputs) where
  -- The power levels let the user invite; without power levels everyone may.
  abbrev pub MayInvite : Option Pdu → String → Type 0
  MayInvite none user = Unit
  MayInvite (some levels) user =
      (entries : UserEntries) × (invite : ℤ) × ((if rules.authorization.integer_power_levels
          then levels.content.int_users
          else levels.content.v1_users)
        ≡ ok entries)
      × ((if rules.authorization.integer_power_levels
            then levels.content.int_invite
            else levels.content.v1_invite)
          ≡ ok invite)
      × (leℤ invite (level_or entries.users_default (least_level user entries.users)) ≡ true)

  -- A joined creator, or a joined user who may invite, vouches for the join.
  abbrev pub Authorised : CreateFields → Type 0
  Authorised content =
      (user : String) × (i.user_for_join_auth ≡ some user)
      × (i.user_for_join_auth_membership ≡ Membership.join)
      × (IsCreator rules content i.create_room i.power_levels_event user
          ⊎ MayInvite i.power_levels_event user)

  -- The change is the one that the events describe.
  pub record Describes (content : CreateFields) (c : Change) : Type 0 where
    pub created : i.create_room.content.create_fields ≡ ok content
    pub sender : c.sender ≡ i.sender
    pub target_user : c.target_user ≡ i.target_user
    pub target_membership : i.current_event.content.get_membership ≡ ok c.target_membership
    pub invite :
        (c.has_third_party_invite ≡ true)
        ↔ ((token : String) × (i.current_event.content.third_party_invite ≡ ok (some (ok token))))
    pub sender_membership : MembershipIs i.sender_membership_event c.sender_membership
    pub target_current : MembershipIs i.target_user_membership_event c.target_current
    pub power_levels : LevelsAre ruma rules i.power_levels_event c.power_levels
    pub sender_power :
        PowerIs rules content i.create_room c.power_levels i.sender c.sender_membership
          c.sender_power
    pub target_power :
        PowerIs rules content i.create_room c.power_levels i.target_user c.target_membership
          c.target_power
    pub join_rules : JoinRuleIs i.join_rules_event c.join_rules
    pub authorised : (c.join_auth_valid ≡ true) ↔ Authorised content
    pub sender_creator :
        (c.sender_creator ≡ true)
        ↔ IsCreator rules content i.create_room i.power_levels_event i.sender
    pub target_creator :
        (c.target_creator ≡ true)
        ↔ IsCreator rules content i.create_room i.power_levels_event i.target_user
    pub first :
        (c.prev_is_create ≡ true) ↔ (i.current_event.prev_events ≡ i.create_room.event_id ∷ [])

  membership_of-MembershipIs :
      (event : Option Pdu) (m : Membership) → membership_of event ≡ ok m → MembershipIs event m
  unfolding membership_of
  membership_of-MembershipIs none m h = cc
  membership_of-MembershipIs (some event) m h = h

  join_rule-JoinRuleIs :
      (event : Option Pdu) (r : JoinRule) → read_join_rules event ≡ ok r → JoinRuleIs event r
  join_rule-JoinRuleIs none r h = cc
  join_rule-JoinRuleIs (some event) r h = h

  levels-LevelsAre :
      (event : Option Pdu) (levels : PowerLevels)
      → read_power_levels ruma rules event ≡ ok levels
      → LevelsAre ruma rules event levels
  levels-LevelsAre none levels h = cc
  levels-LevelsAre (some event) levels h = h

  deserialises_iff :
      (o : Option (Raw String))
      → (deserialises o ≡ true) ↔ ((token : String) × (o ≡ some (ok token)))
  deserialises_iff none = ((λ h. cc), (λ t. absurd (ground (arith, t.1))))
  deserialises_iff (some (ok token)) = ((λ h. (token, refl)), (λ t. refl))
  deserialises_iff (some (err e)) = ((λ h. cc), (λ t. absurd (ground (arith, t.1))))

  invite_iff :
      (read : Result (Option (Raw String))) (o : Option (Raw String))
      → read ≡ ok o
      → (deserialises o ≡ true) ↔ ((token : String) × (read ≡ ok (some (ok token))))
  invite_iff read o r = (
    (λ h. let (token, e) = (deserialises_iff o).0 h in (token, ground arith)),
    (λ t. ground (arith, t.1)),
  )

  is_only_iff :
      (events : List String) (id : String) → (is_only events id ≡ true) ↔ (events ≡ id ∷ [])
  is_only_iff [] id = ((λ h. cc), (λ h. cc))
  is_only_iff (p ∷ []) id =
      let same = string_eq.beq_iff p id in
      ((λ h. ground (arith, same)), (λ h. ground (arith, same)))
  is_only_iff (p ∷ q ∷ events) id = ((λ h. cc), (λ h. cc))

  authorising_MayInvite :
      (levels_event : Option Pdu) (user : String) (found : ℤ × ℤ)
      → authorising_levels rules levels_event user ≡ ok found
      → (leℤ found.1 found.0 ≡ true) ↔ MayInvite levels_event user
  unfolding authorising_levels deserialize_power_levels_content_fields deserialize_fields
      deserialize_power_levels_content_invite
  authorising_MayInvite none user found h = ((λ k. tt), (λ k. ground arith))
  authorising_MayInvite (some levels) user found h =
      let (invite, asked, later) =
        >>=-eq-ok (deserialize_power_levels_content_invite levels.content rules)
          (λ n. deserialize_power_levels_content_fields levels.content rules >>= λ f.
            ok (user_level f user, n))
          h in
      let (fields, given, ends) =
        >>=-eq-ok (deserialize_power_levels_content_fields levels.content rules)
          (λ f. ok (user_level f user, invite)) later in
      let (entries, read, visited) =
        >>=-eq-ok
          (if rules.authorization.integer_power_levels
            then levels.content.int_users
            else levels.content.v1_users)
          (λ e. ok (record { users = visit_map e.users; users_default = e.users_default })) given in
      let least = user_level-least levels.content rules entries user read given in
      (
        (λ k. (entries, invite, read, asked, ground (arith, ends, least))),
        (λ (es, n, r, a, le).
            let same : n ≡ invite = ok-injective (sym a ∙ asked) in
            let same_entries : es ≡ entries = ok-injective (sym r ∙ read) in
            let moved =
              subst
                (λ (m : ℤ). leℤ m (level_or es.users_default (least_level user es.users)) ≡ true)
                same le in
            let reached =
              subst
                (λ (x : UserEntries).
                  leℤ invite (level_or x.users_default (least_level user x.users)) ≡ true)
                same_entries moved in
            let both : (user_level fields user, invite) ≡ found = ok-injective ends in
            subst (λ (f : ℤ × ℤ). leℤ f.1 f.0 ≡ true) both
              (subst (λ (l : ℤ). leℤ invite l ≡ true) (sym least) reached)),
      )

  join_auth_iff :
      (content : CreateFields) (valid : Bool)
      → join_auth_is_valid rules
          (room_creators rules i.create_room content)
          i.create_room
          i.power_levels_event
          i.user_for_join_auth_membership
          i.user_for_join_auth
        ≡ ok valid
      → (valid ≡ true) ↔ Authorised content
  unfolding join_auth_is_valid
  join_auth_iff content valid h = elim (Option-cases i.user_for_join_auth) [
    | inl n ↦ ((λ v. absurd (ground arith)), (λ a. absurd (ground (arith, a.1))))
    | inr (user, u) ↦ elim (Result-cases (authorising_levels rules i.power_levels_event user)) [
      | inr (x, e) ↦ absurd (ground arith)
      | inl (found, e) ↦
          elim (Result-cases (
            is_creator rules (room_creators rules i.create_room content) i.create_room user
              (is_some i.power_levels_event))) [
                | inr (x, k) ↦ absurd (ground arith)
                | inl (creator, k) ↦
                    let may = authorising_MayInvite i.power_levels_event user found e in
                    let is =
                      is_creator_iff rules content i.create_room i.power_levels_event user creator
                        k in
                    let same : valid ≡ (
                        is_join i.user_for_join_auth_membership
                        && (creator || leℤ found.1 found.0)) =
                      ground arith in
                    (
                      (λ v. (
                        user,
                        u,
                        ground arith,
                        elim (Bool-cases creator) [
                          | inl c ↦ inl (is.0 c)
                          | inr c ↦ inr (may.0 (ground arith))
                        ],
                      )),
                      (λ (other, o, j, enough).
                          let own : other ≡ user = some-injective (sym o ∙ u) in
                          elim enough [
                            | inl p ↦
                                let c = is.1 (
                                  subst (IsCreator rules content i.create_room i.power_levels_event)
                                    own p) in
                                ground arith
                            | inr m ↦
                                let c = may.1 (subst (MayInvite i.power_levels_event) own m) in
                                ground arith
                          ]),
                    )
              ]
    ]
  ]

  pub read_change-Describes :
      (c : Change)
      → read_change ruma rules i ≡ ok c
      → (content : CreateFields) × Describes content c
  unfolding read_change
  read_change-Describes c h = elim (Result-cases i.create_room.content.create_fields) [
    | inr (x, e) ↦ absurd (ground arith)
    | inl (content, e) ↦ (
      content,
      record {
        created = e;
        sender = ground arith;
        target_user = ground arith;
        target_membership = ground arith;
        invite = elim (Result-cases i.current_event.content.third_party_invite) [
          | inr (x, t) ↦ absurd (ground arith)
          | inl (o, t) ↦
              let same : deserialises o ≡ c.has_third_party_invite = ground arith in
              subst
                (λ (b : Bool). (b ≡ true) ↔ (
                  (token : String) × (i.current_event.content.third_party_invite
                    ≡ ok (some (ok token)))))
                same (invite_iff i.current_event.content.third_party_invite o t)
        ];
        sender_membership =
            membership_of-MembershipIs i.sender_membership_event c.sender_membership (ground arith);
        target_current =
            membership_of-MembershipIs i.target_user_membership_event c.target_current
              (ground arith);
        power_levels = levels-LevelsAre i.power_levels_event c.power_levels (ground arith);
        sender_power =
            subst (PowerIs rules content i.create_room c.power_levels i.sender c.sender_membership)
              (ground arith)
              (privileged-PowerIs rules content i.create_room c.power_levels i.sender
                c.sender_membership);
        target_power =
            subst
              (PowerIs rules content i.create_room c.power_levels i.target_user c.target_membership)
              (ground arith)
              (privileged-PowerIs rules content i.create_room c.power_levels i.target_user
                c.target_membership);
        join_rules = join_rule-JoinRuleIs i.join_rules_event c.join_rules (ground arith);
        authorised = join_auth_iff content c.join_auth_valid (ground arith);
        sender_creator =
            is_creator_iff rules content i.create_room i.power_levels_event i.sender
              c.sender_creator (ground arith);
        target_creator =
            is_creator_iff rules content i.create_room i.power_levels_event i.target_user
              c.target_creator (ground arith);
        first =
            subst
              (λ (b : Bool).
                (b ≡ true) ↔ (i.current_event.prev_events ≡ i.create_room.event_id ∷ []))
              (ground arith) (is_only_iff i.current_event.prev_events i.create_room.event_id);
      },
    )
  ]
