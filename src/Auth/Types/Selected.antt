-- ===== src/Auth/Types/Selected.antt =====
-- Which keys `auth_types_for_event` selects, described apart from the code.
use cinquain.Prelude.{
  String, ◌≡◌, ◌≢◌, refl, Bool, true, false, ◌&&◌, ◌||◌, Option, none, some, List, ◌==◌, string_eq,
  pair_eq, contains, arith, inl, inr, ◌⊎◌, ◌↔◌, ◌==◌, sym, beq-eq, beq_refl, some-injective, ◌∙◌,
}
use mathlib.Core.Path.{subst}
use cinquain.Matrix.{
  Result, ok, err, Membership, MemberFields, Content, TypeStateKey, RoomVersionRules, room_create,
  room_member, room_power_levels, room_join_rules, room_third_party_invite,
}
use cinquain.Auth.Types.{needs_join_rules, auth_types_for_event}
use cinquain.Auth.Types.Keys.{
  for_every_event, for_authoriser, for_member, for_target, auth_types-tests,
}

-- The target's membership, and for a change to join, invite or knock the join rules and the membership
-- of a user who vouches for it.
abbrev pub ForMember :
    Option (Result Membership) → Option (Result String) → String → TypeStateKey → Type 0
ForMember content authoriser key k =
    (membership : Membership) × (content ≡ some (ok membership))
    × ((k ≡ (room_member, key))
        ⊎ (((membership ≡ Membership.join)
              ⊎ (membership ≡ Membership.invite)
              ⊎ (membership ≡ Membership.knock))
            × ((k ≡ (room_join_rules, ""))
                ⊎ ((user : String) × (authoriser ≡ some (ok user)) × (k ≡ (room_member, user))))))

abbrev pub ForTarget : Option String → Result MemberFields → TypeStateKey → Type 0
ForTarget state_key content k =
    (key : String) × (fields : MemberFields) × (state_key ≡ some key)
    × (content ≡ ok fields)
    × ForMember fields.membership fields.join_authorised_via_users_server key k

abbrev pub ForEveryEvent : RoomVersionRules → String → TypeStateKey → Type 0
ForEveryEvent rules sender k =
    (k ≡ (room_power_levels, ""))
    ⊎ (k ≡ (room_member, sender))
    ⊎ ((rules.hashed_room_ids ≡ false) × (k ≡ (room_create, "")))

ok-injective : {A : Type 0} {a b : A} → ok a ≡ ok b → a ≡ b
ok-injective h = cc

same_key : (j k : TypeStateKey) → (j == k ≡ true) ↔ (k ≡ j)
same_key j k = ((λ h. sym (beq-eq j k h)), (λ e. subst (λ x. (j == x) ≡ true) (sym e) (beq_refl j)))

for_every_event_iff :
    (rules : RoomVersionRules) (sender : String) (k : TypeStateKey)
    → (for_every_event rules sender k ≡ true) ↔ ForEveryEvent rules sender k
for_every_event_iff rules sender k =
    let power = same_key (room_power_levels, "") k in
    let member = same_key (room_member, sender) k in
    let create = same_key (room_create, "") k in
    ((λ h. ground (arith, power, member, create)), (λ n. ground (arith, power, member, create)))

or_iff : {A B : Type 0} (a b : Bool) → (a ≡ true) ↔ A → (b ≡ true) ↔ B → ((a || b) ≡ true) ↔ (A ⊎ B)
or_iff true b f g = ((λ h. inl (f.0 refl)), (λ h. refl))
or_iff false b f g =
    ((λ h. inr (g.0 h)), (λ h. elim h [ inl x ↦ absurd (ground (arith, f.1 x)) | inr y ↦ g.1 y ]))

and_iff :
    {A B : Type 0} (a b : Bool) → (a ≡ true) ↔ A → (b ≡ true) ↔ B → ((a && b) ≡ true) ↔ (A × B)
and_iff true b f g = ((λ h. (f.0 refl, g.0 h)), (λ h. g.1 h.1))
and_iff false b f g = ((λ h. absurd (ground arith)), (λ h. f.1 h.0))

for_authoriser_iff :
    (authoriser : Option (Result String)) (k : TypeStateKey)
    → (for_authoriser authoriser k ≡ true)
      ↔ ((user : String) × (authoriser ≡ some (ok user)) × (k ≡ (room_member, user)))
for_authoriser_iff none k = ((λ h. cc), (λ n. absurd (ground (arith, n.1))))
for_authoriser_iff (some (err e)) k = ((λ h. cc), (λ n. absurd (ground (arith, n.1))))
for_authoriser_iff (some (ok u)) k =
    let same = same_key (room_member, u) k in
    (
      (λ h. (u, refl, same.0 h)),
      (λ (user, e, n).
          same.1 (
            subst (λ (x : String). k ≡ (room_member, x)) (ok-injective (some-injective (sym e)))
              n)),
    )

needs_join_rules_iff :
    (m : Membership)
    → (needs_join_rules m ≡ true)
      ↔ ((m ≡ Membership.join) ⊎ (m ≡ Membership.invite) ⊎ (m ≡ Membership.knock))
needs_join_rules_iff m = ((λ h. ground arith), (λ n. ground (arith, n)))

for_member_iff :
    (content : Option (Result Membership)) (authoriser : Option (Result String)) (key : String)
    (k : TypeStateKey)
    → (for_member content authoriser key k ≡ true) ↔ ForMember content authoriser key k
for_member_iff none authoriser key k = ((λ h. cc), (λ n. absurd (ground (arith, n.1))))
for_member_iff (some (err e)) authoriser key k = ((λ h. cc), (λ n. absurd (ground (arith, n.1))))
for_member_iff (some (ok m)) authoriser key k =
    let target = same_key (room_member, key) k in
    let rules = same_key (room_join_rules, "") k in
    let vouching = for_authoriser_iff authoriser k in
    let needed = needs_join_rules_iff m in
    let iff = or_iff _ _ target (and_iff _ _ needed (or_iff _ _ rules vouching)) in
    (
      (λ h. (m, refl, iff.0 h)),
      (λ (n, e, p). iff.1 (
          subst
            (λ (x : Membership).
              (k ≡ (room_member, key))
              ⊎ (((x ≡ Membership.join) ⊎ (x ≡ Membership.invite) ⊎ (x ≡ Membership.knock))
                  × ((k ≡ (room_join_rules, ""))
                      ⊎ ((user : String) × (authoriser ≡ some (ok user))
                          × (k ≡ (room_member, user))))))
            (ok-injective (some-injective (sym e))) p)),
    )

for_target_iff :
    (state_key : Option String) (content : Result MemberFields) (k : TypeStateKey)
    → (for_target state_key content k ≡ true) ↔ ForTarget state_key content k
for_target_iff none content k = ((λ h. cc), (λ n. absurd (ground (arith, n.2))))
for_target_iff (some key) (err e) k = ((λ h. cc), (λ n. absurd (ground (arith, n.3))))
for_target_iff (some key) (ok fields) k =
    let member = for_member_iff fields.membership fields.join_authorised_via_users_server key k in
    (
      (λ h. (key, fields, refl, refl, member.0 h)),
      (λ (other, found, e, f, n).
          let same : other ≡ key = some-injective (sym e) in
          let read : found ≡ fields = ok-injective (sym f) in
          member.1 (
            subst
              (λ (x : String).
                ForMember fields.membership fields.join_authorised_via_users_server x k)
              same
              (subst
                (λ (y : MemberFields).
                  ForMember y.membership y.join_authorised_via_users_server other k)
                read n))),
    )

other_key :
    (ty key : String) (k : TypeStateKey)
    → k.0 ≡ room_third_party_invite
    → (ty == room_third_party_invite) ≡ false
    → ((ty, key) == k) ≡ false
other_key ty key (t, x) e n =
    subst (λ (u : String). ◌==◌ {Key = TypeStateKey} (ty, key) (u, x) ≡ false) (sym e)
      (ground (arith, n))

every_third :
    (rules : RoomVersionRules) (sender : String) (k : TypeStateKey)
    → k.0 ≡ room_third_party_invite
    → for_every_event rules sender k ≡ false
every_third rules sender k t = ground (
  arith,
  other_key room_power_levels "" k t refl,
  other_key room_member sender k t refl,
  other_key room_create "" k t refl,
)

authoriser_third :
    (authoriser : Option (Result String)) (k : TypeStateKey)
    → k.0 ≡ room_third_party_invite
    → for_authoriser authoriser k ≡ false
authoriser_third none k t = refl
authoriser_third (some (err e)) k t = refl
authoriser_third (some (ok u)) k t = other_key room_member u k t refl

member_third :
    (content : Option (Result Membership)) (authoriser : Option (Result String)) (key : String)
    (k : TypeStateKey)
    → k.0 ≡ room_third_party_invite
    → for_member content authoriser key k ≡ false
member_third none authoriser key k t = refl
member_third (some (err e)) authoriser key k t = refl
member_third (some (ok m)) authoriser key k t = ground (
  arith,
  other_key room_member key k t refl,
  other_key room_join_rules "" k t refl,
  authoriser_third authoriser k t,
)

target_third :
    (state_key : Option String) (content : Result MemberFields) (k : TypeStateKey)
    → k.0 ≡ room_third_party_invite
    → for_target state_key content k ≡ false
target_third none content k t = refl
target_third (some key) (err e) k t = refl
target_third (some key) (ok fields) k t =
    member_third fields.membership fields.join_authorised_via_users_server key k t

-- For every event but `m.room.create`, the keys selected are exactly these: the power levels, the
-- sender's membership, the create event where room ids are no hashes, and for a readable membership
-- event the target's membership, with the join rules and the vouching user's membership when it
-- joins, invites or knocks. So none is the key of a third party invite.
pub auth_types-selects :
    (kind sender : String) (state_key : Option String) (content : Content)
    (rules : RoomVersionRules) (types : List TypeStateKey) (k : TypeStateKey)
    → kind ≢ room_create
    → auth_types_for_event kind sender state_key content rules ≡ ok types
    → ((contains types k ≡ true) ↔ (
        ((kind ≡ room_member) × ForTarget state_key content.member_fields k)
        ⊎ ForEveryEvent rules sender k))
      × (k.0 ≡ room_third_party_invite → contains types k ≡ false)
auth_types-selects kind sender state_key content rules types k ne h =
    let tests = auth_types-tests kind sender state_key content rules types k ne h in
    let target = for_target_iff state_key content.member_fields k in
    let every = for_every_event_iff rules sender k in
    let iff = or_iff _ _ (and_iff _ _ (string_eq.beq_iff kind room_member) target) every in
    (
      ((λ c. iff.0 (sym tests ∙ c)), (λ n. tests ∙ iff.1 n)),
      (λ t.
          tests
          ∙ ground (
            arith,
            every_third rules sender k t,
            target_third state_key content.member_fields k t,
          )),
    )
