-- ===== src/Auth/Creators.antt =====
-- Who is a creator that the room privileges: a description apart from the code that works it out in
-- `auth_check`, in the check of power levels and in `valid_membership_change`.
use cinquain.Prelude.{
  String, ◌≡◌, ◌⊎◌, ◌↔◌, true, List, [], ◌∷◌, string_eq, contains, filter_map, insert_new, any,
  arith, inl, inr, contains-insert_new, Option-cases, Bool-cases,
}
use cinquain.Matrix.{ok, err, Raw, to_option, CreateFields, Pdu, RoomVersionRules}
use cinquain.Auth.Check.{
  names, is_privileged, collect_creators, flatten_creators, power_event_creators,
}
use cinquain.Auth.Membership.{room_creators}

-- The list names the user; what cannot be read names nobody.
abbrev pub Lists : List (Raw String) → String → Type 0
Lists [] user = ⊥
Lists (ok c ∷ rest) user = (c ≡ user) ⊎ Lists rest user
Lists (err e ∷ rest) user = Lists rest user

module _ (rules : RoomVersionRules) (content : CreateFields) (create_event : Pdu) where
  abbrev pub Privileged : String → Type 0
  Privileged user =
      (rules.authorization.explicitly_privilege_room_creators ≡ true)
      × ((create_event.sender ≡ user) ⊎ Lists (flatten_creators content.additional_creators) user)

any-Lists :
    (creators : List (Raw String)) (user : String)
    → (any (names user) creators ≡ true) ↔ Lists creators user
unfolding any
any-Lists [] user = ((λ h. cc), (λ h. absurd h))
any-Lists (ok c ∷ rest) user =
    let ih = any-Lists rest user in
    (
      (λ h. ground (arith, ih, string_eq.beq_iff c user)),
      (λ h. ground (arith, ih, string_eq.beq_iff c user)),
    )
any-Lists (err e ∷ rest) user = any-Lists rest user

filter_map-Lists :
    (creators : List (Raw String)) (user : String)
    → (contains (filter_map to_option creators) user ≡ true) ↔ Lists creators user
unfolding contains filter_map
filter_map-Lists [] user = ((λ h. cc), (λ h. absurd h))
filter_map-Lists (ok c ∷ rest) user =
    let ih = filter_map-Lists rest user in
    (
      (λ h. ground (arith, ih, string_eq.beq_iff c user)),
      (λ h. ground (arith, ih, string_eq.beq_iff c user)),
    )
filter_map-Lists (err e ∷ rest) user = filter_map-Lists rest user

collect_creators-Lists :
    (creators : List (Raw String)) (before after : List String) (user : String)
    → collect_creators creators before ≡ ok after
    → (contains after user ≡ true) ↔ ((contains before user ≡ true) ⊎ Lists creators user)
unfolding collect_creators
collect_creators-Lists [] before after user h =
    ((λ c. inl (ground arith)), (λ c. elim c [ inl i ↦ ground arith | inr i ↦ absurd i ]))
collect_creators-Lists (ok c ∷ rest) before after user h =
    let ih = collect_creators-Lists rest (insert_new c before) after user h in
    let new = contains-insert_new c user before in
    (
      (λ k. ground (arith, ih.0 k, new, string_eq.beq_iff c user)),
      (λ k. ih.1 (ground (arith, new, string_eq.beq_iff c user))),
    )
collect_creators-Lists (err e ∷ rest) before after user h = cc

module _ (rules : RoomVersionRules) (content : CreateFields) (create_event : Pdu) where
  -- In `auth_check`, for the sender's level.
  pub is_privileged_iff :
      (user : String)
      → (is_privileged rules content create_event user ≡ true)
        ↔ Privileged rules content create_event user
  unfolding is_privileged any
  is_privileged_iff user =
      let same = string_eq.beq_iff user create_event.sender in
      elim (Option-cases content.additional_creators) [
        | inl e ↦ ((λ h. ground (arith, same, e)), (λ h. ground (arith, same, e)))
        | inr (creators, e) ↦
            let named = any-Lists creators user in
            ((λ h. ground (arith, same, e, named)), (λ h. ground (arith, same, e, named)))
      ]

  -- In `auth_check`, for a power levels event.
  pub power_event_creators_iff :
      (creators : List String) (user : String)
      → power_event_creators rules content create_event ≡ ok creators
      → (contains creators user ≡ true) ↔ Privileged rules content create_event user
  unfolding power_event_creators contains
  power_event_creators_iff creators user h =
      elim (Bool-cases rules.authorization.explicitly_privilege_room_creators) [
        | inl e ↦
            let same = string_eq.beq_iff create_event.sender user in
            let found =
              collect_creators-Lists (flatten_creators content.additional_creators)
                (create_event.sender ∷ []) creators user (ground arith) in
            (
              (λ c. (e, ground (arith, found.0 c, same))),
              (λ p. found.1 (ground (arith, p.1, same))),
            )
        | inr e ↦ ((λ c. absurd (ground arith)), (λ p. absurd (ground (arith, p.0))))
      ]

  -- In `valid_membership_change`.
  pub room_creators_iff :
      (user : String)
      → rules.authorization.explicitly_privilege_room_creators ≡ true
      → (contains (room_creators rules create_event content) user ≡ true)
        ↔ Privileged rules content create_event user
  unfolding room_creators contains
  room_creators_iff user x =
      let same = string_eq.beq_iff create_event.sender user in
      elim (Option-cases content.additional_creators) [
        | inl e ↦ ((λ h. ground (arith, same, e)), (λ h. ground (arith, same, e)))
        | inr (creators, e) ↦
            let named = filter_map-Lists creators user in
            ((λ h. ground (arith, same, e, named)), (λ h. ground (arith, same, e, named)))
      ]
