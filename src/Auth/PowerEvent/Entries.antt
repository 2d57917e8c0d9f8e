-- ===== src/Auth/PowerEvent/Entries.antt =====
-- What `check_power_levels` lets through for each listed user and each listed event type.
use cinquain.Prelude.{
  String, ◌≡◌, ◌↔◌, true, false, Option, none, some, List, ◌++◌, ◌==◌, string_eq, option_eq, int_eq,
  ℤ, leℤ, contains, to_set, all, contains-to_set, contains-append, all_elim, all_intro, arith,
  Bool-cases, inl, inr, ◌∙◌,
}
use cinquain.Prelude.Map
use cinquain.Matrix.{PowerLevels}
use cinquain.Auth.PowerEvent.{user_passes, event_passes}

abbrev pub AtMost : Option ℤ → ℤ → Type 0
AtMost none limit = Unit
AtMost (some level) limit = leℤ level limit ≡ true

-- A sender of level `limit` may change the level of `user` from `old` to `new`.
pub record UserAllowed (old new : Option ℤ) (user sender : String) (limit : ℤ)
    (creators : List String) : Type 0 where
  pub no_creator : contains creators user ≡ true → new ≡ none
  pub old_within : (old == new) ≡ false → AtMost old limit
  pub new_within : (old == new) ≡ false → AtMost new limit
  pub not_equal : (old == new) ≡ false → (user == sender) ≡ false → (old == some limit) ≡ false

pub record EventAllowed (old new : Option ℤ) (limit : ℤ) : Type 0 where
  pub old_within : (old == new) ≡ false → AtMost old limit
  pub new_within : (old == new) ≡ false → AtMost new limit

module _ (old_state new_state : PowerLevels) (sender : String) (limit : ℤ)
    (creators : List String) where
  user_passes-allows :
      (user : String)
      → user_passes old_state new_state sender limit creators user ≡ true
      → UserAllowed
          (Map.get user old_state.users)
          (Map.get user new_state.users)
          user
          sender
          limit
          creators
  unfolding user_passes
  user_passes-allows user h = ground arith

  user_passes_complete :
      (user : String)
      → UserAllowed
          (Map.get user old_state.users)
          (Map.get user new_state.users)
          user
          sender
          limit
          creators
      → user_passes old_state new_state sender limit creators user ≡ true
  unfolding user_passes
  user_passes_complete user h =
      ground (arith, h.no_creator, h.old_within, h.new_within, h.not_equal)

  user_passes_absent :
      (user : String)
      → contains (Map.keys old_state.users ++ Map.keys new_state.users) user ≡ false
      → user_passes old_state new_state sender limit creators user ≡ true
  unfolding user_passes
  user_passes_absent user h = ground (
    arith,
    contains-append (Map.keys old_state.users) (Map.keys new_state.users) user,
    Map.get-of_not_key user old_state.users,
    Map.get-of_not_key user new_state.users,
  )

  pub users_pass_iff :
      (all
          (user_passes old_state new_state sender limit creators)
          (to_set (Map.keys old_state.users ++ Map.keys new_state.users))
        ≡ true)
      ↔ ((user : String)
          → UserAllowed
              (Map.get user old_state.users)
              (Map.get user new_state.users)
              user
              sender
              limit
              creators)
  users_pass_iff = (
    (λ h user.
        user_passes-allows user
          (elim (Bool-cases
            (contains (Map.keys old_state.users ++ Map.keys new_state.users) user)) [
              | inl e ↦ all_elim _ _ user h (contains-to_set _ user ∙ e)
              | inr e ↦ user_passes_absent user e
            ])),
    (λ h. all_intro _ _ (λ user k. user_passes_complete user (h user))),
  )

module _ (old_state new_state : PowerLevels) (limit : ℤ) where
  event_passes-allows :
      (ev_type : String)
      → event_passes old_state new_state limit ev_type ≡ true
      → EventAllowed (Map.get ev_type old_state.events) (Map.get ev_type new_state.events) limit
  unfolding event_passes
  event_passes-allows ev_type h = ground arith

  event_passes_complete :
      (ev_type : String)
      → EventAllowed (Map.get ev_type old_state.events) (Map.get ev_type new_state.events) limit
      → event_passes old_state new_state limit ev_type ≡ true
  unfolding event_passes
  event_passes_complete ev_type h = ground (arith, h.old_within, h.new_within)

  event_passes_absent :
      (ev_type : String)
      → contains (Map.keys old_state.events ++ Map.keys new_state.events) ev_type ≡ false
      → event_passes old_state new_state limit ev_type ≡ true
  unfolding event_passes
  event_passes_absent ev_type h = ground (
    arith,
    contains-append (Map.keys old_state.events) (Map.keys new_state.events) ev_type,
    Map.get-of_not_key ev_type old_state.events,
    Map.get-of_not_key ev_type new_state.events,
  )

  pub events_pass_iff :
      (all
          (event_passes old_state new_state limit)
          (to_set (Map.keys old_state.events ++ Map.keys new_state.events))
        ≡ true)
      ↔ ((ev_type : String)
          → EventAllowed
              (Map.get ev_type old_state.events)
              (Map.get ev_type new_state.events)
              limit)
  events_pass_iff = (
    (λ h ev_type.
        event_passes-allows ev_type
          (elim (Bool-cases
            (contains (Map.keys old_state.events ++ Map.keys new_state.events) ev_type)) [
              | inl e ↦ all_elim _ _ ev_type h (contains-to_set _ ev_type ∙ e)
              | inr e ↦ event_passes_absent ev_type e
            ])),
    (λ h. all_intro _ _ (λ ev_type k. event_passes_complete ev_type (h ev_type))),
  )
