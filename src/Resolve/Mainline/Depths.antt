-- ===== src/Resolve/Mainline/Depths.antt =====
-- The depth of an event under the mainline, described apart from `get_mainline_depth`.
use mathlib.Core.Path.{subst}
use cinquain.Prelude.{
  ℕ, zero, suc, String, ◌≡◌, ◌⊎◌, ◌↔◌, refl, sym, ap, ◌∙◌, true, false, Option, none, some, List,
  [], ◌∷◌, ◌++◌, ◌==◌, string_eq, option_eq, contains, length, arith, Bool-cases, Option-cases, inl,
  inr,
}
use cinquain.Prelude.Map
use cinquain.Matrix.{Pdu, room_power_levels}
use cinquain.Resolve.Runs.{done, >>=-eq-done, done-injective}
use cinquain.Resolve.Events.{Fetch, is_type_and_key}
use cinquain.Resolve.Mainline.{
  Position, find_power_levels, next_event, mainline_map, get_mainline_depth,
}

module _ (fetch : Fetch) (line : List String) where
  -- The first auth event that is a power levels event, all before it being fetched.
  abbrev pub NextIs : List String → Option Pdu → Type 0
  NextIs [] found = found ≡ none
  NextIs (aid ∷ aids) found =
      (ev : Pdu) × (fetch aid ≡ some ev)
      × (((ev.kind ≡ room_power_levels) × (ev.state_key ≡ some "") × (found ≡ some ev))
          ⊎ ((¬ ((ev.kind ≡ room_power_levels) × (ev.state_key ≡ some ""))) × NextIs aids found))

  -- The depth of an event: 0 without a way along power levels events to the mainline, and else how
  -- many events of the mainline are older than the first one on the way.
  pub data DepthIs : Option Pdu → ℕ → Type 0 where
    root : DepthIs none 0
    on_line :
        (ev : Pdu) (newer older : List String)
        → line ≡ newer ++ ev.event_id ∷ older
        → contains newer ev.event_id ≡ false
        → DepthIs (some ev) (length older)
    above :
        (ev : Pdu) (next : Option Pdu) (depth : ℕ)
        → contains line ev.event_id ≡ false
        → NextIs ev.auth_events next
        → DepthIs next depth
        → DepthIs (some ev) depth

  -- The position has the event's timestamp and depth.
  pub record Positioned (p : Position) : Type 0 where
    pub event : Pdu
    pub fetched : fetch p.event_id ≡ some event
    pub timestamp : p.origin_server_ts ≡ event.origin_server_ts
    pub at_depth : DepthIs (some event) p.depth

  some_empty : (key : Option String) → (key == some "" ≡ true) ↔ (key ≡ some "")
  some_empty none = ((λ h. cc), (λ h. cc))
  some_empty (some k) =
      let same = string_eq.beq_iff k "" in
      ((λ h. ground (arith, same)), (λ h. ground (arith, same)))

  find_power_levels-NextIs :
      (aids : List String) (found : Option (String × Pdu))
      → find_power_levels fetch aids ≡ done found
      → NextIs aids (next_event found)
  unfolding find_power_levels is_type_and_key
  find_power_levels-NextIs [] found h = cc
  find_power_levels-NextIs (aid ∷ aids) found h = elim (Option-cases (fetch aid)) [
    | inl e ↦ absurd (ground arith)
    | inr (ev, e) ↦ elim (Bool-cases (is_type_and_key ev room_power_levels "")) [
      | inl k ↦ (
        ev,
        e,
        inl (
          ground (arith, string_eq.beq_iff ev.kind room_power_levels),
          ground (arith, some_empty ev.state_key),
          ground arith,
        ),
      )
      | inr k ↦ (
        ev,
        e,
        inr (
          (λ both. absurd (
              ground (
                arith,
                both.0,
                both.1,
                string_eq.beq_iff ev.kind room_power_levels,
                some_empty ev.state_key,
              ))),
          find_power_levels-NextIs aids found (ground arith),
        ),
      )
    ]
  ]

  mainline_map-found :
      (ids : List String) (id : String) (depth : ℕ)
      → Map.get id (mainline_map ids) ≡ some depth
      → (newer : List String) × (older : List String) × (ids ≡ newer ++ id ∷ older)
        × (contains newer id ≡ false)
        × (depth ≡ length older)
  unfolding mainline_map Map.get contains
  mainline_map-found [] id depth h = cc
  mainline_map-found (p ∷ ids) id depth h = elim (Bool-cases (p == id)) [
    | inl q ↦ ([], ids, ap (λ x. x ∷ ids) ((string_eq.beq_iff p id).0 q), refl, ground arith)
    | inr q ↦
        let (newer, older, e, c, d) = mainline_map-found ids id depth (ground arith) in
        (p ∷ newer, older, ap (λ xs. p ∷ xs) e, ground arith, d)
  ]

  mainline_map-absent :
      (ids : List String) (id : String)
      → Map.get id (mainline_map ids) ≡ none
      → contains ids id ≡ false
  unfolding mainline_map Map.get contains
  mainline_map-absent [] id h = refl
  mainline_map-absent (p ∷ ids) id h = ground (arith, mainline_map-absent ids id)

  pub get_mainline_depth-DepthIs :
      (fuel : ℕ) (event : Option Pdu) (depth : ℕ)
      → get_mainline_depth fetch (mainline_map line) fuel event ≡ done depth
      → DepthIs event depth
  unfolding get_mainline_depth
  get_mainline_depth-DepthIs zero none depth h = subst (DepthIs none) (done-injective h) root
  get_mainline_depth-DepthIs (suc fuel) none depth h = subst (DepthIs none) (done-injective h) root
  get_mainline_depth-DepthIs zero (some ev) depth h = cc
  get_mainline_depth-DepthIs (suc fuel) (some ev) depth h =
      elim (Option-cases (Map.get ev.event_id (mainline_map line))) [
        | inr (found, g) ↦
            let (newer, older, e, c, d) = mainline_map-found line ev.event_id found g in
            let same : length older ≡ depth = ground arith in
            subst (DepthIs (some ev)) same (on_line ev newer older e c)
        | inl g ↦
            let (found, f, rest) =
              >>=-eq-done (find_power_levels fetch ev.auth_events)
                (λ x. get_mainline_depth fetch (mainline_map line) fuel (next_event x))
                (sym (rw (get_mainline_depth, g) refl) ∙ h) in
            above ev (next_event found) depth (mainline_map-absent line ev.event_id g)
              (find_power_levels-NextIs ev.auth_events found f)
              (get_mainline_depth-DepthIs fuel (next_event found) depth rest)
      ]
