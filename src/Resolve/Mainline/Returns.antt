-- ===== src/Resolve/Mainline/Returns.antt =====
-- Enough fuel for the mainline: on events whose auth events form no cycle, the sort returns.
use mathlib.Core.List.{Perm}
use mathlib.Core.List.Perm
use mathlib.Core.Path.{subst}
use cinquain.Prelude.{
  ℕ, zero, suc, String, ◌≡◌, ◌<◌, refl, ap, Option, none, some, List, [], ◌∷◌, arith, map, keep,
  to_set, insert_new, ◌∙◌, string_eq, Bool-cases, Option-cases, inl, inr, All,
}
use cinquain.Prelude.Map
use cinquain.Matrix.{Pdu, room_power_levels}
use cinquain.Auth.Levels.{is_some}
use cinquain.Resolve.Runs.{done}
use cinquain.Resolve.Events.{Fetch, is_type_and_key}
use cinquain.Resolve.Mainline.{
  find_power_levels, next_id, next_event, mainline, mainline_map, get_mainline_depth, Position,
  put_position, positions, sort_positions, mainline_sort,
}
use cinquain.Resolve.Mainline.Sorted.{sort_positions-perm, ids-put_position}

module _ (fetch : Fetch) (rank : String → ℕ) where
  -- `id` is fetched, and stands below `limit`.
  abbrev pub IsBelow : ℕ → String → Type 0
  IsBelow limit id = (ev : Pdu) × (fetch id ≡ some ev) × (rank id < limit)

  -- All auth events of an event that is fetched are fetched, and stand below it.
  abbrev pub Descends : Type 0
  Descends = (id : String) (ev : Pdu) → fetch id ≡ some ev → All (IsBelow (rank id)) ev.auth_events

  -- What a search among auth events below `limit` finds.
  FoundBelow : ℕ → Option (String × Pdu) → Type 0
  FoundBelow limit none = Unit
  FoundBelow limit (some (aid, ev)) = (fetch aid ≡ some ev) × (rank aid < limit)

  find_power_levels-returns :
      (limit : ℕ) (aids : List String)
      → All (IsBelow limit) aids
      → (found : Option (String × Pdu)) × (find_power_levels fetch aids ≡ done found)
        × FoundBelow limit found
  unfolding find_power_levels FoundBelow
  find_power_levels-returns limit [] a = (none, refl, tt)
  find_power_levels-returns limit (aid ∷ aids) ((ev, e, l), a) =
      elim (Bool-cases (is_type_and_key ev room_power_levels "")) [
        | inl q ↦ (some (aid, ev), ground arith, (e, l))
        | inr q ↦
            let (found, f, below) = find_power_levels-returns limit aids a in
            (found, ground arith, below)
      ]

  module _ (descends : Descends) where
    -- The mainline returns from each event below the fuel.
    abbrev MainlineReturns : ℕ → Type 0
    MainlineReturns fuel =
        (p : String)
        → IsBelow fuel p
        → (line : List String) × (mainline fetch fuel (some p) ≡ done line)

    mainline-next_id :
        (fuel limit : ℕ) (found : Option (String × Pdu))
        → MainlineReturns fuel
        → limit < suc fuel
        → FoundBelow limit found
        → (line : List String) × (mainline fetch fuel (next_id found) ≡ done line)
    unfolding mainline FoundBelow
    mainline-next_id zero limit none ih l b = ([], refl)
    mainline-next_id (suc fuel) limit none ih l b = ([], refl)
    mainline-next_id fuel limit (some (aid, ev)) ih l (e, b) = ih aid (ev, e, omega arith)

    mainline-returns : (fuel : ℕ) → MainlineReturns fuel
    unfolding mainline
    mainline-returns zero p (ev, e, l) = absurd (omega arith)
    mainline-returns (suc fuel) p (ev, e, l) =
        let (found, f, below) =
          find_power_levels-returns (rank p) ev.auth_events (descends p ev e) in
        let (line, r) = mainline-next_id fuel (rank p) found (mainline-returns fuel) l below in
        (p ∷ line, rw e (rw f (rw r refl)))

    module _ (depths : List (String × ℕ)) where
      abbrev DepthReturns : ℕ → Type 0
      DepthReturns fuel =
          (id : String) (ev : Pdu)
          → fetch id ≡ some ev
          → rank id < fuel
          → (depth : ℕ) × (get_mainline_depth fetch depths fuel (some ev) ≡ done depth)

      depth-next_event :
          (fuel limit : ℕ) (found : Option (String × Pdu))
          → DepthReturns fuel
          → limit < suc fuel
          → FoundBelow limit found
          → (depth : ℕ) × (get_mainline_depth fetch depths fuel (next_event found) ≡ done depth)
      unfolding get_mainline_depth FoundBelow
      depth-next_event zero limit none ih l b = (0, refl)
      depth-next_event (suc fuel) limit none ih l b = (0, refl)
      depth-next_event fuel limit (some (aid, ev)) ih l (e, b) = ih aid ev e (omega arith)

      get_mainline_depth-returns : (fuel : ℕ) → DepthReturns fuel
      unfolding get_mainline_depth
      get_mainline_depth-returns zero id ev e l = absurd (omega arith)
      get_mainline_depth-returns (suc fuel) id ev e l =
          elim (Option-cases (Map.get ev.event_id depths)) [
            | inr (depth, d) ↦ (depth, rw (get_mainline_depth, d) refl)
            | inl d ↦
                let (found, f, below) =
                  find_power_levels-returns (rank id) ev.auth_events (descends id ev e) in
                let (depth, r) =
                  depth-next_event fuel (rank id) found (get_mainline_depth-returns fuel) l below in
                (depth, rw (get_mainline_depth, d, f) r)
          ]

      -- Each event that can be fetched has one position, however often it is listed.
      positions-returns :
          (fuel : ℕ) (ids : List String)
          → All (λ id. rank id < fuel) ids
          → (found : List Position) × (positions fetch depths fuel ids ≡ done found)
            × (map (λ p. p.event_id) found ≡ to_set (keep (λ id. is_some (fetch id)) ids))
      unfolding positions keep to_set insert_new put_position
      positions-returns fuel [] a = ([], refl, refl)
      positions-returns fuel (id ∷ ids) (l, a) =
          let (found, f, m) = positions-returns fuel ids a in
          elim (Option-cases (fetch id)) [
            | inl e ↦ (found, rw (positions, e) f, rw (keep, e) m)
            | inr (ev, e) ↦
                let (depth, d) = get_mainline_depth-returns fuel id ev e l in
                let p : Position = record {
                  depth = depth;
                  origin_server_ts = ev.origin_server_ts;
                  event_id = id;
                } in
                (
                  put_position p found,
                  rw (positions, e, d, f) refl,
                  rw (keep, e) (ids-put_position p found ∙ ap (insert_new id) m),
                )
          ]

    abbrev pub PowerBelow : ℕ → Option String → Type 0
    PowerBelow fuel none = Unit
    PowerBelow fuel (some p) = IsBelow fuel p

    mainline_power-returns :
        (fuel : ℕ) (power : Option String)
        → PowerBelow fuel power
        → (line : List String) × (mainline fetch fuel power ≡ done line)
    unfolding mainline
    mainline_power-returns zero none b = ([], refl)
    mainline_power-returns (suc fuel) none b = ([], refl)
    mainline_power-returns fuel (some p) b = mainline-returns fuel p b

    -- On events whose auth events can be fetched and form no cycle, which a rank below the fuel tells,
    -- the mainline sort returns, and its result is a rearrangement of the events to sort that can be
    -- fetched, each once.
    pub mainline_sort-returns :
        (fuel : ℕ) (to_sort : List String) (power : Option String)
        → PowerBelow fuel power
        → All (λ id. rank id < fuel) to_sort
        → (ids : List String) × (mainline_sort fetch fuel to_sort power ≡ done ids)
          × Perm ids (to_set (keep (λ id. is_some (fetch id)) to_sort))
    unfolding mainline_sort keep to_set
    mainline_sort-returns fuel [] power b a = ([], refl, Perm.refl [])
    mainline_sort-returns fuel (id ∷ to_sort) power b a =
        let (line, l) = mainline_power-returns fuel power b in
        let (found, f, m) = positions-returns (mainline_map line) fuel (id ∷ to_sort) a in
        (
          map (λ p. p.event_id) (sort_positions found),
          rw l (rw f refl),
          subst (Perm (map (λ p. p.event_id) (sort_positions found))) m
              (Perm.map (λ (p : Position). p.event_id) (sort_positions-perm found)),
        )
