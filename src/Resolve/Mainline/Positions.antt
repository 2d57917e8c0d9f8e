-- ===== src/Resolve/Mainline/Positions.antt =====
-- The result of `mainline_sort` is in order, and holds once each event that has a position.
use mathlib.Core.List.{Perm}
use mathlib.Core.Path.{subst}
use cinquain.Prelude.{
  ℕ, String, ◌≡◌, true, false, Option, List, [], ◌∷◌, arith, map, is_empty, Bool-cases, inl, inr,
  All, some, contains, string_eq, refl, Option-cases, distinct, distinct-insert_new,
  contains-insert_new, ◌==◌, ◌∙◌, sym, ◌≢◌, some-injective,
}
use cinquain.Resolve.Mainline.Depths.{Positioned, get_mainline_depth-DepthIs}
use cinquain.Resolve.Runs.{Run, done, failed, out_of_fuel, >>=-eq-done, done-injective}
use cinquain.Matrix.{Pdu}
use cinquain.Resolve.Events.{Fetch}
use cinquain.Resolve.Mainline.{
  Position, put_position, get_mainline_depth, keep_done, sort_positions, mainline, mainline_map,
  positions, mainline_sort,
}
use cinquain.Resolve.Mainline.Sorted.{
  InOrder, ids-put_position, sort_positions-perm, sort_positions-IsSorted, IsSorted-InOrder,
}

-- Each event that can be fetched and has a depth has one position, with its timestamp and depth.
abbrev Places : Fetch → List (String × ℕ) → ℕ → List String → List Position → Type 0
Places fetch depths fuel to_sort found =
    (id : String) (ev : Pdu) (depth : ℕ)
    → contains to_sort id ≡ true
    → fetch id ≡ some ev
    → get_mainline_depth fetch depths fuel (some ev) ≡ done depth
    → contains (map (λ (p : Position). p.event_id) found) id ≡ true

put_position-All :
    (P : Position → Type 0) (p : Position) (ps : List Position)
    → P p
    → All P ps
    → All P (put_position p ps)
unfolding put_position
put_position-All P p ps h a =
    elim (Bool-cases (contains (map (λ (q : Position). q.event_id) ps) p.event_id)) [
      | inl e ↦ rw e a
      | inr e ↦ rw e (h, a)
    ]

-- What a list of positions says of the events to sort.
abbrev pub PositionsAre : Fetch → List String → ℕ → List String → List Position → Type 0
PositionsAre fetch line fuel to_sort found =
    All (Positioned fetch line) found
    × (distinct (map (λ (p : Position). p.event_id) found) ≡ true)
    × Places fetch (mainline_map line) fuel to_sort found

module _ (fetch : Fetch) (line : List String) (fuel : ℕ) where
  put_position-PositionsAre :
      (to_sort : List String) (found : List Position) (id : String) (event : Pdu) (depth : ℕ)
      → fetch id ≡ some event
      → get_mainline_depth fetch (mainline_map line) fuel (some event) ≡ done depth
      → PositionsAre fetch line fuel to_sort found
      → PositionsAre fetch line fuel (id ∷ to_sort) (
          put_position
            (record { depth = depth; origin_server_ts = event.origin_server_ts; event_id = id })
            found)
  unfolding contains
  put_position-PositionsAre to_sort found id event depth e d a =
      let p : Position = record {
        depth = depth;
        origin_server_ts = event.origin_server_ts;
        event_id = id;
      } in
      let ids = map (λ (q : Position). q.event_id) found in
      let put = ids-put_position p found in
      (
        put_position-All (Positioned fetch line) p found
            (record {
              event = event;
              fetched = e;
              timestamp = refl;
              at_depth = get_mainline_depth-DepthIs fetch line fuel (some event) depth d;
            })
            a.0,
        rw put (distinct-insert_new id ids a.1),
        (λ other ev n c f g.
            rw put (ground (arith, contains-insert_new id other ids, a.2 other ev n))),
      )

  -- An event without a position: the others are as they were.
  skip-PositionsAre :
      (to_sort : List String) (found : List Position) (id : String)
      → ((ev : Pdu) (depth : ℕ)
          → fetch id ≡ some ev
          → get_mainline_depth fetch (mainline_map line) fuel (some ev) ≢ done depth)
      → PositionsAre fetch line fuel to_sort found
      → PositionsAre fetch line fuel (id ∷ to_sort) found
  unfolding contains
  skip-PositionsAre to_sort found id n a = (
    a.0,
    a.1,
    (λ other ev depth c f g. elim (Bool-cases (id == other)) [
      | inl q ↦
          let same : other ≡ id = sym ((string_eq.beq_iff id other).0 q) in
          absurd (n ev depth (subst (λ (x : String). fetch x ≡ some ev) same f) g)
      | inr q ↦ a.2 other ev depth (ground arith) f g
    ]),
  )

  keep_done-PositionsAre :
      (to_sort : List String) (rest : Run (List Position)) (found : List Position) (id : String)
      (event : Pdu) (depth : Run ℕ)
      → fetch id ≡ some event
      → get_mainline_depth fetch (mainline_map line) fuel (some event) ≡ depth
      → ((mid : List Position) → rest ≡ done mid → PositionsAre fetch line fuel to_sort mid)
      → keep_done id event depth rest ≡ done found
      → PositionsAre fetch line fuel (id ∷ to_sort) found
  keep_done-PositionsAre to_sort rest found id event (done depth) e d ih h =
      let (mid, m, ends) =
        >>=-eq-done rest
          (λ (ps : List Position). done (
            put_position
              (record { depth = depth; origin_server_ts = event.origin_server_ts; event_id = id })
              ps))
          h in
      subst (PositionsAre fetch line fuel (id ∷ to_sort)) (done-injective ends)
        (put_position-PositionsAre to_sort mid id event depth e d (ih mid m))
  keep_done-PositionsAre to_sort rest found id event (failed x) e d ih h =
      skip-PositionsAre to_sort found id
        (λ ev depth f g.
          let same : ev ≡ event = some-injective (sym f ∙ e) in
          let again =
            subst
              (λ (v : Pdu). get_mainline_depth fetch (mainline_map line) fuel (some v) ≡ done depth)
              same g in
          cc (again, d))
        (ih found h)
  keep_done-PositionsAre to_sort rest found id event out_of_fuel e d ih h = cc

  positions-PositionsAre :
      (to_sort : List String) (found : List Position)
      → positions fetch (mainline_map line) fuel to_sort ≡ done found
      → PositionsAre fetch line fuel to_sort found
  unfolding positions contains distinct
  positions-PositionsAre [] found h =
      subst (PositionsAre fetch line fuel []) (done-injective h)
        (tt, refl, (λ id ev depth c. absurd (ground arith)))
  positions-PositionsAre (id ∷ to_sort) found h = elim (Option-cases (fetch id)) [
    | inl e ↦
        skip-PositionsAre to_sort found id (λ ev depth f. absurd (ground arith))
          (positions-PositionsAre to_sort found (ground arith))
    | inr (event, e) ↦
        keep_done-PositionsAre to_sort (positions fetch (mainline_map line) fuel to_sort) found id
          event (get_mainline_depth fetch (mainline_map line) fuel (some event)) e refl
          (positions-PositionsAre to_sort) (sym (rw (positions, e) refl) ∙ h)
  ]

  pub mainline_sort-InOrder :
      (to_sort ids : List String) (power : Option String)
      → is_empty to_sort ≡ false
      → mainline fetch fuel power ≡ done line
      → mainline_sort fetch fuel to_sort power ≡ done ids
      → (found sorted : List Position) × PositionsAre fetch line fuel to_sort found
        × Perm sorted found
        × InOrder sorted
        × (map (λ p. p.event_id) sorted ≡ ids)
  unfolding mainline_sort
  mainline_sort-InOrder to_sort ids power n l h =
      let (found, placed, ends) =
        >>=-eq-done (positions fetch (mainline_map line) fuel to_sort)
          (λ f. done (map (λ (p : Position). p.event_id) (sort_positions f))) (rw (n, l) at h) in
      (
        found,
        sort_positions found,
        positions-PositionsAre to_sort found placed,
        sort_positions-perm found,
        IsSorted-InOrder (sort_positions found) (sort_positions-IsSorted found),
        done-injective ends,
      )
