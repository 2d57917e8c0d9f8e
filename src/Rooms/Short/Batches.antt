-- ===== src/Rooms/Short/Batches.antt =====
-- A chunk of event ids is looked up at once: `multi_get_or_create_shorteventid`.
use mathlib.Core.Path.{subst}
use cinquain.Prelude.{
  ℕ, ◌≡◌, refl, true, false, List, [], ◌∷◌, ◌==◌, nat_eq, arith, Option-cases, inl, inr, map,
  contains, distinct, beq_sym, ap,
}
use cinquain.Prelude.Map
use cinquain.Core.Errors.{Try}
use cinquain.Core.Bytes.{Bytes, bytes_eq}
use cinquain.Rooms.Counter.{next_count}
use cinquain.Rooms.Short.{
  Data, get_shorteventid, create_shorteventid, get_or_create_shorteventid, zip_create,
  multi_get_or_create_shorteventid,
}

-- The ids one after the other, each with its own lookup.
abbrev pub one_by_one : List Bytes → Data → List ℕ × Data
one_by_one [] d = ([], d)
one_by_one (event_id ∷ event_ids) d =
    let first = get_or_create_shorteventid event_id d in
    let rest = one_by_one event_ids first.1 in (first.0 ∷ rest.0, rest.1)

-- A new short id for an event leaves the lookups of the others as they are.
get_shorteventid-or_create :
    (event_id other : Bytes) (d : Data)
    → (event_id == other) ≡ false
    → get_shorteventid other (get_or_create_shorteventid event_id d).1 ≡ get_shorteventid other d
unfolding get_or_create_shorteventid get_shorteventid create_shorteventid
get_shorteventid-or_create event_id other d apart =
    elim (Option-cases (Map.get event_id d.eventids.short_of)) [
      | inl e ↦ rw e (
          ground (
            arith,
            Map.get-insert event_id other (next_count d.counter) d.eventids.short_of,
            apart,
          ))
      | inr (short, e) ↦ rw e refl
    ]

lookups-kept :
    (event_id : Bytes) (event_ids : List Bytes) (d : Data)
    → contains event_ids event_id ≡ false
    → map (λ id. get_shorteventid id (get_or_create_shorteventid event_id d).1) event_ids
      ≡ map (λ id. get_shorteventid id d) event_ids
unfolding contains
lookups-kept event_id [] d h = refl
lookups-kept event_id (other ∷ event_ids) d h =
    let apart =
      get_shorteventid-or_create event_id other d (ground (arith, beq_sym event_id other)) in
    let rest = lookups-kept event_id event_ids d (ground arith) in rw (apart, rest) refl

-- On a chunk that names no event twice, the lookups made at once give what lookups one by one give.
pub multi_get_or_create_shorteventid-one_by_one :
    (event_ids : List Bytes) (d : Data)
    → distinct event_ids ≡ true
    → multi_get_or_create_shorteventid event_ids d ≡ one_by_one event_ids d
unfolding multi_get_or_create_shorteventid zip_create distinct get_or_create_shorteventid
multi_get_or_create_shorteventid-one_by_one [] d h = refl
multi_get_or_create_shorteventid-one_by_one (event_id ∷ event_ids) d h =
    let first = get_or_create_shorteventid event_id d in
    let rest = multi_get_or_create_shorteventid-one_by_one event_ids first.1 (ground arith) in
    let kept = lookups-kept event_id event_ids d (ground arith) in
    let tail : zip_create event_ids (map (λ id. get_shorteventid id d) event_ids) first.1
        ≡ one_by_one event_ids first.1 =
      subst
        (λ (found : List (Try ℕ)).
          zip_create event_ids found first.1 ≡ one_by_one event_ids first.1)
        kept rest in
    ap (λ r. (first.0 ∷ r.0, r.1)) tail
