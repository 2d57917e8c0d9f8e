-- ===== src/Resolve/Mainline/Sorted.antt =====
-- The sort of `mainline_sort`: by depth, then by timestamp, then by id.
use mathlib.Core.List.{Perm}
use mathlib.Core.List.Perm
use cinquain.Prelude.{
  ◌≡◌, true, false, List, [], ◌∷◌, arith, map, Bool-cases, inl, inr, All, insert_new, ◌<◌, ◌⊎◌,
  string_eq,
}
use cinquain.Prelude.Order.{text_le, text_total, text_trans}
use cinquain.Resolve.Mainline.{Position, put_position, position_le, insert_position, sort_positions}

position_le_total : (p q : Position) → position_le p q ≡ false → position_le q p ≡ true
unfolding position_le
position_le_total p q h = ground (arith, text_total p.event_id q.event_id)

position_le_trans :
    (p q r : Position) → position_le p q ≡ true → position_le q r ≡ true → position_le p r ≡ true
unfolding position_le
position_le_trans p q r h k = ground (arith, text_trans p.event_id q.event_id r.event_id)

abbrev pub IsFirst : Position → List Position → Type 0
IsFirst p qs = All (λ q. position_le p q ≡ true) qs

-- Each position is at most every one behind it.
abbrev pub IsSorted : List Position → Type 0
IsSorted [] = Unit
IsSorted (p ∷ ps) = IsFirst p ps × IsSorted ps

IsFirst-trans :
    (p q : Position) (ps : List Position) → position_le p q ≡ true → IsFirst q ps → IsFirst p ps
IsFirst-trans p q [] h f = tt
IsFirst-trans p q (r ∷ ps) h f = (position_le_trans p q r h f.0, IsFirst-trans p q ps h f.1)

IsFirst-insert_position :
    (p q : Position) (ps : List Position)
    → position_le p q ≡ true
    → IsFirst p ps
    → IsFirst p (insert_position q ps)
unfolding insert_position
IsFirst-insert_position p q [] h f = (h, tt)
IsFirst-insert_position p q (r ∷ ps) h f = elim (Bool-cases (position_le q r)) [
  | inl e ↦ rw e (h, f)
  | inr e ↦ rw e (f.0, IsFirst-insert_position p q ps h f.1)
]

insert_position-IsSorted :
    (p : Position) (ps : List Position) → IsSorted ps → IsSorted (insert_position p ps)
unfolding insert_position
insert_position-IsSorted p [] s = (tt, tt)
insert_position-IsSorted p (q ∷ ps) s = elim (Bool-cases (position_le p q)) [
  | inl e ↦ rw e ((e, IsFirst-trans p q ps e s.0), s)
  | inr e ↦ rw e (
    IsFirst-insert_position q p ps (position_le_total p q e) s.0,
    insert_position-IsSorted p ps s.1,
  )
]

pub sort_positions-IsSorted : (ps : List Position) → IsSorted (sort_positions ps)
unfolding sort_positions
sort_positions-IsSorted [] = tt
sort_positions-IsSorted (p ∷ ps) =
    insert_position-IsSorted p (sort_positions ps) (sort_positions-IsSorted ps)

insert_position-perm : (p : Position) (ps : List Position) → Perm (insert_position p ps) (p ∷ ps)
unfolding insert_position
insert_position-perm p [] = Perm.refl (p ∷ [])
insert_position-perm p (q ∷ ps) = elim (Bool-cases (position_le p q)) [
  | inl e ↦ rw e (Perm.refl (p ∷ q ∷ ps))
  | inr e ↦ rw e (Perm.trans (Perm.cons q (insert_position-perm p ps)) (Perm.swap p q ps))
]

pub sort_positions-perm : (ps : List Position) → Perm (sort_positions ps) ps
unfolding sort_positions
sort_positions-perm [] = Perm.refl []
sort_positions-perm (p ∷ ps) =
    Perm.trans (insert_position-perm p (sort_positions ps)) (Perm.cons p (sort_positions-perm ps))

pub ids-put_position :
    (p : Position) (found : List Position)
    → map (λ (q : Position). q.event_id) (put_position p found)
      ≡ insert_new p.event_id (map (λ (q : Position). q.event_id) found)
unfolding put_position insert_new
ids-put_position p found = ground arith

-- By depth, then by timestamp, then by id.
abbrev pub Precedes : Position → Position → Type 0
Precedes p q =
    (p.depth < q.depth)
    ⊎ ((p.depth ≡ q.depth)
        × ((p.origin_server_ts < q.origin_server_ts)
            ⊎ ((p.origin_server_ts ≡ q.origin_server_ts) × (text_le p.event_id q.event_id ≡ true))))

position_le-Precedes : (p q : Position) → position_le p q ≡ true → Precedes p q
unfolding position_le
position_le-Precedes p q h = ground arith

abbrev pub InOrder : List Position → Type 0
InOrder [] = Unit
InOrder (p ∷ ps) = All (Precedes p) ps × InOrder ps

IsFirst-Precedes : (p : Position) (ps : List Position) → IsFirst p ps → All (Precedes p) ps
IsFirst-Precedes p [] f = tt
IsFirst-Precedes p (q ∷ ps) f = (position_le-Precedes p q f.0, IsFirst-Precedes p ps f.1)

pub IsSorted-InOrder : (ps : List Position) → IsSorted ps → InOrder ps
IsSorted-InOrder [] s = tt
IsSorted-InOrder (p ∷ ps) s = (IsFirst-Precedes p ps s.0, IsSorted-InOrder ps s.1)
