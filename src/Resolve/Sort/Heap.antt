-- ===== src/Resolve/Sort/Heap.antt =====
-- The heap: what `pop` takes and what it leaves.
use cinquain.Prelude.{
  some-injective, ◌≡◌, true, false, some, List, [], ◌∷◌, arith, All, Bool-cases, inl, inr,
}
use mathlib.Core.Path.{subst}
use cinquain.Prelude.Order.{Ord}
use cinquain.Resolve.Sort.{TieBreaker, tie_le, pop_least, pop}

module _ {EventId : Type 0} ⦃o : Ord EventId⦄ where
  pop_least-All :
      (P : TieBreaker EventId → Type 0) (item : TieBreaker EventId)
      (heap : List (TieBreaker EventId))
      → P item
      → All P heap
      → P (pop_least item heap).0 × All P (pop_least item heap).1
  unfolding pop_least
  pop_least-All P item [] p a = (p, tt)
  pop_least-All P item (other ∷ heap) p a =
      let ih = pop_least-All P other heap a.0 a.1 in
      elim (Bool-cases (tie_le item (pop_least other heap).0)) [
        | inl e ↦ rw e (p, a)
        | inr e ↦ rw e (ih.0, (p, ih.1))
      ]

  All-pop_least :
      (P : TieBreaker EventId → Type 0) (item : TieBreaker EventId)
      (heap : List (TieBreaker EventId))
      → P (pop_least item heap).0
      → All P (pop_least item heap).1
      → P item × All P heap
  unfolding pop_least
  All-pop_least P item [] p a = (p, tt)
  All-pop_least P item (other ∷ heap) p a =
      elim (Bool-cases (tie_le item (pop_least other heap).0)) [
        | inl e ↦ (rw e at p, rw e at a)
        | inr e ↦
            let p' : P (pop_least other heap).0 = rw e at p in
            let a' : P item × All P (pop_least other heap).1 = rw e at a in
            (a'.0, All-pop_least P other heap p' a'.1)
      ]

  pub pop-All :
      (P : TieBreaker EventId → Type 0) (item : TieBreaker EventId)
      (heap rest : List (TieBreaker EventId))
      → All P heap
      → pop heap ≡ some (item, rest)
      → P item × All P rest
  unfolding pop
  pop-All P item [] rest a h = absurd (ground arith)
  pop-All P item (first ∷ heap) rest a h =
      subst (λ r. P r.0 × All P r.1) (some-injective h) (pop_least-All P first heap a.0 a.1)

  tie_le_total : (a b : TieBreaker EventId) → tie_le a b ≡ false → tie_le b a ≡ true
  unfolding tie_le
  tie_le_total a b h = ground (arith, o.total a.event_id b.event_id)

  tie_le_refl : (a : TieBreaker EventId) → tie_le a a ≡ true
  tie_le_refl a = elim (Bool-cases (tie_le a a)) [ inl e ↦ e | inr e ↦ tie_le_total a a e ]

  tie_le_trans :
      (a b c : TieBreaker EventId) → tie_le a b ≡ true → tie_le b c ≡ true → tie_le a c ≡ true
  unfolding tie_le
  tie_le_trans a b c h k = ground (arith, o.trans a.event_id b.event_id c.event_id)

  abbrev pub IsLeast : TieBreaker EventId → List (TieBreaker EventId) → Type 0
  IsLeast item heap = All (λ other. tie_le item other ≡ true) heap

  IsLeast-trans :
      (a b : TieBreaker EventId) (heap : List (TieBreaker EventId))
      → tie_le a b ≡ true
      → IsLeast b heap
      → IsLeast a heap
  IsLeast-trans a b [] h l = tt
  IsLeast-trans a b (c ∷ heap) h l = (tie_le_trans a b c h l.0, IsLeast-trans a b heap h l.1)

  pop_least-IsLeast :
      (item : TieBreaker EventId) (heap : List (TieBreaker EventId))
      → IsLeast (pop_least item heap).0 (pop_least item heap).1
  unfolding pop_least
  pop_least-IsLeast item [] = tt
  pop_least-IsLeast item (other ∷ heap) = elim (Bool-cases (tie_le item (pop_least other heap).0)) [
    | inl e ↦ rw e (
        All-pop_least (λ x. tie_le item x ≡ true) other heap e
          (IsLeast-trans item (pop_least other heap).0 (pop_least other heap).1 e
            (pop_least-IsLeast other heap)))
    | inr e ↦ rw e (tie_le_total item (pop_least other heap).0 e, pop_least-IsLeast other heap)
  ]

  -- What `pop` takes is a least item of what the heap held.
  pub pop-IsLeast :
      (item : TieBreaker EventId) (heap rest : List (TieBreaker EventId))
      → pop heap ≡ some (item, rest)
      → IsLeast item heap × IsLeast item rest
  unfolding pop
  pop-IsLeast item [] rest h = absurd (ground arith)
  pop-IsLeast item (first ∷ heap) rest h =
      let (l, r) = pop_least first heap in
      subst (λ t. IsLeast t.0 (first ∷ heap) × IsLeast t.0 t.1) (some-injective h)
        (
          All-pop_least (λ x. tie_le l x ≡ true) first heap (tie_le_refl l)
              (pop_least-IsLeast first heap),
          pop_least-IsLeast first heap,
        )
