-- ===== src/Rooms/Short/Inverse.antt =====
-- The two tables of short ids of a kind undo each other, and the counter bounds what they hold.
use cinquain.Prelude.{
  ℕ, suc, ◌≤◌, ◌<◌, ◌≡◌, none, some, Eq, ◌==◌, pair_eq, nat_eq, nat_beq_iff, arith, inl, inr,
  Bool-cases,
}
use cinquain.Prelude.Map
use cinquain.Core.Words.{u64_end}
use cinquain.Core.Bytes.{bytes_eq}
use cinquain.Rooms.Counter.{next_count}
use cinquain.Rooms.Short.{Pair}

pub record IsInverse {Key : Type 0} ⦃e : Eq Key⦄ (p : Pair Key) (bound : ℕ) : Type 0 where
  pub forth : (k : Key) (n : ℕ) → Map.get k p.short_of ≡ some n → Map.get n p.key_of ≡ some k
  pub back : (k : Key) (n : ℕ) → Map.get n p.key_of ≡ some k → Map.get k p.short_of ≡ some n
  pub bounded : (k : Key) (n : ℕ) → Map.get n p.key_of ≡ some k → n ≤ bound

pub next_count-suc : (n : ℕ) → suc n < u64_end → next_count n ≡ suc n
unfolding next_count
next_count-suc n l = ground arith

module _ {Key : Type 0} ⦃e : Eq Key⦄ where
  pub IsInverse-weaken : (p : Pair Key) (b c : ℕ) → b ≤ c → IsInverse p b → IsInverse p c
  IsInverse-weaken p b c l h = record {
    forth = h.forth;
    back = h.back;
    bounded = λ k n q. omega (arith, h.bounded k n q);
  }

  -- A key without a short id gets one that is above the bound.
  pub IsInverse-put :
      (p : Pair Key) (bound : ℕ) (key : Key)
      → Map.get key p.short_of ≡ none
      → IsInverse p bound
      → IsInverse
          (record {
            short_of = Map.insert key (suc bound) p.short_of;
            key_of = Map.insert (suc bound) key p.key_of;
          })
          (suc bound)
  IsInverse-put p bound key fresh h = record {
    forth = λ k n q. elim (Bool-cases (e.beq key k)) [
      | inl same ↦ ground (
        arith,
        Map.get-insert key k (suc bound) p.short_of,
        Map.get-insert (suc bound) n key p.key_of,
        e.beq_iff key k,
        nat_beq_iff (suc bound) n,
      )
      | inr other ↦
          let held : Map.get k p.short_of ≡ some n =
            ground (arith, Map.get-insert key k (suc bound) p.short_of) in
          let back = h.forth k n held in
          ground (
            arith,
            back,
            h.bounded k n back,
            Map.get-insert (suc bound) n key p.key_of,
            nat_beq_iff (suc bound) n,
          )
    ];
    back = λ k n q. elim (Bool-cases (suc bound == n)) [
      | inl same ↦ ground (
        arith,
        Map.get-insert key k (suc bound) p.short_of,
        Map.get-insert (suc bound) n key p.key_of,
        e.beq_iff key k,
        nat_beq_iff (suc bound) n,
      )
      | inr other ↦
          let held : Map.get n p.key_of ≡ some k =
            ground (arith, Map.get-insert (suc bound) n key p.key_of) in
          let forth = h.back k n held in
          ground (arith, forth, fresh, Map.get-insert key k (suc bound) p.short_of, e.beq_iff key k)
    ];
    bounded = λ k n q. elim (Bool-cases (suc bound == n)) [
      | inl same ↦ ground (arith, nat_beq_iff (suc bound) n)
      | inr other ↦
          let held : Map.get n p.key_of ≡ some k =
            ground (arith, Map.get-insert (suc bound) n key p.key_of) in
          omega (arith, h.bounded k n held)
    ];
  }
