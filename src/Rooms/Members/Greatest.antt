-- ===== src/Rooms/Members/Greatest.antt =====
-- What the sorted servers of an invite end with: the greatest in the order of bytes.
use mathlib.Core.Path.{subst}
use cinquain.Prelude.{
  ◌≡◌, refl, true, false, some, some-injective, List, [], ◌∷◌, ◌==◌, contains, nat_beq_iff, All,
  Bool-cases, inl, inr, arith,
}
use cinquain.Core.Bytes.{Bytes, bytes_eq, bytes_beq_iff, comes_before}
use cinquain.Rooms.Members.Via.{last, put_sorted, sort_dedup}

comes_before_irreflexive : (a : Bytes) → comes_before a a ≡ false
unfolding comes_before
comes_before_irreflexive [] = refl
comes_before_irreflexive (b ∷ a) = ground (arith, comes_before_irreflexive a)

comes_before_trans :
    (a b c : Bytes) → comes_before a b ≡ true → comes_before b c ≡ true → comes_before a c ≡ true
unfolding comes_before
comes_before_trans [] [] c h k = cc
comes_before_trans [] (y ∷ b) [] h k = cc
comes_before_trans [] (y ∷ b) (z ∷ c) h k = refl
comes_before_trans (x ∷ a) [] c h k = cc
comes_before_trans (x ∷ a) (y ∷ b) [] h k = cc
comes_before_trans (x ∷ a) (y ∷ b) (z ∷ c) h k =
    ground (arith, comes_before_trans a b c, nat_beq_iff x y, nat_beq_iff y z, nat_beq_iff x z)

comes_before_asymmetric : (a b : Bytes) → comes_before a b ≡ true → comes_before b a ≡ false
comes_before_asymmetric a b h = elim (Bool-cases (comes_before b a)) [
  | inl k ↦ absurd (ground (arith, comes_before_trans a b a h k, comes_before_irreflexive a))
  | inr k ↦ k
]

comes_before_total :
    (a b : Bytes) → (a == b) ≡ false → comes_before a b ≡ false → comes_before b a ≡ true
unfolding comes_before
comes_before_total [] [] n h = cc
comes_before_total [] (y ∷ b) n h = cc
comes_before_total (x ∷ a) [] n h = refl
comes_before_total (x ∷ a) (y ∷ b) n h =
    ground (arith, comes_before_total a b, nat_beq_iff x y, nat_beq_iff y x)

-- Each server comes before all behind it.
abbrev pub Increases : List Bytes → Type 0
Increases [] = Unit
Increases (server ∷ servers) =
    All (λ (s : Bytes). comes_before server s ≡ true) servers × Increases servers

put_sorted-All :
    (a server : Bytes) (servers : List Bytes)
    → comes_before a server ≡ true
    → All (λ (s : Bytes). comes_before a s ≡ true) servers
    → All (λ (s : Bytes). comes_before a s ≡ true) (put_sorted server servers)
unfolding put_sorted
put_sorted-All a server [] h k = (h, tt)
put_sorted-All a server (next ∷ servers) h k = elim (Bool-cases (server == next)) [
  | inl e ↦ rw e k
  | inr e ↦ elim (Bool-cases (comes_before server next)) [
    | inl c ↦ rw (e, c) (h, k)
    | inr c ↦ rw (e, c) (k.0, put_sorted-All a server servers h k.1)
  ]
]

All-trans :
    (a b : Bytes) (servers : List Bytes)
    → comes_before a b ≡ true
    → All (λ (s : Bytes). comes_before b s ≡ true) servers
    → All (λ (s : Bytes). comes_before a s ≡ true) servers
All-trans a b [] h k = tt
All-trans a b (s ∷ servers) h k = (comes_before_trans a b s h k.0, All-trans a b servers h k.1)

put_sorted-Increases :
    (server : Bytes) (servers : List Bytes)
    → Increases servers
    → Increases (put_sorted server servers)
unfolding put_sorted
put_sorted-Increases server [] i = (tt, tt)
put_sorted-Increases server (next ∷ servers) i = elim (Bool-cases (server == next)) [
  | inl e ↦ rw e i
  | inr e ↦ elim (Bool-cases (comes_before server next)) [
    | inl c ↦ rw (e, c) ((c, All-trans server next servers c i.0), i)
    | inr c ↦
        rw (e, c)
          (
            put_sorted-All next server servers (comes_before_total server next e c) i.0,
            put_sorted-Increases server servers i.1,
          )
  ]
]

pub sort_dedup-Increases : (servers : List Bytes) → Increases (sort_dedup servers)
unfolding sort_dedup
sort_dedup-Increases [] = tt
sort_dedup-Increases (server ∷ servers) =
    put_sorted-Increases server (sort_dedup servers) (sort_dedup-Increases servers)

All-last :
    (a greatest : Bytes) (servers : List Bytes)
    → All (λ (s : Bytes). comes_before a s ≡ true) servers
    → last servers ≡ some greatest
    → comes_before a greatest ≡ true
unfolding last
All-last a greatest [] k l = cc
All-last a greatest (s ∷ []) k l =
    subst (λ (x : Bytes). comes_before a x ≡ true) (some-injective l) k.0
All-last a greatest (s ∷ t ∷ servers) k l = All-last a greatest (t ∷ servers) k.1 l

-- The last of increasing servers comes before none of them.
pub last-greatest :
    (servers : List Bytes) (greatest server : Bytes)
    → Increases servers
    → last servers ≡ some greatest
    → contains servers server ≡ true
    → comes_before greatest server ≡ false
unfolding last contains
last-greatest [] greatest server i l c = cc
last-greatest (s ∷ []) greatest server i l c =
    let same : s ≡ server = (bytes_beq_iff s server).0 (ground arith) in
    subst (λ (x : Bytes). comes_before x server ≡ false) (some-injective l)
      (subst (λ (x : Bytes). comes_before s x ≡ false) same (comes_before_irreflexive s))
last-greatest (s ∷ t ∷ servers) greatest server i l c = elim (Bool-cases (s == server)) [
  | inl e ↦
      let same : s ≡ server = (bytes_beq_iff s server).0 e in
      subst (λ (x : Bytes). comes_before greatest x ≡ false) same
        (comes_before_asymmetric s greatest (All-last s greatest (t ∷ servers) i.0 l))
  | inr e ↦ last-greatest (t ∷ servers) greatest server i.1 l (ground arith)
]
