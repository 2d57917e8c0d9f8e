-- ===== src/Utils/Sets.antt =====
-- Intersections of sets: src/core/utils/set.rs. An iterator is the list of the items that it has left;
-- the items are numbers, of which the code uses the order only.
use cinquain.Prelude.{
  ℕ, ◌<◌, ◌≡◌, refl, sym, ◌∙◌, Bool, true, false, List, [], ◌∷◌, ◌==◌, nat_eq, nat_beq_iff,
  if◌then◌else◌, ltb, leb, contains, keep, all, arith, Bool-cases, inl, inr,
}

unfoldable pub intersection : List (List ℕ) → List ℕ
intersection [] = []
intersection (first ∷ input) = keep (λ targ. all (λ other. contains other targ) input) first

-- `it.by_ref().skip_while(..).peekable().peek()`, which takes what it looks at out of `it`.
unfoldable pub seek : ℕ → List ℕ → Bool × List ℕ
seek targ [] = (false, [])
seek targ (item ∷ it) =
    let later = seek targ it in if ltb item targ then later else (item == targ, it)

-- `all` stops at the first iterator that does not have the item.
unfoldable pub seek_all : ℕ → List (List ℕ) → Bool × List (List ℕ)
seek_all targ [] = (true, [])
seek_all targ (it ∷ input) =
    let found = seek targ it in
    let others = seek_all targ input in
    if found.0 then (others.0, found.1 ∷ others.1) else (false, found.1 ∷ input)

unfoldable pub filter_sorted : List ℕ → List (List ℕ) → List ℕ
filter_sorted [] input = []
filter_sorted (targ ∷ first) input =
    let found = seek_all targ input in
    let rest = filter_sorted first found.1 in if found.0 then targ ∷ rest else rest

unfoldable pub intersection_sorted : List (List ℕ) → List ℕ
intersection_sorted [] = []
intersection_sorted (first ∷ input) = filter_sorted first input

-- The loop of `next_if` in `intersection_sorted_stream2`, which takes the items up to `ai`.
unfoldable pub next_up_to : ℕ → List ℕ → Bool × List ℕ
next_up_to ai [] = (false, [])
next_up_to ai (bi ∷ b) =
    let later = next_up_to ai b in
    if leb bi ai then (if ai == bi then (true, b) else later) else (false, bi ∷ b)

unfoldable pub intersection_sorted_stream2 : List ℕ → List ℕ → List ℕ
intersection_sorted_stream2 [] b = []
intersection_sorted_stream2 (ai ∷ a) b =
    let found = next_up_to ai b in
    let rest = intersection_sorted_stream2 a found.1 in if found.0 then ai ∷ rest else rest

-- Lists that increase.
abbrev pub IsAbove : ℕ → List ℕ → Type 0
IsAbove n [] = Unit
IsAbove n (m ∷ ms) = n < m

abbrev pub IsAscending : List ℕ → Type 0
IsAscending [] = Unit
IsAscending (n ∷ ns) = IsAbove n ns × IsAscending ns

contains-above :
    (n x : ℕ) (ms : List ℕ) → IsAbove n ms → IsAscending ms → contains ms x ≡ true → n < x
unfolding contains
contains-above n x [] h a k = cc
contains-above n x (m ∷ ms) h a k = elim (Bool-cases (m == x)) [
  | inl q ↦ ground (arith, nat_beq_iff m x)
  | inr q ↦ let later = contains-above m x ms a.0 a.1 (ground arith) in omega arith
]

contains-below :
    (n x : ℕ) (ms : List ℕ) → IsAscending (n ∷ ms) → x < n → contains (n ∷ ms) x ≡ false
unfolding contains
contains-below n x ms h l = elim (Bool-cases (contains ms x)) [
  | inl q ↦ let above = contains-above n x ms h.0 h.1 q in absurd (omega arith)
  | inr q ↦ rw q (ground (arith, nat_beq_iff n x))
]

next_up_to-found : (ai : ℕ) (b : List ℕ) → IsAscending b → (next_up_to ai b).0 ≡ contains b ai
unfolding next_up_to contains
next_up_to-found ai [] h = refl
next_up_to-found ai (bi ∷ b) h =
    let next = next_up_to-found ai b h.1 in
    elim (Bool-cases (leb bi ai)) [
      | inl q ↦ elim (Bool-cases (ai == bi)) [
        | inl e ↦ rw (q, e) (ground (arith, nat_beq_iff ai bi, nat_beq_iff bi ai))
        | inr e ↦ rw (q, e, next) (ground (arith, nat_beq_iff ai bi, nat_beq_iff bi ai))
      ]
      | inr q ↦ rw q (sym (contains-below bi ai b h (ground arith)))
    ]

next_up_to-IsAscending : (ai : ℕ) (b : List ℕ) → IsAscending b → IsAscending (next_up_to ai b).1
unfolding next_up_to
next_up_to-IsAscending ai [] h = tt
next_up_to-IsAscending ai (bi ∷ b) h = elim (Bool-cases (leb bi ai)) [
  | inl q ↦ elim (Bool-cases (ai == bi)) [
    | inl e ↦ rw (q, e) h.1
    | inr e ↦ rw (q, e) (next_up_to-IsAscending ai b h.1)
  ]
  | inr q ↦ rw q h
]

-- What is taken is not above `ai`.
next_up_to-rest :
    (ai x : ℕ) (b : List ℕ) → IsAscending b → ai < x → contains (next_up_to ai b).1 x ≡ contains b x
unfolding next_up_to contains
next_up_to-rest ai x [] h l = refl
next_up_to-rest ai x (bi ∷ b) h l =
    ground (arith, next_up_to-rest ai x b h.1, nat_beq_iff ai bi, nat_beq_iff bi x)

filter-above :
    (n : ℕ) (a b c : List ℕ)
    → IsAbove n a
    → IsAscending a
    → ((x : ℕ) → n < x → contains b x ≡ contains c x)
    → keep (contains b) a ≡ keep (contains c) a
unfolding keep
filter-above n [] b c h o f = refl
filter-above n (x ∷ a) b c h o f =
    let next = filter-above x a b c o.0 o.1 (λ y l. f y (omega arith)) in rw (next, f x h) refl

intersection_sorted_stream2-keep :
    (a b : List ℕ)
    → IsAscending a
    → IsAscending b
    → intersection_sorted_stream2 a b ≡ keep (contains b) a
unfolding intersection_sorted_stream2 keep
intersection_sorted_stream2-keep [] b h k = refl
intersection_sorted_stream2-keep (ai ∷ a) b h k =
    let found = next_up_to ai b in
    let rest =
      intersection_sorted_stream2-keep a found.1 h.1 (next_up_to-IsAscending ai b k)
      ∙ filter-above ai a found.1 b h.0 h.1 (λ x l. next_up_to-rest ai x b k l) in
    rw (rest, next_up_to-found ai b k) refl

keep-one : (a b : List ℕ) → intersection (a ∷ b ∷ []) ≡ keep (contains b) a
unfolding intersection all keep
keep-one [] b = refl
keep-one (ai ∷ a) b = ground (arith, keep-one a b)

-- Of streams that increase, intersection_sorted_stream2 lists what intersection lists.
pub intersection_sorted_stream2-intersection :
    (a b : List ℕ)
    → IsAscending a
    → IsAscending b
    → intersection_sorted_stream2 a b ≡ intersection (a ∷ b ∷ [])
intersection_sorted_stream2-intersection a b h k =
    intersection_sorted_stream2-keep a b h k ∙ sym (keep-one a b)

seek-above : (x y : ℕ) (rest : List ℕ) → x < y → seek x (y ∷ rest) ≡ (false, rest)
unfolding seek
seek-above x y rest l = ground arith

seek-none : (y : ℕ) (rest : List ℕ) → IsAbove y rest → (seek y rest).0 ≡ false
unfolding seek
seek-none y [] a = refl
seek-none y (m ∷ rest) a = ground arith

sorted-loses :
    (x y : ℕ) (rest : List ℕ)
    → x < y
    → IsAbove y rest
    → intersection_sorted ((x ∷ y ∷ []) ∷ (y ∷ rest) ∷ []) ≡ []
unfolding intersection_sorted filter_sorted seek_all
sorted-loses x y rest l a = rw (seek-above x y rest l, seek-none y rest a) refl

-- Where the second of two lists that increase starts with the second item of the first one,
-- intersection_sorted lists nothing, and intersection that item.
pub intersection_sorted-loses :
    (x y : ℕ) (rest : List ℕ)
    → x < y
    → IsAscending (y ∷ rest)
    → (intersection_sorted ((x ∷ y ∷ []) ∷ (y ∷ rest) ∷ []) ≡ [])
      × (intersection ((x ∷ y ∷ []) ∷ (y ∷ rest) ∷ []) ≡ y ∷ [])
unfolding keep contains
intersection_sorted-loses x y rest l a = (
  sorted-loses x y rest l a.0,
  keep-one (x ∷ y ∷ []) (y ∷ rest)
      ∙ rw (contains-below y x rest a l) (ground (arith, nat_beq_iff y y)),
)
