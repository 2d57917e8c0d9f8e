-- ===== src/State/Layers/Reading.antt =====
-- Reading back the bytes that a difference is stored as.
use Prim.Native.Nat.{◌^◌}
use mathlib.Core.Path.{subst}
use cinquain.Prelude.{
  ℕ, zero, suc, ◌+◌, ◌*◌, ◌≤◌, ◌<◌, ◌≡◌, refl, sym, ◌∙◌, true, false, none, some, List, [], ◌∷◌,
  ◌++◌, nat_eq, contains, contains-append, distinct, is_empty, if◌then◌else◌, length, length-append,
  append-nil, append_assoc, flat_map, All, arith, beq_refl,
}
use cinquain.Core.Errors.{good}
use cinquain.Core.Bytes.{
  Bytes, bytes_eq, bytes_beq_iff, to_be_bytes, starts_with, length-to_be_bytes,
  from_be_bytes-to_be_bytes,
}
use cinquain.State.Layers.{StateDiff}
use cinquain.State.Layers.Format.{
  compress_state_event, parse_compressed_state_event, take_exact, value_of, insert_last,
  drop_stride, read_events, read_diff, zeros, or_zero, nonzero,
}

pub take_exact-append :
    (n : ℕ) (first rest : Bytes)
    → length first ≡ n
    → take_exact n (first ++ rest) ≡ some (first, rest)
unfolding take_exact
take_exact-append zero [] rest l = refl
take_exact-append zero (b ∷ first) rest l = absurd (omega arith)
take_exact-append (suc n) [] rest l = absurd (omega arith)
take_exact-append (suc n) (b ∷ first) rest l =
    rw (take_exact-append n first rest (omega arith)) refl

-- The numbers of an event are read back from its bytes.
pub parse-compress_state_event :
    (shortstatekey shorteventid : ℕ)
    → shortstatekey < 2 ^ 64
    → shorteventid < 2 ^ 64
    → parse_compressed_state_event (compress_state_event shortstatekey shorteventid)
      ≡ good (shortstatekey, shorteventid)
unfolding parse_compressed_state_event compress_state_event
parse-compress_state_event key event k e =
    rw
      (
        take_exact-append 8 (to_be_bytes 8 key) (to_be_bytes 8 event) (length-to_be_bytes 8 key),
        from_be_bytes-to_be_bytes 8 key (omega arith),
        from_be_bytes-to_be_bytes 8 event (omega arith),
      )
      refl

-- An event of sixteen bytes; `IsKeyed` if its state key is not zero.
abbrev pub IsEvent : Bytes → Type 0
IsEvent event = length event ≡ 16

abbrev pub IsKeyed : Bytes → Type 0
IsKeyed event = (length event ≡ 16) × (starts_with event zeros ≡ false)

take_exact-short : (n : ℕ) (bytes : Bytes) → length bytes < n → take_exact n bytes ≡ none
unfolding take_exact
take_exact-short zero bytes l = absurd (omega arith)
take_exact-short (suc n) [] l = refl
take_exact-short (suc n) (b ∷ bytes) l = rw (take_exact-short n bytes (omega arith)) refl

abbrev pub insert_all : List Bytes → List Bytes → List Bytes
insert_all set [] = set
insert_all set (event ∷ events) = insert_all (insert_last event set) events

insert_last-new :
    (set events : List Bytes) (event : Bytes)
    → distinct (set ++ event ∷ events) ≡ true
    → contains set event ≡ false
unfolding distinct contains
insert_last-new [] events event d = refl
insert_last-new (other ∷ set) events event d = ground (
  arith,
  insert_last-new set events event,
  contains-append set (event ∷ events) other,
  bytes_beq_iff other event,
  beq_refl event,
)

insert_all-distinct :
    (set events : List Bytes)
    → distinct (set ++ events) ≡ true
    → insert_all set events ≡ set ++ events
unfolding insert_last
insert_all-distinct set [] d = sym (append-nil set)
insert_all-distinct set (event ∷ events) d =
    let assoc = append_assoc set (event ∷ []) events in
    rw (insert_last-new set events event d) (
      insert_all-distinct (set ++ event ∷ []) events
        (subst (λ (x : List Bytes). distinct x ≡ true) (sym assoc) d)
      ∙ assoc)

take_exact-enough :
    (n : ℕ) (bytes : Bytes)
    → n ≤ length bytes
    → (first rest : Bytes) × (take_exact n bytes ≡ some (first, rest))
unfolding take_exact
take_exact-enough zero bytes l = ([], bytes, refl)
take_exact-enough (suc n) [] l = absurd (omega arith)
take_exact-enough (suc n) (b ∷ bytes) l =
    let (first, rest, e) = take_exact-enough n bytes (omega arith) in (b ∷ first, rest, rw e refl)

-- The loop behind the separator.
read_events-removed :
    (fuel : ℕ) (events added removed : List Bytes)
    → length events < fuel
    → All IsEvent events
    → read_events fuel (flat_map (λ event. event) events) false added removed
      ≡ some (added, insert_all removed events)
unfolding read_events flat_map take_exact
read_events-removed zero events added removed l h = absurd (omega arith)
read_events-removed (suc fuel) [] added removed l h = refl
read_events-removed (suc fuel) (event ∷ events) added removed l h =
    rw (take_exact-append 16 event (flat_map (λ event. event) events) h.0, read_events)
      (read_events-removed fuel events added (insert_last event removed) (omega arith) h.1)

-- What stands behind the added events.
abbrev tail_of : List Bytes → Bytes
tail_of removed = if is_empty removed then [] else zeros ++ flat_map (λ event. event) removed

read_events-tail :
    (fuel : ℕ) (removed added : List Bytes)
    → suc (length removed) < fuel
    → All IsEvent removed
    → read_events fuel (tail_of removed) true added [] ≡ some (added, insert_all [] removed)
unfolding read_events flat_map take_exact starts_with drop_stride
read_events-tail zero removed added l h = absurd (omega arith)
read_events-tail (suc fuel) [] added l h = refl
read_events-tail (suc fuel) (event ∷ events) added l h =
    let (first, rest, e) =
      take_exact-enough 8 (event ++ flat_map (λ event. event) events)
        (omega (arith, h.0, length-append event (flat_map (λ event. event) events))) in
    rw (e, read_events) (read_events-removed fuel (event ∷ events) added [] (omega arith) h)

read_events_whole :
    (fuel : ℕ) (events removed added : List Bytes)
    → length events + suc (length removed) < fuel
    → All IsKeyed events
    → All IsEvent removed
    → read_events fuel (flat_map (λ event. event) events ++ tail_of removed) true added []
      ≡ some (insert_all added events, insert_all [] removed)
unfolding read_events flat_map
read_events_whole zero events removed added l h k = absurd (omega arith)
read_events_whole (suc fuel) [] removed added l h k =
    read_events-tail (suc fuel) removed added (omega arith) k
read_events_whole (suc fuel) (event ∷ events) removed added l h k =
    let left = flat_map (λ event. event) events ++ tail_of removed in
    rw
      (
        append_assoc event (flat_map (λ event. event) events) (tail_of removed),
        take_exact-append 16 event left h.0.0,
        h.0.1,
        read_events,
      )
      (read_events_whole fuel events removed (insert_last event added) (omega arith) h.1 k)

length-flat_map :
    (events : List Bytes)
    → All IsEvent events
    → length (flat_map (λ event. event) events) ≡ 16 * length events
unfolding flat_map
length-flat_map [] h = omega arith
length-flat_map (event ∷ events) h =
    omega (
      arith,
      h.0,
      length-append event (flat_map (λ event. event) events),
      length-flat_map events h.1,
    )

All-IsEvent : (events : List Bytes) → All IsKeyed events → All IsEvent events
All-IsEvent [] h = tt
All-IsEvent (event ∷ events) h = (h.0.0, All-IsEvent events h.1)

length-tail_of :
    (removed : List Bytes) → All IsEvent removed → length removed ≤ length (tail_of removed)
unfolding flat_map
length-tail_of [] h = omega arith
length-tail_of (event ∷ removed) h = omega (arith, length-flat_map (event ∷ removed) h)

-- A difference that the compressor stores: events of sixteen bytes, none twice, those that are added
-- with a state key that is not zero, and a parent that is not zero.
pub record IsStorable (diff : StateDiff Bytes) : Type 0 where
  pub added : All IsKeyed diff.added
  pub removed : All IsEvent diff.removed
  pub added_once : distinct diff.added ≡ true
  pub removed_once : distinct diff.removed ≡ true
  pub parent : nonzero (or_zero diff.parent) ≡ diff.parent
  pub word : or_zero diff.parent < 2 ^ 64

-- A storable difference is read back from the value that is stored for it.
pub read_diff-value_of :
    (diff : StateDiff Bytes) → IsStorable diff → read_diff (value_of diff) ≡ good (some diff)
unfolding read_diff value_of
read_diff-value_of diff h =
    let parent = to_be_bytes 8 (or_zero diff.parent) in
    let events = flat_map (λ event. event) diff.added in
    let left = events ++ tail_of diff.removed in
    let enough : length diff.added + suc (length diff.removed) < suc (length (parent ++ left)) =
      omega (
        arith,
        length-append parent left,
        length-append events (tail_of diff.removed),
        length-to_be_bytes 8 (or_zero diff.parent),
        length-flat_map diff.added (All-IsEvent diff.added h.added),
        length-tail_of diff.removed h.removed,
      ) in
    rw
      (
        take_exact-append 8 parent left (length-to_be_bytes 8 (or_zero diff.parent)),
        read_events_whole (suc (length (parent ++ left))) diff.added diff.removed [] enough h.added
            h.removed,
        insert_all-distinct [] diff.added h.added_once,
        insert_all-distinct [] diff.removed h.removed_once,
        from_be_bytes-to_be_bytes 8 (or_zero diff.parent) (omega (arith, h.word)),
        h.parent,
      )
      refl
