-- ===== src/Rooms/Short/Runs.antt =====
-- Over any sequence of calls, short ids stay, differ and lead back, until the counter ends.
use cinquain.Prelude.{
  ℕ, suc, ◌<◌, ◌+◌, ◌≡◌, ◌↔◌, refl, Option, none, some, List, [], ◌∷◌, pair_eq, nat_eq, arith,
  Option-cases, inl, inr, length,
}
use cinquain.Prelude.Map
use cinquain.Core.Words.{u64_end}
use cinquain.Core.Errors.{Fault, not_found, database, good, good_or}
use cinquain.Core.Bytes.{Bytes, bytes_eq}
use cinquain.Rooms.Counter.{next_count}
use cinquain.Rooms.Short.{
  Data, StateKey, get_shorteventid, create_shorteventid, get_or_create_shorteventid,
  get_shortstatekey, create_shortstatekey, get_or_create_shortstatekey, get_eventid_from_short,
  create_shortstatehash, hash_or_create, get_or_create_shortstatehash, get_shortroomid,
  create_shortroomid, get_or_create_shortroomid,
}
use cinquain.Rooms.Short.Growth.{
  IsConsistent, Grows, Grows-not, create_shorteventid-Grows, create_shortstatekey-Grows,
  create_shortstatehash-Grows, create_shortroomid-Grows,
}

pub data Call : Type 0 where
  event : Bytes → Call
  statekey : Bytes → Bytes → Call
  statehash : Bytes → Call
  room : Bytes → Call

unfoldable pub perform : Call → Data → ℕ × Data
perform (Call.event event_id) d = get_or_create_shorteventid event_id d
perform (Call.statekey event_type state_key) d = get_or_create_shortstatekey event_type state_key d
perform (Call.statehash state_hash) d =
    let got = get_or_create_shortstatehash state_hash d in (got.0.0, got.1)
perform (Call.room room_id) d = get_or_create_shortroomid room_id d

unfoldable pub run : List Call → Data → Data
run [] d = d
run (call ∷ calls) d = run calls (perform call d).1

-- The short id that is stored for what a call asks for.
unfoldable pub stored : Call → Data → Option ℕ
stored (Call.event event_id) d = Map.get event_id d.eventids.short_of
stored (Call.statekey event_type state_key) d = Map.get (event_type, state_key) d.statekeys.short_of
stored (Call.statehash state_hash) d = Map.get state_hash d.statehash_shortstatehash
stored (Call.room room_id) d = Map.get room_id d.roomid_shortroomid

perform-Grows :
    (call : Call) (d : Data) → IsConsistent d → suc d.counter < u64_end → Grows d (perform call d).1
unfolding perform get_or_create_shorteventid get_shorteventid get_or_create_shortstatekey
    get_shortstatekey get_or_create_shortstatehash hash_or_create get_or_create_shortroomid
    get_shortroomid
perform-Grows (Call.event event_id) d h l =
    elim (Option-cases (Map.get event_id d.eventids.short_of)) [
      | inl e ↦ rw e (create_shorteventid-Grows d h l event_id e)
      | inr (short, e) ↦ rw e (Grows-not d h)
    ]
perform-Grows (Call.statekey event_type state_key) d h l =
    elim (Option-cases (Map.get (event_type, state_key) d.statekeys.short_of)) [
      | inl e ↦ rw e (create_shortstatekey-Grows d h l (event_type, state_key) e)
      | inr (short, e) ↦ rw e (Grows-not d h)
    ]
perform-Grows (Call.statehash state_hash) d h l =
    elim (Option-cases (Map.get state_hash d.statehash_shortstatehash)) [
      | inl e ↦ rw e (create_shortstatehash-Grows d h l state_hash e)
      | inr (short, e) ↦ rw e (Grows-not d h)
    ]
perform-Grows (Call.room room_id) d h l =
    elim (Option-cases (Map.get room_id d.roomid_shortroomid)) [
      | inl e ↦ rw e (create_shortroomid-Grows d h l room_id e)
      | inr (short, e) ↦ rw e (Grows-not d h)
    ]

-- What a call returns is stored after it.
perform-stored : (call : Call) (d : Data) → stored call (perform call d).1 ≡ some (perform call d).0
unfolding perform stored get_or_create_shorteventid get_shorteventid get_or_create_shortstatekey
    get_shortstatekey get_or_create_shortstatehash hash_or_create get_or_create_shortroomid
    get_shortroomid create_shorteventid create_shortstatekey create_shortstatehash
    create_shortroomid
perform-stored (Call.event event_id) d =
    elim (Option-cases (Map.get event_id d.eventids.short_of)) [
      | inl e ↦ rw e (Map.get-inserted event_id (next_count d.counter) d.eventids.short_of)
      | inr (short, e) ↦ rw e e
    ]
perform-stored (Call.statekey event_type state_key) d =
    let key : StateKey = (event_type, state_key) in
    elim (Option-cases (Map.get key d.statekeys.short_of)) [
      | inl e ↦ rw e (Map.get-inserted key (next_count d.counter) d.statekeys.short_of)
      | inr (short, e) ↦ rw e e
    ]
perform-stored (Call.statehash state_hash) d =
    elim (Option-cases (Map.get state_hash d.statehash_shortstatehash)) [
      | inl e ↦
          rw (e, perform, get_or_create_shortstatehash)
            (Map.get-inserted state_hash (next_count d.counter) d.statehash_shortstatehash)
      | inr (short, e) ↦ rw (e, perform, get_or_create_shortstatehash) e
    ]
perform-stored (Call.room room_id) d = elim (Option-cases (Map.get room_id d.roomid_shortroomid)) [
  | inl e ↦ rw e (Map.get-inserted room_id (next_count d.counter) d.roomid_shortroomid)
  | inr (short, e) ↦ rw e e
]

stored-kept :
    (call : Call) (d after : Data) (n : ℕ)
    → Grows d after
    → stored call d ≡ some n
    → stored call after ≡ some n
unfolding stored
stored-kept (Call.event event_id) d after n g e = g.eventids event_id n e
stored-kept (Call.statekey event_type state_key) d after n g e =
    g.statekeys (event_type, state_key) n e
stored-kept (Call.statehash state_hash) d after n g e = g.hashes state_hash n e
stored-kept (Call.room room_id) d after n g e = g.rooms room_id n e

run-Grows :
    (calls : List Call) (d : Data)
    → IsConsistent d
    → length calls + d.counter < u64_end
    → IsConsistent (run calls d)
      × ((call : Call) (n : ℕ) → stored call d ≡ some n → stored call (run calls d) ≡ some n)
unfolding run
run-Grows [] d h l = (h, λ call n e. e)
run-Grows (first ∷ calls) d h l =
    let grown = perform-Grows first d h (omega arith) in
    let rest = run-Grows calls (perform first d).1 grown.consistent (omega (arith, grown.once)) in
    (rest.0, λ call n e. rest.1 call n (stored-kept call d _ n grown e))

perform-held : (call : Call) (d : Data) (n : ℕ) → stored call d ≡ some n → perform call d ≡ (n, d)
unfolding perform stored get_or_create_shorteventid get_shorteventid get_or_create_shortstatekey
    get_shortstatekey get_or_create_shortstatehash hash_or_create get_or_create_shortroomid
    get_shortroomid
perform-held (Call.event event_id) d n e = rw e refl
perform-held (Call.statekey event_type state_key) d n e = rw e refl
perform-held (Call.statehash state_hash) d n e = rw e refl
perform-held (Call.room room_id) d n e = rw e refl

-- From consistent tables, a call that is made again after any others returns the same short id and
-- changes nothing, as long as the counter does not end.
pub perform-again :
    (call : Call) (calls : List Call) (d : Data)
    → IsConsistent d
    → suc (length calls + d.counter) < u64_end
    → (let first = perform call d in
        let later = run calls first.1 in perform call later ≡ (first.0, later))
perform-again call calls d h l =
    let grown = perform-Grows call d h (omega arith) in
    let first = perform call d in
    perform-held call _ first.0 (
      (run-Grows calls first.1 grown.consistent (omega (arith, grown.once))).1 call first.0
        (perform-stored call d))

abbrev pub empty : Data
empty = record {
  eventids = record { short_of = []; key_of = [] };
  statekeys = record { short_of = []; key_of = [] };
  roomid_shortroomid = [];
  statehash_shortstatehash = [];
  counter = 0;
}

pub empty-IsConsistent : IsConsistent empty
unfolding Map.get
empty-IsConsistent = record {
  eventids = record { forth = λ k n q. cc; back = λ k n q. cc; bounded = λ k n q. cc };
  statekeys = record { forth = λ k n q. cc; back = λ k n q. cc; bounded = λ k n q. cc };
  rooms = record { apart = λ k j n q r. cc; bounded = λ k n q. cc };
  hashes = record { apart = λ k j n q r. cc; bounded = λ k n q. cc };
}

good_or_iff {ℓ} :
    {A : Type ℓ} (x : Fault) (o : Option A) (a : A) → (good_or x o ≡ good a) ↔ (o ≡ some a)
good_or_iff x none a = ((λ h. cc), (λ h. cc))
good_or_iff x (some b) a = ((λ h. cc), (λ h. cc))

-- After any sequence of calls on empty tables, fewer than the counter can count, an event has a
-- short id exactly if the short id leads back to the event.
pub get_shorteventid_iff :
    (calls : List Call) (event_id : Bytes) (short : ℕ)
    → length calls < u64_end
    → (get_shorteventid event_id (run calls empty) ≡ good short)
      ↔ (get_eventid_from_short short (run calls empty) ≡ good event_id)
unfolding get_shorteventid get_eventid_from_short
get_shorteventid_iff calls event_id short l =
    let d = run calls empty in
    let inverse = (run-Grows calls empty empty-IsConsistent (omega arith)).0.eventids in
    let there = good_or_iff not_found (Map.get event_id d.eventids.short_of) short in
    let back = good_or_iff database (Map.get short d.eventids.key_of) event_id in
    (
      (λ h. back.1 (inverse.forth event_id short (there.0 h))),
      (λ h. there.1 (inverse.back event_id short (back.0 h))),
    )

-- After any sequence of calls on empty tables, fewer than the counter can count, rooms
-- that have the same short id are the same.
pub get_shortroomid-apart :
    (calls : List Call) (room_id other : Bytes) (short : ℕ)
    → length calls < u64_end
    → get_shortroomid room_id (run calls empty) ≡ good short
    → get_shortroomid other (run calls empty) ≡ good short
    → room_id ≡ other
unfolding get_shortroomid
get_shortroomid-apart calls room_id other short l e f =
    let d = run calls empty in
    let rooms = (run-Grows calls empty empty-IsConsistent (omega arith)).0.rooms in
    rooms.apart room_id other short
      ((good_or_iff not_found (Map.get room_id d.roomid_shortroomid) short).0 e)
      ((good_or_iff not_found (Map.get other d.roomid_shortroomid) short).0 f)
