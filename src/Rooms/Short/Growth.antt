-- ===== src/Rooms/Short/Growth.antt =====
-- What creating a short id does to the tables.
use cinquain.Prelude.{ℕ, suc, ◌≤◌, ◌<◌, ◌≡◌, none, some, List, Eq, pair_eq, nat_eq, arith}
use cinquain.Prelude.Map
use cinquain.Core.Words.{u64_end}
use cinquain.Core.Bytes.{Bytes, bytes_eq}
use cinquain.Rooms.Short.{
  Data, StateKey, create_shorteventid, create_shortstatekey, create_shortstatehash,
  create_shortroomid,
}
use cinquain.Rooms.Short.Inverse.{IsInverse, IsInverse-put, IsInverse-weaken, next_count-suc}

-- Different keys have different short ids, within a bound.
pub record IsOneWay {Key : Type 0} ⦃e : Eq Key⦄ (m : List (Key × ℕ)) (bound : ℕ) : Type 0 where
  pub apart : (k j : Key) (n : ℕ) → Map.get k m ≡ some n → Map.get j m ≡ some n → k ≡ j
  pub bounded : (k : Key) (n : ℕ) → Map.get k m ≡ some n → n ≤ bound

pub record IsConsistent (d : Data) : Type 0 where
  pub eventids : IsInverse d.eventids d.counter
  pub statekeys : IsInverse d.statekeys d.counter
  pub rooms : IsOneWay d.roomid_shortroomid d.counter
  pub hashes : IsOneWay d.statehash_shortstatehash d.counter

module _ {Key : Type 0} ⦃e : Eq Key⦄ where
  abbrev pub AreKept : List (Key × ℕ) → List (Key × ℕ) → Type 0
  AreKept m after = (k : Key) (n : ℕ) → Map.get k m ≡ some n → Map.get k after ≡ some n

  IsOneWay-weaken : (m : List (Key × ℕ)) (b c : ℕ) → b ≤ c → IsOneWay m b → IsOneWay m c
  IsOneWay-weaken m b c l h = record {
    apart = h.apart;
    bounded = λ k n q. omega (arith, h.bounded k n q);
  }

  IsOneWay-insert :
      (m : List (Key × ℕ)) (bound : ℕ) (key : Key)
      → IsOneWay m bound
      → IsOneWay (Map.insert key (suc bound) m) (suc bound)
  IsOneWay-insert m bound key h = record {
    apart = λ k j n q r. ground (
      arith,
      h.apart k j n,
      h.bounded k n,
      h.bounded j n,
      Map.get-insert key k (suc bound) m,
      Map.get-insert key j (suc bound) m,
      e.beq_iff key k,
      e.beq_iff key j,
    );
    bounded = λ k n q. ground (arith, h.bounded k n, Map.get-insert key k (suc bound) m);
  }

  AreKept-insert :
      (m : List (Key × ℕ)) (key : Key) (short : ℕ)
      → Map.get key m ≡ none
      → AreKept m (Map.insert key short m)
  AreKept-insert m key short fresh k n q =
      ground (arith, Map.get-insert key k short m, e.beq_iff key k)

-- What a call does to the tables: it adds at most one short id.
pub record Grows (d after : Data) : Type 0 where
  pub consistent : IsConsistent after
  pub risen : d.counter ≤ after.counter
  pub once : after.counter ≤ suc d.counter
  pub eventids : AreKept d.eventids.short_of after.eventids.short_of
  pub statekeys : AreKept d.statekeys.short_of after.statekeys.short_of
  pub rooms : AreKept d.roomid_shortroomid after.roomid_shortroomid
  pub hashes : AreKept d.statehash_shortstatehash after.statehash_shortstatehash

module _ (d : Data) (h : IsConsistent d) where
  pub Grows-not : Grows d d
  Grows-not = record {
    consistent = h;
    risen = omega arith;
    once = omega arith;
    eventids = λ k n q. q;
    statekeys = λ k n q. q;
    rooms = λ k n q. q;
    hashes = λ k n q. q;
  }

  module _ (room_left : suc d.counter < u64_end) where
    eventids-weaken : IsInverse d.eventids (suc d.counter)
    eventids-weaken = IsInverse-weaken d.eventids d.counter (suc d.counter) (omega arith) h.eventids

    statekeys-weaken : IsInverse d.statekeys (suc d.counter)
    statekeys-weaken =
        IsInverse-weaken d.statekeys d.counter (suc d.counter) (omega arith) h.statekeys

    rooms-weaken : IsOneWay d.roomid_shortroomid (suc d.counter)
    rooms-weaken =
        IsOneWay-weaken d.roomid_shortroomid d.counter (suc d.counter) (omega arith) h.rooms

    hashes-weaken : IsOneWay d.statehash_shortstatehash (suc d.counter)
    hashes-weaken =
        IsOneWay-weaken d.statehash_shortstatehash d.counter (suc d.counter) (omega arith) h.hashes

    pub create_shorteventid-Grows :
        (event_id : Bytes)
        → Map.get event_id d.eventids.short_of ≡ none
        → Grows d (create_shorteventid event_id d).1
    unfolding create_shorteventid
    create_shorteventid-Grows event_id fresh = rw (next_count-suc d.counter room_left) (record {
      consistent = record {
        eventids = IsInverse-put d.eventids d.counter event_id fresh h.eventids;
        statekeys = statekeys-weaken;
        rooms = rooms-weaken;
        hashes = hashes-weaken;
      };
      risen = omega arith;
      once = omega arith;
      eventids = AreKept-insert d.eventids.short_of event_id (suc d.counter) fresh;
      statekeys = λ k n q. q;
      rooms = λ k n q. q;
      hashes = λ k n q. q;
    })

    pub create_shortstatekey-Grows :
        (key : StateKey)
        → Map.get key d.statekeys.short_of ≡ none
        → Grows d (create_shortstatekey key d).1
    unfolding create_shortstatekey
    create_shortstatekey-Grows key fresh = rw (next_count-suc d.counter room_left) (record {
      consistent = record {
        eventids = eventids-weaken;
        statekeys = IsInverse-put d.statekeys d.counter key fresh h.statekeys;
        rooms = rooms-weaken;
        hashes = hashes-weaken;
      };
      risen = omega arith;
      once = omega arith;
      eventids = λ k n q. q;
      statekeys = AreKept-insert d.statekeys.short_of key (suc d.counter) fresh;
      rooms = λ k n q. q;
      hashes = λ k n q. q;
    })

    pub create_shortstatehash-Grows :
        (state_hash : Bytes)
        → Map.get state_hash d.statehash_shortstatehash ≡ none
        → Grows d (create_shortstatehash state_hash d).1
    unfolding create_shortstatehash
    create_shortstatehash-Grows state_hash fresh = rw (next_count-suc d.counter room_left) (record {
      consistent = record {
        eventids = eventids-weaken;
        statekeys = statekeys-weaken;
        rooms = rooms-weaken;
        hashes = IsOneWay-insert d.statehash_shortstatehash d.counter state_hash h.hashes;
      };
      risen = omega arith;
      once = omega arith;
      eventids = λ k n q. q;
      statekeys = λ k n q. q;
      rooms = λ k n q. q;
      hashes = AreKept-insert d.statehash_shortstatehash state_hash (suc d.counter) fresh;
    })

    pub create_shortroomid-Grows :
        (room_id : Bytes)
        → Map.get room_id d.roomid_shortroomid ≡ none
        → Grows d (create_shortroomid room_id d).1
    unfolding create_shortroomid
    create_shortroomid-Grows room_id fresh = rw (next_count-suc d.counter room_left) (record {
      consistent = record {
        eventids = eventids-weaken;
        statekeys = statekeys-weaken;
        rooms = IsOneWay-insert d.roomid_shortroomid d.counter room_id h.rooms;
        hashes = hashes-weaken;
      };
      risen = omega arith;
      once = omega arith;
      eventids = λ k n q. q;
      statekeys = λ k n q. q;
      rooms = AreKept-insert d.roomid_shortroomid room_id (suc d.counter) fresh;
      hashes = λ k n q. q;
    })
