-- ===== src/Rooms/Members/Lookups.antt =====
-- What the streams by prefix list: src/service/rooms/state_cache/mod.rs and via.rs.
use mathlib.Core.Path.{subst}
use cinquain.Prelude.{
  ◌≡◌, ◌↔◌, refl, sym, ◌∙◌, Bool, true, false, ◌||◌, ◌&&◌, not, some, List, [], ◌∷◌, ◌++◌, ◌==◌,
  contains, contains-append, all, distinct, nat_beq_iff, pair_eq, option_eq, is_empty, Bool-cases,
  inl, inr, beq_refl, arith,
}
use cinquain.Prelude.Map
use cinquain.Core.Errors.{good}
use cinquain.Core.Bytes.{Bytes, bytes_eq, bytes_beq_iff, comes_before}
use cinquain.Rooms.Members.{MemberTables, once_joined}
use cinquain.Rooms.Members.Status.{Status, in_joined_iff}
use cinquain.Rooms.Members.Updates.{Services}
use cinquain.Rooms.Members.Servers.{contains-keys_prefix}
use cinquain.Rooms.Members.Replay.{Call, run, replay, new, no_past}
use cinquain.Rooms.Members.Runs.{run-Represents}
use cinquain.Core.Bytes.{starts_with}
use cinquain.Database.Ser.{sep_byte}
use cinquain.Rooms.Members.{Key}
use cinquain.Rooms.Members.Counts.{keys_raw_prefix, rooms_joined, room_useroncejoined}
use cinquain.Rooms.Members.Views.{new-Represents}
use cinquain.Rooms.Members.Greatest.{sort_dedup-Increases, last-greatest}
use cinquain.Rooms.Members.Via.{
  last, pop_server, via_rows, put_sorted, sort_dedup, servers_invite_via, add_servers_invite_via,
  put_via,
}

contains-keys_raw_prefix :
    (prefix id : Bytes) (rows : List Key)
    → (contains (keys_raw_prefix prefix rows) id ≡ true) ↔ (
        (first : Bytes) × (contains rows (first, id) ≡ true)
        × (starts_with (first ++ sep_byte ∷ id) prefix ≡ true))
unfolding contains keys_raw_prefix
contains-keys_raw_prefix prefix id [] =
    ((λ h. absurd (ground arith)), (λ h. absurd (ground (arith, h.1))))
contains-keys_raw_prefix prefix id ((a, b) ∷ rows) =
    let rest = contains-keys_raw_prefix prefix id rows in
    (
      (λ h. elim (Bool-cases (starts_with (a ++ sep_byte ∷ b) prefix && b == id)) [
        | inl e ↦
            let same : b ≡ id = ground (arith, bytes_beq_iff b id) in
            (
              a,
              ground (arith, beq_refl a),
              subst (λ (x : Bytes). starts_with (a ++ sep_byte ∷ x) prefix ≡ true) same
                  (ground arith),
            )
        | inr e ↦ let later = rest.0 (ground arith) in (later.0, ground (arith, later.1), later.2)
      ]),
      (λ h. elim (Bool-cases (a == h.0 && b == id)) [
        | inl e ↦
            let firsts : a ≡ h.0 = ground (arith, bytes_beq_iff a h.0) in
            let seconds : b ≡ id = ground (arith, bytes_beq_iff b id) in
            let starts : starts_with (a ++ sep_byte ∷ b) prefix ≡ true = rw (firsts, seconds) h.2 in
            ground arith
        | inr e ↦ let later = rest.1 (h.0, ground (arith, h.1), h.2) in ground arith
      ]),
    )

module _ {Pdu Stripped : Type 0} (services : Services Pdu Stripped) where
  -- After any sequence of calls on an empty database, `rooms_joined` lists a room for a user exactly
  -- if some user is joined to it whose id, with the separator and the room behind it, starts with the
  -- user's.
  pub rooms_joined-prefix :
      (calls : List (Call Pdu Stripped)) (user room : Bytes)
      → (contains (rooms_joined user (run services calls new)) room ≡ true) ↔ (
          (other : Bytes) × ((replay services calls no_past other room).0 ≡ Status.joined)
          × (starts_with (other ++ sep_byte ∷ room) user ≡ true))
  unfolding rooms_joined
  rooms_joined-prefix calls user room =
      let t : MemberTables Pdu Stripped = run services calls new in
      let past = run-Represents services calls new no_past new-Represents in
      let status = λ (other : Bytes). in_joined_iff (replay services calls no_past other room).0 in
      let listed = contains-keys_raw_prefix user room t.joined.userroomid_joined in
      (
        (λ h.
            let row = listed.0 h in
            (row.0, (status row.0).0 (sym (past row.0 room).0.joined.0 ∙ row.1), row.2)),
        (λ h. listed.1 (h.0, (past h.0 room).0.joined.0 ∙ (status h.0).1 h.1, h.2)),
      )

  -- After any sequence of calls on an empty database, `room_useroncejoined` lists a user for a room
  -- exactly if the room, taken for a user, has joined the user, taken for a room.
  pub room_useroncejoined-swapped :
      (calls : List (Call Pdu Stripped)) (user room : Bytes)
      → contains (room_useroncejoined room (run services calls new)) user
        ≡ (replay services calls no_past room user).1
  unfolding room_useroncejoined once_joined
  room_useroncejoined-swapped calls user room =
      let t : MemberTables Pdu Stripped = run services calls new in
      contains-keys_prefix room user t.roomuseroncejoinedids
      ∙ (run-Represents services calls new no_past new-Represents room user).1

contains-put_sorted :
    (server : Bytes) (servers : List Bytes) (x : Bytes)
    → contains (put_sorted server servers) x ≡ (server == x || contains servers x)
unfolding contains put_sorted
contains-put_sorted server [] x = ground arith
contains-put_sorted server (next ∷ servers) x =
    ground (arith, contains-put_sorted server servers x, bytes_beq_iff server next)

contains-sort_dedup :
    (servers : List Bytes) (x : Bytes) → contains (sort_dedup servers) x ≡ contains servers x
unfolding contains sort_dedup
contains-sort_dedup [] x = refl
contains-sort_dedup (server ∷ servers) x =
    ground (arith, contains-put_sorted server (sort_dedup servers) x, contains-sort_dedup servers x)

last-contains :
    (servers : List Bytes)
    → is_empty servers ≡ false
    → (server : Bytes) × (last servers ≡ some server) × (contains servers server ≡ true)
unfolding last contains
last-contains [] h = cc
last-contains (server ∷ []) h = (server, refl, ground (arith, beq_refl server))
last-contains (server ∷ next ∷ servers) h =
    let rest = last-contains (next ∷ servers) refl in (rest.0, rest.1, ground (arith, rest.2))

full-of_contains :
    (servers : List Bytes) (x : Bytes) → contains servers x ≡ true → is_empty servers ≡ false
unfolding contains
full-of_contains [] x h = cc
full-of_contains (server ∷ servers) x h = refl

via_rows-none :
    (room : Bytes) (rows : List (Bytes × List Bytes))
    → all (λ key. not (starts_with key room)) (Map.keys rows) ≡ true
    → via_rows room rows ≡ good []
unfolding via_rows all
via_rows-none room [] h = refl
via_rows-none room ((key, servers) ∷ rows) h = ground (arith, via_rows-none room rows)

starts_with-itself : (bytes : Bytes) → starts_with bytes bytes ≡ true
unfolding starts_with
starts_with-itself [] = refl
starts_with-itself (b ∷ bytes) = ground (arith, starts_with-itself bytes, nat_beq_iff b b)

-- No row of another room starts with the room's id.
abbrev pub stands_alone : Bytes → Bytes → Bool
stands_alone room key = key == room || not (starts_with key room)

none-starts :
    (room : Bytes) (keys : List Bytes)
    → contains keys room ≡ false
    → all (stands_alone room) keys ≡ true
    → all (λ key. not (starts_with key room)) keys ≡ true
unfolding all contains
none-starts room [] n h = refl
none-starts room (key ∷ keys) n h = ground (arith, none-starts room keys)

via_rows-insert :
    (room server : Bytes) (servers : List Bytes) (rows : List (Bytes × List Bytes))
    → last servers ≡ some server
    → distinct (Map.keys rows) ≡ true
    → all (stands_alone room) (Map.keys rows) ≡ true
    → via_rows room (Map.insert room servers rows) ≡ good (server ∷ [])
unfolding via_rows all distinct Map.insert pop_server
via_rows-insert room server servers [] l d h = ground (arith, starts_with-itself room)
via_rows-insert room server servers ((key, old) ∷ rows) l d h = ground (
  arith,
  starts_with-itself room,
  bytes_beq_iff key room,
  via_rows-none room rows,
  none-starts room (Map.keys rows),
  via_rows-insert room server servers rows l,
)

module _ {Pdu Stripped : Type 0} where
  -- Where no other room's id starts with a room's, adding servers for it, not none, succeeds if the
  -- stored ones can be read, and then only one of the stored and the added servers is read: the one
  -- that comes last in the order of their bytes.
  pub add_servers_invite_via-one :
      (room : Bytes) (servers stored : List Bytes) (t : MemberTables Pdu Stripped)
      → is_empty servers ≡ false
      → distinct (Map.keys t.roomid_inviteviaservers) ≡ true
      → all (stands_alone room) (Map.keys t.roomid_inviteviaservers) ≡ true
      → servers_invite_via room t ≡ good stored
      → (after : MemberTables Pdu Stripped) × (server : Bytes) × (add_servers_invite_via room
            servers t
          ≡ good after)
        × (servers_invite_via room after ≡ good (server ∷ []))
        × (contains (stored ++ servers) server ≡ true)
        × ((other : Bytes)
            → contains (stored ++ servers) other ≡ true
            → comes_before server other ≡ false)
  unfolding add_servers_invite_via servers_invite_via put_via
  add_servers_invite_via-one room servers stored t full d alone e =
      let all_servers = stored ++ servers in
      let some_server = last-contains servers full in
      let sorted = last-contains (sort_dedup all_servers) (
        full-of_contains (sort_dedup all_servers) some_server.0 (
          ground (
            arith,
            some_server.2,
            contains-sort_dedup all_servers some_server.0,
            contains-append stored servers some_server.0,
          ))) in
      (
        put_via room (sort_dedup all_servers) t,
        sorted.0,
        rw e refl,
        via_rows-insert room sorted.0 (sort_dedup all_servers) t.roomid_inviteviaservers sorted.1 d
            alone,
        sym (contains-sort_dedup all_servers sorted.0) ∙ sorted.2,
        (λ other c.
            last-greatest (sort_dedup all_servers) sorted.0 other (sort_dedup-Increases all_servers)
              sorted.1 (contains-sort_dedup all_servers other ∙ c)),
      )
