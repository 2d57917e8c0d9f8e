-- ===== src/Rooms/Members/Servers.antt =====
-- The servers of a room after `update_joined_count`.
use cinquain.Prelude.{
  ℕ, ◌≡◌, refl, sym, ◌∙◌, true, ◌||◌, ◌&&◌, not, List, [], ◌∷◌, ◌==◌, map, contains, pair_eq,
  insert_new, remove, contains-insert_new, contains-remove, distinct, distinct-insert_new,
  distinct-remove, if◌then◌else◌, arith, Bool-cases, inl, inr,
}
use cinquain.Core.Bytes.{Bytes, bytes_eq, bytes_beq_iff}
use cinquain.Rooms.Members.{Key}
use cinquain.Rooms.Members.Counts.{
  keys_prefix, count_joined, drop_servers, add_servers, update_servers, add_saturating,
}

pub contains-keys_prefix :
    (first id : Bytes) (rows : List Key)
    → contains (keys_prefix first rows) id ≡ contains rows (first, id)
unfolding contains keys_prefix
contains-keys_prefix first id [] = refl
contains-keys_prefix first id ((a, b) ∷ rows) = ground (arith, contains-keys_prefix first id rows)

distinct-keys_prefix :
    (first : Bytes) (rows : List Key)
    → distinct rows ≡ true
    → distinct (keys_prefix first rows) ≡ true
unfolding distinct keys_prefix
distinct-keys_prefix first [] h = refl
distinct-keys_prefix first ((a, b) ∷ rows) h = ground (
  arith,
  distinct-keys_prefix first rows,
  contains-keys_prefix first b rows,
  bytes_beq_iff a first,
)

pub contains-count_joined :
    (server_name : Bytes → Bytes) (members servers : List Bytes) (n : ℕ) (server : Bytes)
    → contains (count_joined server_name members (servers, n)).0 server
      ≡ (contains servers server || contains (map server_name members) server)
unfolding contains count_joined
contains-count_joined server_name [] servers n server = ground arith
contains-count_joined server_name (user ∷ members) servers n server = ground (
  arith,
  contains-count_joined server_name members (insert_new (server_name user) servers)
      (add_saturating n 1) server,
  contains-insert_new (server_name user) server servers,
)

module _ (room r server : Bytes) where
  contains-add_servers :
      (servers : List Bytes) (by_room by_server : List Key)
      → (contains (add_servers room servers (by_room, by_server)).0 (r, server)
          ≡ (contains by_room (r, server) || room == r && contains servers server))
        × (contains (add_servers room servers (by_room, by_server)).1 (server, r)
            ≡ (contains by_server (server, r) || room == r && contains servers server))
  unfolding contains add_servers
  contains-add_servers [] by_room by_server = (ground arith, ground arith)
  contains-add_servers (new ∷ servers) by_room by_server =
      let rest =
        contains-add_servers servers (insert_new (room, new) by_room)
          (insert_new (new, room) by_server) in
      (
        ground (arith, rest.0, contains-insert_new (room, new) (r, server) by_room),
        ground (arith, rest.1, contains-insert_new (new, room) (server, r) by_server),
      )

  -- A row stays unless it is that of an old server that no member is on.
  contains-drop_servers :
      (olds joined : List Bytes) (by_room by_server : List Key)
      → distinct olds ≡ true
      → (let dropped = drop_servers room olds (joined, by_room, by_server) in
          (contains dropped.0 server ≡ (contains joined server && not (contains olds server)))
          × (contains dropped.1 (r, server) ≡ (
              contains by_room (r, server)
              && not (room == r && contains olds server && not (contains joined server))))
          × (contains dropped.2 (server, r) ≡ (
              contains by_server (server, r)
              && not (room == r && contains olds server && not (contains joined server)))))
  unfolding contains drop_servers distinct
  contains-drop_servers [] joined by_room by_server d = (ground arith, ground arith, ground arith)
  contains-drop_servers (old ∷ olds) joined by_room by_server d =
      elim (Bool-cases (contains joined old)) [
        | inl e ↦
            let rest =
              contains-drop_servers olds (remove old joined) by_room by_server (ground arith) in
            rw (e, drop_servers)
              (
                ground (arith, rest.0, contains-remove old server joined, bytes_beq_iff old server),
                ground (arith, rest.1, contains-remove old server joined, bytes_beq_iff old server),
                ground (arith, rest.2, contains-remove old server joined, bytes_beq_iff old server),
              )
        | inr e ↦
            let rest =
              contains-drop_servers olds joined (remove (room, old) by_room)
                (remove (old, room) by_server) (ground arith) in
            rw (e, drop_servers)
              (
                ground (arith, rest.0, bytes_beq_iff old server),
                ground (
                  arith,
                  rest.1,
                  contains-remove (room, old) (r, server) by_room,
                  bytes_beq_iff old server,
                ),
                ground (
                  arith,
                  rest.2,
                  contains-remove (old, room) (server, r) by_server,
                  bytes_beq_iff old server,
                ),
              )
      ]

distinct-add_servers :
    (room : Bytes) (servers : List Bytes) (by_room by_server : List Key)
    → distinct by_room ≡ true
    → distinct (add_servers room servers (by_room, by_server)).0 ≡ true
unfolding add_servers
distinct-add_servers room [] by_room by_server d = d
distinct-add_servers room (new ∷ servers) by_room by_server d =
    distinct-add_servers room servers (insert_new (room, new) by_room) _
      (distinct-insert_new (room, new) by_room d)

distinct-drop_servers :
    (room : Bytes) (olds joined : List Bytes) (by_room by_server : List Key)
    → distinct by_room ≡ true
    → distinct (drop_servers room olds (joined, by_room, by_server)).1 ≡ true
unfolding drop_servers
distinct-drop_servers room [] joined by_room by_server d = d
distinct-drop_servers room (old ∷ olds) joined by_room by_server d =
    elim (Bool-cases (contains joined old)) [
      | inl e ↦
          rw (e, drop_servers)
            (distinct-drop_servers room olds (remove old joined) by_room by_server d)
      | inr e ↦
          rw (e, drop_servers)
            (distinct-drop_servers room olds joined (remove (room, old) by_room) _
              (distinct-remove (room, old) by_room d))
    ]

-- The tables of servers hold the same pairs in both orders, each once.
abbrev pub ArePaired : List Key → List Key → Type 0
ArePaired by_room by_server =
    (distinct by_room ≡ true)
    × ((r server : Bytes) → contains by_room (r, server) ≡ contains by_server (server, r))

module _ (room : Bytes) (servers : List Bytes) (by_room by_server : List Key)
    (paired : ArePaired by_room by_server) where
  -- The tables hold the servers that are given for the room, and what they held for other rooms.
  pub update_servers-contains :
      (r server : Bytes)
      → (let updated =
            update_servers room (keys_prefix room by_room) servers (by_room, by_server) in
          (contains updated.0 (r, server)
            ≡ (if room == r then contains servers server else contains by_server (server, r)))
          × (contains updated.1 (server, r)
              ≡ (if room == r then contains servers server else contains by_server (server, r))))
  unfolding update_servers
  update_servers-contains r server =
      let olds = keys_prefix room by_room in
      let dropped = drop_servers room olds (servers, by_room, by_server) in
      let drops =
        contains-drop_servers room r server olds servers by_room by_server
          (distinct-keys_prefix room by_room paired.0) in
      let adds = contains-add_servers room r server dropped.0 dropped.1 dropped.2 in
      (
        ground (
          arith,
          adds.0,
          drops.0,
          drops.1,
          contains-keys_prefix room server by_room,
          paired.1 r server,
          bytes_beq_iff room r,
        ),
        ground (
          arith,
          adds.1,
          drops.0,
          drops.2,
          contains-keys_prefix room server by_room,
          paired.1 r server,
          bytes_beq_iff room r,
        ),
      )

  pub update_servers-ArePaired :
      (let updated = update_servers room (keys_prefix room by_room) servers (by_room, by_server) in
        ArePaired updated.0 updated.1)
  unfolding update_servers
  update_servers-ArePaired =
      let olds = keys_prefix room by_room in
      let dropped = drop_servers room olds (servers, by_room, by_server) in
      (
        distinct-add_servers room dropped.0 dropped.1 dropped.2
            (distinct-drop_servers room olds servers by_room by_server paired.0),
        (λ r server. let both = update_servers-contains r server in both.0 ∙ sym both.1),
      )
