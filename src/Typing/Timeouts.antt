-- ===== src/Typing/Timeouts.antt =====
-- Who types after the timeouts have been looked at, and what is sent then.
use cinquain.Prelude.{
  append-nil, append_assoc, ℕ, ◌≡◌, refl, sym, ap, ◌∙◌, Bool, true, false, ◌&&◌, Option, none, some,
  List, [], ◌∷◌, ◌++◌, map, String, ◌==◌, string_eq, ltb, keep, if◌then◌else◌, is_empty, contains,
  distinct, arith, Bool-cases, inl, inr,
}
use cinquain.Prelude.Map
use cinquain.Typing.{
  Room, TypingContent, Service, room_of, update_room, delete_users, removable, federation_send,
  federation_stop, typings_maintain,
}

get-delete_users :
    (users : List String) (room : Room) (user : String)
    → Map.get user (delete_users users room)
      ≡ (if contains users user then none else Map.get user room)
unfolding delete_users contains
get-delete_users [] room user = refl
get-delete_users (other ∷ users) room user =
    ground
      (arith, get-delete_users users (Map.delete other room) user, Map.get-delete other user room)

-- What is left of a timeout at some time.
abbrev pub unless_over : ℕ → Option ℕ → Option ℕ
unless_over now none = none
unless_over now (some timeout) = if ltb timeout now then none else some timeout

removable-not_key :
    (now : ℕ) (room : Room) (user : String)
    → contains (Map.keys room) user ≡ false
    → contains (removable now room) user ≡ false
unfolding removable contains
removable-not_key now [] user h = refl
removable-not_key now ((other, timeout) ∷ room) user h =
    ground (arith, removable-not_key now room user)

removable-unless_over :
    (now : ℕ) (room : Room) (user : String)
    → distinct (Map.keys room) ≡ true
    → (if contains (removable now room) user then none else Map.get user room)
      ≡ unless_over now (Map.get user room)
unfolding removable contains Map.get distinct
removable-unless_over now [] user d = refl
removable-unless_over now ((other, timeout) ∷ room) user d = ground (
  arith,
  removable-unless_over now room user,
  removable-not_key now room other,
  string_eq.beq_iff other user,
)

contains-empty :
    (users : List String) (user : String) → is_empty users ≡ true → contains users user ≡ false
unfolding contains
contains-empty [] user h = refl
contains-empty (other ∷ users) user h = absurd (ground arith)

empty-nil : (users : List String) → is_empty users ≡ true → users ≡ []
empty-nil [] h = refl
empty-nil (other ∷ users) h = absurd (ground arith)

module _ (allow_outgoing_typing : Bool) (user_is_local : String → Bool) where
  federation_stop-typing :
      (room_id : String) (users : List String) (s : Service)
      → (federation_stop allow_outgoing_typing user_is_local room_id users s).typing ≡ s.typing
  unfolding federation_stop federation_send
  federation_stop-typing room_id [] s = refl
  federation_stop-typing room_id (user ∷ users) s =
      elim (Bool-cases (user_is_local user && allow_outgoing_typing)) [
        | inl q ↦
            rw (federation_stop, federation_send, q)
              (federation_stop-typing room_id users (record {
                typing = s.typing;
                last_update = s.last_update;
                count = s.count;
                updated_rooms = s.updated_rooms;
                sent = s.sent ++ (room_id, user, false) ∷ [];
              }))
        | inr q ↦ rw (federation_stop, federation_send, q) (federation_stop-typing room_id users s)
      ]

  room_of-update_room :
      (room_id other : String) (room : Room) (s : Service)
      → room_of other (update_room room_id room s)
        ≡ (if room_id == other then room else room_of other s)
  unfolding room_of update_room
  room_of-update_room room_id other room s =
      ground (arith, Map.get-insert room_id other room s.typing)

  room_of-typing :
      (other : String) (s t : Service) → s.typing ≡ t.typing → room_of other s ≡ room_of other t
  unfolding room_of
  room_of-typing other s t h = ground arith

  -- Once the timeouts of a room have been looked at, exactly the users of that room whose timeout is
  -- not before the time still type, with the timeout that they had; other rooms stay as they are.
  pub typings_maintain-get :
      (now : ℕ) (room_id other user : String) (s : Service)
      → distinct (Map.keys (room_of room_id s)) ≡ true
      → Map.get user
          (room_of other (typings_maintain allow_outgoing_typing user_is_local now room_id s))
        ≡ (if room_id == other
            then unless_over now (Map.get user (room_of other s))
            else Map.get user (room_of other s))
  unfolding typings_maintain
  typings_maintain-get now room_id other user s d =
      let users = removable now (room_of room_id s) in
      let over = removable-unless_over now (room_of room_id s) user d in
      elim (Bool-cases (is_empty (removable now (room_of room_id s)))) [
        | inl q ↦
            rw (typings_maintain, q)
              (ground (arith, over, contains-empty users user, string_eq.beq_iff room_id other))
        | inr q ↦
            let updated = update_room room_id (delete_users users (room_of room_id s)) s in
            let stopped =
              federation_stop allow_outgoing_typing user_is_local room_id users updated in
            rw (typings_maintain, q)
              (ap (λ room. Map.get user room)
                  (room_of-typing other stopped updated
                      (federation_stop-typing room_id users updated)
                    ∙ room_of-update_room room_id other (delete_users users (room_of room_id s)) s)
                ∙ ground (
                  arith,
                  over,
                  get-delete_users users (room_of room_id s) user,
                  string_eq.beq_iff room_id other,
                ))
      ]

  -- The EDUs that tell other servers that local users have stopped.
  abbrev pub stops : String → List String → List TypingContent
  stops room_id users =
      map (λ user. (room_id, user, false))
        (keep (λ user. user_is_local user && allow_outgoing_typing) users)

  federation_stop-sent :
      (room_id : String) (users : List String) (s : Service)
      → (federation_stop allow_outgoing_typing user_is_local room_id users s).sent
        ≡ s.sent ++ stops room_id users
  unfolding federation_stop federation_send keep
  federation_stop-sent room_id [] s = sym (append-nil s.sent)
  federation_stop-sent room_id (user ∷ users) s =
      elim (Bool-cases (user_is_local user && allow_outgoing_typing)) [
        | inl q ↦
            rw (federation_stop, federation_send, q)
              (federation_stop-sent room_id users (record {
                typing = s.typing;
                last_update = s.last_update;
                count = s.count;
                updated_rooms = s.updated_rooms;
                sent = s.sent ++ (room_id, user, false) ∷ [];
              })
                ∙ append_assoc s.sent ((room_id, user, false) ∷ []) (stops room_id users))
        | inr q ↦ rw (federation_stop, federation_send, q) (federation_stop-sent room_id users s)
      ]

  -- Looking at the timeouts of a room tells other servers, where that is allowed, that the local users
  -- whose timeout is over have stopped typing, and nothing else.
  pub typings_maintain-sent :
      (now : ℕ) (room_id : String) (s : Service)
      → (typings_maintain allow_outgoing_typing user_is_local now room_id s).sent
        ≡ s.sent ++ stops room_id (removable now (room_of room_id s))
  unfolding typings_maintain update_room keep
  typings_maintain-sent now room_id s =
      let users = removable now (room_of room_id s) in
      elim (Bool-cases (is_empty users)) [
        | inl q ↦
            rw (typings_maintain, q)
              (sym (append-nil s.sent)
                ∙ ap (λ us. s.sent ++ stops room_id us) (sym (empty-nil users q)))
        | inr q ↦
            rw (typings_maintain, q)
              (federation_stop-sent room_id users
                (update_room room_id (delete_users users (room_of room_id s)) s))
      ]
