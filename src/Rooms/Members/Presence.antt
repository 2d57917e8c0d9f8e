-- ===== src/Rooms/Members/Presence.antt =====
-- Which servers the tables hold for a room after any sequence of calls.
use mathlib.Core.Path.{subst}
use cinquain.Prelude.{
  ◌≡◌, ◌↔◌, refl, sym, ap, ◌∙◌, Bool, true, false, Option, none, some, List, [], ◌∷◌, ◌==◌,
  contains, distinct, pair_eq, option_eq, Bool-cases, inl, inr, map, beq_refl, if◌then◌else◌, arith,
}
use cinquain.Core.Errors.{Try, good, fault, Try-cases}
use cinquain.Core.Bytes.{Bytes, bytes_eq, bytes_beq_iff}
use cinquain.Matrix.{Membership}
use cinquain.Rooms.Members.{
  MemberTables, Totals, mark_as_joined, mark_as_once_joined, once_joined, mark_as_knocked, forget,
  put_left,
}
use cinquain.Rooms.Members.Status.{Status, in_joined_iff}
use cinquain.Rooms.Members.Updates.{
  Services, Done, mark_as_left, mark_as_invited, update_join, update_arm, update_membership,
  and_then, update_if, update_content, put_invited, add_via,
}
use cinquain.Rooms.Members.Counts.{
  update_joined_count, server_in_room, room_members, room_servers, count_joined,
}
use cinquain.Rooms.Members.Servers.{
  ArePaired, update_servers-contains, update_servers-ArePaired, contains-keys_prefix,
  contains-count_joined,
}
use cinquain.Rooms.Members.Replay.{Call, run, replay, new, no_past}
use cinquain.Rooms.Members.Runs.{run-Represents}
use cinquain.Rooms.Members.Views.{new-Represents}
use cinquain.Rooms.Members.Via.{add_servers_invite_via, servers_invite_via, put_via}

module _ {Pdu Stripped : Type 0} where
  abbrev pub IsPaired : MemberTables Pdu Stripped → Type 0
  IsPaired t = ArePaired t.totals.roomserverids t.totals.serverroomids

  update_joined_count-IsPaired :
      (server_name : Bytes → Bytes) (room : Bytes) (t : MemberTables Pdu Stripped)
      → IsPaired t
      → IsPaired (update_joined_count server_name room t)
  unfolding update_joined_count room_servers
  update_joined_count-IsPaired server_name room t paired =
      update_servers-ArePaired room (count_joined server_name (room_members room t) ([], 0)).0
        t.totals.roomserverids t.totals.serverroomids paired

  server_in_room-update_joined_count :
      (server_name : Bytes → Bytes) (room r server : Bytes) (t : MemberTables Pdu Stripped)
      → IsPaired t
      → server_in_room server r (update_joined_count server_name room t) ≡ (
          if room == r
          then contains (map server_name (room_members room t)) server
          else server_in_room server r t)
  unfolding update_joined_count room_servers server_in_room contains
  server_in_room-update_joined_count server_name room r server t paired = ground (
    arith,
    (update_servers-contains room (count_joined server_name (room_members room t) ([], 0)).0
        t.totals.roomserverids t.totals.serverroomids paired r server).1,
    contains-count_joined server_name (room_members room t) [] 0 server,
  )

  module _ (services : Services Pdu Stripped) where
    totals-mark_as_left :
        (user room : Bytes) (pdu : Option Pdu) (t : MemberTables Pdu Stripped)
        → (mark_as_left services user room pdu t).totals ≡ t.totals
    unfolding mark_as_left put_left forget
    totals-mark_as_left user room pdu t = ground arith

    totals-add_via :
        (room : Bytes) (via : Option (List Bytes)) (t : MemberTables Pdu Stripped)
        → (add_via room via t).1.totals ≡ t.totals
    unfolding add_servers_invite_via put_via
    totals-add_via room none t = refl
    totals-add_via room (some []) t = refl
    totals-add_via room (some (server ∷ servers)) t = elim (Try-cases (servers_invite_via room t)) [
      | inl (stored, e) ↦ rw e refl
      | inr (x, e) ↦ rw e refl
    ]

    totals-mark_as_invited :
        (user room sender : Bytes) (state : List Stripped) (via : Option (List Bytes))
        (t : MemberTables Pdu Stripped)
        → (mark_as_invited services user room sender state via t).1.totals ≡ t.totals
    unfolding mark_as_invited put_invited
    totals-mark_as_invited user room sender state via t =
        ground (arith, totals-add_via room via (put_invited user room sender state t))

    totals-rejoin_if :
        (once local : Bool) (copied : Done) (user room : Bytes) (t : MemberTables Pdu Stripped)
        → (and_then
            (if once
              then (good tt, t)
              else if local
              then (copied, mark_as_once_joined user room t)
              else (good tt, mark_as_once_joined user room t))
            (mark_as_joined user room)).1.totals
          ≡ t.totals
    unfolding mark_as_joined mark_as_once_joined
    totals-rejoin_if true local copied user room t = refl
    totals-rejoin_if false false copied user room t = refl
    totals-rejoin_if false true (good done) user room t = refl
    totals-rejoin_if false true (fault x) user room t = refl

    totals-update_join :
        (user room : Bytes) (t : MemberTables Pdu Stripped)
        → (update_join services room user t).1.totals ≡ t.totals
    unfolding update_join
    totals-update_join user room t =
        totals-rejoin_if (once_joined user room t) (services.user_is_local user)
          (services.copy_predecessor_data room user) user room t

    totals-update_arm :
        (membership : Membership) (user room : Bytes) (pdu : Pdu) (t : MemberTables Pdu Stripped)
        → (update_arm services membership room user pdu t).1.totals ≡ t.totals
    unfolding update_arm
    totals-update_arm Membership.join user room pdu t = totals-update_join user room t
    totals-update_arm Membership.invite user room pdu t =
        totals-mark_as_invited user room (services.sender pdu) _ none t
    totals-update_arm Membership.leave user room pdu t = totals-mark_as_left user room (some pdu) t
    totals-update_arm Membership.ban user room pdu t = totals-mark_as_left user room (some pdu) t
    totals-update_arm Membership.knock user room pdu t = refl
    totals-update_arm Membership.custom user room pdu t = refl

    IsPaired-and_count :
        (done : Done × MemberTables Pdu Stripped) (count : Bool) (room : Bytes)
        → IsPaired done.1
        → IsPaired (and_then done (update_if services count room)).1
    IsPaired-and_count (fault x, t) count room paired = paired
    IsPaired-and_count (good d, t) true room paired =
        update_joined_count-IsPaired services.server_name room t paired
    IsPaired-and_count (good d, t) false room paired = paired

    IsPaired-totals :
        (s t : MemberTables Pdu Stripped) → s.totals ≡ t.totals → IsPaired t → IsPaired s
    IsPaired-totals s t e paired =
        subst (λ (x : Totals). ArePaired x.roomserverids x.serverroomids) (sym e) paired

    IsPaired-update_content :
        (content : Try Membership) (user room : Bytes) (pdu : Pdu) (count : Bool)
        (t : MemberTables Pdu Stripped)
        → IsPaired t
        → IsPaired (update_content services content room user pdu count t).1
    IsPaired-update_content (fault x) user room pdu count t paired = paired
    IsPaired-update_content (good membership) user room pdu count t paired =
        let done = update_arm services membership room user pdu t in
        IsPaired-and_count done count room
          (IsPaired-totals done.1 t (totals-update_arm membership user room pdu t) paired)

    pub run-IsPaired :
        (calls : List (Call Pdu Stripped)) (t : MemberTables Pdu Stripped)
        → IsPaired t
        → IsPaired (run services calls t)
    unfolding run update_membership mark_as_joined mark_as_knocked forget
    run-IsPaired [] t h = h
    run-IsPaired (Call.joined user room ∷ calls) t h = run-IsPaired calls _ h
    run-IsPaired (Call.left user room pdu ∷ calls) t h =
        let left = mark_as_left services user room pdu t in
        run-IsPaired calls left (IsPaired-totals left t (totals-mark_as_left user room pdu t) h)
    run-IsPaired (Call.knocked user room state ∷ calls) t h = run-IsPaired calls _ h
    run-IsPaired (Call.forgotten user room ∷ calls) t h = run-IsPaired calls _ h
    run-IsPaired (Call.invited user room sender state via ∷ calls) t h =
        let invited = (mark_as_invited services user room sender state via t).1 in
        run-IsPaired calls invited
          (IsPaired-totals invited t (totals-mark_as_invited user room sender state via t) h)
    run-IsPaired (Call.event user room pdu count ∷ calls) t h =
        run-IsPaired calls _
          (IsPaired-update_content (services.get_content pdu) user room pdu count t h)
    run-IsPaired (Call.counted room ∷ calls) t h =
        run-IsPaired calls _ (update_joined_count-IsPaired services.server_name room t h)

contains-map :
    (f : Bytes → Bytes) (xs : List Bytes) (y : Bytes)
    → (contains (map f xs) y ≡ true) ↔ ((x : Bytes) × (contains xs x ≡ true) × (f x ≡ y))
unfolding contains
contains-map f [] y = ((λ h. absurd (ground arith)), (λ h. absurd (ground (arith, h.1))))
contains-map f (x ∷ xs) y = (
  (λ h. elim (Bool-cases (f x == y)) [
    | inl e ↦ (x, ground (arith, beq_refl x), ground (arith, bytes_beq_iff (f x) y))
    | inr e ↦
        let rest = (contains-map f xs y).0 (ground arith) in
        (rest.0, ground (arith, rest.1), rest.2)
  ]),
  (λ h. elim (Bool-cases (x == h.0)) [
    | inl e ↦
        let same : x ≡ h.0 = ground (arith, bytes_beq_iff x h.0) in
        ground (arith, bytes_beq_iff (f x) y, ap f same ∙ h.2)
    | inr e ↦ let rest = (contains-map f xs y).1 (h.0, ground (arith, h.1), h.2) in ground arith
  ]),
)

module _ {Pdu Stripped : Type 0} (services : Services Pdu Stripped) where
  new-IsPaired : IsPaired {Pdu = Pdu} {Stripped = Stripped} new
  unfolding contains distinct
  new-IsPaired = (refl, λ r server. refl)

  members-joined :
      (calls : List (Call Pdu Stripped)) (room user : Bytes)
      → (contains (room_members room (run services calls new)) user ≡ true)
        ↔ ((replay services calls no_past user room).0 ≡ Status.joined)
  unfolding room_members
  members-joined calls room user =
      let t : MemberTables Pdu Stripped = run services calls new in
      let past = run-Represents services calls new no_past new-Represents user room in
      let status = in_joined_iff (replay services calls no_past user room).0 in
      let rows = contains-keys_prefix room user t.joined.roomuserid_joined in
      (
        (λ h. status.0 (sym past.0.joined.1 ∙ sym rows ∙ h)),
        (λ h. rows ∙ past.0.joined.1 ∙ status.1 h),
      )

  -- Once the members of a room have been counted after any sequence of calls on an empty database,
  -- exactly those servers are held to be in the room that some user is on whom the calls leave joined
  -- to it.
  pub server_in_room-joined :
      (calls : List (Call Pdu Stripped)) (room server : Bytes)
      → (server_in_room server room
            (update_joined_count services.server_name room (run services calls new))
          ≡ true)
        ↔ ((user : Bytes) × ((replay services calls no_past user room).0 ≡ Status.joined)
            × (services.server_name user ≡ server))
  server_in_room-joined calls room server =
      let t : MemberTables Pdu Stripped = run services calls new in
      let counted =
        server_in_room-update_joined_count services.server_name room room server t
          (run-IsPaired services calls new new-IsPaired) in
      let on = contains-map services.server_name (room_members room t) server in
      (
        (λ h.
            let user = on.0 (ground (arith, counted, beq_refl room)) in
            (user.0, (members-joined calls room user.0).0 user.1, user.2)),
        (λ h.
            let held = on.1 (h.0, (members-joined calls room h.0).1 h.1, h.2) in
            ground (arith, counted, beq_refl room)),
      )
