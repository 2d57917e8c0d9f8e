-- ===== src/Rooms/Members/Refinement.antt =====
-- The calls on the membership tables keep to the past of each user in each room that `act` describes.
use cinquain.Prelude.{
  ◌≡◌, refl, sym, ◌∙◌, Bool, true, false, ◌||◌, ◌&&◌, Option, none, some, List, [], ◌∷◌, ◌++◌, ◌==◌,
  pair_eq, option_eq, contains-insert_new, inl, inr, if◌then◌else◌, arith,
}
use cinquain.Core.Errors.{Try, good, fault, invite_blocked, Try-cases}
use cinquain.Core.Bytes.{Bytes, bytes_eq, bytes_beq_iff}
use cinquain.Rooms.Members.{
  MemberTables, mark_as_joined, put_left, forget, mark_as_knocked, mark_as_once_joined, once_joined,
}
use cinquain.Rooms.Members.Status.{Status, Holds}
use cinquain.Rooms.Members.Refines.{
  unless_left, Holds-mark_as_joined, Holds-forget, Holds-put_left, Holds-mark_as_knocked,
  Holds-put_invited, Holds-mark_as_once_joined, Holds-put_via, Holds-update_joined_count,
}
use cinquain.Rooms.Members.Counts.{update_joined_count}
use cinquain.Rooms.Members.Via.{sort_dedup, add_servers_invite_via, servers_invite_via, put_via}
use cinquain.Rooms.Members.Updates.{
  Services, is_block, Done, put_invited, mark_as_left, mark_as_invited, if_added, add_via, and_then,
}
use cinquain.Rooms.Members.Replay.{Past, joins, leaves, is_invited_by, IsPast}

module _ {Pdu Stripped : Type 0} where
  IsPast-if :
      (b : Bool) (t : MemberTables Pdu Stripped) (u r : Bytes) (s : Status) (p : Past)
      → Holds t u r (if b then s else p.0)
      → once_joined u r t ≡ p.1
      → IsPast t u r (if b then (s, p.1) else p)
  IsPast-if true t u r s p h o = (h, o)
  IsPast-if false t u r s p h o = (h, o)

  Once-if :
      (b : Bool) (t : MemberTables Pdu Stripped) (u r : Bytes) (p : Past)
      → Holds t u r p.0
      → once_joined u r t ≡ (b || p.1)
      → IsPast t u r (if b then (p.0, true) else p)
  Once-if true t u r p h o = (h, o)
  Once-if false t u r p h o = (h, o)

  module _ (user room u r : Bytes) (t : MemberTables Pdu Stripped) (p : Past)
      (h : IsPast t u r p) where
    pub IsPast-joined :
        IsPast
          (mark_as_joined user room t)
          u
          r
          (if user == u && room == r then (Status.joined, p.1) else p)
    unfolding mark_as_joined once_joined
    IsPast-joined =
        IsPast-if (user == u && room == r) _ u r Status.joined p
          (Holds-mark_as_joined user room u r t p.0 h.0) h.1

    pub IsPast-forget :
        IsPast
          (forget room user t)
          u
          r
          (if user == u && room == r then (unless_left p.0, p.1) else p)
    unfolding forget once_joined
    IsPast-forget =
        IsPast-if (user == u && room == r) _ u r (unless_left p.0) p
          (Holds-forget user room u r t p.0 h.0) h.1

    IsPast-put_left :
        (pdu : Option Pdu)
        → IsPast
            (put_left user room pdu t)
            u
            r
            (if user == u && room == r then (Status.left, p.1) else p)
    unfolding put_left once_joined
    IsPast-put_left pdu =
        IsPast-if (user == u && room == r) _ u r Status.left p
          (Holds-put_left user room u r t p.0 h.0 pdu) h.1

    pub IsPast-knocked :
        (state : Option (List Stripped))
        → IsPast
            (mark_as_knocked user room state t)
            u
            r
            (if user == u && room == r then (Status.knocked, p.1) else p)
    unfolding mark_as_knocked once_joined
    IsPast-knocked state =
        IsPast-if (user == u && room == r) _ u r Status.knocked p
          (Holds-mark_as_knocked user room u r t p.0 h.0 state) h.1

    IsPast-put_invited :
        (sender : Bytes) (state : List Stripped)
        → IsPast
            (put_invited user room sender state t)
            u
            r
            (if user == u && room == r then (Status.invited, p.1) else p)
    unfolding put_invited once_joined
    IsPast-put_invited sender state =
        IsPast-if (user == u && room == r) _ u r Status.invited p
          (Holds-put_invited user room u r t p.0 h.0 sender state) h.1

    IsPast-once :
        IsPast
          (mark_as_once_joined user room t)
          u
          r
          (if user == u && room == r then (p.0, true) else p)
    unfolding mark_as_once_joined once_joined
    IsPast-once =
        Once-if (user == u && room == r) _ u r p (Holds-mark_as_once_joined user room u r t p.0 h.0)
          (ground (arith, h.1, contains-insert_new (user, room) (u, r) t.roomuseroncejoinedids))

    IsPast-put_via : (servers : List Bytes) → IsPast (put_via room servers t) u r p
    unfolding put_via once_joined
    IsPast-put_via servers = (Holds-put_via user room u r t p.0 h.0 servers, h.1)

    pub IsPast-counted :
        (server_name : Bytes → Bytes) → IsPast (update_joined_count server_name room t) u r p
    unfolding update_joined_count once_joined
    IsPast-counted server_name =
        (Holds-update_joined_count user room u r t p.0 h.0 server_name, h.1)

  -- The status that `forget` leaves behind `put_left`.
  IsPast-forgot :
      (b : Bool) (t : MemberTables Pdu Stripped) (u r : Bytes) (p : Past)
      → (let q : Past = if b then (Status.left, p.1) else p in
          IsPast t u r (if b then (unless_left q.0, q.1) else q))
      → IsPast t u r (if b then (Status.absent, p.1) else p)
  IsPast-forgot true t u r p h = h
  IsPast-forgot false t u r p h = h

  IsPast-left_if :
      (b : Bool) (user room u r : Bytes) (pdu : Option Pdu) (t : MemberTables Pdu Stripped)
      (p : Past)
      → IsPast t u r p
      → IsPast
          (if b then forget room user (put_left user room pdu t) else put_left user room pdu t)
          u
          r
          (if user == u && room == r
            then (if b then (Status.absent, p.1) else (Status.left, p.1))
            else p)
  IsPast-left_if true user room u r pdu t p h = IsPast-forgot (user == u && room == r) _ u r p (
      IsPast-forget user room u r (put_left user room pdu t)
        (if user == u && room == r then (Status.left, p.1) else p)
        (IsPast-put_left user room u r t p h pdu))
  IsPast-left_if false user room u r pdu t p h = IsPast-put_left user room u r t p h pdu

  pub IsPast-unmoved :
      (b : Bool) (t : MemberTables Pdu Stripped) (u r : Bytes) (p : Past)
      → IsPast t u r p
      → IsPast t u r (if b then p else p)
  IsPast-unmoved true t u r p h = h
  IsPast-unmoved false t u r p h = h

  -- Who joins has joined before from then on.
  IsPast-again :
      (b : Bool) (t : MemberTables Pdu Stripped) (u r : Bytes) (p : Past)
      → (b ≡ true → p.1 ≡ true)
      → IsPast t u r (if b then (Status.joined, p.1) else p)
      → IsPast t u r (if b then (Status.joined, true) else p)
  IsPast-again true t u r p k h = (h.0, h.1 ∙ k refl)
  IsPast-again false t u r p k h = h

  IsPast-first :
      (b : Bool) (t : MemberTables Pdu Stripped) (u r : Bytes) (p : Past)
      → (let q : Past = if b then (p.0, true) else p in
          IsPast t u r (if b then (Status.joined, q.1) else q))
      → IsPast t u r (if b then (Status.joined, true) else p)
  IsPast-first true t u r p h = h
  IsPast-first false t u r p h = h

  module _ (services : Services Pdu Stripped) (user room u r : Bytes) where
    pub IsPast-mark_as_left :
        (pdu : Option Pdu) (t : MemberTables Pdu Stripped) (p : Past)
        → IsPast t u r p
        → IsPast
            (mark_as_left services user room pdu t)
            u
            r
            (if user == u && room == r then leaves services user room p else p)
    unfolding mark_as_left
    IsPast-mark_as_left pdu t p h = IsPast-left_if _ user room u r pdu t p h

    IsPast-if_added :
        (before : MemberTables Pdu Stripped) (after : Try (MemberTables Pdu Stripped)) (p : Past)
        → IsPast before u r p
        → ((t : MemberTables Pdu Stripped) → after ≡ good t → IsPast t u r p)
        → IsPast (if_added before after).1 u r p
    IsPast-if_added before (fault x) p h k = h
    IsPast-if_added before (good t) p h k = k t refl

    IsPast-add_via :
        (via : Option (List Bytes)) (t : MemberTables Pdu Stripped) (p : Past)
        → IsPast t u r p
        → IsPast (add_via room via t).1 u r p
    unfolding add_servers_invite_via
    IsPast-add_via none t p h = h
    IsPast-add_via (some []) t p h = h
    IsPast-add_via (some (server ∷ servers)) t p h = elim (Try-cases (servers_invite_via room t)) [
      | inl (stored, e) ↦
          rw e (IsPast-put_via user room u r t p h (sort_dedup (stored ++ server ∷ servers)))
      | inr (x, e) ↦ rw e h
    ]

    IsPast-invited_if :
        (b : Bool) (sender : Bytes) (state : List Stripped) (via : Option (List Bytes))
        (t : MemberTables Pdu Stripped) (p : Past)
        → IsPast t u r p
        → IsPast
            (if b
              then (fault invite_blocked, t)
              else add_via room via (put_invited user room sender state t)).1
            u
            r
            (if user == u && room == r then (if b then p else (Status.invited, p.1)) else p)
    IsPast-invited_if true sender state via t p h =
        IsPast-unmoved (user == u && room == r) t u r p h
    IsPast-invited_if false sender state via t p h =
        IsPast-add_via via _ _ (IsPast-put_invited user room u r t p h sender state)

    pub IsPast-mark_as_invited :
        (sender : Bytes) (state : List Stripped) (via : Option (List Bytes))
        (t : MemberTables Pdu Stripped) (p : Past)
        → IsPast t u r p
        → IsPast
            (mark_as_invited services user room sender state via t).1
            u
            r
            (if user == u && room == r then is_invited_by services sender user p else p)
    unfolding mark_as_invited
    IsPast-mark_as_invited sender state via t p h =
        IsPast-invited_if (is_block (services.invite_filter_level sender user)) sender state via t p
          h

    pub once_same :
        (t : MemberTables Pdu Stripped) (p : Past)
        → IsPast t u r p
        → (user == u && room == r) ≡ true
        → once_joined user room t ≡ p.1
    once_same t p h e =
        let users : user ≡ u = ground (arith, bytes_beq_iff user u) in
        let rooms : room ≡ r = ground (arith, bytes_beq_iff room r) in rw (users, rooms) h.1

    IsPast-joined_first :
        (t : MemberTables Pdu Stripped) (p : Past)
        → IsPast t u r p
        → IsPast
            (mark_as_joined user room (mark_as_once_joined user room t))
            u
            r
            (if user == u && room == r then (Status.joined, true) else p)
    IsPast-joined_first t p h = IsPast-first (user == u && room == r) _ u r p (
        IsPast-joined user room u r (mark_as_once_joined user room t) _
          (IsPast-once user room u r t p h))

    pub IsPast-rejoin_if :
        (once local : Bool) (copied : Done) (t : MemberTables Pdu Stripped) (p : Past)
        → IsPast t u r p
        → ((user == u && room == r) ≡ true → once ≡ p.1)
        → IsPast
            (and_then
              (if once
                then (good tt, t)
                else if local
                then (copied, mark_as_once_joined user room t)
                else (good tt, mark_as_once_joined user room t))
              (mark_as_joined user room)).1
            u
            r
            (if user == u && room == r
              then (if once
                  then (Status.joined, true)
                  else if local
                  then joins copied p
                  else (Status.joined, true))
              else p)
    IsPast-rejoin_if true local copied t p h k =
        IsPast-again (user == u && room == r) _ u r p (λ e. sym (k e))
          (IsPast-joined user room u r t p h)
    IsPast-rejoin_if false false copied t p h k = IsPast-joined_first t p h
    IsPast-rejoin_if false true (good done) t p h k = IsPast-joined_first t p h
    IsPast-rejoin_if false true (fault x) t p h k = IsPast-once user room u r t p h
