-- ===== src/Rooms/Members/Runs.antt =====
-- What the membership tables hold after any sequence of calls.
use mathlib.Core.Path.{subst}
use cinquain.Prelude.{
  ◌≡◌, refl, Bool, true, false, ◌&&◌, none, some, List, [], ◌∷◌, ◌==◌, pair_eq, option_eq,
  if◌then◌else◌,
}
use cinquain.Core.Errors.{Try, good, fault}
use cinquain.Core.Bytes.{Bytes, bytes_eq}
use cinquain.Matrix.{Membership}
use cinquain.Rooms.Members.{MemberTables, once_joined}
use cinquain.Rooms.Members.Refinement.{
  IsPast-joined, IsPast-forget, IsPast-knocked, IsPast-counted, IsPast-mark_as_left,
  IsPast-mark_as_invited, IsPast-rejoin_if, once_same, IsPast-unmoved,
}
use cinquain.Rooms.Members.Updates.{
  Services, Done, update_join, update_arm, update_membership, and_then, update_if, update_content,
}
use cinquain.Rooms.Members.Replay.{
  Call, Past, run, rejoins, changes, act, replay, IsPast, Represents,
}

if_same {ℓ} :
    {A : Type ℓ} (b : Bool) (x y z : A)
    → (b ≡ true → x ≡ y)
    → (if b then x else z) ≡ (if b then y else z)
if_same true x y z h = h refl
if_same false x y z h = refl

module _ {Pdu Stripped : Type 0} (services : Services Pdu Stripped) where
  module _ (user room u r : Bytes) (t : MemberTables Pdu Stripped) (p : Past)
      (h : IsPast t u r p) where
    IsPast-update_join :
        IsPast
          (update_join services room user t).1
          u
          r
          (if user == u && room == r then rejoins services user room p else p)
    unfolding update_join
    IsPast-update_join =
        let copied = services.copy_predecessor_data room user in
        let local = services.user_is_local user in
        let once = once_same services user room u r t p h in
        subst (λ (q : Past). IsPast (update_join services room user t).1 u r q)
          (if_same (user == u && room == r) _ _ p (λ e. rw (once e) refl))
          (IsPast-rejoin_if services user room u r (once_joined user room t) local copied t p h
            once)

    IsPast-update_arm :
        (membership : Membership) (pdu : Pdu)
        → IsPast (update_arm services membership room user pdu t).1 u r (
            if user == u && room == r
            then changes services (good membership) user room pdu p
            else p)
    unfolding update_arm
    IsPast-update_arm Membership.join pdu = IsPast-update_join
    IsPast-update_arm Membership.invite pdu =
        IsPast-mark_as_invited services user room u r (services.sender pdu)
          (if services.user_is_local user then services.summary_stripped pdu room user else []) none
          t p h
    IsPast-update_arm Membership.leave pdu =
        IsPast-mark_as_left services user room u r (some pdu) t p h
    IsPast-update_arm Membership.ban pdu =
        IsPast-mark_as_left services user room u r (some pdu) t p h
    IsPast-update_arm Membership.knock pdu = IsPast-unmoved (user == u && room == r) t u r p h
    IsPast-update_arm Membership.custom pdu = IsPast-unmoved (user == u && room == r) t u r p h

    IsPast-and_count :
        (done : Done × MemberTables Pdu Stripped) (count : Bool) (q : Past)
        → IsPast done.1 u r q
        → IsPast (and_then done (update_if services count room)).1 u r q
    IsPast-and_count (fault x, after) count q k = k
    IsPast-and_count (good d, after) true q k =
        IsPast-counted user room u r after q k services.server_name
    IsPast-and_count (good d, after) false q k = k

    IsPast-update_content :
        (content : Try Membership) (pdu : Pdu) (count : Bool)
        → IsPast
            (update_content services content room user pdu count t).1
            u
            r
            (if user == u && room == r then changes services content user room pdu p else p)
    IsPast-update_content (fault x) pdu count = IsPast-unmoved (user == u && room == r) t u r p h
    IsPast-update_content (good membership) pdu count =
        IsPast-and_count (update_arm services membership room user pdu t) count _
          (IsPast-update_arm membership pdu)

    IsPast-update_membership :
        (pdu : Pdu) (count : Bool)
        → IsPast (update_membership services room user pdu count t).1 u r (
            if user == u && room == r
            then changes services (services.get_content pdu) user room pdu p
            else p)
    unfolding update_membership
    IsPast-update_membership pdu count = IsPast-update_content (services.get_content pdu) pdu count

  -- From tables that represent the past of all users in all rooms, every sequence of calls leads to
  -- tables that represent what the calls make of it, one user and room at a time.
  pub run-Represents :
      (calls : List (Call Pdu Stripped)) (t : MemberTables Pdu Stripped)
      (pasts : Bytes → Bytes → Past)
      → Represents t pasts
      → Represents (run services calls t) (replay services calls pasts)
  unfolding run replay act
  run-Represents [] t pasts h = h
  run-Represents (Call.joined user room ∷ calls) t pasts h =
      run-Represents calls _ _ (λ u r. IsPast-joined user room u r t (pasts u r) (h u r))
  run-Represents (Call.left user room pdu ∷ calls) t pasts h =
      run-Represents calls _ _
        (λ u r. IsPast-mark_as_left services user room u r pdu t (pasts u r) (h u r))
  run-Represents (Call.knocked user room state ∷ calls) t pasts h =
      run-Represents calls _ _ (λ u r. IsPast-knocked user room u r t (pasts u r) (h u r) state)
  run-Represents (Call.forgotten user room ∷ calls) t pasts h =
      run-Represents calls _ _ (λ u r. IsPast-forget user room u r t (pasts u r) (h u r))
  run-Represents (Call.invited user room sender state via ∷ calls) t pasts h =
      run-Represents calls _ _ (λ u r.
        IsPast-mark_as_invited services user room u r sender state via t (pasts u r) (h u r))
  run-Represents (Call.event user room pdu count ∷ calls) t pasts h =
      run-Represents calls _ _
        (λ u r. IsPast-update_membership user room u r t (pasts u r) (h u r) pdu count)
  run-Represents (Call.counted room ∷ calls) t pasts h =
      run-Represents calls _ _
        (λ u r. IsPast-counted room room u r t (pasts u r) (h u r) services.server_name)
