-- ===== src/Resolve/Iterative/Keys.antt =====
-- What an iterative auth check may put into the state.
use mathlib.Core.Path.{subst, sym}
use cinquain.Prelude.{
  String, ◌≡◌, Bool, true, false, some, List, [], ◌∷◌, if◌then◌else◌, ◌==◌, string_eq, pair_eq,
  arith, Bool-cases, Option-cases, inl, inr, ◌⊎◌, beq-eq,
}
use cinquain.Prelude.Map
use cinquain.Matrix.{
  ok, >>=-eq-ok, Result-cases, Pdu, StateMap, TypeStateKey, RoomVersionRules, Ruma,
}
use cinquain.Resolve.Events.{Fetch}
use cinquain.Resolve.Iterative.{
  fetch_all, fetch_auth_events, passes, check_event, check_all, iterative_auth_check,
}

module _ (ruma : Ruma) (rules : RoomVersionRules) (fetch : Fetch) where
  -- An event of the list has this key and this id, and passed its check in the state that the events
  -- before it have made of the state at the start: each that passed put its id under its key.
  pub data Put (auth_events : List (String × Pdu)) (key : TypeStateKey) (id : String)
      : List Pdu → StateMap String → Type 0 where
    here :
        {events : List Pdu} {before : StateMap String} (event : Pdu) (state_key : String)
        → event.state_key ≡ some state_key
        → (event.kind, state_key) ≡ key
        → event.event_id ≡ id
        → passes ruma rules fetch auth_events before state_key event ≡ ok true
        → Put auth_events key id (event ∷ events) before
    accepted :
        {events : List Pdu} {before : StateMap String} (event : Pdu) (state_key : String)
        → event.state_key ≡ some state_key
        → passes ruma rules fetch auth_events before state_key event ≡ ok true
        → Put auth_events key id events (Map.insert (event.kind, state_key) event.event_id before)
        → Put auth_events key id (event ∷ events) before
    rejected :
        {events : List Pdu} {before : StateMap String} (event : Pdu) (state_key : String)
        → event.state_key ≡ some state_key
        → passes ruma rules fetch auth_events before state_key event ≡ ok false
        → Put auth_events key id events before
        → Put auth_events key id (event ∷ events) before

  check_event-after :
      (auth_events : List (String × Pdu)) (event : Pdu) (before after : StateMap String)
      (state_key : String) (passed : Bool)
      → event.state_key ≡ some state_key
      → passes ruma rules fetch auth_events before state_key event ≡ ok passed
      → check_event ruma rules fetch auth_events event before ≡ ok after
      → (if passed then Map.insert (event.kind, state_key) event.event_id before else before)
        ≡ after
  unfolding check_event
  check_event-after auth_events event before after state_key passed k e h = ground arith

  check_event-cases :
      (auth_events : List (String × Pdu)) (event : Pdu) (before after : StateMap String)
      → check_event ruma rules fetch auth_events event before ≡ ok after
      → (state_key : String) × (passed : Bool) × (event.state_key ≡ some state_key)
        × (passes ruma rules fetch auth_events before state_key event ≡ ok passed)
  unfolding check_event
  check_event-cases auth_events event before after h = elim (Option-cases event.state_key) [
    | inl none_key ↦ absurd (ground arith)
    | inr (state_key, k) ↦
        elim (Result-cases (passes ruma rules fetch auth_events before state_key event)) [
          | inl (passed, e) ↦ (state_key, passed, k, e)
          | inr (x, e) ↦ absurd (ground arith)
        ]
  ]

  -- What the state after one event holds, where the events that follow put nothing.
  inserted-Put :
      (auth_events : List (String × Pdu)) (event : Pdu) (before : StateMap String)
      (state_key : String) (key : TypeStateKey) (id : String) (events : List Pdu)
      → event.state_key ≡ some state_key
      → passes ruma rules fetch auth_events before state_key event ≡ ok true
      → Map.get key (Map.insert (event.kind, state_key) event.event_id before) ≡ some id
      → (Map.get key before ≡ some id) ⊎ Put auth_events key id (event ∷ events) before
  inserted-Put auth_events event before state_key key id events k e g =
      let got = Map.get-insert (event.kind, state_key) key event.event_id before in
      elim (Bool-cases ((event.kind, state_key) == key)) [
        | inl q ↦
            inr (
              here event state_key k (beq-eq (event.kind, state_key) key q) (ground (arith, got)) e)
        | inr q ↦ inl (ground (arith, got))
      ]

  next-Put :
      (auth_events : List (String × Pdu)) (event : Pdu) (before : StateMap String)
      (state_key : String) (key : TypeStateKey) (id : String) (events : List Pdu) (passed : Bool)
      → event.state_key ≡ some state_key
      → passes ruma rules fetch auth_events before state_key event ≡ ok passed
      → let next =
          if passed then Map.insert (event.kind, state_key) event.event_id before else before in
        (Map.get key next ≡ some id) ⊎ Put auth_events key id events next
        → (Map.get key before ≡ some id) ⊎ Put auth_events key id (event ∷ events) before
  next-Put auth_events event before state_key key id events false k e (inl g) = inl g
  next-Put auth_events event before state_key key id events false k e (inr p) =
      inr (rejected event state_key k e p)
  next-Put auth_events event before state_key key id events true k e (inl g) =
      inserted-Put auth_events event before state_key key id events k e g
  next-Put auth_events event before state_key key id events true k e (inr p) =
      inr (accepted event state_key k e p)

  check_all-Put :
      (auth_events : List (String × Pdu)) (events : List Pdu) (before after : StateMap String)
      (key : TypeStateKey) (id : String)
      → check_all ruma rules fetch auth_events events before ≡ ok after
      → Map.get key after ≡ some id
      → (Map.get key before ≡ some id) ⊎ Put auth_events key id events before
  unfolding check_all
  check_all-Put auth_events [] before after key id h g = inl (ground arith)
  check_all-Put auth_events (event ∷ events) before after key id h g =
      let (mid, first, rest) =
        >>=-eq-ok (check_event ruma rules fetch auth_events event before)
          (check_all ruma rules fetch auth_events events) h in
      let (state_key, passed, k, e) = check_event-cases auth_events event before mid first in
      next-Put auth_events event before state_key key id events passed k e (
        subst (λ (m : StateMap String). (Map.get key m ≡ some id) ⊎ Put auth_events key id events m)
          (sym (check_event-after auth_events event before mid state_key passed k e first))
          (check_all-Put auth_events events mid after key id rest g))

  pub iterative_auth_check-Put :
      (completion : List String → List String) (ids : List String) (before after : StateMap String)
      (key : TypeStateKey) (id : String)
      → iterative_auth_check ruma rules fetch completion ids before ≡ ok after
      → Map.get key after ≡ some id
      → (Map.get key before ≡ some id)
        ⊎ ((events : List Pdu) × (fetch_all fetch (completion ids) ≡ ok events)
            × Put (fetch_auth_events fetch events) key id events before)
  unfolding iterative_auth_check
  iterative_auth_check-Put completion ids before after key id h g =
      let (events, fetched, checked) =
        >>=-eq-ok (fetch_all fetch (completion ids))
          (λ evs. check_all ruma rules fetch (fetch_auth_events fetch evs) evs before) h in
      elim (check_all-Put (fetch_auth_events fetch events) events before after key id checked g) [
        | inl old ↦ inl old
        | inr p ↦ inr (events, fetched, p)
      ]
