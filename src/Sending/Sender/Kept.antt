-- ===== src/Sending/Sender/Kept.antt =====
-- What becomes of the requests that are stored: a row is deleted by a good answer alone.
use mathlib.Core.Path.{subst}
use cinquain.Prelude.{
  ℕ, ◌≡◌, refl, sym, Bool, true, false, not, ◌&&◌, ◌||◌, Option, none, some, List, [], ◌∷◌, ◌++◌,
  ◌==◌, contains, if◌then◌else◌, arith, Bool-cases, ◌⊎◌, inl, inr,
}
use cinquain.Prelude.Map
use cinquain.Core.Errors.{good, ◌>>=◌, >>=-eq-good, good-injective}
use cinquain.Core.Bytes.{Bytes, bytes_eq, bytes_beq_iff, starts_with}
use cinquain.Sending.Keys.{Destination, SendingEvent, Parsers, get_prefix, request_value}
use cinquain.Sending.Rows.{
  Table, Tables, QueueItem, put, drop_row, take_prefix, scan, drop_rows, mark_as_active,
  delete_all_active_requests_for, queued_requests, active_requests_for,
}
use cinquain.Sending.Sender.{
  CurTransactionStatus, Config, Sender, Msg, select_events, send_selected, send_or_remove,
  events_of, should_attempt_send, dequeue_limit, edus_for, handle_request, handle_response,
  handle_response_ok, handle_response_err,
}
use cinquain.Sending.Sender.Steps.{Step, requested, answered, with_futures}

contains-put :
    (key other value : Bytes) (table : Table)
    → contains (Map.keys (put key value table)) other
      ≡ (key == other || contains (Map.keys table) other)
unfolding put contains
contains-put key other value [] = refl
contains-put key other value ((k, v) ∷ table) =
    ground (arith, contains-put key other value table, bytes_beq_iff k key)

contains-drop_row :
    (key other : Bytes) (table : Table)
    → contains (Map.keys (drop_row key table)) other
      ≡ (not (key == other) && contains (Map.keys table) other)
unfolding drop_row contains
contains-drop_row key other [] = ground arith
contains-drop_row key other ((k, v) ∷ table) = ground (
  arith,
  contains-drop_row key other table,
  bytes_beq_iff k key,
  bytes_beq_iff k other,
  bytes_beq_iff key other,
)

contains-drop_rows :
    (rows table : Table) (key : Bytes)
    → contains (Map.keys (drop_rows rows table)) key
      ≡ (not (contains (Map.keys rows) key) && contains (Map.keys table) key)
unfolding drop_rows contains
contains-drop_rows [] table key = ground arith
contains-drop_rows ((k, v) ∷ rows) table key =
    ground (arith, contains-drop_rows rows (drop_row k table) key, contains-drop_row k key table)

take_prefix-starts :
    (prefix key : Bytes) (table : Table)
    → contains (Map.keys (take_prefix prefix table)) key ≡ true
    → starts_with key prefix ≡ true
unfolding take_prefix contains
take_prefix-starts prefix key [] h = cc
take_prefix-starts prefix key ((k, v) ∷ table) h =
    ground (arith, take_prefix-starts prefix key table, bytes_beq_iff k key)

scan-starts :
    (prefix key : Bytes) (table : Table)
    → contains (Map.keys (scan prefix table)) key ≡ true
    → starts_with key prefix ≡ true
unfolding scan contains
scan-starts prefix key [] h = cc
scan-starts prefix key ((k, v) ∷ table) h =
    ground (arith, scan-starts prefix key table, take_prefix-starts prefix key ((k, v) ∷ table))

-- A request is stored, among the active ones or in the queue.
abbrev pub is_stored : Tables → Bytes → Bool
is_stored db key = contains (Map.keys db.current) key || contains (Map.keys db.queued) key

mark_as_active-stored :
    (items : List QueueItem) (db : Tables) (key : Bytes)
    → is_stored db key ≡ true
    → is_stored (mark_as_active items db) key ≡ true
unfolding mark_as_active
mark_as_active-stored [] db key h = h
mark_as_active-stored (([], event) ∷ items) db key h = mark_as_active-stored items db key h
mark_as_active-stored ((b ∷ bytes, event) ∷ items) db key h = mark_as_active-stored items _ key (
    ground (
      arith,
      contains-put (b ∷ bytes) key (request_value event) db.current,
      contains-drop_row (b ∷ bytes) key db.queued,
    ))

send_or_remove-db :
    (dest : Destination) (events : List SendingEvent) (s : Sender)
    → (send_or_remove dest events s).db ≡ s.db
unfolding send_or_remove
send_or_remove-db dest [] s = refl
send_or_remove-db dest (event ∷ events) s = refl

send_selected-db :
    (dest : Destination) (selected : Option (List SendingEvent) × Sender)
    → (send_selected dest selected).db ≡ selected.1.db
send_selected-db dest (none, s) = refl
send_selected-db dest (some events, s) = send_or_remove-db dest events s

abbrev StillStored : Bytes → Option (List SendingEvent) × Sender → Type 0
StillStored key selected = is_stored selected.1.db key ≡ true

module _ (parsers : Parsers) where
  -- The branches of `select_events`.
  attempted-StillStored :
      (allow retry : Bool) (statuses : CurTransactionStatus) (edus : List SendingEvent)
      (dest : Destination) (items : List QueueItem) (s : Sender)
      (selected : Option (List SendingEvent) × Sender) (key : Bytes)
      → is_stored s.db key ≡ true
      → (if not allow
          then good (none, record { db = s.db; futures = s.futures; statuses = statuses })
          else if retry
          then (active_requests_for parsers dest s.db >>= λ active. good (
            some (events_of active),
            record { db = s.db; futures = s.futures; statuses = statuses },
          ))
          else good (
            some (events_of items ++ edus_for dest edus),
            record { db = mark_as_active items s.db; futures = s.futures; statuses = statuses },
          ))
        ≡ good selected
      → StillStored key selected
  attempted-StillStored false retry statuses edus dest items s selected key h q =
      subst (StillStored key) (good-injective q) h
  attempted-StillStored true true statuses edus dest items s selected key h q =
      let (active, found, ends) =
        >>=-eq-good (active_requests_for parsers dest s.db)
          (λ active. good (
            some (events_of active),
            record { db = s.db; futures = s.futures; statuses = statuses },
          ))
          q in
      subst (StillStored key) (good-injective ends) h
  attempted-StillStored true false statuses edus dest items s selected key h q =
      subst (StillStored key) (good-injective q) (mark_as_active-stored items s.db key h)

  select_events-stored :
      (config : Config) (now : ℕ) (edus : List SendingEvent) (dest : Destination)
      (items : List QueueItem) (s : Sender) (selected : Option (List SendingEvent) × Sender)
      (key : Bytes)
      → is_stored s.db key ≡ true
      → select_events parsers config now edus dest items s ≡ good selected
      → StillStored key selected
  unfolding select_events
  select_events-stored config now edus dest items s selected key h q =
      let attempted = should_attempt_send config now dest s.statuses in
      attempted-StillStored attempted.0 attempted.1 attempted.2 edus dest items s selected key h q

  handle_request-stored :
      (config : Config) (now : ℕ) (edus : List SendingEvent) (msg : Msg) (s after : Sender)
      (key : Bytes)
      → is_stored s.db key ≡ true
      → handle_request parsers config now edus msg s ≡ good after
      → is_stored after.db key ≡ true
  unfolding handle_request
  handle_request-stored config now edus msg s after key h q =
      let items : List QueueItem = (msg.queue_id, msg.event) ∷ [] in
      let (selected, found, ends) =
        >>=-eq-good (select_events parsers config now edus msg.dest items s)
          (λ selected. good (send_selected msg.dest selected)) q in
      let kept = select_events-stored config now edus msg.dest items s selected key h found in
      subst (λ (u : Sender). is_stored u.db key ≡ true) (good-injective ends)
        (subst (λ (db : Tables). is_stored db key ≡ true) (sym (send_selected-db msg.dest selected))
          kept)

  -- A good answer deletes active requests whose keys have the prefix of the destination.
  handle_response_ok-stored :
      (dest : Destination) (s after : Sender) (key : Bytes)
      → is_stored s.db key ≡ true
      → handle_response_ok parsers dest s ≡ good after
      → (is_stored after.db key ≡ true)
        ⊎ ((starts_with key (get_prefix dest) ≡ true)
            × (contains (Map.keys s.db.current) key ≡ true)
            × (contains (Map.keys s.db.queued) key ≡ false))
  unfolding handle_response_ok delete_all_active_requests_for
  handle_response_ok-stored dest s after key h q =
      let db = delete_all_active_requests_for dest s.db in
      let (items, found, ends) =
        >>=-eq-good (queued_requests parsers dest dequeue_limit db)
          (λ items. good (
            send_or_remove dest (events_of items) (record {
              db = mark_as_active items db;
              futures = s.futures;
              statuses = s.statuses;
            })))
          q in
      let rows = scan (get_prefix dest) s.db.current in
      let left = contains-drop_rows rows s.db.current key in
      let last : Sender = record {
        db = mark_as_active items db;
        futures = s.futures;
        statuses = s.statuses;
      } in
      elim (Bool-cases (is_stored db key)) [
        | inl e ↦ inl (
            subst (λ (u : Sender). is_stored u.db key ≡ true) (good-injective ends)
              (subst (λ (d : Tables). is_stored d key ≡ true)
                (sym (send_or_remove-db dest (events_of items) last))
                (mark_as_active-stored items db key e)))
        | inr e ↦ inr (
          scan-starts (get_prefix dest) key s.db.current (ground arith),
          ground arith,
          ground arith,
        )
      ]

  -- The destination of the good answer that a step is, if it is one.
  unfoldable pub well_answered :
      (config : Config) (s after : Sender) → Step parsers config s after → Option Destination
  well_answered config s after (requested now edus msg q) = none
  well_answered config s after (answered now true before later t f q) = some t.dest
  well_answered config s after (answered now false before later t f q) = none

  -- A request that is stored before a step is stored after it, unless the step is a good answer, the
  -- request was active and not queued, and its key has the prefix of the answer's destination.
  pub Step-keeps :
      (config : Config) (s after : Sender) (step : Step parsers config s after) (key : Bytes)
      → is_stored s.db key ≡ true
      → (is_stored after.db key ≡ true)
        ⊎ ((dest : Destination) × (well_answered config s after step ≡ some dest)
            × (starts_with key (get_prefix dest) ≡ true)
            × (contains (Map.keys s.db.current) key ≡ true)
            × (contains (Map.keys s.db.queued) key ≡ false))
  unfolding handle_response well_answered
  Step-keeps config s after (requested now edus msg q) key h =
      inl (handle_request-stored config now edus msg s after key h q)
  Step-keeps config s after (answered now true before later t f q) key h =
      elim (handle_response_ok-stored t.dest (with_futures parsers s (before ++ later)) after key h
        q) [ inl kept ↦ inl kept | inr gone ↦ inr (t.dest, refl, gone.0, gone.1, gone.2) ]
  Step-keeps config s after (answered now false before later t f q) key h =
      let (statuses, found, ends) =
        >>=-eq-good (handle_response_err now t.dest s.statuses)
          (λ (statuses : CurTransactionStatus).
            good (record { db = s.db; futures = before ++ later; statuses = statuses }))
          q in
      inl (subst (λ (u : Sender). is_stored u.db key ≡ true) (good-injective ends) h)
