-- ===== src/Sending/Sender/Handlers.antt =====
-- What the handlers of requests and good answers, and the startup, do to the transactions in flight.
use mathlib.Core.Path.{subst}
use cinquain.Prelude.{
  ℕ, ◌≡◌, refl, sym, true, false, not, ◌&&◌, Option, none, some, List, [], ◌∷◌, ◌++◌, ◌==◌, nat_eq,
  beq_refl, if◌then◌else◌, is_empty, arith, Bool-cases, inl, inr, contains, distinct,
}
use cinquain.Prelude.Map
use cinquain.Core.Errors.{good, >>=-eq-good, Try-cases, good-injective}
use cinquain.Sending.Keys.{Destination, SendingEvent, Parsers}
use cinquain.Sending.Destinations.{destination_eq}
use cinquain.Sending.Rows.{
  Table, Tables, QueueItem, mark_as_active, delete_all_active_requests_for, queued_requests,
  active_requests_for, expect_row, delete_active_request,
}
use cinquain.Sending.Sender.{
  running, Config, Sender, Msg, should_attempt_send, events_of, edus_for, send_or_remove,
  send_selected, select_events, handle_request, handle_response_ok, collect_active, start_all,
  startup_netburst, dequeue_limit, entry_of, reaches_keep,
}
use cinquain.Sending.Sender.Flights.{
  in_flight, IsTracked, IsTrackedBut, send_or_remove-IsTracked, attempt-IsTrackedBut,
  attempt-refused,
}

module _ (parsers : Parsers) where
  -- `select_events` of a refused attempt, and what it is about in an allowed one.
  select_events-refused :
      (config : Config) (now : ℕ) (edus : List SendingEvent) (dest : Destination)
      (items : List QueueItem) (s : Sender)
      → (should_attempt_send config now dest s.statuses).0 ≡ false
      → select_events parsers config now edus dest items s ≡ good (none, s)
  unfolding select_events
  select_events-refused config now edus dest items s q =
      let p = should_attempt_send config now dest s.statuses in
      let r = attempt-refused config now dest s.statuses p.2 p.1 (ground arith) in ground arith

  select_events-allowed :
      (config : Config) (now : ℕ) (edus : List SendingEvent) (dest : Destination)
      (items : List QueueItem) (s : Sender) (selected : Option (List SendingEvent) × Sender)
      → (should_attempt_send config now dest s.statuses).0 ≡ true
      → select_events parsers config now edus dest items s ≡ good selected
      → (events : List SendingEvent) × (selected.0 ≡ some events)
        × (selected.1.statuses ≡ (should_attempt_send config now dest s.statuses).2)
        × (selected.1.futures ≡ s.futures)
  unfolding select_events
  select_events-allowed config now edus dest items s selected q r =
      elim (Bool-cases (should_attempt_send config now dest s.statuses).1) [
        | inl t ↦ elim (Try-cases (active_requests_for parsers dest s.db)) [
          | inl (active, g) ↦ (events_of active, ground arith, ground arith, ground arith)
          | inr (x, g) ↦ absurd (ground arith)
        ]
        | inr t ↦ (events_of items ++ edus_for dest edus, ground arith, ground arith, ground arith)
      ]

  pub handle_request-IsTracked :
      (config : Config) (now : ℕ) (edus : List SendingEvent) (msg : Msg) (s after : Sender)
      → IsTracked s.statuses s.futures
      → handle_request parsers config now edus msg s ≡ good after
      → IsTracked after.statuses after.futures
  unfolding handle_request
  handle_request-IsTracked config now edus msg s after h q =
      let (selected, r, a) =
        >>=-eq-good
          (select_events parsers config now edus msg.dest ((msg.queue_id, msg.event) ∷ []) s)
          (λ selected. good (send_selected msg.dest selected)) q in
      let p = should_attempt_send config now msg.dest s.statuses in
      elim (Bool-cases p.0) [
        | inr refused ↦
            let same : after ≡ s = ground (
              arith,
              select_events-refused config now edus msg.dest ((msg.queue_id, msg.event) ∷ []) s
                  refused,
            ) in
            subst (λ t. IsTracked t.statuses t.futures) (sym same) h
        | inl allowed ↦
            let (events, e, t, f) =
              select_events-allowed config now edus msg.dest ((msg.queue_id, msg.event) ∷ []) s
                selected allowed r in
            let but =
              attempt-IsTrackedBut config now msg.dest s.statuses p.2 p.1 s.futures h
                (ground arith) in
            let same : send_or_remove msg.dest events selected.1 ≡ after = ground arith in
            subst (λ u. IsTracked u.statuses u.futures) same
              (send_or_remove-IsTracked msg.dest events selected.1
                (ground (arith, but.0), λ other. ground (arith, but.1 other)))
      ]

  pub handle_response_ok-IsTracked :
      (dest : Destination) (s after : Sender)
      → IsTrackedBut dest s.statuses s.futures
      → handle_response_ok parsers dest s ≡ good after
      → IsTracked after.statuses after.futures
  unfolding handle_response_ok
  handle_response_ok-IsTracked dest s after h q =
      let db = delete_all_active_requests_for dest s.db in
      let (items, r, a) =
        >>=-eq-good (queued_requests parsers dest dequeue_limit db)
          (λ new_events. good (
            send_or_remove dest (events_of new_events) (record {
              db = mark_as_active new_events db;
              futures = s.futures;
              statuses = s.statuses;
            })))
          q in
      subst (λ t. IsTracked t.statuses t.futures) (good-injective a)
        (send_or_remove-IsTracked dest (events_of items)
          (record { db = mark_as_active items db; futures = s.futures; statuses = s.statuses }) h)

  -- The transactions are started for destinations that have none.
  start_all-IsTracked :
      (config : Config) (txns : List (Destination × List SendingEvent)) (s : Sender)
      → distinct (Map.keys txns) ≡ true
      → ((dest : Destination)
          → contains (Map.keys txns) dest ≡ true
          → Map.get dest s.statuses ≡ none)
      → IsTracked s.statuses s.futures
      → IsTracked (start_all config txns s).statuses (start_all config txns s).futures
  unfolding start_all distinct contains in_flight
  start_all-IsTracked config [] s d n h = h
  start_all-IsTracked config ((dest, events) ∷ txns) s d n h =
      elim (Bool-cases (config.startup_netburst && not (is_empty events))) [
        | inr f ↦
            rw (start_all, f)
              (start_all-IsTracked config txns s (ground arith) (λ other k. n other (ground arith))
                h)
        | inl t ↦
            rw (start_all, t)
              (start_all-IsTracked config txns
                (record {
                  db = s.db;
                  futures = record { dest = dest; events = events } ∷ s.futures;
                  statuses = Map.insert dest running s.statuses;
                })
                (ground arith)
                (λ other k. ground (
                  arith,
                  n other,
                  Map.get-insert dest other running s.statuses,
                  destination_eq.beq_iff dest other,
                ))
                (λ other. ground (
                  arith,
                  h other,
                  n dest,
                  Map.get-insert dest other running s.statuses,
                  beq_refl dest,
                  destination_eq.beq_iff dest other,
                )))
      ]

  collect_active-distinct :
      (config : Config) (shard_id : Destination → ℕ) (id : ℕ) (rows : Table)
      (txns : List (Destination × List SendingEvent)) (db : Tables)
      (collected : List (Destination × List SendingEvent) × Tables)
      → distinct (Map.keys txns) ≡ true
      → collect_active parsers config shard_id id rows txns db ≡ good collected
      → distinct (Map.keys collected.0) ≡ true
  unfolding collect_active
  collect_active-distinct config shard_id id [] txns db collected d q = ground arith
  collect_active-distinct config shard_id id ((key, value) ∷ rows) txns db collected d q =
      elim (Try-cases (expect_row parsers key value)) [
        | inr (x, f) ↦ absurd (ground arith)
        | inl ((dest, event), f) ↦
            let entry = entry_of (Map.get dest txns) in
            let is_dropped = reaches_keep config.startup_netburst_keep entry in
            let is_mine = shard_id dest == id in
            collect_active-distinct config shard_id id rows
              (if is_mine
                then Map.insert dest (if is_dropped then entry else entry ++ event ∷ []) txns
                else txns)
              (if is_mine && is_dropped then delete_active_request key db else db) collected
              (ground (
                arith,
                Map.distinct-keys-insert dest (if is_dropped then entry else entry ++ event ∷ [])
                    txns,
              ))
              (ground arith)
      ]

  pub startup_netburst-IsTracked :
      (config : Config) (shard_id : Destination → ℕ) (id : ℕ) (db : Tables) (s : Sender)
      → startup_netburst parsers config shard_id id db ≡ good s
      → IsTracked s.statuses s.futures
  unfolding startup_netburst distinct Map.get in_flight
  startup_netburst-IsTracked config shard_id id db s q =
      let begin = λ (c : List (Destination × List SendingEvent) × Tables).
        start_all config c.0 (record { db = c.1; futures = []; statuses = [] }) in
      let (collected, r, a) =
        >>=-eq-good (collect_active parsers config shard_id id db.current [] db)
          (λ (c : List (Destination × List SendingEvent) × Tables). good (begin c)) q in
      subst (λ t. IsTracked t.statuses t.futures) (good-injective a)
        (start_all-IsTracked config collected.0
          (record { db = collected.1; futures = []; statuses = [] })
          (collect_active-distinct config shard_id id db.current [] db collected refl r)
          (λ dest k. refl) (λ dest. refl))
