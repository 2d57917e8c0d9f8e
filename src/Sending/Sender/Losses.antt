-- ===== src/Sending/Sender/Losses.antt =====
-- What becomes of requests that were active at the last shutdown where `startup_netburst` is off.
use cinquain.Prelude.{
  ℕ, ◌≡◌, refl, sym, ap, ◌∙◌, true, false, not, ◌&&◌, none, List, [], ◌∷◌, ◌++◌, ◌==◌, nat_eq,
  if◌then◌else◌, is_empty, arith, Bool-cases, inl, inr,
}
use cinquain.Prelude.Map
use cinquain.Core.Errors.{Try-cases, good, >>=-eq-good, good-injective}
use cinquain.Core.Bytes.{Bytes, bytes_eq, starts_with}
use cinquain.Sending.Keys.{Destination, SendingEvent, Parsers, get_prefix}
use cinquain.Sending.Destinations.{destination_eq}
use cinquain.Sending.Rows.{
  Table, Tables, scan, mark_as_active, delete_all_active_requests_for, queued_requests, take_rows,
  parse_rows, expect_row, delete_active_request,
}
use cinquain.Sending.Scan.{IsOrdered, delete_all_active_requests_for-get}
use cinquain.Sending.Sender.{
  running, Config, Sender, Msg, attempt, should_attempt_send, edus_for, send_or_remove,
  select_events, handle_request, handle_response_ok, handle_response, collect_active, start_all,
  startup_netburst, entry_of, reaches_keep,
}
use cinquain.Sending.Sender.Steps.{with_futures}

start_all-off :
    (config : Config) (txns : List (Destination × List SendingEvent)) (s : Sender)
    → config.startup_netburst ≡ false
    → start_all config txns s ≡ s
unfolding start_all
start_all-off config [] s f = refl
start_all-off config ((dest, events) ∷ txns) s f = ground (arith, start_all-off config txns s f)

start_all-db :
    (config : Config) (txns : List (Destination × List SendingEvent)) (s : Sender)
    → (start_all config txns s).db ≡ s.db
unfolding start_all
start_all-db config [] s = refl
start_all-db config ((dest, events) ∷ txns) s =
    elim (Bool-cases (config.startup_netburst && not (is_empty events))) [
      | inl q ↦
          rw (start_all, q)
            (start_all-db config txns (record {
              db = s.db;
              futures = record { dest = dest; events = events } ∷ s.futures;
              statuses = Map.insert dest running s.statuses;
            }))
      | inr q ↦ rw (start_all, q) (start_all-db config txns s)
    ]

abbrev pub without_netburst : Config → Config
without_netburst config = record {
  sender_timeout = config.sender_timeout;
  sender_retry_backoff_limit = config.sender_retry_backoff_limit;
  startup_netburst = false;
  startup_netburst_keep = config.startup_netburst_keep;
}

module _ (parsers : Parsers) where
  startup-off :
      (config : Config) (shard_id : Destination → ℕ) (id : ℕ) (db : Tables) (s : Sender)
      → config.startup_netburst ≡ false
      → startup_netburst parsers config shard_id id db ≡ good s
      → (s.statuses ≡ []) × (s.futures ≡ [])
  unfolding startup_netburst
  startup-off config shard_id id db s f q =
      let (c, r, a) =
        >>=-eq-good (collect_active parsers config shard_id id db.current [] db)
          (λ (c : List (Destination × List SendingEvent) × Tables).
            good (start_all config c.0 (record { db = c.1; futures = []; statuses = [] })))
          q in
      let off = start_all-off config c.0 (record { db = c.1; futures = []; statuses = [] }) f in
      (ground arith, ground arith)

  first_request :
      (config : Config) (now : ℕ) (edus : List SendingEvent) (msg : Msg) (s after : Sender)
      → Map.get msg.dest s.statuses ≡ none
      → handle_request parsers config now edus msg s ≡ good after
      → after.futures
        ≡ record { dest = msg.dest; events = msg.event ∷ edus_for msg.dest edus } ∷ s.futures
  unfolding handle_request select_events should_attempt_send attempt send_or_remove
  first_request config now edus msg s after g q = ground arith

  ok-deletes :
      (now : ℕ) (dest : Destination) (s after : Sender) (key : Bytes)
      → IsOrdered s.db.current
      → starts_with key (get_prefix dest) ≡ true
      → scan (get_prefix dest) s.db.queued ≡ []
      → handle_response parsers now dest true s ≡ good after
      → Map.get key after.db.current ≡ none
  unfolding handle_response handle_response_ok queued_requests take_rows parse_rows mark_as_active
      send_or_remove delete_all_active_requests_for
  ok-deletes now dest s after key o p e q =
      ground (arith, delete_all_active_requests_for-get dest s.db key o)

  -- With `startup_netburst` off: the first request for a destination after the startup starts a
  -- transaction with the new event and the EDUs only, and where the active keys are in order and nothing
  -- else is queued for the destination, its good answer leaves no active row under its prefix.
  pub netburst_off-drops :
      (config : Config) (shard_id : Destination → ℕ) (id now later : ℕ) (db : Tables)
      (edus : List SendingEvent) (msg : Msg) (first second third : Sender) (key : Bytes)
      → config.startup_netburst ≡ false
      → startup_netburst parsers config shard_id id db ≡ good first
      → handle_request parsers config now edus msg first ≡ good second
      → IsOrdered second.db.current
      → scan (get_prefix msg.dest) second.db.queued ≡ []
      → handle_response parsers later msg.dest true (with_futures parsers second []) ≡ good third
      → starts_with key (get_prefix msg.dest) ≡ true
      → (second.futures
          ≡ record { dest = msg.dest; events = msg.event ∷ edus_for msg.dest edus } ∷ [])
        × (Map.get key third.db.current ≡ none)
  unfolding Map.get
  netburst_off-drops config shard_id id now later db edus msg first second third key f a b o e c p =
      let (statuses, futures) = startup-off config shard_id id db first f a in
      (
        first_request config now edus msg first second (ground arith) b
            ∙ ap
                (λ fs. record { dest = msg.dest; events = msg.event ∷ edus_for msg.dest edus } ∷ fs)
                futures,
        ok-deletes later msg.dest (with_futures parsers second []) third key o p e c,
      )

  collect_active-same :
      (config : Config) (shard_id : Destination → ℕ) (id : ℕ) (rows : Table)
      (txns : List (Destination × List SendingEvent)) (db : Tables)
      → collect_active parsers (without_netburst config) shard_id id rows txns db
        ≡ collect_active parsers config shard_id id rows txns db
  unfolding collect_active
  collect_active-same config shard_id id [] txns db = refl
  collect_active-same config shard_id id ((key, value) ∷ rows) txns db =
      elim (Try-cases (expect_row parsers key value)) [
        | inr (x, f) ↦ rw f refl
        | inl ((dest, event), f) ↦
            let entry = entry_of (Map.get dest txns) in
            let is_dropped = reaches_keep config.startup_netburst_keep entry in
            let is_mine = shard_id dest == id in
            rw f (
              collect_active-same config shard_id id rows
                (if is_mine
                  then Map.insert dest (if is_dropped then entry else entry ++ event ∷ []) txns
                  else txns)
                (if is_mine && is_dropped then delete_active_request key db else db))
      ]

  -- Where startup_netburst returns, it does so with the option off too, and leaves the same tables: the
  -- active rows beyond startup_netburst_keep are deleted either way.
  pub startup_netburst-same_tables :
      (config : Config) (shard_id : Destination → ℕ) (id : ℕ) (db : Tables) (s : Sender)
      → startup_netburst parsers config shard_id id db ≡ good s
      → (t : Sender) × (startup_netburst parsers (without_netburst config) shard_id id db ≡ good t)
        × (t.db ≡ s.db)
  unfolding startup_netburst
  startup_netburst-same_tables config shard_id id db s q =
      let (c, r, a) =
        >>=-eq-good (collect_active parsers config shard_id id db.current [] db)
          (λ (c : List (Destination × List SendingEvent) × Tables).
            good (start_all config c.0 (record { db = c.1; futures = []; statuses = [] })))
          q in
      let begin : Sender = record { db = c.1; futures = []; statuses = [] } in
      let off = without_netburst config in
      (
        start_all off c.0 begin,
        rw (collect_active-same config shard_id id db.current [] db, r) refl,
        start_all-db off c.0 begin
            ∙ sym (
                ap (λ (t : Sender). t.db) (sym (good-injective a)) ∙ start_all-db config c.0 begin),
      )
