-- ===== src/Sending/Sender.antt =====
-- A worker of the sending service: src/service/sending/sender.rs. `Instant`s and durations are
-- nanoseconds; what a transaction's request answers, and what `select_edus` finds, are inputs.
pub mod Retries
pub mod Flights
pub mod Handlers
pub mod Steps
pub mod Losses
pub mod Kept
use cinquain.Prelude.{
  ℕ, zero, suc, ◌+◌, ◌-◌, Bool, true, false, not, ◌&&◌, Option, none, some, List, [], ◌∷◌, ◌++◌,
  map, ◌==◌, nat_eq, Eq, if◌then◌else◌, is_empty, leb, length,
}
use cinquain.Prelude.Map
use cinquain.Core.Errors.{Try, good, fault, panicked, ◌>>=◌}
use cinquain.Core.Bytes.{Bytes}
use cinquain.Sending.Keys.{Destination, appservice, push, federation, SendingEvent, Parsers}
use cinquain.Sending.Destinations.{destination_eq}
use cinquain.Sending.Backoff.{continue_exponential_backoff_secs}
use cinquain.Sending.Rows.{
  Table, Tables, QueueItem, delete_active_request, delete_all_active_requests_for, mark_as_active,
  expect_row, active_requests_for, queued_requests,
}

pub data TransactionStatus : Type 0 where
  running : TransactionStatus
  failed : ℕ → ℕ → TransactionStatus
  retrying : ℕ → TransactionStatus

abbrev pub CurTransactionStatus : Type 0
CurTransactionStatus = List (Destination × TransactionStatus)

-- What `send_events` was called with: an element of `SendingFutures`.
pub record Transaction : Type 0 where
  pub dest : Destination
  pub events : List SendingEvent

pub record Msg : Type 0 where
  pub dest : Destination
  pub event : SendingEvent
  pub queue_id : Bytes

-- `startup_netburst_keep` is `none` where the configured number is negative.
pub record Config : Type 0 where
  pub sender_timeout : ℕ
  pub sender_retry_backoff_limit : ℕ
  pub startup_netburst : Bool
  pub startup_netburst_keep : Option ℕ

pub record Sender : Type 0 where
  pub db : Tables
  pub futures : List Transaction
  pub statuses : CurTransactionStatus

abbrev pub dequeue_limit : ℕ
dequeue_limit = 48

-- `n.saturating_add(1)` of a `u32`.
abbrev pub one_more : ℕ → ℕ
one_more n = if leb 4294967295 n then 4294967295 else suc n

abbrev pub is_appservice : Destination → Bool
is_appservice (appservice id) = true
is_appservice _ = false

-- `should_attempt_send`, on the entry of the destination: allow, retry and the new statuses.
unfoldable pub attempt :
    Config
    → ℕ
    → Destination
    → CurTransactionStatus
    → Option TransactionStatus
    → Bool × Bool × CurTransactionStatus
attempt config now dest statuses none = (true, false, Map.insert dest running statuses)
attempt config now dest statuses (some (failed tries time)) =
    if continue_exponential_backoff_secs config.sender_timeout config.sender_retry_backoff_limit
        (now - time) tries
      && not (is_appservice dest)
    then (false, false, statuses)
    else (true, true, Map.insert dest (retrying tries) statuses)
attempt config now dest statuses (some other) = (false, false, statuses)

unfoldable pub should_attempt_send :
    Config → ℕ → Destination → CurTransactionStatus → Bool × Bool × CurTransactionStatus
should_attempt_send config now dest statuses =
    attempt config now dest statuses (Map.get dest statuses)

-- `handle_response_err`.
unfoldable pub fail_status : ℕ → TransactionStatus → Try TransactionStatus
fail_status now running = good (failed 1 now)
fail_status now (retrying n) = good (failed (one_more n) now)
fail_status now (failed tries time) = fault panicked

unfoldable pub handle_response_err :
    ℕ → Destination → CurTransactionStatus → Try CurTransactionStatus
handle_response_err now dest statuses = elim (Map.get dest statuses) [
  | none ↦ good statuses
  | some status ↦ fail_status now status >>= λ after. good (Map.insert dest after statuses)
]

abbrev pub events_of : List QueueItem → List SendingEvent
events_of [] = []
events_of ((key, event) ∷ items) = event ∷ events_of items

-- The EDUs that go into a transaction: `select_edus` is called for servers only.
abbrev pub edus_for : Destination → List SendingEvent → List SendingEvent
edus_for (federation server) edus = edus
edus_for _ edus = []

-- Starts a transaction, or forgets the destination where there is nothing to send.
unfoldable pub send_or_remove : Destination → List SendingEvent → Sender → Sender
send_or_remove dest events s =
    if is_empty events
    then record { db = s.db; futures = s.futures; statuses = Map.delete dest s.statuses }
    else record {
      db = s.db;
      futures = record { dest = dest; events = events } ∷ s.futures;
      statuses = s.statuses;
    }

-- Parts of the first loop of `startup_netburst`.
abbrev pub reaches_keep : Option ℕ → List SendingEvent → Bool
reaches_keep none events = false
reaches_keep (some keep) events = leb keep (length events)

abbrev pub entry_of : Option (List SendingEvent) → List SendingEvent
entry_of none = []
entry_of (some events) = events

-- The rest of `handle_request`.
abbrev pub send_selected : Destination → Option (List SendingEvent) × Sender → Sender
send_selected dest (none, s) = s
send_selected dest (some events, s) = send_or_remove dest events s

-- The second loop of `startup_netburst`.
unfoldable pub start_all : Config → List (Destination × List SendingEvent) → Sender → Sender
start_all config [] s = s
start_all config ((dest, events) ∷ txns) s = start_all config txns (
    if config.startup_netburst && not (is_empty events)
    then record {
      db = s.db;
      futures = record { dest = dest; events = events } ∷ s.futures;
      statuses = Map.insert dest running s.statuses;
    }
    else s)

module _ (parsers : Parsers) where
  -- `select_events`: the events to send, with the tables and the statuses afterwards.
  unfoldable pub select_events :
      Config
      → ℕ
      → List SendingEvent
      → Destination
      → List QueueItem
      → Sender
      → Try (Option (List SendingEvent) × Sender)
  select_events config now edus dest new_events s =
      let (allow, retry, statuses) = should_attempt_send config now dest s.statuses in
      if not allow
      then good (none, record { db = s.db; futures = s.futures; statuses = statuses })
      else if retry
      then (active_requests_for parsers dest s.db >>= λ active.
          good (
            some (events_of active),
            record { db = s.db; futures = s.futures; statuses = statuses },
          ))
      else good (
        some (events_of new_events ++ edus_for dest edus),
        record { db = mark_as_active new_events s.db; futures = s.futures; statuses = statuses },
      )

  unfoldable pub handle_request : Config → ℕ → List SendingEvent → Msg → Sender → Try Sender
  handle_request config now edus msg s =
      select_events config now edus msg.dest ((msg.queue_id, msg.event) ∷ []) s >>= λ selected.
      good (send_selected msg.dest selected)

  unfoldable pub handle_response_ok : Destination → Sender → Try Sender
  handle_response_ok dest s =
      let db = delete_all_active_requests_for dest s.db in
      queued_requests parsers dest dequeue_limit db >>= λ new_events. good (
        send_or_remove dest (events_of new_events) (record {
          db = mark_as_active new_events db;
          futures = s.futures;
          statuses = s.statuses;
        }))

  -- `handle_response`: `true` is an answer that is good.
  unfoldable pub handle_response : ℕ → Destination → Bool → Sender → Try Sender
  handle_response now dest true s = handle_response_ok dest s
  handle_response now dest false s = do
    statuses ← handle_response_err now dest s.statuses
    good (record { db = s.db; futures = s.futures; statuses = statuses })

  -- The first loop of `startup_netburst`.
  unfoldable pub collect_active :
      Config
      → (Destination → ℕ)
      → ℕ
      → Table
      → List (Destination × List SendingEvent)
      → Tables
      → Try (List (Destination × List SendingEvent) × Tables)
  collect_active config shard_id id [] txns db = good (txns, db)
  collect_active config shard_id id ((key, value) ∷ rows) txns db =
      expect_row parsers key value >>= λ parsed.
      (let (dest, event) = parsed in
        let entry = entry_of (Map.get dest txns) in
        let is_dropped = reaches_keep config.startup_netburst_keep entry in
        let is_mine = shard_id dest == id in
        collect_active config shard_id id rows
          (if is_mine
            then Map.insert dest (if is_dropped then entry else entry ++ event ∷ []) txns
            else txns)
          (if is_mine && is_dropped then delete_active_request key db else db))

  unfoldable pub startup_netburst : Config → (Destination → ℕ) → ℕ → Tables → Try Sender
  startup_netburst config shard_id id db = do
    collected ← collect_active config shard_id id db.current [] db
    good (start_all config collected.0 (record { db = collected.1; futures = []; statuses = [] }))
