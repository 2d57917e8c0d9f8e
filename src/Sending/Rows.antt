-- ===== src/Sending/Rows.antt =====
-- The tables `servercurrentevent_data` of active and `servernameevent_data` of queued requests:
-- `struct Data` of src/service/sending/data.rs. A table lists its rows in the order of the keys.
use cinquain.Prelude.{ℕ, zero, suc, List, [], ◌∷◌, ◌==◌, if◌then◌else◌, is_empty}
use cinquain.Core.Errors.{Try, good, fault, panicked, ◌>>=◌}
use cinquain.Core.Bytes.{Bytes, bytes_eq, starts_with, comes_before}
use cinquain.Sending.Keys.{
  Destination, SendingEvent, Parsers, get_prefix, request_key, request_value,
  parse_servercurrentevent,
}

abbrev pub Table : Type 0
Table = List (Bytes × Bytes)

unfoldable pub put : Bytes → Bytes → Table → Table
put key value [] = (key, value) ∷ []
put key value ((other, old) ∷ rest) =
    let later = put key value rest in
    if other == key
    then (key, value) ∷ rest
    else if comes_before key other
    then (key, value) ∷ (other, old) ∷ rest
    else (other, old) ∷ later

unfoldable pub drop_row : Bytes → Table → Table
drop_row key [] = []
drop_row key ((other, value) ∷ rest) =
    let later = drop_row key rest in if other == key then later else (other, value) ∷ later

-- `ready_take_while`, and `raw_stream_from` in front of it.
unfoldable pub take_prefix : Bytes → Table → Table
take_prefix prefix [] = []
take_prefix prefix ((key, value) ∷ rest) =
    let later = take_prefix prefix rest in
    if starts_with key prefix then (key, value) ∷ later else []

unfoldable pub scan : Bytes → Table → Table
scan prefix [] = []
scan prefix ((key, value) ∷ rest) =
    let later = scan prefix rest in
    if comes_before key prefix then later else take_prefix prefix ((key, value) ∷ rest)

unfoldable pub drop_rows : Table → Table → Table
drop_rows [] table = table
drop_rows ((key, value) ∷ rows) table = drop_rows rows (drop_row key table)

unfoldable pub take_rows : ℕ → Table → Table
take_rows zero table = []
take_rows (suc n) [] = []
take_rows (suc n) (row ∷ table) = row ∷ take_rows n table

pub record Tables : Type 0 where
  pub current : Table
  pub queued : Table

unfoldable pub delete_active_request : Bytes → Tables → Tables
delete_active_request key db = record { current = drop_row key db.current; queued = db.queued }

unfoldable pub delete_all_active_requests_for : Destination → Tables → Tables
delete_all_active_requests_for dest db = record {
  current = drop_rows (scan (get_prefix dest) db.current) db.current;
  queued = db.queued;
}

unfoldable pub delete_all_requests_for : Destination → Tables → Tables
delete_all_requests_for dest db = record {
  current = drop_rows (scan (get_prefix dest) db.current) db.current;
  queued = drop_rows (scan (get_prefix dest) db.queued) db.queued;
}

abbrev pub QueueItem : Type 0
QueueItem = Bytes × SendingEvent

unfoldable pub mark_as_active : List QueueItem → Tables → Tables
mark_as_active [] db = db
mark_as_active ((key, event) ∷ events) db = mark_as_active events (
    if is_empty key then db else record {
      current = put key (request_value event) db.current;
      queued = drop_row key db.queued;
    })

-- `queue_requests` of one request, with the count that `next_count` returned.
unfoldable pub queue_request : Destination → SendingEvent → ℕ → Tables → Tables
queue_request dest event count db = record {
  current = db.current;
  queued = put (request_key dest event count) (request_value event) db.queued;
}

module _ (parsers : Parsers) where
  -- The `expect` on a row that does not parse.
  unfoldable pub expect_row : Bytes → Bytes → Try (Destination × SendingEvent)
  expect_row key value = elim (parse_servercurrentevent parsers key value) [
    | good parsed ↦ good parsed
    | fault x ↦ fault panicked
  ]

  unfoldable pub parse_rows : Table → Try (List QueueItem)
  parse_rows [] = good []
  parse_rows ((key, value) ∷ rows) = do
    parsed ← expect_row key value
    items ← parse_rows rows
    good ((key, parsed.1) ∷ items)

  unfoldable pub active_requests_for : Destination → Tables → Try (List QueueItem)
  active_requests_for dest db = parse_rows (scan (get_prefix dest) db.current)

  -- `queued_requests(dest).take(limit)`.
  unfoldable pub queued_requests : Destination → ℕ → Tables → Try (List QueueItem)
  queued_requests dest limit db = parse_rows (take_rows limit (scan (get_prefix dest) db.queued))
