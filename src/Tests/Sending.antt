-- ===== src/Tests/Sending.antt =====
-- Instances of the theorems on the sending service.
use cinquain.Prelude.{
  ℕ, ◌-◌, ◌*◌, ◌≤◌, ◌≡◌, refl, Bool, true, false, ◌||◌, leb, Option, none, some, List, [], ◌∷◌,
  ◌++◌, ◌⊎◌, inl, contains, if◌then◌else◌, arith,
}
use cinquain.Prelude.Map
use cinquain.Core.Errors.{good}
use cinquain.Core.Bytes.{Bytes, bytes_eq, starts_with}
use cinquain.Sending.Keys.{
  Destination, federation, appservice, SendingEvent, pdu, edu, Parsers, get_prefix, request_key,
  request_value, parse_servercurrentevent,
}
use cinquain.Sending.Destinations.{destination_eq}
use cinquain.Sending.Codec.{request_key-parses}
use cinquain.Sending.Rows.{Tables, delete_all_active_requests_for}
use cinquain.Sending.Sender.{
  Config, Sender, Msg, Transaction, TransactionStatus, running, failed, retrying,
  should_attempt_send, handle_request, handle_response, startup_netburst,
}
use cinquain.Sending.Sender.Flights.{IsTracked}
use cinquain.Sending.Backoff.{from_secs}
use cinquain.Sending.Sender.Steps.{
  Step, Reachable, started, stepped, requested, answered, with_futures, Reachable-IsTracked,
  Reachable-failure_returns,
}
use cinquain.Sending.Sender.Retries.{handle_request-retries}
use cinquain.Sending.Sender.Losses.{without_netburst, netburst_off-drops}
use cinquain.Sending.Sender.Kept.{is_stored, well_answered, Step-keeps}

abbrev every : Parsers
every = record {
  is_string = λ bytes. true;
  is_user_id = λ bytes. true;
  is_server_name = λ bytes. true;
}

abbrev config : Config
config = record {
  sender_timeout = 180;
  sender_retry_backoff_limit = 86400;
  startup_netburst = true;
  startup_netburst_keep = some 50;
}

abbrev one_shard : Destination → ℕ
one_shard dest = 0

abbrev dest : Destination
dest = federation (b'a' ∷ [])

abbrev event : SendingEvent
event = edu (b'e' ∷ [])

-- A key of the destination, and another.
abbrev old_key : Bytes
old_key = b'a' ∷ 255 ∷ 0 ∷ 0 ∷ 0 ∷ 0 ∷ 0 ∷ 0 ∷ 0 ∷ 1 ∷ []

abbrev new_key : Bytes
new_key = b'a' ∷ 255 ∷ 0 ∷ 0 ∷ 0 ∷ 0 ∷ 0 ∷ 0 ∷ 0 ∷ 2 ∷ []

abbrev msg : Msg
msg = record { dest = dest; event = event; queue_id = new_key }

abbrev empty_tables : Tables
empty_tables = record { current = []; queued = [] }

-- A request that was active at the last shutdown, and a new one that is queued.
abbrev old_tables : Tables
old_tables = record { current = (old_key, b'e' ∷ []) ∷ []; queued = (new_key, b'e' ∷ []) ∷ [] }

abbrev idle : Sender
idle = record { db = empty_tables; futures = []; statuses = [] }

abbrev sent : Transaction
sent = record { dest = dest; events = event ∷ [] }

abbrev busy : Sender
busy = record {
  db = record { current = (new_key, b'e' ∷ []) ∷ []; queued = [] };
  futures = sent ∷ [];
  statuses = (dest, running) ∷ [];
}

busy-Reachable : Reachable every config one_shard 0 busy
unfolding startup_netburst cinquain.Sending.Sender.collect_active cinquain.Sending.Sender.start_all
    handle_request cinquain.Sending.Sender.select_events cinquain.Sending.Sender.should_attempt_send
    cinquain.Sending.Sender.attempt cinquain.Sending.Sender.send_or_remove
    cinquain.Sending.Rows.mark_as_active cinquain.Sending.Rows.put cinquain.Sending.Rows.drop_row
    request_value cinquain.Prelude.Map.get cinquain.Prelude.Map.insert
busy-Reachable = stepped idle busy (started empty_tables idle refl) (requested 0 [] msg refl)

Reachable-IsTracked_example : IsTracked busy.statuses busy.futures
Reachable-IsTracked_example = Reachable-IsTracked every config one_shard 0 busy busy-Reachable

Reachable-failure_returns_example :
    (after : Sender) × (handle_response every 5 dest false (with_futures every busy [])
      ≡ good after)
Reachable-failure_returns_example =
    Reachable-failure_returns every config one_shard 0 5 busy [] [] sent busy-Reachable refl

request_key-parses_example :
    parse_servercurrentevent every (request_key dest event 2) (request_value event)
    ≡ good (dest, event)
unfolding cinquain.Prelude.contains starts_with
request_key-parses_example =
    request_key-parses every dest event 2 (refl, refl, refl, refl, refl) refl

-- A failure at time 0, and a day later.
abbrev failing : Sender
failing = record { db = old_tables; futures = []; statuses = (dest, failed 2 0) ∷ [] }

handle_request-retries_example :
    handle_request every config 86400000000000 [] msg failing
    ≡ good (record {
      db = old_tables;
      futures = sent ∷ [];
      statuses = Map.insert dest (retrying 2) ((dest, failed 2 0) ∷ []);
    })
unfolding cinquain.Prelude.Map.get from_secs cinquain.Sending.Rows.active_requests_for
    cinquain.Sending.Rows.parse_rows cinquain.Sending.Rows.expect_row cinquain.Sending.Rows.scan
    cinquain.Sending.Rows.take_prefix cinquain.Core.Bytes.comes_before starts_with get_prefix
    parse_servercurrentevent cinquain.Sending.Keys.parse_federation cinquain.Core.Bytes.split_once
    cinquain.Sending.Keys.event_from
handle_request-retries_example =
    handle_request-retries every config 86400000000000 [] msg failing 2 0 (old_key, event) [] refl
      (omega arith) refl

-- The worker after a startup without netburst, after the new request, and after its good answer.
abbrev first : Sender
first = record { db = old_tables; futures = []; statuses = [] }

abbrev second : Sender
second = record {
  db = record { current = (old_key, b'e' ∷ []) ∷ (new_key, b'e' ∷ []) ∷ []; queued = [] };
  futures = sent ∷ [];
  statuses = (dest, running) ∷ [];
}

first-started : startup_netburst every (without_netburst config) one_shard 0 old_tables ≡ good first
unfolding startup_netburst cinquain.Sending.Sender.collect_active cinquain.Sending.Sender.start_all
    cinquain.Sending.Rows.expect_row parse_servercurrentevent cinquain.Sending.Keys.parse_federation
    cinquain.Core.Bytes.split_once cinquain.Sending.Keys.event_from starts_with
    cinquain.Prelude.Map.get cinquain.Prelude.Map.insert
first-started = refl

second-requested : handle_request every (without_netburst config) 0 [] msg first ≡ good second
unfolding handle_request cinquain.Sending.Sender.select_events should_attempt_send
    cinquain.Sending.Sender.attempt cinquain.Sending.Sender.send_or_remove
    cinquain.Sending.Rows.mark_as_active cinquain.Sending.Rows.put cinquain.Sending.Rows.drop_row
    request_value cinquain.Prelude.Map.get cinquain.Prelude.Map.insert
    cinquain.Core.Bytes.comes_before
second-requested = refl

third-answered : handle_response every 9 dest true (with_futures every second []) ≡ good idle
unfolding handle_response cinquain.Sending.Sender.handle_response_ok delete_all_active_requests_for
    cinquain.Sending.Rows.drop_rows cinquain.Sending.Rows.drop_row cinquain.Sending.Rows.scan
    cinquain.Sending.Rows.take_prefix cinquain.Core.Bytes.comes_before starts_with get_prefix
    cinquain.Sending.Rows.queued_requests cinquain.Sending.Rows.take_rows
    cinquain.Sending.Rows.parse_rows cinquain.Sending.Rows.mark_as_active
    cinquain.Sending.Sender.send_or_remove cinquain.Prelude.Map.delete
third-answered = refl

netburst_off-drops_example : (second.futures ≡ sent ∷ []) × (Map.get old_key idle.db.current ≡ none)
unfolding cinquain.Core.Bytes.comes_before starts_with get_prefix cinquain.Sending.Rows.scan
netburst_off-drops_example =
    netburst_off-drops every (without_netburst config) one_shard 0 0 9 old_tables [] msg first
      second idle old_key refl first-started second-requested (refl, (tt, tt)) refl third-answered
      refl

abbrev well : Step every (without_netburst config) second idle
well = answered 9 true [] [] sent refl third-answered

Step-keeps_example :
    (is_stored idle.db old_key ≡ true)
    ⊎ ((to : Destination) × (well_answered every (without_netburst config) second idle well
          ≡ some to)
        × (starts_with old_key (get_prefix to) ≡ true)
        × (contains (Map.keys second.db.current) old_key ≡ true)
        × (contains (Map.keys second.db.queued) old_key ≡ false))
unfolding contains
Step-keeps_example = Step-keeps every (without_netburst config) second idle well old_key refl

abbrev restarted : Sender
restarted = record { db = old_tables; futures = sent ∷ []; statuses = (dest, running) ∷ [] }
