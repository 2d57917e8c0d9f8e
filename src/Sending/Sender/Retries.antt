-- ===== src/Sending/Sender/Retries.antt =====
-- When a destination that failed is tried again, and with which events.
use Prim.Native.Nat.{min}
use cinquain.Prelude.{
  ℕ, zero, suc, ◌-◌, ◌*◌, ◌≤◌, ◌≡◌, refl, ◌||◌, some, List, ◌∷◌, ltb, leb, arith, Bool-cases, inl,
  inr,
}
use cinquain.Prelude.Map
use cinquain.Core.Errors.{good}
use cinquain.Sending.Keys.{Destination, SendingEvent, Parsers}
use cinquain.Sending.Destinations.{destination_eq}
use cinquain.Sending.Backoff.{
  longest, from_secs, saturating_mul, continue_exponential_backoff,
  continue_exponential_backoff_secs,
}
use cinquain.Sending.Rows.{QueueItem, active_requests_for}
use cinquain.Sending.Sender.{
  failed, retrying, CurTransactionStatus, Config, Sender, Msg, attempt, should_attempt_send,
  is_appservice, events_of, send_or_remove, select_events, handle_request,
}

saturating_mul-twice :
    (least most tries : ℕ)
    → most ≤ longest
    → min (saturating_mul (saturating_mul least tries) tries) most
      ≡ min (least * tries * tries) most
unfolding saturating_mul
saturating_mul-twice least most zero l = omega arith
saturating_mul-twice least most (suc k) l =
    let product = least * suc k in
    elim (Bool-cases (ltb longest product)) [
      | inr q ↦ let within : min product longest ≡ product = ground arith in rw within (omega arith)
      | inl q ↦
          let beyond : min product longest ≡ longest = ground arith in
          let grows : product ≤ product * suc k = grind arith in rw beyond (ground arith)
    ]

-- The backoff goes on exactly while the time since the failure is below the timeout times the square
-- of the number of failures, and below the limit.
pub continue_exponential_backoff_secs_lem :
    (least most elapsed tries : ℕ)
    → from_secs most ≤ longest
    → continue_exponential_backoff_secs least most elapsed tries
      ≡ ltb elapsed (min (from_secs least * tries * tries) (from_secs most))
unfolding continue_exponential_backoff_secs continue_exponential_backoff
continue_exponential_backoff_secs_lem least most elapsed tries l =
    rw (saturating_mul-twice (from_secs least) (from_secs most) tries l) refl

-- Where the limit of the backoff is no longer than a duration can be, a destination that failed is
-- allowed another attempt exactly when the time since the failure has reached the timeout times the
-- square of the number of failures, or the limit, or when it is an appservice.
pub should_attempt_send-backoff :
    (config : Config) (now : ℕ) (dest : Destination) (statuses : CurTransactionStatus)
    (tries time : ℕ)
    → from_secs config.sender_retry_backoff_limit ≤ longest
    → Map.get dest statuses ≡ some (failed tries time)
    → (should_attempt_send config now dest statuses).0 ≡ (
        is_appservice dest
        || leb
            (min
              (from_secs config.sender_timeout * tries * tries)
              (from_secs config.sender_retry_backoff_limit))
            (now - time))
unfolding should_attempt_send attempt
should_attempt_send-backoff config now dest statuses tries time l g = ground (
  arith,
  continue_exponential_backoff_secs_lem config.sender_timeout config.sender_retry_backoff_limit
      (now - time) tries l,
)

module _ (parsers : Parsers) where
  -- Once the limit of the backoff has passed since the failure, a request for a destination with active
  -- requests starts a transaction with all of their events, and leaves the tables as they are.
  pub handle_request-retries :
      (config : Config) (now : ℕ) (edus : List SendingEvent) (msg : Msg) (s : Sender)
      (tries time : ℕ) (item : QueueItem) (items : List QueueItem)
      → Map.get msg.dest s.statuses ≡ some (failed tries time)
      → from_secs config.sender_retry_backoff_limit ≤ now - time
      → active_requests_for parsers msg.dest s.db ≡ good (item ∷ items)
      → handle_request parsers config now edus msg s
        ≡ good (record {
          db = s.db;
          futures = record { dest = msg.dest; events = events_of (item ∷ items) } ∷ s.futures;
          statuses = Map.insert msg.dest (retrying tries) s.statuses;
        })
  unfolding handle_request select_events should_attempt_send attempt send_or_remove
      continue_exponential_backoff_secs continue_exponential_backoff
  handle_request-retries config now edus msg s tries time item items g l a = ground arith
