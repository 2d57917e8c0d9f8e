-- ===== src/Sending/Sender/Steps.antt =====
-- The states that a worker reaches: the startup, then requests and answers in any order.
use mathlib.Core.Path.{subst}
use cinquain.Prelude.{ℕ, ◌≡◌, Bool, true, false, List, ◌∷◌, ◌++◌, nat_eq, arith}
use cinquain.Core.Errors.{good}
use cinquain.Sending.Keys.{Destination, SendingEvent, Parsers}
use cinquain.Sending.Destinations.{destination_eq}
use cinquain.Sending.Rows.{Tables}
use cinquain.Sending.Sender.{
  Transaction, Config, Sender, Msg, handle_request, handle_response, startup_netburst,
}
use cinquain.Sending.Sender.Flights.{
  IsTracked, IsTrackedBut, taken-out, handle_response_err-returns,
}
use cinquain.Sending.Sender.Handlers.{
  handle_request-IsTracked, handle_response_ok-IsTracked, startup_netburst-IsTracked,
}

module _ (parsers : Parsers) where
  abbrev pub with_futures : Sender → List Transaction → Sender
  with_futures s futures = record { db = s.db; futures = futures; statuses = s.statuses }

  -- A round of `work_loop`: a request, or the answer to any of the transactions in flight.
  pub data Step (config : Config) (s after : Sender) : Type 0 where
    requested :
        (now : ℕ) (edus : List SendingEvent) (msg : Msg)
        → handle_request parsers config now edus msg s ≡ good after
        → Step config s after
    answered :
        (now : ℕ) (is_good : Bool) (before later : List Transaction) (t : Transaction)
        → s.futures ≡ before ++ t ∷ later
        → handle_response parsers now t.dest is_good (with_futures s (before ++ later)) ≡ good after
        → Step config s after

  pub data Reachable (config : Config) (shard_id : Destination → ℕ) (id : ℕ) : Sender → Type 0 where
    started :
        (db : Tables) (s : Sender)
        → startup_netburst parsers config shard_id id db ≡ good s
        → Reachable config shard_id id s
    stepped :
        (s after : Sender)
        → Reachable config shard_id id s
        → Step config s after
        → Reachable config shard_id id after

  answered-IsTrackedBut :
      (s : Sender) (before later : List Transaction) (t : Transaction)
      → IsTracked s.statuses s.futures
      → s.futures ≡ before ++ t ∷ later
      → IsTrackedBut t.dest s.statuses (before ++ later)
  answered-IsTrackedBut s before later t h f =
      taken-out s.statuses before later t (subst (λ fs. IsTracked s.statuses fs) f h)

  Step-IsTracked :
      (config : Config) (s after : Sender)
      → IsTracked s.statuses s.futures
      → Step config s after
      → IsTracked after.statuses after.futures
  unfolding handle_response
  Step-IsTracked config s after h (requested now edus msg q) =
      handle_request-IsTracked parsers config now edus msg s after h q
  Step-IsTracked config s after h (answered now true before later t f q) =
      handle_response_ok-IsTracked parsers t.dest (with_futures s (before ++ later)) after
        (answered-IsTrackedBut s before later t h f) q
  Step-IsTracked config s after h (answered now false before later t f q) =
      let (statuses, r, k) =
        handle_response_err-returns now t.dest s.statuses (before ++ later)
          (answered-IsTrackedBut s before later t h f) in
      let same : record { db = s.db; futures = before ++ later; statuses = statuses } ≡ after =
        ground arith in
      subst (λ u. IsTracked u.statuses u.futures) same k

  -- In each state that a worker reaches, a destination has one transaction in flight while its status
  -- is running or retrying, and none else.
  pub Reachable-IsTracked :
      (config : Config) (shard_id : Destination → ℕ) (id : ℕ) (s : Sender)
      → Reachable config shard_id id s
      → IsTracked s.statuses s.futures
  Reachable-IsTracked config shard_id id s (started db state q) =
      startup_netburst-IsTracked parsers config shard_id id db state q
  Reachable-IsTracked config shard_id id s (stepped first after r step) =
      Step-IsTracked config first after (Reachable-IsTracked config shard_id id first r) step

  -- In each state that a worker reaches, the answer that a transaction in flight failed is handled
  -- without a panic.
  pub Reachable-failure_returns :
      (config : Config) (shard_id : Destination → ℕ) (id now : ℕ) (s : Sender)
      (before later : List Transaction) (t : Transaction)
      → Reachable config shard_id id s
      → s.futures ≡ before ++ t ∷ later
      → (after : Sender) × (handle_response parsers now t.dest false
            (with_futures s (before ++ later))
          ≡ good after)
  unfolding handle_response
  Reachable-failure_returns config shard_id id now s before later t r f =
      let (statuses, q, k) =
        handle_response_err-returns now t.dest s.statuses (before ++ later)
          (answered-IsTrackedBut s before later t (Reachable-IsTracked config shard_id id s r) f) in
      (record { db = s.db; futures = before ++ later; statuses = statuses }, ground arith)
