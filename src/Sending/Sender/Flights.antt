-- ===== src/Sending/Sender/Flights.antt =====
-- How many transactions of a destination are in flight, and what each handler does to the number.
use cinquain.Prelude.{
  ℕ, ◌+◌, ◌≡◌, refl, sym, Bool, true, false, Option, none, some, List, [], ◌∷◌, ◌++◌, ◌==◌,
  beq_refl, if◌then◌else◌, arith, Option-cases, inl, inr,
}
use cinquain.Prelude.Map
use mathlib.Core.Path.{subst}
use cinquain.Core.Errors.{good}
use cinquain.Sending.Keys.{Destination, SendingEvent}
use cinquain.Sending.Destinations.{destination_eq}
use cinquain.Sending.Sender.{
  TransactionStatus, running, failed, retrying, CurTransactionStatus, Transaction, Config, Sender,
  one_more, attempt, should_attempt_send, fail_status, handle_response_err, send_or_remove,
}

-- The number of a destination's transactions in flight.
unfoldable pub in_flight : Destination → List Transaction → ℕ
in_flight dest [] = 0
in_flight dest (t ∷ futures) = (if t.dest == dest then 1 else 0) + in_flight dest futures

-- The number that a status stands for.
abbrev pub wanted : Option TransactionStatus → ℕ
wanted none = 0
wanted (some running) = 1
wanted (some (retrying tries)) = 1
wanted (some (failed tries time)) = 0

-- Each destination has one transaction in flight while its status is running or retrying, and none
-- else.
abbrev pub IsTracked : CurTransactionStatus → List Transaction → Type 0
IsTracked statuses futures =
    (dest : Destination) → in_flight dest futures ≡ wanted (Map.get dest statuses)

pub in_flight-append :
    (dest : Destination) (before after : List Transaction) (t : Transaction)
    → in_flight dest (before ++ t ∷ after)
      ≡ (if t.dest == dest then 1 else 0) + in_flight dest (before ++ after)
unfolding in_flight
in_flight-append dest [] after t = refl
in_flight-append dest (u ∷ before) after t = ground (arith, in_flight-append dest before after t)

-- As `IsTracked`, but for one destination, whose transaction is about to start or has just ended.
abbrev pub IsTrackedBut : Destination → CurTransactionStatus → List Transaction → Type 0
IsTrackedBut dest statuses futures =
    (wanted (Map.get dest statuses) ≡ 1)
    × ((other : Destination)
        → in_flight other futures ≡ (if dest == other then 0 else wanted (Map.get other statuses)))

pub taken-out :
    (statuses : CurTransactionStatus) (before after : List Transaction) (t : Transaction)
    → IsTracked statuses (before ++ t ∷ after)
    → IsTrackedBut t.dest statuses (before ++ after)
taken-out statuses before after t h = (
  ground (arith, h t.dest, in_flight-append t.dest before after t, beq_refl t.dest),
  λ other. ground (
    arith,
    h other,
    h t.dest,
    in_flight-append other before after t,
    in_flight-append t.dest before after t,
    beq_refl t.dest,
    destination_eq.beq_iff t.dest other,
  ),
)

pub send_or_remove-IsTracked :
    (dest : Destination) (events : List SendingEvent) (s : Sender)
    → IsTrackedBut dest s.statuses s.futures
    → IsTracked (send_or_remove dest events s).statuses (send_or_remove dest events s).futures
unfolding send_or_remove in_flight
send_or_remove-IsTracked dest [] s h other =
    ground (arith, h.1 other, Map.get-delete dest other s.statuses)
send_or_remove-IsTracked dest (event ∷ events) s h other =
    ground (arith, h.0, h.1 other, destination_eq.beq_iff dest other)

insert-IsTrackedBut :
    (dest : Destination) (status : TransactionStatus) (statuses : CurTransactionStatus)
    (futures : List Transaction)
    → wanted (some status) ≡ 1
    → wanted (Map.get dest statuses) ≡ 0
    → IsTracked statuses futures
    → IsTrackedBut dest (Map.insert dest status statuses) futures
insert-IsTrackedBut dest status statuses futures w z h = (
  ground (arith, Map.get-insert dest dest status statuses, beq_refl dest),
  λ other. ground (
    arith,
    h other,
    h dest,
    Map.get-insert dest other status statuses,
    destination_eq.beq_iff dest other,
  ),
)

-- The attempts that are allowed: a first one, and one after a failure.
pub data Allowed (before : Option TransactionStatus) (dest : Destination)
    (statuses after : CurTransactionStatus) (retry : Bool) : Type 0 where
  first :
      before ≡ none
      → retry ≡ false
      → after ≡ Map.insert dest running statuses
      → Allowed before dest statuses after retry
  again :
      (tries time : ℕ)
      → before ≡ some (failed tries time)
      → retry ≡ true
      → after ≡ Map.insert dest (retrying tries) statuses
      → Allowed before dest statuses after retry

pub attempt-Allowed :
    (config : Config) (now : ℕ) (dest : Destination) (statuses after : CurTransactionStatus)
    (retry : Bool) (before : Option TransactionStatus)
    → attempt config now dest statuses before ≡ (true, retry, after)
    → Allowed before dest statuses after retry
unfolding attempt
attempt-Allowed config now dest statuses after retry none q =
    first refl (ground arith) (ground arith)
attempt-Allowed config now dest statuses after retry (some running) q = absurd (ground arith)
attempt-Allowed config now dest statuses after retry (some (retrying tries)) q =
    absurd (ground arith)
attempt-Allowed config now dest statuses after retry (some (failed tries time)) q =
    again tries time refl (ground arith) (ground arith)

-- What allowing an attempt does to the statuses.
pub attempt-IsTrackedBut :
    (config : Config) (now : ℕ) (dest : Destination) (statuses after : CurTransactionStatus)
    (retry : Bool) (futures : List Transaction)
    → IsTracked statuses futures
    → should_attempt_send config now dest statuses ≡ (true, retry, after)
    → IsTrackedBut dest after futures
unfolding should_attempt_send
attempt-IsTrackedBut config now dest statuses after retry futures h q =
    elim (attempt-Allowed config now dest statuses after retry (Map.get dest statuses) q) [
      | first n r a ↦
          subst (λ m. IsTrackedBut dest m futures) (sym a)
            (insert-IsTrackedBut dest running statuses futures refl (ground arith) h)
      | again tries time n r a ↦
          subst (λ m. IsTrackedBut dest m futures) (sym a)
            (insert-IsTrackedBut dest (retrying tries) statuses futures refl (ground arith) h)
    ]

pub attempt-refused :
    (config : Config) (now : ℕ) (dest : Destination) (statuses after : CurTransactionStatus)
    (retry : Bool)
    → should_attempt_send config now dest statuses ≡ (false, retry, after)
    → after ≡ statuses
unfolding should_attempt_send attempt
attempt-refused config now dest statuses after retry q = ground arith

fail-IsTracked :
    (dest : Destination) (status : TransactionStatus) (statuses : CurTransactionStatus)
    (futures : List Transaction)
    → wanted (some status) ≡ 0
    → IsTrackedBut dest statuses futures
    → IsTracked (Map.insert dest status statuses) futures
fail-IsTracked dest status statuses futures z h other =
    ground (
      arith,
      h.1 other,
      Map.get-insert dest other status statuses,
      destination_eq.beq_iff dest other,
    )

-- A failure of a transaction that was in flight is recorded.
pub fail_status-returns :
    (now : ℕ) (status : TransactionStatus)
    → wanted (some status) ≡ 1
    → (tries : ℕ) × (fail_status now status ≡ good (failed tries now))
unfolding fail_status
fail_status-returns now running w = (1, refl)
fail_status-returns now (retrying tries) w = (one_more tries, refl)
fail_status-returns now (failed tries time) w = absurd (ground arith)

pub handle_response_err-returns :
    (now : ℕ) (dest : Destination) (statuses : CurTransactionStatus) (futures : List Transaction)
    → IsTrackedBut dest statuses futures
    → (after : CurTransactionStatus) × (handle_response_err now dest statuses ≡ good after)
      × IsTracked after futures
unfolding handle_response_err
handle_response_err-returns now dest statuses futures h =
    elim (Option-cases (Map.get dest statuses)) [
      | inl n ↦ absurd (ground (arith, h.0))
      | inr (status, g) ↦
          let (tries, f) = fail_status-returns now status (ground (arith, h.0)) in
          (
            Map.insert dest (failed tries now) statuses,
            ground arith,
            fail-IsTracked dest (failed tries now) statuses futures refl h,
          )
    ]
