-- ===== src/Orchestrator/Types.antt =====
-- The data of src/orchestrator-state.js. Texts that may be `undefined` are options; times are
-- milliseconds since 1970 (the source keeps their ISO texts). `clone` copies plain data and leaves
-- timers out, so a copy of a value is the value.
use fizzy_symphony.Base.{ℕ, Bool, Option, List, String}
use fizzy_symphony.Fizzy.Card.{Stamp, Card}

-- The fields of `config` that the state reads.
pub record Config : Type 0 where
  pub max_retry_backoff_ms : Option ℕ
  pub renew_interval_ms : Option ℕ
  pub stall_timeout_ms : Option ℕ
  pub instance_id : Option String

pub record RunRoute : Type 0 where
  pub id : Option String
  pub board_id : Option String
  pub fingerprint : Option String
  pub source_column_id : Option String

pub record RunClaim : Type 0 where
  pub claim_id : Option String
  pub id : Option String
  pub run_id : Option String
  pub attempt_id : Option String
  pub route_fingerprint : Option String
  pub expires_at : Option Stamp
  pub lease_expires_at : Option Stamp

pub record RunWorkspace : Type 0 where
  pub key : Option String
  pub path : Option String

-- The argument of `startRun`.
pub record RunInput : Type 0 where
  pub run_id : Option String
  pub id : Option String
  pub attempt_id : Option String
  pub attempt_number : Option ℕ
  pub card_id : Option String
  pub card_number : Option ℕ
  pub board_id : Option String
  pub route_id : Option String
  pub route_fingerprint : Option String
  pub claim_id : Option String
  pub workspace_key : Option String
  pub workspace_path : Option String
  pub started_at : Option ℕ
  pub card : Option Card
  pub route : Option RunRoute
  pub claim : Option RunClaim
  pub workspace : Option RunWorkspace

pub record Run : Type 0 where
  pub run_id : Option String
  pub attempt_id : Option String
  pub attempt_number : ℕ
  pub card_id : Option String
  pub card_number : Option ℕ
  pub board_id : Option String
  pub route_id : Option String
  pub route_fingerprint : Option String
  pub claim_id : Option String
  pub workspace_key : Option String
  pub workspace_path : Option String
  pub workspace_preserved : Bool
  pub started_at : ℕ
  pub instance_id : Option String
  pub card : Option Card
  pub route : Option RunRoute
  pub claim : Option RunClaim
  pub workspace : Option RunWorkspace
  pub last_activity_at : Option ℕ
  pub last_activity : Option String
  -- when the timer fires, if one is set
  pub renewal_timer : Option ℕ
  pub stall_timer : Option ℕ

pub record Problem : Type 0 where
  pub code : Option String
  pub message : String

pub record Failure : Type 0 where
  pub run_id : Option String
  pub attempt_id : Option String
  pub card_id : Option String
  pub error : Problem
  pub failure_kind : Option String
  pub retryable : Bool
  pub terminal : Bool
  pub workspace_preserved : Bool
  pub failed_at : ℕ
  pub next_retry_at : Option ℕ
  pub retry_exhausted : Option Bool

pub data RetryStatus : Type 0 where
  scheduled ready consumed stale : RetryStatus

pub record Retry : Type 0 where
  pub run_id : Option String
  pub attempt_id : Option String
  pub attempt_number : ℕ
  pub card_id : Option String
  pub board_id : Option String
  pub route_id : Option String
  pub route_fingerprint : Option String
  pub card : Option Card
  pub route : Option RunRoute
  pub claim : Option RunClaim
  pub workspace : Option RunWorkspace
  pub reason : String
  pub status : RetryStatus
  pub backoff_ms : ℕ
  pub next_retry_at : ℕ
  pub workspace_preserved : Bool
  pub reuse_dirty_workspace : Bool
  pub stale_at : Option ℕ
  pub consumed_at : Option ℕ
  pub replacement_run_id : Option String
  pub replacement_attempt_id : Option String

pub data RenewalStatus : Type 0 where
  renewed failed failed_expired : RenewalStatus

pub record Renewal : Type 0 where
  pub run_id : Option String
  pub status : RenewalStatus
  pub error : Option Problem
  pub renewed_at : ℕ
  pub lease_expires_at : Option Stamp

pub record Stall : Type 0 where
  pub run_id : Option String
  pub attempt_id : Option String
  pub stalled_at : ℕ
  pub workspace_preserved : Bool

pub record Cancellation : Type 0 where
  pub run_id : Option String
  pub attempt_id : Option String
  pub card_id : Option String
  pub reason : String
  pub workspace_preserved : Bool
  pub cancelled_at : ℕ

-- `activeRuns` is a `Map` by `run_id`: its values in order of insertion.
pub record State : Type 0 where
  pub active_runs : List Run
  pub retry_queue : List Retry
  pub recent_failures : List Failure
  pub claim_renewals : List Renewal
  pub stalled_runs : List Stall
  pub cancellations : List Cancellation

-- What `claims.renew` gives: nothing where there is no such service, an answer, or an exception.
-- The answer's own fields, `own`, count as the claim where it names none.
pub data RenewalAnswer : Type 0 where
  no_service : RenewalAnswer
  answers :
      (refused : Bool) (claim : Option RunClaim) (own : RunClaim) (error : Option Problem)
      → RenewalAnswer
  throws : Problem → RenewalAnswer
