-- ===== src/Orchestrator/Renewals.antt =====
-- Renewing the claim of an active run (src/orchestrator-state.js renewClaimNow and
-- handleRenewalFailure). The call of the claim service and what follows it are one step.
use fizzy_symphony.Base.{
  ℕ, Bool, true, false, Option, none, some, String, if◌then◌else◌, leb, get_or, or_else, same_text,
}
use fizzy_symphony.Fizzy.Card.{Stamp, parse_stamp}
use fizzy_symphony.Orchestrator.Types.{
  Config, RunClaim, Run, renewed, failed, failed_expired, RenewalAnswer, no_service, answers,
  throws, State, Problem,
}
use fizzy_symphony.Orchestrator.Defs.{push_trim, get_run, set_run, schedule_renewal, no_claim}
use fizzy_symphony.Orchestrator.Runs.{normalize_error, cancel_run}

-- `{ ...(run.claim ?? {}), ...update }`.
unfoldable pub merge_claim : Option RunClaim → RunClaim → RunClaim
merge_claim old update =
    let before = get_or old no_claim in
    record {
      claim_id = or_else update.claim_id before.claim_id;
      id = or_else update.id before.id;
      run_id = or_else update.run_id before.run_id;
      attempt_id = or_else update.attempt_id before.attempt_id;
      route_fingerprint = or_else update.route_fingerprint before.route_fingerprint;
      expires_at = or_else update.expires_at before.expires_at;
      lease_expires_at = or_else update.lease_expires_at before.lease_expires_at;
    }

abbrev at_or_before : Option ℕ → ℕ → Bool
at_or_before none now = false
at_or_before (some ms) now = leb ms now

claim_lease : Option RunClaim → Option Stamp
claim_lease none = none
claim_lease (some c) = or_else c.lease_expires_at c.expires_at

-- `expiresAt && Date.parse(expiresAt) <= now`.
unfoldable pub has_expired : ℕ → Option RunClaim → Bool
unfolding claim_lease
has_expired now claim = at_or_before (parse_stamp (claim_lease claim)) now

unfoldable pub with_update : Option RunClaim → Run → Run
unfolding merge_claim
with_update none run = run
with_update (some update) run = record run { claim = some (merge_claim run.claim update) }

-- What `normalizeError` makes of an answer with no error of its own.
abbrev pub object_error : Problem
object_error = record { code = none; message = "[object Object]" }

module _ (config : Config) (now : ℕ) (cancels : Run → Bool) where
  unfoldable pub handle_renewal_failure : Run → Problem → Option RunClaim → State → State × Bool
  unfolding has_expired with_update
  handle_renewal_failure old error update s =
      let run = with_update update old in
      let expired = has_expired now run.claim in
      let noted = record s {
        active_runs = set_run run s.active_runs;
        claim_renewals =
            push_trim
              (record {
                run_id = run.run_id;
                status = if expired then failed_expired else failed;
                error = some (normalize_error error);
                renewed_at = now;
                lease_expires_at = none;
              })
              s.claim_renewals;
      } in
      if expired then cancel_run config now cancels run "claim_renewal_expired" false noted else (
        record noted { active_runs = set_run (schedule_renewal config now run) noted.active_runs },
        true,
      )

  -- The claim service's answer counts as a success unless it says `renewed: false`.
  succeed : Run → RunClaim → Option Stamp → State → State × Bool
  unfolding merge_claim
  succeed old update lease s =
      let run = record old { claim = some (merge_claim old.claim update) } in
      (
        record s {
          active_runs = set_run (schedule_renewal config now run) s.active_runs;
          claim_renewals =
              push_trim
                (record {
                  run_id = run.run_id;
                  status = renewed;
                  error = none;
                  renewed_at = now;
                  lease_expires_at = lease;
                })
                s.claim_renewals;
        },
        true,
      )

  unfoldable pub renew_run : Option Run → RenewalAnswer → State → State × Bool
  unfolding handle_renewal_failure succeed
  renew_run none answer s = (s, true)
  renew_run (some run) no_service s = succeed run no_claim none s
  renew_run (some run) (throws e) s = handle_renewal_failure run e none s
  renew_run (some run) (answers true claim own error) s =
      handle_renewal_failure run (get_or error object_error) (some (get_or claim own)) s
  renew_run (some run) (answers false claim own error) s =
      let named = get_or claim no_claim in
      succeed run (get_or claim own)
        (or_else own.lease_expires_at (or_else named.expires_at named.lease_expires_at)) s

  unfoldable pub renew_claim_now : Option String → RenewalAnswer → State → State × Bool
  unfolding renew_run
  renew_claim_now id answer s = renew_run (get_run id s.active_runs) answer s

  renew_current : Option Run → Option String → Option String → RenewalAnswer → State → State × Bool
  renew_current none run_id attempt_id answer s = (s, true)
  renew_current (some run) run_id attempt_id answer s =
      if same_text run.attempt_id attempt_id then renew_claim_now run_id answer s else (s, true)

  -- The renewal timer that was set for a run and an attempt fires.
  unfoldable pub renewal_fires :
      Option String → Option String → RenewalAnswer → State → State × Bool
  unfolding renew_current
  renewal_fires run_id attempt_id answer s =
      renew_current (get_run run_id s.active_runs) run_id attempt_id answer s
