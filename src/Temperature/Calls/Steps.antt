-- ===== src/Temperature/Calls/Steps.antt =====
-- The calls for a zone's temperature do to the cached zone what the steps of a probe do.
use satel_integra.Common.{
  ℕ, if◌then◌else◌, ◌≡◌, refl, inl, inr, true, false, sym, ap, ◌∙◌, Bool-cases, some, List,
  get_elem?, get_elem?-set_self, arith,
}
use satel_integra.Config.{Config}
use satel_integra.Event.{SatelEvent}
use satel_integra.Error.{SatelError, Result, ok, err, Result-cases}
use satel_integra.Parsers.Temperature.{ℤ, process_zone_temperature}
use satel_integra.State.{Zone, SatelState}
use satel_integra.Temperature.{temp_limits, is_blocked, refuse, record_error, record_success}
use satel_integra.Temperature.Probes.{
  reading, heard, heard_error, heard_parsed, blocks, next, probe_of, without_probe, reply,
}
use satel_integra.Temperature.Agreement.{
  record_error-after_heard, record_success-after_heard, is_blocked-blocks, refuse-after_refusal,
}
use satel_integra.Temperature.Reachable.{Step, refused, failed, succeeded}
use satel_integra.Temperature.Calls.{
  Called, found, returned_error, update_temperature_success_internal, zone_index, put_zone,
  update_temp_error, failed_with, read_as, get_zone_temperature_raw,
  get_zone_temperature_with_blocking,
}

-- The panel answers for the zone that it was asked for.
unfoldable pub AnswersFor : ℕ → Result (List ℕ) → Type 0
AnswersFor zone_id answer =
    (response : List ℕ) (id : ℕ) (temp : ℤ)
    → answer ≡ ok response
    → process_zone_temperature response ≡ ok (id, temp)
    → id ≡ zone_id

reply-err : (e : SatelError) (z : Zone) → reply (err e) z ≡ err (returned_error e)
unfolding reply returned_error
reply-err SatelError.timeout z = refl
reply-err _ z = refl

module _ (config : Config) (now zone_id : ℕ) (state : SatelState) (zone : Zone)
    (cached : get_elem? state.zones (zone_index zone_id) ≡ some zone) where
  put_zone-cached :
      (zone' : Zone)
      → get_elem? (put_zone state zone_id zone').zones (zone_index zone_id) ≡ some zone'
  unfolding put_zone
  put_zone-cached zone' = get_elem?-set_self state.zones (zone_index zone_id) zone zone' cached

  -- What a call leaves: the cached zone alone is changed, in its probe alone; the probe is what it is
  -- meant to be; the call returns what is meant for it; and the change is a step.
  pub record Stepped (answer : Result (List ℕ)) (call : Called) : Type 0 where
    pub zone' : Zone
    pub put : call.state ≡ put_zone state zone_id zone'
    pub cached' : get_elem? call.state.zones (zone_index zone_id) ≡ some zone'
    pub probe : probe_of zone' ≡ next (temp_limits config zone_id) (probe_of zone) (heard answer)
    pub rest : without_probe zone' ≡ without_probe zone
    pub result : call.result ≡ (
        if blocks (temp_limits config zone_id) (probe_of zone)
        then err SatelError.temp_too_many_errors
        else reply answer zone')
    pub step : Step (temp_limits config zone_id) true zone zone'

  refused-Stepped :
      (answer : Result (List ℕ)) (sent : List SatelEvent)
      → is_blocked (temp_limits config zone_id) zone ≡ true
      → Stepped answer (record {
        result = err SatelError.temp_too_many_errors;
        state = put_zone state zone_id (refuse (temp_limits config zone_id) zone).0;
        sent = sent;
      })
  refused-Stepped answer sent b =
      let limits = temp_limits config zone_id in
      let zone' = (refuse limits zone).0 in
      let same = refuse-after_refusal limits zone in
      let full = is_blocked-blocks limits zone ∙ b in
      record {
        zone' = zone';
        put = refl;
        cached' = put_zone-cached zone';
        probe = unfold next in rw full same.0;
        rest = same.1;
        result = rw full refl;
        step = refused zone b;
      }

  failed_with-Stepped :
      (answer : Result (List ℕ)) (error returned : SatelError)
      → is_blocked (temp_limits config zone_id) zone ≡ false
      → heard answer ≡ heard_error error
      → ((z : Zone) → reply answer z ≡ err returned)
      → Stepped answer (failed_with config now zone_id error returned state)
  unfolding failed_with update_temp_error
  failed_with-Stepped answer error returned free h replies =
      let limits = temp_limits config zone_id in
      let zone' = (record_error limits now error zone).0 in
      let same = record_error-after_heard limits now error zone in
      let open_ = is_blocked-blocks limits zone ∙ free in
      rw cached (record {
        zone' = zone';
        put = refl;
        cached' = put_zone-cached zone';
        probe = unfold next in rw (open_, h) same.0;
        rest = same.1;
        result = rw open_ (sym (replies zone'));
        step = failed zone now error free;
      })

  read_as-Stepped :
      (answer : Result (List ℕ)) (temp : ℤ)
      → is_blocked (temp_limits config zone_id) zone ≡ false
      → heard answer ≡ reading temp
      → ((z : Zone) → reply answer z ≡ ok z)
      → Stepped answer (read_as config now zone_id temp state)
  unfolding read_as update_temperature_success_internal
  read_as-Stepped answer temp free h replies =
      let limits = temp_limits config zone_id in
      let zone' = record_success now temp zone in
      let same = record_success-after_heard limits now temp zone in
      let open_ = is_blocked-blocks limits zone ∙ free in
      let at = put_zone-cached zone' in
      rw cached (record {
        zone' = zone';
        put = refl;
        cached' = at;
        probe = unfold next in rw (open_, h) same.0;
        rest = same.1;
        result = rw open_ (ap found at ∙ sym (replies zone'));
        step = succeeded zone now temp free;
      })

  raw-Stepped :
      (answer : Result (List ℕ))
      → AnswersFor zone_id answer
      → is_blocked (temp_limits config zone_id) zone ≡ false
      → Stepped answer (get_zone_temperature_raw config now zone_id answer state)
  unfolding get_zone_temperature_raw AnswersFor
  raw-Stepped (err e) h free =
      failed_with-Stepped (err e) e _ free (unfold heard in refl) (reply-err e)
  raw-Stepped (ok response) h free = elim (Result-cases (process_zone_temperature response)) [
    | inl ((id, temp), e) ↦
        rw (e, h response id temp refl e)
          (read_as-Stepped (ok response) temp free (unfold heard heard_parsed in rw e refl)
            (λ z. unfold reply in rw e refl))
    | inr (reason, e) ↦ rw e (
        failed_with-Stepped (ok response) reason reason free
          (unfold heard heard_parsed in rw e refl) (λ z. unfold reply in rw e refl))
  ]

  -- A call of `get_zone_temperature_with_blocking` for a cached zone, with an answer that is about the
  -- zone that was asked for, does to the zone's probe what is meant: one that is blocked is refused with
  -- `temp_too_many_errors`, and its wait goes on or ends; another takes up what was heard, a reading, no
  -- answer, a missing sensor or another error, and the call returns the zone or that error, where a
  -- time-out is returned as `temperature_not_supported_or_time_out`. It changes no other zone and nothing
  -- else in this one but the time of the reading, and is a step of a zone that only such calls read.
  pub get_zone_temperature_with_blocking-Stepped :
      (answer : Result (List ℕ))
      → AnswersFor zone_id answer
      → Stepped answer (get_zone_temperature_with_blocking config now zone_id answer state)
  unfolding get_zone_temperature_with_blocking
  get_zone_temperature_with_blocking-Stepped answer h =
      elim (Bool-cases (is_blocked (temp_limits config zone_id) zone)) [
        | inl b ↦ rw (cached, b) (refused-Stepped answer _ b)
        | inr b ↦ rw (cached, b) (raw-Stepped answer h b)
      ]

-- Where the limit of time-outs of a cached zone is 0, a blocking call for it is refused, in every state
-- of the zone and whatever the panel would answer.
pub zero_limit-refused :
    (config : Config) (now zone_id : ℕ) (answer : Result (List ℕ)) (state : SatelState)
    (zone : Zone)
    → get_elem? state.zones (zone_index zone_id) ≡ some zone
    → (temp_limits config zone_id).max_timeout_errors ≡ 0
    → (get_zone_temperature_with_blocking config now zone_id answer state).result
      ≡ err SatelError.temp_too_many_errors
unfolding get_zone_temperature_with_blocking
zero_limit-refused config now zone_id answer state zone cached zero =
    let blocked : is_blocked (temp_limits config zone_id) zone ≡ true =
      unfold is_blocked in ground arith in
    rw (cached, blocked) refl
