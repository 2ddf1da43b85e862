-- ===== src/Tests/Machine.antt =====
-- Everything that a run of a request computes through.
use at_app.Base.{select, exists_where, count_where, update_where, first, join, join_row, same_bytes}
use at_app.Store.{is_present, is_absent, is_overridden, counts_present}
use at_app.Store.Rls.{admits, restrict, rls_view, outside}
use at_app.Store.Attendance.{insert_record, upsert_record}
use at_app.World.{
  continue, ◌>>=◌, pure, raise, gets, reach, call, reject_if, query, try_query, or_reject, or_fail,
  statement, with_tenant, commit, finish, in_tx, publish, live, time_left, redis_get, redis_do,
  redis_must, redis_ttl,
}
use at_app.Session.Codes.{format_code, next_code}
use at_app.Session.Start.{
  teaches, active_exists, generate_code, count_started, set_code, set_prev, insert_session,
  open_session, start_session,
}
use at_app.Session.Rotate.{
  find_code, update_code, emit, generate_other, show_or_rotate, rotate, show, get_or_rotate_code,
}
use at_app.Session.End.{
  find_taught, set_ended, enrolled, has_record, insert_absent, mark_one, mark_next, mark_absent,
  count_status, summarize, close_session, del_codes, count_ended, publish_one, publish_absent,
  end_session,
}
use at_app.Verification.Signals.{
  load_policy, geofence, target, distance, geofence_match, code_match, bssid_match, matched_count,
  rejection_reason, outcome,
}
use at_app.Verification.Checkin.{
  count_checkin, find_policy, find_session, checked_in, insert_attempt, record_present, spent,
  again, logged_reason, turn_away, incr_attempts, expire_attempts, del_attempts, record_outcome,
  settle, log_attempt, judge, attempt_checkin, submit_checkin,
}
use at_app.Attendance.Override.{override_record, insert_override, write_override, submit_override}
use at_app.Reporting.Aggregates.{
  ended_sessions, present_records, upsert_aggregate, find_threshold, percentage, write_aggregate,
  breached, alert, publish_alert, update_aggregate,
}
use at_app.Auth.Tokens.{
  access_claims, refresh_claims, reset_claims, same_type, is_anonymous, key_of, admit,
  generate_token_pair, generate_password_reset_token, validate_token, validate_password_reset_token,
  validate_access_token, validate_refresh_token,
}
use at_app.Auth.Accounts.{
  role_text, find_user, lookup, or_raise, update_password, fail_if, login, hashed, hash_password,
  set_password, confirm_password_reset,
}

unfoldable pub machine : Unit {0}
unfolding select exists_where count_where update_where first join join_row same_bytes is_present
    is_absent is_overridden counts_present admits restrict rls_view outside insert_record
    upsert_record continue ◌>>=◌ pure raise gets reach call reject_if query try_query or_reject
    or_fail statement with_tenant commit finish in_tx publish live time_left redis_get redis_do
    redis_must redis_ttl format_code next_code teaches active_exists generate_code count_started
    set_code set_prev insert_session open_session start_session find_code update_code emit
    generate_other show_or_rotate rotate show get_or_rotate_code find_taught set_ended enrolled
    has_record insert_absent mark_one mark_next mark_absent count_status summarize close_session
    del_codes count_ended publish_one publish_absent end_session load_policy geofence target
    distance geofence_match code_match bssid_match matched_count rejection_reason outcome
    count_checkin find_policy find_session checked_in insert_attempt record_present spent again
    logged_reason turn_away incr_attempts expire_attempts del_attempts record_outcome settle
    log_attempt judge attempt_checkin submit_checkin override_record insert_override write_override
    submit_override ended_sessions present_records upsert_aggregate find_threshold percentage
    write_aggregate breached alert publish_alert update_aggregate access_claims refresh_claims
    reset_claims same_type is_anonymous key_of admit generate_token_pair
    generate_password_reset_token validate_token validate_password_reset_token validate_access_token
    validate_refresh_token role_text find_user lookup or_raise update_password fail_if login hashed
    hash_password set_password confirm_password_reset
machine = tt
