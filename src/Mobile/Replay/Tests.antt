-- ===== src/Mobile/Replay/Tests.antt =====
-- Tests of repeated requests of apps/api/src/repository.ts on the scenario.
use cylizerapp.Base.{◌≡◌, refl, true, none, some, count, find, any}
use cylizerapp.Base.Outcome.{done, throws, conflict}
use cylizerapp.Base.Dict.{get, values, map_values, set}
use cylizerapp.Mobile.Scenario.{
  enrolling, pairing, paired, activation, active, reconsent, preparation, rotating, revocation,
  admin_revocation, answer, code, asha,
}
use cylizerapp.Domain.{as_replayed}
use cylizerapp.Repository.{next_id}
use cylizerapp.Mobile.Credentials.{
  is_usable, is_consent_current, stands_for, is_registered, find_current_mobile_credential,
  names_credential,
}
use cylizerapp.Mobile.Replay.Requests.{
  activate_again, activation_conflict, reconsent_again, prepare_again, revoke_again,
}
use cylizerapp.Mobile.Consent.{
  withdraw_consent, in_consent_window, agreed_policy, completed_request,
}
use cylizerapp.Mobile.Activation.{
  activate_mobile_device, reconsent_mobile_device, admit_activation, commit_activation,
  is_fresh_session, commit_reconsent, admit_reconsent,
}
use cylizerapp.Mobile.Rotation.{
  prepare_device_session_rotation, is_fresh_rotation, admit_prepare, commit_prepare,
}
use cylizerapp.Mobile.Revocation.{revoke_mobile_session, admit_revoke, commit_revoke}
use cylizerapp.Mobile.AdminRevocation.{
  revoke_device_by_administrator, revoke_live, admit_admin_revoke, admin_revoke_result, is_live_of,
  commit_admin_revoke,
}
use cylizerapp.Mobile.Pairing.{
  redeem_pairing_code, redemption_result, prepare_device, commit_redemption, revoke_open,
  store_redemption,
}
use cylizerapp.Mobile.PairingCheck.{examine, examine_code}
use cylizerapp.Mobile.Replay.Admin.{admin_revoke_again}
use cylizerapp.Mobile.Replay.Redemption.{redeem_again}
use cylizerapp.Base.Text.{is_sha256_hex, pad_decimal}

activate_again_example :
    activate_mobile_device active activation
    ≡ (active, done (as_replayed (answer (activate_mobile_device paired activation).1)))
unfolding get set values find any next_id pad_decimal redeem_pairing_code commit_redemption
    store_redemption prepare_device examine find_current_mobile_credential names_credential
    is_usable stands_for is_registered is_sha256_hex in_consent_window agreed_policy
    completed_request activate_mobile_device admit_activation commit_activation is_fresh_session
activate_again_example =
    activate_again paired active (answer (activate_mobile_device paired activation).1) activation
      refl

activation_conflict_example :
    activate_mobile_device active (record activation { request_fingerprint = "fp_other" }) ≡ (
      active,
      throws (conflict "The request ID was already used with a different activation payload"),
    )
unfolding get set values find any next_id pad_decimal redeem_pairing_code commit_redemption
    store_redemption prepare_device examine find_current_mobile_credential names_credential
    is_usable stands_for is_registered is_sha256_hex in_consent_window agreed_policy
    completed_request activate_mobile_device admit_activation commit_activation is_fresh_session
activation_conflict_example =
    activation_conflict paired active (answer (activate_mobile_device paired activation).1)
      activation (record activation { request_fingerprint = "fp_other" }) refl refl (λ e. cc)

reconsent_again_example :
    reconsent_mobile_device (reconsent_mobile_device active reconsent).0 reconsent ≡ (
      (reconsent_mobile_device active reconsent).0,
      done (as_replayed (answer (reconsent_mobile_device active reconsent).1)),
    )
unfolding get set values find any next_id pad_decimal redeem_pairing_code commit_redemption
    store_redemption prepare_device examine find_current_mobile_credential names_credential
    is_usable stands_for is_registered is_sha256_hex in_consent_window agreed_policy
    completed_request activate_mobile_device admit_activation commit_activation is_fresh_session
    reconsent_mobile_device admit_reconsent commit_reconsent withdraw_consent
reconsent_again_example =
    reconsent_again active (reconsent_mobile_device active reconsent).0
      (answer (reconsent_mobile_device active reconsent).1) reconsent refl

prepare_again_example :
    prepare_device_session_rotation rotating preparation
    ≡ (rotating, done (as_replayed (answer (prepare_device_session_rotation active preparation).1)))
unfolding get set values find any next_id pad_decimal redeem_pairing_code commit_redemption
    store_redemption prepare_device examine find_current_mobile_credential names_credential
    is_usable stands_for is_registered is_sha256_hex in_consent_window agreed_policy
    completed_request activate_mobile_device admit_activation commit_activation is_fresh_session
    prepare_device_session_rotation admit_prepare commit_prepare is_fresh_rotation
    is_consent_current
prepare_again_example =
    prepare_again active rotating (answer (prepare_device_session_rotation active preparation).1)
      preparation refl

revoke_again_example :
    revoke_mobile_session (revoke_mobile_session active revocation).0 revocation ≡ (
      (revoke_mobile_session active revocation).0,
      done (as_replayed (answer (revoke_mobile_session active revocation).1)),
    )
unfolding get set values find any next_id pad_decimal redeem_pairing_code commit_redemption
    store_redemption prepare_device examine find_current_mobile_credential names_credential
    is_usable stands_for is_registered is_sha256_hex in_consent_window agreed_policy
    completed_request activate_mobile_device admit_activation commit_activation is_fresh_session
    revoke_mobile_session admit_revoke commit_revoke map_values revoke_open
revoke_again_example =
    revoke_again active (revoke_mobile_session active revocation).0
      (answer (revoke_mobile_session active revocation).1) revocation refl

redeem_again_example : redeem_pairing_code paired pairing ≡ (
  paired,
  done (record (redemption_result pairing code (prepare_device enrolling pairing code none).1) {
    replayed = some true;
  }),
)
unfolding get set values find any next_id pad_decimal redeem_pairing_code commit_redemption
    store_redemption prepare_device examine examine_code
redeem_again_example = redeem_again enrolling pairing "code_1" code asha none refl refl refl

admin_revoke_again_example :
    revoke_device_by_administrator
      (revoke_device_by_administrator active admin_revocation).0
      admin_revocation
    ≡ (
      (revoke_device_by_administrator active admin_revocation).0,
      done (record {
        device_id = "device_000008";
        employee_id = "emp_1";
        revoked_at = 5_000;
        reason = "lost";
        revoked_credential_count = 1;
        consent_withdrawn = true;
        replayed = true;
      }),
    )
unfolding get set values find any next_id pad_decimal redeem_pairing_code commit_redemption
    store_redemption prepare_device examine find_current_mobile_credential names_credential
    is_usable stands_for is_registered is_sha256_hex in_consent_window agreed_policy
    completed_request activate_mobile_device admit_activation commit_activation is_fresh_session
    revoke_device_by_administrator admit_admin_revoke commit_admin_revoke admin_revoke_result count
    map_values revoke_live is_live_of withdraw_consent
admin_revoke_again_example =
    admin_revoke_again active (revoke_device_by_administrator active admin_revocation).0
      admin_revocation _ _ refl refl refl refl
