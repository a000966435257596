-- ===== src/Mobile/Tests.antt =====
-- Tests of the mobile operations of apps/api/src/repository.ts on the scenario.
use cylizerapp.Base.{Bool, false, ◌≡◌, ◌≢◌, refl, true, none, some, ◌≤◌, ◌<◌, ◌+◌, count, find, any}
use cylizerapp.Base.Outcome.{Outcome, done}
use cylizerapp.Base.Dict.{get, values, map_values, set, remove}
use cylizerapp.Mobile.Scenario.{
  enrolling, pairing, paired, activation, active, session, preparation, rotating, confirmation,
  revocation, admin_revocation, answer, hash_1, hash_2, code, asha,
}
use cylizerapp.Domain.{
  DeviceCredentialType, DeviceCredentialState, StoredDeviceCredential, PairingCodeRecord,
  MobileDeviceContext, PairingOutcome,
}
use cylizerapp.Repository.{Repository, next_id}
use cylizerapp.Mobile.Lifetime.{IsSound, is_closed}
use cylizerapp.Mobile.Lifetime.Steps.{
  Reach, Anything, here, next, Reach-IsSound, resolve-is_usable, closed-denied_forever, redeems,
  activates, prepares, revokes,
}
use cylizerapp.Mobile.Credentials.{
  is_usable, resolve_device_credential, is_consent_current, context_for_credential, stands_for,
  is_registered, find_current_mobile_credential, names_credential,
}
use cylizerapp.Mobile.Denial.{
  DeniedForever, revoke-DeniedForever, admin_revoke-DeniedForever, confirm_hands_over,
}
use cylizerapp.Mobile.Enrolment.{activate-is_consent_current, redeem_once}
use cylizerapp.Mobile.Consent.{
  consent_lead, consent_age, withdraw_consent, in_consent_window, agreed_policy, completed_request,
}
use cylizerapp.Mobile.Activation.{
  activate_mobile_device, admit_activation, commit_activation, is_fresh_session,
}
use cylizerapp.Mobile.Rotation.{
  prepare_device_session_rotation, confirm_device_session_rotation, RotationPair, admit_confirm,
  is_fresh_rotation, is_pending_rotation, admit_prepare, commit_confirm, is_replaceable,
  commit_prepare,
}
use cylizerapp.Mobile.Revocation.{
  admit_revoke, commit_revoke, revoke_mobile_session, admit_revoke, commit_revoke,
}
use cylizerapp.Mobile.AdminRevocation.{
  revoke_device_by_administrator, revoke_live, admit_admin_revoke, admin_revoke_result, is_live_of,
  commit_admin_revoke,
}
use cylizerapp.Mobile.Pairing.{
  redeem_pairing_code, consume, prepare_device, commit_redemption, revoke_open, store_redemption,
}
use cylizerapp.Mobile.PairingCheck.{create_pairing_code, refusal, examine, examine_code}
use cylizerapp.Contracts.Employees.{EmployeeDevice}
use cylizerapp.Base.Text.{is_sha256_hex, pad_decimal}

enrolling-IsSound : IsSound enrolling
unfolding get
enrolling-IsSound = record { is_map = tt; own_hash = λ hash c e. cc; by_id = λ hash c e. cc }

Reach-active : Reach Anything enrolling active
unfolding get set values find any next_id pad_decimal redeem_pairing_code commit_redemption
    store_redemption prepare_device examine find_current_mobile_credential names_credential
    is_usable stands_for is_registered is_sha256_hex in_consent_window agreed_policy
    completed_request activate_mobile_device admit_activation commit_activation is_fresh_session
Reach-active = next (next here (redeems pairing refl tt)) (activates activation refl)

active-IsSound : IsSound active
active-IsSound = Reach-IsSound Reach-active enrolling-IsSound

Reach-IsSound_example : IsSound active
Reach-IsSound_example = Reach-IsSound Reach-active enrolling-IsSound

activate-is_consent_current_example :
    (2_500 ≤ 3_000 + consent_lead)
    × (3_000 ≤ 2_500 + consent_age)
    × (d : EmployeeDevice) × (get "device_000008" paired.devices ≡ some d)
    × (is_consent_current active d.id ≡ true)
unfolding get set values find any next_id pad_decimal redeem_pairing_code commit_redemption
    store_redemption prepare_device examine find_current_mobile_credential names_credential
    is_usable stands_for is_registered is_sha256_hex in_consent_window agreed_policy
    completed_request activate_mobile_device admit_activation commit_activation is_fresh_session
activate-is_consent_current_example =
    activate-is_consent_current paired active activation
      (answer (activate_mobile_device paired activation).1) refl refl

redeem_once_example :
    redeem_pairing_code paired (record pairing { request_id = "pair_2" })
    ≡ (paired, done (refusal PairingOutcome.consumed (some (consume pairing code))))
unfolding get set values find any next_id pad_decimal redeem_pairing_code commit_redemption
    store_redemption prepare_device examine examine_code
redeem_once_example =
    redeem_once enrolling pairing (record pairing { request_id = "pair_2" }) "code_1" code asha none
      refl refl refl refl

resolve-is_usable_example :
    (c : StoredDeviceCredential) × (get hash_2 active.device_credentials_by_hash ≡ some c)
    × (c.lifecycle_state ≡ DeviceCredentialState.active)
    × (c.revoked_at ≡ none)
    × (c.consumed_at ≡ none)
    × (4_000 < c.expires_at)
unfolding get set values find any next_id pad_decimal redeem_pairing_code commit_redemption
    store_redemption prepare_device examine find_current_mobile_credential names_credential
    is_usable stands_for is_registered is_sha256_hex in_consent_window agreed_policy
    completed_request activate_mobile_device admit_activation commit_activation is_fresh_session
    resolve_device_credential context_for_credential is_consent_current
resolve-is_usable_example =
    resolve-is_usable active hash_2 DeviceCredentialType.session 4_000
      (record session { consent_current = true }) active-IsSound refl

closed-denied_forever_example :
    resolve_device_credential
      (revoke_mobile_session active revocation).0
      hash_1
      DeviceCredentialType.bootstrap
      6_000
    ≢ done session
unfolding get set values find any next_id pad_decimal redeem_pairing_code commit_redemption
    store_redemption prepare_device examine find_current_mobile_credential names_credential
    is_usable stands_for is_registered is_sha256_hex in_consent_window agreed_policy
    completed_request activate_mobile_device admit_activation commit_activation is_fresh_session
    is_closed
closed-denied_forever_example =
    closed-denied_forever hash_1 DeviceCredentialType.bootstrap 6_000 session
      (next here (revokes revocation)) active-IsSound (_, refl, refl)

revoke-DeniedForever_example : DeniedForever (revoke_mobile_session active revocation).0 hash_2
unfolding get set values find any next_id pad_decimal redeem_pairing_code commit_redemption
    store_redemption prepare_device examine find_current_mobile_credential names_credential
    is_usable stands_for is_registered is_sha256_hex in_consent_window agreed_policy
    completed_request activate_mobile_device admit_activation commit_activation is_fresh_session
    revoke_mobile_session admit_revoke commit_revoke map_values revoke_open
revoke-DeniedForever_example =
    revoke-DeniedForever active (revoke_mobile_session active revocation).0 active-IsSound
      revocation (answer (revoke_mobile_session active revocation).1) _ hash_2 _ refl refl refl refl
      refl

admin_revoke-DeniedForever_example :
    DeniedForever (revoke_device_by_administrator active admin_revocation).0 hash_2
unfolding get set values find any next_id pad_decimal redeem_pairing_code commit_redemption
    store_redemption prepare_device examine find_current_mobile_credential names_credential
    is_usable stands_for is_registered is_sha256_hex in_consent_window agreed_policy
    completed_request activate_mobile_device admit_activation commit_activation is_fresh_session
    revoke_device_by_administrator admit_admin_revoke commit_admin_revoke admin_revoke_result count
    map_values revoke_live is_live_of withdraw_consent
admin_revoke-DeniedForever_example =
    admin_revoke-DeniedForever active (revoke_device_by_administrator active admin_revocation).0
      active-IsSound admin_revocation _ _ hash_2 _ refl refl refl refl refl

rotating-IsSound : IsSound rotating
unfolding get set values find any next_id pad_decimal redeem_pairing_code commit_redemption
    store_redemption prepare_device examine find_current_mobile_credential names_credential
    is_usable stands_for is_registered is_sha256_hex in_consent_window agreed_policy
    completed_request activate_mobile_device admit_activation commit_activation is_fresh_session
rotating-IsSound =
    Reach-IsSound {allowed = Anything} (next here (prepares preparation refl)) active-IsSound

confirm_hands_over_example :
    (pair : RotationPair) × (admit_confirm rotating confirmation ≡ done pair)
    × ((c : StoredDeviceCredential) × (get pair.pending_hash
            (confirm_device_session_rotation rotating confirmation).0.device_credentials_by_hash
          ≡ some c)
        × (c.lifecycle_state ≡ DeviceCredentialState.active)
        × (c.id ≡ pair.pending.id))
    × DeniedForever (confirm_device_session_rotation rotating confirmation).0 pair.old_hash
unfolding get set values find any next_id pad_decimal redeem_pairing_code commit_redemption
    store_redemption prepare_device examine find_current_mobile_credential names_credential
    is_usable stands_for is_registered is_sha256_hex in_consent_window agreed_policy
    completed_request activate_mobile_device admit_activation commit_activation is_fresh_session
    prepare_device_session_rotation admit_prepare commit_prepare is_fresh_rotation
    is_consent_current confirm_device_session_rotation admit_confirm commit_confirm
    is_pending_rotation is_replaceable
confirm_hands_over_example =
    confirm_hands_over rotating (confirm_device_session_rotation rotating confirmation).0
      rotating-IsSound confirmation
      (answer (confirm_device_session_rotation rotating confirmation).1) refl refl

abbrev is_accepted : Outcome MobileDeviceContext → Bool
is_accepted (done context) = true
is_accepted _ = false

abbrev second_code : PairingCodeRecord
second_code = record code { id = "code_2"; code_hash = "code_hash_2" }

-- The revoked telephone is paired anew, with a new code and the bootstrap token it had.
abbrev paired_again : Repository
paired_again =
    (redeem_pairing_code
      (create_pairing_code (revoke_mobile_session active revocation).0 second_code)
      (record pairing {
        code_hash = "code_hash_2";
        bootstrap_credential = record pairing.bootstrap_credential { id = "cred_3" };
        request_id = "pair_2";
      })).0

-- That token, which the revocation had closed, is accepted again.
proposed_again :
    is_accepted (resolve_device_credential paired_again hash_1 DeviceCredentialType.bootstrap 1_500)
    ≡ true
unfolding get set values find any next_id pad_decimal redeem_pairing_code commit_redemption
    store_redemption prepare_device examine find_current_mobile_credential names_credential
    is_usable stands_for is_registered is_sha256_hex in_consent_window agreed_policy
    completed_request activate_mobile_device admit_activation commit_activation is_fresh_session
    revoke_mobile_session examine_code create_pairing_code resolve_device_credential
    context_for_credential admit_revoke commit_revoke map_values remove
proposed_again = refl
