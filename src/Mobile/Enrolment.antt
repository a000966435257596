-- ===== src/Mobile/Enrolment.antt =====
-- What a successful enrolment has checked and what it leaves behind: `redeemPairingCode` and
-- `activateMobileDevice` of apps/api/src/repository.ts.
use cylizerapp.Base.{
  ◌+◌, ◌≤◌, ◌<◌, String, ◌≡◌, refl, sym, ap, ◌∙◌, true, Option, none, some, arith,
}
use cylizerapp.Base.Dict.{get, get-set_self}
use cylizerapp.Base.Outcome.{done, commit_if-eq-done}
use cylizerapp.Contracts.Organizations.{IsoDateTime}
use cylizerapp.Contracts.Employees.{Employee, EmployeeDevice}
use cylizerapp.Contracts.Sync.{MobilePolicy, MobilePolicyReference}
use cylizerapp.Domain.{DeviceCredentialType, MobileResponse, PairingCodeRecord, PairingOutcome}
use cylizerapp.Repository.{Repository}
use cylizerapp.Mobile.Credentials.{
  CurrentCredential, find_current_mobile_credential, find_current-IsCurrentFor, is_consent_current,
  is_consent_current_of, current-mode,
}
use cylizerapp.Mobile.Consent.{receipt, in_consent_window, consent_lead, consent_age, agreed_policy}
use cylizerapp.Mobile.Activation.{
  ActivateOptions, activate_mobile_device, admit_activation, commit_activation, activation_key,
}
use cylizerapp.Mobile.PairingCheck.{RedeemOptions, refuse, accept, examine, examine_code, refusal}
use cylizerapp.Mobile.Pairing.{
  redeem_pairing_code, commit_redemption, prepare_device, store_redemption, consume,
}

window_bounds :
    (accepted at : IsoDateTime)
    → in_consent_window accepted at ≡ true
    → (accepted ≤ at + consent_lead) × (at ≤ accepted + consent_age)
unfolding in_consent_window
window_bounds accepted at h = ground arith

admit_activation_window :
    (s : Repository) (o : ActivateOptions) (p : CurrentCredential × MobilePolicy)
    → admit_activation s o ≡ done p
    → (in_consent_window o.activation.consent.accepted_at o.at ≡ true)
      × (agreed_policy (s.mobile_policies o.context.collection_mode) o.policy o.activation.policy
          ≡ done p.1)
      × (find_current_mobile_credential s o.context DeviceCredentialType.bootstrap o.at ≡ done p.0)
unfolding admit_activation
admit_activation_window s o (current, active) e = ground arith

agreed-in_force :
    (in_force : Option MobilePolicy) (policy active : MobilePolicy)
    (reference : MobilePolicyReference)
    → agreed_policy in_force policy reference ≡ done active
    → in_force ≡ some active
unfolding agreed_policy
agreed-in_force none policy active reference e = cc
agreed-in_force (some p) policy active reference e = ground arith

-- Under a request ID not answered before, a device is activated only on a consent given at most fifteen minutes before and at most five
-- minutes after the server's time, and its consent is current afterwards.
pub activate-is_consent_current :
    (s t : Repository) (o : ActivateOptions) (r : MobileResponse)
    → get (activation_key o) s.credential_requests ≡ none
    → activate_mobile_device s o ≡ (t, done r)
    → (o.activation.consent.accepted_at ≤ o.at + consent_lead)
      × (o.at ≤ o.activation.consent.accepted_at + consent_age)
      × (d : EmployeeDevice) × (get o.context.device_id s.devices ≡ some d)
      × (is_consent_current t d.id ≡ true)
unfolding activate_mobile_device commit_activation
activate-is_consent_current s t o r new e =
    let e' = rw new at e in
    let ((current, active), admitted, written) =
      commit_if-eq-done s (admit_activation s o) (commit_activation s o) e' in
    let (window, agreed, found) = admit_activation_window s o (current, active) admitted in
    let (late, early) = window_bounds o.activation.consent.accepted_at o.at window in
    let in_force =
      agreed-in_force (s.mobile_policies o.context.collection_mode) o.policy active
        o.activation.policy agreed in
    let mode = current-mode s o.context DeviceCredentialType.bootstrap o.at current found in
    let fact =
      find_current-IsCurrentFor s o.context DeviceCredentialType.bootstrap o.at current found in
    (
      late,
      early,
      current.device,
      fact.device_found,
      is_consent_current_of t current.device.id o.context.collection_mode
          (receipt o.context active o.activation.consent o.activation.permissions o.at) active
          (ap (λ q. get current.device.id q.0.active_consent_by_device) (sym written)
            ∙ get-set_self current.device.id _ s.active_consent_by_device)
          (ap (λ q. get current.device.id q.0.device_collection_modes) (sym written) ∙ mode)
          (ap (λ q. q.0.mobile_policies o.context.collection_mode) (sym written) ∙ in_force) refl
          refl refl,
    )

examine-accept_stored :
    (s : Repository) (o : RedeemOptions) (id : String) (code : PairingCodeRecord)
    (employee : Employee) (existing : Option EmployeeDevice)
    → examine s o ≡ accept id code employee existing
    → (get o.code_hash s.pairing_code_id_by_hash ≡ some id)
      × (get id s.pairing_codes_by_id ≡ some code)
      × (code.revoked_at ≡ none)
      × (code.consumed_at ≡ none)
      × (o.at < code.expires_at)
unfolding examine
examine-accept_stored s o id code employee existing e = ground arith

prepare_device-codes :
    (s : Repository) (o : RedeemOptions) (code : PairingCodeRecord)
    (existing : Option EmployeeDevice)
    → ((prepare_device s o code existing).0.pairing_codes_by_id ≡ s.pairing_codes_by_id)
      × ((prepare_device s o code existing).0.pairing_code_id_by_hash ≡ s.pairing_code_id_by_hash)
unfolding prepare_device
prepare_device-codes s o code none = (refl, refl)
prepare_device-codes s o code (some device) = (refl, refl)

examine_consumed :
    (t : Repository) (o : RedeemOptions) (id : String) (code : PairingCodeRecord) (at : IsoDateTime)
    → get o.code_hash t.pairing_code_id_by_hash ≡ some id
    → get id t.pairing_codes_by_id ≡ some code
    → code.revoked_at ≡ none
    → code.consumed_at ≡ some at
    → examine t o ≡ refuse (refusal PairingOutcome.consumed (some code))
unfolding examine examine_code
examine_consumed t o id code at h c r u = ground arith

-- A code pairs once: after a redemption, a redemption of the same code under a request ID that has
-- not been answered is refused as consumed, and changes nothing.
pub redeem_once :
    (s : Repository) (o o' : RedeemOptions) (id : String) (code : PairingCodeRecord)
    (employee : Employee) (existing : Option EmployeeDevice)
    → get o.request_id s.pairing_redemptions ≡ none
    → examine s o ≡ accept id code employee existing
    → o'.code_hash ≡ o.code_hash
    → get o'.request_id (redeem_pairing_code s o).0.pairing_redemptions ≡ none
    → redeem_pairing_code (redeem_pairing_code s o).0 o' ≡ (
      (redeem_pairing_code s o).0,
      done (refusal PairingOutcome.consumed (some (consume o code))),
    )
unfolding redeem_pairing_code commit_redemption store_redemption
redeem_once s o o' id code employee existing new accepted same_code new' =
    let (hashed, stored, open', unused, _) =
      examine-accept_stored s o id code employee existing accepted in
    let (codes, ids) = prepare_device-codes s o code existing in
    let t = (redeem_pairing_code s o).0 in
    let hashed' : get o'.code_hash t.pairing_code_id_by_hash ≡ some id =
      rw (new, accepted, same_code, ids) hashed in
    let stored' : get id t.pairing_codes_by_id ≡ some (consume o code) =
      rw (new, accepted) (get-set_self id (consume o code) _) in
    let refused = examine_consumed t o' id (consume o code) o.at hashed' stored' open' refl in
    rw (new', refused)
