-- ===== src/Mobile/Lifetime/Calls.antt =====
-- Each method of the repository that may touch the credential maps keeps them, on every path.
use cylizerapp.Base.{String, ◌≡◌, ◌≢◌, inl, inr, none, some, Option-cases, Bool-cases, str_eq}
use cylizerapp.Base.Dict.{get}
use cylizerapp.Base.Outcome.{commit_if_keeps, once_keeps}
use cylizerapp.Contracts.Organizations.{IsoDateTime}
use cylizerapp.Domain.{DeviceCredentialType, PairingCodeRecord}
use cylizerapp.Repository.{Repository}
use cylizerapp.Mobile.Credentials.{find_current_mobile_credential}
use cylizerapp.Mobile.Lifetime.Facts.{Kept}
use cylizerapp.Mobile.Lifetime.Keeps.{
  activation-Kept, prepare-Kept, confirm-Kept, revoke_open-Kept, revoke_live-Kept,
  suspend_devices-Kept, prepare_device-Kept, store_redemption-Kept,
}
use cylizerapp.Mobile.PairingCheck.{
  create_pairing_code, revoke_pairing_code, RedeemOptions, Examination, refuse, accept, examine,
}
use cylizerapp.Mobile.Pairing.{redeem_pairing_code, commit_redemption, prepare_device}
use cylizerapp.Mobile.Activation.{
  ActivateOptions, activate_mobile_device, admit_activation, commit_activation, activation_key,
  ReconsentOptions, reconsent_mobile_device, admit_reconsent, commit_reconsent, reconsent_key,
}
use cylizerapp.Mobile.Rotation.{
  PrepareOptions, prepare_device_session_rotation, admit_prepare, commit_prepare, prepare_key,
  ConfirmOptions, confirm_device_session_rotation, admit_confirm, commit_confirm, confirm_key,
}
use cylizerapp.Mobile.Revocation.{
  RevokeOptions, revoke_mobile_session, admit_revoke, commit_revoke, revoke_key,
}
use cylizerapp.Mobile.AdminRevocation.{
  AdminRevokeOptions, revoke_device_by_administrator, admit_admin_revoke, commit_admin_revoke,
  admin_key,
}
use cylizerapp.Mobile.Suspension.{suspend_employee}
use cylizerapp.Mobile.Heartbeat.{HeartbeatOptions, record_device_heartbeat, commit_heartbeat}

-- An id that the index of credentials does not know.
abbrev pub IsNewId : String → Repository → Type 0
IsNewId id s = get id s.device_credential_hash_by_id ≡ none

module _ (watched : Type 0) (hash : String) (s : Repository) (kept : Kept watched hash s) where
  commit_redemption-Kept :
      (o : RedeemOptions) (found : Examination)
      → IsNewId o.bootstrap_credential.id s
      → (watched → o.bootstrap_credential.token_hash ≢ hash)
      → Kept watched hash (commit_redemption s o found).0
  unfolding commit_redemption prepare_device
  commit_redemption-Kept o (refuse result) new apart = kept
  commit_redemption-Kept o (accept id code employee none) new apart =
      store_redemption-Kept watched hash (prepare_device s o code none).0 o id code employee
        (prepare_device s o code none).1 new apart kept
  commit_redemption-Kept o (accept id code employee (some device)) new apart =
      store_redemption-Kept watched hash (prepare_device s o code (some device)).0 o id code
        employee (prepare_device s o code (some device)).1 new apart
        (prepare_device-Kept watched hash s o code (some device) kept)

  pub redeem-Kept :
      (o : RedeemOptions)
      → IsNewId o.bootstrap_credential.id s
      → (watched → o.bootstrap_credential.token_hash ≢ hash)
      → Kept watched hash (redeem_pairing_code s o).0
  unfolding redeem_pairing_code
  redeem-Kept o new apart =
      once_keeps (Kept watched hash) s (get o.request_id s.pairing_redemptions) _ _ kept
        (commit_redemption-Kept o (examine s o) new apart)

  pub activate-Kept :
      (o : ActivateOptions)
      → IsNewId o.session_credential.id s
      → Kept watched hash (activate_mobile_device s o).0
  unfolding activate_mobile_device
  activate-Kept o new =
      once_keeps (Kept watched hash) s (get (activation_key o) s.credential_requests) _ _ kept (
        commit_if_keeps (Kept watched hash) s (admit_activation s o) (commit_activation s o) kept
          (λ p e. activation-Kept watched hash s o p new e kept))

  pub reconsent-Kept : (o : ReconsentOptions) → Kept watched hash (reconsent_mobile_device s o).0
  unfolding reconsent_mobile_device commit_reconsent
  reconsent-Kept o =
      once_keeps (Kept watched hash) s (get (reconsent_key o) s.credential_requests) _ _ kept (
        commit_if_keeps (Kept watched hash) s (admit_reconsent s o) (commit_reconsent s o) kept
          (λ p e. kept))

  pub prepares-Kept :
      (o : PrepareOptions)
      → IsNewId o.session_credential.id s
      → Kept watched hash (prepare_device_session_rotation s o).0
  unfolding prepare_device_session_rotation
  prepares-Kept o new =
      once_keeps (Kept watched hash) s (get (prepare_key o) s.credential_requests) _ _ kept (
        commit_if_keeps (Kept watched hash) s (admit_prepare s o) (commit_prepare s o) kept
          (λ p e. prepare-Kept watched hash s o new e kept))

  pub confirms-Kept :
      (o : ConfirmOptions) → Kept watched hash (confirm_device_session_rotation s o).0
  unfolding confirm_device_session_rotation
  confirms-Kept o =
      once_keeps (Kept watched hash) s (get (confirm_key o) s.credential_requests) _ _ kept (
        commit_if_keeps (Kept watched hash) s (admit_confirm s o) (commit_confirm s o) kept
          (λ p e. confirm-Kept watched hash s o p e kept))

  pub beat-Kept : (o : HeartbeatOptions) → Kept watched hash (record_device_heartbeat s o).0
  unfolding record_device_heartbeat commit_heartbeat
  beat-Kept o =
      commit_if_keeps (Kept watched hash) s
        (find_current_mobile_credential s o.context DeviceCredentialType.session o.at)
        (commit_heartbeat s o) kept (λ p e. kept)

  pub revoke-Kept : (o : RevokeOptions) → Kept watched hash (revoke_mobile_session s o).0
  unfolding revoke_mobile_session commit_revoke
  revoke-Kept o =
      once_keeps (Kept watched hash) s (get (revoke_key o) s.credential_requests) _ _ kept (
        commit_if_keeps (Kept watched hash) s (admit_revoke s o) (commit_revoke s o) kept
          (λ p e. revoke_open-Kept watched hash s p.0.device.id o.at kept))

  pub admin_revoke-Kept :
      (o : AdminRevokeOptions) → Kept watched hash (revoke_device_by_administrator s o).0
  unfolding revoke_device_by_administrator commit_admin_revoke
  admin_revoke-Kept o =
      once_keeps (Kept watched hash) s (get (admin_key o) s.admin_device_revocations) _ _ kept (
        commit_if_keeps (Kept watched hash) s (admit_admin_revoke s o) (commit_admin_revoke s o)
          kept (λ p e. revoke_live-Kept watched hash s p.0.id o.at kept))

  pub suspend-Kept :
      (organization_id employee_id actor_user_id : String) (at : IsoDateTime)
      → Kept watched hash (suspend_employee s organization_id employee_id actor_user_id at).0
  unfolding suspend_employee
  suspend-Kept organization_id employee_id actor_user_id at =
      elim (Option-cases (get employee_id s.employees)) [
        | inl gone ↦ rw (gone, suspend_employee) kept
        | inr (employee, found) ↦
            elim (Bool-cases (str_eq employee.organization_id organization_id)) [
              | inl ours ↦
                  rw (found, ours, suspend_employee)
                    (suspend_devices-Kept watched hash (record s { employees = _ }) organization_id
                      actor_user_id at employee.device_ids kept)
              | inr other ↦ rw (found, other, suspend_employee) kept
            ]
      ]

  pub revoke_code-Kept :
      (organization_id id : String) (at : IsoDateTime)
      → Kept watched hash (revoke_pairing_code s organization_id id at).0
  unfolding revoke_pairing_code
  revoke_code-Kept organization_id id at = elim (Option-cases (get id s.pairing_codes_by_id)) [
    | inl gone ↦ rw (gone, revoke_pairing_code) kept
    | inr (code, found) ↦ elim (Bool-cases (str_eq code.organization_id organization_id)) [
      | inl ours ↦ rw (found, ours, revoke_pairing_code) kept
      | inr other ↦ rw (found, other, revoke_pairing_code) kept
    ]
  ]

  pub create_code-Kept : (code : PairingCodeRecord) → Kept watched hash (create_pairing_code s code)
  unfolding create_pairing_code
  create_code-Kept code = kept
