-- ===== src/Mobile/Replay/Admin.antt =====
-- What a repeated `revokeDeviceByAdministrator` of apps/api/src/repository.ts gets.
use cylizerapp.Base.{◌≡◌, sym, ap, ◌∙◌, true, none, some, arith, eq_iff, eq_refl, str_eq}
use mathlib.Core.Option.{some-injective}
use cylizerapp.Base.Dict.{get, get-set_self}
use cylizerapp.Base.Outcome.{done, commit_if-eq-done}
use cylizerapp.Contracts.Employees.{EmployeeDevice}
use cylizerapp.Domain.{AdminRevokeDeviceResult}
use cylizerapp.Repository.{Repository}
use cylizerapp.Mobile.AdminRevocation.{
  AdminRevokeOptions, revoke_device_by_administrator, admit_admin_revoke, commit_admin_revoke,
  admin_key, replay_admin_revoke,
}
use cylizerapp.Mobile.Denial.{admit_admin_revoke_device}

-- An administrator's revocation sent again gives the same answer, marked as a replay, and changes
-- nothing: no second audit entry is written. The first request ID was new, and the
-- device stands under its own id.
pub admin_revoke_again :
    (s t : Repository) (o : AdminRevokeOptions) (r : AdminRevokeDeviceResult) (d : EmployeeDevice)
    → get (admin_key o) s.admin_device_revocations ≡ none
    → get o.device_id s.devices ≡ some d
    → d.id ≡ o.device_id
    → revoke_device_by_administrator s o ≡ (t, done r)
    → revoke_device_by_administrator t o ≡ (t, done (record r { replayed = true }))
unfolding revoke_device_by_administrator commit_admin_revoke replay_admin_revoke
admin_revoke_again s t o r d new known own e =
    let e' = rw new at e in
    let ((device, events), admitted, written) =
      commit_if-eq-done s (admit_admin_revoke s o) (commit_admin_revoke s o) e' in
    let same : d ≡ device =
      some-injective d device
        (sym known ∙ admit_admin_revoke_device s o (device, events) admitted) in
    let id : device.id ≡ o.device_id = ap (λ (x : EmployeeDevice). x.id) (sym same) ∙ own in
    let stored =
      ap (λ q. get (admin_key o) q.0.admin_device_revocations) (sym written)
      ∙ get-set_self (admin_key o) _ s.admin_device_revocations in
    let accepted : str_eq device.id o.device_id ≡ true =
      ground (arith, eq_iff device.id o.device_id) in
    let answer = ap (λ q. record (q.1) { replayed = true }) written in
    rw (stored, accepted, eq_refl o.actor_user_id, eq_refl o.request_fingerprint)
      (ap (λ x. (t, done x)) answer)
