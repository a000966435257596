-- ===== src/Mobile/Replay/Redemption.antt =====
-- What a repeated `redeemPairingCode` of apps/api/src/repository.ts gets.
use cylizerapp.Base.{String, ◌≡◌, true, Option, none, some, arith, eq_iff, eq_refl, str_eq}
use cylizerapp.Base.Dict.{get, get-set_self}
use cylizerapp.Base.Outcome.{done}
use cylizerapp.Contracts.Employees.{Employee, EmployeeDevice}
use cylizerapp.Domain.{PairingCodeRecord, StoredPairingRedemption}
use cylizerapp.Repository.{Repository}
use cylizerapp.Mobile.PairingCheck.{RedeemOptions, accept, examine}
use cylizerapp.Mobile.Pairing.{
  redeem_pairing_code, commit_redemption, prepare_device, store_redemption, redemption_result,
  replay_redemption,
}

-- A redemption sent again gives the same answer, marked as a replay, and changes nothing: no second
-- device and no second token. The device that was found or made has the request's installation.
pub redeem_again :
    (s : Repository) (o : RedeemOptions) (id : String) (code : PairingCodeRecord)
    (employee : Employee) (existing : Option EmployeeDevice)
    → get o.request_id s.pairing_redemptions ≡ none
    → examine s o ≡ accept id code employee existing
    → (prepare_device s o code existing).1.installation_id ≡ o.registration.installation_id
    → redeem_pairing_code (redeem_pairing_code s o).0 o ≡ (
      (redeem_pairing_code s o).0,
      done (record (redemption_result o code (prepare_device s o code existing).1) {
        replayed = some true;
      }),
    )
unfolding redeem_pairing_code commit_redemption store_redemption replay_redemption
redeem_again s o id code employee existing new accepted installed =
    let t = (redeem_pairing_code s o).0 in
    let device = (prepare_device s o code existing).1 in
    let prior : StoredPairingRedemption = record {
      request_id = o.request_id;
      code_hash = o.code_hash;
      request_fingerprint = o.request_fingerprint;
      result = redemption_result o code device;
    } in
    let stored : get o.request_id t.pairing_redemptions ≡ some prior =
      rw (new, accepted)
        (get-set_self o.request_id prior
          (prepare_device s o code existing).0.pairing_redemptions) in
    let same : str_eq device.installation_id o.registration.installation_id ≡ true =
      ground (arith, eq_iff device.installation_id o.registration.installation_id) in
    rw (stored, eq_refl o.code_hash, eq_refl o.request_fingerprint, same)
