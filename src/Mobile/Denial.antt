-- ===== src/Mobile/Denial.antt =====
-- What ends a token's life in apps/api/src/repository.ts: revocation by the employee, by an
-- administrator, and the second step of a rotation.
use cylizerapp.Base.{String, ◌≡◌, ◌≢◌, refl, sym, ap, subst, ◌∙◌, true, none, some, arith, eq_iff}
use mathlib.Core.Option
use mathlib.Core.Option.{some-injective}
use cylizerapp.Base.Dict.{get, set, get-map_values, get-set_self, get-set_ne}
use cylizerapp.Base.Outcome.{done, commit_if-eq-done}
use cylizerapp.Contracts.Organizations.{IsoDateTime}
use cylizerapp.Contracts.Employees.{EmployeeDevice}
use cylizerapp.Base.{List}
use cylizerapp.Domain.{
  StoredDeviceCredential, DeviceCredentialState, DeviceCredentialType, MobileDeviceContext,
  MobileResponse, AdminRevokeDeviceResult, StoredConsentReceipt, AuditEvent,
}
use cylizerapp.Repository.{Repository}
use cylizerapp.Mobile.Credentials.{
  resolve_device_credential, find_current_mobile_credential, find_current-IsCurrentFor,
  CurrentCredential,
}
use cylizerapp.Mobile.Pairing.{revoke_open}
use cylizerapp.Mobile.Revocation.{
  RevokeOptions, revoke_mobile_session, admit_revoke, commit_revoke, revoke_key,
}
use cylizerapp.Mobile.AdminRevocation.{
  AdminRevokeOptions, revoke_device_by_administrator, admit_admin_revoke, commit_admin_revoke,
  admin_key, revoke_live, is_live_of,
}
use cylizerapp.Mobile.Rotation.{
  ConfirmOptions, RotationPair, confirm_device_session_rotation, admit_confirm, commit_confirm,
  confirm_key, promoted, replaced,
}
use cylizerapp.Mobile.Lifetime.{IsSound, HoldsClosed, is_closed}
use cylizerapp.Mobile.Lifetime.Facts.{rotation_hashes_ne}
use cylizerapp.Mobile.Lifetime.Steps.{
  Reach, Anything, OtherThan, here, next, revokes, admin_revokes, confirms, Reach-IsSound,
  closed-denied_forever,
}

-- No token of this hash is accepted in any state that calls lead to from `s`, unless a later pairing
-- among them proposes that very token again; new credentials have new ids.
abbrev pub DeniedForever : Repository → String → Type 0
DeniedForever s hash =
    (u : Repository) (type : DeviceCredentialType) (at : IsoDateTime)
    (context : MobileDeviceContext)
    → Reach (OtherThan hash) s u
    → resolve_device_credential u hash type at ≢ done context

closed-DeniedForever :
    (s : Repository) (hash : String)
    → IsSound s
    → HoldsClosed hash s.device_credentials_by_hash
    → DeniedForever s hash
closed-DeniedForever s hash sound closed u type at context r =
    closed-denied_forever hash type at context r sound closed

revoke_open_closes :
    (id : String) (at : IsoDateTime) (c : StoredDeviceCredential)
    → c.device_id ≡ id
    → is_closed (revoke_open id at c) ≡ true
unfolding revoke_open is_closed
revoke_open_closes id at c e = ground (arith, eq_iff c.device_id id)

revoke_live_closes :
    (id : String) (at : IsoDateTime) (c : StoredDeviceCredential)
    → c.device_id ≡ id
    → is_closed (revoke_live id at c) ≡ true
unfolding revoke_live is_live_of is_closed
revoke_live_closes id at c e = ground (arith, eq_iff c.device_id id)

admit_revoke_device :
    (s : Repository) (o : RevokeOptions) (p : CurrentCredential × StoredConsentReceipt)
    → admit_revoke s o ≡ done p
    → get o.context.device_id s.devices ≡ some p.0.device
unfolding admit_revoke
admit_revoke_device s o (current, consent) e =
    let found : find_current_mobile_credential s o.context DeviceCredentialType.session o.at
        ≡ done current =
      ground arith in
    (find_current-IsCurrentFor s o.context DeviceCredentialType.session o.at current
      found).device_found

pub admit_admin_revoke_device :
    (s : Repository) (o : AdminRevokeOptions) (p : EmployeeDevice × List AuditEvent)
    → admit_admin_revoke s o ≡ done p
    → get o.device_id s.devices ≡ some p.0
unfolding admit_admin_revoke
admit_admin_revoke_device s o (device, events) e = ground arith

module _ (s t : Repository) (sound : IsSound s) where
  -- After an employee's revocation, in a sound state and under a request ID not answered before, no
  -- token that the device had is accepted again in any later state, as long as no later pairing
  -- proposes that very token again and new credentials have new ids.
  pub revoke-DeniedForever :
      (o : RevokeOptions) (r : MobileResponse) (d : EmployeeDevice) (hash : String)
      (c : StoredDeviceCredential)
      → get (revoke_key o) s.credential_requests ≡ none
      → revoke_mobile_session s o ≡ (t, done r)
      → get o.context.device_id s.devices ≡ some d
      → get hash s.device_credentials_by_hash ≡ some c
      → c.device_id ≡ d.id
      → DeniedForever t hash
  unfolding revoke_mobile_session commit_revoke
  revoke-DeniedForever o r d hash c new e known stored of_device =
      let e' = rw new at e in
      let ((current, consent), admitted, written) =
        commit_if-eq-done s (admit_revoke s o) (commit_revoke s o) e' in
      let same : d ≡ current.device =
        some-injective d current.device
          (sym known ∙ admit_revoke_device s o (current, consent) admitted) in
      let owner : c.device_id ≡ current.device.id =
        of_device ∙ ap (λ (x : EmployeeDevice). x.id) same in
      closed-DeniedForever t hash
        (subst IsSound (ap (λ q. q.0) e)
          (Reach-IsSound {allowed = Anything} (next here (revokes o)) sound))
        (
          revoke_open current.device.id o.at c,
          ap (λ q. get hash q.0.device_credentials_by_hash) (sym written)
              ∙ get-map_values (revoke_open current.device.id o.at) hash
                  s.device_credentials_by_hash
              ∙ ap (Option.map (revoke_open current.device.id o.at)) stored,
          revoke_open_closes current.device.id o.at c owner,
        )

  -- The same after an administrator's revocation of the device: in a sound state and under a
  -- request ID not answered before, no token that the device had is accepted again in any later
  -- state, as long as no later pairing proposes that very token again and new credentials have new
  -- ids.
  pub admin_revoke-DeniedForever :
      (o : AdminRevokeOptions) (r : AdminRevokeDeviceResult) (d : EmployeeDevice) (hash : String)
      (c : StoredDeviceCredential)
      → get (admin_key o) s.admin_device_revocations ≡ none
      → revoke_device_by_administrator s o ≡ (t, done r)
      → get o.device_id s.devices ≡ some d
      → get hash s.device_credentials_by_hash ≡ some c
      → c.device_id ≡ d.id
      → DeniedForever t hash
  unfolding revoke_device_by_administrator commit_admin_revoke
  admin_revoke-DeniedForever o r d hash c new e known stored of_device =
      let e' = rw new at e in
      let ((device, events), admitted, written) =
        commit_if-eq-done s (admit_admin_revoke s o) (commit_admin_revoke s o) e' in
      let same : d ≡ device =
        some-injective d device
          (sym known ∙ admit_admin_revoke_device s o (device, events) admitted) in
      let owner : c.device_id ≡ device.id = of_device ∙ ap (λ (x : EmployeeDevice). x.id) same in
      closed-DeniedForever t hash
        (subst IsSound (ap (λ q. q.0) e)
          (Reach-IsSound {allowed = Anything} (next here (admin_revokes o)) sound))
        (
          revoke_live device.id o.at c,
          ap (λ q. get hash q.0.device_credentials_by_hash) (sym written)
              ∙ get-map_values (revoke_live device.id o.at) hash s.device_credentials_by_hash
              ∙ ap (Option.map (revoke_live device.id o.at)) stored,
          revoke_live_closes device.id o.at c owner,
        )

  -- A rotation confirmed in a sound state, under a request ID not answered before, hands over in
  -- one step: under the hash of the pending token its credential now stands active, with the same
  -- id, and the token that it replaces is denied in every later state, as long as no later pairing
  -- proposes that very token and new credentials have new ids.
  pub confirm_hands_over :
      (o : ConfirmOptions) (r : MobileResponse)
      → get (confirm_key o) s.credential_requests ≡ none
      → confirm_device_session_rotation s o ≡ (t, done r)
      → (pair : RotationPair) × (admit_confirm s o ≡ done pair)
        × ((c : StoredDeviceCredential) × (get pair.pending_hash t.device_credentials_by_hash
              ≡ some c)
            × (c.lifecycle_state ≡ DeviceCredentialState.active)
            × (c.id ≡ pair.pending.id))
        × DeniedForever t pair.old_hash
  unfolding confirm_device_session_rotation commit_confirm is_closed
  confirm_hands_over o r new e =
      let e' = rw new at e in
      let (pair, admitted, written) =
        commit_if-eq-done s (admit_confirm s o) (commit_confirm s o) e' in
      let first = set pair.pending_hash (promoted pair.pending) s.device_credentials_by_hash in
      let other = rotation_hashes_ne s o pair admitted in
      (
        pair,
        admitted,
        (
          promoted pair.pending,
          ap (λ q. get pair.pending_hash q.0.device_credentials_by_hash) (sym written)
              ∙ get-set_ne pair.old_hash pair.pending_hash (replaced o.at pair.old) first
                  (λ x. other (sym x))
              ∙ get-set_self pair.pending_hash (promoted pair.pending) s.device_credentials_by_hash,
          refl,
          refl,
        ),
        closed-DeniedForever t pair.old_hash
            (subst IsSound (ap (λ q. q.0) e)
              (Reach-IsSound {allowed = Anything} (next here (confirms o)) sound))
            (
              replaced o.at pair.old,
              ap (λ q. get pair.old_hash q.0.device_credentials_by_hash) (sym written)
                  ∙ get-set_self pair.old_hash (replaced o.at pair.old) first,
              refl,
            ),
      )
