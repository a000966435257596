-- ===== src/Mobile/Replay/Requests.antt =====
-- What a repeated request gets, for each of the mobile operations and the administrator's.
use cylizerapp.Base.{◌≡◌, ◌≢◌, sym, ap, ◌∙◌, false, some, arith, eq_refl, eq_iff}
use cylizerapp.Base.Dict.{get, get-set_self}
use cylizerapp.Base.Outcome.{done, throws, conflict, commit_if, commit_if-eq-done}
use cylizerapp.Domain.{DeviceCredentialType, MobileResponse, as_replayed}
use cylizerapp.Repository.{Repository}
use cylizerapp.Mobile.Credentials.{find_current_mobile_credential, current-named}
use cylizerapp.Mobile.Consent.{completed_request, is_same_request, replay_response}
use cylizerapp.Mobile.Activation.{
  ActivateOptions, activate_mobile_device, admit_activation, commit_activation, activation_key,
  is_same_activation, ReconsentOptions, reconsent_mobile_device, admit_reconsent, commit_reconsent,
  reconsent_key,
}
use cylizerapp.Mobile.Rotation.{
  PrepareOptions, prepare_device_session_rotation, admit_prepare, commit_prepare, prepare_key,
  is_same_prepare,
}
use cylizerapp.Mobile.Revocation.{
  RevokeOptions, revoke_mobile_session, admit_revoke, commit_revoke, revoke_key,
}
use cylizerapp.Mobile.Replay.{Records, keyed-again, keyed-stored}

module _ (s t : Repository) (r : MobileResponse) where
  activation-Records :
      (o : ActivateOptions)
      → commit_if s (admit_activation s o) (commit_activation s o) ≡ (t, done r)
      → Records
          (λ u. get (activation_key o) u.credential_requests)
          (λ prior. is_same_activation prior o)
          ""
          (λ u. (u, done r))
          s
          t
          r
  unfolding commit_activation is_same_activation is_same_request completed_request admit_activation
  activation-Records o e =
      let ((current, active), admitted, written) =
        commit_if-eq-done s (admit_activation s o) (commit_activation s o) e in
      let found : find_current_mobile_credential s o.context DeviceCredentialType.bootstrap o.at
          ≡ done current =
        ground arith in
      let named = current-named s o.context DeviceCredentialType.bootstrap o.at current found in
      (
        _,
        ap (λ q. get (activation_key o) q.0.credential_requests) (sym written)
            ∙ get-set_self (activation_key o) _ s.credential_requests,
        ground (arith, eq_refl o.request_fingerprint, eq_refl o.session_credential.token_hash),
        ap (λ q. q.1) written,
      )

  -- An activation sent again gives the same answer, marked as a replay, and changes nothing: no
  -- second session is made, whatever the time of the repetition.
  pub activate_again :
      (o : ActivateOptions)
      → activate_mobile_device s o ≡ (t, done r)
      → activate_mobile_device t o ≡ (t, done (as_replayed r))
  unfolding activate_mobile_device
  activate_again o =
      keyed-again (λ u. get (activation_key o) u.credential_requests)
        (λ prior. is_same_activation prior o)
        "The request ID was already used with a different activation payload"
        (λ u. commit_if u (admit_activation u o) (commit_activation u o)) s t r
        (activation-Records o)

  -- An activation under a request ID that was answered before, with another payload, is refused
  -- as a conflict and changes nothing.
  pub activation_conflict :
      (o o' : ActivateOptions)
      → activate_mobile_device s o ≡ (t, done r)
      → activation_key o' ≡ activation_key o
      → o'.request_fingerprint ≢ o.request_fingerprint
      → activate_mobile_device t o' ≡ (
        t,
        throws (conflict "The request ID was already used with a different activation payload"),
      )
  unfolding activate_mobile_device is_same_activation is_same_request replay_response
  activation_conflict o o' e same_key other =
      let (prior, found, accepted) =
        keyed-stored (λ u. get (activation_key o) u.credential_requests)
          (λ prior. is_same_activation prior o)
          "The request ID was already used with a different activation payload"
          (λ u. commit_if u (admit_activation u o) (commit_activation u o)) s t r
          (activation-Records o) e in
      let found' : get (activation_key o') t.credential_requests ≡ some prior =
        ap (λ k. get k t.credential_requests) same_key ∙ found in
      let refused : is_same_activation prior o' ≡ false = ground (
        arith,
        eq_iff prior.request_fingerprint o'.request_fingerprint,
        eq_iff prior.request_fingerprint o.request_fingerprint,
      ) in
      rw (found', refused)

  reconsent-Records :
      (o : ReconsentOptions)
      → commit_if s (admit_reconsent s o) (commit_reconsent s o) ≡ (t, done r)
      → Records
          (λ u. get (reconsent_key o) u.credential_requests)
          (λ prior. is_same_request prior o.context o.request_fingerprint)
          ""
          (λ u. (u, done r))
          s
          t
          r
  unfolding commit_reconsent is_same_request completed_request
  reconsent-Records o e =
      let ((current, active), admitted, written) =
        commit_if-eq-done s (admit_reconsent s o) (commit_reconsent s o) e in
      (
        _,
        ap (λ q. get (reconsent_key o) q.0.credential_requests) (sym written)
            ∙ get-set_self (reconsent_key o) _ s.credential_requests,
        ground (arith, eq_refl o.request_fingerprint, eq_refl o.context.credential_id),
        ap (λ q. q.1) written,
      )

  -- A consent sent again gives the same answer, marked as a replay, and changes nothing.
  pub reconsent_again :
      (o : ReconsentOptions)
      → reconsent_mobile_device s o ≡ (t, done r)
      → reconsent_mobile_device t o ≡ (t, done (as_replayed r))
  unfolding reconsent_mobile_device
  reconsent_again o =
      keyed-again (λ u. get (reconsent_key o) u.credential_requests)
        (λ prior. is_same_request prior o.context o.request_fingerprint)
        "The request ID was already used with a different consent payload"
        (λ u. commit_if u (admit_reconsent u o) (commit_reconsent u o)) s t r (reconsent-Records o)

  prepare-Records :
      (o : PrepareOptions)
      → commit_if s (admit_prepare s o) (commit_prepare s o) ≡ (t, done r)
      → Records
          (λ u. get (prepare_key o) u.credential_requests)
          (λ prior. is_same_prepare prior o)
          ""
          (λ u. (u, done r))
          s
          t
          r
  unfolding commit_prepare is_same_prepare is_same_request completed_request
  prepare-Records o e =
      let (p, admitted, written) = commit_if-eq-done s (admit_prepare s o) (commit_prepare s o) e in
      (
        _,
        ap (λ q. get (prepare_key o) q.0.credential_requests) (sym written)
            ∙ get-set_self (prepare_key o) _ s.credential_requests,
        ground (
          arith,
          eq_refl o.request_fingerprint,
          eq_refl o.context.credential_id,
          eq_refl o.session_credential.token_hash,
        ),
        ap (λ q. q.1) written,
      )

  -- A first rotation step sent again gives the same answer, marked as a replay, and changes
  -- nothing: one pending token for one request.
  pub prepare_again :
      (o : PrepareOptions)
      → prepare_device_session_rotation s o ≡ (t, done r)
      → prepare_device_session_rotation t o ≡ (t, done (as_replayed r))
  unfolding prepare_device_session_rotation
  prepare_again o =
      keyed-again (λ u. get (prepare_key o) u.credential_requests)
        (λ prior. is_same_prepare prior o)
        "The request ID was already used with a different rotation payload"
        (λ u. commit_if u (admit_prepare u o) (commit_prepare u o)) s t r (prepare-Records o)

  revoke-Records :
      (o : RevokeOptions)
      → commit_if s (admit_revoke s o) (commit_revoke s o) ≡ (t, done r)
      → Records
          (λ u. get (revoke_key o) u.credential_requests)
          (λ prior. is_same_request prior o.context o.request_fingerprint)
          ""
          (λ u. (u, done r))
          s
          t
          r
  unfolding commit_revoke is_same_request completed_request
  revoke-Records o e =
      let ((current, consent), admitted, written) =
        commit_if-eq-done s (admit_revoke s o) (commit_revoke s o) e in
      (
        _,
        ap (λ q. get (revoke_key o) q.0.credential_requests) (sym written)
            ∙ get-set_self (revoke_key o) _ s.credential_requests,
        ground (arith, eq_refl o.request_fingerprint, eq_refl o.context.credential_id),
        ap (λ q. q.1) written,
      )

  -- A revocation sent again gives the same answer, marked as a replay, and changes nothing.
  pub revoke_again :
      (o : RevokeOptions)
      → revoke_mobile_session s o ≡ (t, done r)
      → revoke_mobile_session t o ≡ (t, done (as_replayed r))
  unfolding revoke_mobile_session
  revoke_again o =
      keyed-again (λ u. get (revoke_key o) u.credential_requests)
        (λ prior. is_same_request prior o.context o.request_fingerprint)
        "The request ID was already used with a different revocation payload"
        (λ u. commit_if u (admit_revoke u o) (commit_revoke u o)) s t r (revoke-Records o)
