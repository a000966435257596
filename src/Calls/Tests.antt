-- ===== src/Calls/Tests.antt =====
-- Tests of the ingestion of calls of apps/api/src/repository.ts on the scenario.
use cylizerapp.Lead.Create.{
  create_lead, admit_create, requested_status, assignable, new_lead, new_lead_team, write_lead,
}
use cylizerapp.Lead.Entries.{add_activity}
use cylizerapp.Lead.Detail.{
  build_lead_detail, build_lead_list_item, follow_ups_for_lead, unreturned_missed_call_count,
}
use cylizerapp.Lead.Access.{can_access_lead, team_of_lead, status_for_lead, default_lead_status}
use cylizerapp.Mobile.Activation.{
  activate_mobile_device, admit_activation, commit_activation, is_fresh_session,
}
use cylizerapp.Mobile.Consent.{in_consent_window, agreed_policy, completed_request}
use cylizerapp.Mobile.Credentials.{
  find_current_mobile_credential, names_credential, is_usable, stands_for, is_registered,
  is_consent_current,
}
use cylizerapp.Mobile.PairingCheck.{examine}
use cylizerapp.Mobile.Pairing.{
  redeem_pairing_code, commit_redemption, store_redemption, prepare_device,
}
use cylizerapp.Base.{
  ◌≡◌, refl, true, false, none, some, List, [], ◌∷◌, inl, find, any, keep, sort, insert_sorted,
  count,
}
use cylizerapp.Base.Text.{pad_decimal, is_sha256_hex}
use cylizerapp.Base.Dict.{remove, get, set, values}
use cylizerapp.Base.Outcome.{done, throws, conflict}
use cylizerapp.Contracts.Sync.{CallLogSyncItemResult, CallLogSyncResult, SyncItemOutcome}
use cylizerapp.Contracts.Leads.{Lead}
use cylizerapp.Repository.{Repository, next_id, call_id_named}
use cylizerapp.Calls.Link.{
  link_call_to_unique_lead, link_to, record_link, link_candidates, matches_call, leads_after,
  link_activity,
}
use cylizerapp.Calls.Single.{ingest_call, ingest_fresh, create_call, store_call, new_call, remember}
use cylizerapp.Calls.Batch.{
  ingest_mobile_call_batch, ingest_new_batch, ingest_items, ingest_item, create_item, repeat_item,
  reported_call, store_report, complete_batch, synchronized_device, admit_batch, item_key,
}
use cylizerapp.Calls.Index.{index_of, IsIndexed, put_call-IsIndexed}
use cylizerapp.Calls.Register.{submit_all, verdicts, Represents}
use cylizerapp.Calls.Refinement.{
  batch-refines, outcomes, reports, known_items-duplicates, AreDuplicates,
}
use cylizerapp.Calls.Again.{ingest_call_again}
use cylizerapp.Calls.Resend.{batch_again}
use cylizerapp.Calls.Totality.{IsAnswered, ingest_call-IsAnswered}
use cylizerapp.Calls.Links.{IsUniqueMatch, link-IsUniqueMatch}
use cylizerapp.Calls.Correction.{
  correct_call_lead_link, admit_correction, current_admits, find_replacement, commit_correction,
  unlink, relink, note_link, same_id,
}
use cylizerapp.Calls.Corrected.{IsMoved, correct-IsMoved}
use cylizerapp.Calls.Scenario.{
  correction, after_correction, staffed, report, batch, digest, simulated, after_call, after_batch,
}

ingest_call-IsAnswered_example : IsAnswered (ingest_call staffed simulated)
unfolding get set values find any next_id pad_decimal redeem_pairing_code commit_redemption
    store_redemption prepare_device examine find_current_mobile_credential names_credential
    is_usable stands_for is_registered is_sha256_hex in_consent_window agreed_policy
    completed_request activate_mobile_device admit_activation commit_activation is_fresh_session
    is_consent_current
ingest_call-IsAnswered_example =
    ingest_call-IsAnswered staffed simulated (λ key. inl (refl, refl)) (λ key prior e. cc)

-- Another fingerprint under the same key is a conflict with the first call.
ingest_call_again_example : ingest_call after_call (record simulated { fingerprint = "fp_2" }) ≡ (
  after_call,
  done (record { call = new_call staffed simulated; duplicate = false; conflict = true }),
)
unfolding get set values find any next_id pad_decimal redeem_pairing_code commit_redemption
    store_redemption prepare_device examine find_current_mobile_credential names_credential
    is_usable stands_for is_registered is_sha256_hex in_consent_window agreed_policy
    completed_request activate_mobile_device admit_activation commit_activation is_fresh_session
    is_consent_current keep sort insert_sorted count status_for_lead default_lead_status
    build_lead_detail build_lead_list_item follow_ups_for_lead unreturned_missed_call_count
    add_activity create_lead admit_create requested_status assignable new_lead new_lead_team
    write_lead link_call_to_unique_lead link_to record_link link_candidates matches_call leads_after
    link_activity ingest_call ingest_fresh create_call store_call new_call remember
ingest_call_again_example =
    ingest_call_again staffed after_call simulated (record simulated { fingerprint = "fp_2" })
      (record { call = new_call staffed simulated; duplicate = false; conflict = false })
      (λ key. inl (refl, refl)) refl refl refl

-- The first report of a call creates it, the second is a duplicate.
batch-refines_example :
    (t : Repository) × (result : CallLogSyncResult) × (ingest_mobile_call_batch digest staffed batch
      ≡ (t, done result))
    × (outcomes result.items ≡ SyncItemOutcome.created ∷ SyncItemOutcome.duplicate ∷ [])
    × Represents (submit_all (λ k. none) (reports digest batch (report ∷ report ∷ []))) (index_of t)
    × IsIndexed (index_of t)
unfolding get set values find any next_id pad_decimal redeem_pairing_code commit_redemption
    store_redemption prepare_device examine find_current_mobile_credential names_credential
    is_usable stands_for is_registered is_sha256_hex in_consent_window agreed_policy
    completed_request activate_mobile_device admit_activation commit_activation is_fresh_session
    is_consent_current admit_batch verdicts submit_all
batch-refines_example =
    batch-refines digest (λ k. none) staffed batch _ refl refl (λ k. refl) (λ k. inl (refl, refl))

after_batch-IsIndexed : IsIndexed (index_of after_batch)
unfolding get set values find any next_id pad_decimal redeem_pairing_code commit_redemption
    store_redemption prepare_device examine find_current_mobile_credential names_credential
    is_usable stands_for is_registered is_sha256_hex in_consent_window agreed_policy
    completed_request activate_mobile_device admit_activation commit_activation is_fresh_session
    is_consent_current keep sort insert_sorted count status_for_lead default_lead_status
    build_lead_detail build_lead_list_item follow_ups_for_lead unreturned_missed_call_count
    add_activity create_lead admit_create requested_status assignable new_lead new_lead_team
    write_lead link_call_to_unique_lead link_to record_link link_candidates matches_call leads_after
    link_activity ingest_mobile_call_batch ingest_new_batch ingest_items ingest_item create_item
    repeat_item reported_call store_report complete_batch synchronized_device admit_batch
after_batch-IsIndexed =
    put_call-IsIndexed (index_of staffed) (item_key batch report)
      (reported_call staffed batch report).id (reported_call staffed batch report) (digest report)
      (call_id_named staffed) refl (λ key. inl (refl, refl))

-- A known call changes nothing.
known_items-duplicates_example :
    (results : List CallLogSyncItemResult) × (ingest_items digest after_batch batch (report ∷ [])
      ≡ (after_batch, done results))
    × AreDuplicates results
unfolding get set values find any next_id pad_decimal redeem_pairing_code commit_redemption
    store_redemption prepare_device examine find_current_mobile_credential names_credential
    is_usable stands_for is_registered is_sha256_hex in_consent_window agreed_policy
    completed_request activate_mobile_device admit_activation commit_activation is_fresh_session
    is_consent_current keep sort insert_sorted count status_for_lead default_lead_status
    build_lead_detail build_lead_list_item follow_ups_for_lead unreturned_missed_call_count
    add_activity create_lead admit_create requested_status assignable new_lead new_lead_team
    write_lead link_call_to_unique_lead link_to record_link link_candidates matches_call leads_after
    link_activity ingest_mobile_call_batch ingest_new_batch ingest_items ingest_item create_item
    repeat_item reported_call store_report complete_batch synchronized_device admit_batch
known_items-duplicates_example =
    known_items-duplicates digest after_batch batch (report ∷ []) after_batch-IsIndexed (refl, tt)

batch_again_example :
    ingest_mobile_call_batch digest after_batch (record batch { payload_hash = "payload_2" })
    ≡ (after_batch, throws (conflict "The batch ID was already used with a different payload"))
unfolding get set values find any next_id pad_decimal redeem_pairing_code commit_redemption
    store_redemption prepare_device examine find_current_mobile_credential names_credential
    is_usable stands_for is_registered is_sha256_hex in_consent_window agreed_policy
    completed_request activate_mobile_device admit_activation commit_activation is_fresh_session
    is_consent_current keep sort insert_sorted count status_for_lead default_lead_status
    build_lead_detail build_lead_list_item follow_ups_for_lead unreturned_missed_call_count
    add_activity create_lead admit_create requested_status assignable new_lead new_lead_team
    write_lead link_call_to_unique_lead link_to record_link link_candidates matches_call leads_after
    link_activity ingest_mobile_call_batch ingest_new_batch ingest_items ingest_item create_item
    repeat_item reported_call store_report complete_batch synchronized_device admit_batch
batch_again_example =
    batch_again digest staffed after_batch batch (record batch { payload_hash = "payload_2" }) _ _
      refl refl refl

link-IsUniqueMatch_example :
    (lead : Lead) × (lead.id ≡ "lead_000008")
    × IsUniqueMatch staffed (new_call staffed simulated) lead
unfolding get set values find any next_id pad_decimal redeem_pairing_code commit_redemption
    store_redemption prepare_device examine find_current_mobile_credential names_credential
    is_usable stands_for is_registered is_sha256_hex in_consent_window agreed_policy
    completed_request activate_mobile_device admit_activation commit_activation is_fresh_session
    is_consent_current keep sort insert_sorted count status_for_lead default_lead_status
    build_lead_detail build_lead_list_item follow_ups_for_lead unreturned_missed_call_count
    add_activity create_lead admit_create requested_status assignable new_lead new_lead_team
    write_lead link_call_to_unique_lead link_to record_link link_candidates matches_call leads_after
    link_activity ingest_call ingest_fresh create_call store_call new_call remember
link-IsUniqueMatch_example =
    link-IsUniqueMatch staffed (new_call staffed simulated) 3_400 refl "lead_000008" refl

correct-IsMoved_example :
    (same_id
        (get (new_call staffed simulated).id after_call.lead_id_by_call_id)
        (some "lead_000008")
      ≡ true)
    × IsMoved after_call.lead_id_by_call_id after_correction.lead_id_by_call_id
        (new_call staffed simulated).id
        none
unfolding get set values find any next_id pad_decimal redeem_pairing_code commit_redemption
    store_redemption prepare_device examine find_current_mobile_credential names_credential
    is_usable stands_for is_registered is_sha256_hex in_consent_window agreed_policy
    completed_request activate_mobile_device admit_activation commit_activation is_fresh_session
    is_consent_current keep sort insert_sorted count status_for_lead default_lead_status
    build_lead_detail build_lead_list_item follow_ups_for_lead unreturned_missed_call_count
    add_activity create_lead admit_create requested_status assignable new_lead new_lead_team
    write_lead link_call_to_unique_lead link_to record_link link_candidates matches_call leads_after
    link_activity ingest_call ingest_fresh create_call store_call new_call remember can_access_lead
    team_of_lead correct_call_lead_link admit_correction current_admits find_replacement
    commit_correction unlink relink note_link remove
correct-IsMoved_example = correct-IsMoved after_call after_correction correction _ refl refl
