-- ===== src/Lead/Entries.antt =====
-- The activities and notes that the lead operations of apps/api/src/repository.ts write, each under
-- a fresh id, and `createLeadNote`.
use cylizerapp.Base.{String, Bool, false, Option, none, some, or_default}
use cylizerapp.Base.Dict.{Dict, set}
use cylizerapp.Base.Outcome.{Outcome, run_if}
use cylizerapp.Contracts.Organizations.{IsoDateTime}
use cylizerapp.Contracts.Leads.{Lead, LeadActivityKind, JsonValue}
use cylizerapp.Domain.{LeadAccessScope}
use cylizerapp.Repository.{Repository, next_id, tick_id}
use cylizerapp.Lead.Access.{find_accessible_lead}
use cylizerapp.Lead.Detail.{Locale, LeadDetail, build_lead_detail}

-- Who acts, in which organization and when.
pub record LeadActor : Type 0 where
  pub organization_id : String
  pub actor_user_id : String
  pub at : IsoDateTime

unfoldable pub add_activity :
    Repository
    → LeadActor
    → String
    → LeadActivityKind
    → String
    → Option (Dict JsonValue)
    → Repository
unfolding next_id
add_activity s actor lead_id kind summary metadata =
    let id = next_id "lead_activity" s in
    record (tick_id s) {
      lead_activities =
          set id
            (record {
              id = id;
              organization_id = actor.organization_id;
              lead_id = lead_id;
              kind = kind;
              actor_user_id = some actor.actor_user_id;
              actor_employee_id = none;
              call_log_id = none;
              occurred_at = actor.at;
              summary = summary;
              metadata = metadata;
            })
            s.lead_activities;
    }

unfoldable pub add_note : Repository → LeadActor → String → String → Bool → Repository
unfolding next_id
add_note s actor lead_id body is_pinned =
    let id = next_id "lead_note" s in
    record (tick_id s) {
      lead_notes =
          set id
            (record {
              id = id;
              organization_id = actor.organization_id;
              lead_id = lead_id;
              author_user_id = actor.actor_user_id;
              body = body;
              is_pinned = is_pinned;
              created_at = actor.at;
              updated_at = actor.at;
              created_by = some actor.actor_user_id;
              updated_by = some actor.actor_user_id;
            })
            s.lead_notes;
    }

pub record CreateLeadNoteOptions : Type 0 where
  pub organization_id : String
  pub scope : LeadAccessScope
  pub lead_id : String
  pub body : String
  pub is_pinned : Option Bool
  pub actor_user_id : String
  pub at : IsoDateTime

abbrev note_actor : CreateLeadNoteOptions → LeadActor
note_actor o = record {
  organization_id = o.organization_id;
  actor_user_id = o.actor_user_id;
  at = o.at;
}

unfoldable pub write_note : Repository → CreateLeadNoteOptions → Lead → Repository
write_note s o lead =
    add_activity (add_note s (note_actor o) lead.id o.body (or_default o.is_pinned false))
      (note_actor o) lead.id LeadActivityKind.note_added "Note added" none

unfoldable pub create_lead_note :
    Repository → Locale → CreateLeadNoteOptions → Repository × Outcome LeadDetail
unfolding write_note
create_lead_note s locale o =
    run_if s (find_accessible_lead s o.organization_id o.scope o.lead_id)
      (λ lead. let t = write_note s o lead in (t, build_lead_detail t locale lead o.at))
