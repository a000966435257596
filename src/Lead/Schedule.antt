-- ===== src/Lead/Schedule.antt =====
-- The next follow-up of a lead in apps/api/src/repository.ts: `followUpsForLead` and the
-- `nextFollowUpAt` that `completeLeadFollowUp` stores.
use mathlib.Core.List.{Memᴰ}
use cylizerapp.Base.{◌≤◌, String, ◌≡◌, true, Option, none, some}
use cylizerapp.Base.Dict.{values}
use cylizerapp.Contracts.Organizations.{IsoDateTime}
use cylizerapp.Contracts.Leads.{Lead, FollowUp}
use cylizerapp.Repository.{Repository}
use cylizerapp.Lead.Detail.{of_lead, is_open}

-- The follow-ups of a lead among all that are stored.
abbrev FollowUpOf : Repository → String → String → FollowUp → Type 0
FollowUpOf s organization_id lead_id f =
    Memᴰ f (values s.lead_follow_ups)
    × (of_lead organization_id lead_id f ≡ true)
    × (is_open f ≡ true)

-- What `next_due` answers: no pending follow-up, or the due time of one that no other precedes.
abbrev pub IsNextDue : Repository → String → String → Option IsoDateTime → Type 0
IsNextDue s organization_id lead_id none = (f : FollowUp) → ¬ FollowUpOf s organization_id lead_id f
IsNextDue s organization_id lead_id (some due) =
    ((f : FollowUp) × FollowUpOf s organization_id lead_id f × (f.due_at ≡ due))
    × ((f : FollowUp) → FollowUpOf s organization_id lead_id f → due ≤ f.due_at)
