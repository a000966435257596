-- ===== src/Contracts/Organizations.antt =====
-- packages/contracts/src/common.ts and organizations.ts. A timestamp is its instant in
-- milliseconds.
use cylizerapp.Base.{ℕ, String, Option, List, Bool, true, false}

-- The instant of a canonical UTC timestamp, `Date.parse` of it.
abbrev pub IsoDateTime : Type 0
IsoDateTime = ℕ

pub data OrganizationStatus : Type 0 where
  trial active past_due suspended closed : OrganizationStatus

pub data UserStatus : Type 0 where
  invited active suspended deactivated : UserStatus

pub data OrganizationPlan : Type 0 where
  trial starter growth business enterprise : OrganizationPlan

pub record OrganizationSettings : Type 0 where
  pub time_zone : String
  pub default_country_code : String
  pub working_week_days : List ℕ
  pub working_day_starts_at : String
  pub working_day_ends_at : String
  pub recording_retention_days : ℕ
  pub call_log_retention_days : ℕ
  pub require_recording_consent : Bool
  pub mask_phone_numbers_for_restricted_users : Bool

pub record Address : Type 0 where
  pub line_1 : String
  pub line_2 : Option String
  pub city : String
  pub region : Option String
  pub postal_code : String
  pub country_code : String

pub record Organization : Type 0 where
  pub id : String
  pub name : String
  pub slug : String
  pub status : OrganizationStatus
  pub plan : OrganizationPlan
  pub industry : Option String
  pub logo_url : Option String
  pub support_email : Option String
  pub primary_phone : Option String
  pub billing_address : Option Address
  pub settings : OrganizationSettings
  pub trial_ends_at : Option IsoDateTime
  pub created_at : IsoDateTime
  pub updated_at : IsoDateTime
  pub created_by : Option String
  pub updated_by : Option String

pub record User : Type 0 where
  pub id : String
  pub organization_id : String
  pub email : String
  pub display_name : String
  pub phone_number : Option String
  pub avatar_url : Option String
  pub status : UserStatus
  pub role_ids : List String
  pub last_signed_in_at : Option IsoDateTime
  pub created_at : IsoDateTime
  pub updated_at : IsoDateTime
  pub created_by : Option String
  pub updated_by : Option String

-- `["trial", "active"].includes(status)`.
abbrev pub is_operating : OrganizationStatus → Bool
is_operating OrganizationStatus.trial = true
is_operating OrganizationStatus.active = true
is_operating _ = false

abbrev pub is_active_user : UserStatus → Bool
is_active_user UserStatus.active = true
is_active_user _ = false
