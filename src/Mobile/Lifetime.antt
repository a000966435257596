-- ===== src/Mobile/Lifetime.antt =====
-- The life of a device credential in apps/api/src/repository.ts: the two maps that hold the
-- credentials agree, and a credential that was closed stays closed.
pub mod Index
pub mod Facts
pub mod Accepted
pub mod Keeps
pub mod Calls
pub mod Ingestion
pub mod Steps
use cylizerapp.Base.{String, ◌≡◌, Bool, true, not, ◌||◌, Option, none, some, is_some}
use cylizerapp.Base.Dict.{Dict, get}
use cylizerapp.Base.Dict.Keys.{IsMap}
use cylizerapp.Domain.{StoredDeviceCredential, DeviceCredentialState, same_state}
use cylizerapp.Repository.{Repository}

-- Each credential stands under its own hash, and its id leads back to that hash.
pub record IsIndexed (creds : Dict StoredDeviceCredential) (hashes : Dict String) : Type 0 where
  pub is_map : IsMap creds
  pub own_hash :
      (hash : String) (c : StoredDeviceCredential) → get hash creds ≡ some c → c.token_hash ≡ hash
  pub by_id :
      (hash : String) (c : StoredDeviceCredential)
      → get hash creds ≡ some c
      → get c.id hashes ≡ some hash

abbrev pub IsSound : Repository → Type 0
IsSound s = IsIndexed s.device_credentials_by_hash s.device_credential_hash_by_id

-- Revoked or consumed, by its dates or by its state.
unfoldable pub is_closed : StoredDeviceCredential → Bool
is_closed c =
    is_some c.revoked_at
    || is_some c.consumed_at
    || not (
        same_state c.lifecycle_state DeviceCredentialState.active
        || same_state c.lifecycle_state DeviceCredentialState.pending)

-- The hash is that of a closed credential.
abbrev pub HoldsClosed : String → Dict StoredDeviceCredential → Type 0
HoldsClosed hash creds =
    (c : StoredDeviceCredential) × (get hash creds ≡ some c) × (is_closed c ≡ true)
