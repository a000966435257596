-- ===== src/Mobile/Lifetime/Index.antt =====
-- The three ways in which the operations change the credential maps.
use cylizerapp.Base.{
  String, ◌≡◌, refl, ◌∙◌, ◌≢◌, inl, inr, true, none, some, arith, str_eq, eq_iff, Bool-cases,
  Option-cases,
}
use cylizerapp.Base.Dict.{Dict, get, set, map_values, get-set, get-map_values, get-set_ne}
use cylizerapp.Base.Dict.Keys.{set-IsMap, map_values-IsMap}
use cylizerapp.Domain.{StoredDeviceCredential}
use cylizerapp.Mobile.Lifetime.{IsIndexed, HoldsClosed, is_closed}

-- A change of a credential that keeps its id and its hash.
abbrev pub KeepsNames : (StoredDeviceCredential → StoredDeviceCredential) → Type 0
KeepsNames f = (c : StoredDeviceCredential) → ((f c).id ≡ c.id) × ((f c).token_hash ≡ c.token_hash)

abbrev pub KeepsClosed : (StoredDeviceCredential → StoredDeviceCredential) → Type 0
KeepsClosed f = (c : StoredDeviceCredential) → is_closed c ≡ true → is_closed (f c) ≡ true

module _ (creds : Dict StoredDeviceCredential) (hashes : Dict String) where
  pub IsIndexed-map_values :
      (f : StoredDeviceCredential → StoredDeviceCredential)
      → KeepsNames f
      → IsIndexed creds hashes
      → IsIndexed (map_values f creds) hashes
  IsIndexed-map_values f names h = record {
    is_map = map_values-IsMap f creds h.is_map;
    own_hash = λ hash c e. elim (Option-cases (get hash creds)) [
      | inl gone ↦ ground (arith, get-map_values f hash creds)
      | inr (b, found) ↦
          ground (arith, get-map_values f hash creds, names b, h.own_hash hash b found)
    ];
    by_id = λ hash c e. elim (Option-cases (get hash creds)) [
      | inl gone ↦ ground (arith, get-map_values f hash creds)
      | inr (b, found) ↦ ground (arith, get-map_values f hash creds, names b, h.by_id hash b found)
    ];
  }

  -- A credential is changed in its place.
  pub IsIndexed-set :
      (hash : String) (b c : StoredDeviceCredential)
      → get hash creds ≡ some b
      → c.id ≡ b.id
      → c.token_hash ≡ b.token_hash
      → IsIndexed creds hashes
      → IsIndexed (set hash c creds) hashes
  IsIndexed-set hash b c found same_id same_hash h = record {
    is_map = set-IsMap hash c creds h.is_map;
    own_hash = λ k d e.
        ground
          (arith, get-set hash k c creds, eq_iff hash k, h.own_hash hash b found, h.own_hash k d);
    by_id = λ k d e.
        ground (arith, get-set hash k c creds, eq_iff hash k, h.by_id hash b found, h.by_id k d);
  }

  -- A credential with a new id is added under its hash.
  pub IsIndexed-add :
      (c : StoredDeviceCredential)
      → get c.id hashes ≡ none
      → IsIndexed creds hashes
      → IsIndexed (set c.token_hash c creds) (set c.id c.token_hash hashes)
  IsIndexed-add c new h = record {
    is_map = set-IsMap c.token_hash c creds h.is_map;
    own_hash = λ k d e.
        ground (arith, get-set c.token_hash k c creds, eq_iff c.token_hash k, h.own_hash k d);
    by_id = λ k d e. ground (
      arith,
      get-set c.token_hash k c creds,
      eq_iff c.token_hash k,
      h.by_id k d,
      get-set c.id d.id c.token_hash hashes,
      eq_iff c.id d.id,
    );
  }

module _ (hash : String) (creds : Dict StoredDeviceCredential) (h : HoldsClosed hash creds) where
  pub HoldsClosed-map_values :
      (f : StoredDeviceCredential → StoredDeviceCredential)
      → KeepsClosed f
      → HoldsClosed hash (map_values f creds)
  HoldsClosed-map_values f keeps =
      let (c, found, closed) = h in
      (f c, ground (arith, get-map_values f hash creds), keeps c closed)

  -- Another hash is written.
  pub HoldsClosed-set_ne :
      (k : String) (c : StoredDeviceCredential) → k ≢ hash → HoldsClosed hash (set k c creds)
  HoldsClosed-set_ne k c other =
      let (d, found, closed) = h in (d, get-set_ne k hash c creds other ∙ found, closed)

  -- The hash itself may be written, by a credential that is closed if the old one was.
  pub HoldsClosed-set :
      (k : String) (c : StoredDeviceCredential)
      → ((d : StoredDeviceCredential)
          → get k creds ≡ some d
          → is_closed d ≡ true
          → is_closed c ≡ true)
      → HoldsClosed hash (set k c creds)
  HoldsClosed-set k c keeps = elim (Bool-cases (str_eq k hash)) [
    | inl same ↦
        let (d, found, closed) = h in
        let e : k ≡ hash = (eq_iff k hash).0 same in
        (c, get-set k hash c creds ∙ rw same refl, keeps d (rw e found) closed)
    | inr other ↦ HoldsClosed-set_ne k c (λ e. ground (arith, eq_iff k hash))
  ]
