-- ===== src/Provenance/Context/Usable.antt =====
-- Which signers loadProvenanceContext of apps/control-plane/src/server/provenance/context.ts hands to
-- the verifiers.
use mathlib.Core.List.{Memᴰ}
use keevault.Base.{
  ◌≡◌, refl, ◌⊎◌, inl, inr, String, Bool, true, false, Option, none, some, ◌&&◌, All, All-sort_by,
  All-filter, All-map, All-Memᴰ, ap, ◌∙◌, ℕ, str_eq, str_eq_iff,
}
use keevault.Provenance.{TrustedSigner}
use keevault.Store.{EnvironmentRow, TrustedSignerRow, VaultDatabase}
use keevault.Store.Queries.{
  get_environment, usable_by, in_project, signer_le, list_trusted_signers_for_environment,
}
use keevault.Provenance.Context.{is_active, signer_of, usable_signers}

-- The row belongs to the environment itself, or to the project of the environment that exists.
abbrev pub Serves : VaultDatabase → String → TrustedSignerRow → Type 0
Serves db environment_id row =
    (row.environment_id ≡ some environment_id)
    ⊎ ((e : EnvironmentRow) × (row.environment_id ≡ none)
        × (get_environment db environment_id ≡ some e)
        × (row.project_id ≡ some e.project_id))

-- The signer is that of a stored row which is enabled, not revoked, and serves the environment.
abbrev pub Usable : VaultDatabase → String → TrustedSigner → Type 0
Usable db environment_id signer =
    (row : TrustedSignerRow) × (signer_of row ≡ signer)
    × Memᴰ row db.signers
    × (row.enabled ≡ true)
    × (row.revoked_at ≡ none)
    × Serves db environment_id row

usable_by-Serves :
    (db : VaultDatabase) (environment_id : String) (row : TrustedSignerRow)
    → usable_by db environment_id row ≡ true
    → Serves db environment_id row
usable_by-Serves db environment_id row h =
    go row.environment_id (get_environment db environment_id) row.project_id refl refl refl h
  where
    go :
        (own : Option String) (e : Option EnvironmentRow) (project : Option String)
        → row.environment_id ≡ own
        → get_environment db environment_id ≡ e
        → row.project_id ≡ project
        → (elim own [ some id ↦ str_eq id environment_id | none ↦ in_project e project ]) ≡ true
        → Serves db environment_id row
    go (some id) e project own env in_it h =
        inl (own ∙ ap some ((str_eq_iff id environment_id).0 h))
    go none none project own env in_it h = cc
    go none (some e) none own env in_it h = cc
    go none (some e) (some project_id) own env in_it h =
        inr (e, own, env, in_it ∙ ap some ((str_eq_iff project_id e.project_id).0 h))

is_active-kept :
    (row : TrustedSignerRow) → is_active row ≡ true → (row.enabled ≡ true) × (row.revoked_at ≡ none)
is_active-kept row h = go row.enabled row.revoked_at h
  where
    go :
        (on : Bool) (at : Option ℕ)
        → (on && elim at [ none ↦ true | some t ↦ false ]) ≡ true
        → (on ≡ true) × (at ≡ none)
    go true none h = (refl, refl)
    go true (some t) h = cc
    go false at h = cc

-- Every signer that is handed to the verifiers is that of a stored row which is enabled, not revoked,
-- and belongs to the environment itself or to the project of the environment.
pub usable_signers-Usable :
    (db : VaultDatabase) (environment_id : String)
    → All (Usable db environment_id) (usable_signers db environment_id)
unfolding usable_signers list_trusted_signers_for_environment
usable_signers-Usable db environment_id =
    All-map _ (Usable db environment_id) signer_of
      (λ row h.
        let ((m, serves), active) = h in
        let (on, kept) = is_active-kept row active in
        (row, refl, m, on, kept, usable_by-Serves db environment_id row serves))
      _
      (All-filter _ is_active _ (
        All-sort_by _ signer_le _ (
          All-filter (λ row. Memᴰ row db.signers) (usable_by db environment_id) db.signers
            (All-Memᴰ (λ row. Memᴰ row db.signers) db.signers (λ row m. m)))))
