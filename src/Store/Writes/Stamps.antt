-- ===== src/Store/Writes/Stamps.antt =====
-- What updateBootRequestStatus of packages/vault-store/src/repositories/boot-requests.ts does to the
-- index rows.
use mathlib.Core.Path.{subst}
use mathlib.Core.Option.{some-injective}
use keevault.Base.{
  ◌≡◌, refl, sym, ◌∙◌, ap, ◌≢◌, inl, inr, ℕ, String, Bool, true, false, Option, none, some, List,
  [], ◌∷◌, map, find, str_eq, str_eq_iff, Bool-cases, if◌then◌else◌,
}
use keevault.Store.{BootRequestRow, VaultDatabase}
use keevault.Store.Writes.{
  UpdateBootRequestStatusInput, coalesce, update_row, update_boot_request_status,
}

abbrev pub request_of : String → List BootRequestRow → Option BootRequestRow
request_of id rows = find (λ r. str_eq r.id id) rows

-- A stamp that is set stays set.
abbrev pub Stays : Option ℕ → Option ℕ → Type 0
Stays old new = (t : ℕ) → old ≡ some t → (u : ℕ) × (new ≡ some u)

-- From `a` to `b`, the same request later: the update's status and time, no stamp lost, and the rest
-- as it was.
pub record Updates (u : UpdateBootRequestStatusInput) (a b : BootRequestRow) : Type 0 where
  pub status : b.status ≡ u.status
  pub time : b.updated_at ≡ u.now
  pub same_id : b.id ≡ a.id
  pub same_signing_key : b.signing_public_key ≡ a.signing_public_key
  pub same_encryption_key : b.encryption_public_key ≡ a.encryption_public_key
  pub approved : Stays a.approved_at b.approved_at
  pub declined : Stays a.declined_at b.declined_at
  pub delivered : Stays a.delivered_at b.delivered_at
  pub consumed : Stays a.consumed_at b.consumed_at
  pub expired : Stays a.expired_at b.expired_at
  pub canceled : Stays a.canceled_at b.canceled_at

coalesce-Stays : (new old : Option ℕ) → Stays old (coalesce new old)
coalesce-Stays none old t e = (t, e)
coalesce-Stays (some u) old t e = (u, refl)

update_row-Updates :
    (u : UpdateBootRequestStatusInput) (a : BootRequestRow)
    → str_eq a.id u.boot_id ≡ true
    → Updates u a (update_row u a)
update_row-Updates u a h = rw h (record {
  status = refl;
  time = refl;
  same_id = refl;
  same_signing_key = refl;
  same_encryption_key = refl;
  approved = coalesce-Stays u.approved_at a.approved_at;
  declined = coalesce-Stays u.declined_at a.declined_at;
  delivered = coalesce-Stays u.delivered_at a.delivered_at;
  consumed = coalesce-Stays u.consumed_at a.consumed_at;
  expired = coalesce-Stays u.expired_at a.expired_at;
  canceled = coalesce-Stays u.canceled_at a.canceled_at;
})

update_row-id : (u : UpdateBootRequestStatusInput) (a : BootRequestRow) → (update_row u a).id ≡ a.id
update_row-id u a = elim (Bool-cases (str_eq a.id u.boot_id)) [
  | inl h ↦ rw h refl
  | inr h ↦ rw h refl
]

request_of-id :
    (id : String) (rows : List BootRequestRow) {a : BootRequestRow}
    → request_of id rows ≡ some a
    → str_eq a.id id ≡ true
request_of-id id [] h = cc
request_of-id id (r ∷ rows) h = elim (Bool-cases (str_eq r.id id)) [
  | inl e ↦ subst (λ x. str_eq x.id id ≡ true) (some-injective _ _ (rw e at h)) e
  | inr e ↦ request_of-id id rows (rw e at h)
]

-- Every row is found under its id after the update, as the update leaves it.
request_of-map :
    (u : UpdateBootRequestStatusInput) (id : String) (rows : List BootRequestRow)
    {a : BootRequestRow}
    → request_of id rows ≡ some a
    → request_of id (map (update_row u) rows) ≡ some (update_row u a)
request_of-map u id [] h = cc
request_of-map u id (r ∷ rows) {a} h = elim (Bool-cases (str_eq r.id id)) [
  | inl e ↦
      let kept : str_eq (update_row u r).id id ≡ true =
        ap (λ x. str_eq x id) (update_row-id u r) ∙ e in
      rw kept (ap (λ x. some (update_row u x)) (some-injective _ _ (rw e at h)))
  | inr e ↦
      let kept : str_eq (update_row u r).id id ≡ false =
        ap (λ x. str_eq x id) (update_row-id u r) ∙ e in
      rw kept (request_of-map u id rows (rw e at h))
]

updated :
    (u : UpdateBootRequestStatusInput) (db db' : VaultDatabase)
    → update_boot_request_status u db ≡ some db'
    → db'.requests ≡ map (update_row u) db.requests
unfolding update_boot_request_status
updated u db db' h = go _ h
  where
    go :
        (there : Bool)
        → (if there then some (record db { requests = map (update_row u) db.requests }) else none)
          ≡ some db'
        → db'.requests ≡ map (update_row u) db.requests
    go true e = ap (λ (x : VaultDatabase). x.requests) (sym (some-injective _ _ e))
    go false e = cc

-- After an update that is not rejected, the request that it names is there with the new status and
-- time, its keys as they were and every stamp that was set still set; any other request is found as
-- it was.
pub update_boot_request_status-Updates :
    (u : UpdateBootRequestStatusInput) (db db' : VaultDatabase)
    → update_boot_request_status u db ≡ some db'
    → ((a : BootRequestRow)
        → request_of u.boot_id db.requests ≡ some a
        → (b : BootRequestRow) × (request_of u.boot_id db'.requests ≡ some b) × Updates u a b)
      × ((id : String) (a : BootRequestRow)
          → id ≢ u.boot_id
          → request_of id db.requests ≡ some a
          → request_of id db'.requests ≡ some a)
update_boot_request_status-Updates u db db' h =
    let rows = updated u db db' h in
    (
      λ a found. (
        update_row u a,
        ap (request_of u.boot_id) rows ∙ request_of-map u u.boot_id db.requests found,
        update_row-Updates u a (request_of-id u.boot_id db.requests found),
      ),
      λ id a other found.
          ap (request_of id) rows
          ∙ request_of-map u id db.requests found
          ∙ ap some (untouched id a other (request_of-id id db.requests found)),
    )
  where
    untouched :
        (id : String) (a : BootRequestRow)
        → id ≢ u.boot_id
        → str_eq a.id id ≡ true
        → update_row u a ≡ a
    untouched id a other e = elim (Bool-cases (str_eq a.id u.boot_id)) [
      | inl same ↦
          elim (other (sym ((str_eq_iff a.id id).0 e) ∙ (str_eq_iff a.id u.boot_id).0 same)) [ ]
      | inr n ↦ rw n refl
    ]
