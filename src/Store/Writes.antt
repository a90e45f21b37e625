-- ===== src/Store/Writes.antt =====
-- The INSERT and UPDATE statements of packages/vault-store/src/repositories that the boot session
-- runs. `none` is a rejected statement: a key that is taken, or a row that must exist and does not.
pub mod Stamps
mod Tests
use keevault.Base.{ℕ, String, Option, none, some, [], ◌∷◌, ◌++◌, map, any, str_eq, if◌then◌else◌}
use keevault.Protocol.State.{BootStatus}
use keevault.Store.{
  BootstrapTokenRow, BootRequestRow, BootApprovalRow, AuditEventRow, VaultDatabase,
}

pub insert_boot_request : BootRequestRow → VaultDatabase → Option VaultDatabase
insert_boot_request row db =
    if any (λ (r : BootRequestRow). str_eq r.id row.id) db.requests
    then none
    else some (record db { requests = db.requests ++ row ∷ [] })

pub record UpdateBootRequestStatusInput : Type 0 where
  pub boot_id : String
  pub status : BootStatus
  pub now : ℕ
  pub approved_at : Option ℕ
  pub declined_at : Option ℕ
  pub delivered_at : Option ℕ
  pub consumed_at : Option ℕ
  pub expired_at : Option ℕ
  pub canceled_at : Option ℕ

abbrev coalesce : Option ℕ → Option ℕ → Option ℕ
coalesce none old = old
coalesce (some new) old = some new

abbrev update_row : UpdateBootRequestStatusInput → BootRequestRow → BootRequestRow
update_row u row =
    if str_eq row.id u.boot_id
    then record row {
      status = u.status;
      updated_at = u.now;
      approved_at = coalesce u.approved_at row.approved_at;
      declined_at = coalesce u.declined_at row.declined_at;
      delivered_at = coalesce u.delivered_at row.delivered_at;
      consumed_at = coalesce u.consumed_at row.consumed_at;
      expired_at = coalesce u.expired_at row.expired_at;
      canceled_at = coalesce u.canceled_at row.canceled_at;
    }
    else row

unfoldable pub update_boot_request_status :
    UpdateBootRequestStatusInput → VaultDatabase → Option VaultDatabase
update_boot_request_status u db =
    if any (λ (r : BootRequestRow). str_eq r.id u.boot_id) db.requests
    then some (record db { requests = map (update_row u) db.requests })
    else none

unfoldable pub insert_boot_approval : BootApprovalRow → VaultDatabase → Option VaultDatabase
insert_boot_approval row db =
    if any (λ (r : BootApprovalRow). str_eq r.boot_id row.boot_id) db.approvals
    then none
    else some (record db { approvals = db.approvals ++ row ∷ [] })

unfoldable pub append_audit_event : AuditEventRow → VaultDatabase → Option VaultDatabase
append_audit_event row db =
    if any (λ (r : AuditEventRow). str_eq r.id row.id) db.audit
    then none
    else some (record db { audit = db.audit ++ row ∷ [] })

-- `touchBootstrapTokenLastSeen`.
unfoldable pub touch_bootstrap_token_last_seen : VaultDatabase → String → ℕ → VaultDatabase
touch_bootstrap_token_last_seen db token_row_id now = record db {
  tokens =
      map
        (λ (row : BootstrapTokenRow).
          if str_eq row.id token_row_id then record row { last_seen_at = some now } else row)
        db.tokens;
}
