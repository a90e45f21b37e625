-- ===== src/Boot/Table.antt =====
-- The SQL statements of boot-session-core.ts on the tables `boots`, `challenges` and
-- `approval_contexts`, and the alarm.
pub mod Laws
pub mod Deadlines
use keevault.Base.{
  ℕ, ◌+◌, ◌*◌, String, Bool, true, false, Option, none, some, List, [], ◌∷◌, ◌++◌, ◌&&◌, map,
  filter, find, any, count, sort_by, not, str_eq, ltb, leb, if◌then◌else◌,
}
use keevault.Protocol.State.{
  BootStatus, pending, approved, delivered, consumed, declined, expired, canceled, BootEvent, moved,
  refused, TransitionResult, transition,
}
use keevault.Boot.{
  BootRow, ChallengeRow, ApprovalContextRow, World, M, pure, throw, asks, modify, ◌>>=◌, ◌>>◌,
}

-- `BOOT_RATE_WINDOW_SECONDS`.
abbrev pub boot_rate_window_seconds : ℕ
boot_rate_window_seconds = 60

abbrev pub is_pending : BootStatus → Bool
is_pending pending = true
is_pending _ = false

-- `status IN LIVE_STATUSES`.
abbrev pub is_live : BootStatus → Bool
is_live pending = true
is_live approved = true
is_live delivered = true
is_live _ = false

abbrev pub has_id : String → BootRow → Bool
has_id boot_id boot = str_eq boot.id boot_id

-- `SELECT … FROM boots WHERE id = ?`.
unfoldable pub select_boot : String → List BootRow → Option BootRow
select_boot boot_id boots = find (has_id boot_id) boots

-- `UPDATE boots SET … WHERE id = ?`.
unfoldable pub update_boots : String → (BootRow → BootRow) → List BootRow → List BootRow
update_boots boot_id f boots = map (λ b. if has_id boot_id b then f b else b) boots

unfoldable pub read_boot : String → M (Option BootRow)
read_boot boot_id = asks (λ w. select_boot boot_id w.boots)

unfoldable pub update_boot : String → (BootRow → BootRow) → M (Unit {0})
update_boot boot_id f = modify (λ w. record w { boots = update_boots boot_id f w.boots })

-- `INSERT INTO boots`: the primary key must be free.
unfoldable pub insert_boot : BootRow → M (Unit {0})
insert_boot row w =
    if any (has_id row.id) w.boots
    then (none, w)
    else (some tt, record w { boots = w.boots ++ row ∷ [] })

unfoldable pub live_boots : List BootRow → List BootRow
live_boots boots =
    sort_by (λ a b. leb a.created_at b.created_at) (filter (λ b. is_live b.status) boots)

unfoldable pub read_live : M (List BootRow)
unfolding live_boots
read_live = asks (λ w. live_boots w.boots)

unfoldable pub pending_from_token : String → List BootRow → ℕ
pending_from_token token_id boots =
    count (λ (b : BootRow). str_eq b.token_id token_id && is_pending b.status) boots

unfoldable pub count_pending : String → M ℕ
count_pending token_id = asks (λ w. pending_from_token token_id w.boots)

abbrev is_from : String → Option String → Bool
is_from source_ip none = false
is_from source_ip (some ip) = str_eq ip source_ip

-- `source_ip = ? AND created_at > now - window`; the bound may be negative, so the window is added
-- on the other side.
pub recent_from_source : String → ℕ → List BootRow → ℕ
recent_from_source source_ip now boots =
    count
      (λ (b : BootRow).
        is_from source_ip b.source_ip && ltb now (b.created_at + boot_rate_window_seconds * 1000))
      boots

unfoldable pub count_recent_from_source : String → M ℕ
count_recent_from_source source_ip = asks (λ w. recent_from_source source_ip w.clock w.boots)

abbrev pub apply_result : BootRow → TransitionResult → M (Option BootStatus)
apply_result boot (refused reason) = pure none
apply_result boot (moved to) = do
  update_boot boot.id (λ b. record b { status = to })
  pure (some to)

-- The event is applied to the status of the row that the caller holds.
unfoldable pub apply : BootRow → BootEvent → M (Option BootStatus)
unfolding update_boot
apply boot event = apply_result boot (transition boot.status event)

-- The deadline of a live boot, and the least of them.
abbrev pub deadline_of : BootRow → Option ℕ
deadline_of boot =
    if is_pending boot.status then boot.pending_expires_at else boot.payload_expires_at

abbrev earlier : Option ℕ → Option ℕ → Option ℕ
earlier none b = b
earlier (some a) none = some a
earlier (some a) (some b) = if leb a b then some a else some b

unfoldable pub min_deadline : List BootRow → Option ℕ
min_deadline [] = none
min_deadline (b ∷ boots) =
    let rest = min_deadline boots in if is_live b.status then earlier (deadline_of b) rest else rest

-- `#scheduleAlarm` of environment-session.ts: an armed alarm only moves forward in time by firing.
abbrev schedule_alarm : Option ℕ → Option ℕ → Option ℕ
schedule_alarm none current = none
schedule_alarm (some at) none = some at
schedule_alarm (some at) (some current) = if ltb at current then some at else some current

unfoldable pub recompute_alarm : M (Unit {0})
unfolding min_deadline
recompute_alarm = modify (λ w. record w { alarm = schedule_alarm (min_deadline w.boots) w.alarm })

-- `DELETE FROM challenges WHERE boot_id = ?`.
unfoldable pub delete_challenges : String → M (Unit {0})
delete_challenges boot_id = modify (λ w. record w {
  challenges = filter (λ (c : ChallengeRow). not (str_eq c.boot_id boot_id)) w.challenges;
})

unfoldable pub insert_challenge : ChallengeRow → M (Unit {0})
insert_challenge row = modify (λ w. record w { challenges = w.challenges ++ row ∷ [] })

unfoldable pub read_challenge : String → M (Option ChallengeRow)
read_challenge boot_id =
    asks (λ w. find (λ (c : ChallengeRow). str_eq c.boot_id boot_id) w.challenges)

-- `DELETE FROM approval_contexts WHERE expires_at <= ?`.
unfoldable pub delete_expired_contexts : ℕ → M (Unit {0})
delete_expired_contexts now = modify (λ w. record w {
  contexts = filter (λ (c : ApprovalContextRow). ltb now c.expires_at) w.contexts;
})

-- `DELETE FROM approval_contexts WHERE boot_id = ?`.
unfoldable pub delete_contexts_of : String → M (Unit {0})
delete_contexts_of boot_id = modify (λ w. record w {
  contexts = filter (λ (c : ApprovalContextRow). not (str_eq c.boot_id boot_id)) w.contexts;
})

unfoldable pub insert_context : ApprovalContextRow → M (Unit {0})
insert_context row w =
    if any (λ (c : ApprovalContextRow). str_eq c.context_id row.context_id) w.contexts
    then (none, w)
    else (some tt, record w { contexts = w.contexts ++ row ∷ [] })

unfoldable pub read_context : String → String → M (Option ApprovalContextRow)
read_context context_id boot_id = asks (λ w.
    find (λ (c : ApprovalContextRow). str_eq c.context_id context_id && str_eq c.boot_id boot_id)
      w.contexts)
