-- ===== src/Boot/Approval/Preparing.antt =====
-- What holds when `prepareApproval` of boot-session-core.ts succeeds.
use mathlib.Core.Path.{subst}
use mathlib.Core.Option.{some-injective}
use keevault.Base.{
  ◌≡◌, refl, sym, ap, ℕ, suc, not, ◌+◌, ◌≤◌, ◌<◌, String, Bool, true, false, Option, none, some,
  List, [], ◌∷◌, ◌++◌, ◌&&◌, arith, if◌then◌else◌, any, find, str_eq, str_eq_refl, Bool-cases, leb,
  ltb, inl, inr, min,
}
use keevault.Protocol.State.{pending}
use keevault.Boot.{BootRow, PreparedBootApproval, ApprovalContextRow, World, Deps, pause, draw}
use keevault.Boot.Table.{
  read_boot, select_boot, read_context, insert_context, delete_expired_contexts,
}
use keevault.Boot.Result.{BootActionFailure, Outcome, ok, failure}
use keevault.Boot.Approval.{
  ApproveBootInput, ApprovalState, Prepared, approval_context_ttl_ms, context_deadline,
}
use keevault.Boot.Approval.Prepare.{
  still_pending, request_of, store_context, prepare_state, prepare_approval,
}
use keevault.Boot.Approval.State.{approval_state}
use keevault.Boot.Approval.Snapshot.{
  bind-inv, guard-inv, ok-injective, Awaits, waits, Established, approval_state-ok,
}

-- A context is found by its id once it is stored under an id that was free.
find-append :
    (id boot_id : String) (rows : List ApprovalContextRow) (row : ApprovalContextRow)
    → any (λ (c : ApprovalContextRow). str_eq c.context_id id) rows ≡ false
    → str_eq row.context_id id ≡ true
    → str_eq row.boot_id boot_id ≡ true
    → find
        (λ (c : ApprovalContextRow). str_eq c.context_id id && str_eq c.boot_id boot_id)
        (rows ++ row ∷ [])
      ≡ some row
find-append id boot_id [] row h e f = rw (e, f) refl
find-append id boot_id (c ∷ rows) row h e f = elim (Bool-cases (str_eq c.context_id id)) [
  | inl p ↦ cc (rw p at h)
  | inr p ↦ rw p (find-append id boot_id rows row (rw p at h) e f)
]

context_deadline-bounds :
    (now : ℕ) (pending : Option ℕ)
    → (context_deadline now pending ≤ now + approval_context_ttl_ms)
      × ((at : ℕ) → pending ≡ some at → context_deadline now pending ≤ at)
context_deadline-bounds now none = (omega arith, λ at e. cc)
context_deadline-bounds now (some t) = (
  omega arith,
  λ at e.
      subst (λ x. min (now + approval_context_ttl_ms) t ≤ x) (some-injective _ _ e) (omega arith),
)

insert_context-stored :
    (row : ApprovalContextRow) (w w' : World)
    → insert_context row w ≡ (some tt, w')
    → read_context row.context_id row.boot_id w' ≡ (some (some row), w')
unfolding insert_context read_context
insert_context-stored row w w' h = stored _ refl h
  where
    added : Bool → Option (Unit {0}) × World
    added taken =
        if taken then (none, w) else (some tt, record w { contexts = w.contexts ++ row ∷ [] })

    stored :
        (taken : Bool)
        → any (λ (c : ApprovalContextRow). str_eq c.context_id row.context_id) w.contexts ≡ taken
        → added taken ≡ (some tt, w')
        → read_context row.context_id row.boot_id w' ≡ (some (some row), w')
    stored true e k = cc
    stored false e k =
        subst (λ v. read_context row.context_id row.boot_id v ≡ (some (some row), v))
          (ap (λ r. r.1) k)
          (rw
            (find-append row.context_id row.boot_id w.contexts row e (str_eq_refl row.context_id)
              (str_eq_refl row.boot_id))
            refl)

-- The row that `prepareApproval` stores for a request.
abbrev pub context_row : Deps → ApproveBootInput → PreparedBootApproval → ApprovalContextRow
context_row d input request = record {
  context_id = request.context_id;
  boot_id = request.boot_id;
  request = request;
  context_digest = d.digest_request request;
  approver_user_id = input.approver_user_id;
  approver_credential_id = input.approver_credential_id;
  expires_at = request.expires_at;
}

-- What a preparation that succeeds does after its snapshot `s`, which was returned in the world `v`.
pub record Ready (d : Deps) (input : ApproveBootInput) (s : ApprovalState) (p : Prepared)
    (v w' : World) : Type 0 where
  pub made :
      p.request
      ≡ request_of d input s
          (d.random_challenge v.draws)
          v.clock
          (context_deadline v.clock s.boot.pending_expires_at)
  pub alive : v.clock < p.request.expires_at
  pub short : p.request.expires_at ≤ v.clock + approval_context_ttl_ms
  pub in_time : (at : ℕ) → s.boot.pending_expires_at ≡ some at → p.request.expires_at ≤ at
  pub provisioned : 1 ≤ s.environment.current_env_key_version
  -- The row after the digest of the request has been awaited.
  pub at_row : World
  pub row_awaited : Awaits d (record v { draws = suc v.draws }) at_row
  pub current : BootRow
  pub found : select_boot s.boot.id at_row.boots ≡ some current
  pub waiting : current.status ≡ pending
  pub stored :
      read_context p.request.context_id s.boot.id w'
      ≡ (some (some (context_row d input p.request)), w')

later : (a b : ℕ) → leb a b ≡ false → b < a
later a b h = ground arith

provisioned : (version : ℕ) → ltb version 1 ≡ false → 1 ≤ version
provisioned version h = ground arith

still_pending-found :
    (d : Deps) (row : Option BootRow)
    → not (still_pending d row) ≡ false
    → (current : BootRow) × (row ≡ some current) × (current.status ≡ pending)
still_pending-found d none h = cc
still_pending-found d (some boot) h = (boot, refl, waits boot.status h)

module _ (d : Deps) (input : ApproveBootInput) where
  store_context-ok :
      (request : PreparedBootApproval) (now : ℕ) (current : Option BootRow) (w w' : World)
      {p : Prepared}
      → store_context d input request now current w ≡ (some (ok p), w')
      → (not (still_pending d current) ≡ false)
        × (p.request ≡ request)
        × (read_context request.context_id request.boot_id w'
            ≡ (some (some (context_row d input request)), w'))
  unfolding store_context
  store_context-ok request now current w w' h =
      let (waiting, k) = guard-inv _ _ _ _ w w' h in
      let (a, u, e, l) = bind-inv (delete_expired_contexts now) _ w w' k in
      let (b, v, e', q) = bind-inv (insert_context _) _ u w' l in
      (
        waiting,
        ap (λ (p : Prepared). p.request) (sym (ok-injective q)),
        subst
            (λ x.
              read_context request.context_id request.boot_id x
              ≡ (some (some (context_row d input request)), x))
            (ap (λ r. r.1) q) (insert_context-stored (context_row d input request) u v e'),
      )

  prepare_state-ok :
      (s : ApprovalState) (w w' : World) {p : Prepared}
      → prepare_state d input (ok s) w ≡ (some (ok p), w')
      → Ready d input s p w w'
  unfolding prepare_state read_boot draw
  prepare_state-ok s w w' {p} h =
      let (keyed, k) = guard-inv _ _ _ _ w w' h in
      let (alive, l) = guard-inv _ _ _ _ w w' k in
      let (a, v, e, r) = bind-inv (pause d) _ (record w { draws = suc w.draws }) w' l in
      let deadline = context_deadline w.clock s.boot.pending_expires_at in
      let (row, same, stored) =
        store_context-ok (request_of d input s (d.random_challenge w.draws) w.clock deadline)
          w.clock (select_boot s.boot.id v.boots) v w' r in
      let (current, found, waiting) = still_pending-found d (select_boot s.boot.id v.boots) row in
      let (short, in_time) = context_deadline-bounds w.clock s.boot.pending_expires_at in
      record {
        made = same;
        alive = rw same (later _ _ alive);
        short = rw same short;
        in_time = rw same in_time;
        provisioned = provisioned _ keyed;
        at_row = v;
        row_awaited = e;
        current = current;
        found = found;
        waiting = waiting;
        stored = rw same stored;
      }

module _ (d : Deps) (input : ApproveBootInput) where
  prepare_state-fails :
      {X : Type 0} (reason : BootActionFailure) (message : String) (w w' : World) {p : Prepared}
      → prepare_state d input (failure reason message) w ≡ (some (ok p), w')
      → X
  unfolding prepare_state
  prepare_state-fails reason message w w' h = cc

  of_state :
      (state : Outcome ApprovalState) (w u w' : World) {p : Prepared}
      → approval_state d input w ≡ (some state, u)
      → prepare_state d input state u ≡ (some (ok p), w')
      → (s : ApprovalState) × (v : World) × Established d input w s v × Ready d input s p v w'
  of_state (failure reason message) w u w' e k = prepare_state-fails reason message u w' k
  of_state (ok s) w u w' e k =
      (s, u, approval_state-ok d input w u e, prepare_state-ok d input s u w' k)

-- A preparation that succeeds rests on a snapshot that was established for its input. Where the
-- snapshot was returned, the environment has a key; the request is made of the snapshot, under a fresh
-- context id, with a deadline that is still ahead, at most a minute away and not after the boot's own.
-- After one more await the boot was still PENDING, and the request is stored with its digest and its
-- approver under its id.
pub prepare_approval-ok :
    (d : Deps) (input : ApproveBootInput) (w w' : World) {p : Prepared}
    → prepare_approval d input w ≡ (some (ok p), w')
    → (s : ApprovalState) × (v : World) × Established d input w s v × Ready d input s p v w'
unfolding prepare_approval
prepare_approval-ok d input w w' h =
    let (state, u, e, k) = bind-inv (approval_state d input) _ w w' h in
    of_state d input state w u w' e k
