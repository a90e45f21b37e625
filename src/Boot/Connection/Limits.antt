-- ===== src/Boot/Connection/Limits.antt =====
-- The limits of `#handleHello` of boot-session-core.ts.
use mathlib.Core.Path.{subst}
use keevault.Base.{
  ◌≡◌, refl, sym, ◌⊎◌, inl, inr, ℕ, suc, ◌≤◌, ◌<◌, String, Bool, true, false, Option, none, some,
  List, [], ◌∷◌, ◌++◌, ◌&&◌, not, any, str_eq, leb, Bool-cases, if◌then◌else◌, arith,
}
use keevault.Protocol.State.{pending}
use keevault.Protocol.Messages.{BootHello, CloseCode, ServerMessage}
use keevault.Provenance.{VerifierInput, ProvenanceMode}
use keevault.Store.{EnvironmentRow}
use keevault.Boot.{BootRow, BootIdentity, ProvenanceVerifier, World, Deps, M, continue, ◌>>=◌}
use keevault.Boot.Table.{
  has_id, is_pending, insert_boot, pending_from_token, count_pending, recent_from_source,
  count_recent_from_source, read_boot, recompute_alarm,
}
use keevault.Boot.Report.{attached_to, attached_boot_id, attach, send, send_error}
use keevault.Boot.Lifecycle.{expire_due}
use keevault.Boot.Quiet.{
  Quiet, Still, still, draw-Still, asks-Still, pure-Still, >>=-Still, pause-Still, audit-Still,
}
use keevault.Boot.Connection.{
  pending_limit, max_boots_per_source, read_environment, load_provenance_context, run_verifiers,
}
use keevault.Boot.Connection.Hello.{
  new_boot, audit_requested, open_boot, hello_environment, handle_hello,
}

-- At most one row has been added, a PENDING one of the token.
abbrev Grown : String → List BootRow → List BootRow → Type 0
Grown token_id boots later =
    (later ≡ boots)
    ⊎ ((r : BootRow) × (r.token_id ≡ token_id) × (r.status ≡ pending) × (later ≡ boots ++ r ∷ []))

pending_from_token-append :
    (token_id : String) (boots : List BootRow) (r : BootRow)
    → pending_from_token token_id (boots ++ r ∷ []) ≤ suc (pending_from_token token_id boots)
unfolding pending_from_token
pending_from_token-append token_id [] r =
    elim (Bool-cases (str_eq r.token_id token_id && is_pending r.status)) [
      | inl h ↦ rw h (omega arith)
      | inr h ↦ rw h (omega arith)
    ]
pending_from_token-append token_id (b ∷ boots) r =
    elim (Bool-cases (str_eq b.token_id token_id && is_pending b.status)) [
      | inl h ↦ rw h (omega (arith, pending_from_token-append token_id boots r))
      | inr h ↦ rw h (omega (arith, pending_from_token-append token_id boots r))
    ]

below : (limit n : ℕ) → leb limit n ≡ false → limit ≤ n → ⊥
below limit n f l = ground arith

quiet_source : (s : Bool) (limit n : ℕ) → (not s && leb limit n) ≡ false → s ≡ false → limit ≤ n → ⊥
quiet_source s limit n e p l = ground arith

module _ (d : Deps) (q : Quiet d) where
  send-Still : (socket : ℕ) (message : ServerMessage) → Still d (send socket message)
  unfolding send
  send-Still socket message = record { from = λ w. refl }

  send_error-Still :
      (socket : ℕ) (code : CloseCode) (message : String) → Still d (send_error socket code message)
  unfolding send_error
  send_error-Still socket code message = record { from = λ w. refl }

  attach-Still :
      (socket : ℕ) (boot_id : String) (generation : ℕ) → Still d (attach socket boot_id generation)
  unfolding attach
  attach-Still socket boot_id generation = record { from = λ w. refl }

  recompute_alarm-Still : Still d recompute_alarm
  unfolding recompute_alarm
  recompute_alarm-Still = record { from = λ w. refl }

  read_boot-Still : (boot_id : String) → Still d (read_boot boot_id)
  unfolding read_boot
  read_boot-Still boot_id = search still

  load_provenance_context-Still :
      (environment_id : String) (mode : ProvenanceMode)
      → Still d (load_provenance_context d environment_id mode)
  unfolding load_provenance_context
  load_provenance_context-Still environment_id mode = search (still, q) depth 12

  run_verifiers-Still :
      (verifiers : List ProvenanceVerifier) (input : VerifierInput)
      → Still d (run_verifiers d verifiers input)
  unfolding run_verifiers
  run_verifiers-Still [] input = pure-Still d []
  run_verifiers-Still (v ∷ verifiers) input =
      >>=-Still d (pause-Still d q)
        (λ a. >>=-Still d (run_verifiers-Still verifiers input) (λ results. pure-Still d _))

  audit_requested-Still :
      (boot_id : String) (items : ℕ) (row : Option BootRow)
      → Still d (audit_requested d boot_id items row)
  unfolding audit_requested
  audit_requested-Still boot_id items none = pure-Still d tt
  audit_requested-Still boot_id items (some boot) = search (audit-Still, q)

  -- A method that adds at most one row of the token.
  record Grows {A : Type 0} (token_id : String) (m : M A) : Type 0 where
    pub from : (w : World) → Grown token_id w.boots (m w).1.boots

  Still-Grows :
      {A B : Type 0} {token_id : String} {m : M A} {f : A → M B}
      → Still d m
      → ((a : A) → Grows token_id (f a))
      → Grows token_id (m >>= f)
  Still-Grows {A} {token_id} {m} {f} first second = record { from = λ w. go w (m w) (first.from w) }
    where
      go :
          (w : World) (r : Option A × World)
          → r.1.boots ≡ w.boots
          → Grown token_id w.boots (continue r f).1.boots
      go w (none, u) e = inl e
      go w (some a, u) e = subst (λ b. Grown token_id b (f a u).1.boots) e ((second a).from u)

  Grows-Still :
      {A B : Type 0} {token_id : String} {m : M A} {f : A → M B}
      → Grows token_id m
      → ((a : A) → Still d (f a))
      → Grows token_id (m >>= f)
  Grows-Still {A} {token_id} {m} {f} first second = record { from = λ w. go w (m w) (first.from w) }
    where
      go :
          (w : World) (r : Option A × World)
          → Grown token_id w.boots r.1.boots
          → Grown token_id w.boots (continue r f).1.boots
      go w (none, u) e = e
      go w (some a, u) e = subst (λ b. Grown token_id w.boots b) (sym ((second a).from u)) e

  insert_boot-Grows : (row : BootRow) → row.status ≡ pending → Grows row.token_id (insert_boot row)
  unfolding insert_boot
  insert_boot-Grows row p = record {
    from = λ w. elim (Bool-cases (any (has_id row.id) w.boots)) [
      | inl h ↦ rw h (inl refl)
      | inr h ↦ rw h (inr (row, refl, p, refl))
    ];
  }

  open_boot-Grows :
      (socket : ℕ) (identity : BootIdentity) (h : BootHello) (environment : EnvironmentRow)
      → Grows identity.token_id (open_boot d socket identity h environment)
  unfolding open_boot
  open_boot-Grows socket identity h environment =
      Still-Grows (load_provenance_context-Still _ _) λ context.
        Still-Grows (run_verifiers-Still _ _) λ results. Still-Grows (draw-Still d _) λ boot_id.
          Still-Grows (asks-Still d _) λ created_at. Still-Grows (pause-Still d q) λ a.
            Still-Grows (pause-Still d q) λ b.
              Grows-Still
                (insert_boot-Grows (new_boot d identity h environment results boot_id created_at)
                  refl)
                (λ c.
                  search
                    (
                      still, read_boot-Still, audit_requested-Still, attach-Still, send-Still,
                      recompute_alarm-Still, q,
                    )
                    depth 30)

  hello_environment-Grows :
      (socket : ℕ) (identity : BootIdentity) (h : BootHello) (environment : Option EnvironmentRow)
      → Grows identity.token_id (hello_environment d socket identity h environment)
  unfolding hello_environment
  hello_environment-Grows socket identity h none = record {
    from = λ w. inl ((send_error-Still _ _ _).from w);
  }
  hello_environment-Grows socket identity h (some environment) =
      open_boot-Grows socket identity h environment

  Grown-limit :
      (token_id : String) (boots later : List BootRow) (limit : ℕ)
      → pending_from_token token_id boots < limit
      → Grown token_id boots later
      → pending_from_token token_id later ≤ limit
  Grown-limit token_id boots later limit room (inl e) = rw e (omega arith)
  Grown-limit token_id boots later limit room (inr (r, t, p, e)) =
      rw e (omega (arith, pending_from_token-append token_id boots r))

  -- What a hello may do to the table that it finds after the due boots have expired.
  abbrev pub WithinLimits : BootIdentity → ℕ → List BootRow → List BootRow → Type 0
  WithinLimits identity now boots later =
      (pending_limit identity ≤ pending_from_token identity.token_id boots → later ≡ boots)
      × (str_eq identity.source_ip "" ≡ false
          → max_boots_per_source ≤ recent_from_source identity.source_ip now boots
          → later ≡ boots)
      × (pending_from_token identity.token_id boots < pending_limit identity
          → pending_from_token identity.token_id later ≤ pending_limit identity)

  unchanged :
      (identity : BootIdentity) (now : ℕ) (boots later : List BootRow)
      → later ≡ boots
      → WithinLimits identity now boots later
  unchanged identity now boots later e = (λ l. e, λ s l. e, λ room. rw e (omega arith))

  read_environment-Still : (environment_id : String) → Still d (read_environment d environment_id)
  unfolding read_environment
  read_environment-Still environment_id = search (still, q)

  room-WithinLimits :
      (socket : ℕ) (identity : BootIdentity) (h : BootHello) (u : World) (full : Bool)
      → (not (str_eq identity.source_ip "")
          && leb max_boots_per_source (recent_from_source identity.source_ip u.clock u.boots))
        ≡ false
      → leb (pending_limit identity) (pending_from_token identity.token_id u.boots) ≡ full
      → WithinLimits identity u.clock u.boots
          ((if full
              then send_error socket CloseCode.conflict
                  "This bootstrap token already has the maximum number of pending boots."
              else do
                environment ← read_environment d d.environment_id
                hello_environment d socket identity h environment)
            u).1.boots
  room-WithinLimits socket identity h u true e f =
      unchanged identity u.clock u.boots _ ((send_error-Still socket _ _).from u)
  room-WithinLimits socket identity h u false e f = (
    λ l. elim (below _ _ f l) [ ],
    λ s l. elim (quiet_source _ _ _ e s l) [ ],
    λ room. Grown-limit identity.token_id u.boots _ (pending_limit identity) room (opened.from u),
  )
    where
      opened : Grows identity.token_id (do
        environment ← read_environment d d.environment_id
        hello_environment d socket identity h environment)
      opened =
          Still-Grows (read_environment-Still d.environment_id)
            λ environment. hello_environment-Grows socket identity h environment

  admit-WithinLimits :
      (socket : ℕ) (identity : BootIdentity) (h : BootHello) (u : World) (flooded : Bool)
      → (not (str_eq identity.source_ip "")
          && leb max_boots_per_source (recent_from_source identity.source_ip u.clock u.boots))
        ≡ flooded
      → WithinLimits identity u.clock u.boots
          ((if flooded
              then send_error socket CloseCode.rate_limited
                  "This source address has created too many boot requests. Try again shortly."
              else do
                waiting ← count_pending identity.token_id
                if leb (pending_limit identity) waiting
                    then send_error socket CloseCode.conflict
                        "This bootstrap token already has the maximum number of pending boots."
                    else do
                      environment ← read_environment d d.environment_id
                      hello_environment d socket identity h environment)
            u).1.boots
  unfolding count_pending
  admit-WithinLimits socket identity h u true e =
      unchanged identity u.clock u.boots _ ((send_error-Still socket _ _).from u)
  admit-WithinLimits socket identity h u false e = room-WithinLimits socket identity h u _ e refl

  -- A hello on a socket without a boot expires the boots that are due, and if that ends in the table
  -- of `u`: with as many boots of the token waiting as the limit allows, or too many recent boots
  -- from its address, it leaves that table as it is; with fewer waiting, no more than the limit wait
  -- afterwards. Nobody else touches the table meanwhile.
  pub handle_hello-WithinLimits :
      (socket : ℕ) (identity : BootIdentity) (h : BootHello) (w u : World)
      → attached_to socket w.sockets ≡ none
      → expire_due d w ≡ (some tt, u)
      → WithinLimits identity u.clock u.boots (handle_hello d socket identity h w).1.boots
  unfolding handle_hello attached_boot_id count_recent_from_source
  handle_hello-WithinLimits socket identity h w u free expired =
      rw free (rw expired (admit-WithinLimits socket identity h u _ refl))
