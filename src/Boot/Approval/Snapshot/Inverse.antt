-- ===== src/Boot/Approval/Snapshot/Inverse.antt =====
-- What a run of the monad of boot-session-core.ts has passed through when it ends with a value.
use mathlib.Core.Path.{subst}
use mathlib.Core.Option.{some-injective}
use keevault.Base.{
  ◌<◌, ◌≡◌, refl, sym, ◌∙◌, ℕ, String, Bool, true, false, Option, none, some, not, arith,
}
use keevault.Protocol.State.{BootStatus, pending}
use keevault.Provenance.{ProvenanceMode}
use keevault.Provenance.Context.{ProvenanceContext, usable_signers, policy_entries}
use keevault.Boot.{World, Deps, M, pure, pause, asks, continue, ◌>>=◌, ◌>>◌}
use keevault.Boot.Table.{is_pending}
use keevault.Boot.Lifecycle.{due}
use keevault.Boot.Connection.{is_some, load_provenance_context}
use keevault.Boot.Result.{BootActionFailure, Outcome, ok, return_if}

-- A run that ends with a value has passed through its first part.
pub bind-inv :
    {A B : Type 0} (m : M A) (f : A → M B) (w w' : World) {b : B}
    → (m >>= f) w ≡ (some b, w')
    → (a : A) × (u : World) × (m w ≡ (some a, u)) × (f a u ≡ (some b, w'))
bind-inv {A} {B} m f w w' {b} h = go (m w) refl h
  where
    go :
        (r : Option A × World)
        → m w ≡ r
        → continue r f ≡ (some b, w')
        → (a : A) × (u : World) × (m w ≡ (some a, u)) × (f a u ≡ (some b, w'))
    go (none, u) e h = cc
    go (some a, u) e h = (a, u, e, h)

-- A run that passes a guard and ends in `ok` has found the guard's test false.
pub guard-inv :
    {A : Type 0} (refuse : Bool) (reason : BootActionFailure) (message : String) (m : M (Outcome A))
    (w w' : World) {a : A}
    → return_if refuse reason message m w ≡ (some (ok a), w')
    → (refuse ≡ false) × (m w ≡ (some (ok a), w'))
unfolding return_if
guard-inv true reason message m w w' h = cc
guard-inv false reason message m w w' h = (refl, h)

pub ok-injective : {A : Type 0} {a b : A} {w w' : World} → pure (ok a) w ≡ (some (ok b), w') → a ≡ b
ok-injective h = cc

pub not-false : (b : Bool) → not b ≡ false → b ≡ true
not-false b h = ground arith

-- The await from which a method goes on in the world `u`.
abbrev pub Awaits : Deps → World → World → Type 0
Awaits d w u = pause d w ≡ (some tt, u)

pub waits : (s : BootStatus) → not (is_pending s) ≡ false → s ≡ pending
waits s h = ground arith

-- A deadline, if there is one, is still to come.
abbrev pub Ahead : ℕ → Option ℕ → Type 0
Ahead now deadline = (t : ℕ) → deadline ≡ some t → now < t

pub due-Ahead : (deadline : Option ℕ) (now : ℕ) → due deadline now ≡ false → Ahead now deadline
due-Ahead none now h t e = cc
due-Ahead (some at) now h t e = subst (λ x. now < x) (some-injective _ _ e) (ground arith)

pub none_of_some {ℓ} : {A : Type ℓ} (o : Option A) → is_some o ≡ false → o ≡ none
none_of_some none h = refl
none_of_some (some a) h = cc

bind_assoc :
    {A B C : Type 0} (m : M A) (f : A → M B) (k : B → M C) (w : World)
    → ((m >>= f) >>= k) w ≡ (m >>= (λ a. f a >>= k)) w
bind_assoc {A} {B} {C} m f k w = go (m w)
  where
    go : (r : Option A × World) → continue (continue r f) k ≡ continue r (λ a u. continue (f a u) k)
    go (none, u) = refl
    go (some a, u) = refl

module _ (d : Deps) where
  -- A read of D1 that waits gives what the database has in the world that the run has reached.
  pub read-inv :
      {A B : Type 0} (f : World → A) (k : A → M B) (w w' : World) {b : B}
      → ((pause d >> asks f) >>= k) w ≡ (some b, w')
      → (u : World) × Awaits d w u × (k (f u) u ≡ (some b, w'))
  read-inv f k w w' h =
      let (a, u, e, l) =
        bind-inv (pause d) (λ a. asks f >>= k) w w'
          (sym (bind_assoc (pause d) (λ a. asks f) k w) ∙ h) in
      (u, e, l)

  pub load-inv :
      {B : Type 0} (environment_id : String) (mode : ProvenanceMode) (k : ProvenanceContext → M B)
      (w w' : World) {b : B}
      → (load_provenance_context d environment_id mode >>= k) w ≡ (some b, w')
      → (u : World) × (v : World) × Awaits d w u
        × Awaits d u v
        × (k
              (record {
                mode = mode;
                signers = usable_signers u.db environment_id;
                policies = policy_entries v.db environment_id;
              })
              v
            ≡ (some b, w'))
  unfolding load_provenance_context
  load-inv environment_id mode k w w' h =
      let (a, u, e, l) = bind-inv (pause d) _ w w' (sym (bind_assoc (pause d) _ k w) ∙ h) in
      let (b, v, f, q) = bind-inv (pause d) _ u w' (sym (bind_assoc (pause d) _ k u) ∙ l) in
      (u, v, e, f, q)
