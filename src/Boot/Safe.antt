-- ===== src/Boot/Safe.antt =====
-- The rule for a run of the boot session of boot-session-core.ts: the consistency of the rows of
-- `boots`, and how a row may change from one moment to a later one.
use mathlib.Core.Path.{subst}
use mathlib.Core.Option.{some-injective}
use keevault.Base.{
  ◌≡◌, refl, sym, ◌∙◌, ap, ◌≢◌, ◌⊎◌, inl, inr, ℕ, String, Bool, true, false, Option, none, some,
  List, [], ◌∷◌, ◌++◌, arith, str_eq, str_eq_iff, Bool-cases, if◌then◌else◌,
}
use keevault.Protocol.State.{
  BootStatus, pending, approved, delivered, consumed, BootEvent, moved, transition,
}
use keevault.Protocol.State.Reach.{Reach, here, step, Reach-trans, Reach_one}
use keevault.Protocol.Messages.{WorkloadClaims, Evidence, ServerMessage}
use keevault.Store.{VaultDatabase}
use keevault.Boot.{
  BootRow, World, Deps, M, pure, asks, continue, ◌>>=◌, resume_as, pause, write_as, write, draw,
}
use keevault.Boot.Table.{select_boot, update_boots}
use keevault.Boot.Table.Laws.{
  KeepsId, update_boots-update, select_boot-update_self, select_boot-update_ne, select_boot-append,
  select_boot-append_cases,
}

-- The columns that are written once, by the INSERT.
pub record BootKeys : Type 0 where
  pub id : String
  pub environment_id : String
  pub project_id : String
  pub token_id : String
  pub source_ip : Option String
  pub signing_pk : String
  pub encryption_pk : String
  pub signing_fp : String
  pub encryption_fp : String
  pub claims : WorkloadClaims
  pub evidence : List Evidence
  pub created_at : ℕ
  pub pending_expires_at : Option ℕ

abbrev pub keys_of : BootRow → BootKeys
keys_of b = record {
  id = b.id;
  environment_id = b.environment_id;
  project_id = b.project_id;
  token_id = b.token_id;
  source_ip = b.source_ip;
  signing_pk = b.signing_pk;
  encryption_pk = b.encryption_pk;
  signing_fp = b.signing_fp;
  encryption_fp = b.encryption_fp;
  claims = b.claims;
  evidence = b.evidence;
  created_at = b.created_at;
  pending_expires_at = b.pending_expires_at;
}

-- What an approval granted: the digest of the payload, its deadline and the time of approval.
abbrev pub grant_of : BootRow → Option String × Option ℕ × Option ℕ
grant_of b = (b.payload_digest, b.payload_expires_at, b.approved_at)

-- From `b` to `c`, the same boot later: its status has moved along the transition table, what the
-- INSERT wrote is unchanged, and so is what an approval granted, once the boot is not PENDING.
pub record Advances (b c : BootRow) : Type 0 where
  pub path : Reach b.status c.status
  pub same_keys : keys_of c ≡ keys_of b
  pub same_grant : b.status ≢ pending → grant_of c ≡ grant_of b

-- A payload that is ready: the frame, its digest, and both times.
abbrev pub Carries : Deps → BootRow → Type 0
Carries d b =
    (m : ServerMessage) × (b.delivered_frame ≡ some m)
    × (b.payload_digest ≡ some (d.digest_frame m))
    × ((t : ℕ) × (b.payload_expires_at ≡ some t))
    × ((t : ℕ) × (b.approved_at ≡ some t))

-- A boot that was never approved has no payload; one that waits for its client has a payload with
-- its digest; one that has ended holds no payload.
abbrev pub RowSoundAt : Deps → BootStatus → BootRow → Type 0
RowSoundAt d pending b =
    ((t : ℕ) × (b.pending_expires_at ≡ some t))
    × (b.delivered_frame ≡ none)
    × (grant_of b ≡ (none, none, none))
RowSoundAt d approved b = Carries d b
RowSoundAt d delivered b = Carries d b
RowSoundAt d consumed b = (b.delivered_frame ≡ none) × ((t : ℕ) × (b.consumed_at ≡ some t))
RowSoundAt d _ b = (b.delivered_frame ≡ none) × ((s : String) × (b.terminal_reason ≡ some s))

abbrev pub RowSound : Deps → BootRow → Type 0
RowSound d b = RowSoundAt d b.status b

abbrev pub Sound : Deps → List BootRow → Type 0
Sound d boots = (i : String) (b : BootRow) → select_boot i boots ≡ some b → RowSound d b

abbrev pub Evolves : List BootRow → List BootRow → Type 0
Evolves boots later =
    (i : String) (b : BootRow)
    → select_boot i boots ≡ some b
    → (c : BootRow) × (select_boot i later ≡ some c) × Advances b c

-- One step of the system, or many: a sound table stays sound, and each of its rows advances.
abbrev pub SafeRows : Deps → List BootRow → List BootRow → Type 0
SafeRows d boots later = Sound d boots → Sound d later × Evolves boots later

pub record Safe (d : Deps) (w w' : World) : Type 0 where
  pub rows : SafeRows d w.boots w'.boots

-- The others keep to the same rule: what they do during an await is a step of such a system.
abbrev pub Guarded : Deps → Type 0
Guarded d = (w w' : World) → d.others w ≡ some w' → Safe d w w'

Advances-refl : (b : BootRow) → Advances b b
Advances-refl b = record { path = here; same_keys = refl; same_grant = λ n. refl }

Reach-ne_pending : {s t : BootStatus} → s ≢ pending → Reach s t → t ≢ pending
unfolding transition
Reach-ne_pending n here = n
Reach-ne_pending n (step {s} {t} e h r) = Reach-ne_pending (λ p. not_back s e (rw p at h)) r
  where
    not_back : (s : BootStatus) (e : BootEvent) → transition s e ≡ moved pending → ⊥
    not_back s e h = ground arith

Advances-trans : {a b c : BootRow} → Advances a b → Advances b c → Advances a c
Advances-trans f g = record {
  path = Reach-trans f.path g.path;
  same_keys = g.same_keys ∙ f.same_keys;
  same_grant = λ n. g.same_grant (Reach-ne_pending n f.path) ∙ f.same_grant n;
}

module _ (d : Deps) where
  pub SafeRows-refl : (boots : List BootRow) → SafeRows d boots boots
  SafeRows-refl boots s = (s, λ i b h. (b, h, Advances-refl b))

  pub SafeRows-trans : (a b c : List BootRow) → SafeRows d a b → SafeRows d b c → SafeRows d a c
  SafeRows-trans a b c f g s =
      let (sound_b, to_b) = f s in
      let (sound_c, to_c) = g sound_b in
      (
        sound_c,
        λ i x h.
            let (y, found, first) = to_b i x h in
            let (z, found', second) = to_c i y found in (z, found', Advances-trans first second),
      )

  -- One row is found and rewritten.
  pub SafeRows-update :
      (boots : List BootRow) (b : BootRow) (f : BootRow → BootRow)
      → select_boot b.id boots ≡ some b
      → KeepsId f
      → (RowSound d b → RowSound d (f b))
      → Advances b (f b)
      → SafeRows d boots (update_boots b.id f boots)
  SafeRows-update boots b f found k keep advance s = (sound, evolve)
    where
      at : (i : String) → (b.id ≡ i) ⊎ (b.id ≢ i)
      at i = elim (Bool-cases (str_eq b.id i)) [
        | inl e ↦ inl ((str_eq_iff b.id i).0 e)
        | inr e ↦ inr (λ p. cc (e, (str_eq_iff b.id i).1 p))
      ]

      self : select_boot b.id (update_boots b.id f boots) ≡ some (f b)
      self = select_boot-update_self b.id f boots k found

      sound : Sound d (update_boots b.id f boots)
      sound i c h = elim (at i) [
        | inl p ↦
            let same : f b ≡ c = some-injective _ _ (
              sym self
              ∙ subst (λ j. select_boot j (update_boots b.id f boots) ≡ some c) (sym p) h) in
            subst (RowSound d) same (keep (s b.id b found))
        | inr n ↦ s i c (sym (select_boot-update_ne b.id i f boots k n) ∙ h)
      ]

      evolve : Evolves boots (update_boots b.id f boots)
      evolve i c h = elim (at i) [
        | inl p ↦
            let same : b ≡ c =
              some-injective _ _
                (sym found ∙ subst (λ j. select_boot j boots ≡ some c) (sym p) h) in
            (
              f b,
              subst (λ j. select_boot j (update_boots b.id f boots) ≡ some (f b)) p self,
              subst (λ x. Advances x (f b)) same advance,
            )
        | inr n ↦ (c, select_boot-update_ne b.id i f boots k n ∙ h, Advances-refl c)
      ]

  -- The status moves by one event and other columns are written with it.
  pub SafeRows-settle :
      (boots : List BootRow) (b : BootRow) (e : BootEvent) (t : BootStatus) (g : BootRow → BootRow)
      → select_boot b.id boots ≡ some b
      → transition b.status e ≡ moved t
      → ((c : BootRow) → (keys_of (g c) ≡ keys_of c) × ((g c).status ≡ c.status))
      → (b.status ≢ pending → grant_of (g b) ≡ grant_of b)
      → (RowSound d b → RowSound d (g (record b { status = t })))
      → ((c : BootRow) → grant_of (g (record c { status = t })) ≡ grant_of (g c))
      → SafeRows d boots
          (update_boots b.id g (update_boots b.id (λ c. record c { status = t }) boots))
  SafeRows-settle boots b e t g found m keys grant keep flat =
      rw (update_boots-update b.id g (λ c. record c { status = t }) boots (λ c. refl)) (
        SafeRows-update boots b (λ c. g (record c { status = t })) found
          (λ c. ap (λ (k : BootKeys). k.id) (keys (record c { status = t })).0) keep
          (record {
            path = rw ((keys (record b { status = t })).1) (Reach_one e m);
            same_keys = (keys (record b { status = t })).0;
            same_grant = λ n. flat b ∙ grant n;
          }))

  -- A sound row is inserted.
  pub SafeRows-insert :
      (boots : List BootRow) (row : BootRow) → RowSound d row → SafeRows d boots (boots ++ row ∷ [])
  SafeRows-insert boots row ok s = (
    λ i c h. elim (select_boot-append_cases i boots row h) [
      | inl old ↦ s i c old
      | inr new ↦ subst (RowSound d) new ok
    ],
    λ i c h. (c, select_boot-append i boots row h, Advances-refl c),
  )

  -- The table is the same.
  pub Safe-same : (w w' : World) → w'.boots ≡ w.boots → Safe d w w'
  Safe-same w w' e = record { rows = subst (SafeRows d w.boots) (sym e) (SafeRows-refl w.boots) }

  pub Safe-trans : (u v w : World) → Safe d u v → Safe d v w → Safe d u w
  Safe-trans u v w f g = record { rows = SafeRows-trans u.boots v.boots w.boots f.rows g.rows }

  -- A bind is safe if its first part is, and its second from wherever the first ends.
  Safe-continue :
      {A B : Type 0} (w : World) (r : Option A × World) (f : A → M B)
      → Safe d w r.1
      → ((a : A) (w' : World) → r ≡ (some a, w') → Safe d w' (f a w').1)
      → Safe d w (continue r f).1
  Safe-continue w (none, w') f first second = first
  Safe-continue w (some a, w') f first second = Safe-trans w w' (f a w').1 first (second a w' refl)

  pub Safe-bind :
      {A B : Type 0} (m : M A) (f : A → M B) (w : World)
      → Safe d w (m w).1
      → ((a : A) (w' : World) → m w ≡ (some a, w') → Safe d w' (f a w').1)
      → Safe d w ((m >>= f) w).1
  Safe-bind m f w = Safe-continue w (m w) f

  -- A method that is safe from every world.
  pub record Keeps {A : Type 0} (m : M A) : Type 0 where
    pub from : (w : World) → Safe d w (m w).1

  pub pure-Keeps : {A : Type 0} (a : A) → Keeps (pure a)
  pure-Keeps a = record { from = λ w. Safe-same w w refl }

  pub asks-Keeps : {A : Type 0} (f : World → A) → Keeps (asks f)
  asks-Keeps f = record { from = λ w. Safe-same w w refl }

  pub >>=-Keeps :
      {A B : Type 0} {m : M A} {f : A → M B} → Keeps m → ((a : A) → Keeps (f a)) → Keeps (m >>= f)
  >>=-Keeps {m} {f} first second = record {
    from = λ w. Safe-bind m f w (first.from w) (λ a w' e. (second a).from w');
  }

  pub if-Keeps :
      {A : Type 0} (b : Bool) {m n : M A} → Keeps m → Keeps n → Keeps (if b then m else n)
  if-Keeps true first second = first
  if-Keeps false first second = second

  -- From a world where the row is known, the rest being safe from anywhere.
  pub Safe-then :
      {A B : Type 0} (m : M A) (f : A → M B) (w : World)
      → Safe d w (m w).1
      → ((a : A) → Keeps (f a))
      → Safe d w ((m >>= f) w).1
  Safe-then m f w first second = Safe-bind m f w first (λ a w' e. (second a).from w')

  pub pause-Keeps : Guarded d → Keeps (pause d)
  unfolding pause
  pause-Keeps g = record { from = λ w. go w (d.others w) refl }
    where
      go : (w : World) (o : Option World) → d.others w ≡ o → Safe d w (resume_as o w).1
      go w none e = Safe-same w w refl
      go w (some w') e = record { rows = (g w w' e).rows }

  pub write-Keeps : (f : VaultDatabase → Option VaultDatabase) → Keeps (write f)
  unfolding write
  write-Keeps f = record { from = λ w. go w (f w.db) }
    where
      go : (w : World) (o : Option VaultDatabase) → Safe d w (write_as o w).1
      go w none = Safe-same w w refl
      go w (some db) = Safe-same w _ refl

  pub draw-Keeps : (name : ℕ → String) → Keeps (draw name)
  unfolding draw
  draw-Keeps name = record { from = λ w. Safe-same w _ refl }

pub ruleset keeping =
    (pure-Keeps, asks-Keeps, >>=-Keeps, if-Keeps, pause-Keeps, write-Keeps, draw-Keeps)
