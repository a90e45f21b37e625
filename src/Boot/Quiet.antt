-- ===== src/Boot/Quiet.antt =====
-- Methods of boot-session-core.ts that leave the table `boots` alone while nobody else touches it.
use keevault.Base.{◌≡◌, refl, sym, ◌∙◌, ap, ℕ, String, Option, none, some, List}
use keevault.Store.{VaultDatabase, AuditValue}
use keevault.Boot.{
  BootRow, World, Deps, M, pure, asks, pause, write, write_as, draw, resume_as, continue, ◌>>=◌,
}
use keevault.Boot.Report.{audit}
use keevault.Boot.Safe.{Guarded, Safe-same}

-- Nobody else touches the table `boots` while a method waits.
abbrev pub Quiet : Deps → Type 0
Quiet d = (w w' : World) → d.others w ≡ some w' → w'.boots ≡ w.boots

pub Quiet-Guarded : (d : Deps) → Quiet d → Guarded d
Quiet-Guarded d q w w' e = Safe-same d w w' (q w w' e)

module _ (d : Deps) where
  -- However the method ends, the table is as it was.
  pub record Still {A : Type 0} (m : M A) : Type 0 where
    pub from : (w : World) → (m w).1.boots ≡ w.boots

  pub after :
      {A : Type 0} {m : M A} {w w' : World} {a : A}
      → Still m
      → m w ≡ (some a, w')
      → w'.boots ≡ w.boots
  after {w} still e = ap (λ r. r.1.boots) (sym e) ∙ still.from w

  pub pure-Still : {A : Type 0} (a : A) → Still (pure a)
  pure-Still a = record { from = λ w. refl }

  pub asks-Still : {A : Type 0} (f : World → A) → Still (asks f)
  asks-Still f = record { from = λ w. refl }

  pub >>=-Still :
      {A B : Type 0} {m : M A} {f : A → M B} → Still m → ((a : A) → Still (f a)) → Still (m >>= f)
  >>=-Still {A} {m} {f} first second = record { from = λ w. go w (m w) (first.from w) }
    where
      go :
          (w : World) (r : Option A × World)
          → r.1.boots ≡ w.boots
          → (continue r f).1.boots ≡ w.boots
      go w (none, u) e = e
      go w (some a, u) e = (second a).from u ∙ e

  pub write-Still : (f : VaultDatabase → Option VaultDatabase) → Still (write f)
  unfolding write
  write-Still f = record { from = λ w. go w (f w.db) }
    where
      go : (w : World) (o : Option VaultDatabase) → (write_as o w).1.boots ≡ w.boots
      go w none = refl
      go w (some db) = refl

  pub draw-Still : (name : ℕ → String) → Still (draw name)
  unfolding draw
  draw-Still name = record { from = λ w. refl }

  pub pause-Still : Quiet d → Still (pause d)
  unfolding pause
  pause-Still q = record { from = λ w. go w (d.others w) refl }
    where
      go : (w : World) (o : Option World) → d.others w ≡ o → (resume_as o w).1.boots ≡ w.boots
      go w none e = refl
      go w (some v) e = q w v e

pub ruleset still = (pure-Still, asks-Still, >>=-Still, write-Still, draw-Still, pause-Still)

module _ (d : Deps) (q : Quiet d) where
  pub audit-Still :
      (action : String) (boot : BootRow) (actor_type : String) (actor_id : Option String)
      (metadata : List (String × AuditValue))
      → Still d (audit d action boot actor_type actor_id metadata)
  unfolding audit
  audit-Still action boot actor_type actor_id metadata = search (still, q) depth 12
