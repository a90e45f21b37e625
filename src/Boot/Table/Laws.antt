-- ===== src/Boot/Table/Laws.antt =====
-- What a SELECT finds after an UPDATE or an INSERT on `boots` in boot-session-core.ts.
use mathlib.Core.Path.{subst}
use mathlib.Core.Option.{some-injective}
use keevault.Base.{
  ◌≡◌, refl, sym, ◌∙◌, ap, ◌≢◌, ◌⊎◌, inl, inr, String, true, false, some, List, [], ◌∷◌, ◌++◌,
  str_eq, str_eq_iff, Bool-cases, if◌then◌else◌,
}
use keevault.Boot.{BootRow}
use keevault.Boot.Table.{has_id, select_boot, update_boots}

-- An update that leaves the primary key alone.
abbrev pub KeepsId : (BootRow → BootRow) → Type 0
KeepsId f = (b : BootRow) → (f b).id ≡ b.id

pub select_boot-id :
    (i : String) (boots : List BootRow) {b : BootRow} → select_boot i boots ≡ some b → b.id ≡ i
unfolding select_boot
select_boot-id i [] h = cc
select_boot-id i (c ∷ boots) {b} h = elim (Bool-cases (has_id i c)) [
  | inl e ↦
      let same : c ≡ b = some-injective _ _ (rw e at h) in
      ap (λ (x : BootRow). x.id) (sym same) ∙ (str_eq_iff c.id i).0 e
  | inr e ↦ select_boot-id i boots (rw e at h)
]

pub select_boot_self :
    (i : String) (boots : List BootRow) {b : BootRow}
    → select_boot i boots ≡ some b
    → select_boot b.id boots ≡ some b
select_boot_self i boots {b} e =
    subst (λ j. select_boot j boots ≡ some b) (sym (select_boot-id i boots e)) e

pub select_boot-update_self :
    (i : String) (f : BootRow → BootRow) (boots : List BootRow) {b : BootRow}
    → KeepsId f
    → select_boot i boots ≡ some b
    → select_boot i (update_boots i f boots) ≡ some (f b)
unfolding select_boot update_boots
select_boot-update_self i f [] k h = cc
select_boot-update_self i f (c ∷ boots) {b} k h = elim (Bool-cases (has_id i c)) [
  | inl e ↦
      let kept : has_id i (f c) ≡ true = ap (λ x. str_eq x i) (k c) ∙ e in
      rw e (rw kept (ap (λ x. some (f x)) (some-injective _ _ (rw e at h))))
  | inr e ↦ rw e (rw e (select_boot-update_self i f boots k (rw e at h)))
]

has_id_ne : (i j : String) (c : BootRow) → i ≢ j → has_id i c ≡ true → has_id j c ≡ false
has_id_ne i j c n e = elim (Bool-cases (has_id j c)) [
  | inl e' ↦ absurd (n (sym ((str_eq_iff c.id i).0 e) ∙ (str_eq_iff c.id j).0 e'))
  | inr e' ↦ e'
]

pub select_boot-update_ne :
    (i j : String) (f : BootRow → BootRow) (boots : List BootRow)
    → KeepsId f
    → i ≢ j
    → select_boot j (update_boots i f boots) ≡ select_boot j boots
unfolding select_boot update_boots
select_boot-update_ne i j f [] k n = refl
select_boot-update_ne i j f (c ∷ boots) k n = elim (Bool-cases (has_id i c)) [
  | inl e ↦
      let other = has_id_ne i j c n e in
      let kept : has_id j (f c) ≡ false = ap (λ x. str_eq x j) (k c) ∙ other in
      rw e (rw (kept, other) (select_boot-update_ne i j f boots k n))
  | inr e ↦
      rw e
        (ap (λ rest. if has_id j c then some c else rest) (select_boot-update_ne i j f boots k n))
]

pub select_boot-append :
    (j : String) (boots : List BootRow) (row : BootRow) {b : BootRow}
    → select_boot j boots ≡ some b
    → select_boot j (boots ++ row ∷ []) ≡ some b
unfolding select_boot
select_boot-append j [] row h = cc
select_boot-append j (c ∷ boots) row h = elim (Bool-cases (has_id j c)) [
  | inl e ↦ rw e (rw e at h)
  | inr e ↦ rw e (select_boot-append j boots row (rw e at h))
]

-- A row found after an INSERT was there before, or is the new one.
pub select_boot-append_cases :
    (j : String) (boots : List BootRow) (row : BootRow) {b : BootRow}
    → select_boot j (boots ++ row ∷ []) ≡ some b
    → (select_boot j boots ≡ some b) ⊎ (row ≡ b)
unfolding select_boot
select_boot-append_cases j [] row h = elim (Bool-cases (has_id j row)) [
  | inl e ↦ inr (some-injective _ _ (rw e at h))
  | inr e ↦ cc (rw e at h)
]
select_boot-append_cases j (c ∷ boots) row h = elim (Bool-cases (has_id j c)) [
  | inl e ↦ inl (rw e (rw e at h))
  | inr e ↦ rw e (select_boot-append_cases j boots row (rw e at h))
]

-- Two updates of one row are one.
pub update_boots-update :
    (i : String) (g f : BootRow → BootRow) (boots : List BootRow)
    → KeepsId f
    → update_boots i g (update_boots i f boots) ≡ update_boots i (λ b. g (f b)) boots
unfolding update_boots
update_boots-update i g f [] k = refl
update_boots-update i g f (c ∷ boots) k = elim (Bool-cases (has_id i c)) [
  | inl e ↦
      let kept : has_id i (f c) ≡ true = ap (λ x. str_eq x i) (k c) ∙ e in
      rw e (rw kept (ap (λ rest. g (f c) ∷ rest) (update_boots-update i g f boots k)))
  | inr e ↦ rw e (rw e (ap (λ rest. c ∷ rest) (update_boots-update i g f boots k)))
]
