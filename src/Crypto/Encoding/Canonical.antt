-- ===== src/Crypto/Encoding/Canonical.antt =====
-- The texts that `b64uDecode` of packages/crypto/src/encoding.ts accepts, and the array that it
-- allocates before the loop.
use mathlib.Core.Path.{subst}
use mathlib.Core.Option
use mathlib.Core.Option.{some-injective}
use keevault.Base.{
  ℕ, ◌+◌, ◌-◌, ◌*◌, ◌/◌, ◌%◌, ◌<◌, false, Option, none, some, [], ◌∷◌, All, length, ◌==◌,
  if◌then◌else◌, ◌≡◌, refl, sym, ap, ◌∙◌, arith, ==_iff, Option-cases, Bool-cases, if-eq-some, inl,
  inr,
}
use keevault.Crypto.Text.{Text, Bytes, IsByte}
use keevault.Crypto.Encoding.{
  b64u_char, b64u_value, b64u_encode, Decoded, b64u_round, b64u_loop, b64u_finish, b64u_decode,
}
use keevault.Crypto.Encoding.Base64.{
  b64u_char-b64u_value, decode_from, decode_two, decode_three, decode_four, four_of_bytes,
}

-- A character of the alphabet, and its value.
abbrev HasValue : ℕ → Type 0
HasValue c = (v : ℕ) × (b64u_value c ≡ some v) × (b64u_char v ≡ c) × (v < 64)

refused {ℓ} : {A : Type ℓ} {a : A} → ◌≡◌ {A = Option A} none (some a) → ⊥
refused h = cc

loop-values :
    (t : Text) (accumulator bits_held : ℕ) (d : Decoded)
    → b64u_loop t accumulator bits_held ≡ some d
    → All HasValue t
unfolding b64u_loop
loop-values [] accumulator bits_held d h = tt
loop-values (c ∷ t) accumulator bits_held d h = elim (Option-cases (b64u_value c)) [
  | inl e ↦
      absurd (refused (subst (λ o. b64u_round o accumulator bits_held (b64u_loop t) ≡ some d) e h))
  | inr (v, e) ↦
      let (char, bound) = b64u_char-b64u_value c v e in
      let (d', rest, _) =
        (Option.map-eq-some_iff _ _).0
          (subst (λ o. b64u_round o accumulator bits_held (b64u_loop t) ≡ some d) e h) in
      ((v, e, char, bound), loop-values t _ _ d' rest)
]

finish-eq-some :
    (o : Option Decoded) {bytes : Bytes} → b64u_finish o ≡ some bytes → (d : Decoded) × (o ≡ some d)
unfolding b64u_finish
finish-eq-some none h = cc
finish-eq-some (some d) h = (d, refl)

-- The text that is read is the text of its bytes, and they are bytes.
abbrev Rewrites : Text → Bytes → Type 0
Rewrites t bytes = (b64u_encode bytes ≡ t) × All IsByte bytes

Rewrites-two :
    (c d : ℕ) (accumulator : ℕ) (bytes : Bytes)
    → HasValue c
    → HasValue d
    → decode_from (c ∷ d ∷ []) accumulator ≡ some bytes
    → Rewrites (c ∷ d ∷ []) bytes
unfolding b64u_encode
Rewrites-two c d accumulator bytes (p, hp, cp, lp) (q, hq, cq, lq) h =
    let (test, joined) = if-eq-some _ _ _ (sym (decode_two c d accumulator hp hq lp lq) ∙ h) in
    let spare = (==_iff (q % 16) 0).0 test in
    let first : (p * 4 + q / 16) / 4 ≡ p = omega arith in
    let second : (p * 4 + q / 16) % 4 * 16 ≡ q = omega arith in
    subst (Rewrites (c ∷ d ∷ [])) joined (rw (first, second, cp, cq) refl, (omega arith, tt))

Rewrites-three :
    (c d e : ℕ) (accumulator : ℕ) (bytes : Bytes)
    → HasValue c
    → HasValue d
    → HasValue e
    → decode_from (c ∷ d ∷ e ∷ []) accumulator ≡ some bytes
    → Rewrites (c ∷ d ∷ e ∷ []) bytes
unfolding b64u_encode
Rewrites-three c d e accumulator bytes (p, hp, cp, lp) (q, hq, cq, lq) (r, hr, cr, lr) h =
    let (test, joined) =
      if-eq-some _ _ _ (sym (decode_three c d e accumulator hp hq hr lp lq lr) ∙ h) in
    let spare = (==_iff (r % 4) 0).0 test in
    let first : (p * 4 + q / 16) / 4 ≡ p = omega arith in
    let second : (p * 4 + q / 16) % 4 * 16 + (q % 16 * 16 + r / 4) / 16 ≡ q = omega arith in
    let third : (q % 16 * 16 + r / 4) % 16 * 4 ≡ r = omega arith in
    subst (Rewrites (c ∷ d ∷ e ∷ [])) joined
      (rw (first, second, third, cp, cq, cr) refl, (omega arith, (omega arith, tt)))

Rewrites-four :
    (c d e f : ℕ) (t : Text) (accumulator : ℕ) (bytes : Bytes)
    → HasValue c
    → HasValue d
    → HasValue e
    → HasValue f
    → ((a : ℕ) (rest : Bytes) → decode_from t a ≡ some rest → Rewrites t rest)
    → decode_from (c ∷ d ∷ e ∷ f ∷ t) accumulator ≡ some bytes
    → Rewrites (c ∷ d ∷ e ∷ f ∷ t) bytes
unfolding b64u_encode
Rewrites-four c d e f t accumulator bytes (p, hp, cp, lp) (q, hq, cq, lq) (r, hr, cr, lr)
      (s, hs, cs, ls) later h =
    let (rest, decoded, joined) =
      (Option.map-eq-some_iff _ _).0
        (sym (decode_four c d e f hp hq hr hs lp lq lr ls t accumulator) ∙ h) in
    let (first, second, third, fourth) = four_of_bytes c d e f hp hq hr hs lp lq lr ls in
    let (text, ok) = later _ rest decoded in
    subst (Rewrites (c ∷ d ∷ e ∷ f ∷ t)) joined (
      rw (first, second, third, fourth, cp, cq, cr, cs, text) refl,
      (omega arith, (omega arith, (omega arith, ok))),
    )

Rewrites-none :
    (accumulator : ℕ) (bytes : Bytes) → decode_from [] accumulator ≡ some bytes → Rewrites [] bytes
unfolding b64u_finish b64u_loop b64u_encode
Rewrites-none accumulator bytes h = subst (Rewrites []) (some-injective _ _ h) (refl, tt)

encode-decode_from :
    (t : Text) (accumulator : ℕ) (bytes : Bytes)
    → (length t % 4 == 1) ≡ false
    → All HasValue t
    → decode_from t accumulator ≡ some bytes
    → Rewrites t bytes
encode-decode_from [] accumulator bytes l v h = Rewrites-none accumulator bytes h
encode-decode_from (c ∷ []) accumulator bytes l v h = cc
encode-decode_from (c ∷ d ∷ []) accumulator bytes l (vc, (vd, _)) h =
    Rewrites-two c d accumulator bytes vc vd h
encode-decode_from (c ∷ d ∷ e ∷ []) accumulator bytes l (vc, (vd, (ve, _))) h =
    Rewrites-three c d e accumulator bytes vc vd ve h
encode-decode_from (c ∷ d ∷ e ∷ f ∷ t) accumulator bytes l (vc, (vd, (ve, (vf, v)))) h =
    Rewrites-four c d e f t accumulator bytes vc vd ve vf
      (λ a rest g. encode-decode_from t a rest (ground arith) v g) h

-- A base64url text that is accepted is the one text that is written for the bytes that it is read as.
pub b64u_encode-b64u_decode :
    (t : Text) (bytes : Bytes)
    → b64u_decode t ≡ some bytes
    → (b64u_encode bytes ≡ t) × All IsByte bytes
unfolding b64u_decode
b64u_encode-b64u_decode t bytes h = elim (Bool-cases (length t % 4 == 1)) [
  | inl e ↦ absurd (refused (subst (λ b. (if b then none else decode_from t 0) ≡ some bytes) e h))
  | inr e ↦
      let h' = subst (λ b. (if b then none else decode_from t 0) ≡ some bytes) e h in
      let (d, looped) = finish-eq-some (b64u_loop t 0 0) h' in
      encode-decode_from t 0 bytes e (loop-values t 0 0 d looped) h'
]

-- The size of the array: three bytes for each group of four, and one fewer than the characters left.
abbrev pub b64u_size : ℕ → ℕ
b64u_size n = n / 4 * 3 + (if n % 4 == 0 then 0 else n % 4 - 1)

length_of_encoded : (bytes : Bytes) → length bytes ≡ b64u_size (length (b64u_encode bytes))
unfolding b64u_encode
length_of_encoded [] = refl
length_of_encoded (a ∷ []) = refl
length_of_encoded (a ∷ b ∷ []) = refl
length_of_encoded (a ∷ b ∷ c ∷ rest) = ground (arith, length_of_encoded rest)

-- The loop writes as many bytes as the array has.
pub length-b64u_decode :
    (t : Text) (bytes : Bytes) → b64u_decode t ≡ some bytes → length bytes ≡ b64u_size (length t)
length-b64u_decode t bytes h =
    length_of_encoded bytes ∙ ap (λ u. b64u_size (length u)) (b64u_encode-b64u_decode t bytes h).0
