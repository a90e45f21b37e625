-- ===== src/Crypto/Cidr/Format.antt =====
-- `formatIpv4`, `formatIpv6` and `normalizeIpAddress` of packages/crypto/src/cidr.ts.
use mathlib.Core.Option
use keevault.Base.{
  ℕ, zero, suc, ◌+◌, ◌-◌, ◌*◌, ◌/◌, ◌%◌, Option, none, some, List, [], ◌∷◌, ◌++◌, map, ltb, ◌==◌,
  if◌then◌else◌, length,
}
use keevault.Crypto.Text.{Text, Bytes, codes, take, drop, get_or}
use keevault.Crypto.Text.Decimal.{decimal}
use keevault.Crypto.Text.Lines.{join_parts}
use keevault.Crypto.Cidr.{ipv4_bytes, parse_ip_address}

unfoldable pub format_ipv4 : Bytes → Text
unfolding decimal
format_ipv4 bytes = join_parts b'.' (map decimal bytes)

-- `group.toString(16)`; a number has fewer digits than its successor counts.
unfoldable pub hex_loop : ℕ → ℕ → Text → Text
hex_loop zero n out = out
hex_loop (suc fuel) n out =
    let digit = get_or (codes "0123456789abcdef") (n % 16) 0 in
    let rest = hex_loop fuel (n / 16) (digit ∷ out) in if ltb n 16 then digit ∷ out else rest

unfoldable pub hex_number : ℕ → Text
unfolding hex_loop
hex_number n = hex_loop (suc n) n []

-- `((bytes[index] ?? 0) << 8) | (bytes[index + 1] ?? 0)`.
unfoldable pub groups_of : Bytes → List ℕ
groups_of [] = []
groups_of (a ∷ []) = (a * 256) ∷ []
groups_of (a ∷ b ∷ bytes) = (a * 256 + b) ∷ groups_of bytes

-- The variables of the loop; `none` is the start -1.
pub record ZeroRun : Type 0 where
  pub best_start : Option ℕ
  pub best_length : ℕ
  pub run_start : Option ℕ

abbrev pub close_run : ℕ → Option ℕ → ZeroRun → ZeroRun
close_run index none run = run
close_run index (some start) run =
    if ltb run.best_length (index - start)
    then record { best_start = some start; best_length = index - start; run_start = none }
    else record run { run_start = none }

abbrev pub open_run : ℕ → Option ℕ → ZeroRun → ZeroRun
open_run index none run = record run { run_start = some index }
open_run index (some start) run = run

-- One round of the loop; the last one stands after the groups.
unfoldable pub run_loop : List ℕ → ℕ → ZeroRun → ZeroRun
run_loop [] index run = close_run index run.run_start run
run_loop (group ∷ groups) index run =
    run_loop groups (index + 1)
      (if group == 0 then open_run index run.run_start run else close_run index run.run_start run)

abbrev pub compress : List Text → ℕ → Option ℕ → Text
compress rendered length none = join_parts b':' rendered
compress rendered length (some start) =
    join_parts b':' (take start rendered)
    ++ (codes "::" ++ join_parts b':' (drop (start + length) rendered))

unfoldable pub format_ipv6 : Bytes → Text
unfolding groups_of run_loop hex_number
format_ipv6 bytes =
    let groups = groups_of bytes in
    let run = run_loop groups 0 (record { best_start = none; best_length = 0; run_start = none }) in
    let rendered = map hex_number groups in
    if ltb run.best_length 2
    then join_parts b':' rendered
    else compress rendered run.best_length run.best_start

unfoldable pub normalize_ip_address : Text → Option Text
unfolding format_ipv4 format_ipv6
normalize_ip_address text =
    Option.map
      (λ (bytes : Bytes).
        if length bytes == ipv4_bytes then format_ipv4 bytes else format_ipv6 bytes)
      (parse_ip_address text)
