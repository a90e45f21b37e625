-- ===== src/Boot/Connection/TokenIds.antt =====
-- The token ids of boot-session-core.ts, `tokenId.replace(/^tok_/, "")`, and of
-- getBootstrapTokenByTokenId, which puts the prefix back.
use Prim.Native.String.{◌++◌ as text_append}
use Prim.Native.String.append
use text.Mathlib.TextPositions.{starts_with_of_prefix}
use keevault.Base.{◌≡◌, refl, String, find, str_eq}
use keevault.Store.{BootstrapTokenRow, VaultDatabase}
use keevault.Store.Queries.{get_bootstrap_token_by_token_id}
use keevault.Boot.Connection.{bare_token_id, drop_prefix}

drop_prefix-append : (p s : String) → drop_prefix p (text_append p s) ≡ s
drop_prefix-append String.[] s = append.nil s
drop_prefix-append (String.◌∷◌ c p) s = rw (append.cons c p s) (drop_prefix-append p s)

-- Stripping the prefix undoes adding it.
bare_token_id-append : (id : String) → bare_token_id (text_append "tok_" id) ≡ id
unfolding bare_token_id
bare_token_id-append id =
    rw (starts_with_of_prefix "tok_" (text_append "tok_" id) (id, refl))
      (drop_prefix-append "tok_" id)

-- A token whose row id has the prefix is looked up under that row id.
pub get_token-bare :
    (db : VaultDatabase) (id : String)
    → get_bootstrap_token_by_token_id db (bare_token_id (text_append "tok_" id))
      ≡ find (λ (row : BootstrapTokenRow). str_eq row.id (text_append "tok_" id)) db.tokens
unfolding get_bootstrap_token_by_token_id
get_token-bare db id = rw (bare_token_id-append id) refl
