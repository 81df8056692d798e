-- ===== src/Tokens/Extensions.antt =====
-- processor.rs: the extensions that the loops over those of an account and of a mint allow.
use arena_contract_sol.Prelude.{◌≡◌, ◌↔◌, ◌⊎◌, true, List, [], ◌∷◌, All, arith, refl}
use arena_contract_sol.Result.{ok}
use arena_contract_sol.Platform.{ExtensionType, metadata_pointer, token_metadata, immutable_owner}
use arena_contract_sol.Tokens.{
  is_allowed_mint_extension, is_allowed_account_extension, assert_allowed_mint_extensions,
  assert_allowed_account_extensions,
}

allowed_account :
    (e : ExtensionType) → (is_allowed_account_extension e ≡ true) ↔ (e ≡ immutable_owner)
unfolding is_allowed_account_extension
allowed_account e = ground arith

allowed_mint :
    (e : ExtensionType)
    → (is_allowed_mint_extension e ≡ true) ↔ ((e ≡ metadata_pointer) ⊎ (e ≡ token_metadata))
unfolding is_allowed_mint_extension
allowed_mint e = ground arith

-- The loop over the extensions of an account, and that over those of a mint.
pub assert_allowed_account_extensions-exact :
    (exts : List ExtensionType)
    → (assert_allowed_account_extensions exts ≡ ok tt) ↔ All (λ e. e ≡ immutable_owner) exts
unfolding assert_allowed_account_extensions
assert_allowed_account_extensions-exact [] = (λ _. tt, λ _. refl)
assert_allowed_account_extensions-exact (ext ∷ exts) =
    ground (arith, assert_allowed_account_extensions-exact exts, allowed_account ext)

pub assert_allowed_mint_extensions-exact :
    (exts : List ExtensionType)
    → (assert_allowed_mint_extensions exts ≡ ok tt)
      ↔ All (λ e. (e ≡ metadata_pointer) ⊎ (e ≡ token_metadata)) exts
unfolding assert_allowed_mint_extensions
assert_allowed_mint_extensions-exact [] = (λ _. tt, λ _. refl)
assert_allowed_mint_extensions-exact (ext ∷ exts) =
    ground (arith, assert_allowed_mint_extensions-exact exts, allowed_mint ext)
