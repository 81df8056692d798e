-- ===== src/Tokens/Mints.antt =====
-- processor.rs: which mints `mint_decimals` accepts.
use arena_contract_sol.Prelude.{
  ℕ, ◌≡◌, ◌↔◌, ◌⊎◌, inl, inr, false, not, none, some, List, ◌==◌, All, arith, Bool-cases, ==_iff,
}
use arena_contract_sol.Result.{ok, ok_or, ok_or-eq-ok, fail_if, >>=-elim, invalid_token_mint}
use arena_contract_sol.State.{Pubkey}
use arena_contract_sol.Platform.{
  Platform, World, AccountInfo, Mint, ExtensionType, metadata_pointer, token_metadata,
}
use arena_contract_sol.Accounts.{owner_of, data_of}
use arena_contract_sol.Tokens.{assert_allowed_mint_extensions, fixed_supply_decimals, mint_decimals}
use arena_contract_sol.Tokens.Extensions.{assert_allowed_mint_extensions-exact}

-- A mint of one of the two token programs that nobody can mint more of or freeze, with no
-- extensions but metadata.
pub record IsFixedSupply (pf : Platform) (w : World) (token_program k : Pubkey) (decimals : ℕ)
    : Type 0 where
  pub mint : Mint
  pub program : (w.cell k).owner ≡ token_program
  pub decodes :
      ((token_program ≡ pf.spl_token_id) × (pf.unpack_mint (w.cell k).bytes ≡ some mint))
      ⊎ (((token_program == pf.spl_token_id) ≡ false)
          × (token_program ≡ pf.spl_token_2022_id)
          × (pf.unpack_mint_2022 (w.cell k).bytes ≡ some mint)
          × ((exts : List ExtensionType) × (pf.mint_extensions (w.cell k).bytes ≡ some exts)
              × All (λ e. (e ≡ metadata_pointer) ⊎ (e ≡ token_metadata)) exts))
  pub mint_authority : mint.mint_authority ≡ none
  pub freeze_authority : mint.freeze_authority ≡ none
  pub its_decimals : mint.decimals ≡ decimals

fixed_supply_decimals-exact :
    (m : Mint) (d : ℕ)
    → (fixed_supply_decimals m ≡ ok d)
      ↔ ((m.mint_authority ≡ none) × (m.freeze_authority ≡ none) × (m.decimals ≡ d))
unfolding fixed_supply_decimals
fixed_supply_decimals-exact m d = ground arith

mint_decimals-IsFixedSupply :
    (pf : Platform) (w : World) (mint : AccountInfo) (token_program : Pubkey) (d : ℕ)
    → mint_decimals pf w mint token_program ≡ ok d
    → IsFixedSupply pf w token_program mint.key d
unfolding mint_decimals
mint_decimals-IsFixedSupply pf w mint token_program d e =
    >>=-elim (fail_if (not (owner_of w mint == token_program)) invalid_token_mint) _ e λ _ own e.
      let its : (w.cell mint.key).owner ≡ token_program = ground (arith, own) in
      elim (Bool-cases (token_program == pf.spl_token_id)) [
        | inl is ↦
            >>=-elim (ok_or (pf.unpack_mint (data_of w mint)) invalid_token_mint) _ (rw is at e)
              λ m un fixed.
                let (a, f, n) = (fixed_supply_decimals-exact m d).0 fixed in
                record {
                  mint = m;
                  program = its;
                  decodes = inl ((==_iff token_program pf.spl_token_id).0 is, ok_or-eq-ok _ _ un);
                  mint_authority = a;
                  freeze_authority = f;
                  its_decimals = n;
                }
        | inr other ↦ elim (Bool-cases (token_program == pf.spl_token_2022_id)) [
          | inl is ↦
              >>=-elim (ok_or (pf.unpack_mint_2022 (data_of w mint)) invalid_token_mint) _
                (rw (other, is) at e)
                λ m un e.
                  >>=-elim (ok_or (pf.mint_extensions (data_of w mint)) invalid_token_mint) _ e
                    λ exts found e.
                      >>=-elim (assert_allowed_mint_extensions exts) _ e λ _ allowed fixed.
                        let (a, f, n) = (fixed_supply_decimals-exact m d).0 fixed in
                        record {
                          mint = m;
                          program = its;
                          decodes = inr (
                            other,
                            (==_iff token_program pf.spl_token_2022_id).0 is,
                            ok_or-eq-ok _ _ un,
                            (
                              exts,
                              ok_or-eq-ok _ _ found,
                              (assert_allowed_mint_extensions-exact exts).0 allowed,
                            ),
                          );
                          mint_authority = a;
                          freeze_authority = f;
                          its_decimals = n;
                        }
          | inr neither ↦ cc (other, neither, e)
        ]
      ]

IsFixedSupply-mint_decimals :
    (pf : Platform) (w : World) (mint : AccountInfo) (token_program : Pubkey) (d : ℕ)
    → IsFixedSupply pf w token_program mint.key d
    → mint_decimals pf w mint token_program ≡ ok d
unfolding mint_decimals
IsFixedSupply-mint_decimals pf w mint token_program d h =
    let fixed =
      (fixed_supply_decimals-exact h.mint d).1
        (h.mint_authority, h.freeze_authority, h.its_decimals) in
    elim h.decodes [
      | inl (is, un) ↦ ground (arith, h.program, is, un, fixed)
      | inr (other, is, un, (exts, found, allowed)) ↦ ground (
        arith,
        h.program,
        other,
        is,
        un,
        found,
        (assert_allowed_mint_extensions-exact exts).1 allowed,
        fixed,
      )
    ]

-- A mint is accepted with its decimals exactly when it is a mint of the token program passed with
-- neither a mint nor a freeze authority, and on Token-2022 without extensions but a metadata pointer
-- and token metadata.
pub mint_decimals-exact :
    (pf : Platform) (w : World) (mint : AccountInfo) (token_program : Pubkey) (d : ℕ)
    → (mint_decimals pf w mint token_program ≡ ok d) ↔ IsFixedSupply pf w token_program mint.key d
mint_decimals-exact pf w mint token_program d = (
  mint_decimals-IsFixedSupply pf w mint token_program d,
  IsFixedSupply-mint_decimals pf w mint token_program d,
)
