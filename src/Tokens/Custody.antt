-- ===== src/Tokens/Custody.antt =====
-- processor.rs: which accounts `assert_custody_token_account` accepts.
use arena_contract_sol.Prelude.{
  ◌≡◌, ◌↔◌, ◌⊎◌, inl, inr, false, not, ◌||◌, none, some, List, ◌==◌, All, arith, Bool-cases, ==_iff,
  refl,
}
use arena_contract_sol.Result.{
  ok, ok-injective, ok_or, ok_or-eq-ok, fail_if, fail_if-eq-ok, >>=-elim, invalid_token_account,
  invalid_token_mint,
}
use arena_contract_sol.State.{Pubkey}
use arena_contract_sol.Platform.{
  Platform, World, AccountInfo, TokenAccount, initialized, ExtensionType, immutable_owner,
}
use arena_contract_sol.Accounts.{owner_of, data_of}
use arena_contract_sol.Tokens.{
  TokenAccountView, view_of, unpack_token_account, assert_custody_token_account,
  assert_allowed_account_extensions,
}
use arena_contract_sol.Tokens.Extensions.{assert_allowed_account_extensions-exact}

-- A token account of one of the two token programs, with no extension but an owner that stays.
pub record IsTokenAccount (pf : Platform) (w : World) (token_program k : Pubkey) (t : TokenAccount)
    : Type 0 where
  pub program : (w.cell k).owner ≡ token_program
  pub decodes :
      ((token_program ≡ pf.spl_token_id) × (pf.unpack_account (w.cell k).bytes ≡ some t))
      ⊎ (((token_program == pf.spl_token_id) ≡ false)
          × (token_program ≡ pf.spl_token_2022_id)
          × (pf.unpack_account_2022 (w.cell k).bytes ≡ some t)
          × ((exts : List ExtensionType) × (pf.account_extensions (w.cell k).bytes ≡ some exts)
              × All (λ e. e ≡ immutable_owner) exts))

-- A token account of one of the two programs, of which nobody but its owner can move or close
-- anything.
pub record IsCustody (pf : Platform) (w : World) (token_program a : AccountInfo)
    (mint owner : Pubkey) : Type 0 where
  pub account : TokenAccount
  pub is_account : IsTokenAccount pf w token_program.key a.key account
  pub of_mint : account.mint ≡ mint
  pub of_owner : account.owner ≡ owner
  pub state : account.state ≡ initialized
  pub is_native : account.is_native ≡ none
  pub delegate : account.delegate ≡ none
  pub delegated_amount : account.delegated_amount ≡ 0
  pub close_authority : account.close_authority ≡ none

-- The last two tests on a custody account.
view-exact :
    (t : TokenAccount) (v : TokenAccountView) (mint owner : Pubkey)
    → view_of t ≡ v
    → ((not (v.mint == mint) ≡ false)
        × ((not (v.owner == owner)
              || not v.is_initialized
              || v.is_native
              || v.is_frozen
              || v.has_delegate
              || not (v.delegated_amount == 0)
              || v.has_close_authority)
            ≡ false))
      ↔ ((t.mint ≡ mint)
          × (t.owner ≡ owner)
          × (t.state ≡ initialized)
          × (t.is_native ≡ none)
          × (t.delegate ≡ none)
          × (t.delegated_amount ≡ 0)
          × (t.close_authority ≡ none))
view-exact t v mint owner seen = ground (arith, seen)

unpack_token_account-IsTokenAccount :
    (pf : Platform) (w : World) (token_program : Pubkey) (a : AccountInfo) (v : TokenAccountView)
    → unpack_token_account pf w token_program a ≡ ok v
    → (t : TokenAccount) × IsTokenAccount pf w token_program a.key t × (view_of t ≡ v)
unfolding unpack_token_account
unpack_token_account-IsTokenAccount pf w token_program a v e =
    >>=-elim (fail_if (not (owner_of w a == token_program)) invalid_token_account) _ e λ _ own e.
      let its : (w.cell a.key).owner ≡ token_program = ground (arith, own) in
      elim (Bool-cases (token_program == pf.spl_token_id)) [
        | inl is ↦
            >>=-elim (ok_or (pf.unpack_account (data_of w a)) invalid_token_account) _ (rw is at e)
              λ t un made. (
                t,
                record {
                  program = its;
                  decodes = inl ((==_iff token_program pf.spl_token_id).0 is, ok_or-eq-ok _ _ un);
                },
                ok-injective _ _ made,
              )
        | inr other ↦ elim (Bool-cases (token_program == pf.spl_token_2022_id)) [
          | inl is ↦
              >>=-elim (ok_or (pf.unpack_account_2022 (data_of w a)) invalid_token_account) _
                (rw (other, is) at e)
                λ t un e.
                  >>=-elim (ok_or (pf.account_extensions (data_of w a)) invalid_token_account) _ e
                    λ exts found e.
                      >>=-elim (assert_allowed_account_extensions exts) _ e λ _ allowed made. (
                        t,
                        record {
                          program = its;
                          decodes = inr (
                            other,
                            (==_iff token_program pf.spl_token_2022_id).0 is,
                            ok_or-eq-ok _ _ un,
                            (
                              exts,
                              ok_or-eq-ok _ _ found,
                              (assert_allowed_account_extensions-exact exts).0 allowed,
                            ),
                          );
                        },
                        ok-injective _ _ made,
                      )
          | inr neither ↦ cc (other, neither, e)
        ]
      ]

IsTokenAccount-unpack_token_account :
    (pf : Platform) (w : World) (token_program : Pubkey) (a : AccountInfo) (t : TokenAccount)
    → IsTokenAccount pf w token_program a.key t
    → unpack_token_account pf w token_program a ≡ ok (view_of t)
unfolding unpack_token_account
IsTokenAccount-unpack_token_account pf w token_program a t h = elim h.decodes [
  | inl (is, un) ↦ ground (arith, h.program, is, un)
  | inr (other, is, un, (exts, found, allowed)) ↦ ground (
    arith,
    h.program,
    other,
    is,
    un,
    found,
    (assert_allowed_account_extensions-exact exts).1 allowed,
  )
]

-- A custody account is accepted exactly when it is a token account of the token program passed, of
-- the mint and the owner, initialized and neither frozen nor native, without a delegate, delegated
-- units or a close authority, and on Token-2022 without extensions but an immutable owner.
pub assert_custody_token_account-exact :
    (pf : Platform) (w : World) (token_program a : AccountInfo) (mint owner : Pubkey)
    → (assert_custody_token_account pf w token_program a mint owner ≡ ok tt)
      ↔ IsCustody pf w token_program a mint owner
unfolding assert_custody_token_account
assert_custody_token_account-exact pf w token_program a mint owner = (
  λ e. >>=-elim (unpack_token_account pf w token_program.key a) _ e λ v unpacked e.
      >>=-elim (fail_if (not (v.mint == mint)) invalid_token_mint) _ e λ _ minted e.
        let (t, is, seen) =
          unpack_token_account-IsTokenAccount pf w token_program.key a v unpacked in
        let minted' = fail_if-eq-ok (not (v.mint == mint)) invalid_token_mint minted in
        let good = fail_if-eq-ok _ _ e in
        let (m, o, s, n, d, da, ca) = (view-exact t v mint owner seen).0 (minted', good) in
        record {
          account = t;
          is_account = is;
          of_mint = m;
          of_owner = o;
          state = s;
          is_native = n;
          delegate = d;
          delegated_amount = da;
          close_authority = ca;
        },
  λ h.
      let t = h.account in
      let (minted, good) = (view-exact t (view_of t) mint owner refl).1 (
        h.of_mint, h.of_owner, h.state, h.is_native, h.delegate, h.delegated_amount,
        h.close_authority,
      ) in
      rw (IsTokenAccount-unpack_token_account pf w token_program.key a t h.is_account, minted, good)
        refl,
)
