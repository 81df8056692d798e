-- ===== src/Ledger/Outside.antt =====
-- processor.rs, `assert_token_account`: the token accounts of users, apart from the arena's accounts.
use arena_contract_sol.Prelude.{
  ℕ, ◌≡◌, not, false, some, List, [], ◌∷◌, ◌==◌, arith, sym, ap, ◌∙◌, Bool-cases, inl, inr, ==_iff,
}
use arena_contract_sol.Result.{
  ok, fail_if, >>=-elim, invalid_token_mint, invalid_token_account, ok-injective,
}
use arena_contract_sol.State.{Pubkey, ArenaPosition}
use arena_contract_sol.Platform.{Platform, World, AccountInfo}
use arena_contract_sol.Tokens.{TokenAccountView, unpack_token_account, assert_token_account}
use arena_contract_sol.Arena.{Arena}
use arena_contract_sol.Ledger.{Layout, Avoids, plain, Holds, HoldsPositions, Represents}
use arena_contract_sol.Ledger.Steps.{IsOutside}

module _ (pf : Platform) (w : World) where
  -- A token account that is the owner's: its cell belongs to the token program.
  pub record IsTokenAccountOf (token_program k owner : Pubkey) : Type 0 where
    pub view : TokenAccountView
    pub unpacks : unpack_token_account pf w token_program (plain k) ≡ ok view
    pub its_owner : view.owner ≡ owner

  pub assert_token_account-ok :
      (token_program a : AccountInfo) (mint owner : Pubkey) {u : Unit {0}}
      → assert_token_account pf w token_program a mint (some owner) ≡ ok u
      → IsTokenAccountOf token_program.key a.key owner
  unfolding assert_token_account unpack_token_account
  assert_token_account-ok token_program a mint owner e =
      >>=-elim (unpack_token_account pf w token_program.key a) _ e λ v is e.
        >>=-elim (fail_if (not (v.mint == mint)) invalid_token_mint) _ e
          λ _ _ e. record { view = v; unpacks = is; its_owner = ground arith }

  -- A token account belongs to its token program.
  pub cell_owner :
      (token_program k : Pubkey) {v : TokenAccountView}
      → unpack_token_account pf w token_program (plain k) ≡ ok v
      → (w.cell k).owner ≡ token_program
  unfolding unpack_token_account
  cell_owner token_program k e =
      >>=-elim (fail_if (not ((w.cell k).owner == token_program)) invalid_token_account) _ e
        λ _ same _. ground arith

  -- Two accounts of different owners have different keys.
  other_owner :
      (token_program x k owner owner' : Pubkey) (b : ℕ)
      → IsTokenAccountOf token_program x owner
      → Holds pf w token_program k owner' b
      → (owner == owner') ≡ false
      → (k == x) ≡ false
  other_owner token_program x k owner owner' b t (v, is, its_owner, _) far =
      elim (Bool-cases (k == x)) [
        | inr apart ↦ apart
        | inl same ↦
            let one : k ≡ x = (==_iff k x).0 same in
            let views : ok t.view ≡ ok v =
              sym t.unpacks
              ∙ sym (ap (λ y. unpack_token_account pf w token_program (plain y)) one)
              ∙ is in
            let owners : owner ≡ owner' =
              sym t.its_owner ∙ ap (λ u. u.owner) (ok-injective _ _ views) ∙ its_owner in
            ground (arith, owners, far)
      ]

  other_program :
      (token_program program_id x k owner : Pubkey)
      → IsTokenAccountOf token_program x owner
      → (w.cell k).owner ≡ program_id
      → (program_id == token_program) ≡ false
      → (k == x) ≡ false
  other_program token_program program_id x k owner t own far = elim (Bool-cases (k == x)) [
    | inr apart ↦ apart
    | inl same ↦
        let one : k ≡ x = (==_iff k x).0 same in
        let programs : program_id ≡ token_program =
          sym own ∙ ap (λ y. (w.cell y).owner) one ∙ cell_owner token_program x t.unpacks in
        ground (arith, programs, far)
  ]

  other_positions :
      (program_id token_program x owner : Pubkey) (keys : List Pubkey) (ps : List ArenaPosition)
      → IsTokenAccountOf token_program x owner
      → (program_id == token_program) ≡ false
      → HoldsPositions pf program_id w keys ps
      → Avoids x keys
  other_positions program_id token_program x owner [] ps t far h = tt
  other_positions program_id token_program x owner (k ∷ keys) [] t far h = elim h [ ]
  other_positions program_id token_program x owner (k ∷ keys) (p ∷ ps) t far h = (
    other_program token_program program_id x k owner t h.0.1 far,
    other_positions program_id token_program x owner keys ps t far h.1,
  )

  -- The token account of anyone but the arena's authority is none of the arena's accounts.
  pub token_account-IsOutside :
      (program_id : Pubkey) (l : Layout) (a : Arena) (x owner : Pubkey)
      → Represents pf program_id l w a
      → (program_id == l.token_program) ≡ false
      → (owner == l.authority) ≡ false
      → IsTokenAccountOf l.token_program x owner
      → IsOutside l x
  token_account-IsOutside program_id l a x owner h programs other t = (
    other_program l.token_program program_id x l.config owner t h.config_owner programs,
    (
      other_owner l.token_program x l.vault owner l.authority a.vault t h.vault other,
      (
        other_owner l.token_program x l.pool owner l.authority a.pool t h.pool other,
        other_positions program_id l.token_program x owner l.positions a.positions t programs
            h.positions,
      ),
    ),
  )
