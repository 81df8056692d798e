-- ===== src/Ledger/Creation.antt =====
-- create_program_account, and what it leaves of the accounts of an arena.
use arena_contract_sol.Prelude.{
  ℕ, ◌≡◌, false, List, [], ◌∷◌, ◌==◌, ltb, All, replicate, refl, sym, ap, subst, ◌∙◌, arith,
  Bool-cases, ==_iff, inl, inr, if◌then◌else◌,
}
use arena_contract_sol.Result.{ok, ok_or, ◌>>=◌, >>=-elim, ok-injective, math_overflow}
use arena_contract_sol.Checked.{checked_sub}
use arena_contract_sol.State.{Pubkey, ArenaPosition}
use arena_contract_sol.Platform.{Platform, World, AccountInfo, Seed, system_transfer, allocate}
use arena_contract_sol.Accounts.{create_program_account}
use arena_contract_sol.Arena.{Arena}
use arena_contract_sol.Ledger.{
  Layout, Avoids, state_keys, IsSystemProgram, HoldsPositions, Represents,
}
use arena_contract_sol.Ledger.Moves.{Holds-frame, HoldsPositions-frame}
use arena_contract_sol.Ledger.Outside.{cell_owner}

-- The account that was made, and the accounts of other programs, which were not touched.
pub record Created (pf : Platform) (program_id : Pubkey) (x : Pubkey) (space : ℕ) (w w' : World)
    : Type 0 where
  pub fresh : (w.cell x).owner ≡ pf.system_program_id
  pub blank : (w'.cell x).bytes ≡ replicate space 0
  pub owned : (w'.cell x).owner ≡ program_id
  pub others :
      (k : Pubkey) → ((w.cell k).owner == pf.system_program_id) ≡ false → w'.cell k ≡ w.cell k
  pub clock : w'.now ≡ w.now

-- An account with another owner has another key.
pub differs :
    (pf : Platform) (w : World) (k x : Pubkey)
    → (w.cell x).owner ≡ pf.system_program_id
    → ((w.cell k).owner == pf.system_program_id) ≡ false
    → (k == x) ≡ false
differs pf w k x own far = elim (Bool-cases (k == x)) [
  | inr apart ↦ apart
  | inl same ↦
      let here : (w.cell k).owner ≡ pf.system_program_id =
        ap (λ y. (w.cell y).owner) ((==_iff k x).0 same) ∙ own in
      ground (arith, here, far)
]

-- What the top-up of the account's lamports leaves.
record ToppedUp (pf : Platform) (x : Pubkey) (w w' : World) : Type 0 where
  target : (w'.cell x).owner ≡ (w.cell x).owner
  others :
      (k : Pubkey)
      → (k == x) ≡ false
      → ((w.cell k).owner == pf.system_program_id) ≡ false
      → w'.cell k ≡ w.cell k
  clock : w'.now ≡ w.now

module _ (pf : Platform) (system : IsSystemProgram pf) where
  transfer-ToppedUp :
      (payer x : Pubkey) (n : ℕ) (w w' : World)
      → pf.invoke (system_transfer payer x n) w ≡ ok w'
      → ToppedUp pf x w w'
  transfer-ToppedUp payer x n w w' e =
      let (pays, target, others, clock) = system.transfer payer x n w w' e in
      record {
        target = target;
        others = λ k far own. others k (differs pf w k payer pays own) far;
        clock = clock;
      }

  pub create_program_account-Created :
      (w w' : World) (payer account : AccountInfo) (program_id : Pubkey) (space : ℕ)
      (seeds : List Seed)
      → create_program_account pf w payer account program_id space seeds ≡ ok w'
      → Created pf program_id account.key space w w'
  unfolding create_program_account
  create_program_account-Created w w' payer account program_id space seeds e =
      >>=-elim
        (if ltb (w.cell account.key).lamports (pf.minimum_balance space)
          then (ok_or (checked_sub (pf.minimum_balance space) (w.cell account.key).lamports)
                math_overflow
              >>= λ top_up. pf.invoke (system_transfer payer.key account.key top_up) w)
          else ok w)
        _ e
        λ w₁ topped e.
          >>=-elim (pf.invoke (allocate account.key space seeds) w₁) _ e λ w₂ allocated assigned.
            let up = top_up w₁ topped in
            let (own, blank, others, clock) =
              system.allocate_space account.key space seeds w₁ w₂ allocated in
            let (owned, kept, others', clock') =
              system.assign_owner account.key program_id seeds w₂ w' assigned in
            let fresh : (w.cell account.key).owner ≡ pf.system_program_id = sym up.target ∙ own in
            record {
              fresh = fresh;
              blank = kept ∙ blank;
              owned = owned;
              others = λ k far.
                  let apart = differs pf w k account.key fresh far in
                  others' k apart ∙ others k apart ∙ up.others k apart far;
              clock = clock' ∙ clock ∙ up.clock;
            }
    where
      top_up :
          (w₁ : World)
          → (if ltb (w.cell account.key).lamports (pf.minimum_balance space)
              then (ok_or
                    (checked_sub (pf.minimum_balance space) (w.cell account.key).lamports)
                    math_overflow
                  >>= λ top_up. pf.invoke (system_transfer payer.key account.key top_up) w)
              else ok w)
            ≡ ok w₁
          → ToppedUp pf account.key w w₁
      top_up w₁ e =
          elim (Bool-cases (ltb (w.cell account.key).lamports (pf.minimum_balance space))) [
            | inl less ↦
                >>=-elim
                  (ok_or (checked_sub (pf.minimum_balance space) (w.cell account.key).lamports)
                    math_overflow)
                  _ (rw less at e) λ n _ sent. transfer-ToppedUp payer.key account.key n w w₁ sent
            | inr enough ↦
                subst (ToppedUp pf account.key w) (ok-injective _ _ (rw enough at e))
                  (record { target = refl; others = λ _ _ _. refl; clock = refl })
          ]

module _ (pf : Platform) (program_id : Pubkey) (l : Layout) (w w' : World) (a : Arena)
    (h : Represents pf program_id l w a) (x : Pubkey) (space : ℕ)
    (made : Created pf program_id x space w w')
    (own_program : (program_id == pf.system_program_id) ≡ false)
    (token_program : (l.token_program == pf.system_program_id) ≡ false) where
  vault_owner : ((w.cell l.vault).owner == pf.system_program_id) ≡ false
  vault_owner =
      let (v, is, _, _) = h.vault in rw (cell_owner pf w l.token_program l.vault is) token_program

  pool_owner : ((w.cell l.pool).owner == pf.system_program_id) ≡ false
  pool_owner =
      let (v, is, _, _) = h.pool in rw (cell_owner pf w l.token_program l.pool is) token_program

  positions_same :
      (keys : List Pubkey) (ps : List ArenaPosition)
      → HoldsPositions pf program_id w keys ps
      → All (λ k. w'.cell k ≡ w.cell k) keys × Avoids x keys
  positions_same [] ps k = (tt, tt)
  positions_same (y ∷ keys) [] k = elim k [ ]
  positions_same (y ∷ keys) (p ∷ ps) k =
      let far : ((w.cell y).owner == pf.system_program_id) ≡ false = rw (k.0.1) own_program in
      let (same, apart) = positions_same keys ps k.1 in
      ((made.others y far, same), (differs pf w y x made.fresh far, apart))

  config_far : ((w.cell l.config).owner == pf.system_program_id) ≡ false
  config_far = rw h.config_owner own_program

  -- A new account is none of the arena's, and making it leaves the arena as it is.
  pub created-Represents : Represents pf program_id l w' a
  created-Represents = record {
    config = rw (made.others l.config config_far) h.config;
    config_owner = rw (made.others l.config config_far) h.config_owner;
    vault =
        Holds-frame pf program_id w w' l.token_program l.vault l.authority a.vault
          (made.others l.vault vault_owner) h.vault;
    pool =
        Holds-frame pf program_id w w' l.token_program l.pool l.authority a.pool
          (made.others l.pool pool_owner) h.pool;
    positions =
        HoldsPositions-frame pf program_id w w' l.positions a.positions
          (positions_same l.positions a.positions h.positions).0 h.positions;
    vault_key = h.vault_key;
    pool_key = h.pool_key;
    mint_key = h.mint_key;
    program_key = h.program_key;
  }

  pub created-Avoids : Avoids x (state_keys l)
  created-Avoids = (
    differs pf w l.config x made.fresh config_far,
    (
      differs pf w l.vault x made.fresh vault_owner,
      (
        differs pf w l.pool x made.fresh pool_owner,
        (positions_same l.positions a.positions h.positions).1,
      ),
    ),
  )
