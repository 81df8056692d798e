-- ===== src/Ledger/Safety.antt =====
-- What holds of the accounts in every world that transactions on an arena reach.
use arena_contract_sol.Prelude.{
  ℕ, ◌+◌, ◌≤◌, ◌<◌, ◌≡◌, false, none, some, List, [], ◌∷◌, ◌++◌, ◌==◌, All-append, arith, length,
}
use arena_contract_sol.Result.{Result, ok}
use arena_contract_sol.Checked.{u64_limit}
use arena_contract_sol.State.{Pubkey}
use arena_contract_sol.Platform.{Platform, World}
use arena_contract_sol.Accounts.{position_pda}
use arena_contract_sol.Accounts.RoundTrip.{ReadsBack}
use arena_contract_sol.Processor.{dispatch}
use arena_contract_sol.Arena.{
  Arena, open_position, deposit_at, activate_at, roll, fund, claim_at, withdraw_at, finalize,
}
use arena_contract_sol.Arena.Frame.{IsConsistent}
use arena_contract_sol.Arena.History.{open_position-IsConsistent}
use arena_contract_sol.Arena.Deposits.{deposit_at-IsConsistent}
use arena_contract_sol.Arena.Activations.{activate_at-IsConsistent}
use arena_contract_sol.Arena.Earnings.{claim_at-IsConsistent, fund-IsConsistent, roll-IsConsistent}
use arena_contract_sol.Arena.Finalization.{finalize-IsConsistent}
use arena_contract_sol.Arena.Withdrawals.{withdraw_at-IsConsistent}
use arena_contract_sol.Ledger.{
  Layout, Avoids, Distinct, state_keys, IsDistinct, IsTokenProgram, IsSystemProgram,
}
use arena_contract_sol.Ledger.Moves.{==_flip, HoldsPositions-frame}
use arena_contract_sol.Ledger.Loads.{Refined}
use arena_contract_sol.Ledger.Epochs.{process_roll_epoch-Refined, process_activate_position-Refined}
use arena_contract_sol.Ledger.Fundings.{process_fund_rewards-refines}
use arena_contract_sol.Ledger.Claims.{process_claim_rewards-refines}
use arena_contract_sol.Ledger.Finals.{process_finalize_rewards-refines}
use arena_contract_sol.Ledger.Exits.{process_withdraw-refines}
use arena_contract_sol.Ledger.Deposits.{process_deposit-refines}
use arena_contract_sol.Ledger.Openings.{with_position, process_deposit-opens, opened-Avoids}
use arena_contract_sol.Ledger.Initial.{Established}
use arena_contract_sol.Ledger.Reach.{
  Elsewhere, Step, Reach, here, next, elsewhere, deposits, opens, activates, funds, funds_checked,
  rolls, finalizes, claims, withdraws,
}

Distinct-append :
    (keys : List Pubkey) (x : Pubkey) → Distinct keys → Avoids x keys → Distinct (keys ++ x ∷ [])
Distinct-append [] x d apart = (tt, tt)
Distinct-append (k ∷ keys) x d apart = (
  All-append (λ y. (y == k) ≡ false) keys (x ∷ []) d.0 (==_flip k x apart.0, tt),
  Distinct-append keys x d.1 apart.1,
)

with_position-IsDistinct :
    (program_id : Pubkey) (l : Layout) (x : Pubkey)
    → IsDistinct program_id l
    → Avoids x (state_keys l)
    → (x == l.mint) ≡ false
    → IsDistinct program_id (with_position l x)
with_position-IsDistinct program_id l x d apart mint = record {
  keys = Distinct-append (state_keys l) x d.keys apart;
  mint = All-append (λ y. (y == l.mint) ≡ false) (state_keys l) (x ∷ []) d.mint (mint, tt);
  programs = d.programs;
}

-- More tokens in custody leave an arena consistent.
richer-IsConsistent :
    (a : Arena) (v p : ℕ)
    → IsConsistent a
    → a.vault ≤ v
    → a.pool ≤ p
    → v + p < u64_limit
    → IsConsistent (record a { vault = v; pool = p })
richer-IsConsistent a v p h hv hp fits = record {
  config = h.config;
  sound = h.sound;
  totals = h.totals;
  custody = omega (arith, h.custody);
  supply = fits;
  solvent = omega (arith, h.solvent);
}

module _ (pf : Platform) (program_id : Pubkey) where
  Elsewhere-Established :
      (l : Layout) (w w' : World)
      → Elsewhere pf program_id l w w'
      → Established pf program_id l w
      → Established pf program_id l w'
  Elsewhere-Established l w w' e s =
      let a = s.arena in
      let h = s.holds in
      let (v, p, vault, pool, more_vault, more_pool, fits) =
        e.balances a.vault a.pool h.vault h.pool in
      record {
        arena = record a { vault = v; pool = p };
        holds = record {
          config = rw e.config h.config;
          config_owner = rw e.config h.config_owner;
          vault = vault;
          pool = pool;
          positions =
              HoldsPositions-frame pf program_id w w' l.positions a.positions e.positions
                h.positions;
          vault_key = h.vault_key;
          pool_key = h.pool_key;
          mint_key = h.mint_key;
          program_key = h.program_key;
        };
        consistent = richer-IsConsistent a v p s.consistent more_vault more_pool fits;
      }

  established :
      (l : Layout) (w' : World) (action : Result Arena)
      → Refined pf program_id l w' action
      → ((b : Arena) → action ≡ ok b → IsConsistent b)
      → Established pf program_id l w'
  established l w' action r keeps = record {
    arena = r.arena;
    holds = r.holds;
    consistent = keeps r.arena r.acted;
  }

  -- A layout whose accounts hold a consistent arena.
  pub record Secure (l : Layout) (w : World) : Type 0 where
    pub distinct : IsDistinct program_id l
    pub own_tokens : (l.token_program == pf.system_program_id) ≡ false
    pub state : Established pf program_id l w

  secured : (l : Layout) (w w' : World) → Secure l w → Established pf program_id l w' → Secure l w'
  secured l w w' s state = record {
    distinct = s.distinct;
    own_tokens = s.own_tokens;
    state = state;
  }

module _ (pf : Platform) (program_id : Pubkey) (laws : IsTokenProgram pf)
    (system : IsSystemProgram pf)
    (config_codec : ReadsBack pf.serialize_config pf.deserialize_config)
    (position_codec : ReadsBack pf.serialize_position pf.deserialize_position)
    (own_program : (program_id == pf.system_program_id) ≡ false) where
  pub Step-Secure :
      {l l' : Layout} {w w' : World}
      → Step pf program_id l w l' w'
      → Secure pf program_id l w
      → Secure pf program_id l' w'
  unfolding dispatch
  Step-Secure {l = l} {w = w} {w' = w'} (elsewhere e) s =
      secured pf program_id l w w' s (Elsewhere-Established pf program_id l w w' e s.state)
  Step-Secure {l = l} {w = w} {w' = w'}
        (deposits o ot c p v au m tp sp rest i amount its_config at written other supply e) s =
      secured pf program_id l w w' s (
        established pf program_id l w' (deposit_at w.now i amount s.state.arena)
          (process_deposit-refines pf program_id laws config_codec position_codec l s.distinct w w'
            s.state.arena s.state.holds o ot c p v au m tp sp rest i amount its_config at written
            other supply e)
          (λ b. deposit_at-IsConsistent w.now i amount s.state.arena b s.state.consistent))
  Step-Secure {l = l} {w = w} {w' = w'}
        (opens o ot c p v au m tp sp rest amount its_config empty mint other supply e) s =
      let a = s.state.arena in
      let bump = (position_pda pf program_id l.config o.key).1 in
      let apart =
        opened-Avoids pf program_id laws system config_codec position_codec l s.distinct w w' a
          s.state.holds o ot c p v au m tp sp rest amount empty own_program s.own_tokens e in
      record {
        distinct = with_position-IsDistinct program_id l p.key s.distinct apart mint;
        own_tokens = s.own_tokens;
        state =
            established pf program_id (with_position l p.key) w'
              (deposit_at w.now (length a.positions) amount
                (open_position l.config o.key w.now bump a))
              (process_deposit-opens pf program_id laws system config_codec position_codec l
                s.distinct w w' a s.state.holds o ot c p v au m tp sp rest amount its_config empty
                own_program s.own_tokens other supply e)
              (λ b.
                deposit_at-IsConsistent w.now (length a.positions) amount
                  (open_position l.config o.key w.now bump a) b
                  (open_position-IsConsistent l.config o.key w.now bump a s.state.consistent));
      }
  Step-Secure {l = l} {w = w} {w' = w'} (activates o c p po au m tp rest i its_config at e) s =
      secured pf program_id l w w' s (
        established pf program_id l w' (activate_at w.now i s.state.arena)
          (process_activate_position-Refined pf program_id config_codec position_codec l s.distinct
            w w' s.state.arena s.state.holds o c p po au m tp rest i its_config at e)
          (λ b. activate_at-IsConsistent w.now i s.state.arena b s.state.consistent))
  Step-Secure {l = l} {w = w} {w' = w'} (funds f ft c po m tp rest amount its_config other supply e)
        s =
      secured pf program_id l w w' s (
        established pf program_id l w' (fund amount none s.state.arena)
          (process_fund_rewards-refines pf program_id laws config_codec position_codec l s.distinct
            w w' s.state.arena s.state.holds f ft c po m tp rest amount none its_config other supply
            e)
          (λ b. fund-IsConsistent amount none s.state.arena b s.state.consistent))
  Step-Secure {l = l} {w = w} {w' = w'}
        (funds_checked f ft c po m tp rest amount expected latest its_config other supply e) s =
      secured pf program_id l w w' s (
        established pf program_id l w' (fund amount (some (expected, latest)) s.state.arena)
          (process_fund_rewards-refines pf program_id laws config_codec position_codec l s.distinct
            w w' s.state.arena s.state.holds f ft c po m tp rest amount (some (expected, latest))
            its_config other supply e)
          (λ b.
            fund-IsConsistent amount (some (expected, latest)) s.state.arena b s.state.consistent))
  Step-Secure {l = l} {w = w} {w' = w'} (rolls c po au m tp rest its_config e) s =
      secured pf program_id l w w' s (
        established pf program_id l w' (roll w.now s.state.arena)
          (process_roll_epoch-Refined pf program_id config_codec position_codec l s.distinct w w'
            s.state.arena s.state.holds c po au m tp rest its_config e)
          (λ b. roll-IsConsistent w.now s.state.arena b s.state.consistent))
  Step-Secure {l = l} {w = w} {w' = w'} (finalizes c po au m tp rest its_config e) s =
      secured pf program_id l w w' s (
        established pf program_id l w' (finalize s.state.arena)
          (process_finalize_rewards-refines pf program_id laws config_codec position_codec l
            s.distinct w w' s.state.arena s.state.holds c po au m tp rest its_config e)
          (λ b. finalize-IsConsistent s.state.arena b s.state.consistent))
  Step-Secure {l = l} {w = w} {w' = w'} (claims o ot c p po au m tp rest i its_config at other e)
        s =
      secured pf program_id l w w' s (
        established pf program_id l w' (claim_at w.now i s.state.arena)
          (process_claim_rewards-refines pf program_id laws config_codec position_codec l s.distinct
            w w' s.state.arena s.state.holds o ot c p po au m tp rest i its_config at other e)
          (λ b. claim_at-IsConsistent w.now i s.state.arena b s.state.consistent))
  Step-Secure {l = l} {w = w} {w' = w'}
        (withdraws o ot c p v au po m tp rest i amount its_config at other e) s =
      secured pf program_id l w w' s (
        established pf program_id l w' (withdraw_at w.now i amount s.state.arena)
          (process_withdraw-refines pf program_id laws config_codec position_codec l s.distinct w w'
            s.state.arena s.state.holds o ot c p v au po m tp rest i amount its_config at other e)
          (λ b. withdraw_at-IsConsistent w.now i amount s.state.arena b s.state.consistent))

  -- Given token and system programs that do what they document, codecs that read back what they
  -- write, and an own program that is not the system program: from a world in which the accounts
  -- of a layout with distinct keys, under a token program other than the system program, hold a
  -- consistent arena, every world that transactions and outside changes reach is such a world for
  -- the layout reached, which has the positions opened on the way.
  pub Reach-Secure :
      {l : Layout} {w : World} {l' : Layout} {w' : World}
      → Reach pf program_id l w l' w'
      → Secure pf program_id l w
      → Secure pf program_id l' w'
  Reach-Secure here s = s
  Reach-Secure (next r st) s = Step-Secure st (Reach-Secure r s)
