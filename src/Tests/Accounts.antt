-- ===== src/Tests/Accounts.antt =====
-- The accounts of an arena with two positions on the platform of Chain.
use arena_contract_sol.Prelude.{
  ℕ, ◌+◌, ◌<◌, ◌≡◌, ◌||◌, Bool, true, false, List, [], ◌∷◌, ◌==◌, if◌then◌else◌, refl, sym, ◌∙◌,
  arith,
}
use arena_contract_sol.Prelude.Int.{ℤ}
use arena_contract_sol.Result.{Result, ok, err}
use arena_contract_sol.Checked.{u64_limit}
use arena_contract_sol.State.{Pubkey, ArenaConfig, ArenaPosition}
use arena_contract_sol.Platform.{World, Cell, AccountInfo}
use arena_contract_sol.Arena.{Arena}
use arena_contract_sol.Ledger.{Layout, IsDistinct, Holds, SupplyFits, Represents}
use arena_contract_sol.Tests.Chain.{chain, Holds-Balance, Balance-Holds}
use arena_contract_sol.Tests.Encoding.{
  encoded, encode_config, encode_position, encode_config-ReadsBack, encode_position-ReadsBack,
}

abbrev pub cells : ArenaConfig → ArenaPosition → ArenaPosition → ℕ → ℕ → Pubkey → Cell
cells c p q vault pool k =
    if k == 21
    then record { lamports = 9; owner = 100; bytes = encoded (encode_config c) }
    else if k == 30
    then record { lamports = 9; owner = 100; bytes = encoded (encode_position p) }
    else if k == 31
    then record { lamports = 9; owner = 100; bytes = encoded (encode_position q) }
    else if k == 14
    then record { lamports = 9; owner = 13; bytes = 16 ∷ vault ∷ [] }
    else if k == 15
    then record { lamports = 9; owner = 13; bytes = 16 ∷ pool ∷ [] }
    else if k == 40
    then record { lamports = 9; owner = 13; bytes = 22 ∷ 500 ∷ [] }
    else if k == 41
    then record { lamports = 9; owner = 13; bytes = 24 ∷ 500 ∷ [] }
    else if k == 12
    then record { lamports = 9; owner = 13; bytes = [] }
    else record { lamports = 900; owner = 1; bytes = [] }

abbrev pub chain_world : ArenaConfig → ArenaPosition → ArenaPosition → ℕ → ℕ → ℤ → World
chain_world c p q vault pool now = record { cell = cells c p q vault pool; now = now }

abbrev pub chain_layout : Layout
chain_layout = record {
  config = 21;
  vault = 14;
  pool = 15;
  mint = 12;
  token_program = 13;
  authority = 16;
  positions = 30 ∷ 31 ∷ [];
}

pub chain_layout-IsDistinct : IsDistinct 100 chain_layout
chain_layout-IsDistinct = record { keys = ground arith; mint = ground arith; programs = refl }

abbrev pub held_arena : ArenaConfig → ArenaPosition → ArenaPosition → ℕ → ℕ → Arena
held_arena c p q vault pool = record {
  config = c;
  vault = vault;
  pool = pool;
  positions = p ∷ q ∷ [];
}

pub chain_world-Represents :
    (c : ArenaConfig) (p q : ArenaPosition) (vault pool : ℕ) (now : ℤ)
    → c.vault_token_account ≡ 14
    → c.reward_pool_token_account ≡ 15
    → c.mint ≡ 12
    → c.token_program ≡ 13
    → Represents chain 100 chain_layout
        (chain_world c p q vault pool now)
        (held_arena c p q vault pool)
unfolding encode_config encode_position
chain_world-Represents c p q vault pool now v r m t =
    let w = chain_world c p q vault pool now in
    record {
      config = encode_config-ReadsBack c (encoded (encode_config c)) [] refl;
      config_owner = refl;
      vault =
          Balance-Holds w 13 14 16 vault
            (record { its_program = refl; is_token = refl; rest = []; bytes = refl });
      pool =
          Balance-Holds w 13 15 16 pool
            (record { its_program = refl; is_token = refl; rest = []; bytes = refl });
      positions = (
        (encode_position-ReadsBack p (encoded (encode_position p)) [] refl, refl),
        ((encode_position-ReadsBack q (encoded (encode_position q)) [] refl, refl), tt),
      );
      vault_key = v;
      pool_key = r;
      mint_key = m;
      program_key = t;
    }

pub balance_is :
    (w : World) (token_program k owner owner' b n : ℕ) (rest : List ℕ)
    → Holds chain w token_program k owner b
    → (w.cell k).bytes ≡ owner' ∷ n ∷ rest
    → b ≡ n
balance_is w token_program k owner owner' b n rest held is =
    let bal = Holds-Balance w token_program k owner b held in
    let same : owner ∷ b ∷ bal.rest ≡ owner' ∷ n ∷ rest = sym bal.bytes ∙ is in ground (arith, same)

-- The supply of the token of a layout fits where the three accounts show its balances.
pub balances_fit :
    (l : Layout) (w : World) (k owner owner' n vault pool : ℕ) (rest : List ℕ)
    → (w.cell k).bytes ≡ owner' ∷ n ∷ rest
    → (w.cell l.vault).bytes ≡ l.authority ∷ vault ∷ []
    → (w.cell l.pool).bytes ≡ l.authority ∷ pool ∷ []
    → n + vault + pool < u64_limit
    → SupplyFits chain l w k owner
balances_fit l w k owner owner' n vault pool rest is in_vault in_pool small =
    λ b v r held vaults pools.
      let b_is = balance_is w l.token_program k owner owner' b n rest held is in
      let v_is =
        balance_is w l.token_program l.vault l.authority l.authority v vault [] vaults in_vault in
      let r_is =
        balance_is w l.token_program l.pool l.authority l.authority r pool [] pools in_pool in
      rw (b_is, v_is, r_is) small

abbrev pub account : Pubkey → AccountInfo
account k = record { key = k; is_signer = k == 22 || k == 24 || k == 11; is_writable = true }

abbrev pub after : World → Result World → World
after w (ok w') = w'
after w (err e) = w

abbrev pub is_ok : Result World → Bool
is_ok (ok w) = true
is_ok (err e) = false

pub after-ok : (w : World) (r : Result World) → is_ok r ≡ true → r ≡ ok (after w r)
after-ok w (ok w') h = refl
after-ok w (err e) h = cc
