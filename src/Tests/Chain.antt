-- ===== src/Tests/Chain.antt =====
-- A platform whose token accounts keep an owner and a balance as their first two numbers, with
-- the laws of its token program and of its system program.
use arena_contract_sol.Prelude.{
  ℕ, ◌+◌, ◌-◌, ◌≤◌, ◌≡◌, false, Option, none, some, List, ◌∷◌, ◌==◌, if◌then◌else◌, ltb, replicate,
  refl, ap, subst, ◌∙◌, arith,
}
use arena_contract_sol.Result.{
  Result, ok, err, ok_or, ◌>>=◌, >>=-elim, ok_or-eq-ok, external, invalid_token_account,
  ok-injective,
}
use arena_contract_sol.State.{Pubkey}
use arena_contract_sol.Platform.{
  Platform, World, Cell, Seed, config_seed, position_seed, key_seed, TokenAccount, Mint,
  initialized, Cpi, system_transfer, allocate, assign, transfer_checked, burn_checked,
}
use arena_contract_sol.Tokens.{view_of, unpack_token_account}
use arena_contract_sol.Ledger.{IsTokenProgram, IsSystemProgram, Moved, Burned, Holds, plain}
use arena_contract_sol.Ledger.Moves.{==_flip}
use arena_contract_sol.Tests.Encoding.{sample_platform}
use arena_contract_sol.Tests.InstructionCodec.{encode_instruction, decode_instruction}

abbrev pub address_of : List Seed → Pubkey × ℕ
address_of (config_seed ∷ rest) = (21, 255)
address_of (position_seed ∷ key_seed config ∷ key_seed owner ∷ rest) = (owner + 8, 253)
address_of _ = (16, 254)

abbrev pub sample_token : Pubkey → ℕ → TokenAccount
sample_token owner amount = record {
  mint = 12;
  owner = owner;
  amount = amount;
  state = initialized;
  is_native = none;
  delegate = none;
  delegated_amount = 0;
  close_authority = none;
}

abbrev pub token_account_of : List ℕ → Option TokenAccount
token_account_of (owner ∷ amount ∷ rest) = some (sample_token owner amount)
token_account_of _ = none

abbrev pub debited_bytes : ℕ → List ℕ → Option (List ℕ)
debited_bytes n (owner ∷ amount ∷ rest) =
    if ltb amount n then none else some (owner ∷ (amount - n) ∷ rest)
debited_bytes n _ = none

abbrev pub credited_bytes : ℕ → List ℕ → Option (List ℕ)
credited_bytes n (owner ∷ amount ∷ rest) = some (owner ∷ (amount + n) ∷ rest)
credited_bytes n _ = none

abbrev pub with_cell : Pubkey → Cell → World → World
with_cell k c w = record w { cell = λ x. if x == k then c else w.cell x }

abbrev pub with_bytes : Pubkey → List ℕ → World → World
with_bytes k bytes w = with_cell k (record (w.cell k) { bytes = bytes }) w

abbrev pub sample_invoke : Cpi → World → Result World
sample_invoke (system_transfer source target lamports) w =
    if (w.cell source).owner == 1 then ok w else err (external 1)
sample_invoke (allocate account space seeds) w =
    if (w.cell account).owner == 1
    then ok (with_bytes account (replicate space 0) w)
    else err (external 2)
sample_invoke (assign account owner seeds) w =
    ok (with_cell account (record (w.cell account) { owner = owner }) w)
sample_invoke
      (transfer_checked token_program source mint destination authority amount decimals seeds) w =
    do
      less ← ok_or (debited_bytes amount (w.cell source).bytes) invalid_token_account
      more ← ok_or (credited_bytes amount (w.cell destination).bytes) invalid_token_account
      ok (with_bytes destination more (with_bytes source less w))
sample_invoke (burn_checked token_program account mint authority amount decimals seeds) w = do
  less ← ok_or (debited_bytes amount (w.cell account).bytes) invalid_token_account
  ok (with_bytes account less w)

abbrev pub sample_mint : List ℕ → Option Mint
sample_mint _ = some (record { mint_authority = none; freeze_authority = none; decimals = 6 })

abbrev pub chain : Platform
chain = record sample_platform {
  spl_token_id = 13;
  find_program_address = λ seeds _. address_of seeds;
  invoke = sample_invoke;
  unpack_account = token_account_of;
  unpack_mint = sample_mint;
  serialize_instruction = encode_instruction;
  deserialize_instruction = decode_instruction;
}

-- What a token account of this platform is.
pub record Balance (w : World) (token_program k owner : Pubkey) (b : ℕ) : Type 0 where
  pub its_program : (w.cell k).owner ≡ token_program
  pub is_token : token_program ≡ 13
  pub rest : List ℕ
  pub bytes : (w.cell k).bytes ≡ owner ∷ b ∷ rest

pub Holds-Balance :
    (w : World) (token_program k owner : Pubkey) (b : ℕ)
    → Holds chain w token_program k owner b
    → Balance w token_program k owner b
unfolding unpack_token_account
Holds-Balance w token_program k owner b (v, is, its_owner, amount) = from_cell (w.cell k) refl is
  where
    from_cell :
        (c : Cell)
        → w.cell k ≡ c
        → unpack_token_account chain (record w { cell = λ _. c }) token_program (plain k) ≡ ok v
        → Balance w token_program k owner b
    from_cell c same e = ground arith

pub Balance-Holds :
    (w : World) (token_program k owner : Pubkey) (b : ℕ)
    → Balance w token_program k owner b
    → Holds chain w token_program k owner b
unfolding unpack_token_account
Balance-Holds w token_program k owner b h =
    (view_of (sample_token owner b), ground (arith, h.its_program, h.is_token, h.bytes), refl, refl)

-- The cells after a change of one account.
changed_here : (k : Pubkey) (c : Cell) (w : World) → (with_cell k c w).cell k ≡ c
changed_here k c w = ground arith

unchanged_there :
    (k x : Pubkey) (c : Cell) (w : World) → (x == k) ≡ false → (with_cell k c w).cell x ≡ w.cell x
unchanged_there k x c w far = rw far

debited-ok :
    (n : ℕ) (bytes less : List ℕ) (owner b : ℕ) (rest : List ℕ)
    → bytes ≡ owner ∷ b ∷ rest
    → debited_bytes n bytes ≡ some less
    → (n ≤ b) × (less ≡ owner ∷ (b - n) ∷ rest)
debited-ok n bytes less owner b rest is e = ground arith

credited-ok :
    (n : ℕ) (bytes more : List ℕ) (owner b : ℕ) (rest : List ℕ)
    → bytes ≡ owner ∷ b ∷ rest
    → credited_bytes n bytes ≡ some more
    → more ≡ owner ∷ (b + n) ∷ rest
credited-ok n bytes more owner b rest is e = ground arith

-- An account with new bytes holds the new balance.
rebalanced :
    (w w' : World) (token_program k owner : Pubkey) (b b' : ℕ) (bytes : List ℕ)
    → (bal : Balance w token_program k owner b) → w'.cell k ≡ record (w.cell k) { bytes = bytes }
    → bytes ≡ owner ∷ b' ∷ bal.rest
    → Holds chain w' token_program k owner b'
rebalanced w w' token_program k owner b b' bytes bal cell is =
    Balance-Holds w' token_program k owner b' (record {
      its_program = ap (λ c. c.owner) cell ∙ bal.its_program;
      is_token = bal.is_token;
      rest = bal.rest;
      bytes = ap (λ c. c.bytes) cell ∙ is;
    })

sent-Moved :
    (token_program source destination : Pubkey) (n : ℕ) (w : World) (less more : List ℕ)
    → (source == destination) ≡ false
    → debited_bytes n (w.cell source).bytes ≡ some less
    → credited_bytes n (w.cell destination).bytes ≡ some more
    → Moved chain token_program source destination n w
        (with_bytes destination more (with_bytes source less w))
sent-Moved token_program source destination n w less more apart d c =
    let w₁ = with_bytes source less w in
    let w₂ = with_bytes destination more w₁ in
    let at_source : w₂.cell source ≡ record (w.cell source) { bytes = less } =
      unchanged_there destination source _ w₁ apart ∙ changed_here source _ w in
    let before : w₁.cell destination ≡ w.cell destination =
      unchanged_there source destination _ w (==_flip source destination apart) in
    let at_destination : w₂.cell destination ≡ record (w.cell destination) { bytes = more } =
      changed_here destination _ w₁ ∙ ap (λ (x : Cell). record x { bytes = more }) before in
    record {
      debited = λ owner b held.
          let bal = Holds-Balance w token_program source owner b held in
          let (enough, is) = debited-ok n (w.cell source).bytes less owner b bal.rest bal.bytes d in
          (enough, rebalanced w w₂ token_program source owner b (b - n) less bal at_source is);
      credited = λ owner b held.
          let bal = Holds-Balance w token_program destination owner b held in
          rebalanced w w₂ token_program destination owner b (b + n) more bal at_destination
            (credited-ok n (w.cell destination).bytes more owner b bal.rest bal.bytes c);
      others =
          λ k far far'. unchanged_there destination k _ w₁ far' ∙ unchanged_there source k _ w far;
      clock = refl;
    }

burnt-Burned :
    (token_program account mint : Pubkey) (n : ℕ) (w : World) (less : List ℕ)
    → debited_bytes n (w.cell account).bytes ≡ some less
    → Burned chain token_program account mint n w (with_bytes account less w)
burnt-Burned token_program account mint n w less d = record {
  debited = λ owner b held.
      let bal = Holds-Balance w token_program account owner b held in
      let (enough, is) = debited-ok n (w.cell account).bytes less owner b bal.rest bal.bytes d in
      (
        enough,
        rebalanced w (with_bytes account less w) token_program account owner b (b - n) less bal
            (changed_here account _ w) is,
      );
  others = λ k far _. unchanged_there account k _ w far;
  clock = refl;
}

pub chain-IsTokenProgram : IsTokenProgram chain
chain-IsTokenProgram = record {
  transfer = λ token_program source mint destination authority amount decimals seeds w w' apart e.
      >>=-elim (ok_or (debited_bytes amount (w.cell source).bytes) invalid_token_account) _ e
        λ less d e.
          >>=-elim (ok_or (credited_bytes amount (w.cell destination).bytes) invalid_token_account)
            _ e
            λ more c done.
              subst (Moved chain token_program source destination amount w) (ok-injective _ _ done)
                (sent-Moved token_program source destination amount w less more apart
                  (ok_or-eq-ok _ _ d) (ok_or-eq-ok _ _ c));
  burn = λ token_program account mint authority amount decimals seeds w w' apart e.
      >>=-elim (ok_or (debited_bytes amount (w.cell account).bytes) invalid_token_account) _ e
        λ less d done.
          subst (Burned chain token_program account mint amount w) (ok-injective _ _ done)
            (burnt-Burned token_program account mint amount w less (ok_or-eq-ok _ _ d));
}

pub chain-IsSystemProgram : IsSystemProgram chain
chain-IsSystemProgram = record {
  transfer = λ source target lamports w w' e. ground arith;
  allocate_space = λ account space seeds w w' e. ground arith;
  assign_owner = λ account owner seeds w w' e. ground arith;
}
