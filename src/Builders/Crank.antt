-- ===== src/Builders/Crank.antt =====
-- instruction.rs and processor.rs together: the roll of an epoch, built and submitted by anyone.
use arena_contract_sol.Prelude.{
  ℕ, ◌+◌, ◌<◌, ◌≤◌, ◌-◌, ◌≡◌, ◌++◌, replicate, ◌||◌, not, false, true, Option, some, List, [], ◌∷◌,
  ◌==◌, length, refl, sym, ap, subst, ◌∙◌, arith,
}
use arena_contract_sol.Prelude.Int.{ℤ, ltb_ℤ}
use arena_contract_sol.Result.{
  ok, ok_or, fail_if, Succeeds, Succeeds-bind, Succeeds-at, math_overflow, epoch_not_ready,
  invalid_token_mint,
}
use arena_contract_sol.Checked.{u64_limit, checked_add_i64, checked_add_u64}
use arena_contract_sol.State.{Pubkey, ArenaConfig}
use arena_contract_sol.Platform
use arena_contract_sol.Platform.{Platform, World, AccountInfo, Instruction}
use arena_contract_sol.Accounts.{
  next_account_info, data_of, owner_of, assert_writable, assert_owned_by,
  assert_supported_token_program, load_config, write, store_bytes, store_config, config_pda,
  vault_authority_pda, assert_key, assert_config_pda,
}
use arena_contract_sol.Tokens.{assert_custody_token_account}
use arena_contract_sol.Operations.Lock.{roll_epoch}
use arena_contract_sol.Builders
use arena_contract_sol.Builders.{process_arena_lock_instruction}
use arena_contract_sol.Builders.Submitted.{Presents, ReadsInstruction, submitted}
use arena_contract_sol.Tokens.Custody.{IsCustody, assert_custody_token_account-exact}
use arena_contract_sol.Processor.{dispatch}
use arena_contract_sol.Processor.Setup.{process_roll_epoch}

-- Borsh writes a record of fixed size in that many bytes, and reads no record from fewer.
pub record HasSize {ℓ} {A : Type ℓ} (encode : A → Option (List ℕ)) (decode : List ℕ → Option A)
    (size : ℕ) : Type ℓ where
  pub writes : (x : A) → (bytes : List ℕ) × (encode x ≡ some bytes) × (length bytes ≡ size)
  pub reads : (bytes : List ℕ) (x : A) → decode bytes ≡ some x → size ≤ length bytes

-- An account that holds a record has room for another one.
pub store_bytes-Succeeds {ℓ} :
    {A : Type ℓ} (encode : A → Option (List ℕ)) (decode : List ℕ → Option A) (size : ℕ) (w : World)
    (a : AccountInfo) (x y : A)
    → HasSize encode decode size
    → decode (data_of w a) ≡ some x
    → Succeeds (store_bytes w a (encode y))
unfolding store_bytes
store_bytes-Succeeds encode decode size w a x y fixed held =
    let (bytes, wrote, long) = fixed.writes y in
    let room = fixed.reads (data_of w a) x held in
    (
      write w a (bytes ++ replicate (length (data_of w a) - length bytes) 0),
      ground (arith, wrote, long, room),
    )

-- An epoch is over, and neither its end nor the count of epochs overflows.
pub record IsOver (now : ℤ) (c : ArenaConfig) : Type 0 where
  pub end_ts : ℤ
  pub computes : checked_add_i64 c.last_epoch_ts c.epoch_seconds ≡ some end_ts
  pub passed : ltb_ℤ now end_ts ≡ false
  pub count : c.current_epoch + 1 < u64_limit

roll_over : (now : ℤ) (c : ArenaConfig) → IsOver now c → Succeeds (roll_epoch now c)
unfolding roll_epoch
roll_over now c h =
    Succeeds-at (ok_or (checked_add_i64 c.last_epoch_ts c.epoch_seconds) math_overflow) _
      (rw h.computes refl)
      (Succeeds-at (fail_if (ltb_ℤ now h.end_ts) epoch_not_ready) _ (rw h.passed refl) (
        Succeeds-at (ok_or (checked_add_u64 c.current_epoch 1) math_overflow) _
          {a = c.current_epoch + 1} (ground (arith, h.count)) (_, refl)))

-- The checks of a handler on accounts that meet them.
writable_ok : (a : AccountInfo) → a.is_writable ≡ true → assert_writable a ≡ ok tt
unfolding assert_writable
writable_ok a h = ground (arith, h)

owned_ok :
    (w : World) (a : AccountInfo) (owner : Pubkey)
    → owner_of w a ≡ owner
    → assert_owned_by w a owner ≡ ok tt
unfolding assert_owned_by
owned_ok w a owner h = ground (arith, h)

supported_ok :
    (pf : Platform) (a : AccountInfo)
    → (a.key == pf.spl_token_id || a.key == pf.spl_token_2022_id) ≡ true
    → assert_supported_token_program pf a ≡ ok tt
unfolding assert_supported_token_program
supported_ok pf a h = ground (arith, h)

key_ok :
    (pf : Platform) (found : Pubkey × ℕ) (a : AccountInfo)
    → a.key ≡ found.0
    → assert_key pf found a ≡ ok found.1
unfolding assert_key
key_ok pf found a h = ground (arith, h)

config_pda_ok :
    (pf : Platform) (program_id : Pubkey) (a : AccountInfo) (c : ArenaConfig)
    → a.key ≡ (config_pda pf program_id c.authority c.config_id).0
    → assert_config_pda pf program_id a c ≡ ok tt
unfolding assert_config_pda
config_pda_ok pf program_id a c h =
    rw (key_ok pf (config_pda pf program_id c.authority c.config_id) a h) refl

named_ok :
    (c : ArenaConfig) (m tp po : Pubkey)
    → c.mint ≡ m
    → c.token_program ≡ tp
    → c.reward_pool_token_account ≡ po
    → fail_if
        (not (c.mint == m)
          || not (c.token_program == tp)
          || not (c.reward_pool_token_account == po))
        invalid_token_mint
      ≡ ok tt
named_ok c m tp po h h' h'' = ground (arith, h, h', h'')

loaded :
    (pf : Platform) (bytes : List ℕ) (c : ArenaConfig)
    → load_config pf bytes ≡ ok c
    → pf.deserialize_config bytes ≡ some c
unfolding load_config
loaded pf bytes c h = ground (arith, h)

module _ (pf : Platform) (codec : ReadsInstruction pf) (program_id : Pubkey) (size : ℕ)
    (fixed : HasSize pf.serialize_config pf.deserialize_config size) where
  store_config-Succeeds :
      (w : World) (a : AccountInfo) (c c' : ArenaConfig)
      → pf.deserialize_config (data_of w a) ≡ some c
      → Succeeds (store_config pf w a c')
  unfolding store_config
  store_config-Succeeds w a c c' =
      store_bytes-Succeeds pf.serialize_config pf.deserialize_config size w a c c' fixed

  -- Given a codec of instructions that reads back what it writes, and records of fixed size: on a
  -- config account of the program that is passed as writable and loads a config with the
  -- authority, id, mint, token program and pool given to the builder, with a known token program
  -- and a pool that is a custody account of the mint and of the derived authority, when the epoch
  -- is over, the built roll of the epoch succeeds when submitted with its accounts in order,
  -- whoever submits it.
  pub roll_epoch-Succeeds :
      (w : World) (c : ArenaConfig) (authority pool mint token_program : Pubkey) (config_id : ℕ)
      (ix : Instruction) (cf po au m tp : AccountInfo)
      → c.authority ≡ authority
      → c.config_id ≡ config_id
      → c.mint ≡ mint
      → c.token_program ≡ token_program
      → c.reward_pool_token_account ≡ pool
      → load_config pf (data_of w cf) ≡ ok c
      → owner_of w cf ≡ program_id
      → (token_program == pf.spl_token_id || token_program == pf.spl_token_2022_id) ≡ true
      → IsCustody pf w tp po mint (vault_authority_pda pf program_id cf.key).0
      → IsOver w.now c
      → arena_contract_sol.Builders.roll_epoch pf program_id authority config_id pool mint
          token_program
        ≡ some ix
      → Presents ix.accounts (cf ∷ po ∷ au ∷ m ∷ tp ∷ [])
      → cf.is_writable ≡ true
      → Succeeds
          (process_arena_lock_instruction pf program_id w (cf ∷ po ∷ au ∷ m ∷ tp ∷ []) ix.bytes)
  unfolding arena_contract_sol.Builders.roll_epoch dispatch process_roll_epoch next_account_info
  roll_epoch-Succeeds w c authority pool mint token_program config_id ix cf po au m tp of_authority
        of_id of_mint of_program of_pool loads owned known custody over builds shows writes =
      let (shown, same) =
        submitted pf codec program_id _ arena_contract_sol.Platform.roll_epoch ix w
          (cf ∷ po ∷ au ∷ m ∷ tp ∷ []) builds shows in
      let (is_config, (is_pool, (is_authority, (is_mint, (is_program, _))))) = shown in
      let authority_key = (vault_authority_pda pf program_id cf.key).0 in
      let at_authority : au.key ≡ authority_key =
        is_authority ∙ ap (λ k. (vault_authority_pda pf program_id k).0) (sym is_config) in
      subst Succeeds same (
        Succeeds-at (assert_writable cf) _ (writable_ok cf writes) (
          Succeeds-at (assert_owned_by w cf program_id) _ (owned_ok w cf program_id owned) (
            Succeeds-at (assert_supported_token_program pf tp) _
              (supported_ok pf tp (rw is_program known))
              (Succeeds-at (load_config pf (data_of w cf)) _ loads (
                Succeeds-at (assert_config_pda pf program_id cf c) _
                  (config_pda_ok pf program_id cf c (rw (of_authority, of_id) is_config))
                  (Succeeds-at
                    (fail_if
                      (not (c.mint == m.key)
                        || not (c.token_program == tp.key)
                        || not (c.reward_pool_token_account == po.key))
                      invalid_token_mint)
                    _
                    (named_ok c m.key tp.key po.key (of_mint ∙ sym is_mint)
                      (of_program ∙ sym is_program) (of_pool ∙ sym is_pool))
                    (Succeeds-at (assert_key pf (vault_authority_pda pf program_id cf.key) au) _
                      (key_ok pf (vault_authority_pda pf program_id cf.key) au at_authority)
                      (Succeeds-at (assert_custody_token_account pf w tp po m.key au.key) _
                        (rw (is_mint, at_authority)
                          ((assert_custody_token_account-exact pf w tp po mint authority_key).1
                            custody))
                        (Succeeds-bind (roll_epoch w.now c) _ (roll_over w.now c over) λ c' _.
                          store_config-Succeeds w cf c c'
                            (loaded pf (data_of w cf) c loads))))))))))
