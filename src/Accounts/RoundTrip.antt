-- ===== src/Accounts/RoundTrip.antt =====
-- programs/arena-lock-v2/src/state.rs: `store` and then `load` of a record.
use arena_contract_sol.Prelude.{
  ℕ, ◌-◌, ◌≡◌, true, false, Option, some, List, ◌++◌, ltb, ◌==◌, length, replicate, ltb→le,
  length-append, length-replicate, arith, refl, sym, ap, subst, ◌∙◌, Bool-cases, inl, inr,
}
use arena_contract_sol.Result.{ok, ok_or, ok_or-eq-ok, >>=-elim, ok-injective, invalid_instruction}
use arena_contract_sol.State.{
  Pubkey, ArenaConfig, ArenaPosition, arena_config_version, arena_position_version,
}
use arena_contract_sol.Platform.{Platform, World, AccountInfo}
use arena_contract_sol.Accounts.{
  data_of, write, store_bytes, store_config, store_position, load_config, load_position,
}

-- A decoder reads what its encoder writes, whatever bytes follow.
abbrev pub ReadsBack {ℓ} : {A : Type ℓ} → (A → Option (List ℕ)) → (List ℕ → Option A) → Type ℓ
ReadsBack {A = A} encode decode =
    (x : A) (bytes rest : List ℕ) → encode x ≡ some bytes → decode (bytes ++ rest) ≡ some x

data_of-write : (w : World) (a : AccountInfo) (bytes : List ℕ) → data_of (write w a bytes) a ≡ bytes
data_of-write w a bytes = ground arith

cell-write :
    (w : World) (a : AccountInfo) (bytes : List ℕ) (k : Pubkey)
    → (k == a.key) ≡ false
    → (write w a bytes).cell k ≡ w.cell k
cell-write w a bytes k h = rw h

store_bytes-ok :
    (w : World) (a : AccountInfo) (encoded : Option (List ℕ)) {w' : World}
    → store_bytes w a encoded ≡ ok w'
    → (bytes : List ℕ) × (rest : List ℕ) × (encoded ≡ some bytes)
      × (w' ≡ write w a (bytes ++ rest))
      × (length (bytes ++ rest) ≡ length (data_of w a))
unfolding store_bytes
store_bytes-ok w a encoded {w'} e =
    >>=-elim (ok_or encoded invalid_instruction) _ e (λ bytes is rest.
      let zeros : List ℕ = replicate (length (data_of w a) - length bytes) 0 in
      elim (Bool-cases (ltb (length (data_of w a)) (length bytes))) [
        | inl short ↦ cc (short, rest)
        | inr fits ↦ (
          bytes,
          zeros,
          ok_or-eq-ok encoded invalid_instruction is,
          sym (ok-injective _ _ (rw fits at rest)),
          omega (
            arith,
            length-append bytes zeros,
            length-replicate {A = ℕ} (length (data_of w a) - length bytes) 0,
            ltb→le (length (data_of w a)) (length bytes) fits,
          ),
        )
      ])

-- What a store leaves of the accounts: the stored one holds the record, with its data as long as
-- before and its owner and lamports kept, and no other account is touched.
pub record Stored (w : World) (a : AccountInfo) (w' : World) : Type 0 where
  pub size : length (data_of w' a) ≡ length (data_of w a)
  pub owner : (w'.cell a.key).owner ≡ (w.cell a.key).owner
  pub lamports : (w'.cell a.key).lamports ≡ (w.cell a.key).lamports
  pub others : (k : Pubkey) → (k == a.key) ≡ false → w'.cell k ≡ w.cell k
  pub clock : w'.now ≡ w.now

write-Stored :
    (w : World) (a : AccountInfo) (bytes : List ℕ)
    → length bytes ≡ length (data_of w a)
    → Stored w a (write w a bytes)
write-Stored w a bytes h = record {
  size = ap length (data_of-write w a bytes) ∙ h;
  owner = ground arith;
  lamports = ground arith;
  others = cell-write w a bytes;
  clock = refl;
}

-- What is stored can be decoded from the account.
pub store_bytes-decodes {ℓ} :
    {A : Type ℓ} (encode : A → Option (List ℕ)) (decode : List ℕ → Option A) (w w' : World)
    (a : AccountInfo) (x : A)
    → ReadsBack encode decode
    → store_bytes w a (encode x) ≡ ok w'
    → (decode (data_of w' a) ≡ some x) × Stored w a w'
store_bytes-decodes encode decode w w' a x reads e =
    let (bytes, rest, is, same, size) = store_bytes-ok w a (encode x) e in
    (
      rw (same, data_of-write w a (bytes ++ rest)) (reads x bytes rest is),
      subst (Stored w a) (sym same) (write-Stored w a (bytes ++ rest) size),
    )

module _ (pf : Platform) (w w' : World) (a : AccountInfo) where
  -- Where the codec reads back what it writes, an initialised config of the current version that is
  -- stored is the one that is loaded from the account afterwards, and the store touches nothing but
  -- the account's data, whose length it keeps.
  pub store_config-load_config :
      (c : ArenaConfig)
      → ReadsBack pf.serialize_config pf.deserialize_config
      → c.is_initialized ≡ true
      → c.version ≡ arena_config_version
      → store_config pf w a c ≡ ok w'
      → (load_config pf (data_of w' a) ≡ ok c) × Stored w a w'
  unfolding store_config load_config
  store_config-load_config c reads initialized version e =
      let (decoded, stored) =
        store_bytes-decodes pf.serialize_config pf.deserialize_config w w' a c reads e in
      (rw (decoded, initialized, version) refl, stored)

  -- Where the codec reads back what it writes, an initialised position of the current version that
  -- is stored is the one that is loaded from the account afterwards, and the store touches nothing
  -- but the account's data, whose length it keeps.
  pub store_position-load_position :
      (p : ArenaPosition)
      → ReadsBack pf.serialize_position pf.deserialize_position
      → p.is_initialized ≡ true
      → p.version ≡ arena_position_version
      → store_position pf w a p ≡ ok w'
      → (load_position pf (data_of w' a) ≡ ok p) × Stored w a w'
  unfolding store_position load_position
  store_position-load_position p reads initialized version e =
      let (decoded, stored) =
        store_bytes-decodes pf.serialize_position pf.deserialize_position w w' a p reads e in
      (rw (decoded, initialized, version) refl, stored)
