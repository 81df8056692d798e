-- ===== src/Result.antt =====
-- programs/arena-lock-v2/src/error.rs: the program's errors and their codes, and fallible code as
-- a `Result` that carries a `ProgramError`.
use arena_contract_sol.Prelude.{ℕ, ◌≡◌, refl, Bool, true, false, Option, none, some, ◌⊎◌, inl, inr}

pub data ArenaError : Type 0 where
  invalid_instruction invalid_pda already_initialized not_initialized : ArenaError
  invalid_owner invalid_signer invalid_amount invalid_penalty invalid_burn : ArenaError
  epoch_not_ready activation_not_ready no_rewards no_eligible_stake : ArenaError
  insufficient_position_balance invalid_treasury invalid_token_program : ArenaError
  invalid_token_mint invalid_token_account math_overflow account_not_writable : ArenaError
  unsupported_state_version funding_snapshot_mismatch invalid_lock_policy : ArenaError

-- The discriminants: the first is given, each of the others is the one before it plus one.
pub error_code : ArenaError → ℕ
error_code invalid_instruction = 11000
error_code invalid_pda = 11001
error_code already_initialized = 11002
error_code not_initialized = 11003
error_code invalid_owner = 11004
error_code invalid_signer = 11005
error_code invalid_amount = 11006
error_code invalid_penalty = 11007
error_code invalid_burn = 11008
error_code epoch_not_ready = 11009
error_code activation_not_ready = 11010
error_code no_rewards = 11011
error_code no_eligible_stake = 11012
error_code insufficient_position_balance = 11013
error_code invalid_treasury = 11014
error_code invalid_token_program = 11015
error_code invalid_token_mint = 11016
error_code invalid_token_account = 11017
error_code math_overflow = 11018
error_code account_not_writable = 11019
error_code unsupported_state_version = 11020
error_code funding_snapshot_mismatch = 11021
error_code invalid_lock_policy = 11022

-- The values of `ProgramError` that the program makes; `external` is one that a called program or
-- the runtime reports.
pub data ProgramError : Type 0 where
  custom : ℕ → ProgramError
  incorrect_program_id account_data_too_small not_enough_account_keys : ProgramError
  external : ℕ → ProgramError

-- `From<ArenaError> for ProgramError`
abbrev pub from_arena_error : ArenaError → ProgramError
from_arena_error e = custom (error_code e)

-- `Result<T, ProgramError>`
pub data Result {ℓ} (T : Type ℓ) : Type ℓ where
  err : ProgramError → Result T
  ok : T → Result T

-- The `?` operator: an error is returned at once.
infixl 5 ◌>>=◌
abbrev pub ◌>>=◌ {ℓ κ} : {T : Type ℓ} {U : Type κ} → Result T → (T → Result U) → Result U
err failure >>= next = err failure
ok value >>= next = next value

-- The same for a check, whose value is not used.
infixl 5 ◌>>◌
abbrev pub ◌>>◌ {κ} : {U : Type κ} → Result (Unit {0}) → Result U → Result U
check >> next = check >>= λ _. next

-- `Err(ArenaError::E.into())`
abbrev pub fail {ℓ} : {A : Type ℓ} → ArenaError → Result A
fail e = err (from_arena_error e)

-- `.ok_or(ArenaError::E)?`
abbrev pub ok_or {ℓ} : {A : Type ℓ} → Option A → ArenaError → Result A
ok_or none e = fail e
ok_or (some a) e = ok a

-- `if test { return Err(..) }`
abbrev pub fail_if : Bool → ArenaError → Result (Unit {0})
fail_if true e = fail e
fail_if false e = ok tt

-- A chain that returns a value got one from its first call.
pub >>=-eq-ok {ℓ κ} :
    {T : Type ℓ} {U : Type κ} (first : Result T) (next : T → Result U) {result : U}
    → (first >>= next) ≡ ok result
    → (value : T) × (first ≡ ok value) × (next value ≡ ok result)
>>=-eq-ok (err failure) next h = cc
>>=-eq-ok (ok value) next h = (value, refl, h)

pub fail_if-eq-ok : (b : Bool) (e : ArenaError) {u : Unit {0}} → fail_if b e ≡ ok u → b ≡ false
fail_if-eq-ok true e h = cc
fail_if-eq-ok false e h = refl

pub Result-cases {ℓ} :
    {A : Type ℓ} (r : Result A) → ((a : A) × (r ≡ ok a)) ⊎ ((e : ProgramError) × (r ≡ err e))
Result-cases (ok a) = inl (a, refl)
Result-cases (err e) = inr (e, refl)

pub ok-injective {ℓ} : {A : Type ℓ} (a b : A) → ok a ≡ ok b → a ≡ b
ok-injective a b h = cc

pub ok_or-eq-ok {ℓ} :
    {A : Type ℓ} (o : Option A) (e : ArenaError) {a : A} → ok_or o e ≡ ok a → o ≡ some a
ok_or-eq-ok none e h = cc
ok_or-eq-ok (some b) e h = cc

-- The same as an elimination, which hands the parts on as variables.
pub >>=-elim {ℓ κ μ} :
    {A : Type ℓ} {B : Type κ} {P : Type μ} (m : Result A) (f : A → Result B) {b : B}
    → (m >>= f) ≡ ok b
    → ((a : A) → m ≡ ok a → f a ≡ ok b → P)
    → P
>>=-elim m f h k = let (a, e, rest) = >>=-eq-ok m f h in k a e rest

-- A call that returns a value.
abbrev pub Succeeds {ℓ} : {A : Type ℓ} → Result A → Type ℓ
Succeeds {A = A} r = (a : A) × (r ≡ ok a)

pub Succeeds-bind {ℓ κ} :
    {A : Type ℓ} {B : Type κ} (m : Result A) (f : A → Result B)
    → Succeeds m
    → ((a : A) → m ≡ ok a → Succeeds (f a))
    → Succeeds (m >>= f)
Succeeds-bind m f (a, e) k = let (b, e') = k a e in (b, rw e e')

pub Succeeds-fail_if : (b : Bool) (e : ArenaError) → b ≡ false → Succeeds (fail_if b e)
Succeeds-fail_if b e h = (tt, rw h)

-- The same where the value of the first call is known.
pub Succeeds-at {ℓ κ} :
    {A : Type ℓ} {B : Type κ} (m : Result A) (f : A → Result B) {a : A}
    → m ≡ ok a
    → Succeeds (f a)
    → Succeeds (m >>= f)
Succeeds-at m f e (b, k) = (b, rw e k)
