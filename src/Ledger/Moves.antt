-- ===== src/Ledger/Moves.antt =====
-- What the steps of a handler do to the arena that the accounts hold.
use arena_contract_sol.Prelude.{
  ℕ, ◌≡◌, false, some, List, [], ◌∷◌, ◌==◌, All, All-get, get_elem?, set, arith, refl, sym, ap,
  subst, ◌∙◌, zero, suc,
}
use mathlib.Core.Option.{some-injective}
use arena_contract_sol.State.{Pubkey, ArenaPosition}
use arena_contract_sol.Platform.{Platform, World}
use arena_contract_sol.Tokens.{unpack_token_account}
use arena_contract_sol.Ledger.{Distinct, plain, Holds, HoldsPosition, HoldsPositions}

pub ==_flip : (j k : Pubkey) → (j == k) ≡ false → (k == j) ≡ false
==_flip j k h = ground arith

pub All-map :
    {A : Type 0} (P Q : A → Type 0) → ((x : A) → P x → Q x) → (xs : List A) → All P xs → All Q xs
All-map P Q f [] h = tt
All-map P Q f (x ∷ xs) h = (f x h.0, All-map P Q f xs h.1)

pub All-zip :
    {A : Type 0} (P Q R : A → Type 0)
    → ((x : A) → P x → Q x → R x)
    → (xs : List A) → All P xs
    → All Q xs
    → All R xs
All-zip P Q R f [] h k = tt
All-zip P Q R f (x ∷ xs) h k = (f x h.0 k.0, All-zip P Q R f xs h.1 k.1)

module _ (pf : Platform) (program_id : Pubkey) where
  unpack_same :
      (w w' : World) (token_program k : Pubkey)
      → w'.cell k ≡ w.cell k
      → unpack_token_account pf w' token_program (plain k)
        ≡ unpack_token_account pf w token_program (plain k)
  unfolding unpack_token_account
  unpack_same w w' token_program k same =
      ap (λ c. unpack_token_account pf (record w { cell = λ _. c }) token_program (plain k)) same

  -- An account whose cell does not change holds what it held.
  pub Holds-frame :
      (w w' : World) (token_program k owner : Pubkey) (b : ℕ)
      → w'.cell k ≡ w.cell k
      → Holds pf w token_program k owner b
      → Holds pf w' token_program k owner b
  Holds-frame w w' token_program k owner b same (v, is, its_owner, amount) =
      (v, unpack_same w w' token_program k same ∙ is, its_owner, amount)

  pub HoldsPositions-frame :
      (w w' : World) (keys : List Pubkey) (ps : List ArenaPosition)
      → All (λ k. w'.cell k ≡ w.cell k) keys
      → HoldsPositions pf program_id w keys ps
      → HoldsPositions pf program_id w' keys ps
  HoldsPositions-frame w w' [] [] same h = tt
  HoldsPositions-frame w w' [] (p ∷ ps) same h = h
  HoldsPositions-frame w w' (k ∷ keys) [] same h = h
  HoldsPositions-frame w w' (k ∷ keys) (p ∷ ps) same h =
      (rw same.0 h.0, HoldsPositions-frame w w' keys ps same.1 h.1)

  pub HoldsPositions-get :
      (w : World) (keys : List Pubkey) (ps : List ArenaPosition) (i : ℕ) (k : Pubkey)
      → HoldsPositions pf program_id w keys ps
      → get_elem? keys i ≡ some k
      → (p : ArenaPosition) × (get_elem? ps i ≡ some p) × HoldsPosition pf program_id w k p
  HoldsPositions-get w [] ps i k h at = cc
  HoldsPositions-get w (x ∷ keys) [] i k h at = elim h [ ]
  HoldsPositions-get w (x ∷ keys) (p ∷ ps) zero k h at =
      (p, refl, subst (λ y. HoldsPosition pf program_id w y p) (some-injective _ _ at) h.0)
  HoldsPositions-get w (x ∷ keys) (p ∷ ps) (suc i) k h at = HoldsPositions-get w keys ps i k h.1 at

  -- A write to one of the accounts of positions, which are distinct, replaces that position.
  pub HoldsPositions-set :
      (w w' : World) (keys : List Pubkey) (ps : List ArenaPosition) (i : ℕ) (k : Pubkey)
      (q : ArenaPosition)
      → HoldsPositions pf program_id w keys ps
      → Distinct keys
      → get_elem? keys i ≡ some k
      → ((x : Pubkey) → (x == k) ≡ false → w'.cell x ≡ w.cell x)
      → HoldsPosition pf program_id w' k q
      → HoldsPositions pf program_id w' keys (set ps i q)
  HoldsPositions-set w w' [] ps i k q h apart at same new = cc
  HoldsPositions-set w w' (x ∷ keys) [] i k q h apart at same new = h
  HoldsPositions-set w w' (x ∷ keys) (p ∷ ps) zero k q h apart at same new =
      let here = some-injective _ _ at in
      (
        subst (λ y. HoldsPosition pf program_id w' y q) (sym here) new,
        HoldsPositions-frame w w' keys ps
            (All-map (λ y. (y == x) ≡ false) _
              (λ y far. same y (subst (λ z. (y == z) ≡ false) here far)) keys apart.0)
            h.1,
      )
  HoldsPositions-set w w' (x ∷ keys) (p ∷ ps) (suc i) k q h apart at same new =
      let other : (x == k) ≡ false =
        ==_flip k x (All-get (λ y. (y == x) ≡ false) keys i k apart.0 at) in
      (rw (same x other) h.0, HoldsPositions-set w w' keys ps i k q h.1 apart.1 at same new)
