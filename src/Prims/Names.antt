-- ===== src/Prims/Names.antt =====
-- The loop of `UniqueChildPath` (source/session/PrimDispatcher.cpp).
use Prim.Native.Nat.{zero, suc}
use idtx_core.Base.{
  ℕ, ◌+◌, ◌≤◌, ◌≡◌, refl, ap, ◌∙◌, Bool, true, false, not, ◌&&◌, some, Str, arith, Bool-cases, inl,
  inr,
}
use mathlib.Core.Path.{subst, subst⁻¹}
use idtx_core.Prims.{Usd, candidate, is_free, search_name}

module _ (usd : Usd) (stage : usd.Stage) (parent : usd.Sdf) (base : Str) where
  abbrev pub is_free_name : ℕ → Bool
  is_free_name n = is_free usd stage (usd.append_child parent (candidate usd base n))

  -- All candidates before a number are taken.
  abbrev pub are_taken : ℕ → Bool
  are_taken zero = true
  are_taken (suc n) = not (is_free_name n) && are_taken n

  are_taken-next : (n : ℕ) → is_free_name n ≡ false → are_taken n ≡ true → are_taken (n + 1) ≡ true
  are_taken-next n e taken =
      let e_n : n + 1 ≡ suc n = omega arith in subst⁻¹ (λ k. are_taken k ≡ true) e_n (rw (e, taken))

  search_name-found :
      (fuel n : ℕ)
      → is_free_name n ≡ true
      → search_name usd (suc fuel) stage parent base n ≡ some (candidate usd base n)
  unfolding search_name
  search_name-found fuel n e = rw e

  search_name-taken :
      (fuel n : ℕ)
      → is_free_name n ≡ false
      → search_name usd (suc fuel) stage parent base n
        ≡ search_name usd fuel stage parent base (n + 1)
  unfolding search_name
  search_name-taken fuel n e = rw e

  search_from :
      (steps n extra m : ℕ)
      → m ≡ steps + n
      → is_free_name m ≡ true
      → are_taken n ≡ true
      → (k : ℕ) × (k ≤ m)
        × (search_name usd (suc (steps + extra)) stage parent base n ≡ some (candidate usd base k))
        × (is_free_name k ≡ true)
        × (are_taken k ≡ true)
  search_from zero n extra m e_m free taken =
      let e_n : m ≡ n = omega arith in
      let free' = subst (λ k. is_free_name k ≡ true) e_n free in
      (n, omega arith, search_name-found (zero + extra) n free', free', taken)
  search_from (suc steps) n extra m e_m free taken = elim (Bool-cases (is_free_name n)) [
    | inl e ↦ (n, omega arith, search_name-found (suc steps + extra) n e, e, taken)
    | inr e ↦
        let e_next : suc steps + extra ≡ suc (steps + extra) = omega arith in
        let (k, le, found, e_k, before) =
          search_from steps (n + 1) extra m (omega arith) free (are_taken-next n e taken) in
        (
          k,
          le,
          search_name-taken (suc steps + extra) n e
              ∙ ap (λ fuel. search_name usd fuel stage parent base (n + 1)) e_next
              ∙ found,
          e_k,
          before,
        )
  ]

  -- If some candidate is free, the loop ends, after at most one more round than its number: with the
  -- first candidate that is free, however much longer it may run.
  pub search_name-first :
      (m extra : ℕ)
      → is_free_name m ≡ true
      → (n : ℕ) × (n ≤ m)
        × (search_name usd (suc (m + extra)) stage parent base 0 ≡ some (candidate usd base n))
        × (is_free_name n ≡ true)
        × (are_taken n ≡ true)
  search_name-first m extra free = search_from m 0 extra m (omega arith) free refl
