-- ===== src/Prims/Nesting.antt =====
-- What `HasGprimAncestor` of source/session/PrimDispatcher.cpp looks for: the prims on the way from
-- a prim to the pseudo-root.
use Prim.Native.Nat.{zero, suc}
use idtx_core.Base.{
  ℕ, ◌≡◌, refl, sym, ◌∙◌, Bool, true, false, ◌&&◌, ◌||◌, Option, none, some, if◌then◌else◌, inl,
  inr, ◌⊎◌, and-true, Bool-cases,
}
use mathlib.Core.Path.{subst}
use idtx_core.Session.Stage.{PrimType}
use idtx_core.Prims.{Usd, is_gprim_type, has_gprim_ancestor}

or-true : (b : Bool) → b || true ≡ true
or-true true = refl
or-true false = refl

true_is_not_false : true ≡ false → ⊥
true_is_not_false e = cc

-- The rest of the walk says so, unless the prim is a pseudo-root or says so itself.
walk_goes_on :
    (root gprim rest : Bool)
    → (if root then false else gprim || rest) ≡ true
    → (root ≡ false) × ((gprim ≡ true) ⊎ (rest ≡ true))
walk_goes_on true gprim rest e = cc
walk_goes_on false true rest e = (refl, inl refl)
walk_goes_on false false rest e = (refl, inr e)

module _ (usd : Usd) where
  -- From the first prim up to the second one no pseudo-root is met, at neither of them either.
  pub data IsOnWay : usd.Prim → usd.Prim → Type 0 where
    itself : (prim : usd.Prim) → usd.is_pseudo_root prim ≡ false → IsOnWay prim prim
    further :
        (prim parent above : usd.Prim)
        → usd.is_pseudo_root prim ≡ false
        → usd.parent_of prim ≡ some parent
        → IsOnWay parent above
        → IsOnWay prim above

  -- The way up from the prim ends, at the pseudo-root or without a parent, within `depth` prims.
  pub data EndsWithin : ℕ → Option usd.Prim → Type 0 where
    no_prim : (depth : ℕ) → EndsWithin depth none
    at_root :
        (depth : ℕ) (prim : usd.Prim)
        → usd.is_pseudo_root prim ≡ true
        → EndsWithin (suc depth) (some prim)
    below :
        (depth : ℕ) (prim : usd.Prim)
        → EndsWithin depth (usd.parent_of prim)
        → EndsWithin (suc depth) (some prim)

  -- A geometric primitive of this type would stand below another one, which is the prim itself or
  -- above it.
  pub record IsNested (type : PrimType) (under : usd.Prim) : Type 0 where
    pub is_geometric : is_gprim_type usd type ≡ true
    pub upper : usd.Prim
    pub on_way : IsOnWay under upper
    pub upper_is_gprim : usd.is_gprim upper ≡ true

  -- A gprim on the way is found, whatever the fuel.
  has_gprim_ancestor-on_way :
      (depth : ℕ) (prim above : usd.Prim)
      → IsOnWay prim above
      → usd.is_gprim above ≡ true
      → has_gprim_ancestor usd depth (some prim) ≡ true
  unfolding has_gprim_ancestor
  has_gprim_ancestor-on_way zero prim above w g = refl
  has_gprim_ancestor-on_way (suc depth) prim _ (itself _ r) g = rw (r, g) refl
  has_gprim_ancestor-on_way (suc depth) prim above (further _ parent _ r e w) g =
      let rest = has_gprim_ancestor-on_way depth parent above w g in
      rw (r, e, rest) (or-true (usd.is_gprim prim))

  -- With enough fuel, only a gprim on the way makes it answer so.
  has_gprim_ancestor-found :
      (depth : ℕ) (o : Option usd.Prim)
      → EndsWithin depth o
      → has_gprim_ancestor usd depth o ≡ true
      → (prim above : usd.Prim) × (o ≡ some prim) × IsOnWay prim above × (usd.is_gprim above ≡ true)
  unfolding has_gprim_ancestor
  has_gprim_ancestor-found depth _ (no_prim _) found = cc
  has_gprim_ancestor-found _ _ (at_root depth p r) found =
      let (r', _) =
        walk_goes_on (usd.is_pseudo_root p) (usd.is_gprim p)
          (has_gprim_ancestor usd depth (usd.parent_of p)) found in
      cc
  has_gprim_ancestor-found _ _ (below depth p ends) found =
      let (r, split) =
        walk_goes_on (usd.is_pseudo_root p) (usd.is_gprim p)
          (has_gprim_ancestor usd depth (usd.parent_of p)) found in
      elim split [
        | inl g ↦ (p, p, refl, itself p r, g)
        | inr q ↦
            let (parent, above, e, w, g) =
              has_gprim_ancestor-found depth (usd.parent_of p) ends q in
            (p, above, refl, further p parent above r e w, g)
      ]

  -- The guard of `Create` is passed only where nothing is nested, whatever the fuel.
  pub passed-not_nested :
      (depth : ℕ) (type : PrimType) (under : usd.Prim)
      → is_gprim_type usd type && has_gprim_ancestor usd depth (some under) ≡ false
      → IsNested type under
      → ⊥
  passed-not_nested depth type under e n =
      let found = has_gprim_ancestor-on_way depth under n.upper n.on_way n.upper_is_gprim in
      true_is_not_false (sym (rw (n.is_geometric, found) refl) ∙ e)

  -- With enough fuel, it is passed wherever nothing is nested.
  pub not_nested-passed :
      (depth : ℕ) (type : PrimType) (under : usd.Prim)
      → EndsWithin depth (some under)
      → (IsNested type under → ⊥)
      → is_gprim_type usd type && has_gprim_ancestor usd depth (some under) ≡ false
  not_nested-passed depth type under ends ok =
      elim (Bool-cases (is_gprim_type usd type && has_gprim_ancestor usd depth (some under))) [
        | inl e ↦
            let (g, found) =
              and-true (is_gprim_type usd type) (has_gprim_ancestor usd depth (some under)) e in
            let (prim, above, same, w, ga) =
              has_gprim_ancestor-found depth (some under) ends found in
            let same' : prim ≡ under = cc in
            elim (ok (record {
              is_geometric = g;
              upper = above;
              on_way = subst (λ p. IsOnWay p above) same' w;
              upper_is_gprim = ga;
            })) [ ]
        | inr e ↦ e
      ]
