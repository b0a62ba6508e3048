-- ===== src/Prims/Answers.antt =====
-- When `Create` (source/session/PrimDispatcher.cpp) makes a prim.
use Prim.Native.Nat.{zero, suc}
use idtx_core.Base.{
  ℕ, ◌+◌, ◌≡◌, refl, ap, sym, ◌∙◌, Bool, true, false, not, ◌&&◌, ◌||◌, Option, none, some, Str,
  not-false, or-false, inl, inr, ◌⊎◌, if◌then◌else◌,
}
use mathlib.Core.Path.{subst}
use idtx_core.Session.Stage.{PrimType, CreatedPrim}
use idtx_core.Prims.Nesting.{IsNested, passed-not_nested}
use idtx_core.Prims.{
  Usd, base_name_for, is_free, is_gprim_type, has_gprim_ancestor, candidate, search_name,
  create_named, create_under, may_be_parent, create, is_empty,
}

-- What is not refused by a guard passed it.
pub passes {ℓ} :
    {A : Type 0}
    → (P : A → Type ℓ) (test : Bool) (refusal a : A) → (P refusal → ⊥)
    → P (if test then refusal else a)
    → (test ≡ false) × P a
passes P true refusal a refused h = elim (refused h) [ ]
passes P false refusal a refused h = (refl, h)

-- What holds behind a guard that is passed.
pub gets_to {ℓ} :
    {A : Type 0}
    → (P : A → Type ℓ) (test : Bool) (refusal a : A) → test ≡ false
    → P a
    → P (if test then refusal else a)
gets_to P true refusal a e h = cc
gets_to P false refusal a e h = h

none_is_not {ℓ} : {A : Type ℓ} {a : A} → none ≡ some a → ⊥
none_is_not e = cc

-- A value comes from the one branch or from the other.
which_some :
    {A : Type 0} (test : Bool) (a b : A) (rest : Option A)
    → (if test then some a else rest) ≡ some b
    → ((test ≡ true) × (a ≡ b)) ⊎ (rest ≡ some b)
which_some true a b rest e = inl (refl, cc)
which_some false a b rest e = inr e

some_of_if :
    {A S : Type 0} (test : Bool) (s t : S) (a b : A)
    → (if◌then◌else◌ {A = S × Option A} test (s, some a) (t, none)).1 ≡ some b
    → a ≡ b
some_of_if true s t a b e = cc
some_of_if false s t a b e = cc

module _ (usd : Usd) where
  -- A created prim stands at a path that was free, under an active prim of the stage, and no
  -- geometric primitive stands below another one.
  pub record IsCreated (stage : usd.Stage) (parent : usd.Sdf) (type : PrimType)
      (prim : CreatedPrim usd.Shape) : Type 0 where
    pub under : usd.Prim
    pub is_there : usd.prim_at stage parent ≡ some under
    pub is_active_there : usd.is_active under ≡ true
    pub not_nested : IsNested usd type under → ⊥
    pub was_free : is_free usd stage (usd.append_child parent prim.name) ≡ true
    pub at_path : prim.prim_path ≡ usd.text (usd.append_child parent prim.name)

  -- A name that the search gives is free.
  search_name-free :
      (fuel : ℕ) (stage : usd.Stage) (parent : usd.Sdf) (base : Str) (n : ℕ) (name : Str)
      → search_name usd fuel stage parent base n ≡ some name
      → is_free usd stage (usd.append_child parent name) ≡ true
  unfolding search_name
  search_name-free zero stage parent base n name e = cc
  search_name-free (suc fuel) stage parent base n name e =
      elim (which_some (is_free usd stage (usd.append_child parent (candidate usd base n)))
        (candidate usd base n) name (search_name usd fuel stage parent base (n + 1)) e) [
          | inl (free, q) ↦ subst (λ x. is_free usd stage (usd.append_child parent x) ≡ true) q free
          | inr q ↦ search_name-free fuel stage parent base (n + 1) name q
        ]

  create_named-some :
      (stage : usd.Stage) (parent : usd.Sdf) (type : PrimType) (o : Option Str)
      (prim : CreatedPrim usd.Shape)
      → (create_named usd stage parent type o).1 ≡ some prim
      → (o ≡ some prim.name) × (prim.prim_path ≡ usd.text (usd.append_child parent prim.name))
  unfolding create_named
  create_named-some stage parent type none prim e = cc
  create_named-some stage parent type (some name) prim e =
      let child = usd.append_child parent name in
      let (stage', made) = usd.define_prim stage child (base_name_for usd type) in
      let new : CreatedPrim usd.Shape = record {
        name = name;
        prim_path = usd.text child;
        shape = usd.read_attributes stage' child type;
      } in
      let q : new ≡ prim = some_of_if made stage' stage' new prim e in
      (
        ap (λ (p : CreatedPrim usd.Shape). some p.name) q,
        sym (ap (λ (p : CreatedPrim usd.Shape). p.prim_path) q)
            ∙ ap (λ (p : CreatedPrim usd.Shape). usd.text (usd.append_child parent p.name)) q,
      )

  create_under-some :
      (depth tries : ℕ) (stage : usd.Stage) (parent : usd.Sdf) (type : PrimType)
      (o : Option usd.Prim) (prim : CreatedPrim usd.Shape)
      → usd.prim_at stage parent ≡ o
      → (create_under usd depth tries stage parent type o).1 ≡ some prim
      → IsCreated stage parent type prim
  unfolding create_under
  create_under-some depth tries stage parent type none prim ep e = cc
  create_under-some depth tries stage parent type (some under) prim ep e =
      let found =
        search_name usd tries stage parent (usd.make_valid_identifier (base_name_for usd type)) 0 in
      let P : usd.Stage × Option (CreatedPrim usd.Shape) → Type 0 = λ r. r.1 ≡ some prim in
      let (e_active, e1) = passes P (not (usd.is_active under)) (stage, none) _ none_is_not e in
      let (e_nested, e2) =
        passes P (is_gprim_type usd type && has_gprim_ancestor usd depth (some under)) (stage, none)
          (create_named usd stage parent type found) none_is_not e1 in
      let (e_name, e_path) = create_named-some stage parent type found prim e2 in
      record {
        under = under;
        is_there = ep;
        is_active_there = not-false (usd.is_active under) e_active;
        not_nested = passed-not_nested usd depth type under e_nested;
        was_free =
            search_name-free tries stage parent (usd.make_valid_identifier (base_name_for usd type))
              0 prim.name e_name;
        at_path = e_path;
      }

  -- If `Create` makes a prim, then under a prim of the stage that is active, at a path that was free,
  -- with the name that is reported, and, if it is a geometric primitive, none of the prims from its
  -- parent up to the pseudo-root is one; the parent's path was valid and absolute, and the type is one
  -- that USD has a name for. This holds whatever the fuel is.
  pub create-IsCreated :
      (depth tries : ℕ) (stage : usd.Stage) (parent_path : Str) (type : PrimType)
      (prim : CreatedPrim usd.Shape)
      → (create usd depth tries stage parent_path type).1 ≡ some prim
      → (is_empty (base_name_for usd type) ≡ false)
        × (usd.is_valid_path parent_path ≡ true)
        × (may_be_parent usd (usd.parse parent_path) ≡ true)
        × IsCreated stage (usd.parse parent_path) type prim
  unfolding create
  create-IsCreated depth tries stage parent_path type prim e =
      let P : usd.Stage × Option (CreatedPrim usd.Shape) → Type 0 = λ r. r.1 ≡ some prim in
      let parent = usd.parse parent_path in
      let (e_name, e1) =
        passes P (is_empty (base_name_for usd type)) (stage, none) _ none_is_not e in
      let (e_valid, e2) =
        passes P (is_empty parent_path || not (usd.is_valid_path parent_path)) (stage, none) _
          none_is_not e1 in
      let (e_parent, e3) =
        passes P (not (may_be_parent usd parent)) (stage, none)
          (create_under usd depth tries stage parent type (usd.prim_at stage parent)) none_is_not
          e2 in
      (
        e_name,
        not-false (usd.is_valid_path parent_path)
            (or-false (is_empty parent_path) (not (usd.is_valid_path parent_path)) e_valid).1,
        not-false (may_be_parent usd parent) e_parent,
        create_under-some depth tries stage parent type (usd.prim_at stage parent) prim refl e3,
      )
