-- ===== src/Prims/Changes.antt =====
-- When `SetActive` (source/session/PrimDispatcher.cpp) changes a prim.
use idtx_core.Base.{
  ◌≡◌, ◌↔◌, refl, ap, Bool, true, false, not, ◌&&◌, ◌||◌, Option, none, some, Str, not-false,
  or-false, if◌then◌else◌,
}
use mathlib.Core.Path.{subst⁻¹}
use idtx_core.Session.Stage.{
  SetActiveStatus, ok, invalid_path, not_found, not_deletable, already_in_state, failed,
}
use idtx_core.Prims.Answers.{passes, gets_to}
use idtx_core.Prims.{Usd, is_empty, is_locally_deletable, set_active_of, set_active}

-- The prim has the other activity.
differs :
    (active current : Bool)
    → (if active then current else not current) ≡ false
    → current ≡ not active
differs true current e = e
differs false current e = not-false current e

-- A change that is not a removal, or a removal that is allowed.
allowed : (active local : Bool) → not active && not local ≡ false → active || local ≡ true
allowed true local e = refl
allowed false local e = not-false local e

differs_back :
    (active current : Bool)
    → current ≡ not active
    → (if active then current else not current) ≡ false
differs_back true current e = e
differs_back false current e = ap not e

allowed_back : (active local : Bool) → active || local ≡ true → not active && not local ≡ false
allowed_back true local e = refl
allowed_back false local e = ap not e

ok_only : (done : Bool) → (if done then ok else failed) ≡ ok → done ≡ true
ok_only true e = refl
ok_only false e = cc

module _ (usd : Usd) where
  -- What holds of a prim whose activity was changed.
  pub record IsChanged (stage : usd.Stage) (path : usd.Sdf) (active : Bool) : Type 0 where
    pub which : usd.Prim
    pub is_there : usd.prim_at stage path ≡ some which
    pub is_defined_there : usd.is_defined which ≡ true
    pub not_root : usd.is_pseudo_root which ≡ false
    pub was_other : usd.is_active which ≡ not active
    pub may_go : active || is_locally_deletable usd stage (usd.prim_stack which) ≡ true
    pub authored : (usd.author_active stage which active).1 ≡ true

  set_active_of-IsChanged :
      (stage : usd.Stage) (path : usd.Sdf) (active : Bool) (o : Option usd.Prim)
      → usd.prim_at stage path ≡ o
      → (set_active_of usd stage active o).1 ≡ ok
      → IsChanged stage path active
  unfolding set_active_of
  set_active_of-IsChanged stage path active none ep e = cc
  set_active_of-IsChanged stage path active (some prim) ep e =
      let P : usd.Stage × SetActiveStatus → Type 0 = λ r. r.1 ≡ ok in
      let local = is_locally_deletable usd stage (usd.prim_stack prim) in
      let (e_defined, e1) = passes P (not (usd.is_defined prim)) (stage, not_found) _ (λ q. cc) e in
      let (e_root, e2) = passes P (usd.is_pseudo_root prim) (stage, not_deletable) _ (λ q. cc) e1 in
      let (e_other, e3) =
        passes P (if active then usd.is_active prim else not (usd.is_active prim))
          (stage, already_in_state) _ (λ q. cc) e2 in
      let (e_local, e4) =
        passes P (not active && not local) (stage, not_deletable)
          (
            (usd.author_active stage prim active).0,
            if (usd.author_active stage prim active).1 then ok else failed,
          )
          (λ q. cc) e3 in
      record {
        which = prim;
        is_there = ep;
        is_defined_there = not-false (usd.is_defined prim) e_defined;
        not_root = e_root;
        was_other = differs active (usd.is_active prim) e_other;
        may_go = allowed active local e_local;
        authored = ok_only (usd.author_active stage prim active).1 e4;
      }

  set_active_of-ok :
      (stage : usd.Stage) (path : usd.Sdf) (active : Bool)
      → IsChanged stage path active
      → (set_active_of usd stage active (usd.prim_at stage path)).1 ≡ ok
  unfolding set_active_of
  set_active_of-ok stage path active c =
      let P : usd.Stage × SetActiveStatus → Type 0 = λ r. r.1 ≡ ok in
      let prim = c.which in
      let local = is_locally_deletable usd stage (usd.prim_stack prim) in
      subst⁻¹ (λ o. (set_active_of usd stage active o).1 ≡ ok) c.is_there
        (gets_to P (not (usd.is_defined prim)) (stage, not_found) _ (rw c.is_defined_there)
          (gets_to P (usd.is_pseudo_root prim) (stage, not_deletable) _ c.not_root
            (gets_to P (if active then usd.is_active prim else not (usd.is_active prim))
              (stage, already_in_state) _ (differs_back active (usd.is_active prim) c.was_other)
              (gets_to P (not active && not local) (stage, not_deletable)
                (
                  (usd.author_active stage prim active).0,
                  if (usd.author_active stage prim active).1 then ok else failed,
                )
                (allowed_back active local c.may_go) (rw c.authored)))))

  -- `SetActive` answers `Ok` exactly if the path is a valid, absolute path of a prim of the stage,
  -- which is defined, not the pseudo-root, and has the other activity; if a prim that is to be taken
  -- away has opinions in the stage's root layer and session layer only; and if USD authors the change.
  pub set_active-IsChanged :
      (stage : usd.Stage) (prim_path : Str) (active : Bool)
      → ((set_active usd stage prim_path active).1 ≡ ok)
        ↔ (is_empty prim_path ≡ false)
          × (usd.is_valid_path prim_path ≡ true)
          × (usd.is_absolute (usd.parse prim_path) && usd.is_prim_path (usd.parse prim_path) ≡ true)
          × IsChanged stage (usd.parse prim_path) active
  unfolding set_active
  set_active-IsChanged stage prim_path active =
      let P : usd.Stage × SetActiveStatus → Type 0 = λ r. r.1 ≡ ok in
      let path = usd.parse prim_path in
      let prim = usd.prim_at stage path in
      (
        λ e.
            let (e_valid, e1) =
              passes P (is_empty prim_path || not (usd.is_valid_path prim_path))
                (stage, invalid_path) _ (λ q. cc) e in
            let (e_prim, e2) =
              passes P (not (usd.is_absolute path && usd.is_prim_path path)) (stage, invalid_path)
                (set_active_of usd stage active prim) (λ q. cc) e1 in
            let (e_some, e_text) =
              or-false (is_empty prim_path) (not (usd.is_valid_path prim_path)) e_valid in
            (
              e_some,
              not-false (usd.is_valid_path prim_path) e_text,
              not-false (usd.is_absolute path && usd.is_prim_path path) e_prim,
              set_active_of-IsChanged stage path active prim refl e2,
            ),
        λ (e_some, e_text, e_prim, c).
            gets_to P (is_empty prim_path || not (usd.is_valid_path prim_path))
              (stage, invalid_path) _ (rw (e_some, e_text))
              (gets_to P (not (usd.is_absolute path && usd.is_prim_path path)) (stage, invalid_path)
                (set_active_of usd stage active prim) (ap not e_prim)
                (set_active_of-ok stage path active c)),
      )
