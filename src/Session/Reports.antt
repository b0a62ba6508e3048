-- ===== src/Session/Reports.antt =====
-- Which prims `OnObjectsChanged` of source/session/StageNoticeListener.cpp finds in a notice.
use mathlib.Core.List.{Memᴰ}
use mathlib.Core.Path.{subst}
use idtx_core.Base.{
  ℕ, ◌≡◌, refl, sym, ap, ◌∙◌, Bool, true, false, ◌&&◌, List, [], ◌∷◌, Str, arith, ltb, ◌==◌,
  if◌then◌else◌, or-false,
}
use idtx_core.Session.Stage.{Notice, SdfPath, prim_path, property_path, other_path}
use idtx_core.Session.Notices.{
  str_lt, is_xform_name, is_xform_attribute, insert, insert_xforms, insert_resynced, affected_prims,
}
use idtx_core.Session.Refines.Sends.{either_way}

-- The notice says that the prim itself is composed anew, or that one of its transform attributes
-- is, or has another value.
pub data Reports (n : Notice) (path : Str) : Type 0 where
  composed : Memᴰ (prim_path path) n.resynced → Reports n path
  attribute_composed :
      (name : Str)
      → is_xform_name name ≡ true
      → Memᴰ (property_path path name) n.resynced
      → Reports n path
  attribute_changed :
      (name : Str)
      → is_xform_name name ≡ true
      → Memᴰ (property_path path name) n.changed_info_only
      → Reports n path

if_cases :
    {A : Type 0} (P : A → Type 0) (test : Bool) (a b : A)
    → (test ≡ true → P a)
    → (test ≡ false → P b)
    → P (if test then a else b)
if_cases P true a b ha hb = ha refl
if_cases P false a b ha hb = hb refl

same_code : (c d : ℕ) → ltb c d ≡ false → ltb d c ≡ false → c ≡ d
same_code c d h k = ground arith

same_test : (c d : ℕ) (rest : Bool) → c ≡ d → (c == d) && rest ≡ false → rest ≡ false
same_test c d rest e h = ground arith

-- Of two different texts one comes first.
str_lt-total : (a b : Str) → str_lt a b ≡ false → str_lt b a ≡ false → a ≡ b
str_lt-total [] [] h k = refl
str_lt-total [] (d ∷ b) h k = cc
str_lt-total (c ∷ a) [] h k = cc
str_lt-total (c ∷ a) (d ∷ b) h k =
    let (h0, h1) = or-false (ltb c d) ((c == d) && str_lt a b) h in
    let (k0, k1) = or-false (ltb d c) ((d == c) && str_lt b a) k in
    let e = same_code c d h0 k0 in
    let es =
      str_lt-total a b (same_test c d (str_lt a b) e h1) (same_test d c (str_lt b a) (sym e) k1) in
    ap (λ x. x ∷ a) e ∙ ap (λ xs. d ∷ xs) es

insert-self : (x : Str) (ys : List Str) → Memᴰ x (insert x ys)
unfolding insert
insert-self x [] = Memᴰ.head refl
insert-self x (y ∷ ys) =
    if_cases (Memᴰ x) (str_lt x y) _ _ (λ e. Memᴰ.head refl)
      (λ e.
        if_cases (Memᴰ x) (str_lt y x) _ _ (λ f. Memᴰ.tail (insert-self x ys))
          (λ f. Memᴰ.head (str_lt-total x y e f)))

insert-keeps : (x p : Str) (ys : List Str) → Memᴰ p ys → Memᴰ p (insert x ys)
unfolding insert
insert-keeps x p [] m = elim m [ ]
insert-keeps x p (y ∷ ys) (Memᴰ.head e) =
    either_way (Memᴰ p) (str_lt x y) _ _ (Memᴰ.tail (Memᴰ.head e))
      (either_way (Memᴰ p) (str_lt y x) _ _ (Memᴰ.head e) (Memᴰ.head e))
insert-keeps x p (y ∷ ys) (Memᴰ.tail m) =
    either_way (Memᴰ p) (str_lt x y) _ _ (Memᴰ.tail (Memᴰ.tail m))
      (either_way (Memᴰ p) (str_lt y x) _ _ (Memᴰ.tail (insert-keeps x p ys m)) (Memᴰ.tail m))

insert_if-keeps :
    (test : Bool) (x p : Str) (acc : List Str)
    → Memᴰ p acc
    → Memᴰ p (if test then insert x acc else acc)
insert_if-keeps test x p acc m = either_way (Memᴰ p) test _ _ (insert-keeps x p acc m) m

insert_xforms-keeps :
    (ps : List SdfPath) (p : Str) (acc : List Str) → Memᴰ p acc → Memᴰ p (insert_xforms ps acc)
unfolding insert_xforms
insert_xforms-keeps [] p acc m = m
insert_xforms-keeps (prim_path q ∷ ps) p acc m = insert_xforms-keeps ps p acc m
insert_xforms-keeps (property_path q name ∷ ps) p acc m =
    insert_xforms-keeps ps p _
      (insert_if-keeps (is_xform_attribute (property_path q name)) q p acc m)
insert_xforms-keeps (other_path ∷ ps) p acc m = insert_xforms-keeps ps p acc m

insert_resynced-keeps :
    (ps : List SdfPath) (p : Str) (acc : List Str) → Memᴰ p acc → Memᴰ p (insert_resynced ps acc)
unfolding insert_resynced
insert_resynced-keeps [] p acc m = m
insert_resynced-keeps (prim_path q ∷ ps) p acc m =
    insert_resynced-keeps ps p _ (insert-keeps q p acc m)
insert_resynced-keeps (property_path q name ∷ ps) p acc m =
    insert_resynced-keeps ps p _
      (insert_if-keeps (is_xform_attribute (property_path q name)) q p acc m)
insert_resynced-keeps (other_path ∷ ps) p acc m = insert_resynced-keeps ps p acc m

insert_if-self :
    (p name : Str) (acc : List Str)
    → is_xform_name name ≡ true
    → Memᴰ p (if is_xform_attribute (property_path p name) then insert p acc else acc)
unfolding is_xform_attribute
insert_if-self p name acc e =
    subst (λ t. Memᴰ p (if t then insert p acc else acc)) (sym e) (insert-self p acc)

insert_xforms-finds :
    (ps : List SdfPath) (p name : Str) (acc : List Str)
    → is_xform_name name ≡ true
    → Memᴰ (property_path p name) ps
    → Memᴰ p (insert_xforms ps acc)
unfolding insert_xforms
insert_xforms-finds [] p name acc e m = elim m [ ]
insert_xforms-finds (x ∷ ps) p name acc e (Memᴰ.head same) =
    subst (λ y. Memᴰ p (insert_xforms (y ∷ ps) acc)) same
      (insert_xforms-keeps ps p _ (insert_if-self p name acc e))
insert_xforms-finds (prim_path q ∷ ps) p name acc e (Memᴰ.tail m) =
    insert_xforms-finds ps p name _ e m
insert_xforms-finds (property_path q n ∷ ps) p name acc e (Memᴰ.tail m) =
    insert_xforms-finds ps p name _ e m
insert_xforms-finds (other_path ∷ ps) p name acc e (Memᴰ.tail m) =
    insert_xforms-finds ps p name _ e m

insert_resynced-finds :
    (ps : List SdfPath) (p : Str) (x : SdfPath) (acc : List Str)
    → ((acc' : List Str) (rest : List SdfPath) → Memᴰ p (insert_resynced (x ∷ rest) acc'))
    → Memᴰ x ps
    → Memᴰ p (insert_resynced ps acc)
unfolding insert_resynced
insert_resynced-finds [] p x acc k m = elim m [ ]
insert_resynced-finds (y ∷ ps) p x acc k (Memᴰ.head same) =
    subst (λ z. Memᴰ p (insert_resynced (z ∷ ps) acc)) same (k acc ps)
insert_resynced-finds (prim_path q ∷ ps) p x acc k (Memᴰ.tail m) =
    insert_resynced-finds ps p x _ k m
insert_resynced-finds (property_path q n ∷ ps) p x acc k (Memᴰ.tail m) =
    insert_resynced-finds ps p x _ k m
insert_resynced-finds (other_path ∷ ps) p x acc k (Memᴰ.tail m) = insert_resynced-finds ps p x _ k m

-- No prim that a notice reports is left out.
pub affected_prims-Reports :
    (n : Notice) (path : Str) → Reports n path → Memᴰ path (affected_prims n)
unfolding affected_prims insert_resynced
affected_prims-Reports n path (composed m) =
    insert_resynced-finds n.resynced path (prim_path path) _
      (λ acc rest. insert_resynced-keeps rest path _ (insert-self path acc)) m
affected_prims-Reports n path (attribute_composed name e m) =
    insert_resynced-finds n.resynced path (property_path path name) _
      (λ acc rest. insert_resynced-keeps rest path _ (insert_if-self path name acc e)) m
affected_prims-Reports n path (attribute_changed name e m) =
    insert_resynced-keeps n.resynced path _
      (insert_xforms-finds n.changed_info_only path name [] e m)
