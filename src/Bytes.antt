-- ===== src/Bytes.antt =====
-- What the sources under source/ use of `std::string`: searches and cuts, over bytes.
use idtx_core.Base.{
  ℕ, ◌≡◌, refl, sym, ◌∙◌, if_pos, if_neg, Bool, true, false, ◌||◌, ◌&&◌, Option, none, some, [],
  ◌∷◌, Str, Str-discrete, ite, if◌then◌else◌, ◌==◌, leb,
}

-- `s.find(c) != npos`
abbrev pub has : ℕ → Str → Bool
has c [] = false
has c (b ∷ s) = b == c || has c s

-- `s.find("..") != npos`
abbrev pub has_dots : Str → Bool
has_dots [] = false
has_dots (a ∷ []) = false
has_dots (a ∷ b ∷ s) = (a == b'.' && b == b'.') || has_dots (b ∷ s)

abbrev pub is_empty : Str → Bool
is_empty [] = true
is_empty (c ∷ s) = false

-- `s.substr(0, s.find(c))`, and `s` itself where `c` does not occur
unfoldable pub before : ℕ → Str → Str
before c [] = []
before c (b ∷ s) = if b == c then [] else b ∷ before c s

-- Bytes are taken off the front, and off the back, as long as they pass the test.
unfoldable pub drop_while : (ℕ → Bool) → Str → Str
drop_while p [] = []
drop_while p (c ∷ s) = if p c then drop_while p s else c ∷ s

unfoldable pub drop_while_end : (ℕ → Bool) → Str → Str
drop_while_end p [] = []
drop_while_end p (c ∷ s) =
    let rest = drop_while_end p s in if p c && is_empty rest then [] else c ∷ rest

unfoldable pub ends_with : Str → Str → Bool
ends_with suffix [] = is_empty suffix
ends_with suffix (c ∷ s) = ite (Str-discrete (c ∷ s) suffix) true (ends_with suffix s)

abbrev pub is_alnum : ℕ → Bool
is_alnum c = (leb b'a' c && leb c b'z') || (leb b'A' c && leb c b'Z') || (leb b'0' c && leb c b'9')

-- `s == t`
unfoldable pub same : Str → Str → Bool
same s t = ite (Str-discrete s t) true false

-- What stands behind the prefix; `none` where `s.starts_with(prefix)` fails.
abbrev pub after_prefix : Str → Str → Option Str
after_prefix [] s = some s
after_prefix (c ∷ prefix) [] = none
after_prefix (c ∷ prefix) (b ∷ s) = if b == c then after_prefix prefix s else none

distinct : ¬ (true ≡ false)
distinct e = cc

pub same→eq : (s t : Str) → same s t ≡ true → s ≡ t
unfolding same
same→eq s t h = elim (Str-discrete s t) [
  | yes e ↦ e
  | no n ↦ absurd (distinct (sym h ∙ if_neg (Str-discrete s t) n true false))
]

pub same_refl : (s : Str) → same s s ≡ true
unfolding same
same_refl s = if_pos (Str-discrete s s) refl true false
