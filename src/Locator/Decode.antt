-- ===== src/Locator/Decode.antt =====
-- `PercentDecode` of source/utils/UsdFileLocator.h.
use idtx_core.Base.{
  ℕ, ◌+◌, ◌-◌, ◌*◌, ◌≡◌, refl, Bool, true, false, ◌&&◌, Option, none, some, [], ◌∷◌, Str, ◌==◌, leb,
  if◌then◌else◌, arith, Bool-cases, Option-cases, inl, inr, ◌⊎◌,
}
use mathlib.Core.Option
use idtx_core.Bytes.{has}

-- The lambda `hex`; -1 is `none`.
unfoldable pub hex : ℕ → Option ℕ
hex c =
    if leb b'0' c && leb c b'9'
    then some (c - b'0')
    else if leb b'A' c && leb c b'F'
    then some (10 + (c - b'A'))
    else if leb b'a' c && leb c b'f'
    then some (10 + (c - b'a'))
    else none

-- The byte that `%hl` stands for; `none` where the function returns false.
unfoldable pub escaped : Bool → ℕ → ℕ → Option ℕ
unfolding hex
escaped reject_encoded_slash h l = elim (hex h) [
  | none ↦ none
  | some hi ↦ elim (hex l) [
    | none ↦ none
    | some lo ↦
        let byte = hi * 16 + lo in if reject_encoded_slash && byte == b'/' then none else some byte
  ]
]

abbrev pub plain : Bool → ℕ → ℕ
plain decode_plus_as_space c = if c == b'+' && decode_plus_as_space then b' ' else c

abbrev pub prepend : Option ℕ → Option Str → Option Str
prepend none rest = none
prepend (some byte) rest = Option.map (λ t. byte ∷ t) rest

unfoldable pub percent_decode : Bool → Bool → Str → Option Str
percent_decode plus slash [] = some []
percent_decode plus slash (c ∷ []) = if c == b'%' then none else some (plain plus c ∷ [])
percent_decode plus slash (c ∷ h ∷ []) =
    let rest : Option Str = percent_decode plus slash (h ∷ []) in
    if c == b'%' then none else Option.map (λ s. plain plus c ∷ s) rest
percent_decode plus slash (c ∷ h ∷ l ∷ s) =
    let escape : Option Str = prepend (escaped slash h l) (percent_decode plus slash s) in
    let rest : Option Str =
      Option.map (λ t. plain plus c ∷ t) (percent_decode plus slash (h ∷ l ∷ s)) in
    if c == b'%' then escape else rest

-- A text without `%` is its own decoding.
pub percent_decode-plain :
    (slash : Bool) (s : Str) → has b'%' s ≡ false → percent_decode false slash s ≡ some s
unfolding percent_decode
percent_decode-plain slash [] h = refl
percent_decode-plain slash (c ∷ []) h = ground arith
percent_decode-plain slash (c ∷ d ∷ []) h = ground (arith, percent_decode-plain slash (d ∷ []))
percent_decode-plain slash (c ∷ d ∷ e ∷ s) h =
    ground (arith, percent_decode-plain slash (d ∷ e ∷ s))

abbrev RawSlash : Str → Option Str → Type 0
RawSlash s none = Unit {0}
RawSlash s (some t) = has b'/' t ≡ true → has b'/' s ≡ true

abbrev NotSlash : Option ℕ → Type 0
NotSlash none = Unit {0}
NotSlash (some byte) = (byte == b'/') ≡ false

escaped-NotSlash : (h l : ℕ) → NotSlash (escaped true h l)
unfolding escaped
escaped-NotSlash h l = elim (hex-cases h) [
  | inl e ↦ rw (e, escaped) tt
  | inr (hi, e) ↦ elim (hex-cases l) [
    | inl f ↦ rw (e, f, escaped) tt
    | inr (lo, f) ↦ rw (e, f, escaped) (byte_NotSlash (hi * 16 + lo))
  ]
]
  where
    hex-cases : (c : ℕ) → (hex c ≡ none) ⊎ ((a : ℕ) × (hex c ≡ some a))
    hex-cases c = Option-cases (hex c)

    byte_NotSlash : (byte : ℕ) → NotSlash (if true && byte == b'/' then none else some byte)
    byte_NotSlash byte = ground arith

prepend-RawSlash :
    (o : Option ℕ) (r : Option Str) (c d e : ℕ) (s : Str)
    → NotSlash o
    → RawSlash s r
    → RawSlash (c ∷ d ∷ e ∷ s) (prepend o r)
prepend-RawSlash none r c d e s n h = tt
prepend-RawSlash (some byte) none c d e s n h = tt
prepend-RawSlash (some byte) (some t) c d e s n h = λ q. ground arith

plain-RawSlash :
    (plus : Bool) (r : Option Str) (c : ℕ) (s : Str)
    → RawSlash s r
    → RawSlash (c ∷ s) (Option.map (λ t. plain plus c ∷ t) r)
plain-RawSlash plus none c s h = tt
plain-RawSlash plus (some t) c s h = λ q. ground arith

percent_decode-RawSlash : (plus : Bool) (s : Str) → RawSlash s (percent_decode plus true s)
unfolding percent_decode
percent_decode-RawSlash plus [] = λ h. h
percent_decode-RawSlash plus (c ∷ []) = ground arith
percent_decode-RawSlash plus (c ∷ d ∷ []) = elim (Bool-cases (c == b'%')) [
  | inl e ↦ rw e tt
  | inr e ↦ rw e (plain-RawSlash plus _ c (d ∷ []) (percent_decode-RawSlash plus (d ∷ [])))
]
percent_decode-RawSlash plus (c ∷ d ∷ e ∷ s) = elim (Bool-cases (c == b'%')) [
  | inl h ↦ rw h (
      prepend-RawSlash (escaped true d e) _ c d e s (escaped-NotSlash d e)
        (percent_decode-RawSlash plus s))
  | inr h ↦ rw h (plain-RawSlash plus _ c (d ∷ e ∷ s) (percent_decode-RawSlash plus (d ∷ e ∷ s)))
]

-- Where encoded slashes are rejected, a slash in the result stood in the input as it is.
percent_decode_slash :
    (plus : Bool) (s t : Str)
    → percent_decode plus true s ≡ some t
    → has b'/' t ≡ true
    → has b'/' s ≡ true
percent_decode_slash plus s t e h = ground (arith, percent_decode-RawSlash plus s)
