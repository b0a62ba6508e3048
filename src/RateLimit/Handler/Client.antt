-- ===== src/RateLimit/Handler/Client.antt =====
-- Whom `RateLimitHandler` (source/middleware/RateLimitHandler.h) takes a request to come from, and
-- which route it takes it to be for.
use idtx_core.Base.{
  ℕ, ◌≡◌, refl, ap, sym, ◌∙◌, Bool, true, false, not, [], ◌∷◌, ◌++◌, Str, all, and-true, arith,
}
use idtx_core.Bytes.{has, is_empty, before, drop_while, drop_while_end}
use idtx_core.RateLimit.Handler.{
  Handler, Request, Readings, is_blank, resolve_client_ip, normalise_path, is_login, is_upload,
  before_handle, max_body,
}

before-append : (c : ℕ) (s t : Str) → has c s ≡ false → before c (s ++ c ∷ t) ≡ s
unfolding before
before-append c [] t h = ground arith
before-append c (b ∷ s) t h = ground (arith, before-append c s t)

before-whole : (c : ℕ) (s : Str) → has c s ≡ false → before c s ≡ s
unfolding before
before-whole c [] h = refl
before-whole c (b ∷ s) h = ground (arith, before-whole c s)

not-true : (a : Bool) → not a ≡ true → a ≡ false
not-true true h = cc
not-true false h = refl

drop_while-append :
    (p : ℕ → Bool) (s t : Str) → all p s ≡ true → drop_while p (s ++ t) ≡ drop_while p t
unfolding drop_while
drop_while-append p [] t h = refl
drop_while-append p (c ∷ s) t h = ground (arith, drop_while-append p s t)

drop_while_end-all : (p : ℕ → Bool) (s : Str) → all p s ≡ true → drop_while_end p s ≡ []
unfolding drop_while_end
drop_while_end-all p [] h = refl
drop_while_end-all p (c ∷ s) h = ground (arith, drop_while_end-all p s)

-- None of the bytes is one that is trimmed off.
abbrev pub all_but : (ℕ → Bool) → Str → Bool
all_but p s = all (λ c. not (p c)) s

drop_while-kept : (p : ℕ → Bool) (c : ℕ) (s : Str) → p c ≡ false → drop_while p (c ∷ s) ≡ c ∷ s
unfolding drop_while
drop_while-kept p c s h = ground arith

drop_while_end-append :
    (p : ℕ → Bool) (s t : Str) → all_but p s ≡ true → all p t ≡ true → drop_while_end p (s ++ t) ≡ s
unfolding drop_while_end
drop_while_end-append p [] t hs ht = drop_while_end-all p t ht
drop_while_end-append p (c ∷ s) t hs ht = ground (arith, drop_while_end-append p s t)

has-append : (c : ℕ) (s t : Str) → has c s ≡ false → has c t ≡ false → has c (s ++ t) ≡ false
has-append c [] t hs ht = ht
has-append c (b ∷ s) t hs ht = ground (arith, has-append c s t)

has-blanks : (s : Str) → all is_blank s ≡ true → has b',' s ≡ false
has-blanks [] h = refl
has-blanks (c ∷ s) h = ground (arith, has-blanks s)

is_empty-append : (s : Str) (c : ℕ) (t : Str) → is_empty (s ++ c ∷ t) ≡ false
is_empty-append [] c t = refl
is_empty-append (b ∷ s) c t = refl

-- An address between blanks.
abbrev pub padded : Str → Str → Str → Str
padded left address right = left ++ (address ++ right)

trimmed_address :
    (left right : Str) (c : ℕ) (address : Str)
    → all is_blank left ≡ true
    → all is_blank right ≡ true
    → all_but is_blank (c ∷ address) ≡ true
    → drop_while_end is_blank (drop_while is_blank (padded left (c ∷ address) right)) ≡ c ∷ address
trimmed_address left right c address hl hr ha =
    let bare : is_blank c ≡ false =
      not-true _ (and-true (not (is_blank c)) (all_but is_blank address) ha).0 in
    ap (drop_while_end is_blank) (
      drop_while-append is_blank left (c ∷ address ++ right) hl
      ∙ drop_while-kept is_blank c (address ++ right) bare)
    ∙ drop_while_end-append is_blank (c ∷ address) right ha hr

has-padded :
    (left address right : Str)
    → all is_blank left ≡ true
    → all is_blank right ≡ true
    → has b',' address ≡ false
    → has b',' (padded left address right) ≡ false
has-padded left address right hl hr comma =
    has-append b',' left (address ++ right) (has-blanks left hl)
      (has-append b',' address right comma (has-blanks right hr))

-- A nonempty first entry of the forwarding header that has neither blanks nor a comma is the
-- client, whatever blanks stand around it and whatever entries follow.
pub resolve_client_ip-first_entry :
    (r : Request) (left right others : Str) (c : ℕ) (address : Str)
    → r.forwarded_for ≡ padded left (c ∷ address) right ++ b',' ∷ others
    → all is_blank left ≡ true
    → all is_blank right ≡ true
    → all_but is_blank (c ∷ address) ≡ true
    → has b',' (c ∷ address) ≡ false
    → resolve_client_ip r true ≡ c ∷ address
unfolding resolve_client_ip
resolve_client_ip-first_entry r left right others c address e hl hr ha comma =
    let entry : before b',' r.forwarded_for ≡ padded left (c ∷ address) right =
      ap (before b',') e
      ∙ before-append b',' (padded left (c ∷ address) right) others
          (has-padded left (c ∷ address) right hl hr comma) in
    let trimmed : drop_while_end is_blank (drop_while is_blank (before b',' r.forwarded_for))
        ≡ c ∷ address =
      ap (λ s. drop_while_end is_blank (drop_while is_blank s)) entry
      ∙ trimmed_address left right c address hl hr ha in
    let present : is_empty r.forwarded_for ≡ false =
      ap is_empty e ∙ is_empty-append (padded left (c ∷ address) right) b',' others in
    simp (present, trimmed)

-- A query string does not change what becomes of a request.
pub route_without_query :
    (h : Handler) (r : Request) (t : Readings) (path query : Str)
    → has b'?' path ≡ false
    → before_handle h (record r { url = path ++ b'?' ∷ query }) t
      ≡ before_handle h (record r { url = path }) t
unfolding normalise_path is_login is_upload max_body resolve_client_ip before_handle
route_without_query h r t path query bare =
    let e : normalise_path (path ++ b'?' ∷ query) ≡ normalise_path path =
      before-append b'?' path query bare ∙ sym (before-whole b'?' path bare) in
    rw e refl
