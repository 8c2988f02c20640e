-- ===== src/Admin/Mux/Segments.antt =====
-- The segments of a path that ends in an identifier.
use helix_gateway.Base.{
  ℕ, Text, Bool, is_empty, ◌==◌, leb, not, ◌&&◌, ◌||◌, true, false, all, [], ◌∷◌, ◌++◌, refl, ◌≡◌,
  arith,
}
use helix_gateway.Admin.Mux.{segments}

-- A letter, a digit, a dash or an underscore, which net/url and net/http leave as it is.
unfoldable pub is_plain : ℕ → Bool
is_plain c =
    (leb b'a' c && leb c b'z')
    || (leb b'A' c && leb c b'Z')
    || (leb b'0' c && leb c b'9')
    || c == b'-'
    || c == b'_'

-- A path of such characters and slashes stands for itself in a URL.
abbrev pub is_plain_path : Text → Bool
is_plain_path path = all (λ c. is_plain c || c == b'/') path

-- An identifier that is one segment of a path: not empty, and of plain characters, as in a UUID.
abbrev pub IsSegment : Text → Type 0
IsSegment id = (is_empty id ≡ false) × (all is_plain id ≡ true)

-- There is no slash in it.
pub plain-no_slash : (s : Text) → all is_plain s ≡ true → all (λ c. not (c == b'/')) s ≡ true
unfolding is_plain
plain-no_slash [] h = refl
plain-no_slash (c ∷ s) h =
    let rest : all is_plain s ≡ true = ground arith in
    let later = plain-no_slash s rest in ground arith

pub plain-id : (s : Text) → all is_plain s ≡ true → is_plain_path s ≡ true
plain-id [] h = refl
plain-id (c ∷ s) h =
    let here : is_plain c ≡ true = ground arith in
    let rest : all is_plain s ≡ true = ground arith in let later = plain-id s rest in ground arith

pub plain-append :
    (s t : Text) → is_plain_path s ≡ true → is_plain_path t ≡ true → is_plain_path (s ++ t) ≡ true
plain-append [] t h k = k
plain-append (c ∷ s) t h k =
    let rest : is_plain_path s ≡ true = ground arith in
    let later = plain-append s t rest k in ground arith

pub segments-one : (s : Text) → all (λ c. not (c == b'/')) s ≡ true → segments s ≡ s ∷ []
unfolding segments
segments-one [] h = refl
segments-one (c ∷ s) h =
    let no : (c == b'/') ≡ false = ground arith in
    let rest : all (λ c. not (c == b'/')) s ≡ true = ground arith in
    rw (no, segments-one s rest) refl

pub segments-before :
    (s t : Text) → all (λ c. not (c == b'/')) s ≡ true → segments (s ++ b'/' ∷ t) ≡ s ∷ segments t
unfolding segments
segments-before [] t h = refl
segments-before (c ∷ s) t h =
    let no : (c == b'/') ≡ false = ground arith in
    let rest : all (λ c. not (c == b'/')) s ≡ true = ground arith in
    rw (no, segments-before s t rest) refl
