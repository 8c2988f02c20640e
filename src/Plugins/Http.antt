-- ===== src/Plugins/Http.antt =====
-- internal/plugin: what a plugin sees of a request and of its answer (plugin.go, context.go), and
-- the chaining of plugins. A handler gets the response headers that are set so far and the request,
-- and gives the response. Header names stand in their canonical form, each with one value.
pub mod Order
use helix_gateway.Base.{
  ℕ, zero, suc, get_elem?, length, ◌==◌, ◌||◌, ◌&&◌, ltb, leb, Text, text, text_eq, is_empty, Bool,
  true, false, List, [], ◌∷◌, ◌++◌, Option, none, some, Table, lookup, insert, if◌then◌else◌,
}
use helix_gateway.Store.Model.{PluginRef, Fields}

-- auth.Claims, of which the program reads the subject and the role.
pub record Claims : Type 0 where
  pub subject : Text
  pub role : Text

pub record HttpRequest : Type 0 where
  pub method : Text
  pub path : Text
  pub raw_query : Text
  pub headers : Table Text
  pub cookies : Table Text
  pub remote_addr : Text
  pub claims : Option Claims

pub record Response : Type 0 where
  pub status : ℕ
  pub headers : Table Text
  pub body : Text

abbrev pub Handler : Type 0
Handler = Table Text → HttpRequest → Response

abbrev pub Plugin : Type 0
Plugin = Handler → Handler

-- Header.Get
abbrev pub header : Text → HttpRequest → Text
header name r = elim (lookup name r.headers) [ none ↦ [] | some v ↦ v ]

-- WriteJSON
unfoldable pub write_json : Table Text → ℕ → Text → Response
write_json w status body = record {
  status = status;
  headers = insert (text "Content-Type") (text "application/json") w;
  body = body;
}

-- The loop of Chain, before the round for the index below i.
unfoldable pub chain_from : ℕ → Handler → List Plugin → Handler
chain_from zero h ps = h
chain_from (suc i) h ps = elim (get_elem? ps i) [ none ↦ h | some p ↦ chain_from i (p h) ps ]

-- Chain
unfoldable pub chain : Handler → List Plugin → Handler
chain h ps = chain_from (length ps) h ps

-- The ASCII white space.
abbrev pub is_space : ℕ → Bool
is_space c = c == 32 || c == 9 || c == 10 || c == 11 || c == 12 || c == 13

-- The other white space of unicode.IsSpace, in UTF-8: U+0085 and U+00A0 in two bytes, and in three
-- U+1680, U+2000 to U+200A, U+2028, U+2029, U+202F, U+205F and U+3000.
abbrev pub is_space2 : ℕ → ℕ → Bool
is_space2 a b = a == 194 && (b == 133 || b == 160)

abbrev pub is_space3 : ℕ → ℕ → ℕ → Bool
is_space3 a b c =
    (a == 225 && b == 154 && c == 128)
    || (a == 226 && b == 128 && ((leb 128 c && leb c 138) || c == 168 || c == 169 || c == 175))
    || (a == 226 && b == 129 && c == 159)
    || (a == 227 && b == 128 && c == 128)

-- How many bytes of a text are its first rune, if that is white space, and 0 otherwise.
unfoldable pub first_space : Text → ℕ
first_space [] = 0
first_space (a ∷ []) = if is_space a then 1 else 0
first_space (a ∷ b ∷ []) = if is_space a then 1 else if is_space2 a b then 2 else 0
first_space (a ∷ b ∷ c ∷ s) =
    if is_space a then 1 else if is_space2 a b then 2 else if is_space3 a b c then 3 else 0

-- The same of the last rune, for the bytes from the last on.
unfoldable pub last_space : Text → ℕ
last_space [] = 0
last_space (a ∷ []) = if is_space a then 1 else 0
last_space (b ∷ a ∷ []) = if is_space b then 1 else if is_space2 a b then 2 else 0
last_space (c ∷ b ∷ a ∷ s) =
    if is_space c then 1 else if is_space2 b c then 2 else if is_space3 a b c then 3 else 0

-- The text behind the white space at its start; the first argument counts the bytes of a rune that
-- are still to go.
unfoldable pub trim_from : (Text → ℕ) → ℕ → Text → Text
trim_from width n [] = []
trim_from width (suc n) (c ∷ s) = trim_from width n s
trim_from width zero (c ∷ s) = elim (width (c ∷ s)) [ zero ↦ c ∷ s | suc n ↦ trim_from width n s ]

unfoldable pub reverse_onto : Text → Text → Text
reverse_onto [] t = t
reverse_onto (c ∷ s) t = reverse_onto s (c ∷ t)

-- strings.TrimSpace
unfoldable pub trim_space : Text → Text
trim_space s =
    let left = trim_from first_space 0 s in
    reverse_onto (trim_from last_space 0 (reverse_onto left [])) []

-- strings.SplitN(s, ",", 2)[0]
unfoldable pub before_comma : Text → Text
before_comma [] = []
before_comma (c ∷ s) = let rest = before_comma s in if c == b',' then [] else c ∷ rest

-- ClientIP; `split_host` is the host that net.SplitHostPort gives.
unfoldable pub client_ip : (Text → Text) → HttpRequest → Text
client_ip split_host r =
    let xff = trim_space (before_comma (header (text "X-Forwarded-For") r)) in
    let xri = header (text "X-Real-Ip") r in
    if is_empty xff then (if is_empty xri then split_host r.remote_addr else xri) else xff

-- Registry: a factory gives `none` for an error.
abbrev pub Registry : Type 0
Registry = Table (Fields → Option Plugin)

-- Register
unfoldable pub register : Text → (Fields → Option Plugin) → Registry → Registry
register name f reg = insert name f reg

-- Build
unfoldable pub build : Text → Fields → Registry → Option Plugin
build name config reg = elim (lookup name reg) [ none ↦ none | some f ↦ f config ]

-- The loop of buildRouteHandler in internal/router/router.go: a plugin that is not built is skipped.
unfoldable pub build_plugins : Registry → List PluginRef → List Plugin
build_plugins reg [] = []
build_plugins reg (ref ∷ refs) =
    let rest = build_plugins reg refs in
    elim (build ref.name ref.config reg) [ none ↦ rest | some p ↦ p ∷ rest ]
