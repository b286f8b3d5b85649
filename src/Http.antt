-- ===== src/Http.antt =====
-- The part of HTTP that the servers and clients share: core/node/protocol.go and the header constants
-- of core/control/api.go, which are the same.
use nft_soket.Base.{
  ℕ, ◌≡◌, refl, Bool, not, ◌&&◌, Option, none, some, List, [], ◌∷◌, ◌++◌, if◌then◌else◌,
}
use nft_soket.Base.Text.{Text, codes, text_eq, is_empty, after_prefix}

abbrev pub api_version : Text
api_version = codes "1"

abbrev pub api_header : Text
api_header = codes "X-Vault-Api"

abbrev pub auth_header : Text
auth_header = codes "Authorization"

abbrev pub auth_scheme : Text
auth_scheme = codes "Bearer "

pub data Method : Type 0 where
  get head put post : Method

-- Get of http.Header: an absent header is the empty string.
abbrev pub Headers : Type 0
Headers = Text → Text

-- A body, and whether reading it fails.
pub record Body : Type 0 where
  pub content : List ℕ
  pub fails : Bool

-- The status and the body. A body that breaks off counts as no response.
pub record Response : Type 0 where
  pub status : ℕ
  pub body : List ℕ

abbrev pub reply : ℕ → Response
reply code = record { status = code; body = [] }

abbrev token_of : Option Text → Text
token_of none = []
token_of (some token) = token

-- `bearer` and `bearerToken`: what follows the scheme, or nothing.
unfoldable pub bearer : Headers → Text
bearer headers = token_of (after_prefix auth_scheme (headers auth_header))

-- What `do` of the node's client and `req` of the control client set: the version, and the token
-- unless it is empty.
unfoldable pub client_headers : Text → Headers
client_headers token name =
    if text_eq name api_header
    then api_version
    else if text_eq name auth_header && not (is_empty token)
    then auth_scheme ++ token
    else []

pub bearer-client_headers : (token : Text) → bearer (client_headers token) ≡ token
unfolding bearer client_headers text_eq after_prefix
bearer-client_headers [] = refl
bearer-client_headers (c ∷ cs) = refl

pub version-client_headers : (token : Text) → client_headers token api_header ≡ api_version
unfolding client_headers text_eq
version-client_headers token = refl
