-- ===== src/Http/Middleware.antt =====
-- app/middlewares/csrf.py, security_headers.py and request_context.py. A middleware turns the rest of the application,
-- from a request to an outcome, into another. `lower` is Python's `str.lower`. The name of a header is in
-- lower case, as Starlette stores it and compares it.
use repo_info_backend.Core.Errors.{Exception}
use repo_info_backend.Prelude.{
  Bool, List, Option, String, Text, [], codes, false, if◌then◌else◌, is_none, nat_eq, none, some,
  starts_with, string_eq, text_eq, true, ℕ, ◌++◌, ◌==◌, ◌||◌, ◌∷◌,
}

-- what the middlewares read of a request
pub record HttpRequest : Type 0 where
  pub method : String
  pub path : Text
  pub authorization : Option Text
  pub csrf_header : Option Text
  pub csrf_cookie : Option Text
  pub request_id : Option String

pub record HttpResponse : Type 0 where
  pub status : ℕ
  pub code : Option String
  pub headers : List (String × String)

-- A handler that raises what no handler of exceptions inside the middlewares takes has no response here.
pub data Outcome : Type 0 where
  response : HttpResponse → Outcome
  raised : Exception → Outcome

-- `response = await call_next(request)`, and what is done to the response
abbrev pub with_response : (HttpResponse → HttpResponse) → Outcome → Outcome
with_response f (Outcome.response r) = Outcome.response (f r)
with_response f (Outcome.raised e) = Outcome.raised e

abbrev pub safe_methods : List String
safe_methods = "GET" ∷ "HEAD" ∷ "OPTIONS" ∷ "TRACE" ∷ []

abbrev pub is_member : String → List String → Bool
is_member x [] = false
is_member x (y ∷ ys) = x == y || is_member x ys

-- `f"{settings.API_V1_PREFIX}/auth/oauth"` and `…/billing/webhook`
abbrev pub is_exempt : Text → Text → Bool
is_exempt api_prefix path =
    starts_with (api_prefix ++ codes "/auth/oauth") path
    || starts_with (api_prefix ++ codes "/billing/webhook") path

abbrev bearer_header : (Text → Text) → Option Text → Bool
bearer_header lower none = starts_with (codes "bearer ") (lower [])
bearer_header lower (some value) = starts_with (codes "bearer ") (lower value)

-- the requests that are not checked
unfoldable pub is_unchecked : (Text → Text) → Text → HttpRequest → Bool
is_unchecked lower api_prefix request =
    is_member request.method safe_methods
    || (is_exempt api_prefix request.path
        || (bearer_header lower request.authorization || is_none request.csrf_cookie))

-- `cookie_token and header_token and cookie_token == header_token`; an empty text is false
abbrev pub tokens_agree : Option Text → Option Text → Bool
tokens_agree none header = false
tokens_agree (some []) header = false
tokens_agree (some (c ∷ cs)) none = false
tokens_agree (some (c ∷ cs)) (some header) = (c ∷ cs) == header

-- the JSON body has 99 bytes
abbrev pub csrf_invalid : HttpResponse
csrf_invalid = record {
  status = 403;
  code = some "csrf_invalid";
  headers = ("content-length", "99") ∷ ("content-type", "application/json") ∷ [];
}

unfoldable pub csrf_dispatch :
    (Text → Text) → Text → (HttpRequest → Outcome) → HttpRequest → Outcome
unfolding is_unchecked
csrf_dispatch lower api_prefix call_next request =
    if is_unchecked lower api_prefix request
    then call_next request
    else if tokens_agree request.csrf_cookie request.csrf_header
    then call_next request
    else Outcome.response csrf_invalid

abbrev pub drop_header : String → List (String × String) → List (String × String)
drop_header name [] = []
drop_header name (h ∷ hs) = if h.0 == name then drop_header name hs else h ∷ drop_header name hs

-- `response.headers[name] = value`: the first of that name is replaced, and others are removed
abbrev pub set_header : String → String → List (String × String) → List (String × String)
set_header name value [] = (name, value) ∷ []
set_header name value (h ∷ hs) =
    if h.0 == name then (name, value) ∷ drop_header name hs else h ∷ set_header name value hs

abbrev pub get_header : String → List (String × String) → Option String
get_header name [] = none
get_header name (h ∷ hs) = if h.0 == name then some h.1 else get_header name hs

abbrev pub fixed_headers : List (String × String)
fixed_headers =
    ("x-content-type-options", "nosniff")
    ∷ ("x-frame-options", "DENY")
    ∷ ("referrer-policy", "strict-origin-when-cross-origin")
    ∷ ("permissions-policy", "geolocation=(), microphone=(), camera=(), payment=(), usb=()")
    ∷ ("cross-origin-opener-policy", "same-origin")
    ∷ ("cross-origin-resource-policy", "cross-origin")
    ∷ []

abbrev pub set_headers : List (String × String) → List (String × String) → List (String × String)
set_headers [] headers = headers
set_headers (h ∷ hs) headers = set_headers hs (set_header h.0 h.1 headers)

abbrev pub is_docs : Text → Bool
is_docs path =
    path == codes "/docs" || (path == codes "/docs/oauth2-redirect" || path == codes "/redoc")

abbrev pub content_policy : Text → String
content_policy path =
    if is_docs path
    then "default-src 'self'; script-src 'self' 'unsafe-inline' cdn.jsdelivr.net; style-src 'self' 'unsafe-inline' cdn.jsdelivr.net; img-src 'self' data: fastapi.tiangolo.com"
    else "default-src 'none'"

abbrev pub transport : Bool → List (String × String)
transport false = []
transport true = ("strict-transport-security", "max-age=63072000; includeSubDomains; preload") ∷ []

abbrev pub secured : Bool → Text → HttpResponse → HttpResponse
secured is_production path r = record r {
  headers =
      set_header "content-security-policy" (content_policy path)
        (set_headers (transport is_production) (set_headers fixed_headers r.headers));
}

unfoldable pub security_dispatch : Bool → (HttpRequest → Outcome) → HttpRequest → Outcome
security_dispatch is_production call_next request =
    with_response (secured is_production request.path) (call_next request)

-- `request.headers.get(REQUEST_ID_HEADER) or str(uuid.uuid4())`
abbrev pub id_or : Option String → String → String
id_or none fresh = fresh
id_or (some given) fresh = if given == "" then fresh else given

abbrev pub numbered : String → HttpResponse → HttpResponse
numbered id r = record r { headers = set_header "x-request-id" id r.headers }

-- the logging is left out; `fresh` is the new UUID
unfoldable pub context_dispatch : String → (HttpRequest → Outcome) → HttpRequest → Outcome
context_dispatch fresh call_next request =
    with_response (numbered (id_or request.request_id fresh)) (call_next request)
