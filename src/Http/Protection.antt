-- ===== src/Http/Protection.antt =====
-- What app/middlewares let through, in the order of app/main.py: the check of the token stands outside
-- the security headers, since the middleware that is added last is the outermost.
use repo_info_backend.Http.Middleware.{
  HttpRequest, HttpResponse, Outcome, content_policy, context_dispatch, csrf_dispatch, csrf_invalid,
  drop_header, fixed_headers, get_header, id_or, is_unchecked, numbered, secured, security_dispatch,
  set_header, set_headers, tokens_agree, transport, with_response,
}
use repo_info_backend.Prelude.{
  All, Bool, Bool-cases, List, String, Text, [], ap, beq_refl, beq→eq, false, inl, inr, nat_eq,
  none, refl, some, string_eq, text_eq, true, ◌==◌, ◌||◌, ◌∙◌, ◌∷◌, ◌≡◌,
}

-- in the order of `add_middleware` in app/main.py, where the last that is added is the outermost
unfoldable pub protected :
    (Text → Text) → Text → Bool → String → (HttpRequest → Outcome) → HttpRequest → Outcome
unfolding csrf_dispatch security_dispatch context_dispatch
protected lower api_prefix is_production fresh handler =
    context_dispatch fresh
      (csrf_dispatch lower api_prefix (security_dispatch is_production handler))

get_header-same :
    (name value : String) (hs : List (String × String))
    → get_header name (set_header name value hs) ≡ some value
get_header-same name value [] = rw (beq_refl name) refl
get_header-same name value (h ∷ hs) = elim (Bool-cases (h.0 == name)) [
  | inl t ↦ rw (t) (rw (beq_refl name) refl)
  | inr f ↦ rw (f) (rw (f) (get_header-same name value hs))
]

get_header-drop_header :
    (name other : String) (hs : List (String × String))
    → (other == name) ≡ false
    → get_header name (drop_header other hs) ≡ get_header name hs
get_header-drop_header name other [] differ = refl
get_header-drop_header name other (h ∷ hs) differ = elim (Bool-cases (h.0 == other)) [
  | inl t ↦
      let not_name : (h.0 == name) ≡ false = ap (λ n. n == name) (beq→eq h.0 other t) ∙ differ in
      rw (t, not_name) (get_header-drop_header name other hs differ)
  | inr f ↦ rw (f) (elim (Bool-cases (h.0 == name)) [
    | inl t ↦ rw (t) refl
    | inr n ↦ rw (n) (get_header-drop_header name other hs differ)
  ])
]

get_header-other :
    (name other value : String) (hs : List (String × String))
    → (other == name) ≡ false
    → get_header name (set_header other value hs) ≡ get_header name hs
get_header-other name other value [] differ = rw (differ) refl
get_header-other name other value (h ∷ hs) differ = elim (Bool-cases (h.0 == other)) [
  | inl t ↦
      let not_name : (h.0 == name) ≡ false = ap (λ n. n == name) (beq→eq h.0 other t) ∙ differ in
      rw (t) (rw (differ, not_name) (get_header-drop_header name other hs differ))
  | inr f ↦ rw (f) (elim (Bool-cases (h.0 == name)) [
    | inl t ↦ rw (t) refl
    | inr n ↦ rw (n) (get_header-other name other value hs differ)
  ])
]

get_header-set_headers :
    (name : String) (hs headers : List (String × String))
    → All (λ (h : String × String). (h.0 == name) ≡ false) hs
    → get_header name (set_headers hs headers) ≡ get_header name headers
get_header-set_headers name [] headers differ = refl
get_header-set_headers name (h ∷ hs) headers differ =
    get_header-set_headers name hs (set_header h.0 h.1 headers) differ.1
    ∙ get_header-other name h.0 h.1 headers differ.0

abbrev DistinctNames : List (String × String) → Type 0
DistinctNames [] = Unit
DistinctNames (h ∷ hs) = All (λ (x : String × String). (x.0 == h.0) ≡ false) hs × DistinctNames hs

set_headers_lem :
    (hs headers : List (String × String))
    → DistinctNames hs
    → All (λ (h : String × String). get_header h.0 (set_headers hs headers) ≡ some h.1) hs
set_headers_lem [] headers distinct = tt
set_headers_lem (h ∷ hs) headers distinct = (
  get_header-set_headers h.0 hs (set_header h.0 h.1 headers) distinct.0
      ∙ get_header-same h.0 h.1 headers,
  set_headers_lem hs (set_header h.0 h.1 headers) distinct.1,
)

transport_other :
    (is_production : Bool) (name : String)
    → ("strict-transport-security" == name) ≡ false
    → All (λ (h : String × String). (h.0 == name) ≡ false) (transport is_production)
transport_other true name strict = (strict, tt)
transport_other false name strict = tt

abbrev pub HasHeaders : List (String × String) → List (String × String) → Type 0
HasHeaders hs headers = All (λ (h : String × String). get_header h.0 headers ≡ some h.1) hs

-- What the answer is to a request that the application has handled with an outcome.
abbrev pub Secures : Text → Outcome → Outcome → Type 0
Secures path (Outcome.raised e) answer = answer ≡ Outcome.raised e
Secures path (Outcome.response r) answer =
    (a : HttpResponse) × (answer ≡ Outcome.response a)
    × (a.status ≡ r.status)
    × HasHeaders fixed_headers a.headers
    × (get_header "content-security-policy" a.headers ≡ some (content_policy path))

abbrev pub Bare : Outcome → Type 0
Bare answer =
    (a : HttpResponse) × (answer ≡ Outcome.response a)
    × (a.status ≡ 403)
    × All (λ (h : String × String). get_header h.0 a.headers ≡ none) fixed_headers
    × (get_header "content-security-policy" a.headers ≡ none)

set_fixed :
    (headers : List (String × String))
    → HasHeaders fixed_headers (set_headers fixed_headers headers)
set_fixed headers = set_headers_lem fixed_headers headers (
  (refl, (refl, (refl, (refl, (refl, tt))))),
  (
    (refl, (refl, (refl, (refl, tt)))),
    ((refl, (refl, (refl, tt))), ((refl, (refl, tt)), ((refl, tt), (tt, tt)))),
  ),
)

numbered-secured :
    (is_production : Bool) (path : Text) (id : String) (o : Outcome)
    → Secures path o (with_response (numbered id) (with_response (secured is_production path) o))
numbered-secured is_production path id (Outcome.raised e) = refl
numbered-secured is_production path id (Outcome.response r) = (
  numbered id (secured is_production path r),
  refl,
  refl,
  (
    kept "x-content-type-options" _ refl refl refl all.0,
    (
      kept "x-frame-options" _ refl refl refl all.1.0,
      (
        kept "referrer-policy" _ refl refl refl all.1.1.0,
        (
          kept "permissions-policy" _ refl refl refl all.1.1.1.0,
          (
            kept "cross-origin-opener-policy" _ refl refl refl all.1.1.1.1.0,
            (kept "cross-origin-resource-policy" _ refl refl refl all.1.1.1.1.1.0, tt),
          ),
        ),
      ),
    ),
  ),
  get_header-other "content-security-policy" "x-request-id" id
        (secured is_production path r).headers refl
      ∙ get_header-same "content-security-policy" (content_policy path) second,
)
  where
    first : List (String × String)
    first = set_headers fixed_headers r.headers

    second : List (String × String)
    second = set_headers (transport is_production) first

    all : HasHeaders fixed_headers first
    all = set_fixed r.headers

    kept :
        (name value : String)
        → ("x-request-id" == name) ≡ false
        → ("content-security-policy" == name) ≡ false
        → ("strict-transport-security" == name) ≡ false
        → get_header name first ≡ some value
        → get_header name (numbered id (secured is_production path r)).headers ≡ some value
    kept name value number policy strict e =
        get_header-other name "x-request-id" id (secured is_production path r).headers number
        ∙ (get_header-other name "content-security-policy" (content_policy path) second policy
            ∙ (get_header-set_headers name (transport is_production) first
                  (transport_other is_production name strict)
                ∙ e))

csrf_invalid-Bare : (id : String) → Bare (Outcome.response (numbered id csrf_invalid))
csrf_invalid-Bare id =
    (numbered id csrf_invalid, refl, refl, (refl, (refl, (refl, (refl, (refl, (refl, tt)))))), refl)

-- A request reaches the application if its method is safe, its path is exempt, it has a bearer token or
-- no cookie with a token, or if cookie and header agree. Its response then has each of the fixed headers and
-- the policy of its path, whatever headers the application has set, while an exception of the application passes
-- through. Any other request is answered with 403 whatever the application would do, and with none of these headers.
pub protected_requests :
    (lower : Text → Text) (api_prefix : Text) (is_production : Bool) (fresh : String)
    (handler other : HttpRequest → Outcome) (request : HttpRequest)
    → let answer = protected lower api_prefix is_production fresh handler request in
      ((is_unchecked lower api_prefix request
            || tokens_agree request.csrf_cookie request.csrf_header)
          ≡ true
        → Secures request.path (handler request) answer)
      × ((is_unchecked lower api_prefix request
              || tokens_agree request.csrf_cookie request.csrf_header)
            ≡ false
          → (answer ≡ protected lower api_prefix is_production fresh other request) × Bare answer)
unfolding protected csrf_dispatch security_dispatch context_dispatch
protected_requests lower api_prefix is_production fresh handler other request =
    elim (Bool-cases (is_unchecked lower api_prefix request)) [
      | inl t ↦ rw (t) ((λ passes. covered), (λ refused. cc))
      | inr f ↦ elim (Bool-cases (tokens_agree request.csrf_cookie request.csrf_header)) [
        | inl t ↦ rw (f, t) ((λ passes. covered), (λ refused. cc))
        | inr n ↦
            rw (f, n)
              (
                (λ passes. cc),
                λ refused. (refl, csrf_invalid-Bare (id_or request.request_id fresh)),
              )
      ]
    ]
  where
    covered : Secures request.path (handler request) (
        with_response
          (numbered (id_or request.request_id fresh))
          (with_response (secured is_production request.path) (handler request)))
    covered =
        numbered-secured is_production request.path (id_or request.request_id fresh)
          (handler request)
