-- ===== src/Http/Tests.antt =====
-- Requests to the middlewares of app/middlewares.
use repo_info_backend.Http.Middleware.{
  HttpRequest, Outcome, context_dispatch, csrf_dispatch, csrf_invalid, is_unchecked, numbered,
  tokens_agree,
}
use repo_info_backend.Http.Protection.{Bare, Secures, protected, protected_requests}
use repo_info_backend.Prelude.{[], codes, false, none, refl, some, true, ℕ, ◌||◌, ◌≡◌}

abbrev forged : HttpRequest
forged = record {
  method = "POST";
  path = codes "/api/v1/projects";
  authorization = none;
  csrf_header = none;
  csrf_cookie = some (codes "t");
  request_id = none;
}

abbrev answers : ℕ → HttpRequest → Outcome
answers status request = Outcome.response (record { status = status; code = none; headers = [] })

protected_requests_example :
    let answer = protected (λ t. t) (codes "/api/v1") false "1" (answers 200) forged in
    ((is_unchecked (λ t. t) (codes "/api/v1") forged
          || tokens_agree forged.csrf_cookie forged.csrf_header)
        ≡ true
      → Secures forged.path (answers 200 forged) answer)
    × ((is_unchecked (λ t. t) (codes "/api/v1") forged
            || tokens_agree forged.csrf_cookie forged.csrf_header)
          ≡ false
        → (answer ≡ protected (λ t. t) (codes "/api/v1") false "1" (answers 500) forged)
          × Bare answer)
protected_requests_example =
    protected_requests (λ t. t) (codes "/api/v1") false "1" (answers 200) (answers 500) forged

test_forged :
    protected (λ t. t) (codes "/api/v1") false "1" (answers 200) forged
    ≡ Outcome.response (numbered "1" csrf_invalid)
unfolding protected csrf_dispatch context_dispatch is_unchecked
test_forged = refl
