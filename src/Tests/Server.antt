-- ===== src/Tests/Server.antt =====
-- Start-up and the middleware.
use cloud_credit_system.Common.{
  ℕ, ◌≡◌, ◌↔◌, ◌⊎◌, refl, true, false, Option, none, some, List, [], ◌∷◌, ◌++◌, nat_key, nat_beq,
  if◌then◌else◌,
}
use cloud_credit_system.Server.Config.{Variable, api_token_var, load}
use cloud_credit_system.Server.Auth.{
  HttpRequest, other_path, is_page, bearer, bearer_auth, served_iff,
}
use cloud_credit_system.Server.Connect.{connect, connect_from, connected}
use cloud_credit_system.Server.Dashboard.{ReportQueries, snapshot_json, serve_report}
use cloud_credit_system.Common.Int.{pos}
use cloud_credit_system.Common.{ok}

abbrev env : Variable → Option (List ℕ)
env v = some (7 ∷ 8 ∷ [])

abbrev same_text : List ℕ → List ℕ
same_text text = text

abbrev no_fallback : Variable → List ℕ
no_fallback v = []

abbrev intruder : HttpRequest
intruder = record { is_get = true; path = other_path 3; authorization = [] }

served_iff_example :
    let token = (load env same_text no_fallback).api_token in
    (bearer_auth token intruder ≡ true) ↔ (
      ((env api_token_var ≡ none)
        ⊎ ((text : List ℕ) × (env api_token_var ≡ some text) × (same_text text ≡ [])))
      ⊎ (((intruder.is_get ≡ true) × (is_page intruder.path ≡ true))
          ⊎ ((text : List ℕ) × (env api_token_var ≡ some text)
              × (intruder.authorization ≡ bearer ++ same_text text))))
served_iff_example = served_iff env same_text no_fallback intruder

-- A service that is up at the second attempt.
abbrev second : ℕ → Option ℕ
second k = if nat_beq k 2 then some 9 else none

second_attempt : connect second (λ k. false) (λ k. true) ≡ connected 9
unfolding connect connect_from
second_attempt = refl

-- One snapshot whose available amount is NULL, and no stale cluster.
abbrev queries : ReportQueries
queries = record {
  uuid_text = λ n. n;
  utc_text = λ n. n;
  get_all_quota_snapshots = some (
      record {
        tenant_id = 1;
        resource_type = 2;
        credits_total = pos 10;
        debits_posted = pos 4;
        debits_pending = pos 1;
        available = none;
        snapshot_at = 99;
      }
      ∷ []);
  list_stale_clusters = λ t. some [];
}

null_is_zero :
    serve_report queries (pos 0)
    ≡ ok (record {
      quota_snapshots =
          record {
            tenant_id = 1;
            resource_type = 2;
            credits_total = pos 10;
            debits_posted = pos 4;
            debits_pending = pos 1;
            available = pos 0;
            snapshot_at = 99;
          }
          ∷ [];
      stale_clusters = [];
    })
unfolding serve_report snapshot_json
null_is_zero = refl
