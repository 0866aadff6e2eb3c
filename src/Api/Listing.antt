-- ===== src/Api/Listing.antt =====
-- src/api.rs: `list_results`, a page of the results of an owner, the newest first.
use ratatoskr_channel_digest.Prelude.{
  ℕ, String, Bool, not, ◌&&◌, ◌||◌, Option, none, some, List, [], ◌∷◌, ltb, ◌==◌, if◌then◌else◌,
  holds, rows, sort, take,
}
use ratatoskr_channel_digest.Contracts.{External}
use ratatoskr_channel_digest.Schema.{Db, DigestResult, RunState}
use ratatoskr_channel_digest.Storage.{M, query, lift, pure, ◌>>=◌}
use ratatoskr_channel_digest.Api.{
  ApiParsers, Response, checked_page_size, page_limit_of, is_outcome,
}

-- `ChannelDigestResultSummary`
pub record ResultSummary : Type 0 where
  pub result_id : ℕ
  pub run_id : ℕ
  pub outcome : RunState
  pub safe_failure_class : Option String
  pub created_at : ℕ

-- `order by created_at desc, result_id desc`
abbrev pub created_later : DigestResult → DigestResult → Bool
created_later a b =
    ltb b.created_at a.created_at || a.created_at == b.created_at && ltb b.result_id a.result_id

-- The rows of the query of `list_results`.
unfoldable pub result_rows : ℕ → ℕ → Db → List DigestResult
result_rows owner limit d =
    take limit (sort created_later (rows (λ (r : DigestResult). r.owner_id == owner) d.results))

module _ ⦃ext : External⦄ ⦃parse : ApiParsers⦄ where
  -- `result_summary`
  unfoldable pub result_summary : DigestResult → Option ResultSummary
  result_summary r =
      if parse.parses_result (ext.uuid_text r.result_id)
        && ext.parses_run_id (ext.uuid_text r.run_id)
        && is_outcome r.outcome
        && not (holds (λ c. not (parse.parses_failure_class c)) r.safe_failure_class)
        && parse.parses_instant r.created_at
      then some (record {
        result_id = r.result_id;
        run_id = r.run_id;
        outcome = r.outcome;
        safe_failure_class = r.safe_failure_class;
        created_at = r.created_at;
      })
      else none

  -- `collect::<Option<Vec<_>>>()` of the summaries
  unfoldable pub result_summaries : List DigestResult → Option (List ResultSummary)
  unfolding result_summary
  result_summaries [] = some []
  result_summaries (r ∷ rs) = elim (result_summary r) [
    | none ↦ none
    | some s ↦ elim (result_summaries rs) [ none ↦ none | some ss ↦ some (s ∷ ss) ]
  ]

  abbrev pub results_response : List DigestResult → Response (List ResultSummary)
  results_response found = elim (result_summaries found) [
    | none ↦ Response.status 500
    | some v ↦ Response.body v
  ]

  -- `list_results`
  unfoldable pub list_results :
      ℕ → ℕ → ℕ → M (Response (List ResultSummary)) (Response (List ResultSummary))
  unfolding checked_page_size result_rows result_summaries
  list_results page_limit owner page_size = do
    limit ← lift (page_limit_of page_limit page_size)
    found ← query (Response.status 503) (result_rows owner limit)
    pure (results_response found)
