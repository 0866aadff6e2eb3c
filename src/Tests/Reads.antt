-- ===== src/Tests/Reads.antt =====
-- The theorems on the API and its result reader at concrete inputs.
use ratatoskr_channel_digest.Prelude.{
  ℕ, String, true, none, some, [], ◌∷◌, ◌≡◌, ◌↔◌, refl, arith, maybe, select, Member, str_eq,
}
use ratatoskr_channel_digest.Contracts.{Bytes}
use ratatoskr_channel_digest.Schema.{Db, Manifest, RunState}
use ratatoskr_channel_digest.Storage.{ok, query, attempt, pure, ◌>>=◌}
use ratatoskr_channel_digest.ResultReader.{Upstream, KnowledgeResultProjection}
use ratatoskr_channel_digest.Api.{
  ApiParsers, Response, constant_time_equal, get_manifest, require_owner, parsed,
}
use ratatoskr_channel_digest.Api.ConstantTime.{constant_time_equal_iff}
use ratatoskr_channel_digest.Api.Scope.{world_of}
use ratatoskr_channel_digest.Api.Router.{ApiState, Request, Route, serve}
use ratatoskr_channel_digest.Api.Served.{serve-same}
use ratatoskr_channel_digest.Api.Claims.{get_manifest-claimed}
use ratatoskr_channel_digest.Tests.{toy, world, db_in}

abbrev secret : Bytes
secret = 1 ∷ 2 ∷ []

abbrev supplied : Bytes
supplied = 1 ∷ 3 ∷ []

constant_time_equal_iff_example : (constant_time_equal supplied secret ≡ true) ↔ (supplied ≡ secret)
constant_time_equal_iff_example =
    constant_time_equal_iff supplied secret (omega arith, (omega arith, tt))
      (omega arith, (omega arith, tt)) (omega arith) (omega arith)

abbrev digest : String
digest = "0123456789abcdef0123456789abcdef0123456789abcdef0123456789abcdef"

abbrev knowledge : Upstream
knowledge = record {
  send = λ n. some (record {
    status = 200;
    content_type = some "application/json; charset=utf-8";
    content_length = none;
    chunks = some (1 ∷ []) ∷ some (2 ∷ []) ∷ [];
  });
  decode =
      λ b. some (record { analysis_id = 5; algorithm = "sha256"; hex = digest; recap = some b });
  max_response_bytes = 65_536;
}

abbrev projection : KnowledgeResultProjection
projection = record { analysis_id = 5; result_digest_hex = digest; recap = some (1 ∷ 2 ∷ []) }

abbrev parsers : ApiParsers
parsers = record {
  as_bytes = λ t. [];
  parse_user = λ t. some 7;
  parse_run = λ t. some 1;
  parse_digest = λ t. some t;
  parses_subscription = λ t. true;
  parses_username = λ t. true;
  parses_result = λ t. true;
  parses_failure_class = λ t. true;
  parses_instant = λ t. true;
}

abbrev stored : Db
stored = db_in RunState.waiting_recap

shown :
    (get_manifest ⦃ext = toy⦄ ⦃parse = parsers⦄ 7 2 (some "r") (some "bb") (world 5 stored)).0
    ≡ ok (Response.body "text")
unfolding get_manifest maybe pure query attempt ◌>>=◌ select str_eq
shown = refl

get_manifest-claimed_example :
    (run : ℕ) × (hex : String) × (parsed parsers.parse_run (some "r") ≡ some run)
    × (parsed parsers.parse_digest (some "bb") ≡ some hex)
    × (m : Manifest) × Member m stored.manifests
    × (m.manifest_id ≡ 2)
    × (m.owner_id ≡ 7)
    × (m.run_id ≡ run)
    × (m.sha256 ≡ hex)
    × (m.canonical_text ≡ some "text")
get_manifest-claimed_example =
    get_manifest-claimed ⦃ext = toy⦄ ⦃parse = parsers⦄ 7 2 (some "r") (some "bb") (world 5 stored)
      "text" shown

abbrev api_state : ApiState
api_state = record { secret = "secret"; page_limit = 100; upstream = knowledge }

abbrev page_request : Request
page_request = record {
  route = Route.results (some 50);
  authorization = some "Bearer secret";
  owner = some "o";
  run = none;
  digest = none;
}

serve-same_example :
    (serve ⦃ext = toy⦄ ⦃parse = parsers⦄ api_state page_request (world_of 7 (world 5 stored))).0
    ≡ (serve ⦃ext = toy⦄ ⦃parse = parsers⦄ api_state page_request (world 5 stored)).0
unfolding require_owner
serve-same_example =
    serve-same ⦃ext = toy⦄ ⦃parse = parsers⦄ api_state 7 (world 5 stored) page_request refl
