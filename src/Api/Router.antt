-- ===== src/Api/Router.antt =====
-- src/api.rs: `router`, the layers around the handlers: the bearer of the service, the owner of a `/v1`
-- read, and the header that forbids a cache.
use ratatoskr_channel_digest.Prelude.{
  ℕ, String, Bool, true, false, Option, List, if◌then◌else◌, maybe,
}
use ratatoskr_channel_digest.Contracts.{External}
use ratatoskr_channel_digest.Storage.{Result, ok, err, World, M, attempt}
use ratatoskr_channel_digest.ResultReader.{Upstream}
use ratatoskr_channel_digest.Api.{
  ApiParsers, Response, ResultView, SubscriptionView, answer_with, authorize, require_owner,
  list_subscriptions, get_manifest, get_result,
}
use ratatoskr_channel_digest.Api.Listing.{ResultSummary, list_results}

pub record ApiState : Type 0 where
  pub secret : String
  pub page_limit : ℕ
  pub upstream : Upstream

-- `default_page_size`
abbrev pub default_page_size : ℕ
default_page_size = 50

-- A route with what axum extracts from the address: none where the page size or the identity does not
-- parse. A page size that is absent is the default one.
pub data Route : Type 0 where
  ready : Route
  subscriptions results : Option ℕ → Route
  manifest result : Option ℕ → Route

-- A request: its route and its headers, as far as they are texts.
pub record Request : Type 0 where
  pub route : Route
  pub authorization : Option String
  pub owner : Option String
  pub run : Option String
  pub digest : Option String

pub data Body : Type 0 where
  empty : Body
  text : String → Body
  subscription_page : List SubscriptionView → Body
  result_page : List ResultSummary → Body
  result_body : ResultView → Body

-- A reply; `no_store` is the header `Cache-Control: no-store`.
pub record Reply : Type 0 where
  pub status : ℕ
  pub body : Body
  pub no_store : Bool

abbrev pub with_status : ℕ → Reply
with_status s = record { status = s; body = Body.empty; no_store = false }

abbrev pub reply_of : {A : Type 0} → (A → Body) → Response A → Reply
reply_of f (Response.status s) = with_status s
reply_of f (Response.body a) = record { status = 200; body = f a; no_store = false }

-- `no_store`
abbrev pub with_no_store : Reply → Reply
with_no_store r = record r { no_store = true }

-- A handler answers in every case.
abbrev pub Handler : Type 0
Handler = World → Reply × World

abbrev pub answers : {A : Type 0} → (A → Body) → M (Response A) (Response A) → Handler
answers f m w = let (r, v) = m w in (reply_of f (answer_with r), v)

abbrev pub reply : ℕ → Handler
reply s w = (with_status s, w)

abbrev pub health : Result Reply (Unit {0}) → Reply
health (ok _) = with_status 200
health (err r) = r

-- `ready`: `select 1`
unfoldable pub ready_reply : Handler
ready_reply w = let (r, v) = attempt (with_status 503) w in (health r, v)

module _ ⦃ext : External⦄ ⦃parse : ApiParsers⦄ (state : ApiState) where
  -- The handler of a `/v1` route, within the owner's scope; axum answers 400 where its address does not
  -- parse. The readiness is no such route.
  unfoldable pub dispatch : Route → Request → ℕ → Handler
  dispatch Route.ready q owner = reply 404
  dispatch (Route.subscriptions size) q owner =
      maybe size (reply 400)
        λ n. answers Body.subscription_page (list_subscriptions state.page_limit owner n)
  dispatch (Route.results size) q owner =
      maybe size (reply 400) λ n. answers Body.result_page (list_results state.page_limit owner n)
  dispatch (Route.manifest id) q owner =
      maybe id (reply 400) λ n. answers Body.text (get_manifest owner n q.run q.digest)
  dispatch (Route.result id) q owner =
      maybe id (reply 400) λ n. answers Body.result_body (get_result state.upstream owner n)

  -- Behind the bearer: the readiness, or the owner and the handler.
  unfoldable pub admitted : Route → Request → Handler
  unfolding dispatch ready_reply
  admitted Route.ready q = ready_reply
  admitted route q = maybe (require_owner q.owner) (reply 401) (dispatch route q)

  -- `router`
  unfoldable pub serve : Request → Handler
  unfolding admitted
  serve q w =
      let (r, v) =
        (if authorize state.secret q.authorization then admitted q.route q else reply 401) w in
      (with_no_store r, v)
