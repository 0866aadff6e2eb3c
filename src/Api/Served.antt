-- ===== src/Api/Served.antt =====
-- What a request to the API is answered depends on its owner's rows alone.
use ratatoskr_channel_digest.Prelude.{
  ℕ, Option, none, some, ◌≡◌, refl, ap, arith, maybe, Bool-cases, inl, inr,
}
use ratatoskr_channel_digest.Contracts.{External}
use ratatoskr_channel_digest.Storage.{World, M, attempt}
use ratatoskr_channel_digest.Api.{
  ApiParsers, Response, answer_with, authorize, require_owner, list_subscriptions, get_manifest,
  get_result,
}
use ratatoskr_channel_digest.Api.Listing.{list_results}
use ratatoskr_channel_digest.Api.Router.{
  ApiState, Route, Request, Body, Handler, with_no_store, reply, reply_of, answers, ready_reply,
  dispatch, admitted, serve,
}
use ratatoskr_channel_digest.Api.Scope.{
  world_of, get_manifest-same, get_result-same, list_subscriptions-same, list_results-same,
}

-- A handler that answers the same in both worlds.
abbrev IsSame : ℕ → World → Handler → Type 0
IsSame owner w h = (h (world_of owner w)).0 ≡ (h w).0

answers-IsSame :
    {A : Type 0} (f : A → Body) (m : M (Response A) (Response A)) (owner : ℕ) (w : World)
    → (m (world_of owner w)).0 ≡ (m w).0
    → IsSame owner w (answers f m)
answers-IsSame f m owner w e = ap (λ r. reply_of f (answer_with r)) e

maybe-IsSame :
    (o : Option ℕ) (h : ℕ → Handler) (s owner : ℕ) (w : World)
    → ((n : ℕ) → IsSame owner w (h n))
    → IsSame owner w (maybe o (reply s) h)
unfolding maybe
maybe-IsSame none h s owner w k = refl
maybe-IsSame (some n) h s owner w k = k n

ready-IsSame : (owner : ℕ) (w : World) → IsSame owner w ready_reply
unfolding ready_reply attempt
ready-IsSame owner w = ground arith

module _ ⦃ext : External⦄ ⦃parse : ApiParsers⦄ (state : ApiState) (owner : ℕ) (w : World) where
  dispatch-IsSame : (route : Route) (q : Request) → IsSame owner w (dispatch state route q owner)
  unfolding dispatch
  dispatch-IsSame Route.ready q = refl
  dispatch-IsSame (Route.subscriptions size) q = maybe-IsSame size _ 400 owner w λ n.
      answers-IsSame Body.subscription_page (list_subscriptions state.page_limit owner n) owner w
        (list_subscriptions-same owner w state.page_limit n)
  dispatch-IsSame (Route.results size) q = maybe-IsSame size _ 400 owner w λ n.
      answers-IsSame Body.result_page (list_results state.page_limit owner n) owner w
        (list_results-same owner w state.page_limit n)
  dispatch-IsSame (Route.manifest id) q = maybe-IsSame id _ 400 owner w λ n.
      answers-IsSame Body.text (get_manifest owner n q.run q.digest) owner w
        (get_manifest-same owner w n q.run q.digest)
  dispatch-IsSame (Route.result id) q = maybe-IsSame id _ 400 owner w λ n.
      answers-IsSame Body.result_body (get_result state.upstream owner n) owner w
        (get_result-same owner w state.upstream n)

  admitted-IsSame :
      (route : Route) (q : Request)
      → require_owner q.owner ≡ some owner
      → IsSame owner w (admitted state route q)
  unfolding admitted maybe
  admitted-IsSame Route.ready q e = ready-IsSame owner w
  admitted-IsSame (Route.subscriptions size) q e =
      rw e (dispatch-IsSame (Route.subscriptions size) q)
  admitted-IsSame (Route.results size) q e = rw e (dispatch-IsSame (Route.results size) q)
  admitted-IsSame (Route.manifest id) q e = rw e (dispatch-IsSame (Route.manifest id) q)
  admitted-IsSame (Route.result id) q e = rw e (dispatch-IsSame (Route.result id) q)

  -- A request whose header names an owner is answered the same, whatever its route, its bearer and the
  -- failing calls of the database, as if the rows of every other owner were not there.
  pub serve-same :
      (q : Request)
      → require_owner q.owner ≡ some owner
      → (serve state q (world_of owner w)).0 ≡ (serve state q w).0
  unfolding serve
  serve-same q e = elim (Bool-cases (authorize state.secret q.authorization)) [
    | inl a ↦ rw a (ap with_no_store (admitted-IsSame q.route q e))
    | inr a ↦ rw a refl
  ]
