-- ===== src/Gateway/RouteService.antt =====
-- app/gatewaysrv/route_service.go, session.go and command_forwarder.go: the route of a user, kept per
-- gateway, in Redis, or made on the ring. The state is the routes and the ring beside the world.
use globalmail.Prelude.{
  ℕ, ◌≡◌, ◌+◌, String, Option, none, some, List, ok, err, Action, pure, ◌>>=◌, ◌>>◌, ltb, int_eq,
  if◌then◌else◌, arith, ==_refl,
}
use globalmail.Prelude.Int.{ℤ, pos}
use globalmail.Prelude.Dict.{Dict, lookup, insert, erase, lookup-insert_self, lookup-erase}
use globalmail.Types.{Time, Duration, Error, SrvRouter}
use globalmail.Commands.{CommandRequest, CommandResponse}
use globalmail.Gateway.Ring.{PlayerServerInstance, ConsistentHashRouter, update, route_uid}

pub record SrvRouterStore (W : Type 0) : Type 0 where
  pub get_srv_router : ℤ → Action W Error (Option SrvRouter)
  pub set_srv_router : SrvRouter → Duration → Action W Error (Unit {0})
  pub delete_srv_router : ℤ → Action W Error (Unit {0})

pub record RouteService (W : Type 0) : Type 0 where
  pub store : SrvRouterStore W
  pub list_ready_player_servers : Action W Error (List PlayerServerInstance)
  pub route_ttl : Duration

-- The routes of the sessions, and the ring.
pub record RouteState : Type 0 where
  pub routes : Dict ℤ PlayerServerInstance
  pub router : ConsistentHashRouter

abbrev pub RouteAction : Type 0 → Type 0 → Type 0
RouteAction W A = Action (RouteState × W) Error A

unfoldable pub stored_instance : SrvRouter → PlayerServerInstance
stored_instance r = record {
  instance_id = r.instance_id;
  grpc_addr = r.grpc_addr;
  frpc_addr = r.frpc_addr;
  weight = pos 100;
}

unfoldable pub srv_router : ℤ → PlayerServerInstance → Time → SrvRouter
srv_router uid route expire_at = record {
  uid = uid;
  srv_name = "playersrv";
  instance_id = route.instance_id;
  frpc_addr = route.frpc_addr;
  grpc_addr = route.grpc_addr;
  version = pos 1;
  expire_at = expire_at;
}

-- A stored route counts as long as it has not run out.
abbrev pub live_route : Option SrvRouter → Time → Option PlayerServerInstance
live_route none now = none
live_route (some r) now = if ltb now r.expire_at then some (stored_instance r) else none

abbrev pub in_world : {W A : Type 0} → Action W Error A → RouteAction W A
in_world m (s, w) = let (r, w') = m w in (r, (s, w'))

abbrev pub set_route : {W : Type 0} → ℤ → PlayerServerInstance → RouteAction W (Unit {0})
set_route uid route (s, w) = (ok tt, (record s { routes = insert uid route s.routes }, w))

module _ {W : Type 0} (virtual_hash : String → ℕ → ℕ) (uid_hash : ℤ → ℕ)
    (service : RouteService W) where
  abbrev pub update_router : List PlayerServerInstance → RouteAction W (Unit {0})
  update_router instances (s, w) =
      (ok tt, (record s { router = update virtual_hash uid_hash instances s.router }, w))

  abbrev pub route_now : ℤ → RouteAction W PlayerServerInstance
  route_now uid (s, w) = (route_uid virtual_hash uid_hash s.router uid, (s, w))

  -- Resolve where neither the gateway nor Redis has a route; the clock is read again.
  unfoldable pub resolve_new : ℤ → Time → RouteAction W PlayerServerInstance
  unfolding srv_router
  resolve_new uid later = do
    instances ← in_world service.list_ready_player_servers
    update_router instances
    route ← route_now uid
    in_world (
        service.store.set_srv_router (srv_router uid route (later + service.route_ttl))
          service.route_ttl)
    set_route uid route
    pure route

  -- Resolve from what Redis answered on.
  unfoldable pub resolve_stored :
      ℤ → Time → Option PlayerServerInstance → RouteAction W PlayerServerInstance
  unfolding resolve_new
  resolve_stored uid later none = resolve_new uid later
  resolve_stored uid later (some route) = set_route uid route >> pure route

  unfoldable pub resolve_missing : ℤ → Time → Time → RouteAction W PlayerServerInstance
  unfolding resolve_stored stored_instance
  resolve_missing uid now later = do
    stored ← in_world (service.store.get_srv_router uid)
    resolve_stored uid later (live_route stored now)

  unfoldable pub resolve : ℤ → Time → Time → RouteAction W PlayerServerInstance
  unfolding resolve_missing
  resolve uid now later c = elim (lookup uid c.0.routes) [
    | some route ↦ (ok route, c)
    | none ↦ resolve_missing uid now later c
  ]

  unfoldable pub clear : ℤ → RouteAction W (Unit {0})
  clear uid (s, w) =
      let (r, w') = service.store.delete_srv_router uid w in
      (r, (record s { routes = erase uid s.routes }, w'))

  -- CommandForwarder.Forward; `dispatch` gets a client of the instance and sends the request.
  module _ (dispatch : PlayerServerInstance → CommandRequest → Action W Error CommandResponse) where
    unfoldable pub dispatch_or_clear :
        CommandRequest → PlayerServerInstance → RouteAction W CommandResponse
    unfolding clear
    dispatch_or_clear req route c =
        let (r, c') = in_world (dispatch route req) c in
        elim r [ ok response ↦ (ok response, c') | err e ↦ (err e, (clear req.uid c').1) ]

    unfoldable pub forward : CommandRequest → Time → Time → RouteAction W CommandResponse
    unfolding resolve dispatch_or_clear
    forward req now later = do route ← resolve req.uid now later; dispatch_or_clear req route

  set_route-kept :
      (uid : ℤ) (route : PlayerServerInstance) (s : RouteState)
      → lookup uid (insert uid route s.routes) ≡ some route
  set_route-kept uid route s = lookup-insert_self uid route s.routes

  -- A route that was resolved is kept: the next call for the user answers the same, at any time, without
  -- a call of Redis or of the provider.
  resolve_again :
      (uid : ℤ) (now later now' later' : Time) (route : PlayerServerInstance) (s s' : RouteState)
      (w w' v : W)
      → resolve uid now later (s, w) ≡ (ok route, (s', w'))
      → resolve uid now' later' (s', v) ≡ (ok route, (s', v))
  unfolding resolve resolve_missing resolve_stored resolve_new
  resolve_again uid now later now' later' route s s' w w' v h =
      ground (arith, set_route-kept uid route s)

  -- A request that fails at its player server takes the user's route out of the gateway.
  forward-clears :
      (dispatch : PlayerServerInstance → CommandRequest → Action W Error CommandResponse)
      (req : CommandRequest) (route : PlayerServerInstance) (now later : Time) (e e' : Error)
      (s s₁ s' : RouteState) (w w₁ w₂ w' : W)
      → resolve req.uid now later (s, w) ≡ (ok route, (s₁, w₁))
      → dispatch route req w₁ ≡ (err e, w₂)
      → forward dispatch req now later (s, w) ≡ (err e', (s', w'))
      → (e' ≡ e) × (lookup req.uid s'.routes ≡ none)
  unfolding forward dispatch_or_clear clear
  forward-clears dispatch req route now later e e' s s₁ s' w w₁ w₂ w' found failed h =
      let l = lookup-erase req.uid req.uid s₁.routes in
      (ground (arith, l), ground (arith, l, ==_refl {A = ℤ} req.uid))
