-- ===== src/Tests/GatewayTests.antt =====
-- The gateway at concrete inputs.
use globalmail.Prelude.{ℕ, suc, ◌≡◌, refl, [], ◌∷◌, none, some, ok, inl, string_eq, int_eq}
use globalmail.Prelude.Int.{pos, positive_or}
use globalmail.Prelude.Dict.{lookup, insert}
use globalmail.Commands.{CommandRequest}
use globalmail.Gateway.Ring.{PlayerServerInstance, ConsistentHashRouter, update, route_uid}
use globalmail.Gateway.Routes.{IsNamed, route_uid-total}
use globalmail.Gateway.Pool.{
  Session, new_shards, new_connection_pool, at_shard, shard_index, set_session, set, find_conn,
  get_by_conn_id,
}
use globalmail.Gateway.Sessions.{sets, get_by_conn_id-conn_id}
use globalmail.Gateway.Manager.{BindSessionRequest, bound_session}
use globalmail.Gateway.RouteService.{RouteService, RouteState}

abbrev one : PlayerServerInstance
one = record { instance_id = "a"; grpc_addr = "g"; frpc_addr = "f"; weight = pos 1 }

abbrev empty_router : ConsistentHashRouter
empty_router = record { virtual_nodes = 3; ring = []; nodes = [] }

route_uid-total_example :
    (y : PlayerServerInstance) × (route_uid
        (λ id i. i)
        (λ uid. 5)
        (update (λ id i. i) (λ uid. 5) (one ∷ []) empty_router)
        (pos 9)
      ≡ ok y)
    × IsNamed (one ∷ []) y
route_uid-total_example =
    route_uid-total (λ id i. i) (λ uid. 5) (one ∷ []) empty_router (pos 9) one (inl refl, refl)

abbrev request : BindSessionRequest
request = record {
  uid = pos 5;
  role_id = pos 6;
  server_id = pos 1;
  conn_id = "c";
  gateway_addr = "";
  client_ip = "ip";
  device_id = "d";
  conn = some 1;
}

abbrev bound : Session
unfolding bound_session
bound = bound_session request "here" 90 10

get_by_conn_id-conn_id_example : bound.conn_id ≡ "c"
unfolding bound bound_session get_by_conn_id find_conn new_connection_pool new_shards set at_shard
    shard_index set_session lookup insert positive_or
get_by_conn_id-conn_id_example =
    get_by_conn_id-conn_id (λ uid. 5) (pos 1) (sets bound ∷ []) "c" bound refl

abbrev routes_of : RouteService ℕ
routes_of = record {
  store = record {
    get_srv_router = λ uid w. (ok none, w);
    set_srv_router = λ r ttl w. (ok tt, suc w);
    delete_srv_router = λ uid w. (ok tt, suc w);
  };
  list_ready_player_servers = λ w. (ok (one ∷ []), w);
  route_ttl = 60;
}

abbrev known_state : RouteState
known_state = record { routes = (pos 9, one) ∷ []; router = empty_router }

abbrev unknown_state : RouteState
unknown_state = record { routes = []; router = empty_router }

abbrev command : CommandRequest
command = record {
  command_id = pos 1;
  uid = pos 9;
  role_id = pos 3;
  server_id = pos 1;
  seq = pos 1;
  payload = none;
}
