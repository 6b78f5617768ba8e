-- ===== src/WebSocketUpgrade/Limits.antt =====
-- Whose connections the limit for an address counts.
use Prim.Native.String.{◌++◌}
use text.Mathlib.TextBridge.{IsPrefix}
use text.Mathlib.TextEquality.{starts_with_iff}
use text.Mathlib.TextLemmas.{append_assoc}
use text.Mathlib.Text.{starts_with}
use frontend_router_mcp.Base.{
  ◌≤◌, ◌<◌, true, ◌≡◌, ◌≢◌, sym, ◌∙◌, ap, arith, [], ◌∷◌, none, some, String, eq_iff, length, Dict,
}
use frontend_router_mcp.Requests.{Env, Request, get_header}
use frontend_router_mcp.ConnectionTracking.{ValidatedConnection, WebSocketValidator}
use frontend_router_mcp.WebSocketUpgrade.{
  Network, max_per_ip_exceeded, get_client_ip, ip_connections, check_connection_limits,
}

IsPrefix-trans : (s t u : String) → IsPrefix s t → IsPrefix t u → IsPrefix s u
IsPrefix-trans s t u (a, p) (b, q) = (a ++ b, sym (append_assoc s a b) ∙ ap (λ x. x ++ b) p ∙ q)

begins_shorter :
    (s ip longer : String)
    → IsPrefix ip longer
    → starts_with s longer ≡ true
    → starts_with s ip ≡ true
begins_shorter s ip longer h e =
    (starts_with_iff s ip).1 (IsPrefix-trans ip longer s h ((starts_with_iff s longer).0 e))

longer_address-le :
    (ip longer : String) (connections : Dict ValidatedConnection)
    → IsPrefix ip longer
    → ip_connections longer connections ≤ ip_connections ip connections
unfolding ip_connections
longer_address-le ip longer [] h = omega arith
longer_address-le ip longer ((id, conn) ∷ rest) h =
    let step = begins_shorter conn.remote_addr ip longer h in
    ground (arith, step, longer_address-le ip longer rest h)

-- A client is refused for the connections of other addresses: if the address of the client is the
-- beginning of a longer text, such as another address, with which the remote addresses of as many
-- connections begin as `MaxConnectionsPerIP`, the client gets no connection, be there none from its
-- own address.
pub longer_address_refused :
    {L : Type 0} (wsv : WebSocketValidator L) (ip longer : String)
    → IsPrefix ip longer
    → length wsv.connections < wsv.config.max_connections
    → wsv.config.max_connections_per_ip ≤ ip_connections longer wsv.connections
    → check_connection_limits wsv ip ≡ some max_per_ip_exceeded
unfolding check_connection_limits
longer_address_refused wsv ip longer h few many =
    ground (arith, longer_address-le ip longer wsv.connections h)

-- A client names its own address: with an X-Forwarded-For header with which no remote address
-- begins, the limit for an address does not hold the request back, wherever it comes from.
forwarded_for_passes :
    {L : Type 0} (env : Env) (net : Network) (wsv : WebSocketValidator L) (r : Request)
    (remote_addr : String)
    → get_header env r.headers "X-Forwarded-For" ≢ ""
    → length wsv.connections < wsv.config.max_connections
    → 0 < wsv.config.max_connections_per_ip
    → ip_connections (get_header env r.headers "X-Forwarded-For") wsv.connections ≡ 0
    → check_connection_limits wsv (get_client_ip env net r remote_addr) ≡ none
unfolding check_connection_limits get_client_ip
forwarded_for_passes env net wsv r remote_addr named few some_allowed new =
    let ip = get_header env r.headers "X-Forwarded-For" in ground (arith, eq_iff ip "")
