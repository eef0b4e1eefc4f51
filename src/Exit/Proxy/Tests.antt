-- ===== src/Exit/Proxy/Tests.antt =====
-- The exit's targets and datagrams at concrete inputs.
use geph.Base.{ℕ, ◌+◌, ◌≡◌, List, [], ◌∷◌, ◌++◌, none, some, length, map, take, true}
use geph.Exit.Allow.{v4}
use geph.Exit.Proxy.{Resolver, address, proxy_stream}
use geph.Exit.Proxy.Targets.{IsSafe, proxy_stream-IsSafe}
use geph.Exit.Proxy.Udp.{up_loop, dn_loop, up_loop-dn_loop}

abbrev resolver : Resolver
resolver = record {
  parse_addr = λ name. none;
  parse_port = λ text. some 80;
  check_host = λ host. true;
  query = λ host. some (address (v4 (record { a = 10; b = 0; c = 0; d = 1 })) ∷ []);
}

-- "udp$a:80"
abbrev dest : List ℕ
dest = b'u' ∷ b'd' ∷ b'p' ∷ b'$' ∷ b'a' ∷ b':' ∷ b'8' ∷ b'0' ∷ []

proxy_stream-IsSafe_example : IsSafe (80 ∷ []) true (proxy_stream (80 ∷ []) true resolver dest)
proxy_stream-IsSafe_example = proxy_stream-IsSafe (80 ∷ []) true resolver dest

abbrev datagrams : List (List ℕ)
datagrams = (1 ∷ 2 ∷ []) ∷ [] ∷ (3 ∷ []) ∷ []

up_loop-dn_loop_example :
    up_loop (length datagrams + 1) (dn_loop datagrams ++ (9 ∷ []))
    ≡ map (take 8190) datagrams ++ up_loop 1 (9 ∷ [])
up_loop-dn_loop_example = up_loop-dn_loop datagrams 1 (9 ∷ [])
