-- ===== src/Auth/Http/Proxy.antt =====
-- The client's address behind trusted proxies, by `client_ip_from_request`.
use lvyou_smsweb.Auth.Http.{client_ip_from_request, Request, forwarded}
use lvyou_smsweb.Prelude.{
  List, String, get_elem?, length, ◌++◌, ◌≡◌, ◌∷◌, ◌+◌, some, suc, [], refl, ℕ, length-append, ◌-◌,
  arith,
}
use lvyou_smsweb.World.{Env}

get_elem-append : (xs ys : List String) (y : String) → get_elem? (xs ++ y ∷ ys) (length xs) ≡ some y
get_elem-append [] ys y = refl
get_elem-append (x ∷ xs) ys y = get_elem-append xs ys y

last_of : (a b : ℕ) → a + suc b - suc b ≡ a
last_of a b = omega arith

-- With n trusted proxies, n at least 1, each of which appends the address that it sees to
-- X-Forwarded-For, the client's address is the one that the first of these proxies saw: what the
-- client has put into the header before it, and into X-Real-IP, has no effect.
pub spoofed_prefix_ignored :
    (env : Env) (req : Request) (spoofed : List String) (client : String) (proxies : List String)
    → forwarded req.x_forwarded_for ≡ spoofed ++ client ∷ proxies
    → env.config.trusted_proxy_hops ≡ suc (length proxies)
    → client_ip_from_request env req ≡ client
unfolding client_ip_from_request
spoofed_prefix_ignored env req spoofed client proxies h n =
    let e = get_elem-append spoofed proxies client in
    let l = length-append spoofed (client ∷ proxies) in
    rw (n, h, l, last_of (length spoofed) (length proxies), e) (ground arith)
