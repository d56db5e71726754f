-- ===== src/HttpApi/Routes/Tests.antt =====
-- Requests to the routes, and the theorems on them at an input.
use dnswatcher.Prelude.{◌≡◌, ◌≢◌, refl, inl, true, false, [], Bytes, codes, equal, equal_iff}
use dnswatcher.HttpApi.Server.{HttpRequest}
use dnswatcher.HttpApi.Server.Statuses.{Ends, create_trace-Ends}
use dnswatcher.HttpApi.Server.Tests.{libs, settings, post_from, fresh, server, run, refusing}
use dnswatcher.HttpApi.Routes.{HttpReply, HttpBody, WebLib, healthz, route_of, serve_route, serve}
use dnswatcher.HttpApi.Routes.Untouched.{serve-state}

abbrev plain : Bytes → HttpReply
plain content = record { status = 200; headers = []; body = HttpBody.raw content }

abbrev web : WebLib
web = record {
  is_redirected = λ method path. false;
  redirect = plain;
  not_found = record { status = 404; headers = []; body = HttpBody.raw [] };
  file_server = λ dir path. plain path;
}

abbrev get : HttpRequest
get = record (post_from (codes "a")) { method = codes "GET" }

-- The health check, a file, no file, and the trace route.
serve_tests :
    ((serve web libs settings [] [] 0 0 refusing (codes "/healthz") get fresh).0.status ≡ 200)
    × ((serve web libs settings [] (codes "dist") 0 0 refusing (codes "/a") get fresh).0.status
        ≡ 200)
    × ((serve web libs settings [] [] 0 0 refusing (codes "/a") get fresh).0.status ≡ 404)
    × ((serve web libs settings [] [] 0 0 refusing (codes "/api/v1/traces") get fresh).0.status
        ≡ 405)
unfolding server healthz route_of serve_route serve
serve_tests = (refl, refl, refl, refl)

off_route : codes "/healthz" ≢ codes "/api/v1/traces"
unfolding equal
off_route e =
    let same : false ≡ true = (equal_iff (codes "/healthz") (codes "/api/v1/traces")).1 e in cc

serve-state_example :
    (serve web libs settings [] [] 0 0 refusing (codes "/healthz") get fresh).1 ≡ fresh
serve-state_example =
    serve-state web libs settings [] [] 0 0 refusing (codes "/healthz") get fresh (inl off_route)

create_trace-Ends_example : Ends (run refusing (post_from (codes "a")) fresh).0
create_trace-Ends_example =
    create_trace-Ends libs settings [] 0 0 refusing (post_from (codes "a")) fresh
