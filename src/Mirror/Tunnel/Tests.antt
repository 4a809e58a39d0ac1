-- ===== src/Mirror/Tunnel/Tests.antt =====
-- The theorems on tunnel.go at a short output.
use wrap.Base.{
  ◌≤◌, ◌≡◌, refl, ◌≢◌, ◌↔◌, false, some, List, [], ◌∷◌, ◌++◌, length, All, Bytes, codes, equal,
  atoi, fields,
}
use wrap.Mirror.Pairing.{is_quick_tunnel_host}
use wrap.Mirror.Tunnel.{ok, parse_cloudflared_version, extract_quick_tunnel_url, field_origin}
use wrap.Mirror.Tunnel.Origin.{Agrees, Shown, Prints, extract_quick_tunnel_url_iff}
use wrap.Mirror.Tunnel.Tail.{joined, last, push_all, push_all_refines}
use wrap.Mirror.Url.{Url, UrlPackage}

-- Ten bytes in three writes, of which four are kept.
some_writes : List Bytes
some_writes = codes "abc" ∷ codes "defghi" ∷ codes "j" ∷ []

push_all_refines_example :
    (push_all 4 [] some_writes ≡ last 4 (joined some_writes))
    × (length (push_all 4 [] some_writes) ≤ 4)
push_all_refines_example = push_all_refines 4 some_writes

abbrev some_host : Bytes
some_host = codes "a-b.trycloudflare.com"

-- A package that reads every text as one URL.
abbrev one_url : Url
one_url = record {
  scheme = codes "https";
  hostname = some_host;
  host = some_host;
  port = [];
  has_user = false;
  user = [];
  path = [];
  raw_query = [];
  fragment = [];
  opaque = [];
  raw_path = [];
  raw_fragment = [];
  omit_host = false;
  force_query = false;
}

abbrev some_urls : UrlPackage
some_urls = record {
  parse = λ s. some one_url;
  print = λ u. codes "https://" ++ u.host;
  is_ip = λ s. false;
  is_loopback = λ s. false;
}

some_urls-Prints : Prints some_urls
some_urls-Prints u h e = cc

abbrev some_output : Bytes
some_output = codes "INF | https://a-b.trycloudflare.com |"

extract_quick_tunnel_url_iff_example :
    (extract_quick_tunnel_url some_urls some_output ≡ ok (codes "https://" ++ some_host)) ↔ (
      (codes "https://" ++ some_host ≢ [])
      × All (Agrees some_urls (codes "https://" ++ some_host)) (fields some_output)
      × Shown some_urls (codes "https://" ++ some_host) (fields some_output))
extract_quick_tunnel_url_iff_example =
    extract_quick_tunnel_url_iff some_urls some_urls-Prints some_output
      (codes "https://" ++ some_host)

some_version :
    parse_cloudflared_version (codes "cloudflared version 2024.11.0 (built)")
    ≡ ok (codes "2024.11.0")
unfolding parse_cloudflared_version atoi
some_version = refl

some_origin_found :
    extract_quick_tunnel_url some_urls some_output ≡ ok (codes "https://" ++ some_host)
unfolding extract_quick_tunnel_url fields field_origin equal is_quick_tunnel_host
some_origin_found = refl
