-- ===== src/Router/Domain.antt =====
-- getDBSCDomain of router.go.
use secure_network.Prelude.{◌||◌, Option, none, some, Bytes, text, ◌==◌, if◌then◌else◌, Map, lookup}
use secure_network.Strings.{is_empty}
use secure_network.Http.{Request, Urls, get_header, without_port}

abbrev or_path : Bytes → Option Bytes → Bytes
or_path path none = path
or_path path (some p) = p

-- The path that the route map is asked for: on the two endpoints, that of the referring page.
unfoldable pub page_path : Urls → Request → Bytes
page_path urls req =
    let referer = get_header (text "Referer") req.header in
    if req.path == text "/StartSession" || req.path == text "/RefreshEndpoint"
    then (if is_empty referer then req.path else or_path req.path (urls.path referer))
    else req.path

host_of_target : Urls → Option Bytes → Option Bytes
host_of_target urls none = none
host_of_target urls (some target) = urls.hostname target

abbrev non_empty_or : Bytes → Option Bytes → Bytes
non_empty_or host none = host
non_empty_or host (some h) = if is_empty h then host else h

unfoldable pub get_dbsc_domain : Urls → Map Bytes → Request → Bytes
unfolding host_of_target
get_dbsc_domain urls route_map req =
    non_empty_or (without_port req.host)
      (host_of_target urls (lookup (page_path urls req) route_map))
