-- ===== src/Uri/Examples.antt =====
-- URIs that parse, one that does not, and the theorems about them.
use db_cluster.Prelude.{String, false, ◌≡◌, refl}
use db_cluster.Json.{is_blank}
use db_cluster.Errors.{ok}
use db_cluster.Uri.{
  ClusterUri, parse_cluster_uri, match_uri, format_cluster_uri, is_cluster_uri, uri_for_object,
}
use db_cluster.Uri.RoundTrip.{format-parse, parse-format}

abbrev address : String
address = "cluster://canonical/a-1"

abbrev parts : ClusterUri
parts = record { store = "canonical"; id = "a-1"; raw = address }

parses : parse_cluster_uri address ≡ ok parts
unfolding parse_cluster_uri match_uri is_blank
parses = refl

formats : format_cluster_uri "canonical" "a-1" ≡ ok address
unfolding format_cluster_uri is_blank
formats = refl

-- a space in an id formats, and does not parse
spaced :
    (format_cluster_uri "canonical" "a 1" ≡ ok "cluster://canonical/a 1")
    × (is_cluster_uri "cluster://canonical/a 1" ≡ false)
unfolding format_cluster_uri is_cluster_uri match_uri is_blank
spaced = (refl, refl)

owned : uri_for_object "r1" "ledger" ≡ ok "cluster://ledger/r1"
unfolding uri_for_object is_blank
owned = refl

format-parse_example : (format_cluster_uri "canonical" "a-1" ≡ ok address) × (parts.raw ≡ address)
format-parse_example = format-parse address parts parses

parse-format_example : parse_cluster_uri address ≡ ok parts
unfolding match_uri
parse-format_example = parse-format "canonical" "a-1" address formats refl
