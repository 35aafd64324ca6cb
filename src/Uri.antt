-- ===== src/Uri.antt =====
-- src/uri/cluster-uri.ts: the address `cluster://<store>/<id>` of an object.
pub mod RoundTrip
mod Examples
use Prim.Native.Char.{code}
use Prim.Native.String
use db_cluster.Prelude.{
  ℕ, ◌+◌, String, Bool, true, false, not, ◌&&◌, ◌||◌, Option, none, some, List, [], ◌∷◌, ◌==◌, leb,
  ltb, nat_beq, includes, if◌then◌else◌,
}
use db_cluster.Json.{template, join, is_blank}
use db_cluster.Errors.{Result, ok, err, ◌>>=◌, is_ok, cluster_uri_error}

pub record ClusterUri : Type 0 where
  pub store : String
  pub id : String
  pub raw : String

-- `VALID_STORES`, in insertion order
abbrev pub uri_stores : List String
uri_stores = "canonical" ∷ "artifact" ∷ "index" ∷ "ledger" ∷ "receipt" ∷ []

-- what follows a literal of the regex
unfoldable pub strip_prefix : String → String → Option String
strip_prefix String.[] s = some s
strip_prefix (String.◌∷◌ a p) String.[] = none
strip_prefix (String.◌∷◌ a p) (String.◌∷◌ b s) =
    if nat_beq (code a) (code b) then strip_prefix p s else none

-- `[a-z]`
abbrev is_lower : ℕ → Bool
is_lower c = leb b'a' c && leb c b'z'

-- the letters that `[a-z]+` takes, and what follows them
unfoldable pub span_lower : String → String × String
span_lower String.[] = ("", "")
span_lower (String.◌∷◌ c s) =
    let rest = span_lower s in
    if is_lower (code c) then (String.◌∷◌ c rest.0, rest.1) else ("", String.◌∷◌ c s)

-- `[^\x00-\x20\x7f]`
abbrev is_id_char : ℕ → Bool
is_id_char c = ltb 0x20 c && not (nat_beq c 0x7f)

-- every character of the text, which may be empty
unfoldable pub all_id_chars : String → Bool
all_id_chars String.[] = true
all_id_chars (String.◌∷◌ c s) = is_id_char (code c) && all_id_chars s

-- what stands behind the `/` that ends the store
abbrev after_slash : String → Option String
after_slash String.[] = none
after_slash (String.◌∷◌ c s) = if nat_beq (code c) b'/' then some s else none

-- the groups of a match: the store, not empty, and the id, not empty
abbrev pub groups : String → Option String → Option (String × String)
groups store none = none
groups store (some id) =
    if not (store == "") && (not (id == "") && all_id_chars id) then some (store, id) else none

abbrev pub match_path : Option String → Option (String × String)
match_path none = none
match_path (some path) = groups (span_lower path).0 (after_slash (span_lower path).1)

-- `URI_REGEX.exec(uri)`
unfoldable pub match_uri : String → Option (String × String)
unfolding strip_prefix span_lower all_id_chars
match_uri uri = match_path (strip_prefix "cluster://" uri)

-- `parseClusterUri`, behind the match
unfoldable pub parse_match : String → Option (String × String) → Result ClusterUri
parse_match uri none = err (cluster_uri_error (template ("Invalid cluster URI: " ∷ uri ∷ [])))
parse_match uri (some (store, id)) =
    if not (includes uri_stores store)
    then err (
        cluster_uri_error (
          template
            ("Unknown store in URI: " ∷ store ∷ " (valid: " ∷ join ", " uri_stores ∷ ")" ∷ [])))
    else if id == "" || is_blank id
    then err (cluster_uri_error (template ("Empty ID in cluster URI: " ∷ uri ∷ [])))
    else ok (record { store = store; id = id; raw = uri })

-- `parseClusterUri`
unfoldable pub parse_cluster_uri : String → Result ClusterUri
unfolding parse_match
parse_cluster_uri uri = parse_match uri (match_uri uri)

-- the text of a URI
abbrev pub uri_text : String → String → String
uri_text store id = String.◌++◌ "cluster://" (String.◌++◌ store (String.◌++◌ "/" id))

-- `formatClusterUri`
unfoldable pub format_cluster_uri : String → String → Result String
format_cluster_uri store id =
    if not (includes uri_stores store)
    then err (cluster_uri_error (template ("Unknown store: " ∷ store ∷ [])))
    else if id == "" || is_blank id
    then err (cluster_uri_error "ID cannot be empty")
    else ok (uri_text store id)

-- `isClusterUri`, behind the match
unfoldable pub is_match : Option (String × String) → Bool
is_match none = false
is_match (some (store, id)) = includes uri_stores store && not (is_blank id)

-- `isClusterUri`
unfoldable pub is_cluster_uri : String → Bool
unfolding is_match
is_cluster_uri value = is_match (match_uri value)

-- the keys of `storeMap`
abbrev owner_stores : List String
owner_stores = "canonical" ∷ "artifact" ∷ "index" ∷ "ledger" ∷ []

-- `uriForObject`
unfoldable pub uri_for_object : (id owner : String) → Result String
unfolding format_cluster_uri
uri_for_object id owner =
    if includes owner_stores owner
    then format_cluster_uri owner id
    else err
        (cluster_uri_error (template ("Cannot derive URI: unknown owner \"" ∷ owner ∷ "\"" ∷ [])))
