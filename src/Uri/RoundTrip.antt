-- ===== src/Uri/RoundTrip.antt =====
-- Parsing and formatting of cluster URIs are inverse to one another.
use Prim.Native.Char.{code}
use Prim.Native.String
use text.Mathlib.TextLemmas.{nil-append, cons-append}
use text.Mathlib.TextEquality.{Char-path}
use db_cluster.Prelude.{
  subst, String, Bool, true, false, ◌&&◌, ◌||◌, Option, none, some, ◌==◌, includes, All-includes,
  eq_iff, ◌≡◌, inl, inr, refl, arith, Bool-cases, ap, nat_beq, ◌∙◌,
}
use db_cluster.Json.{is_blank}
use db_cluster.Errors.{ok, is_ok, ok-injective}
use db_cluster.Uri.{
  ClusterUri, uri_stores, strip_prefix, after_slash, is_lower, span_lower, is_match, parse_match,
  all_id_chars, groups, match_path, match_uri, parse_cluster_uri, uri_text, format_cluster_uri,
  is_cluster_uri,
}

is_blank-empty : (s : String) → (s == "") ≡ true → is_blank s ≡ true
unfolding is_blank
is_blank-empty s h = rw ((eq_iff s "").0 h)

is_match-parse : (s : String) (m : Option (String × String)) → is_match m ≡ is_ok (parse_match s m)
unfolding is_match parse_match
is_match-parse s none = refl
is_match-parse s (some (store, id)) = ground (arith, is_blank-empty id)

-- `isClusterUri` accepts exactly the texts that `parseClusterUri` parses.
is_cluster_uri-parse : (s : String) → is_cluster_uri s ≡ is_ok (parse_cluster_uri s)
unfolding is_cluster_uri parse_cluster_uri
is_cluster_uri-parse s = is_match-parse s (match_uri s)

strip_prefix-some : (p s : String) {r : String} → strip_prefix p s ≡ some r → String.◌++◌ p r ≡ s
unfolding strip_prefix
strip_prefix-some String.[] s h = rw nil-append (ground arith)
strip_prefix-some (String.◌∷◌ a p) String.[] h = cc
strip_prefix-some (String.◌∷◌ a p) (String.◌∷◌ b s) {r} h =
    elim (Bool-cases (nat_beq (code a) (code b))) [
      | inl e ↦
          rw (cons-append, Char-path a b (ground arith))
            (ap (String.◌∷◌ b) (strip_prefix-some p s (ground arith)))
      | inr e ↦ absurd (ground arith)
    ]

strip_prefix-append : (p r : String) → strip_prefix p (String.◌++◌ p r) ≡ some r
unfolding strip_prefix
strip_prefix-append String.[] r = rw nil-append
strip_prefix-append (String.◌∷◌ a p) r = rw cons-append (ground (arith, strip_prefix-append p r))

span_lower-append : (s : String) → String.◌++◌ (span_lower s).0 (span_lower s).1 ≡ s
unfolding span_lower
span_lower-append String.[] = nil-append ""
span_lower-append (String.◌∷◌ c s) = elim (Bool-cases (is_lower (code c))) [
  | inl e ↦ rw e (rw cons-append (ap (String.◌∷◌ c) (span_lower-append s)))
  | inr e ↦ rw e (nil-append _)
]

after_slash-some : (s : String) {r : String} → after_slash s ≡ some r → String.◌++◌ "/" r ≡ s
after_slash-some String.[] h = cc
after_slash-some (String.◌∷◌ c s) {r} h = elim (Bool-cases (nat_beq (code c) b'/')) [
  | inl e ↦
      rw (cons-append, nil-append, Char-path c "/" (ground arith))
        (ap (String.◌∷◌ "/") (ground arith))
  | inr e ↦ absurd (ground arith)
]

-- a match is the text of its groups
groups-some :
    (store : String) (rest : Option String) {a b : String}
    → groups store rest ≡ some (a, b)
    → (store ≡ a) × (rest ≡ some b)
groups-some store none h = cc
groups-some store (some id) h = ground arith

match_path-some :
    (q : Option String) {a b : String}
    → match_path q ≡ some (a, b)
    → q ≡ some (String.◌++◌ a (String.◌++◌ "/" b))
match_path-some none h = cc
match_path-some (some path) {a} {b} h =
    let (first, second) = groups-some (span_lower path).0 (after_slash (span_lower path).1) h in
    let third = after_slash-some (span_lower path).1 second in cc (span_lower-append path)

match_uri-some : (uri : String) {a b : String} → match_uri uri ≡ some (a, b) → uri_text a b ≡ uri
unfolding match_uri
match_uri-some uri h =
    strip_prefix-some "cluster://" uri (match_path-some (strip_prefix "cluster://" uri) h)

-- what a parse of a match says
abbrev ParsedAs : String → Option (String × String) → ClusterUri → Type 0
ParsedAs uri m u =
    (m ≡ some (u.store, u.id))
    × (u.raw ≡ uri)
    × (format_cluster_uri u.store u.id ≡ ok (uri_text u.store u.id))

parse_match-ok :
    (uri : String) (m : Option (String × String)) (u : ClusterUri)
    → parse_match uri m ≡ ok u
    → ParsedAs uri m u
unfolding parse_match format_cluster_uri
parse_match-ok uri none u h = cc
parse_match-ok uri (some (store, id)) u h = elim (Bool-cases (includes uri_stores store)) [
  | inr unknown ↦ absurd (cc (rw unknown at h))
  | inl known ↦ elim (Bool-cases (id == "" || is_blank id)) [
    | inl empty ↦ absurd (cc (rw (known, empty) at h))
    | inr full ↦
        subst (ParsedAs uri (some (store, id))) (ok-injective (rw (known, full) at h))
          (refl, refl, rw (known, full))
  ]
]

-- A text that parses is the text of its parts: formatting the store and the id gives it back, and
-- it is kept as `raw`.
pub format-parse :
    (uri : String) (u : ClusterUri)
    → parse_cluster_uri uri ≡ ok u
    → (format_cluster_uri u.store u.id ≡ ok uri) × (u.raw ≡ uri)
unfolding parse_cluster_uri
format-parse uri u h =
    let (m, raw, text) = parse_match-ok uri (match_uri uri) u h in
    (text ∙ ap ok (match_uri-some uri m), raw)

all_lower : String → Bool
all_lower String.[] = true
all_lower (String.◌∷◌ c s) = is_lower (code c) && all_lower s

span_lower-all_lower :
    (s t : String)
    → all_lower s ≡ true
    → span_lower t ≡ ("", t)
    → span_lower (String.◌++◌ s t) ≡ (s, t)
unfolding all_lower span_lower
span_lower-all_lower String.[] t h e = rw nil-append e
span_lower-all_lower (String.◌∷◌ c s) t h e =
    rw cons-append (ground (arith, span_lower-all_lower s t))

all_lower-uri_stores : (s : String) → includes uri_stores s ≡ true → all_lower s ≡ true
unfolding all_lower
all_lower-uri_stores s h =
    All-includes (λ x. all_lower x ≡ true) uri_stores s (refl, (refl, (refl, (refl, (refl, tt))))) h

uri_stores-nonempty : (s : String) → includes uri_stores s ≡ true → (s == "") ≡ false
uri_stores-nonempty s h =
    All-includes (λ x. (x == "") ≡ false) uri_stores s (refl, (refl, (refl, (refl, (refl, tt))))) h

span_lower-slash : (id : String) → span_lower (String.◌++◌ "/" id) ≡ ("", String.◌++◌ "/" id)
unfolding span_lower
span_lower-slash id = rw (cons-append, nil-append)

match_uri-uri_text :
    (store id : String)
    → includes uri_stores store ≡ true
    → (id == "") ≡ false
    → all_id_chars id ≡ true
    → match_uri (uri_text store id) ≡ some (store, id)
unfolding match_uri
match_uri-uri_text store id known nonempty chars =
    rw
      (
        strip_prefix-append,
        span_lower-all_lower store (String.◌++◌ "/" id) (all_lower-uri_stores store known)
            (span_lower-slash id),
        cons-append,
        nil-append,
      )
      (rw (uri_stores-nonempty store known, nonempty, chars))

or_false : (a b : Bool) → (a || b) ≡ false → a ≡ false
or_false a b h = ground arith

-- A URI that is formatted from an id without control characters, spaces and DEL parses back to the
-- store and the id.
pub parse-format :
    (store id uri : String)
    → format_cluster_uri store id ≡ ok uri
    → all_id_chars id ≡ true
    → parse_cluster_uri uri ≡ ok (record { store = store; id = id; raw = uri })
unfolding format_cluster_uri parse_cluster_uri parse_match
parse-format store id uri h chars = elim (Bool-cases (includes uri_stores store)) [
  | inr unknown ↦ absurd (cc (rw unknown at h))
  | inl known ↦ elim (Bool-cases (id == "" || is_blank id)) [
    | inl empty ↦ absurd (cc (rw (known, empty) at h))
    | inr full ↦
        let text : uri_text store id ≡ uri = ok-injective (rw (known, full) at h) in
        rw (← text, match_uri-uri_text store id known (or_false _ _ full) chars, known, full)
  ]
]
