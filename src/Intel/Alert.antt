-- ===== src/Intel/Alert.antt =====
-- The enrichment pipeline of agent/enrich.py (src/tinysocs): the indicators of an alert document,
-- and the threat level of all of them. A set is a list with nothing twice, whose order the code
-- leaves open. The address library is the two tests of a text; `enrich` is one `enrich_ioc`, none
-- where it raises. `_deep_get` reads a path as the engine does.
use tinysocs.Prelude.Core.{
  ℕ, Bool, true, not, ◌&&◌, ◌||◌, String, Option, none, some, List, [], ◌∷◌, ◌++◌, eqb, leb, ltb,
  map, if◌then◌else◌,
}
use tinysocs.Prelude.Equality.{contains, nat_eq}
use tinysocs.Prelude.Lists.{length}
use tinysocs.Prelude.Dict.{Dict, insert}
use tinysocs.Prelude.Strings.{codes}
use tinysocs.Prelude.Text.{Text, text_eq, strip, lower, split_on}
use tinysocs.Engine.Document.{
  Value, null, text, flag, number, fraction, object, items, Fields, get_field, extract,
}
use tinysocs.Intel.{Level, no_threat, Report, Composite}
use tinysocs.Intel.Levels.{rank}

-- A text that is not empty.
abbrev pub text_of : Value → Text
text_of (text s) = s
text_of null = []
text_of (flag b) = []
text_of (number n) = []
text_of (fraction n s) = []
text_of (items vs) = []
text_of (object fs) = []

abbrev pub add : Text → List Text → List Text
add t set = if contains set t then set else set ++ t ∷ []

-- The values that the test takes, in lower case or as they are.
unfoldable pub add_values : (Text → Bool) → (Text → Text) → List Text → List Text → List Text
add_values takes form [] set = set
add_values takes form ([] ∷ vs) set = add_values takes form vs set
add_values takes form ((c ∷ v) ∷ vs) set =
    add_values takes form vs (if takes (c ∷ v) then add (form (c ∷ v)) set else set)

abbrev pub top_values : Fields → List Text → List Text
top_values doc paths = map (λ path. text_of (extract doc path)) paths

abbrev pub values_in : Value → List Text → List Text
values_in (object body) names = map (λ name. text_of (get_field name body)) names
values_in null names = []
values_in (text s) names = []
values_in (flag b) names = []
values_in (number n) names = []
values_in (fraction n s) names = []
values_in (items vs) names = []

abbrev pub body_values : Fields → List Text → List Text
body_values doc names = values_in (get_field (codes "body") doc) names

abbrev pub ip_paths : List Text
ip_paths =
    codes "source_ip"
    ∷ codes "dest_ip"
    ∷ codes "src_ip"
    ∷ codes "dst_ip"
    ∷ codes "ip"
    ∷ codes "remote_ip"
    ∷ codes "source.ip"
    ∷ codes "destination.ip"
    ∷ []

abbrev pub ip_names : List Text
ip_names =
    codes "IpAddress"
    ∷ codes "SourceAddress"
    ∷ codes "DestinationIp"
    ∷ codes "SourceIp"
    ∷ codes "TargetServerName"
    ∷ []

abbrev pub domain_paths : List Text
domain_paths = codes "domain" ∷ codes "hostname" ∷ codes "dest_domain" ∷ codes "dns.query" ∷ []

abbrev pub domain_names : List Text
domain_names = codes "TargetServerName" ∷ codes "QueryName" ∷ codes "DestinationHostname" ∷ []

abbrev pub hash_paths : List Text
hash_paths = codes "file_hash" ∷ codes "hash" ∷ codes "sha256" ∷ codes "sha1" ∷ codes "md5" ∷ []

abbrev pub hash_names : List Text
hash_names = codes "Hashes" ∷ codes "FileHash" ∷ codes "SHA256" ∷ codes "MD5" ∷ codes "SHA1" ∷ []

abbrev pub is_hex : ℕ → Bool
is_hex c = (leb b'a' c && leb c b'f') || ((leb b'A' c && leb c b'F') || (leb b'0' c && leb c b'9'))

unfoldable pub all_hex : Text → Bool
all_hex [] = true
all_hex (c ∷ s) = is_hex c && all_hex s

-- `_HASH_RE.fullmatch`
unfoldable pub is_hash : Text → Bool
is_hash s = all_hex s && (leb 32 (length s) && leb (length s) 64)

abbrev pub has_dot : Text → Bool
has_dot s = contains s b'.'

-- `part.split("=", 1)[-1]`
unfoldable pub after_equals : Text → Text
after_equals part = if contains part b'=' then go part else part
  where
    go : Text → Text
    go [] = []
    go (c ∷ s) = let rest = go s in if eqb c b'=' then s else rest

unfoldable pub parts_of : List Text → List Text
parts_of [] = []
parts_of ([] ∷ vs) = parts_of vs
parts_of ((c ∷ v) ∷ vs) =
    map (λ part. strip (after_equals part)) (split_on b',' (c ∷ v)) ++ parts_of vs

unfoldable pub extract_ips : (Text → Bool) → Fields → List Text
extract_ips is_public_ip doc =
    add_values is_public_ip (λ s. s) (body_values doc ip_names)
      (add_values is_public_ip (λ s. s) (top_values doc ip_paths) [])

unfoldable pub extract_domains : (Text → Bool) → Fields → List Text
extract_domains is_ip doc =
    add_values (λ s. has_dot s && not (is_ip s)) lower (body_values doc domain_names)
      (add_values has_dot lower (top_values doc domain_paths) [])

unfoldable pub extract_hashes : Fields → List Text
extract_hashes doc =
    add_values is_hash lower (parts_of (body_values doc hash_names))
      (add_values is_hash lower (top_values doc hash_paths) [])

pub record Enrichment : Type 0 where
  pub entries : Dict Text Composite
  pub threat_level : Level

abbrev pub raise_level : Level → Level → Level
raise_level new old = if ltb (rank old) (rank new) then new else old

abbrev pub add_given : Text → Composite → Dict String Report → Enrichment → Enrichment
add_given ioc c [] e = e
add_given ioc c (r ∷ rs) e = record {
  entries = insert ioc c e.entries;
  threat_level = raise_level c.threat_level e.threat_level;
}

-- One answer: a task that raised, and one with no results, is left out.
abbrev pub add_result : Text → Option Composite → Enrichment → Enrichment
add_result ioc none e = e
add_result ioc (some c) e = add_given ioc c c.results e

unfoldable pub add_results : List (Text × Option Composite) → Enrichment → Enrichment
add_results [] e = e
add_results ((ioc, c) ∷ results) e = add_results results (add_result ioc c e)

-- `enrich_alert`. The level is shown only beside an entry.
unfoldable pub enrich_alert :
    (Text → Bool) → (Text → Bool) → (String → Text → Option Composite) → Fields → Enrichment
enrich_alert is_public_ip is_ip enrich doc =
    let tasks : String → List Text → List (Text × Option Composite) =
      λ kind iocs. map (λ ioc. (ioc, enrich kind ioc)) iocs in
    add_results
      (tasks "ip" (extract_ips is_public_ip doc)
        ++ tasks "domain" (extract_domains is_ip doc)
        ++ tasks "hash" (extract_hashes doc))
      (record { entries = []; threat_level = no_threat })
