-- ===== src/Classifier.antt =====
-- src/classifier.rs: categories, severities and shortened texts. `to_lowercase`, which follows the
-- tables of Unicode, is an argument; the searches by regular expressions are left to their library.
pub mod Laws
mod Tests
use Prim.Native.Char.{code}
use Prim.Native.String.{count}
use Prim.Native.String as Native
use cyberwatch_rs.Prelude.{
  leb, ◌==◌, number_eq, text_eq, if◌then◌else◌, any, ℕ, zero, suc, ◌-◌, String, ◌≡◌, refl, Bool,
  ◌||◌, Option, none, some, List, [], ◌∷◌, ◌++◌,
}
use cyberwatch_rs.Prelude.Text.{to_ascii_lowercase, trim_end_matches, is_whitespace, trim, contains}
use cyberwatch_rs.Prelude.Float.{Float}
use cyberwatch_rs.Prelude.Sets.{member, insert_sorted}

pub record Rule : Type 0 where
  pub category : String
  pub keywords : List String

abbrev pub rule : String → List String → Rule
rule category keywords = record { category = category; keywords = keywords }

pub rules : List Rule
rules =
    rule "ransomware" ("ransomware" ∷ "extortion" ∷ "encryptor" ∷ [])
    ∷ rule "malware" ("malware" ∷ "trojan" ∷ "botnet" ∷ "backdoor" ∷ "spyware" ∷ "rootkit" ∷ [])
    ∷ rule "phishing" ("phishing" ∷ "credential theft" ∷ "business email compromise" ∷ "bec" ∷ [])
    ∷ rule "zero-day" ("zero-day" ∷ "zero day" ∷ "0-day" ∷ "actively exploited" ∷ [])
    ∷ rule "exploit" ("exploit" ∷ "remote code execution" ∷ "rce" ∷ "proof of concept" ∷ "poc" ∷ [])
    ∷ rule "data-breach" ("data breach" ∷ "data leak" ∷ "stolen data" ∷ "exposed records" ∷ [])
    ∷ rule "cloud" ("cloud" ∷ "aws" ∷ "azure" ∷ "gcp" ∷ "kubernetes" ∷ "container" ∷ [])
    ∷ rule "identity"
        ("identity" ∷ "authentication" ∷ "oauth" ∷ "saml" ∷ "active directory" ∷ "credential" ∷ [])
    ∷ rule "network" ("router" ∷ "firewall" ∷ "vpn" ∷ "network" ∷ "dns" ∷ "tcp/ip" ∷ [])
    ∷ rule "supply-chain"
        ("supply chain" ∷ "dependency confusion" ∷ "package repository" ∷ "software update" ∷ [])
    ∷ rule "ot-ics" ("industrial control" ∷ "ics" ∷ "scada" ∷ "operational technology" ∷ "plc" ∷ [])
    ∷ rule "patching" ("patch" ∷ "security update" ∷ "hotfix" ∷ "upgrade" ∷ "mitigation" ∷ [])
    ∷ rule "mobile" ("android" ∷ "ios" ∷ "mobile" ∷ "iphone" ∷ [])
    ∷ rule "ai-security"
        ("artificial intelligence" ∷ "machine learning" ∷ "llm" ∷ "generative ai" ∷ [])
    ∷ rule "cryptocurrency" ("cryptocurrency" ∷ "crypto wallet" ∷ "blockchain" ∷ "cryptominer" ∷ [])
    ∷ rule "denial-of-service" ("denial of service" ∷ "ddos" ∷ "dos vulnerability" ∷ [])
    ∷ []

unfoldable pub applies : String → Rule → Bool
unfolding contains
applies lower rule = any (λ keyword. contains lower keyword) rule.keywords

-- The loop over the rules; `categories` is the set collected so far.
unfoldable pub collect : String → List Rule → List String → List String
unfolding applies insert_sorted
collect lower [] categories = categories
collect lower (rule ∷ more) categories =
    collect lower more
      (if applies lower rule then insert_sorted rule.category categories else categories)

abbrev pub or_general : List String → List String
or_general [] = "general-security" ∷ []
or_general (c ∷ cs) = c ∷ cs

unfoldable pub classify : (String → String) → String → List String
unfolding collect rules
classify to_lowercase text = or_general (collect (to_lowercase text) rules [])

abbrev pub severities : List String
severities = "critical" ∷ "high" ∷ "medium" ∷ "low" ∷ "none" ∷ "unknown" ∷ []

unfoldable pub normalize_severity : String → Option String
unfolding trim to_ascii_lowercase member
normalize_severity value =
    let normalized = to_ascii_lowercase (trim value) in
    if member normalized severities
    then some normalized
    else if normalized == "moderate"
    then some "medium"
    else none

unfoldable pub severity_from_score : {F : Type 0} ⦃float : Float F⦄ → F → String
severity_from_score ⦃float⦄ score =
    if float.le float.nine score
    then "critical"
    else if float.le float.seven score
    then "high"
    else if float.le float.four score
    then "medium"
    else if float.lt float.zero score
    then "low"
    else "none"

unfoldable pub severity_rank : Option String → ℕ
severity_rank none = 0
severity_rank (some severity) =
    if severity == "critical"
    then 5
    else if severity == "high"
    then 4
    else if severity == "medium"
    then 3
    else if severity == "low"
    then 2
    else if severity == "none"
    then 1
    else 0

-- `chars().take(n).collect()`
unfoldable pub take_chars : ℕ → String → String
take_chars zero s = ""
take_chars (suc n) Native.[] = ""
take_chars (suc n) (Native.◌∷◌ c s) = Native.◌∷◌ c (take_chars n s)

-- `trim_end`
unfoldable pub trim_end : String → String
unfolding trim_end_matches is_whitespace
trim_end s = trim_end_matches is_whitespace s

unfoldable pub truncate_chars : String → ℕ → String
unfolding take_chars trim_end
truncate_chars text max_len =
    if leb (count text) max_len
    then text
    else Native.◌++◌ (trim_end (take_chars (max_len - 1) text)) "…"

-- The text up to its first `.`, `!` or `?`, that one included; the whole text if there is none.
unfoldable pub to_sentence_end : String → String
to_sentence_end Native.[] = ""
to_sentence_end (Native.◌∷◌ c s) =
    let rest = to_sentence_end s in
    if code c == b'.' || code c == b'!' || code c == b'?'
    then Native.◌∷◌ c ""
    else Native.◌∷◌ c rest

unfoldable pub first_sentence : String → ℕ → String
unfolding trim to_sentence_end truncate_chars
first_sentence text max_len = truncate_chars (to_sentence_end (trim text)) max_len

classifier_tests :
    (classify (λ s. s) "a ransomware campaign exploited a zero-day vpn flaw"
      ≡ "exploit" ∷ "network" ∷ "ransomware" ∷ "zero-day" ∷ [])
    × (normalize_severity " Moderate" ≡ some "medium")
    × (first_sentence " One. Two." 180 ≡ "One.")
    × (truncate_chars "ab cd" 4 ≡ "ab…")
unfolding classify normalize_severity first_sentence truncate_chars
classifier_tests = (refl, refl, refl, refl)
