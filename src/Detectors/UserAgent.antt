-- ===== src/Detectors/UserAgent.antt =====
-- pkg/detectorplugins/useragent/useragent.go

use arxsentinel.Common.{
  ◌||◌, none, some, List, [], ◌∷◌, ◌++◌, map, if◌then◌else◌, first_of_list, is_empty, Text, codes,
  text_eq, contains, to_lower,
}
use arxsentinel.Common.Int.{ℤ, pos}
use arxsentinel.Common.Doubles.{Doubles}
use arxsentinel.Event.{LogEntry}
use arxsentinel.Scorer.{DetectResult, no_result, Detector}
use arxsentinel.Detectors.{Params}

abbrev pub builtin_scanner_patterns : List Text
builtin_scanner_patterns =
    codes "nuclei"
    ∷ codes "sqlmap"
    ∷ codes "nikto"
    ∷ codes "nmap"
    ∷ codes "masscan"
    ∷ codes "zgrab"
    ∷ codes "dirbuster"
    ∷ codes "gobuster"
    ∷ codes "feroxbuster"
    ∷ codes "wfuzz"
    ∷ codes "ffuf"
    ∷ codes "hydra"
    ∷ codes "medusa"
    ∷ codes "nessus"
    ∷ codes "openvas"
    ∷ codes "acunetix"
    ∷ codes "w3af"
    ∷ codes "havij"
    ∷ codes "burpsuite"
    ∷ []

abbrev pub builtin_grabber_patterns : List Text
builtin_grabber_patterns =
    codes "wget/"
    ∷ codes "curl/"
    ∷ codes "python-requests"
    ∷ codes "libwww-perl"
    ∷ codes "scrapy"
    ∷ codes "httrack"
    ∷ codes "webcopier"
    ∷ codes "sitesnagger"
    ∷ codes "webreaper"
    ∷ codes "teleport pro"
    ∷ []

abbrev pub builtin_automation_patterns : List Text
builtin_automation_patterns =
    codes "python-urllib"
    ∷ codes "aiohttp"
    ∷ codes "go-http-client"
    ∷ codes "java/"
    ∷ codes "okhttp"
    ∷ codes "axios/"
    ∷ codes "node-fetch"
    ∷ codes "got ("
    ∷ codes "superagent"
    ∷ codes "restsharp"
    ∷ codes "httpclient"
    ∷ []

pub record UaDetector : Type 0 where
  pub scanner_patterns : List Text
  pub grabber_patterns : List Text
  pub automation_patterns : List Text
  pub scanner_score : ℤ
  pub grabber_score : ℤ
  pub automation_score : ℤ
  pub empty_ua_score : ℤ

unfoldable pub normalize_patterns : (Text → Text) → List Text → List Text → List Text
normalize_patterns other builtin extra = map (to_lower other) builtin ++ map (to_lower other) extra

unfoldable pub new_ua : (f : Doubles) → (Text → Text) → Params f → UaDetector
unfolding normalize_patterns
new_ua f other p = record {
  scanner_patterns =
      normalize_patterns other builtin_scanner_patterns
        (p.get_strings (codes "extra_scanner_patterns") []);
  grabber_patterns =
      normalize_patterns other builtin_grabber_patterns
        (p.get_strings (codes "extra_grabber_patterns") []);
  automation_patterns =
      normalize_patterns other builtin_automation_patterns
        (p.get_strings (codes "extra_automation_patterns") []);
  scanner_score = p.get_int (codes "scanner_score") (pos 40);
  grabber_score = p.get_int (codes "grabber_score") (pos 20);
  automation_score = p.get_int (codes "automation_score") (pos 15);
  empty_ua_score = p.get_int (codes "empty_ua_score") (pos 30);
}

unfoldable pub ua_result : ℤ → Text → DetectResult
ua_result score reason = record { score = score; module_name = codes "ua"; reason = reason }

unfoldable pub detect_ua : (Text → Text) → UaDetector → LogEntry → DetectResult
unfolding ua_result
detect_ua other d e =
    let ua = to_lower other e.user_agent in
    if is_empty e.user_agent || text_eq e.user_agent (codes "-")
    then ua_result d.empty_ua_score (codes "ua:empty")
    else elim (first_of_list (contains ua) d.scanner_patterns) [
      | some p ↦ ua_result d.scanner_score (codes "ua:scanner:" ++ p)
      | none ↦ elim (first_of_list (contains ua) d.grabber_patterns) [
        | some p ↦ ua_result d.grabber_score (codes "ua:grabber:" ++ p)
        | none ↦ elim (first_of_list (contains ua) d.automation_patterns) [
          | some p ↦ ua_result d.automation_score (codes "ua:automation:" ++ p)
          | none ↦ no_result
        ]
      ]
    ]

abbrev pub user_agent : (Text → Text) → UaDetector → Detector
user_agent other d = record { name = codes "ua"; detect = λ clock e s. (detect_ua other d e, s) }
