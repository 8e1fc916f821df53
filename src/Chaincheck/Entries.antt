-- ===== src/Chaincheck/Entries.antt =====
-- pkg/processorplugins/chaincheck: the chain guard as a processor of log entries, and its factory.
use arxsentinel.Common.{
  Bool, true, false, Option, none, some, List, [], ◌∷◌, ◌++◌, if◌then◌else◌, is_empty, Text, codes,
  text_eq,
}
use arxsentinel.Common.Dict.{Dict, get}
use arxsentinel.Common.Int.{ℤ, pos}
use arxsentinel.Event.{LogEntry}
use arxsentinel.Net.{V6}
use arxsentinel.Chaincheck.{CheckResult, check}
use arxsentinel.Chaincheck.Ranges.{Config, Guard, new_checker, checker_of}

-- A value of the parameters; an item of a list is its text, or none if it is none.
pub data Param : Type 0 where
  a_bool : Bool → Param
  a_text : Text → Param
  a_list : List (Option Text) → Param
  another : Param

unfoldable pub bool_param : Dict Param → Text → Bool → Bool
bool_param params key fallback = elim (get params key) [
  | some (a_bool b) ↦ b
  | some (a_text s) ↦ fallback
  | some (a_list l) ↦ fallback
  | some another ↦ fallback
  | none ↦ fallback
]

-- The reader of durations is time.ParseDuration.
unfoldable pub duration_param : (Text → Option ℤ) → Dict Param → Text → ℤ → ℤ
duration_param parse params key fallback = elim (get params key) [
  | some (a_bool b) ↦ fallback
  | some (a_text s) ↦ elim (parse s) [ none ↦ fallback | some d ↦ d ]
  | some (a_list l) ↦ fallback
  | some another ↦ fallback
  | none ↦ fallback
]

abbrev pub texts_of : List (Option Text) → List Text
texts_of [] = []
texts_of (none ∷ l) = texts_of l
texts_of (some s ∷ l) = s ∷ texts_of l

unfoldable pub string_slice_param : Dict Param → Text → List Text → List Text
string_slice_param params key fallback = elim (get params key) [
  | some (a_bool b) ↦ fallback
  | some (a_text s) ↦ fallback
  | some (a_list l) ↦ if is_empty (texts_of l) then fallback else texts_of l
  | some another ↦ fallback
  | none ↦ fallback
]

abbrev pub default_sources : List Text
default_sources =
    codes "https://www.cloudflare.com/ips-v4/" ∷ codes "https://www.cloudflare.com/ips-v6/" ∷ []

-- 24 hours.
abbrev pub default_interval : ℤ
default_interval = pos 86400000000000

unfoldable pub factory_config : (Text → Option ℤ) → Dict Param → Config
unfolding bool_param duration_param string_slice_param
factory_config parse params = record {
  cloudflare = record {
    enabled = bool_param params (codes "cloudflare_enabled") false;
    refresh_interval =
        duration_param parse params (codes "cloudflare_refresh_interval") default_interval;
    sources = string_slice_param params (codes "cloudflare_sources") default_sources;
  };
  bogon_enabled = bool_param params (codes "bogon_enabled") true;
}

-- The processor is its guard; none is the panic of NewBogonChecker.
unfoldable pub factory : V6 → (Text → Option ℤ) → Dict Param → Option Guard
unfolding factory_config new_checker
factory v parse params = new_checker v (factory_config parse params)

-- The address that Process asks of.
abbrev pub asked_ip : LogEntry → Text
asked_ip e = if is_empty e.real_ip then e.remote_addr else e.real_ip

-- The switch of Process.
unfoldable pub issue_of : CheckResult → Text → Text
issue_of r before =
    if text_eq r.kind (codes "cloudflare")
    then r.kind ++ (codes ":" ++ (r.ip ++ (codes "/" ++ r.matched_cidr)))
    else if text_eq r.kind (codes "bogon")
    then r.kind ++ (codes ":" ++ r.ip)
    else before

abbrev pub with_issue : LogEntry → Option CheckResult → LogEntry
with_issue e none = e
with_issue e (some r) = record e { chain_issue = issue_of r e.chain_issue }

unfoldable pub process : V6 → Guard → LogEntry → LogEntry
unfolding check issue_of
process v g e = with_issue e (check v (checker_of g) (asked_ip e))
