-- ===== src/Chaincheck/Issued.antt =====
-- pkg/processorplugins/chaincheck: the issue that an entry is given.

use arxsentinel.Common.{
  ◌≡◌, refl, ap, inl, inr, ◌⊎◌, false, Option, none, some, List, [], if◌then◌else◌, is_none,
  is_empty, Text, codes, text_eq,
}
use arxsentinel.Event.{LogEntry}
use arxsentinel.Net.{V6, Ip, Cidr, parse_ip}
use arxsentinel.Chaincheck.{CheckResult, Checker, check_one, nets_contain, check}
use arxsentinel.Chaincheck.Ranges.{Guard, checker_of}
use arxsentinel.Chaincheck.Entries.{process, with_issue, issue_of, asked_ip}

-- A finding of one of the two kinds that Process tells apart.
abbrev pub IsKnown : Option CheckResult → Type 0
IsKnown none = Unit
IsKnown (some r) = (r.kind ≡ codes "cloudflare") ⊎ (r.kind ≡ codes "bogon")

abbrev HasKind : Text → Option CheckResult → Type 0
HasKind kind none = Unit
HasKind kind (some r) = r.kind ≡ kind

found-HasKind :
    (kind ip : Text) (found : Option Text)
    → HasKind kind (elim found [
      | none ↦ none
      | some cidr ↦ some (record { kind = kind; ip = ip; matched_cidr = cidr })
    ])
found-HasKind kind ip none = tt
found-HasKind kind ip (some cidr) = refl

check_one-HasKind :
    (v : V6) (kind ip : Text) (nets : Option (List Cidr)) (parsed : Ip)
    → HasKind kind (check_one v kind ip nets parsed)
unfolding check_one
check_one-HasKind v kind ip none parsed = tt
check_one-HasKind v kind ip (some nets) parsed = found-HasKind kind ip (nets_contain v nets parsed)

known :
    (f b : Option CheckResult)
    → HasKind (codes "cloudflare") f
    → HasKind (codes "bogon") b
    → IsKnown (elim f [ some result ↦ some result | none ↦ b ])
known none none h g = tt
known none (some r) h g = inr g
known (some r) b h g = inl h

checked-IsKnown :
    (v : V6) (c : Checker) (ip : Text) (address : Option Ip)
    → IsKnown (elim address [
      | none ↦ none
      | some parsed ↦ elim (check_one v (codes "cloudflare") ip c.cf parsed) [
        | some result ↦ some result
        | none ↦ check_one v (codes "bogon") ip c.bogon parsed
      ]
    ])
checked-IsKnown v c ip none = tt
checked-IsKnown v c ip (some parsed) =
    known (check_one v (codes "cloudflare") ip c.cf parsed)
      (check_one v (codes "bogon") ip c.bogon parsed)
      (check_one-HasKind v (codes "cloudflare") ip c.cf parsed)
      (check_one-HasKind v (codes "bogon") ip c.bogon parsed)

check-IsKnown : (v : V6) (c : Checker) (ip : Text) → IsKnown (check v c ip)
unfolding check
check-IsKnown v c ip = checked-IsKnown v c ip (if is_empty ip then none else parse_ip v ip)

not_empty :
    (r : CheckResult) (before : Text) → IsKnown (some r) → is_empty (issue_of r before) ≡ false
unfolding issue_of text_eq
not_empty r before (inl e) = rw e refl
not_empty r before (inr e) = rw e refl

issued :
    (e : LogEntry) (found : Option CheckResult)
    → IsKnown found
    → e.chain_issue ≡ []
    → is_empty (with_issue e found).chain_issue ≡ is_none found
issued e none h none_yet = ap is_empty none_yet
issued e (some r) h none_yet = not_empty r e.chain_issue h

-- Of an entry that has no issue yet, Process makes one with an issue exactly if Check finds the
-- address in one of the lists: the switch leaves no finding out.
pub process-check :
    (v : V6) (g : Guard) (e : LogEntry)
    → e.chain_issue ≡ []
    → is_empty (process v g e).chain_issue ≡ is_none (check v (checker_of g) (asked_ip e))
unfolding process
process-check v g e h =
    issued e (check v (checker_of g) (asked_ip e)) (check-IsKnown v (checker_of g) (asked_ip e)) h
