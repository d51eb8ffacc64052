-- ===== src/Examples/Check.antt =====
-- A leaf and its issuer, and two chains for it.
use certel.Prelude.{false, ℕ, ◌+◌, ◌*◌, ◌≤◌, ◌≡◌, ◌⊎◌, refl, true, some, List, [], ◌∷◌, All, String}
use certel.Prelude.Int.{pos}
use certel.Clock.{sub_time, Time, second}
use certel.Probe.Check.{
  Certificate, Library, Verification, chains, sha256_with_rsa, earliest_not_after, best_chain,
  evaluate, is_verified, scope_of, leaf_chain, inspected, with_diagnosis, days_until, earliest_from,
  earliest_expired, diagnose, threshold_diagnosis,
}
use certel.Config.Target.{Target}
use certel.Probe.Attempts.{
  Network, Counted, check, check-Counted, attempt, assess, not_dialled, presented,
}
use certel.Probe.Check.Walk.{leaf_chain-Walked, Walked}
use certel.Probe.Check.Diagnosis.{evaluate-ok, Reaches}
use certel.Probe.Result.{Result, effective_not_after, status_ok, severity_ok}
use certel.Examples.Data.{target, noon}

abbrev certificate : String → String → Time → Certificate
certificate name issuer not_after = record {
  subject = name;
  cn = name;
  issuer = issuer;
  issuer_cn = issuer;
  issuer_organizations = [];
  signature_algorithm = sha256_with_rsa;
  dns_names = name ∷ [];
  serial = "1";
  not_before = noon;
  not_after = not_after;
  raw_issuer = issuer;
  raw_subject = name;
}

abbrev leaf : Certificate
leaf = certificate "example.org" "ca" (noon + 100 * second)

abbrev root : Certificate
root = certificate "ca" "ca" (noon + 50 * second)

abbrev cross_root : Certificate
cross_root = certificate "ca" "old" (noon + 10 * second)

-- A library that trusts the leaf, and counts seconds as days.
abbrev trusting : Library
trusting = record {
  verify = λ t peers now. chains (leaf ∷ cross_root ∷ []) ((leaf ∷ root ∷ []) ∷ []);
  algorithm_name = λ a. "";
  whole_days = λ d. pos 50;
}

abbrev both : List (List Certificate)
both = (leaf ∷ cross_root ∷ []) ∷ (leaf ∷ root ∷ []) ∷ []

abbrev verified : Verification
verified = chains (leaf ∷ cross_root ∷ []) ((leaf ∷ root ∷ []) ∷ [])

abbrev good : Result
good = with_diagnosis status_ok severity_ok (inspected trusting target leaf [] verified noon)

evaluate-ok_example :
    (good.status ≡ status_ok)
    × ((is_verified verified ≡ true) ⊎ (target.insecure ≡ true))
    × All (λ c. noon ≤ c.not_after) (scope_of leaf [] verified)
    × Reaches target good.days_left
unfolding evaluate diagnose threshold_diagnosis earliest_expired best_chain earliest_not_after
    earliest_from inspected days_until effective_not_after
evaluate-ok_example = evaluate-ok trusting target leaf [] noon good refl refl

leaf_chain-Walked_example :
    (chain : List Certificate) × (leaf_chain leaf (cross_root ∷ root ∷ []) ≡ leaf ∷ chain)
    × Walked leaf (cross_root ∷ root ∷ []) chain
leaf_chain-Walked_example = leaf_chain-Walked leaf (cross_root ∷ root ∷ [])

-- A server that the second connection reaches.
abbrev waking : Network ℕ
waking = record {
  connect = λ t n. (1, elim n [ ℕ.zero ↦ not_dialled | ℕ.suc k ↦ presented (leaf ∷ []) ]);
  cancelled = λ n. false;
  pause = λ n. n;
  now = λ n. noon;
}

abbrev persistent : Target
persistent = record target { params = record target.params { connect_retries = some (pos 3) } }

abbrev reached : Result
reached =
    record (with_diagnosis status_ok severity_ok
      (inspected trusting persistent leaf [] verified noon)) { attempts = 2; checked_at = noon }

check-Counted_example :
    Counted trusting waking persistent 1 4 (check trusting waking persistent 0).0 reached
unfolding check attempt assess evaluate diagnose threshold_diagnosis earliest_expired best_chain
    earliest_not_after earliest_from inspected days_until effective_not_after sub_time
check-Counted_example = check-Counted trusting waking persistent 3 0 reached refl refl
