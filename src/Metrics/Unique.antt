-- ===== src/Metrics/Unique.antt =====
-- A scrape of internal/metrics/metrics.go has no series twice.
use certel.Prelude.{
  String, Bool, true, false, not, ◌&&◌, Option, none, some, List, [], ◌∷◌, ◌++◌, ◌≡◌, ◌≢◌, ◌⊎◌,
  refl, sym, ap, ◌∙◌, subst, arith, inl, inr, All, All-append, All-map, take, str_eq, eq_iff,
  Bool-cases, if◌then◌else◌,
}
use certel.Prelude.Assoc.{Assoc, insert}
use certel.Clock.{Time, Duration, is_zero}
use certel.Config.Target.{Target, Config, key}
use certel.Probe.Result.{Result, CertInfo, effective_not_after}
use certel.Metrics.{
  Metrics, Sample, sample, number, seconds, Split, target_labels, expiry_sample, verified_sample,
  success_value, severity_value, unless_zero, leaf_sample, observe, new_metrics, collect_result,
  collect_results,
}

-- Two samples of different series.
abbrev pub Differs : Sample → Sample → Type 0
Differs s t = (s.metric ≢ t.metric) ⊎ (s.labels ≢ t.labels)

abbrev pub Unique : List Sample → Type 0
Unique [] = Unit
Unique (s ∷ rest) = All (Differs s) rest × Unique rest

Unique-append :
    (xs ys : List Sample)
    → Unique xs
    → Unique ys
    → All (λ s. All (Differs s) ys) xs
    → Unique (xs ++ ys)
Unique-append [] ys h k c = k
Unique-append (x ∷ xs) ys h k c =
    (All-append (Differs x) xs ys h.0 c.0, Unique-append xs ys h.1 k c.1)

-- The snapshot: each result under the key of its target, and each key once.
abbrev Fresh : String → Assoc Result → Type 0
Fresh k rows = All (λ e. e.0 ≢ k) rows

abbrev pub Keyed : Assoc Result → Type 0
Keyed [] = Unit
Keyed ((k, r) ∷ rest) = (key r.target ≡ k) × Fresh k rest × Keyed rest

insert-Fresh :
    (k j : String) (r : Result) (rows : Assoc Result)
    → k ≢ j
    → Fresh j rows
    → Fresh j (insert k r rows)
unfolding insert
insert-Fresh k j r [] h f = (h, tt)
insert-Fresh k j r ((i, old) ∷ rows) h f = elim (Bool-cases (str_eq i k)) [
  | inl e ↦ rw e (h, f.1)
  | inr e ↦ rw e (f.0, insert-Fresh k j r rows h f.1)
]

insert-Keyed :
    (r : Result) (rows : Assoc Result) → Keyed rows → Keyed (insert (key r.target) r rows)
unfolding insert
insert-Keyed r [] h = (refl, tt, tt)
insert-Keyed r ((i, old) ∷ rows) (q, f, h) = elim (Bool-cases (str_eq i (key r.target))) [
  | inl e ↦
      let same : i ≡ key r.target = (eq_iff i (key r.target)).0 e in
      rw e (refl, subst (λ (x : String). Fresh x rows) same f, h)
  | inr e ↦
      let apart : key r.target ≢ i = λ p. ground (arith, e, p, eq_iff i (key r.target)) in
      rw e (q, insert-Fresh (key r.target) i r rows apart f, insert-Keyed r rows h)
]

pub observe-Keyed : (r : Result) (m : Metrics) → Keyed m.last → Keyed (Metrics.last (observe r m))
unfolding observe
observe-Keyed r m h = insert-Keyed r m.last h

-- Every sample of a result starts with the labels of its target.
abbrev Carries : List String → Sample → Type 0
Carries lv s = take 4 s.labels ≡ lv

unless_zero-Carries :
    (lv : List String) (t : Time) (f : Time → Sample)
    → Carries lv (f t)
    → All (Carries lv) (unless_zero t f)
unless_zero-Carries lv t f h = pick (is_zero t)
  where
    pick : (b : Bool) → All (Carries lv) (if b then [] else f t ∷ [])
    pick true = tt
    pick false = (h, tt)

leaf_sample-Carries :
    (split : Split) (t : Target) (o : Option CertInfo)
    → All (Carries (target_labels split t)) (leaf_sample split t o)
leaf_sample-Carries split t none = tt
leaf_sample-Carries split t (some c) = (refl, tt)

collect_result-Carries :
    (split : Split) (r : Result)
    → All (Carries (target_labels split r.target)) (collect_result split r)
unfolding collect_result
collect_result-Carries split r =
    let lv = target_labels split r.target in
    (
      refl,
      (
        refl,
        (
          refl,
          All-append (Carries lv) _ _
              (unless_zero-Carries lv (effective_not_after r) (expiry_sample lv) refl)
              (All-append (Carries lv) _ _
                (unless_zero-Carries lv r.verified_not_after (verified_sample lv) refl)
                (leaf_sample-Carries split r.target r.cert)),
        ),
      ),
    )

-- Samples of metrics with different names.
apart_from : Sample → List Sample → Bool
apart_from s [] = true
apart_from s (t ∷ rest) = not (str_eq s.metric t.metric) && apart_from s rest

all_apart : List Sample → Bool
all_apart [] = true
all_apart (s ∷ rest) = apart_from s rest && all_apart rest

apart_from-Differs :
    (s : Sample) (rest : List Sample) → apart_from s rest ≡ true → All (Differs s) rest
unfolding apart_from
apart_from-Differs s [] h = tt
apart_from-Differs s (t ∷ rest) h = (
  inl (λ e. ground (arith, h, e, eq_iff s.metric t.metric)),
  apart_from-Differs s rest (ground (arith, h)),
)

all_apart-Unique : (xs : List Sample) → all_apart xs ≡ true → Unique xs
unfolding all_apart
all_apart-Unique [] h = tt
all_apart-Unique (s ∷ rest) h =
    (apart_from-Differs s rest (ground (arith, h)), all_apart-Unique rest (ground (arith, h)))

collect_result-Unique : (split : Split) (r : Result) → Unique (collect_result split r)
unfolding collect_result all_apart apart_from
collect_result-Unique split r =
    all_apart-Unique (collect_result split r)
      (pick (is_zero (effective_not_after r)) (is_zero r.verified_not_after) r.cert)
  where
    lv : List String
    lv = target_labels split r.target

    pick :
        (a b : Bool) (o : Option CertInfo)
        → all_apart (
            sample "ssl_probe_success" lv (number (success_value r))
            ∷ sample "certel_probe_severity" lv (number (severity_value r.severity))
            ∷ sample "certel_probe_duration_seconds" lv (seconds r.duration)
            ∷ ((if a then [] else expiry_sample lv (effective_not_after r) ∷ [])
                ++ ((if b then [] else verified_sample lv r.verified_not_after ∷ [])
                    ++ leaf_sample split r.target o)))
          ≡ true
    pick true true none = refl
    pick true true (some c) = refl
    pick true false none = refl
    pick true false (some c) = refl
    pick false true none = refl
    pick false true (some c) = refl
    pick false false none = refl
    pick false false (some c) = refl

-- Targets with the same labels have the same key.
labels-key :
    (split : Split) (t u : Target) → target_labels split t ≡ target_labels split u → key t ≡ key u
unfolding key
labels-key split t u h =
    let address : t.address ≡ u.address = cc h in
    let protocol : t.protocol ≡ u.protocol = cc h in
    let servername : t.servername ≡ u.servername = cc h in cc (address, protocol, servername)

carried-Differs :
    (lv lv' : List String) (s : Sample) (ts : List Sample)
    → lv ≢ lv'
    → Carries lv s
    → All (Carries lv') ts
    → All (Differs s) ts
carried-Differs lv lv' s ts apart h =
    All-map _ _ (λ t k. inr (λ e. apart (sym h ∙ ap (take 4) e ∙ k))) ts

-- A sample of a target, against those of the rows under other keys.
rows-Differs :
    (split : Split) (t : Target) (s : Sample) (rows : Assoc Result)
    → Carries (target_labels split t) s
    → Fresh (key t) rows
    → Keyed rows
    → All (Differs s) (collect_results split rows)
unfolding collect_results
rows-Differs split t s [] h f k = tt
rows-Differs split t s ((j, r) ∷ rows) h f (q, fresh, k) =
    let apart : target_labels split t ≢ target_labels split r.target =
      λ e. f.0 (sym q ∙ sym (labels-key split t r.target e)) in
    All-append (Differs s) (collect_result split r) (collect_results split rows)
      (carried-Differs _ _ s (collect_result split r) apart h (collect_result-Carries split r))
      (rows-Differs split t s rows h f.1 k)

-- The samples of a snapshot that holds each result under the key of its target belong to different
-- series: no two of them have the same metric and the same labels.
pub collect_results-Unique :
    (split : Split) (rows : Assoc Result) → Keyed rows → Unique (collect_results split rows)
unfolding collect_results
collect_results-Unique split [] h = tt
collect_results-Unique split ((k, r) ∷ rest) (q, f, h) =
    let f' = subst (λ (x : String). Fresh x rest) (sym q) f in
    Unique-append (collect_result split r) (collect_results split rest)
      (collect_result-Unique split r) (collect_results-Unique split rest h)
      (All-map _ _ (λ s c. rows-Differs split r.target s rest c f' h) (collect_result split r)
        (collect_result-Carries split r))

-- The probes that a monitor has observed since it started.
unfoldable pub observed : List Result → Metrics → Metrics
observed [] m = m
observed (r ∷ rs) m = observed rs (observe r m)

observed-Keyed :
    (rs : List Result) (m : Metrics) → Keyed m.last → Keyed (Metrics.last (observed rs m))
unfolding observed
observed-Keyed [] m h = h
observed-Keyed (r ∷ rs) m h = observed-Keyed rs (observe r m) (observe-Keyed r m h)

-- Whatever probes a monitor has observed since it started, no two samples of the certificate
-- series in a scrape have the same metric and the same labels.
pub observed-Unique :
    (split : Split) (c : Config) (version : String) (staleness : Duration) (rs : List Result)
    → Unique
        (collect_results split (Metrics.last (observed rs (new_metrics split c version staleness))))
unfolding new_metrics
observed-Unique split c version staleness rs =
    collect_results-Unique split _ (observed-Keyed rs (new_metrics split c version staleness) tt)
