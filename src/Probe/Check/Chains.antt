-- ===== src/Probe/Check/Chains.antt =====
-- Which expiry and which chain internal/probe/probe.go settles on.
use mathlib.Core.List.{Memᴰ}
use certel.Prelude.{
  ℕ, ◌≤◌, ◌≡◌, ◌⊎◌, inl, inr, refl, subst, arith, List, [], ◌∷◌, All, ltb, Bool-cases,
}
use certel.Clock.{Time}
use certel.Probe.Check.{Certificate, earliest_from, earliest_not_after, best_chain}

earliest_from_le : (t : Time) (certs : List Certificate) → earliest_from t certs ≤ t
unfolding earliest_from
earliest_from_le t [] = omega arith
earliest_from_le t (c ∷ rest) =
    ground (arith, earliest_from_le t rest, earliest_from_le c.not_after rest)

earliest_from-bound :
    (t : Time) (certs : List Certificate) → All (λ c. earliest_from t certs ≤ c.not_after) certs
unfolding earliest_from
earliest_from-bound t [] = tt
earliest_from-bound t (c ∷ rest) = elim (Bool-cases (ltb c.not_after t)) [
  | inl e ↦
      let same : earliest_from c.not_after rest ≡ earliest_from t (c ∷ rest) = simp e refl in
      subst (λ (n : ℕ). All (λ d. n ≤ d.not_after) (c ∷ rest)) same
        (earliest_from_le c.not_after rest, earliest_from-bound c.not_after rest)
  | inr e ↦
      let same : earliest_from t rest ≡ earliest_from t (c ∷ rest) = simp e refl in
      subst (λ (n : ℕ). All (λ d. n ≤ d.not_after) (c ∷ rest)) same
        (ground (arith, e, earliest_from_le t rest), earliest_from-bound t rest)
]

earliest_from-mem :
    (t : Time) (certs : List Certificate)
    → (earliest_from t certs ≡ t)
      ⊎ ((c : Certificate) × Memᴰ c certs × (earliest_from t certs ≡ c.not_after))
unfolding earliest_from
earliest_from-mem t [] = inl refl
earliest_from-mem t (c ∷ rest) = elim (Bool-cases (ltb c.not_after t)) [
  | inl e ↦ rw e (elim (earliest_from-mem c.not_after rest) [
    | inl same ↦ inr (c, Memᴰ.head refl, same)
    | inr (d, m, same) ↦ inr (d, Memᴰ.tail m, same)
  ])
  | inr e ↦ rw e (elim (earliest_from-mem t rest) [
    | inl same ↦ inl same
    | inr (d, m, same) ↦ inr (d, Memᴰ.tail m, same)
  ])
]

-- The expiry of a chain is that of one of its certificates, and no certificate of it expires
-- sooner.
pub earliest_not_after_least :
    (c : Certificate) (rest : List Certificate)
    → All (λ d. earliest_not_after (c ∷ rest) ≤ d.not_after) (c ∷ rest)
      × ((d : Certificate) × Memᴰ d (c ∷ rest) × (earliest_not_after (c ∷ rest) ≡ d.not_after))
unfolding earliest_not_after
earliest_not_after_least c rest = (
  (earliest_from_le c.not_after rest, earliest_from-bound c.not_after rest),
  elim (earliest_from-mem c.not_after rest) [
    | inl same ↦ (c, Memᴰ.head refl, same)
    | inr (d, m, same) ↦ (d, Memᴰ.tail m, same)
  ],
)

best_chain_ge :
    (best : List Certificate) (others : List (List Certificate))
    → earliest_not_after best ≤ earliest_not_after (best_chain best others)
unfolding best_chain
best_chain_ge best [] = omega arith
best_chain_ge best (chain ∷ rest) =
    ground (arith, best_chain_ge best rest, best_chain_ge chain rest)

best_chain-bound :
    (best : List Certificate) (others : List (List Certificate))
    → All (λ chain. earliest_not_after chain ≤ earliest_not_after (best_chain best others)) others
unfolding best_chain
best_chain-bound best [] = tt
best_chain-bound best (chain ∷ rest) =
    elim (Bool-cases (ltb (earliest_not_after best) (earliest_not_after chain))) [
      | inl e ↦
          let same : best_chain chain rest ≡ best_chain best (chain ∷ rest) = simp e refl in
          subst
            (λ (b : List Certificate).
              All (λ l. earliest_not_after l ≤ earliest_not_after b) (chain ∷ rest))
            same (best_chain_ge chain rest, best_chain-bound chain rest)
      | inr e ↦
          let same : best_chain best rest ≡ best_chain best (chain ∷ rest) = simp e refl in
          subst
            (λ (b : List Certificate).
              All (λ l. earliest_not_after l ≤ earliest_not_after b) (chain ∷ rest))
            same (ground (arith, e, best_chain_ge best rest), best_chain-bound best rest)
    ]

best_chain-mem :
    (best : List Certificate) (others : List (List Certificate))
    → Memᴰ (best_chain best others) (best ∷ others)
unfolding best_chain
best_chain-mem best [] = Memᴰ.head refl
best_chain-mem best (chain ∷ rest) =
    elim (Bool-cases (ltb (earliest_not_after best) (earliest_not_after chain))) [
      | inl e ↦ rw e (Memᴰ.tail (best_chain-mem chain rest))
      | inr e ↦ rw e (skip (best_chain-mem best rest))
    ]
  where
    skip : {x : List Certificate} → Memᴰ x (best ∷ rest) → Memᴰ x (best ∷ chain ∷ rest)
    skip (Memᴰ.head e) = Memᴰ.head e
    skip (Memᴰ.tail m) = Memᴰ.tail (Memᴰ.tail m)

-- The chain settled on is one of those built, and none of them expires later.
pub best_chain_greatest :
    (best : List Certificate) (others : List (List Certificate))
    → Memᴰ (best_chain best others) (best ∷ others)
      × All
          (λ chain. earliest_not_after chain ≤ earliest_not_after (best_chain best others))
          (best ∷ others)
best_chain_greatest best others =
    (best_chain-mem best others, (best_chain_ge best others, best_chain-bound best others))
