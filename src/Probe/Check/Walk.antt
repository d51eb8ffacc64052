-- ===== src/Probe/Check/Walk.antt =====
-- The chain that `leafChain` of internal/probe/probe.go walks from the leaf.
use mathlib.Core.List.{Permᴰ}
use mathlib.Core.List.Permᴰ
use mathlib.Core.Option.{some-injective}
use certel.Prelude.{
  ℕ, zero, suc, ◌≤◌, ◌≡◌, ◌≢◌, ◌⊎◌, inl, inr, refl, ap, subst, arith, String, none, some, List, [],
  ◌∷◌, ◌++◌, All, str_eq, eq_iff, length, Bool-cases, Option-cases,
}
use certel.Probe.Check.{Certificate, take_subject, walk, leaf_chain}

-- Each certificate is issued by the next.
abbrev pub Linked : Certificate → List Certificate → Type 0
Linked c [] = Unit
Linked c (d ∷ rest) = (c.raw_issuer ≡ d.raw_subject) × Linked d rest

abbrev pub last_of : Certificate → List Certificate → Certificate
last_of c [] = c
last_of c (d ∷ rest) = last_of d rest

-- The walk uses certificates that were presented, each at most once, and stops at one that signs
-- itself or whose issuer is not among those left over.
pub record Walked (leaf : Certificate) (rest chain : List Certificate) : Type 0 where
  pub linked : Linked leaf chain
  pub left_over : List Certificate
  pub parts : Permᴰ rest (chain ++ left_over)
  pub stops :
      ((last_of leaf chain).raw_issuer ≡ (last_of leaf chain).raw_subject)
      ⊎ All (λ c. (last_of leaf chain).raw_issuer ≢ c.raw_subject) left_over

pub record Taken (name : String) (rest : List Certificate) (c : Certificate)
    (others : List Certificate) : Type 0 where
  pub found : name ≡ c.raw_subject
  pub parts : Permᴰ rest (c ∷ others)
  pub shorter : length rest ≡ suc (length others)

take_subject-none :
    (name : String) (rest : List Certificate)
    → take_subject name rest ≡ none
    → All (λ c. name ≢ c.raw_subject) rest
unfolding take_subject
take_subject-none name [] h = tt
take_subject-none name (c ∷ rest) h = (
  λ e. ground (arith, h, eq_iff name c.raw_subject, e),
  take_subject-none name rest (ground (arith, h)),
)

take_subject-some :
    (name : String) (rest : List Certificate) (x : Certificate × List Certificate)
    → take_subject name rest ≡ some x
    → Taken name rest x.0 x.1
unfolding take_subject
take_subject-some name [] x h = cc
take_subject-some name (c ∷ rest) x h = elim (Bool-cases (str_eq name c.raw_subject)) [
  | inl e ↦
      let q : (c, rest) ≡ x = some-injective _ _ (simp e at h) in
      subst (λ (y : Certificate × List Certificate). Taken name (c ∷ rest) y.0 y.1) q
        (record {
          found = ground (arith, e, eq_iff name c.raw_subject);
          parts = Permᴰ.refl (c ∷ rest);
          shorter = refl;
        })
  | inr e ↦ elim (Option-cases (take_subject name rest)) [
    | inl nothing ↦ let q = simp (e, nothing) at h in cc
    | inr (y, more) ↦
        let q : (y.0, c ∷ y.1) ≡ x = some-injective _ _ (simp (e, more) at h) in
        let t = take_subject-some name rest y more in
        subst (λ (z : Certificate × List Certificate). Taken name (c ∷ rest) z.0 z.1) q
          (record {
            found = t.found;
            parts = Permᴰ.trans (Permᴰ.cons refl t.parts) (Permᴰ.swap refl refl);
            shorter = ap suc t.shorter;
          })
  ]
]

Walked-here :
    (c : Certificate) (rest : List Certificate)
    → (c.raw_issuer ≡ c.raw_subject) ⊎ All (λ d. c.raw_issuer ≢ d.raw_subject) rest
    → Walked c rest []
Walked-here c rest h = record { linked = tt; left_over = rest; parts = Permᴰ.refl rest; stops = h }

Walked-next :
    (c next : Certificate) (rest others chain : List Certificate)
    → Taken c.raw_issuer rest next others
    → Walked next others chain
    → Walked c rest (next ∷ chain)
Walked-next c next rest others chain t w = record {
  linked = (t.found, w.linked);
  left_over = w.left_over;
  parts = Permᴰ.trans t.parts (Permᴰ.cons refl w.parts);
  stops = w.stops;
}

nothing_left : (c : Certificate) (rest : List Certificate) → length rest ≤ 0 → Walked c rest []
nothing_left c [] h = Walked-here c [] (inr tt)
nothing_left c (d ∷ rest) h = let no : ⊥ = omega (arith, h) in elim no [ ]

walk-Walked :
    (fuel : ℕ) (c : Certificate) (rest : List Certificate)
    → length rest ≤ fuel
    → Walked c rest (walk fuel c rest)
unfolding walk
walk-Walked zero c rest enough = nothing_left c rest enough
walk-Walked (suc fuel) c rest enough = elim (Bool-cases (str_eq c.raw_issuer c.raw_subject)) [
  | inl self ↦
      rw (walk, self)
        (Walked-here c rest (inl (ground (arith, self, eq_iff c.raw_issuer c.raw_subject))))
  | inr other ↦ elim (Option-cases (take_subject c.raw_issuer rest)) [
    | inl nothing ↦
        rw (walk, other, nothing)
          (Walked-here c rest (inr (take_subject-none c.raw_issuer rest nothing)))
    | inr (x, found) ↦
        let t = take_subject-some c.raw_issuer rest x found in
        rw (walk, other, found)
          (Walked-next c x.0 rest x.1 _ t
            (walk-Walked fuel x.0 x.1 (omega (arith, enough, t.shorter))))
  ]
]

-- The leaf chain starts with the leaf; each of its certificates is issued by the next, the others
-- are presented certificates, each used at most once, and it stops at one that signs itself or
-- whose issuer is not among those left over.
pub leaf_chain-Walked :
    (leaf : Certificate) (rest : List Certificate)
    → (chain : List Certificate) × (leaf_chain leaf rest ≡ leaf ∷ chain) × Walked leaf rest chain
unfolding leaf_chain
leaf_chain-Walked leaf rest = (_, refl, walk-Walked (length rest) leaf rest (omega arith))
