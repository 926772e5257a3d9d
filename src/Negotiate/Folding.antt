-- ===== src/Negotiate/Folding.antt =====
-- The fold of negotiate over the branches of a pipeline.
use canal.Prelude.{
  ℕ, ◌≤◌, ◌<◌, ◌≡◌, refl, ap, ◌∙◌, true, Bool-cases, false, some, List, [], ◌∷◌, ◌++◌, ltb, leb,
  ◌||◌, ◌⊎◌, inl, inr, if◌then◌else◌, All, arith,
}
use canal.Negotiate.Contracts.{NodeContract, is_unset, Summary, summarise_one, summarise_from}

-- A branch bears progress and is at this tier.
abbrev pub SomeAt : ℕ → List NodeContract → Type 0
SomeAt g [] = ⊥
SomeAt g (n ∷ ns) = ((n.best_effort ≡ false) × (n.guarantee ≡ g)) ⊎ SomeAt g ns

abbrev pub Bounds : ℕ → List NodeContract → Type 0
Bounds g ns = All (λ n. (n.best_effort ≡ true) ⊎ (g ≤ n.guarantee)) ns

abbrev pub AllLossy : List NodeContract → Type 0
AllLossy ns = All (λ n. n.best_effort ≡ true) ns

one-guarantee :
    (out : Summary) (n : NodeContract)
    → (summarise_one out n).guarantee ≡ (
        if n.best_effort
        then out.guarantee
        else if ltb n.guarantee out.guarantee
        then n.guarantee
        else out.guarantee)
unfolding summarise_one
one-guarantee out n = ground arith

from-le :
    (ns : List NodeContract) (out : Summary) → (summarise_from out ns).guarantee ≤ out.guarantee
unfolding summarise_from
from-le [] out = omega arith
from-le (n ∷ ns) out = ground (arith, from-le ns (summarise_one out n), one-guarantee out n)

pub from-Bounds :
    (ns : List NodeContract) (out : Summary) → Bounds (summarise_from out ns).guarantee ns
unfolding summarise_from
from-Bounds [] out = tt
from-Bounds (n ∷ ns) out = (
  ground (arith, from-le ns (summarise_one out n), one-guarantee out n),
  from-Bounds ns (summarise_one out n),
)

pub from-reached :
    (ns : List NodeContract) (out : Summary)
    → ((summarise_from out ns).guarantee ≡ out.guarantee)
      ⊎ SomeAt (summarise_from out ns).guarantee ns
unfolding summarise_from
from-reached [] out = inl refl
from-reached (n ∷ ns) out = elim (from-reached ns (summarise_one out n)) [
  | inl same ↦ ground (arith, same, one-guarantee out n)
  | inr later ↦ inr (inr later)
]

pub from-append :
    (ns ms : List NodeContract) (out : Summary)
    → summarise_from out (ns ++ ms) ≡ summarise_from (summarise_from out ns) ms
unfolding summarise_from
from-append [] ms out = refl
from-append (n ∷ ns) ms out = from-append ns ms (summarise_one out n)

-- A summary of one branch.
abbrev pub at_branch : NodeContract → Summary
at_branch n = record { guarantee = n.guarantee; edge = some n.edge; ack = some n.ack }

pub one-at_branch :
    (out : Summary) (n : NodeContract)
    → n.best_effort ≡ false
    → n.guarantee ≤ out.guarantee
    → summarise_one out n ≡ at_branch n
unfolding summarise_one
one-at_branch out n bears weak =
    let low : (if ltb n.guarantee out.guarantee then n.guarantee else out.guarantee) ≡ n.guarantee =
      ground arith in
    let chosen : (is_unset out.edge || leb n.guarantee n.guarantee) ≡ true = ground arith in
    rw (bears, low, chosen) refl

one-stronger :
    (n m : NodeContract)
    → (m.best_effort ≡ true) ⊎ (n.guarantee < m.guarantee)
    → summarise_one (at_branch n) m ≡ at_branch n
unfolding summarise_one
one-stronger n m h = elim (Bool-cases m.best_effort) [
  | inl y ↦ rw y refl
  | inr z ↦
      let more : n.guarantee < m.guarantee = ground (arith, h, z) in
      let low : (if ltb m.guarantee n.guarantee then m.guarantee else n.guarantee) ≡ n.guarantee =
        ground arith in
      let passed : leb m.guarantee n.guarantee ≡ false = ground arith in rw (z, low, passed) refl
]

-- Branches that are stronger change nothing.
pub from-stronger :
    (n : NodeContract) (ns : List NodeContract)
    → All (λ m. (m.best_effort ≡ true) ⊎ (n.guarantee < m.guarantee)) ns
    → summarise_from (at_branch n) ns ≡ at_branch n
unfolding summarise_from
from-stronger n [] h = refl
from-stronger n (m ∷ ms) h =
    ap (λ out. summarise_from out ms) (one-stronger n m h.0) ∙ from-stronger n ms h.1

-- A tier that is below those of the branches is below that of their summary.
pub from-above :
    (g : ℕ) (ns : List NodeContract) (out : Summary)
    → Bounds g ns
    → g ≤ out.guarantee
    → g ≤ (summarise_from out ns).guarantee
unfolding summarise_from
from-above g [] out h le = le
from-above g (n ∷ ns) out h le =
    from-above g ns (summarise_one out n) h.1 (ground (arith, h.0, one-guarantee out n))
