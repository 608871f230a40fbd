-- ===== src/Orchestrator/Failover/Members.antt =====
-- Lists of members: distinct ones, and failovers that follow one another.
use turncall.Prelude.{
  ℕ, Bool, true, false, List, [], ◌∷◌, ◌≡◌, ◌≢◌, sym, ◌==◌, ==_iff, Bool-cases, any, arith, inl,
  inr, ◌∙◌, ap,
}
use mathlib.Core.Bool.{true≢false}
use turncall.Orchestrator.Failover.{Failover}

-- `n` is in `ns`.
abbrev pub among : ℕ → List ℕ → Bool
among n ns = any (◌==◌ n) ns

abbrev pub Avoids : List ℕ → List ℕ → Type 0
Avoids ms [] = Unit
Avoids ms (n ∷ ns) = (among n ms ≡ false) × Avoids ms ns

abbrev pub AllDistinct : List ℕ → Type 0
AllDistinct [] = Unit
AllDistinct (n ∷ ns) = Avoids (n ∷ []) ns × AllDistinct ns

-- Each failover starts at the member that the one before moved to.
abbrev pub Chain : ℕ → List Failover → ℕ → Type 0
Chain m [] n = m ≡ n
Chain m (f ∷ fs) n = (f.from_member ≡ m) × Chain f.to_member fs n

pub differ : (a b : ℕ) (ns : List ℕ) → among a ns ≡ false → among b ns ≡ true → a ≢ b
differ a b ns h k e = absurd (true≢false (sym k ∙ ap (λ n. among n ns) (sym e) ∙ h))

pub apart : (a b : ℕ) (ns : List ℕ) → among a ns ≡ true → among b ns ≡ false → (a == b) ≡ false
apart a b ns h k = elim (Bool-cases (a == b)) [
  | inl e ↦ absurd (differ b a ns k h (sym ((==_iff a b).0 e)))
  | inr e ↦ e
]

-- Shares of a longer list.
pub Avoids-fewer : (m : ℕ) (ms ns : List ℕ) → Avoids (m ∷ ms) ns → Avoids (m ∷ []) ns × Avoids ms ns
Avoids-fewer m ms [] h = (tt, tt)
Avoids-fewer m ms (n ∷ ns) h =
    let rest : Avoids (m ∷ []) ns × Avoids ms ns = Avoids-fewer m ms ns h.1 in
    ((ground arith, rest.0), (ground arith, rest.1))
