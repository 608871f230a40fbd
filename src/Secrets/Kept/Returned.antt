-- ===== src/Secrets/Kept/Returned.antt =====
-- Tools that come back as they were shown get their stored secrets back.
use turncall.Prelude.{
  ℕ, suc, String, Bool, true, not, ◌≡◌, refl, ap₂, ◌∙◌, List, [], ◌∷◌, map, none, some, arith,
  str_eq, any, eq_refl, Option-cases, inl, inr,
}
use turncall.Secrets.Kept.{
  Tool, Known, mask_tool, known_get, usable_secret, learn, known_from, keep, unfilled_from,
  keep_masked_tool_secrets,
}

-- No later tool has the name.
abbrev pub is_new : String → List Tool → Bool
is_new n ts = not (any (λ t. str_eq t.name n) ts)

-- The stored tools: each name once, and no secret that is empty or the mask itself.
abbrev pub AreStored : List Tool → Type 0
AreStored [] = Unit
AreStored (t ∷ rest) =
    (is_new t.name rest ≡ true)
    × (usable_secret t.webhook_secret ≡ t.webhook_secret)
    × AreStored rest

get-learn_new :
    (n : String) (ts : List Tool) (known : Known)
    → is_new n ts ≡ true
    → known_get n (learn ts known) ≡ known_get n known
unfolding learn known_get
get-learn_new n [] known new = refl
get-learn_new n (t ∷ rest) known new = elim (Option-cases (usable_secret t.webhook_secret)) [
  | inl e ↦ rw e (ground (arith, get-learn_new n rest known))
  | inr (s, e) ↦ rw e (ground (arith, get-learn_new n rest ((t.name, s) ∷ known)))
]

learnt :
    (t : Tool) (rest : List Tool) (known : Known)
    → is_new t.name rest ≡ true
    → (s : String) → usable_secret t.webhook_secret ≡ some s
    → known_get t.name (learn (t ∷ rest) known) ≡ some s
unfolding learn known_get
learnt t rest known new s e =
    rw (e, get-learn_new t.name rest ((t.name, s) ∷ known) new) (ground (arith, eq_refl t.name))

-- A tool shown as masked, with a dict that has its secret.
keep-mask_some :
    (t : Tool) (known : Known) (s : String)
    → t.webhook_secret ≡ some s
    → known_get t.name known ≡ some s
    → keep known (mask_tool t) ≡ t
unfolding keep mask_tool
keep-mask_some t known s e k = ground arith

keep-mask_none : (t : Tool) (known : Known) → t.webhook_secret ≡ none → keep known (mask_tool t) ≡ t
unfolding keep mask_tool
keep-mask_none t known e = ground arith

first_kept :
    (t : Tool) (rest : List Tool) (known : Known)
    → is_new t.name rest ≡ true
    → usable_secret t.webhook_secret ≡ t.webhook_secret
    → keep (learn (t ∷ rest) known) (mask_tool t) ≡ t
first_kept t rest known new usable = elim (Option-cases t.webhook_secret) [
  | inl e ↦ keep-mask_none t _ e
  | inr (s, e) ↦ keep-mask_some t _ s e (learnt t rest known new s (usable ∙ e))
]

all_kept :
    (ts : List Tool) (known : Known)
    → AreStored ts
    → map (keep (learn ts known)) (map mask_tool ts) ≡ ts
unfolding learn
all_kept [] known stored = refl
all_kept (t ∷ rest) known stored =
    ap₂ ◌∷◌ (first_kept t rest known stored.0 stored.1) (all_kept rest _ stored.2)

none_unfilled : (i : ℕ) (ts : List Tool) → AreStored ts → unfilled_from i ts ≡ []
unfolding unfilled_from usable_secret
none_unfilled i [] stored = refl
none_unfilled i (t ∷ rest) stored = ground (arith, none_unfilled (suc i) rest stored.2)

-- Tools that come back exactly as a read showed them, masked, get the stored secrets back, every one,
-- whatever later lists are looked through, when each name is stored once and no stored secret is
-- empty or the mask itself.
pub kept_as_stored :
    (tools : List Tool) (earlier : List (List Tool))
    → AreStored tools
    → keep_masked_tool_secrets (map mask_tool tools) (tools ∷ earlier) ≡ (tools, [])
unfolding keep_masked_tool_secrets
kept_as_stored tools earlier stored =
    rw (all_kept tools (known_from earlier) stored, none_unfilled 0 tools stored)
