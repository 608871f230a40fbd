-- ===== src/Sealing/RoundTrip.antt =====
-- What a sealed column is given, and what it gives back.
use turncall.Prelude.{
  String, ◌≡◌, ◌≢◌, refl, sym, ap, ◌∙◌, Option, none, some, arith, str_eq, if◌then◌else◌, is_some,
  Option-cases, inl, inr,
}
use turncall.Json.{Json, ◌>>=◌, after}
use turncall.Json.Passes.{and_then, Refines}
use turncall.Sealing.{
  Fernet, Column, prefix, fernet, opened_by, seal, unseal, walk, process_bind_param,
  process_result_value,
}
use turncall.Sealing.Values.{opened, unseal-seal, seal_twice, seal-KeepsNonempty, seal-ne-none}
use turncall.Sealing.Columns.{walk-Fuses, walk-Refines, walk-Total, walk-Same}

-- Only an empty text, which holds no secret.
unfoldable pub no_secret : String → Option String
no_secret s = if str_eq s "" then some s else none

module _ (c : Fernet) (key : String) where
  -- A text that is no token of the key; a user may choose any other.
  unfoldable pub unsealed : String → Option String
  unfolding opened_by
  unsealed s = if is_some (opened_by c key (after prefix s)) then none else some s

  opened-unsealed : (s t : String) → unsealed s ≡ some t → some (opened c key s) ≡ some t
  unfolding unsealed opened
  opened-unsealed s t e = ground arith

  sealed_unseals :
      fernet c key ≡ some key → Refines (unsealed) (and_then (seal c key) (unseal c key))
  sealed_unseals usable s t e = elim (Option-cases (seal c key s)) [
    | inl q ↦ absurd (seal-ne-none c key usable s q)
    | inr (u, q) ↦ rw q (unseal-seal c key s u q ∙ opened-unsealed s t e)
  ]

  -- With a usable key, and no secret that is already a token of it, a document is written, and what
  -- is read back is the document that was given.
  pub reads_back :
      (column : Column) (j : Json)
      → fernet c key ≡ some key
      → walk column unsealed j ≡ some j
      → (process_bind_param c key column j >>= process_result_value c key column) ≡ some j
  unfolding process_bind_param process_result_value
  reads_back column j usable plain =
      walk-Fuses (seal c key) (unseal c key) (seal-KeepsNonempty c key) column j
      ∙ walk-Refines unsealed (and_then (seal c key) (unseal c key)) (sealed_unseals usable) column
          j j plain

  -- A document that was written is written again as it is.
  pub sealed_again :
      (column : Column) (j s : Json)
      → process_bind_param c key column j ≡ some s
      → process_bind_param c key column s ≡ some s
  unfolding process_bind_param
  sealed_again column j s e = rw e at (
      walk-Fuses (seal c key) (seal c key) (seal-KeepsNonempty c key) column j
      ∙ walk-Refines (seal c key) (and_then (seal c key) (seal c key)) again column j s e)
    where
      again : Refines (seal c key) (and_then (seal c key) (seal c key))
      again a b q = rw q (seal_twice c key a b q)

  unsealable : fernet c key ≡ none → Refines (seal c key) no_secret
  unfolding seal no_secret
  unsealable unusable a b q = ground arith

  empty_only : Refines no_secret some
  unfolding no_secret
  empty_only a b q = ground arith

  -- Without a usable key a document is written only if it holds no secret, and then as it is.
  pub no_key_no_write :
      (column : Column) (j s : Json)
      → fernet c key ≡ none
      → process_bind_param c key column j ≡ some s
      → (s ≡ j) × (walk column no_secret j ≡ some j)
  unfolding process_bind_param
  no_key_no_write column j s unusable e =
      let kept : walk column no_secret j ≡ some s =
        walk-Refines (seal c key) no_secret (unsealable unusable) column j s e in
      let both : some s ≡ some j =
        sym (walk-Refines no_secret some empty_only column j s kept)
        ∙ walk-Same some (λ a. refl) column j in
      let same : s ≡ j = cc in (same, kept ∙ ap some same)

  -- With a usable key every document is written.
  pub written :
      (column : Column) (j : Json)
      → fernet c key ≡ some key
      → process_bind_param c key column j ≢ none
  unfolding process_bind_param
  written column j usable = walk-Total (seal c key) (seal-ne-none c key usable) column j
