-- ===== src/Sealing/Values.antt =====
-- One value sealed and unsealed.
use text.Mathlib.TextLemmas.{nil-append, cons-append}
use Prim.Native.Char.{code}
use turncall.Prelude.{
  ◌≢◌, String, false, ◌≡◌, refl, sym, ap, ◌∙◌, none, some, arith, str_eq, str_append, Bool-cases,
  inl, inr, eq_iff, ==_iff,
}
use turncall.Json.{after}
use turncall.Secrets.Fused.{KeepsNonempty}
use turncall.Sealing.{Fernet, prefix, fernet, opened_by, seal, unseal}

pub after-append : (p s : String) → after p (str_append p s) ≡ some s
unfolding after
after-append String.[] s = rw (nil-append s) refl
after-append (String.◌∷◌ c p) s =
    rw (cons-append c p s) (rw ((==_iff (code c) (code c)).1 refl) (after-append p s))

prefixed_nonempty : (s : String) → str_eq (str_append prefix s) "" ≡ false
unfolding after
prefixed_nonempty s = elim (Bool-cases (str_eq (str_append prefix s) "")) [
  | inl e ↦ absurd (unopened (sym (after-append prefix s) ∙ ap (after prefix) ((eq_iff _ _).0 e)))
  | inr e ↦ e
]
  where
    unopened : some s ≡ after prefix "" → ⊥
    unopened p = cc

after_empty : after prefix "" ≡ none
unfolding after
after_empty = refl

module _ (c : Fernet) (key : String) where
  -- The plaintext of a token of the key; any other text is its own.
  unfoldable pub opened : String → String
  unfolding opened_by
  opened value = elim (opened_by c key (after prefix value)) [ some plain ↦ plain | none ↦ value ]

  -- What is sealed unseals to its plaintext.
  pub unseal-seal :
      (value s : String) → seal c key value ≡ some s → unseal c key s ≡ some (opened value)
  unfolding seal unseal opened fernet
  unseal-seal value s e = ground (
    arith,
    eq_iff value "",
    after-append prefix (c.encrypt key value),
    c.decrypt_encrypt key value,
    after_empty,
  )

  pub seal_twice : (value s : String) → seal c key value ≡ some s → seal c key s ≡ some s
  unfolding seal
  seal_twice value s e = ground (
    arith,
    eq_iff value "",
    after-append prefix (c.encrypt key value),
    c.decrypt_encrypt key value,
  )

  pub seal-KeepsNonempty : KeepsNonempty (seal c key)
  unfolding seal
  seal-KeepsNonempty value s ne e = ground (arith, prefixed_nonempty (c.encrypt key value))

  pub seal-ne-none : fernet c key ≡ some key → (value : String) → seal c key value ≢ none
  unfolding seal
  seal-ne-none usable value = ground arith
