-- ===== src/Base/Dict.antt =====
-- Python's `dict` with text keys: the entries in the order of their insertion.
use mathlib.Core.Path.{◌≡◌, refl}
use mathlib.Core.Bool.{false}
use mathlib.Core.List.{List, [], ◌∷◌}
use mathlib.Core.Option.{Option, none, some}
use native.Mathlib.Omega.{arith}
use tenon_backend.Base.Tests.{if◌then◌else◌}
use tenon_backend.Base.Text.{Text, same_text, same_text_iff}

abbrev pub Dict {ℓ} : Type ℓ → Type ℓ
Dict A = List (Text × A)

module _ {ℓ} {A : Type ℓ} where
  -- `d.get(key)`
  unfoldable pub lookup : Text → Dict A → Option A
  lookup key [] = none
  lookup key ((name, value) ∷ rest) = if same_text name key then some value else lookup key rest

  -- `d[key] = value`
  unfoldable pub assign : Text → A → Dict A → Dict A
  assign key value [] = (key, value) ∷ []
  assign key value ((name, old) ∷ rest) =
      let later = assign key value rest in
      if same_text name key then (name, value) ∷ rest else (name, old) ∷ later

  -- `d.pop(key, None)`
  unfoldable pub pop : Text → Dict A → Dict A
  pop key [] = []
  pop key ((name, value) ∷ rest) =
      let later = pop key rest in if same_text name key then later else (name, value) ∷ later

  pub lookup-assign :
      (key : Text) (value : A) (d : Dict A) → lookup key (assign key value d) ≡ some value
  unfolding lookup assign
  lookup-assign key value [] = ground (arith, same_text_iff key key)
  lookup-assign key value ((name, old) ∷ rest) = ground (arith, lookup-assign key value rest)

  pub lookup-pop : (key : Text) (d : Dict A) → lookup key (pop key d) ≡ none
  unfolding lookup pop
  lookup-pop key [] = refl
  lookup-pop key ((name, value) ∷ rest) = ground (arith, lookup-pop key rest)

  -- What stands under another key stays.
  pub lookup-assign_other :
      (other key : Text) (value : A) (d : Dict A)
      → same_text other key ≡ false
      → lookup key (assign other value d) ≡ lookup key d
  unfolding lookup assign
  lookup-assign_other other key value [] ne = rw ne
  lookup-assign_other other key value ((name, old) ∷ rest) ne = ground (
    arith,
    lookup-assign_other other key value rest,
    same_text_iff name other,
    same_text_iff name key,
    same_text_iff other key,
  )

  pub lookup-pop_other :
      (other key : Text) (d : Dict A)
      → same_text other key ≡ false
      → lookup key (pop other d) ≡ lookup key d
  unfolding lookup pop
  lookup-pop_other other key [] ne = refl
  lookup-pop_other other key ((name, value) ∷ rest) ne = ground (
    arith,
    lookup-pop_other other key rest,
    same_text_iff name other,
    same_text_iff name key,
    same_text_iff other key,
  )
