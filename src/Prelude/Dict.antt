-- ===== src/Prelude/Dict.antt =====
-- A Python dict with numbers for keys, in insertion order.
use squeeze_hunter.Prelude.Tests.{◌==◌, if◌then◌else◌, is_some, is_some-none, is_some-some}
use Prim.Native.Nat.{ℕ}
use mathlib.Core.Path.{◌≡◌, refl}
use mathlib.Core.Logic.{◌≢◌}
use mathlib.Core.Bool.{Bool, true, false, ◌||◌}
use mathlib.Core.Option.{Option, none, some}
use mathlib.Core.List.{List, [], ◌∷◌, ◌++◌}
use native.Mathlib.Omega.{arith}

abbrev pub Dict {ℓ} : Type ℓ → Type ℓ
Dict V = List (ℕ × V)

module _ {ℓ} {V : Type ℓ} where
  -- `d.get(k)`
  abbrev pub lookup : ℕ → Dict V → Option V
  lookup k [] = none
  lookup k (e ∷ d) = if k == e.0 then some e.1 else lookup k d

  -- `k in d`
  abbrev pub has : ℕ → Dict V → Bool
  has k d = is_some (lookup k d)

  -- `d[k] = v`: an old key keeps its place, a new one goes to the end.
  abbrev pub insert : ℕ → V → Dict V → Dict V
  insert key new [] = (key, new) ∷ []
  insert key new (entry ∷ more) =
      if key == entry.0 then (key, new) ∷ more else entry ∷ insert key new more

  abbrev pub keys : Dict V → List ℕ
  keys [] = []
  keys (e ∷ d) = e.0 ∷ keys d

  -- `d.pop(k, None)`
  abbrev pub erase : ℕ → Dict V → Dict V
  erase key [] = []
  erase key (entry ∷ more) = if key == entry.0 then more else entry ∷ erase key more

  abbrev pub values : Dict V → List V
  values [] = []
  values (e ∷ d) = e.1 ∷ values d

  -- No key occurs twice.
  abbrev pub IsDict : Dict V → Type 0
  IsDict [] = Unit
  IsDict (e ∷ d) = (has e.0 d ≡ false) × IsDict d

  pub lookup-insert :
      (j k : ℕ) (v : V) (d : Dict V)
      → lookup j (insert k v d) ≡ (if j == k then some v else lookup j d)
  lookup-insert j k v [] = refl
  lookup-insert j k v (e ∷ d) = ground (arith, lookup-insert j k v d)

  pub lookup-erase_ne :
      (kept gone : ℕ) (entries : Dict V)
      → kept ≢ gone
      → lookup kept (erase gone entries) ≡ lookup kept entries
  lookup-erase_ne kept gone [] other = refl
  lookup-erase_ne kept gone (entry ∷ more) other =
      ground (arith, lookup-erase_ne kept gone more other)

  pub lookup-erase_self : (k : ℕ) (d : Dict V) → IsDict d → lookup k (erase k d) ≡ none
  lookup-erase_self k [] h = refl
  lookup-erase_self k (e ∷ d) h = ground (arith, lookup-erase_self k d h.1)

  pub insert-IsDict : (k : ℕ) (v : V) (d : Dict V) → IsDict d → IsDict (insert k v d)
  insert-IsDict k v [] h = (refl, tt)
  insert-IsDict k v (e ∷ d) h = ground (arith, insert-IsDict k v d h.1, lookup-insert e.0 k v d)

  pub erase-IsDict : (k : ℕ) (d : Dict V) → IsDict d → IsDict (erase k d)
  erase-IsDict k [] h = tt
  erase-IsDict k (e ∷ d) h = ground (arith, erase-IsDict k d h.1, lookup-erase_ne e.0 k d)

  -- A new key goes to the end.
  pub insert_new : (k : ℕ) (v : V) (d : Dict V) → has k d ≡ false → insert k v d ≡ d ++ (k, v) ∷ []
  insert_new k v [] h = refl
  insert_new k v (e ∷ d) h = ground (arith, insert_new k v d)

  pub lookup_absent : (k : ℕ) (d : Dict V) → has k d ≡ false → lookup k d ≡ none
  lookup_absent k d h = is_some-none (lookup k d) h

  pub lookup_present : (k : ℕ) (d : Dict V) → has k d ≡ true → (v : V) × (lookup k d ≡ some v)
  lookup_present k d h = is_some-some (lookup k d) h

  pub has-append : (k : ℕ) (c d : Dict V) → has k (c ++ d) ≡ (has k c || has k d)
  has-append k [] d = refl
  has-append k (e ∷ c) d = ground (arith, has-append k c d)
