-- ===== src/Prelude/Dicts.antt =====
-- A `Record<string, string>`: its entries, in the order in which the keys were first written.
use Prim.Native.Nat.{ℕ}
use mathlib.Core.Path.{◌≡◌, refl}
use mathlib.Core.Bool.{not, ◌||◌}
use mathlib.Core.List.{List, [], ◌∷◌}
use mathlib.Core.Option.{Option, none, some}
use native.Mathlib.Omega.{arith}
use iziphone.Prelude.Tests.{◌==◌, if◌then◌else◌}
use iziphone.Prelude.Lists.{filter, elem, Distinct}

abbrev pub Dict : Type 0
Dict = List (ℕ × ℕ)

-- `Object.keys`
abbrev pub keys : Dict → List ℕ
keys [] = []
keys ((k, v) ∷ d) = k ∷ keys d

-- `Object.values`
abbrev pub values : Dict → List ℕ
values [] = []
values ((k, v) ∷ d) = v ∷ values d

-- `dict[key]`, which is undefined on a missing key.
abbrev pub lookup : ℕ → Dict → Option ℕ
lookup k [] = none
lookup k ((j, v) ∷ d) = if j == k then some v else lookup k d

-- `delete dict[key]`
abbrev pub erase : ℕ → Dict → Dict
erase k [] = []
erase k ((j, v) ∷ d) = if j == k then erase k d else (j, v) ∷ erase k d

-- `dict[key] = value`: a known key keeps its place.
abbrev pub insert : ℕ → ℕ → Dict → Dict
insert k v [] = (k, v) ∷ []
insert k v ((j, w) ∷ d) = if j == k then (k, v) ∷ d else (j, w) ∷ insert k v d

pub keys-erase : (k : ℕ) (d : Dict) → keys (erase k d) ≡ filter (λ j. not (j == k)) (keys d)
keys-erase k [] = refl
keys-erase k ((j, v) ∷ d) = ground (arith, keys-erase k d)

pub elem-keys-insert :
    (j k v : ℕ) (d : Dict) → elem j (keys (insert k v d)) ≡ (j == k || elem j (keys d))
elem-keys-insert j k v [] = refl
elem-keys-insert j k v ((i, w) ∷ d) = ground (arith, elem-keys-insert j k v d)

pub Distinct-keys-insert : (k v : ℕ) (d : Dict) → Distinct (keys d) → Distinct (keys (insert k v d))
Distinct-keys-insert k v [] h = (refl, tt)
Distinct-keys-insert k v ((j, w) ∷ d) h =
    ground (arith, Distinct-keys-insert k v d h.1, elem-keys-insert j k v d)

pub lookup-erase :
    (j k : ℕ) (d : Dict) → lookup j (erase k d) ≡ (if j == k then none else lookup j d)
lookup-erase j k [] = ground arith
lookup-erase j k ((i, v) ∷ d) = ground (arith, lookup-erase j k d)

pub lookup-insert :
    (j k v : ℕ) (d : Dict) → lookup j (insert k v d) ≡ (if j == k then some v else lookup j d)
lookup-insert j k v [] = ground arith
lookup-insert j k v ((i, w) ∷ d) = ground (arith, lookup-insert j k v d)
