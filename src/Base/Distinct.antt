-- ===== src/Base/Distinct.antt =====
-- Lists of strings and dictionaries in which no string stands twice.
use Prim.Native.String.{String}
use mathlib.Core.Path.{◌≡◌, refl}
use mathlib.Core.Logic.{ite}
use mathlib.Core.Bool.{true, false}
use mathlib.Core.List.{List, [], ◌∷◌}
use native.Mathlib.Omega.{arith}
use sinkronisasi_dan_distrib.Base.Tests.{ite_case}
use sinkronisasi_dan_distrib.Base.Keys.{dec_string}
use sinkronisasi_dan_distrib.Base.Dicts.{Dict, lookup, insert, contains, keys, member}

unfoldable pub IsDistinct : List String → Type 0
IsDistinct [] = Unit
IsDistinct (x ∷ s) = (member x s ≡ false) × IsDistinct s

pub IsDistinct-cons :
    (x : String) (s : List String) → member x s ≡ false → IsDistinct s → IsDistinct (x ∷ s)
unfolding IsDistinct
IsDistinct-cons x s h d = (h, d)

module _ {ℓ} {V : Type ℓ} where
  pub member-keys : (k : String) (d : Dict V) → member k (keys d) ≡ contains k d
  unfolding member lookup
  member-keys k [] = refl
  member-keys k ((j, v) ∷ d) = ground (arith, member-keys k d)

  pub keys-insert :
      (k j : String) (v : V) (d : Dict V)
      → member j (keys (insert k v d)) ≡ ite (dec_string k j) true (member j (keys d))
  unfolding member insert
  keys-insert k j v [] = ground arith
  keys-insert k j v ((i, w) ∷ d) = ground (arith, keys-insert k j v d)

  pub insert-IsDistinct :
      (k : String) (v : V) (d : Dict V) → IsDistinct (keys d) → IsDistinct (keys (insert k v d))
  unfolding IsDistinct insert member
  insert-IsDistinct k v [] h = (refl, tt)
  insert-IsDistinct k v ((j, w) ∷ d) h =
      ite_case (λ (x : Dict V). IsDistinct (keys x)) (dec_string j k) (λ _. h)
        (λ e. (ground (arith, keys-insert k j v d), insert-IsDistinct k v d h.1))
