-- ===== src/Base/Dicts.antt =====
-- A Python `dict` with string keys, as its items in insertion order, and a `set` of strings as a
-- list without repetition.
use mathlib.Core.Logic.{◌≢◌}
use Prim.Native.String.{String}
use mathlib.Core.Path.{◌≡◌, refl, sym, ◌∙◌}
use mathlib.Core.Logic.{ite, if_pos, if_neg}
use mathlib.Core.Bool.{Bool, true, false}
use mathlib.Core.List.{List, [], ◌∷◌, map}
use mathlib.Core.Option.{Option, none, some}
use native.Mathlib.Omega.{arith}
use sinkronisasi_dan_distrib.Base.Keys.{dec_string}

abbrev pub Dict {ℓ} : Type ℓ → Type ℓ
Dict V = List (String × V)

module _ {ℓ} {V : Type ℓ} where
  -- `d.get(k)`
  unfoldable pub lookup : String → Dict V → Option V
  lookup k [] = none
  lookup k ((j, v) ∷ d) = ite (dec_string j k) (some v) (lookup k d)

  -- `d[k] = v`: a key that is there keeps its place
  unfoldable pub insert : String → V → Dict V → Dict V
  insert k v [] = (k, v) ∷ []
  insert k v ((j, w) ∷ d) = ite (dec_string j k) ((j, v) ∷ d) ((j, w) ∷ insert k v d)

  -- `d.pop(k, None)`
  unfoldable pub erase : String → Dict V → Dict V
  erase k [] = []
  erase k ((j, w) ∷ d) = ite (dec_string j k) (erase k d) ((j, w) ∷ erase k d)

  abbrev pub is_some : Option V → Bool
  is_some none = false
  is_some (some v) = true

  -- `k in d`
  abbrev pub contains : String → Dict V → Bool
  contains k d = is_some (lookup k d)

  abbrev pub keys : Dict V → List String
  keys = map (λ e. e.0)

  abbrev pub values : Dict V → List V
  values = map (λ e. e.1)

  pub lookup-insert :
      (k j : String) (v : V) (d : Dict V)
      → lookup j (insert k v d) ≡ ite (dec_string k j) (some v) (lookup j d)
  unfolding lookup insert
  lookup-insert k j v [] = refl
  lookup-insert k j v ((i, w) ∷ d) = ground (arith, lookup-insert k j v d)

  pub lookup-insert_self : (k : String) (v : V) (d : Dict V) → lookup k (insert k v d) ≡ some v
  lookup-insert_self k v d = lookup-insert k k v d ∙ if_pos (dec_string k k) refl _ _

  pub lookup-insert_beside :
      (j k : String) (v : V) (d : Dict V) → j ≢ k → lookup j (insert k v d) ≡ lookup j d
  lookup-insert_beside j k v d h =
      lookup-insert k j v d ∙ if_neg (dec_string k j) (λ e. h (sym e)) _ _

  pub lookup-erase :
      (k j : String) (d : Dict V) → lookup j (erase k d) ≡ ite (dec_string k j) none (lookup j d)
  unfolding lookup erase
  lookup-erase k j [] = ground arith
  lookup-erase k j ((i, w) ∷ d) = ground (arith, lookup-erase k j d)

-- `s.add(x)` and `s.discard(x)` of a set of strings
unfoldable pub set_add : String → List String → List String
set_add x [] = x ∷ []
set_add x (y ∷ s) = ite (dec_string y x) (y ∷ s) (y ∷ set_add x s)

unfoldable pub set_discard : String → List String → List String
set_discard x [] = []
set_discard x (y ∷ s) = ite (dec_string y x) (set_discard x s) (y ∷ set_discard x s)

-- `x in s`
unfoldable pub member : String → List String → Bool
member x [] = false
member x (y ∷ s) = ite (dec_string y x) true (member x s)

pub member-set_add :
    (x z : String) (s : List String)
    → member z (set_add x s) ≡ ite (dec_string x z) true (member z s)
unfolding member set_add
member-set_add x z [] = refl
member-set_add x z (y ∷ s) = ground (arith, member-set_add x z s)

pub member-set_discard :
    (x z : String) (s : List String)
    → member z (set_discard x s) ≡ ite (dec_string x z) false (member z s)
unfolding member set_discard
member-set_discard x z [] = ground arith
member-set_discard x z (y ∷ s) = ground (arith, member-set_discard x z s)
