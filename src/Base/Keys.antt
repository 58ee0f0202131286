-- ===== src/Base/Keys.antt =====
-- Python's `==` on strings, as a decision, and what it means for a string to be falsy.
use Prim.Native.String.{String}
use mathlib.Core.Path.{◌≡◌, refl}
use mathlib.Core.Bool.{Bool, true, false, false≢true}
use text.Mathlib.Text.{◌==◌ as str_eq}
use text.Mathlib.TextEquality.{eq_iff}
use mathlib.Core.Path.{sym, ◌∙◌}
use mathlib.Core.Logic.{ite}
use mathlib.Core.Option.{Option, none, some}

decided : (s t : String) (b : Bool) → str_eq s t ≡ b → Dec (s ≡ t)
decided s t true h = yes ((eq_iff s t).0 h)
decided s t false h = no (λ e. false≢true (sym h ∙ (eq_iff s t).1 e))

unfoldable pub dec_string : Discrete String
unfolding decided
dec_string s t = decided s t (str_eq s t) refl

-- A string that is not empty; `None` and `""` are both false in a condition.
unfoldable pub truthy : Option String → Option String
truthy none = none
truthy (some s) = ite (dec_string s "") none (some s)
