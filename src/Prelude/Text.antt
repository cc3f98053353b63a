-- ===== src/Prelude/Text.antt =====
-- Comparison of texts and of nullable texts, as `===` compares them.
use Prim.Native.Nat.{ℕ, zero, suc}
use Prim.Native.String.{String}
use mathlib.Core.Path.{◌≡◌}
use mathlib.Core.Logic.{◌↔◌}
use mathlib.Core.Bool.{Bool, true, false, not}
use mathlib.Core.Option.{Option, none, some}
use native.Mathlib.Omega.{arith}
use text.Mathlib.Text.{◌==◌ as str_eq}
use text.Mathlib.TextEquality.{eq_iff}
use text.Mathlib.TextPositions.{eq_refl}

abbrev pub same : String → String → Bool
same a b = str_eq a b

pub same_iff : (a b : String) → (same a b ≡ true) ↔ (a ≡ b)
same_iff a b = eq_iff a b

pub same_refl : (a : String) → same a a ≡ true
same_refl a = eq_refl a

abbrev pub same? : Option String → Option String → Bool
same? none none = true
same? none (some b) = false
same? (some a) none = false
same? (some a) (some b) = same a b

pub same?_iff : (a b : Option String) → (same? a b ≡ true) ↔ (a ≡ b)
same?_iff none none = ground arith
same?_iff none (some b) = ground arith
same?_iff (some a) none = ground arith
same?_iff (some a) (some b) = ground (arith, same_iff a b)

-- The truth value of a nullable text: `null` and the empty text are false.
abbrev pub truthy : Option String → Bool
truthy none = false
truthy (some s) = not (same s "")

-- The first characters of a text, and the others.
abbrev pub take_chars : ℕ → String → String
take_chars zero s = String.[]
take_chars (suc n) String.[] = String.[]
take_chars (suc n) (String.◌∷◌ c s) = String.◌∷◌ c (take_chars n s)

abbrev pub drop_chars : ℕ → String → String
drop_chars zero s = s
drop_chars (suc n) String.[] = String.[]
drop_chars (suc n) (String.◌∷◌ c s) = drop_chars n s

abbrev pub append : String → String → String
append String.[] t = t
append (String.◌∷◌ c s) t = String.◌∷◌ c (append s t)

-- `0x${digits}`
abbrev pub prefixed : String → String
prefixed digits = append "0x" digits

-- A text after a number of copies of another one.
abbrev pub repeated : ℕ → String → String → String
repeated zero c s = s
repeated (suc n) c s = append c (repeated n c s)

-- The text of a nullable text that was tested before.
abbrev pub or_empty : Option String → String
or_empty none = ""
or_empty (some s) = s
