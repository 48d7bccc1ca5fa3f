-- ===== src/Base/Text.antt =====
-- What the client's code does with texts that may be absent: truth tests and defaults.
use Prim.Native.String
use Prim.Native.String.{String}
use mathlib.Core.Bool.{Bool, true, false, not}
use mathlib.Core.Option.{Option, none, some}
use mathlib.Core.Path.{◌≡◌}
use mathlib.Core.Logic.{◌≢◌}
use native.Mathlib.Omega.{arith}
use text.Mathlib.TextEquality.{eq_iff}
use text.Mathlib.Text.{◌==◌}

-- `Boolean(s)` for a string: the empty text is false.
abbrev pub nonempty : String → Bool
nonempty s = not (s == "")

-- `Boolean(s)` for `s?: string`.
abbrev pub truthy : Option String → Bool
truthy none = false
truthy (some s) = nonempty s

-- `s || d` for a string.
abbrev pub or_text : Option String → String → String
or_text none d = d
or_text (some s) d = elim (s == "") [ true ↦ d | false ↦ s ]

-- Template literals: `${s}${t}`.
infixr 66 ◌<>◌
abbrev pub ◌<>◌ : String → String → String
s <> t = String.◌++◌ s t

-- A literal is not empty.
pub literal : (s : String) → (s == "") ≡ false → s ≢ ""
literal s e = λ h. ground (arith, eq_iff s "")

pub or_text-ne : (o : Option String) (s : String) → s ≢ "" → or_text o s ≢ ""
or_text-ne none s n = n
or_text-ne (some t) s n = ground (arith, eq_iff t "")
