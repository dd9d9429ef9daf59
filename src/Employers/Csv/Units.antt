-- ===== src/Employers/Csv/Units.antt =====
-- The code units of a text; the header names of the approved employers (src/lib/employers/csv.ts) are
-- ASCII, where these are the codes of its characters.
use Prim.Native.Char.{code}
use Prim.Native.String.{String, [], ◌∷◌}
use internship_pilot.Employers.Csv.{Text}
use mathlib.Core.List

abbrev pub units : String → Text
units [] = List.[]
units (c ∷ s) = List.◌∷◌ (code c) (units s)
