-- ===== src/Samples/Styles.antt =====
-- Styles as a text that stands before and one that stands behind.
use cliot.Prelude.{String, ◌+++◌, refl, List, [], ◌∷◌}
use cliot.Reporting.Renderer.{FmtLib, FmtLaws}

abbrev join : List String → String → String
join [] sep = ""
join (text ∷ []) sep = text
join (text ∷ next ∷ rest) sep = text +++ (sep +++ join (next ∷ rest) sep)

abbrev pub styles : FmtLib
styles = record {
  Style = String;
  fg = λ c. "<";
  with_emphasis = λ style e. style +++ "*";
  format = λ style text. style +++ (text +++ ">");
  join = join;
}

pub styles-FmtLaws : FmtLaws styles
styles-FmtLaws = record {
  opening = λ style. style;
  closing = λ style. ">";
  format_lem = λ style text. refl;
  join-one = λ text sep. refl;
  join-cons = λ text next rest sep. refl;
}
