-- ===== src/Prelude/Texts.antt =====
-- A text that stands somewhere in another.
use Prim.Native.String.{String, ◌++◌ as ◌+++◌}
use mathlib.Core.Path.{◌≡◌, sym, ap, ◌∙◌, subst}
use text.Mathlib.TextLemmas.{nil-append, append-nil, append_assoc}

pub record Within (t s : String) : Type 0 where
  pub before : String
  pub after : String
  pub split : s ≡ before +++ (t +++ after)

pub Within-self : (t : String) → Within t t
Within-self t = record {
  before = "";
  after = "";
  split = sym (nil-append (t +++ "") ∙ append-nil t);
}

pub Within-append_left : {t s : String} (r : String) → Within t s → Within t (s +++ r)
Within-append_left {t} r h = record {
  before = h.before;
  after = h.after +++ r;
  split =
      ap (λ x. x +++ r) h.split
      ∙ append_assoc h.before (t +++ h.after) r
      ∙ ap (λ x. h.before +++ x) (append_assoc t h.after r);
}

pub Within-append_right : {t s : String} (l : String) → Within t s → Within t (l +++ s)
Within-append_right {t} l h = record {
  before = l +++ h.before;
  after = h.after;
  split = ap (λ x. l +++ x) h.split ∙ sym (append_assoc l h.before (t +++ h.after));
}

pub Within-trans : {t s r : String} → Within t s → Within s r → Within t r
Within-trans {t} h k =
    subst (Within t) (sym k.split) (Within-append_right k.before (Within-append_left k.after h))

pub Within-nil : (s : String) → Within "" s
Within-nil s = record { before = ""; after = s; split = sym (nil-append ("" +++ s) ∙ nil-append s) }

pub ruleset within_rules = (Within-self, Within-append_left, Within-append_right)
