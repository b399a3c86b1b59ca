-- ===== src/Share/Backend/Views.antt =====
-- Changing a view of the shares, and changing it back.
use mingyue_go.Base.{
  Bool-cases, Text, ap, inl, inr, none, refl, some, sym, text_eq, text_eq_iff, text_eq_refl, ◌∙◌,
  ◌≡◌,
}
use mingyue_go.Share.{Share}
use mingyue_go.Share.Backend.{View, put, drop_name, Same}

pub put_self : (x : Share) (v : View) → put x v x.name ≡ some x
put_self x v = rw (text_eq_refl x.name) refl

pub drop_self : (n : Text) (v : View) → drop_name n v n ≡ none
drop_self n v = rw (text_eq_refl n) refl

pub drop-put : (x : Share) (v : View) → v x.name ≡ none → Same (drop_name x.name (put x v)) v
drop-put x v free k = elim (Bool-cases (text_eq x.name k)) [
  | inl e ↦ rw (e) (sym free ∙ ap v ((text_eq_iff x.name k).0 e))
  | inr e ↦ rw (e) refl
]

pub put-put :
    (x y : Share) (v : View) → x.name ≡ y.name → v y.name ≡ some y → Same (put y (put x v)) v
put-put x y v n known k = elim (Bool-cases (text_eq y.name k)) [
  | inl e ↦ rw e (sym known ∙ ap v ((text_eq_iff y.name k).0 e))
  | inr e ↦ rw (e, n, e) refl
]

pub put-drop : (y : Share) (v : View) → v y.name ≡ some y → Same (put y (drop_name y.name v)) v
put-drop y v known k = elim (Bool-cases (text_eq y.name k)) [
  | inl e ↦ rw e (sym known ∙ ap v ((text_eq_iff y.name k).0 e))
  | inr e ↦ rw e refl
]

pub Same-put : (x : Share) (v w : View) → Same v w → Same (put x v) (put x w)
Same-put x v w h k = elim (Bool-cases (text_eq x.name k)) [ inl e ↦ rw e refl | inr e ↦ rw e (h k) ]

pub Same-drop : (n : Text) (v w : View) → Same v w → Same (drop_name n v) (drop_name n w)
Same-drop n v w h k = elim (Bool-cases (text_eq n k)) [ inl e ↦ rw e refl | inr e ↦ rw e (h k) ]
