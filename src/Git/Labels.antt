-- ===== src/Git/Labels.antt =====
-- The direction of a pull request whose branch does not tell it: directionFromLabels of
-- internal/git/github.go.
use namespace_resizer.Prelude.{
  ◌≡◌, refl, sym, ◌∙◌, ◌↔◌, ◌⊎◌, inl, inr, true, false, List, [], ◌∷◌, ◌++◌, All, Bool-cases,
}
use namespace_resizer.Text.{Str, ◌=s◌, has_prefix, trim_prefix}
use namespace_resizer.Text.Affix.{eq_of_trim, trim_of_eq}
use namespace_resizer.Git.{
  direction_grow, direction_shrink, label_direction_prefix, direction_from_labels,
}

-- The label is no direction label, or says grow.
abbrev pub SaysGrow : Str → Type 0
SaysGrow name =
    (has_prefix name label_direction_prefix ≡ false)
    ⊎ (name ≡ label_direction_prefix ++ direction_grow)

true_ne_false : true ≡ false → ⊥
true_ne_false e = cc

grow_ne_shrink : direction_shrink ≡ direction_grow → ⊥
grow_ne_shrink e = cc

module _ (name : Str) (rest : List Str) where
  skip_label :
      has_prefix name label_direction_prefix ≡ false
      → direction_from_labels (name ∷ rest) ≡ direction_from_labels rest
  unfolding direction_from_labels
  skip_label h = rw h

  foreign_label :
      has_prefix name label_direction_prefix ≡ true
      → (trim_prefix name label_direction_prefix =s direction_grow) ≡ false
      → direction_from_labels (name ∷ rest) ≡ direction_shrink
  unfolding direction_from_labels
  foreign_label h k = rw (h, k)

  grow_label :
      has_prefix name label_direction_prefix ≡ true
      → (trim_prefix name label_direction_prefix =s direction_grow) ≡ true
      → direction_from_labels (name ∷ rest) ≡ direction_from_labels rest
  unfolding direction_from_labels
  grow_label h k = rw (h, k)

grow_of_labels : (ls : List Str) → direction_from_labels ls ≡ direction_grow → All SaysGrow ls
grow_of_labels [] e = tt
grow_of_labels (name ∷ rest) e = elim (Bool-cases (has_prefix name label_direction_prefix)) [
  | inr h ↦ (inl h, grow_of_labels rest (sym (skip_label name rest h) ∙ e))
  | inl h ↦ elim (Bool-cases (trim_prefix name label_direction_prefix =s direction_grow)) [
    | inl k ↦ (
      inr (eq_of_trim name label_direction_prefix direction_grow h k),
      grow_of_labels rest (sym (grow_label name rest h k) ∙ e),
    )
    | inr k ↦ absurd (grow_ne_shrink (sym (foreign_label name rest h k) ∙ e))
  ]
]

says :
    {name : Str}
    → has_prefix name label_direction_prefix ≡ true
    → SaysGrow name
    → name ≡ label_direction_prefix ++ direction_grow
says h (inl n) = absurd (true_ne_false (sym h ∙ n))
says h (inr e) = e

labels_of_grow : (ls : List Str) → All SaysGrow ls → direction_from_labels ls ≡ direction_grow
unfolding direction_from_labels
labels_of_grow [] a = refl
labels_of_grow (name ∷ rest) a = elim (Bool-cases (has_prefix name label_direction_prefix)) [
  | inr h ↦ skip_label name rest h ∙ labels_of_grow rest a.1
  | inl h ↦
      grow_label name rest h (trim_of_eq name label_direction_prefix direction_grow (says h a.0))
      ∙ labels_of_grow rest a.1
]

-- A pull request is read as a grow exactly when every direction label on it says grow, in whatever
-- order the labels stand; one without a direction label is a grow too.
direction_grow_iff : (ls : List Str) → (direction_from_labels ls ≡ direction_grow) ↔ All SaysGrow ls
direction_grow_iff ls = (grow_of_labels ls, labels_of_grow ls)
