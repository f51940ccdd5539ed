-- ===== src/Git/Branch.antt =====
-- Which branches a prefix of FindOpenPR matches (internal/git/github.go).
use namespace_resizer.Prelude.{
  ℕ, ◌≡◌, refl, sym, ap, ◌∙◌, ◌↔◌, true, false, [], ◌∷◌, ◌++◌, arith, append_assoc,
}
use namespace_resizer.Text.{Str, codes, has_prefix, Free}
use namespace_resizer.Text.Affix.{
  has_segment_unique, not_prefix_of_Free, has_prefix-cancel, Free-append,
}
use namespace_resizer.Text.Decimal.{decimal, Free-of_IsDigits, IsDigits-decimal}
use namespace_resizer.Git.{branch_name, new_prefix, legacy_prefix}

-- The names that Kubernetes allows have no slash.
abbrev pub NoSlash : Str → Type 0
NoSlash = Free b'/'

-- The end of a branch name and of a prefix, behind the direction.
module _ (ns quota ns' quota' : Str) (unix : ℕ) where
  tail_unique :
      NoSlash ns
      → NoSlash quota
      → NoSlash ns'
      → NoSlash quota'
      → has_prefix
          (ns ++ b'/' ∷ (quota ++ b'/' ∷ decimal unix))
          (ns' ++ b'/' ∷ (quota' ++ b'/' ∷ []))
        ≡ true
      → (ns ≡ ns') × (quota ≡ quota')
  tail_unique f g f' g' h =
      let (e, rest) = has_segment_unique b'/' ns ns' _ _ f f' h in
      let (k, _) = has_segment_unique b'/' quota quota' _ _ g g' rest in (e, k)

  pub prefix_unique :
      (d d' : Str)
      → NoSlash d × NoSlash ns × NoSlash quota
      → NoSlash d' × NoSlash ns' × NoSlash quota'
      → has_prefix (branch_name d ns quota unix) (new_prefix d' ns' quota') ≡ true
      → (d ≡ d') × (ns ≡ ns') × (quota ≡ quota')
  unfolding branch_name new_prefix
  prefix_unique d d' f g h =
      let (e, rest) =
        has_segment_unique b'/' d d' _ _ f.0 g.0
          (sym (has_prefix-cancel (codes "resize/") _ _) ∙ h) in
      let (k, l) = tail_unique f.1 f.2 g.1 g.2 rest in (e, k, l)

own_branch :
    (d ns quota : Str) (unix : ℕ)
    → has_prefix (branch_name d ns quota unix) (new_prefix d ns quota) ≡ true
unfolding branch_name new_prefix has_prefix
own_branch d ns quota unix =
    has_prefix-cancel d _ _
    ∙ has_prefix-cancel ns _ _
    ∙ has_prefix-cancel quota (b'/' ∷ decimal unix) (b'/' ∷ [])

-- A prefix that FindOpenPR searches for in the new shape matches a branch of CreatePR exactly when
-- direction, namespace and quota are those of the branch, given that none of them has a slash.
pub new_prefix_iff :
    (d ns quota d' ns' quota' : Str) (unix : ℕ)
    → NoSlash d × NoSlash ns × NoSlash quota
    → NoSlash d' × NoSlash ns' × NoSlash quota'
    → (has_prefix (branch_name d ns quota unix) (new_prefix d' ns' quota') ≡ true)
      ↔ ((d ≡ d') × (ns ≡ ns') × (quota ≡ quota'))
new_prefix_iff d n q d' n' q' unix f g =
    (prefix_unique n q n' q' unix d d' f g, λ e. rw (← e.0, ← e.1, ← e.2) (own_branch d n q unix))

-- A branch in the shape of earlier releases: "resize/<namespace>-<quota>-<timestamp>".
abbrev pub legacy_branch : Str → Str → ℕ → Str
legacy_branch ns quota unix = legacy_prefix ns quota ++ decimal unix

dashed_Free :
    (ns quota : Str) (unix : ℕ)
    → NoSlash ns
    → NoSlash quota
    → NoSlash ((ns ++ b'-' ∷ (quota ++ b'-' ∷ [])) ++ decimal unix)
dashed_Free ns quota unix f g =
    Free-append b'/' (ns ++ b'-' ∷ (quota ++ b'-' ∷ [])) (decimal unix)
      (Free-append b'/' ns (b'-' ∷ (quota ++ b'-' ∷ [])) f
        (refl, Free-append b'/' quota (b'-' ∷ []) g (refl, tt)))
      (Free-of_IsDigits b'/' (decimal unix) (omega arith) (IsDigits-decimal unix))

-- A search in the new shape never matches a branch in the old shape, whatever the namespace and the
-- quota of either, given that the old branch was made from names with no slash.
new_prefix-legacy_branch :
    (d ns quota ns' quota' : Str) (unix : ℕ)
    → NoSlash ns'
    → NoSlash quota'
    → has_prefix (legacy_branch ns' quota' unix) (new_prefix d ns quota) ≡ false
unfolding new_prefix legacy_prefix
new_prefix-legacy_branch d ns quota ns' quota' unix f g =
    has_prefix-cancel (codes "resize/") _ _
    ∙ not_prefix_of_Free b'/' _ d _ (dashed_Free ns' quota' unix f g)

-- The old shape cannot tell where the namespace ends: two pairs of names share the prefix that
-- FindOpenPR searches for, for all names that split at a dash.
pub legacy_prefix_ambiguous :
    (a b c : Str) → legacy_prefix (a ++ b'-' ∷ b) c ≡ legacy_prefix a (b ++ b'-' ∷ c)
unfolding legacy_prefix
legacy_prefix_ambiguous a b c =
    ap (λ t. codes "resize/" ++ t)
      (append_assoc a (b'-' ∷ b) (b'-' ∷ (c ++ b'-' ∷ []))
        ∙ ap (λ t. a ++ b'-' ∷ t) (sym (append_assoc b (b'-' ∷ c) (b'-' ∷ []))))
