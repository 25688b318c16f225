-- ===== src/Forge/Labels.antt =====
-- The labels of an issue.
use mathlib.Core.Path.{subst}
use blizzard_mock.Base.{
  pure, ◌>>◌, ==_true, ℕ, ◌≡◌, refl, sym, ap, ◌∙◌, false, ◌||◌, String, some, List, [], ◌∷◌, ◌++◌,
  arith, string_eq, Result, ok, err, ◌==◌, Bool-cases, inl, inr, ◌>>=◌, ==_true,
}
use blizzard_mock.Base.Lists.{contains, contains-snoc}
use blizzard_mock.Base.Steps.{past}
use blizzard_mock.Forge.Models.{Repo, full_name, Issue, ForgeError}
use blizzard_mock.Forge.State.{get_issue, put_issue}
use blizzard_mock.Forge.Git.{GitBackend}
use blizzard_mock.Forge.Service.{World, ask, store_issue}
use blizzard_mock.Forge.Service.Issues.{add_labels, add_issue_labels, get_issue_of}
use blizzard_mock.Forge.Landing.{asked}

contains-add_labels :
    (l : String) (ls have : List String)
    → contains l (add_labels ls have) ≡ (contains l ls || contains l have)
unfolding add_labels contains
contains-add_labels l [] have = refl
contains-add_labels l (x ∷ xs) have = elim (Bool-cases (contains x have)) [
  | inl old ↦ elim (Bool-cases (x == l)) [
    | inl this ↦
        ground (arith, contains-add_labels l xs have, ap (λ y. contains y have) (==_true x l this))
    | inr other ↦ ground (arith, contains-add_labels l xs have)
  ]
  | inr new ↦ ground (arith, contains-add_labels l xs (have ++ x ∷ []), contains-snoc l x have)
]

-- Each label of the list stands in it once.
abbrev pub NoRepeat : List String → Type 0
NoRepeat [] = Unit
NoRepeat (x ∷ xs) = (contains x xs ≡ false) × NoRepeat xs

NoRepeat-snoc :
    (x : String) (xs : List String) → contains x xs ≡ false → NoRepeat xs → NoRepeat (xs ++ x ∷ [])
unfolding contains
NoRepeat-snoc x [] new h = (refl, tt)
NoRepeat-snoc x (y ∷ ys) new h = (
  ground (arith, contains-snoc y x ys, string_eq.beq_iff x y, string_eq.beq_iff y x),
  NoRepeat-snoc x ys (ground arith) h.1,
)

NoRepeat-add_labels : (ls have : List String) → NoRepeat have → NoRepeat (add_labels ls have)
unfolding add_labels
NoRepeat-add_labels [] have h = h
NoRepeat-add_labels (x ∷ xs) have h = elim (Bool-cases (contains x have)) [
  | inl old ↦ rw old (NoRepeat-add_labels xs have h)
  | inr new ↦ rw new (NoRepeat-add_labels xs (have ++ x ∷ []) (NoRepeat-snoc x have new h))
]

abbrev issue_of : Issue → Result ForgeError Issue → Issue
issue_of d (ok j) = j
issue_of d (err x) = d

abbrev repo_of : Repo → Result ForgeError Repo → Repo
repo_of d (ok r) = r
repo_of d (err x) = d

module _ {G : Type 0} (git : GitBackend G) (owner name : String) (number : ℕ) (ls : List String)
    (w w' : World G) (i : Issue) where
  found_issue :
      (v : World G) (j : Issue) (v' : World G)
      → get_issue_of git owner name number v ≡ (ok j, v')
      → (v' ≡ v)
        × ((repo : Repo) × (git.get_repo owner name v.git ≡ ok repo)
            × (get_issue (full_name repo) number v.state ≡ some j))
  unfolding get_issue_of
  found_issue v j v' e =
      let (repo, in_repo, e1) =
        past (ask (git.get_repo owner name)) _ v v' j (asked (git.get_repo owner name)) e in
      (ground arith, (repo, in_repo, ground arith))

  stored_issue :
      (repo : Repo) (j : Issue)
      → (store_issue repo j >> pure j) w ≡ (ok i, w')
      → (i ≡ j) × (w'.state ≡ put_issue (full_name repo) i w.state)
  unfolding ◌>>=◌
  stored_issue repo j e =
      let same = ap (λ x. issue_of i x.0) e in
      (
        sym same,
        sym (ap (λ x. x.1.state) e) ∙ ap (λ (k : Issue). put_issue (full_name repo) k w.state) same,
      )

  -- Adding labels to an issue that has each of its labels once stores the issue that is answered, with
  -- nothing changed but its labels, which are the ones it had and the ones added, each once.
  pub add_issue_labels-union :
      ((repo : String) (j : Issue) → get_issue repo number w.state ≡ some j → NoRepeat j.labels)
      → add_issue_labels git owner name number ls w ≡ (ok i, w')
      → (repo : Repo) × (old : Issue) × (git.get_repo owner name w.git ≡ ok repo)
        × (get_issue (full_name repo) number w.state ≡ some old)
        × (record i { labels = old.labels } ≡ old)
        × ((l : String) → contains l i.labels ≡ (contains l ls || contains l old.labels))
        × NoRepeat i.labels
        × (w'.state ≡ put_issue (full_name repo) i w.state)
  unfolding add_issue_labels
  add_issue_labels-union once e =
      let (repo, in_repo, e1) =
        past (ask (git.get_repo owner name)) _ w w' i (asked (git.get_repo owner name)) e in
      let (old, held, e2) = past (get_issue_of git owner name number) _ w w' i found_issue e1 in
      let (repo2, in_repo2, stored) = held in
      let (answer, left) =
        stored_issue repo (record old { labels = add_labels ls old.labels }) e2 in
      (
        repo2,
        old,
        in_repo2,
        stored,
        ap (λ (j : Issue). record j { labels = old.labels }) answer,
        λ l. ap (λ (j : Issue). contains l j.labels) answer ∙ contains-add_labels l ls old.labels,
        subst (λ (j : Issue). NoRepeat j.labels) (sym answer)
            (NoRepeat-add_labels ls old.labels (once (full_name repo2) old stored)),
        left
            ∙ ap (λ (r : Repo). put_issue (full_name r) i w.state)
                (ap (repo_of repo) (sym in_repo ∙ in_repo2)),
      )
