-- ===== src/Forge/Merges.antt =====
-- The merge of a pull: its conditions, and what it leaves.
use blizzard_mock.Base.Steps.{past}
use blizzard_mock.Base.{
  ℕ, ◌≡◌, refl, sym, ◌∙◌, ◌≢◌, true, false, not, ◌&&◌, String, Option, some, arith, string_eq,
  nat_eq, option_eq, ok, ◌==◌, is_some, raise_if,
}
use blizzard_mock.Base.Dict.{insert, lookup-insert_self}
use blizzard_mock.Forge.Models.{Repo, full_name, MergeMethod, PullRequest, head_mismatch}
use blizzard_mock.Forge.State.{ForgeState, get_pull, put_pull, repo_state}
use blizzard_mock.Forge.Git.{GitBackend}
use blizzard_mock.Forge.Service.{World, ask, require_pull}
use blizzard_mock.Forge.Service.Merging.{refuse_merge, MergeResult, merge_pull, merged_as}
use blizzard_mock.Forge.Landing.{
  asked, not_raised, required, refuse_merge_passed, finish_merge_lands, Mergeable, Landed,
}

module _ {G : Type 0} (git : GitBackend G) (owner name : String) (number : ℕ) (method : MergeMethod)
    (message sha : Option String) (user : String) (w w' : World G) (r : MergeResult) where
  -- A merge that succeeds was of a stored pull, open and not merged, by a method that the repository
  -- allows, with no rejection or conflict armed for it, and with the head that the caller guarded on;
  -- git landed the
  -- pull's head on its base by that method, and the metadata it leaves differs only in the pull, which is closed and merged
  -- by the user at that time, with the landed commit and the head's sha frozen; no lever is touched.
  pub merge_grants :
      merge_pull git owner name number method message sha user w ≡ (ok r, w')
      → (repo : Repo) × (p : PullRequest) × (head_sha : String) × (git.get_repo owner name w.git
          ≡ ok repo)
        × (get_pull (full_name repo) number w.state ≡ some p)
        × Mergeable repo p number method w
        × (git.resolve_ref repo p.head w.git ≡ ok head_sha)
        × ((is_some sha && not (sha == some head_sha)) ≡ false)
        × Landed git repo p method message user head_sha w r w'
  unfolding merge_pull
  merge_grants e =
      let (repo, in_repo, e1) =
        past (ask (git.get_repo owner name)) _ w w' r (asked (git.get_repo owner name)) e in
      let (p, stored, e2) = past (require_pull repo number) _ w w' r (required repo number) e1 in
      let (_, mergeable, e3) =
        past (refuse_merge git repo p number method) _ w w' r
          (refuse_merge_passed git repo p number method) e2 in
      let (head_sha, head_read, e4) =
        past (ask (git.resolve_ref repo p.head)) _ w w' r (asked (git.resolve_ref repo p.head))
          e3 in
      let (_, guarded, e5) =
        past (raise_if (is_some sha && not (sha == some head_sha)) head_mismatch) _ w w' r
          (not_raised (is_some sha && not (sha == some head_sha)) head_mismatch) e4 in
      (
        repo,
        p,
        head_sha,
        in_repo,
        stored,
        mergeable,
        head_read,
        guarded,
        finish_merge_lands git repo p method message user head_sha w w' r e5,
      )

get_pull-put_pull :
    (repo : String) (number : ℕ) (p : PullRequest) (s : ForgeState)
    → p.number ≡ number
    → get_pull repo number (put_pull repo p s) ≡ some p
unfolding get_pull put_pull repo_state
get_pull-put_pull repo number p s e = ground (
  arith,
  lookup-insert_self repo
      (record (repo_state repo s) { pulls = insert p.number p (repo_state repo s).pulls }) s,
  lookup-insert_self p.number p (repo_state repo s).pulls,
)

full_name_same :
    (r1 r2 : Repo) → r1.owner ≡ r2.owner → r1.name ≡ r2.name → full_name r1 ≡ full_name r2
unfolding full_name
full_name_same r1 r2 e f = cc (e, f)

merged_as_facts :
    (p : PullRequest) (sha by head_sha : String) (now : ℕ)
    → ((merged_as p sha by head_sha now).number ≡ p.number)
      × ((merged_as p sha by head_sha now).merged ≡ true)
unfolding merged_as
merged_as_facts p sha by head_sha now = (refl, refl)

module _ {G : Type 0} (git : GitBackend G) (owner name : String) (number : ℕ) (w w1 w2 : World G)
    (r r2 : MergeResult) (method method2 : MergeMethod) (message message2 sha sha2 : Option String)
    (user user2 : String) where
  -- Where git answers a repository by the names it was asked for, and every pull is filed under its
  -- number, a pull that a merge has merged is not merged again by a merge from there, whatever that
  -- merge asks for.
  pub merges_once :
      ((g : G) (repo : Repo)
        → git.get_repo owner name g ≡ ok repo
        → (repo.owner ≡ owner) × (repo.name ≡ name))
      → ((repo : String) (p : PullRequest)
          → get_pull repo number w.state ≡ some p
          → p.number ≡ number)
      → merge_pull git owner name number method message sha user w ≡ (ok r, w1)
      → merge_pull git owner name number method2 message2 sha2 user2 w1 ≢ (ok r2, w2)
  unfolding merged_as
  merges_once named numbered first second =
      let (repo, p, head_sha, in_repo, stored, _, _, _, landed) =
        merge_grants git owner name number method message sha user w w1 r first in
      let (repo2, p2, head_sha2, in_repo2, stored2, mergeable2, _, _, _) =
        merge_grants git owner name number method2 message2 sha2 user2 w1 w2 r2 second in
      let (o1, n1) = named w.git repo in_repo in
      let (o2, n2) = named w1.git repo2 in_repo2 in
      let same = full_name_same repo2 repo (o2 ∙ sym o1) (n2 ∙ sym n1) in
      let p1 = merged_as p r.sha user head_sha w.now in
      let (keeps, is_merged) = merged_as_facts p r.sha user head_sha w.now in
      let held : get_pull (full_name repo) number w1.state ≡ some p1 = rw landed.state_after (
        get_pull-put_pull (full_name repo) number p1 w.state
          (keeps ∙ numbered (full_name repo) p stored)) in
      let again : some p1 ≡ some p2 = cc (held, stored2, same) in
      ground (arith, again, is_merged, mergeable2.unmerged)
