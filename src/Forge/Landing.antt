-- ===== src/Forge/Landing.antt =====
-- The guards that a merge passed, and what it leaves when git lands it.
use mathlib.Core.Path.{subst}
use blizzard_mock.Base.Steps.{past}
use blizzard_mock.Forge.Models.{ForgeError, merge, squash, rebase}
use blizzard_mock.Forge.Levers.{LeverKind}
use Prim.Native.String.{◌++◌}
use blizzard_mock.Base.Text.{show}
use blizzard_mock.Base.{
  if◌then◌else◌, Result, ℕ, ◌≡◌, refl, sym, ap, Bool, true, false, ◌||◌, ◌&&◌, String, Option, none,
  some, arith, string_eq, nat_eq, option_eq, ok, ◌>>=◌, ◌>>◌, ◌==◌, is_some, raise_if, pure, err,
}
use blizzard_mock.Base.Steps.{returned}
use blizzard_mock.Forge.Models.{
  closed, Repo, full_name, opened, is_closed, MergeMethod, PullRequest, not_mergeable,
  merge_rejected,
}
use blizzard_mock.Forge.Levers.{merge_conflict, merge_commits_disallowed}
use blizzard_mock.Forge.Levers as Levers
use blizzard_mock.Forge.State.{get_pull, put_pull}
use blizzard_mock.Forge.Git.{GitBackend}
use blizzard_mock.Forge.Service.{World, find_lever, ask, require_pull, refuse_armed}
use blizzard_mock.Forge.Service.Merging.{
  refuse_merge, finish_merge, MergeResult, merged_as, land, record_merge, refuse_method, is_merge,
  squash_message, merge_message,
}

module _ {G : Type 0} where
  pub asked :
      {A : Type 0} (f : G → Result ForgeError A) (w : World G) (a : A) (w' : World G)
      → ask f w ≡ (ok a, w')
      → (w' ≡ w) × (f w.git ≡ ok a)
  asked f w a w' e = (sym (ap (λ x. x.1) e), ap (λ x. x.0) e)

  pub not_raised :
      (b : Bool) (x : ForgeError) (w : World G) (a : Unit {0}) (w' : World G)
      → raise_if b x w ≡ (ok a, w')
      → (w' ≡ w) × (b ≡ false)
  not_raised true x w a w' e = ground arith
  not_raised false x w a w' e = (sym (ap (λ x. x.1) e), refl)

  pub required :
      (repo : Repo) (number : ℕ) (w : World G) (p : PullRequest) (w' : World G)
      → require_pull repo number w ≡ (ok p, w')
      → (w' ≡ w) × (get_pull (full_name repo) number w.state ≡ some p)
  required repo number w p w' e = ground arith

  unarmed :
      (kind : LeverKind) (repo : Repo) (number : Option ℕ) (x : ForgeError) (w : World G)
      (a : Unit {0}) (w' : World G)
      → refuse_armed kind repo number x w ≡ (ok a, w')
      → (w' ≡ w) × (find_lever kind repo number w ≡ none)
  unarmed kind repo number x w a w' e = ground arith

  method_passed :
      (git : GitBackend G) (repo : Repo) (method : MergeMethod) (w : World G) (a : Unit {0})
      (w' : World G)
      → refuse_method git repo method w ≡ (ok a, w')
      → (w' ≡ w)
        × ((is_merge method && is_some (find_lever merge_commits_disallowed repo none w)) ≡ false)
  method_passed git repo method w a w' e = ground arith

abbrev sha_of : String → Result ForgeError MergeResult → String
sha_of d (ok m) = m.sha
sha_of d (err x) = d

-- The text of the commit: the caller's, unless it is missing or empty.
abbrev commit_text : Option String → String → String
commit_text none default = default
commit_text (some text) default = if text == "" then default else text

-- Git's own step for the method: the pull's head onto its base, under the commit's text.
abbrev pub Lands :
    {G : Type 0}
    → GitBackend G
    → Repo
    → PullRequest
    → MergeMethod
    → Option String
    → G
    → String
    → G
    → Type 0
Lands git repo p squash message g sha g' =
    git.squash repo p.base p.head
      (commit_text message (p.title ++ (" (#" ++ (show p.number ++ ")")))) g
    ≡ (ok sha, g')
Lands git repo p rebase message g sha g' =
    git.rebase repo p.base p.head
      (commit_text message ("Merge pull request #" ++ (show p.number ++ (" from " ++ p.head)))) g
    ≡ (ok sha, g')
Lands git repo p merge message g sha g' =
    git.merge repo p.base p.head
      (commit_text message ("Merge pull request #" ++ (show p.number ++ (" from " ++ p.head)))) g
    ≡ (ok sha, g')

land-Lands :
    {G : Type 0} (git : GitBackend G) (repo : Repo) (p : PullRequest) (method : MergeMethod)
    (message : Option String) (w : World G) (sha : String) (w' : World G)
    → land git repo p method message w ≡ (ok sha, w')
    → Lands git repo p method message w.git sha w'.git
unfolding land squash_message merge_message
land-Lands git repo p squash none w sha w' e = ap (λ x. (x.0, x.1.git)) e
land-Lands git repo p squash (some m) w sha w' e = ap (λ x. (x.0, x.1.git)) e
land-Lands git repo p rebase none w sha w' e = ap (λ x. (x.0, x.1.git)) e
land-Lands git repo p rebase (some m) w sha w' e = ap (λ x. (x.0, x.1.git)) e
land-Lands git repo p merge none w sha w' e = ap (λ x. (x.0, x.1.git)) e
land-Lands git repo p merge (some m) w sha w' e = ap (λ x. (x.0, x.1.git)) e

land_kept :
    {G : Type 0} (git : GitBackend G) (repo : Repo) (p : PullRequest) (method : MergeMethod)
    (message : Option String) (w : World G) (sha : String) (w' : World G)
    → land git repo p method message w ≡ (ok sha, w')
    → (w'.state ≡ w.state) × (w'.levers ≡ w.levers) × (w'.now ≡ w.now)
unfolding land
land_kept git repo p squash message w sha w' e =
    (sym (ap (λ x. x.1.state) e), sym (ap (λ x. x.1.levers) e), sym (ap (λ x. x.1.now) e))
land_kept git repo p rebase message w sha w' e =
    (sym (ap (λ x. x.1.state) e), sym (ap (λ x. x.1.levers) e), sym (ap (λ x. x.1.now) e))
land_kept git repo p merge message w sha w' e =
    (sym (ap (λ x. x.1.state) e), sym (ap (λ x. x.1.levers) e), sym (ap (λ x. x.1.now) e))

-- The guards that a merge passed.
pub record Mergeable {G : Type 0} (repo : Repo) (p : PullRequest) (number : ℕ)
    (method : MergeMethod) (w : World G) : Type 0 where
  pub unmerged : p.merged ≡ false
  pub is_opened : p.state ≡ opened
  pub allowed :
      (is_merge method && is_some (find_lever merge_commits_disallowed repo none w)) ≡ false
  pub not_rejected : find_lever Levers.merge_rejected repo (some number) w ≡ none
  pub no_conflict : find_lever merge_conflict repo (some number) w ≡ none

-- What a merge that lands leaves.
pub record Landed {G : Type 0} (git : GitBackend G) (repo : Repo) (p : PullRequest)
    (method : MergeMethod) (message : Option String) (user head_sha : String) (w : World G)
    (r : MergeResult) (w' : World G) : Type 0 where
  pub landed : Lands git repo p method message w.git r.sha w'.git
  pub state_after :
      w'.state
      ≡ put_pull
          (full_name repo)
          (record p {
            merged = true;
            merged_at = some w.now;
            merged_by = some user;
            merge_commit_sha = some r.sha;
            closed_head_sha = some head_sha;
            closed_base_sha = some r.sha;
            state = closed;
            updated_at = w.now;
          })
          w.state
  pub levers_after : w'.levers ≡ w.levers

module _ {G : Type 0} (git : GitBackend G) (repo : Repo) (p : PullRequest) where
  pub refuse_merge_passed :
      (number : ℕ) (method : MergeMethod) (w : World G) (a : Unit {0}) (w' : World G)
      → refuse_merge git repo p number method w ≡ (ok a, w')
      → (w' ≡ w) × Mergeable repo p number method w
  unfolding refuse_merge
  refuse_merge_passed number method w a w' e =
      let (_, live, e1) =
        past (raise_if (p.merged || is_closed p.state) not_mergeable) _ w w' a
          (not_raised (p.merged || is_closed p.state) not_mergeable) e in
      let (_, allowed, e2) =
        past (refuse_method git repo method) _ w w' a (method_passed git repo method) e1 in
      let (_, not_rejected, e3) =
        past (refuse_armed Levers.merge_rejected repo (some number) merge_rejected) _ w w' a
          (unarmed Levers.merge_rejected repo (some number) merge_rejected) e2 in
      let (same, no_conflict) = unarmed merge_conflict repo (some number) not_mergeable w a w' e3 in
      (
        same,
        record {
          unmerged = ground (arith, live);
          is_opened = ground (arith, live);
          allowed = allowed;
          not_rejected = not_rejected;
          no_conflict = no_conflict;
        },
      )

  finish_merge_of :
      (user head_sha : String) (w1 w' : World G) (sha : String) (r : MergeResult)
      → (record_merge git repo p sha user head_sha >> pure (record { sha = sha; merged = true })) w1
        ≡ (ok r, w')
      → (r.sha ≡ sha)
        × (w' ≡ record w1 {
          state = put_pull (full_name repo) (merged_as p sha user head_sha w1.now) w1.state;
        })
  unfolding record_merge ◌>>=◌
  finish_merge_of user head_sha w1 w' sha r e =
      (sym (ap (λ x. sha_of sha x.0) e), sym (ap (λ x. x.1) e))

  pub finish_merge_lands :
      (method : MergeMethod) (message : Option String) (user head_sha : String) (w w' : World G)
      (r : MergeResult)
      → finish_merge git repo p method message user head_sha w ≡ (ok r, w')
      → Landed git repo p method message user head_sha w r w'
  unfolding finish_merge merged_as
  finish_merge_lands method message user head_sha w w' r e =
      let (sha, w1, done, e1) = returned (land git repo p method message) _ w w' r e in
      let (same, left) = finish_merge_of user head_sha w1 w' sha r e1 in
      let (state1, levers1, now1) = land_kept git repo p method message w sha w1 done in
      record {
        landed =
            subst (λ s. Lands git repo p method message w.git s w'.git) (sym same)
              (subst (Lands git repo p method message w.git sha) (sym (ap (λ x. x.git) left))
                (land-Lands git repo p method message w sha w1 done));
        state_after = cc (same, left, state1, now1);
        levers_after = cc (left, levers1);
      }
