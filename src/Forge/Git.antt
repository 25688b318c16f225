-- ===== src/Forge/Git.antt =====
-- The git seam, src/blizzard_mock/forge/domain/git.py (`IWriteGitBackend`): what the service asks of
-- the bare repositories, over a type of git states that stays abstract. An operation that fails
-- raises, and may have changed the repositories before it does.
use blizzard_mock.Base.{Bool, String, Result}
use blizzard_mock.Forge.Models.{Repo, ForgeError}

pub record GitBackend (G : Type 0) : Type 0 where
  pub get_repo : String → String → G → Result ForgeError Repo
  pub branch_exists : Repo → String → G → Bool
  pub resolve_ref : Repo → String → G → Result ForgeError String
  -- base, head
  pub is_mergeable : Repo → String → String → G → Result ForgeError Bool
  -- ancestor, descendant
  pub is_ancestor : Repo → String → String → G → Result ForgeError Bool
  -- base, head, message; the new commit
  pub merge : Repo → String → String → String → G → Result ForgeError String × G
  pub rebase : Repo → String → String → String → G → Result ForgeError String × G
  pub squash : Repo → String → String → String → G → Result ForgeError String × G
  pub create_ref : Repo → String → String → G → Result ForgeError (Unit {0}) × G
  pub delete_ref : Repo → String → G → Result ForgeError (Unit {0}) × G
  pub update_ref : Repo → String → String → G → Result ForgeError (Unit {0}) × G
