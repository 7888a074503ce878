-- ===== src/Files.antt =====
-- The file system, as the code sees it through std::filesystem and std::ifstream: what stands on
-- disk, and how paths are taken apart, which is the platform's matter.
use rpp_cpp.Base.{ℕ, ◌<◌, ◌≡◌, ◌⊎◌, Bool, String, List, Option}

-- One entry that a directory iterator yields.
pub record Entry : Type 0 where
  pub path : String
  pub is_regular_file : Bool

pub record Filesystem : Type 0 where
  pub exists : String → Bool
  pub is_directory : String → Bool
  pub entries : String → List Entry
  -- what an std::ifstream reads; `none` where it does not open
  pub read : String → Option String
  pub parent_path : String → String
  pub filename : String → String
  pub stem : String → String
  pub extension : String → String
  pub absolute : String → String
  -- the operator / of std::filesystem::path
  pub join : String → String → String

-- A path's parent is a shorter path, or the path itself at a root.
pub record ParentsEnd (fs : Filesystem) (size : String → ℕ) : Type 0 where
  pub shorter : (p : String) → (size (fs.parent_path p) < size p) ⊎ (fs.parent_path p ≡ p)
