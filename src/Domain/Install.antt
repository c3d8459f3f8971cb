-- ===== src/Domain/Install.antt =====
-- internal/core/domain/install.go: install targets and contexts. `path.Clean` is modelled by what it
-- leaves unchanged.
use heliopause.Base.{
  Bool, List, Result, [], all, false, if◌then◌else◌, is_empty, list_eq, nat_eq, not, ok, reject,
  true, ℕ, ◌&&◌, ◌==◌, ◌>>◌, ◌∷◌,
}
use heliopause.Domain.Artifact.{content_digest_eq, validate_bounded_text}
use heliopause.Text.{Text, codes}

abbrev pub max_install_target_length : ℕ
max_install_target_length = 2048

pub record InstallTarget : Type 0 where
  pub value : Text

-- The elements between the slashes of a text.
unfoldable pub split_slash : Text → List Text
split_slash [] = [] ∷ []
split_slash (c ∷ s) = elim (split_slash s) [
  | [] ↦ (c ∷ []) ∷ []
  | part ∷ parts ↦ if c == b'/' then [] ∷ part ∷ parts else (c ∷ part) ∷ parts
]

-- A rooted path other than `/` is its own `path.Clean` when no element is empty, `.` or `..`.
abbrev pub is_clean_element : Text → Bool
is_clean_element part = not (is_empty part) && not (part == codes ".") && not (part == codes "..")

unfoldable pub is_canonical_path : Text → Bool
is_canonical_path [] = false
is_canonical_path (c ∷ s) = c == b'/' && not (is_empty s) && all is_clean_element (split_slash s)

unfoldable pub new_install_target : Text → Result InstallTarget
new_install_target value = do
  validate_bounded_text value max_install_target_length "install target"
  reject (not (is_canonical_path value)) "install target must be a canonical non-root absolute path"
  ok (record { value = value })

pub data InstallMode : Type 0 where
  new_target npm_project python_venv unset : InstallMode
  other : Text → InstallMode

pub record InstallContext : Type 0 where
  pub target : InstallTarget
  pub mode : InstallMode

unfoldable pub new_install_context : InstallTarget → Result InstallContext
new_install_context target = do
  reject (is_empty target.value) "install target is required"
  ok (record { target = target; mode = new_target })

unfoldable pub new_npm_project_install_context : InstallTarget → Result InstallContext
new_npm_project_install_context root = do
  reject (is_empty root.value) "npm project root is required"
  ok (record { target = root; mode = npm_project })

unfoldable pub new_python_venv_install_context : InstallTarget → Result InstallContext
new_python_venv_install_context root = do
  reject (is_empty root.value) "python virtual environment root is required"
  ok (record { target = root; mode = python_venv })

abbrev pub is_known_mode : InstallMode → Bool
is_known_mode new_target = true
is_known_mode npm_project = true
is_known_mode python_venv = true
is_known_mode _ = false

unfoldable pub is_valid_context : InstallContext → Bool
is_valid_context c = not (is_empty c.target.value) && is_known_mode c.mode
