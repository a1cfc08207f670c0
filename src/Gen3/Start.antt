-- ===== src/Gen3/Start.antt =====
-- The constructor of the first relay: `__init__` of src/dger/relay_runtime.py.
use dropbox_governed_executi.Prelude.{String, Bool, not, ◌&&◌, List, [], ◌∷◌, ◌==◌, if◌then◌else◌}
use dropbox_governed_executi.Result.{
  dger, other, Result, ok, err, raise, require, require_with, ◌>>◌,
}
use dropbox_governed_executi.Platform.{Python}
use dropbox_governed_executi.Primitives.Files.{Entry}
use dropbox_governed_executi.Guard.{assert_legacy_allowed}

-- `except LegacySurfaceRetired as exc: raise DgerError(str(exc))`
unfoldable pub retired_as_dger : Result (Unit {0}) → Result (Unit {0})
retired_as_dger (ok u) = ok u
retired_as_dger (err (dger code detail)) = err (dger code detail)
retired_as_dger (err (other name text)) =
    if name == "LegacySurfaceRetired" then raise text else err (other name text)

-- A root: what `exists()` and `is_symlink()` say of it. A link that leads nowhere does not exist.
pub record Root : Type 0 where
  pub exists : Bool
  pub is_symlink : Bool

-- The loop over the three roots.
unfoldable pub refuse_roots : List (Root × String) → Result (Unit {0})
refuse_roots [] = ok tt
refuse_roots ((root, code) ∷ l) = do
  require (not (root.exists && root.is_symlink)) code
  refuse_roots l

-- The loop over the directories, once they are made: whether each is a link.
unfoldable pub refuse_paths : List (String × Bool) → Result (Unit {0})
refuse_paths [] = ok tt
refuse_paths ((path, is_symlink) ∷ l) = do
  require_with (not is_symlink) "UNSAFE_RELAY_PATH" path
  refuse_paths l

module _ ⦃py : Python⦄ where
  -- The marker of Gen4, the roots of transport, state and host, and the directories.
  unfoldable pub start_relay :
      Bool → Entry → Root → Root → Root → List (String × Bool) → Result (Unit {0})
  unfolding retired_as_dger refuse_roots refuse_paths
  start_relay marker_exists marker transport_root state_root host_root paths = do
    retired_as_dger (assert_legacy_allowed marker_exists marker)
    refuse_roots (
        (transport_root, "UNSAFE_TRANSPORT_ROOT")
        ∷ (state_root, "UNSAFE_STATE_ROOT")
        ∷ (host_root, "UNSAFE_MOH_HOME")
        ∷ [])
    refuse_paths paths
