-- ===== src/Ids.antt =====
-- backend/app/sync/ids.py: the Workspace ids that a User derives, and the gate of routes.py on them.
use jeeves.Common.{ℕ, ◌||◌, not, String, ◌==◌, Bool, Result, raise_if}
use jeeves.Codes.{workspace_not_derivable}
use jeeves.Crypto.{Primitives}
use jeeves.Store.{HttpError, Detail, forbidden}
use jeeves.Common.{List}

abbrev jeeves_workspace_namespace : ℕ
jeeves_workspace_namespace = 0xe9d4afd387e45450bd7d4fc191ff3857

abbrev user_preferences_workspace_namespace : ℕ
user_preferences_workspace_namespace = 0xc2b38d2155185ad688b1cc253ab3495f

unfoldable pub default_workspace_id : Primitives → String → ℕ
default_workspace_id lib user_id = lib.uuid5 jeeves_workspace_namespace user_id

unfoldable pub user_preferences_workspace_id : Primitives → String → ℕ
user_preferences_workspace_id lib user_id = lib.uuid5 user_preferences_workspace_namespace user_id

-- `workspace_id in derivable_workspace_ids(user_id)`
unfoldable pub is_derivable : Primitives → ℕ → String → Bool
unfolding default_workspace_id user_preferences_workspace_id
is_derivable lib workspace_id user_id =
    workspace_id == default_workspace_id lib user_id
    || workspace_id == user_preferences_workspace_id lib user_id

-- `_require_derivable_workspace`
unfoldable pub require_derivable_workspace :
    Primitives → ℕ → String → List Detail → Result HttpError (Unit {0})
require_derivable_workspace lib workspace_id user_id fields =
    raise_if (not (is_derivable lib workspace_id user_id))
      (forbidden workspace_not_derivable fields)
