-- ===== src/Pull.antt =====
-- `pull_ops` of backend/app/sync/routes.py.
use jeeves.Common.{ℕ, Bool, [], Result, ok, ◌>>◌}
use jeeves.Crypto.{Primitives}
use jeeves.Store.{Db, Member, HttpError}
use jeeves.Ids.{require_derivable_workspace}
use jeeves.Grants.{refuse_if_revoked}
use jeeves.Log.{Page, select_page}

-- The response's ops are the page's rows, each shown as its seq and its envelope.
unfoldable pub pull_ops : Primitives → Db → ℕ → ℕ → ℕ → Bool → Member → Result HttpError Page
pull_ops lib db w since limit include_compacted member = do
  require_derivable_workspace lib w member.user_id []
  refuse_if_revoked db w member
  ok (select_page db.ops w since limit include_compacted)
