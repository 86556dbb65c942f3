-- ===== src/Security.antt =====
-- security.py and api/runs.py: who may do what. Handlers take the user that
-- `get_current_user` of Auth.antt found.
use runscope.Prelude.{◌==◌, List, [], ◌∷◌, Bool, true, false, ◌||◌, not, ◌&&◌, if◌then◌else◌}
use runscope.Models.{Role, viewer, researcher, administrator, Run, User}
use runscope.Models.Store.{Result, ok, app}

abbrev pub role_eq : Role → Role → Bool
role_eq viewer viewer = true
role_eq researcher researcher = true
role_eq administrator administrator = true
role_eq _ _ = false

abbrev pub role_in : Role → List Role → Bool
role_in role [] = false
role_in role (r ∷ rs) = role_eq role r || role_in role rs

unfoldable pub require_roles : List Role → User → Result User
require_roles allowed user =
    if role_in user.role allowed then ok user else app "permission_denied" 403

-- ResearcherUser
unfoldable pub researcher_user : User → Result User
unfolding require_roles
researcher_user = require_roles (researcher ∷ administrator ∷ [])

-- AdministratorUser
unfoldable pub administrator_user : User → Result User
unfolding require_roles
administrator_user = require_roles (administrator ∷ [])

unfoldable pub ensure_run_control : User → Run → Result (Unit {0})
ensure_run_control user run =
    if not (role_eq user.role administrator) && not (run.created_by == user.id)
    then app "run_control_denied" 403
    else ok tt
