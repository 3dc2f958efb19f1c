-- ===== src/Metadata/Access.antt =====
-- The checks of src/storage/local/metadata_storage.rs before an extended attribute is used.
use Prim.Native.Char.{code}
use Prim.Native.String.{[], ◌∷◌}
use fleetfs.Prelude.{ℕ, String, Bool, ◌||◌, ◌==◌, str_eq, if◌then◌else◌}
use fleetfs.Base.Outcome.{
  Outcome, ok, err, guard, operation_not_permitted, invalid_xattr_namespace, ◌>>=◌,
}
use fleetfs.Base.Types.{UserContext}
use fleetfs.Metadata.{InodeAttributes}
use fleetfs.Base.Access.{check_access, r_ok}

pub data XattrNamespace : Type 0 where
  security system trusted user : XattrNamespace

-- `key.split('.').next()`: the text before the first dot. There always is one.
unfoldable pub first_part : String → String
first_part [] = []
first_part (c ∷ rest) = if code c == b'.' then [] else c ∷ first_part rest

unfoldable pub parse_xattr_namespace : String → Outcome XattrNamespace
unfolding first_part
parse_xattr_namespace key =
    let namespace = first_part key in
    if str_eq namespace "security"
    then ok security
    else if str_eq namespace "system"
    then ok system
    else if str_eq namespace "trusted"
    then ok trusted
    else if str_eq namespace "user"
    then ok user
    else err invalid_xattr_namespace

-- The match on the namespace; `granted` is what `check_access` says.
unfoldable pub namespace_check :
    XattrNamespace → String → (mask uid : ℕ) (granted : Bool) → Outcome (Unit {0})
namespace_check security key mask uid granted =
    guard (mask == r_ok || uid == 0) operation_not_permitted
namespace_check trusted key mask uid granted = guard (uid == 0) operation_not_permitted
namespace_check system key mask uid granted =
    if str_eq key "system.posix_acl_access"
    then guard granted operation_not_permitted
    else guard (uid == 0) operation_not_permitted
namespace_check user key mask uid granted = guard granted operation_not_permitted

unfoldable pub xattr_access_check : String → ℕ → InodeAttributes → UserContext → Outcome (Unit {0})
xattr_access_check key mask a context = do
  namespace ← parse_xattr_namespace key
  namespace_check namespace key mask context.uid
      (check_access a.uid a.gid a.mode context.uid context.gid mask)
