-- ===== src/Access/Levels.antt =====
-- services/access/access.go.
use gofin.Prelude.{String}

pub data Level : Type 0 where
  public : Level
  authenticated : Level
  personal : Level
  admin : Level
  deny : Level

pub Level-discrete : Discrete Level
Level-discrete = hlevel

unfoldable pub level_string : Level → String
level_string public = "Public"
level_string authenticated = "Authenticated"
level_string personal = "Personal"
level_string admin = "Admin"
level_string deny = "Deny"

pub record Route : Type 0 where
  pub id : String
  pub service : String
  pub method : String
  pub path : String
  pub access : Level
