-- ===== src/Config/Examples.antt =====
-- A small file of settings, and the theorem about it applied.
use harmonia_server.Prelude.{ℕ, Bool, true, false, List, [], ◌∷◌, some}
use harmonia_server.Prelude.Runes.{runes}
use harmonia_server.Config.EnvFile.{Environment, load_env_file}
use harmonia_server.Config.EnvFile.Extends.{Extends, load_env_file-Extends}

abbrev sets_all : List ℕ → Bool
sets_all key = true

abbrev port_set : Environment
port_set = (runes "PORT", runes "80") ∷ []

load_env_file-Extends_example :
    Extends port_set
      (load_env_file sets_all false
        (some (runes "export PORT=8080" ∷ runes "MUSIC='/srv/a b' # here" ∷ []))
        port_set).env
load_env_file-Extends_example =
    load_env_file-Extends sets_all false
      (some (runes "export PORT=8080" ∷ runes "MUSIC='/srv/a b' # here" ∷ [])) port_set
