-- ===== src/Detectors/Probe.antt =====
-- pkg/detectorplugins/probe/probe.go

use arxsentinel.Common.{
  Bool, ◌||◌, List, [], ◌∷◌, ◌++◌, if◌then◌else◌, some_of, Text, codes, text_eq, has_prefix,
  has_suffix, mem,
}
use arxsentinel.Common.Int.{ℤ, pos}
use arxsentinel.Common.Doubles.{Doubles}
use arxsentinel.Event.{LogEntry}
use arxsentinel.Scorer.{DetectResult, no_result, Detector}
use arxsentinel.Detectors.{Params}

abbrev pub default_probe_paths : List Text
default_probe_paths =
    codes "/.env"
    ∷ codes "/.env.backup"
    ∷ codes "/.env.local"
    ∷ codes "/.env.production"
    ∷ codes "/.env.staging"
    ∷ codes "/config.yml"
    ∷ codes "/config.yaml"
    ∷ codes "/config.json"
    ∷ codes "/application.properties"
    ∷ codes "/settings.py"
    ∷ codes "/local_settings.py"
    ∷ codes "/database.yml"
    ∷ codes "/database.yaml"
    ∷ codes "/web.config"
    ∷ codes "/app.config"
    ∷ codes "/.git/config"
    ∷ codes "/.git/HEAD"
    ∷ codes "/.gitignore"
    ∷ codes "/.svn/entries"
    ∷ codes "/.hg/"
    ∷ codes "/.bzr/"
    ∷ codes "/.aws/credentials"
    ∷ codes "/.docker/config.json"
    ∷ codes "/aws-exports.json"
    ∷ codes "/.gcloud/credentials"
    ∷ codes "/wp-config.php"
    ∷ codes "/wp-config.php.bak"
    ∷ codes "/wp-config.php.old"
    ∷ codes "/wp-login.php"
    ∷ codes "/xmlrpc.php"
    ∷ codes "/wp-admin/"
    ∷ codes "/administrator/"
    ∷ codes "/admin/"
    ∷ codes "/phpmyadmin/"
    ∷ codes "/pma/"
    ∷ codes "/joomla/"
    ∷ codes "/drupal/"
    ∷ codes "/typo3/"
    ∷ codes "/backup.zip"
    ∷ codes "/backup.tar.gz"
    ∷ codes "/backup.sql"
    ∷ codes "/backup.sql.gz"
    ∷ codes "/db.dump"
    ∷ codes "/database.sql"
    ∷ codes "/dump.sql"
    ∷ codes "/site.sql"
    ∷ codes "/server-status"
    ∷ codes "/server-info"
    ∷ codes "/phpinfo.php"
    ∷ codes "/info.php"
    ∷ codes "/php.php"
    ∷ codes "/actuator/"
    ∷ codes "/.well-known/"
    ∷ codes "/docker-compose.yml"
    ∷ codes "/Dockerfile"
    ∷ codes "/id_rsa"
    ∷ codes "/id_dsa"
    ∷ codes "/id_ecdsa"
    ∷ codes "/id_ed25519"
    ∷ codes "/.ssh/"
    ∷ codes "/.bash_history"
    ∷ codes "/.bashrc"
    ∷ []

-- The map of the exact paths is the list of its keys.
pub record ProbeDetector : Type 0 where
  pub score : ℤ
  pub path_set : List Text
  pub prefixes : List Text

-- One round of the factory's loop, and the loop. The map drops repeated keys, which no lookup sees.
unfoldable pub add_path : Text → ProbeDetector → ProbeDetector
add_path p d =
    if has_suffix p (codes "/")
    then record d { prefixes = d.prefixes ++ (p ∷ []) }
    else record d { path_set = d.path_set ++ (p ∷ []) }

unfoldable pub add_paths : List Text → ProbeDetector → ProbeDetector
add_paths [] d = d
add_paths (p ∷ ps) d = add_paths ps (add_path p d)

unfoldable pub new_probe : (f : Doubles) → Params f → ProbeDetector
unfolding add_paths add_path
new_probe f p =
    add_paths (p.get_strings (codes "paths") default_probe_paths)
      (record { score = p.get_int (codes "score") (pos 25); path_set = []; prefixes = [] })

unfoldable pub detect_probe : ProbeDetector → LogEntry → DetectResult
detect_probe d e =
    let hit : DetectResult = record {
      score = d.score;
      module_name = codes "probe";
      reason = codes "probe:" ++ e.path;
    } in
    if mem e.path d.path_set
    then hit
    else if some_of (has_prefix e.path) d.prefixes
    then hit
    else no_result

abbrev pub probe : ProbeDetector → Detector
probe d = record { name = codes "probe"; detect = λ clock e s. (detect_probe d e, s) }

-- What the configured list means: an entry that ends with "/" is a prefix of the path, any other
-- is the path.
abbrev pub matches_entry : Text → Text → Bool
matches_entry path p = if has_suffix p (codes "/") then has_prefix path p else text_eq p path

abbrev fires : ProbeDetector → Text → Bool
fires d path = mem path d.path_set || some_of (has_prefix path) d.prefixes
