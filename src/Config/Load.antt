-- ===== src/Config/Load.antt =====
-- crates/moaray-config/src/lib.rs: from the text of a configuration file to the descriptor. The YAML
-- parser (`serde_yaml`) is an argument, with the text of its error: it gives what stands in the file, and
-- the fields that do not stand there get their defaults.
use moaray.Base.{String, ◌≡◌, refl}
use moaray.Base.Result.{Result, ok, err, ◌>>=◌}
use moaray.Config.Schema.{ConfigDoc, ConfigError, parse}
use moaray.Config.Runtime.{RuntimeConfig}
use moaray.Config.Rules.{Host}
use moaray.Config.Defaults.{ConfigYaml, fill}
use moaray.Config.Defaults.SpelledOut.{spell_out, fill-spell_out}
use moaray.Config.Validate.{validate}

module _ (H : Host) (from_str : String → Result (ConfigYaml H.Float) String) where
  abbrev parsed : Result (ConfigYaml H.Float) String → Result (ConfigDoc H.Float) ConfigError
  parsed (ok yaml) = ok (fill yaml)
  parsed (err e) = err (parse e)

  unfoldable pub parse_yaml : String → Result (ConfigDoc H.Float) ConfigError
  parse_yaml yaml = parsed (from_str yaml)

  unfoldable pub load_yaml : String → Result RuntimeConfig ConfigError
  unfolding parse_yaml
  load_yaml yaml = do doc ← parse_yaml yaml; validate H doc

  -- A text that spells a document out loads as that document validates.
  pub load_yaml-spelled :
      (yaml : String) (doc : ConfigDoc H.Float)
      → from_str yaml ≡ ok (spell_out doc)
      → load_yaml yaml ≡ validate H doc
  unfolding load_yaml parse_yaml
  load_yaml-spelled yaml doc h = rw (h, load_yaml, fill-spell_out doc) refl
