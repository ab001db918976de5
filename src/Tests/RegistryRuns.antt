-- ===== src/Tests/RegistryRuns.antt =====
-- A catalog of models, and hosts of login pages.
use qoder_cpa.Prelude.{List, [], ◌∷◌, Text, text_eq, codes, trim_space, lookup, insert}
use qoder_cpa.VerifyHost.{Url, is_loopback, has_suffix, in_allowlist, judged, validate_verify_host}

program : Unit {0}
unfolding trim_space lookup insert is_loopback has_suffix in_allowlist judged validate_verify_host
program = tt

abbrev mapping : List (Text × Text)
mapping = (codes "qoder/fast ", codes "m1") ∷ []

abbrev login : Url
login = record { scheme = codes "https"; hostname = codes "login.qoder.com" }
