-- ===== src/Dial/Loopback.antt =====
-- isLoopbackURL and isLoopbackHost, which both transports have, and which addresses a test may use.
use qoder_cpa.Prelude.{
  ℕ, Bool, false, ◌||◌, [], ◌∷◌, Text, text_eq, nat_eq, ◌==◌, nat_beq, ltb, codes, if◌then◌else◌,
  length, drop, has_prefix, mem,
}

-- The text before the first of a byte, all of it where there is none.
abbrev pub before : ℕ → Text → Text
before b [] = []
before b (c ∷ s) = if nat_beq c b then [] else c ∷ before b s

unfoldable pub is_loopback_host : Text → Bool
is_loopback_host host =
    host == codes "localhost"
    || has_prefix host (codes "127.")
    || host == codes "[::1]"
    || has_prefix host (codes "[::ffff:127")

-- What follows the scheme.
unfoldable pub host_is_loopback : Text → Bool
unfolding is_loopback_host
host_is_loopback rest =
    if mem b'@' rest
    then false
    else if mem b'?' rest || mem b'#' rest
    then false
    else is_loopback_host (before b':' (before b'/' rest))

unfoldable pub is_loopback_url : Text → Bool
unfolding host_is_loopback
is_loopback_url raw =
    if ltb (length raw) 8
    then false
    else if has_prefix raw (codes "http://")
    then host_is_loopback (drop 7 raw)
    else if has_prefix raw (codes "https://")
    then host_is_loopback (drop 8 raw)
    else false
