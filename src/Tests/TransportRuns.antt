-- ===== src/Tests/TransportRuns.antt =====
-- Profiles and decimal numbers.
use qoder_cpa.Prelude.{ℕ, none, some, text_eq, codes, ◌≡◌, refl, negsuc}
use qoder_cpa.Transport.{adapter_set_error, Selector, new_selector, itoa}

abbrev adapters : Selector ℕ
adapters = record { cosy2 = 2; cosy3 = 3; bearer = 4; cn = 5 }

missing : new_selector {A = ℕ} (some 2) none (some 4) none ≡ adapter_set_error (codes "cosy-api3")
unfolding new_selector
missing = refl

written : itoa (negsuc 10604) ≡ codes "-10605"
unfolding itoa
written = refl

-- The least 64-bit integer is its own negation, and only its sign is written.
least : itoa (negsuc 9223372036854775807) ≡ codes "-"
unfolding itoa
least = refl
