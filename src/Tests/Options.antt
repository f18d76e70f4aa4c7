-- ===== src/Tests/Options.antt =====
-- Command lines: a port with letters behind it, and one that is too large.
use rc.Base.{ℕ, List, [], ◌∷◌, ◌++◌, ◌≡◌, refl, Bytes, codes, ltb, if◌then◌else◌}
use rc.Config.Ports.{Configured, set_port-decimal, options-Configured}
use rc.Config.{set_port, server_options, server_defaults, client_options, client_defaults}
use rc.Exceptions.{return, throw, invalid_port}
use rc.Text.Decimal.{is_digit, decimal}

set_port-decimal_example :
    set_port (decimal 80 ++ codes "abc")
    ≡ (if ltb 65535 80 then throw invalid_port else return (decimal 80 ++ codes "abc"))
unfolding is_digit
set_port-decimal_example = set_port-decimal 80 (codes "abc") refl

abbrev options : List (ℕ × Bytes)
options = (b'v', []) ∷ (b'p', codes "8080") ∷ (b'p', codes "70000") ∷ []

options-Configured_example :
    Configured (λ c. c.port) (server_options options server_defaults)
    × Configured (λ c. c.port) (client_options options client_defaults)
options-Configured_example = options-Configured options
