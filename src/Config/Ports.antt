-- ===== src/Config/Ports.antt =====
-- Which texts pass for a port, and that no configuration is without one.
use rc.Base.{
  ℕ, Bool, true, false, List, [], ◌∷◌, ◌++◌, ◌≡◌, refl, sym, subst, ◌⊎◌, inl, inr, arith, ltb, ◌==◌,
  if◌then◌else◌, Bytes, Bool-cases, none, some,
}
use rc.Base.Int.{pos, negsuc}
use rc.Config.{
  long_of, stol, checked_port, set_port, with_port, ServerConfig, server_defaults, server_options,
  ClientConfig, client_defaults, client_options, default_port,
}
use rc.Exceptions.{Result, return, throw, invalid_port, invalid_argument}
use rc.Text.Decimal.{Ends, decimal}
use rc.Text.Words.Reads.{digits_at-decimal, skip-decimal}

long_of-port :
    (n : ℕ) (port rest : Bytes)
    → checked_port port (long_of (false, some (n, rest)))
      ≡ (if ltb 65535 n then throw invalid_port else return port)
unfolding long_of
long_of-port n port rest = elim (Bool-cases (ltb 9223372036854775807 n)) [
  | inl big ↦ let large : ltb 65535 n ≡ true = ground (arith, big) in rw (big, large) refl
  | inr small ↦ rw small refl
]

-- setPort takes a text that begins with a number, whatever stands behind its digits, exactly if the
-- number is at most 65535, and keeps the text whole.
pub set_port-decimal :
    (n : ℕ) (rest : Bytes)
    → Ends rest
    → set_port (decimal n ++ rest)
      ≡ (if ltb 65535 n then throw invalid_port else return (decimal n ++ rest))
unfolding set_port stol
set_port-decimal n rest h =
    rw (skip-decimal n rest, digits_at-decimal n rest h) (long_of-port n (decimal n ++ rest) rest)

-- A text that setPort takes as it is.
abbrev pub IsPort : Bytes → Type 0
IsPort port = set_port port ≡ return port

-- A configuration with such a port, or one of the two exceptions that `main` reports.
abbrev pub Configured : {C : Type 0} → (C → Bytes) → Result C → Type 0
Configured port (return c) = IsPort (port c)
Configured port (throw e) = (e ≡ invalid_port) ⊎ (e ≡ invalid_argument)

checked_port-cases :
    (port : Bytes) (r : Result Bytes)
    → checked_port port (stol port) ≡ r
    → (r ≡ return port) ⊎ (r ≡ throw invalid_port)
checked_port-cases port r h =
    subst (λ x. (x ≡ return port) ⊎ (x ≡ throw invalid_port)) h (go (stol port))
  where
    go : (o : _) → (checked_port port o ≡ return port) ⊎ (checked_port port o ≡ throw invalid_port)
    go none = inr refl
    go (some (negsuc n)) = inr refl
    go (some (pos n)) = elim (Bool-cases (ltb 65535 n)) [
      | inl big ↦ inr (rw big refl)
      | inr small ↦ inl (rw small refl)
    ]

set_port-cases :
    (port : Bytes) → (set_port port ≡ return port) ⊎ (set_port port ≡ throw invalid_port)
unfolding set_port
set_port-cases port = checked_port-cases port (checked_port port (stol port)) refl

Configured-if :
    {C : Type 0} (port : C → Bytes) (b : Bool) (x y : Result C)
    → Configured port x
    → Configured port y
    → Configured port (if b then x else y)
Configured-if port true x y h k = h
Configured-if port false x y h k = k

with_port-Configured :
    {C : Type 0} (port : C → Bytes) (text : Bytes) (f : Bytes → Result C)
    → (IsPort text → Configured port (f text))
    → Configured port (with_port (set_port text) f)
with_port-Configured port text f h = elim (set_port-cases text) [
  | inl taken ↦ subst (λ r. Configured port (with_port r f)) (sym taken) (h taken)
  | inr refused ↦ subst (λ r. Configured port (with_port r f)) (sym refused) (inl refl)
]

server_options-Configured :
    (options : List (ℕ × Bytes)) (c : ServerConfig)
    → IsPort c.port
    → Configured (λ d. d.port) (server_options options c)
unfolding server_options
server_options-Configured [] c h = h
server_options-Configured ((opt, optarg) ∷ options) c h =
    Configured-if (λ d. d.port) (opt == b'p') _ _
      (with_port-Configured (λ d. d.port) optarg _
        (λ k. server_options-Configured options (record c { port = optarg }) k))
      (Configured-if (λ d. d.port) (opt == b'v') _ _
        (server_options-Configured options (record c { verbose = true }) h)
        (Configured-if (λ d. d.port) (opt == b'h') _ _ h (inr refl)))

client_options-Configured :
    (options : List (ℕ × Bytes)) (c : ClientConfig)
    → IsPort c.port
    → Configured (λ d. d.port) (client_options options c)
unfolding client_options
client_options-Configured [] c h = h
client_options-Configured ((opt, optarg) ∷ options) c h =
    Configured-if (λ d. d.port) (opt == b'p') _ _
      (with_port-Configured (λ d. d.port) optarg _
        (λ k. client_options-Configured options (record c { port = optarg }) k))
      (Configured-if (λ d. d.port) (opt == b'n') _ _
        (client_options-Configured options (record c { ipaddr = optarg }) h)
        (Configured-if (λ d. d.port) (opt == b'u') _ _
          (client_options-Configured options (record c { unicode = true }) h)
          (Configured-if (λ d. d.port) (opt == b'h') _ _ h (inr refl))))

default_port-IsPort : IsPort default_port
unfolding decimal
default_port-IsPort = set_port-decimal 58065 [] tt

-- Whatever options are given, in any number and order, the server's and the client's configuration
-- either fail with one of the two exceptions that their mains report, or have a port that setPort
-- takes.
pub options-Configured :
    (options : List (ℕ × Bytes))
    → Configured (λ c. c.port) (server_options options server_defaults)
      × Configured (λ c. c.port) (client_options options client_defaults)
options-Configured options = (
  server_options-Configured options server_defaults default_port-IsPort,
  client_options-Configured options client_defaults default_port-IsPort,
)
